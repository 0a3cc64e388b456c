-- ===== src/Wire/Transport/Written.antt =====
-- What is ever put into the socket.
use frama_c_mcp.Prelude.{
  ℕ, zero, ◌≡◌, refl, sym, ap, ◌∙◌, true, false, List, [], ◌∷◌, ◌++◌, arith, subst, append_assoc,
  append-nil, take, Result, ok, err, inl, inr, Bool-cases,
}
use frama_c_mcp.Wire.Codec.{encode_frame}
use frama_c_mcp.Wire.Error.{FramaCError}
use frama_c_mcp.Wire.Transport.{
  Transport, WriteOutcome, complete, write_failed, write_timed_out, ReadOutcome, connect, poison,
  send_frame, recv_frame,
}
use frama_c_mcp.Wire.Transport.Steps.{Outcome, recv_loop_induction}
use frama_c_mcp.Wire.Transport.Poison.{poisoned_refuses}
use frama_c_mcp.Wire.Transport.Sequence.{stream}

-- A call on the transport, with what the socket does during it.
pub data Call : Type 0 where
  send : WriteOutcome → List ℕ → Call
  receive : List ReadOutcome → Call

-- A transport, and the payloads whose send answered ok.
abbrev pub Session : Type 0
Session = Transport × List (List ℕ)

abbrev note : List ℕ → List (List ℕ) → Transport × Result FramaCError (Unit {0}) → Session
note payload sent (t, ok _) = (t, sent ++ payload ∷ [])
note payload sent (t, err _) = (t, sent)

abbrev step : Call → Session → Session
step (send outcome payload) (t, sent) = note payload sent (send_frame outcome payload t)
step (receive reads) (t, sent) = ((recv_frame reads t).0, sent)

pub run : List Call → Session → Session
run [] s = s
run (c ∷ calls) s = run calls (step c s)

-- Whole frames while the stream is healthy; behind them at most a part of one frame once it is not.
pub data IsFramed (s : Session) : Type 0 where
  whole : s.0.poisoned ≡ false → s.0.written ≡ stream s.1 → IsFramed s
  broken :
      (p : List ℕ) (k : ℕ)
      → s.0.poisoned ≡ true
      → s.0.written ≡ stream s.1 ++ take k (encode_frame p)
      → IsFramed s

stream-concat :
    (ps : List (List ℕ)) (p : List ℕ) → stream (ps ++ p ∷ []) ≡ stream ps ++ encode_frame p
unfolding stream
stream-concat [] p = append-nil (encode_frame p)
stream-concat (q ∷ ps) p =
    ap (λ t. encode_frame q ++ t) (stream-concat ps p)
    ∙ sym (append_assoc (encode_frame q) (stream ps) (encode_frame p))

abbrev Untouched : List ℕ → Outcome → Type 0
Untouched before (t, rs, r) = t.written ≡ before

recv_frame-Untouched :
    (reads : List ReadOutcome) (t : Transport)
    → t.poisoned ≡ false
    → Untouched t.written (recv_frame reads t)
unfolding recv_frame poison
recv_frame-Untouched reads t h = simp h (
    recv_loop_induction (λ rs s r. Untouched s.written r) (λ rs s p k e. refl) (λ rs s x e. refl)
      (λ s e. refl) (λ chunk rs s e ih. ih) (λ rs s. refl) (λ rs s. refl) (λ rs s e. refl) reads t)

module _ (t : Transport) (sent : List (List ℕ)) (healthy : t.poisoned ≡ false)
    (so_far : t.written ≡ stream sent) where
  send-IsFramed :
      (outcome : WriteOutcome) (payload : List ℕ) → IsFramed (step (send outcome payload) (t, sent))
  unfolding send_frame poison
  send-IsFramed complete payload =
      let done : step (send complete payload) (t, sent)
          ≡ (record t { written = t.written ++ encode_frame payload }, sent ++ payload ∷ []) =
        ground arith in
      subst IsFramed (sym done) (
        whole healthy
          (ap (λ w. w ++ encode_frame payload) so_far ∙ sym (stream-concat sent payload)))
  send-IsFramed (write_failed k) payload =
      let failed : step (send (write_failed k) payload) (t, sent) ≡ (
        record t {
          written = t.written ++ take k (encode_frame payload);
          poisoned = true;
          closed = true;
        },
        sent,
      ) =
        ground arith in
      subst IsFramed (sym failed)
        (broken payload k refl (ap (λ w. w ++ take k (encode_frame payload)) so_far))
  send-IsFramed (write_timed_out k) payload =
      let failed : step (send (write_timed_out k) payload) (t, sent) ≡ (
        record t {
          written = t.written ++ take k (encode_frame payload);
          poisoned = true;
          closed = true;
        },
        sent,
      ) =
        ground arith in
      subst IsFramed (sym failed)
        (broken payload k refl (ap (λ w. w ++ take k (encode_frame payload)) so_far))

  receive-IsFramed : (reads : List ReadOutcome) → IsFramed (step (receive reads) (t, sent))
  receive-IsFramed reads =
      let kept = recv_frame-Untouched reads t healthy ∙ so_far in
      elim (Bool-cases (recv_frame reads t).0.poisoned) [
        | inl p ↦ broken [] zero p (kept ∙ sym (append-nil (stream sent)))
        | inr p ↦ whole p kept
      ]

-- No call changes a poisoned transport.
step-poisoned : (c : Call) (s : Session) → s.0.poisoned ≡ true → step c s ≡ s
step-poisoned (send outcome payload) s h =
    ap (note payload s.1) (poisoned_refuses s.0 outcome payload [] h).0
step-poisoned (receive reads) s h =
    ap (λ (r : Outcome). (r.0, s.1)) (poisoned_refuses s.0 complete [] reads h).1

step-IsFramed : (c : Call) (s : Session) → IsFramed s → IsFramed (step c s)
step-IsFramed (send outcome payload) s (whole h e) = send-IsFramed s.0 s.1 h e outcome payload
step-IsFramed (receive reads) s (whole h e) = receive-IsFramed s.0 s.1 h e reads
step-IsFramed c s (broken p k h e) = subst IsFramed (sym (step-poisoned c s h)) (broken p k h e)

run_from-IsFramed : (calls : List Call) (s : Session) → IsFramed s → IsFramed (run calls s)
unfolding run
run_from-IsFramed [] s f = f
run_from-IsFramed (c ∷ calls) s f = run_from-IsFramed calls (step c s) (step-IsFramed c s f)

-- Whatever is sent and received on a new transport, and however the writes and reads end: while it is
-- healthy the socket holds exactly the frames of the sends that answered ok, and once it is poisoned
-- at most one part of a frame stands behind them.
pub run-IsFramed : (calls : List Call) → IsFramed (run calls (connect, []))
unfolding connect stream
run-IsFramed calls = run_from-IsFramed calls (connect, []) (whole refl refl)
