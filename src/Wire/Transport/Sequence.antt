-- ===== src/Wire/Transport/Sequence.antt =====
-- Many receives in a row: all frames of a stream, in order.
use frama_c_mcp.Prelude.{
  ℕ, zero, suc, ◌+◌, ◌≤◌, ◌<◌, ◌≡◌, refl, ap, ◌∙◌, none, some, List, [], ◌∷◌, ◌++◌, arith, All, ok,
  err, length, append_assoc,
}
use frama_c_mcp.Wire.Codec.{encode_frame, decode_frame}
use frama_c_mcp.Wire.Transport.{Transport, ReadOutcome, waiting, answer, recv_frame}
use frama_c_mcp.Wire.Transport.Steps.{Outcome, recv_loop_induction}
use frama_c_mcp.Wire.Transport.Stream.{IsText, Carries, Delivers, incoming, recv_frame-Delivers}

-- The frames of some payloads, one behind the other.
unfoldable pub stream : List (List ℕ) → List ℕ
stream [] = []
stream (p ∷ ps) = encode_frame p ++ stream ps

abbrev next : (List ReadOutcome → Transport → List (List ℕ)) → Outcome → List (List ℕ)
next rest (t, rs, waiting) = []
next rest (t, rs, answer (ok (some p))) = p ∷ rest rs t
next rest (t, rs, answer (ok none)) = rest rs t
next rest (t, rs, answer (err e)) = []

-- What `fuel` receives yield, up to one that waits or fails.
pub receive_all : ℕ → List ReadOutcome → Transport → List (List ℕ)
receive_all zero reads t = []
receive_all (suc fuel) reads t = next (receive_all fuel) (recv_frame reads t)

-- With nothing to come a receive waits, or times out.
abbrev Quiet : ℕ → Outcome → Type 0
Quiet n (t, rs, waiting) = Unit
Quiet n (t, rs, answer (ok none)) = Carries [] rs t × (suc (length rs) ≤ n)
Quiet n (t, rs, answer (ok (some p))) = ⊥
Quiet n (t, rs, answer (err e)) = ⊥

nothing_left : (xs ys : List ℕ) → xs ++ ys ≡ [] → xs ≡ []
nothing_left [] ys h = refl
nothing_left (x ∷ xs) ys h = cc

empty-decode :
    (reads : List ReadOutcome) (t : Transport)
    → Carries [] reads t
    → decode_frame t.read_buf ≡ ok none
unfolding decode_frame
empty-decode reads t c = ap decode_frame (nothing_left t.read_buf (incoming reads) c.bytes_eq)

recv_frame-Quiet :
    (reads : List ReadOutcome) (t : Transport)
    → Carries [] reads t
    → Quiet (length reads) (recv_frame reads t)
unfolding recv_frame
recv_frame-Quiet reads t c = simp c.healthy (
    recv_loop_induction (λ rs s r. (n : ℕ) → length rs ≤ n → Carries [] rs s → Quiet n r)
      (λ rs s p k e n fits h. cc (empty-decode rs s h))
      (λ rs s x e n fits h. cc (empty-decode rs s h)) (λ s e n fits h. tt)
      (λ chunk rs s e ih n fits h. ih n (omega arith) (record {
        healthy = h.healthy;
        calm = h.calm.1;
        bytes_eq = append_assoc s.read_buf chunk (incoming rs) ∙ h.bytes_eq;
      }))
      (λ rs s n fits k. elim k.calm.0 [ ]) (λ rs s n fits k. elim k.calm.0 [ ])
      (λ rs s e n fits k.
        (record { healthy = k.healthy; calm = k.calm.1; bytes_eq = k.bytes_eq }, fits))
      reads t (length reads) (omega arith) c)

next-Quiet :
    (k : List ReadOutcome → Transport → List (List ℕ)) (n : ℕ) (r : Outcome)
    → ((rs : List ReadOutcome) (t : Transport)
        → suc (length rs) ≤ n
        → Carries [] rs t
        → k rs t ≡ [])
    → Quiet n r
    → next k r ≡ []
next-Quiet k n (t, rs, waiting) ih q = refl
next-Quiet k n (t, rs, answer (ok none)) ih q = ih rs t q.1 q.0
next-Quiet k n (t, rs, answer (ok (some p))) ih q = elim q [ ]
next-Quiet k n (t, rs, answer (err e)) ih q = elim q [ ]

receive_all_quiet :
    (fuel : ℕ) (reads : List ReadOutcome) (t : Transport)
    → Carries [] reads t
    → receive_all fuel reads t ≡ []
unfolding receive_all
receive_all_quiet zero reads t c = refl
receive_all_quiet (suc fuel) reads t c =
    next-Quiet (receive_all fuel) (length reads) (recv_frame reads t)
      (λ rs s _ h. receive_all_quiet fuel rs s h) (recv_frame-Quiet reads t c)

next-Delivers :
    (k : List ReadOutcome → Transport → List (List ℕ)) (p rest : List ℕ) (ps : List (List ℕ))
    (n : ℕ) (r : Outcome)
    → ((rs : List ReadOutcome) (t : Transport) → length rs ≤ n → Carries rest rs t → k rs t ≡ ps)
    → ((rs : List ReadOutcome) (t : Transport)
        → suc (length rs) ≤ n
        → Carries (encode_frame p ++ rest) rs t
        → k rs t ≡ p ∷ ps)
    → Delivers p rest n r
    → next k r ≡ p ∷ ps
next-Delivers k p rest ps n (t, rs, waiting) got again d = elim d [ ]
next-Delivers k p rest ps n (t, rs, answer (ok none)) got again d = again rs t d.1 d.0
next-Delivers k p rest ps n (t, rs, answer (ok (some q))) got again d = cc (got rs t d.2 d.1, d.0)
next-Delivers k p rest ps n (t, rs, answer (err e)) got again d = elim d [ ]

-- A calm stream that carries the frames of `ps` yields exactly `ps`, in order, however it is cut into
-- reads and however often a read times out, as long as there are more receives than payloads and
-- reads together.
pub receive_all-stream :
    (ps : List (List ℕ)) (fuel : ℕ) (reads : List ReadOutcome) (t : Transport)
    → All IsText ps
    → length ps + length reads < fuel
    → Carries (stream ps) reads t
    → receive_all fuel reads t ≡ ps
unfolding receive_all stream
receive_all-stream ps zero reads t texts h c = absurd (omega arith)
receive_all-stream [] (suc fuel) reads t texts h c = receive_all_quiet (suc fuel) reads t c
receive_all-stream (p ∷ ps) (suc fuel) reads t texts h c =
    next-Delivers (receive_all fuel) p (stream ps) ps (length reads) (recv_frame reads t)
      (λ rs s le k. receive_all-stream ps fuel rs s texts.1 (omega arith) k)
      (λ rs s lt k. receive_all-stream (p ∷ ps) fuel rs s texts (omega arith) k)
      (recv_frame-Delivers p (stream ps) texts.0 reads t c)
