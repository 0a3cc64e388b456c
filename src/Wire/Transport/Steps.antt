-- ===== src/Wire/Transport/Steps.antt =====
-- One round of the receive loop, by what the buffer decodes to.
use frama_c_mcp.Prelude.{
  ℕ, ◌≡◌, none, some, List, [], ◌∷◌, ◌++◌, drop, ok, err, Answer-cases, inl, inr,
}
use frama_c_mcp.Wire.Codec.{decode_frame, FrameError}
use frama_c_mcp.Wire.Error.{io, connection_closed, system, invalid_frame}
use frama_c_mcp.Wire.Transport.{
  Transport, ReadOutcome, bytes, end_of_stream, read_failed, read_timed_out, Received, waiting,
  answer, poison, recv_loop,
}

module _ (t : Transport) where
  pub recv_loop-found :
      (reads : List ReadOutcome) {payload : List ℕ} {consumed : ℕ}
      → decode_frame t.read_buf ≡ ok (some (payload, consumed))
      → recv_loop reads t
        ≡ (record t { read_buf = drop consumed t.read_buf }, reads, answer (ok (some payload)))
  unfolding recv_loop
  recv_loop-found [] e = rw (e, recv_loop)
  recv_loop-found (r ∷ rs) e = rw (e, recv_loop)

  pub recv_loop-bad :
      (reads : List ReadOutcome) {e : FrameError}
      → decode_frame t.read_buf ≡ err e
      → recv_loop reads t ≡ (poison t, reads, answer (err (invalid_frame e)))
  unfolding recv_loop
  recv_loop-bad [] e = rw (e, recv_loop)
  recv_loop-bad (r ∷ rs) e = rw (e, recv_loop)

  -- what the next read makes of the call, when the buffer holds no whole frame
  abbrev pub after_read : List ReadOutcome → Transport × List ReadOutcome × Received
  after_read [] = (t, [], waiting)
  after_read (bytes chunk ∷ rs) = recv_loop rs (record t { read_buf = t.read_buf ++ chunk })
  after_read (end_of_stream ∷ rs) = (poison t, rs, answer (err (io connection_closed)))
  after_read (read_failed ∷ rs) = (poison t, rs, answer (err (io system)))
  after_read (read_timed_out ∷ rs) = (t, rs, answer (ok none))

  pub recv_loop-more :
      (reads : List ReadOutcome)
      → decode_frame t.read_buf ≡ ok none
      → recv_loop reads t ≡ after_read reads
  unfolding recv_loop
  recv_loop-more [] e = rw (e, recv_loop)
  recv_loop-more (bytes chunk ∷ rs) e = rw (e, recv_loop)
  recv_loop-more (end_of_stream ∷ rs) e = rw (e, recv_loop)
  recv_loop-more (read_failed ∷ rs) e = rw (e, recv_loop)
  recv_loop-more (read_timed_out ∷ rs) e = rw (e, recv_loop)

abbrev pub Outcome : Type 0
Outcome = Transport × List ReadOutcome × Received

-- To show a property of a receive, show it of each way in which the call can end, and carry it over
-- a read that brings bytes.
module _ {ℓ} (P : List ReadOutcome → Transport → Outcome → Type ℓ)
    (found : (reads : List ReadOutcome) (t : Transport) (payload : List ℕ) (consumed : ℕ)
      → decode_frame t.read_buf ≡ ok (some (payload, consumed))
      → P reads t
          (record t { read_buf = drop consumed t.read_buf }, reads, answer (ok (some payload))))
    (bad : (reads : List ReadOutcome) (t : Transport) (e : FrameError)
      → decode_frame t.read_buf ≡ err e
      → P reads t (poison t, reads, answer (err (invalid_frame e))))
    (idle : (t : Transport) → decode_frame t.read_buf ≡ ok none → P [] t (t, [], waiting))
    (more : (chunk : List ℕ) (rs : List ReadOutcome) (t : Transport)
      → decode_frame t.read_buf ≡ ok none
      → P rs
          (record t { read_buf = t.read_buf ++ chunk })
          (recv_loop rs (record t { read_buf = t.read_buf ++ chunk }))
      → P (bytes chunk ∷ rs) t (recv_loop rs (record t { read_buf = t.read_buf ++ chunk })))
    (ended : (rs : List ReadOutcome) (t : Transport)
      → P (end_of_stream ∷ rs) t (poison t, rs, answer (err (io connection_closed))))
    (failed : (rs : List ReadOutcome) (t : Transport)
      → P (read_failed ∷ rs) t (poison t, rs, answer (err (io system))))
    (late : (rs : List ReadOutcome) (t : Transport)
      → decode_frame t.read_buf ≡ ok none
      → P (read_timed_out ∷ rs) t (t, rs, answer (ok none))) where
  round :
      (reads : List ReadOutcome) (t : Transport)
      → (decode_frame t.read_buf ≡ ok none → P reads t (after_read t reads))
      → P reads t (recv_loop reads t)
  round reads t next = elim (Answer-cases (decode_frame t.read_buf)) [
    | inl e ↦ rw (recv_loop-more t reads e) (next e)
    | inr (inl ((payload, consumed), e)) ↦
        rw (recv_loop-found t reads e) (found reads t payload consumed e)
    | inr (inr (x, e)) ↦ rw (recv_loop-bad t reads e) (bad reads t x e)
  ]

  pub recv_loop_induction :
      (reads : List ReadOutcome) (t : Transport) → P reads t (recv_loop reads t)
  recv_loop_induction [] t = round [] t (idle t)
  recv_loop_induction (bytes chunk ∷ rs) t =
      let rest = recv_loop_induction rs (record t { read_buf = t.read_buf ++ chunk }) in
      round (bytes chunk ∷ rs) t (λ e. more chunk rs t e rest)
  recv_loop_induction (end_of_stream ∷ rs) t = round (end_of_stream ∷ rs) t (λ _. ended rs t)
  recv_loop_induction (read_failed ∷ rs) t = round (read_failed ∷ rs) t (λ _. failed rs t)
  recv_loop_induction (read_timed_out ∷ rs) t = round (read_timed_out ∷ rs) t (late rs t)
