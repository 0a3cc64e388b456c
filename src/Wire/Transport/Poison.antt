-- ===== src/Wire/Transport/Poison.antt =====
-- When the stream is given up, and that it stays so.
use frama_c_mcp.Prelude.{ℕ, ◌≡◌, refl, Bool, true, false, List, arith, ok, err}
use frama_c_mcp.Wire.Error.{io, poisoned_transport}
use frama_c_mcp.Wire.Transport.{
  Transport, WriteOutcome, ReadOutcome, waiting, answer, poison, send_frame, recv_loop, recv_frame,
}
use frama_c_mcp.Wire.Transport.Steps.{Outcome, recv_loop_induction}

-- On a poisoned stream a send and a receive fail at once, write and read nothing, and change nothing.
pub poisoned_refuses :
    (t : Transport) (outcome : WriteOutcome) (payload : List ℕ) (reads : List ReadOutcome)
    → t.poisoned ≡ true
    → (send_frame outcome payload t ≡ (t, err (io poisoned_transport)))
      × (recv_frame reads t ≡ (t, reads, answer (err (io poisoned_transport))))
unfolding send_frame recv_frame
poisoned_refuses t outcome payload reads h = (ground arith, ground arith)

-- What every end of a receive says of the stream.
abbrev pub Settled : Bool → Outcome → Type 0
Settled before (t, rest, waiting) = (t.poisoned ≡ false) × (t.closed ≡ before)
Settled before (t, rest, answer (ok p)) = (t.poisoned ≡ false) × (t.closed ≡ before)
Settled before (t, rest, answer (err e)) = (t.poisoned ≡ true) × (t.closed ≡ true)

recv_loop-Settled :
    (reads : List ReadOutcome) (t : Transport)
    → t.poisoned ≡ false
    → Settled t.closed (recv_loop reads t)
unfolding poison
recv_loop-Settled =
    recv_loop_induction (λ reads t r. t.poisoned ≡ false → Settled t.closed r)
      (λ reads t payload consumed e h. (h, refl)) (λ reads t x e h. (refl, refl))
      (λ t e h. (h, refl)) (λ chunk rs t e rest. rest) (λ rs t h. (refl, refl))
      (λ rs t h. (refl, refl)) (λ rs t e h. (h, refl))

-- A receive on a healthy stream poisons it and shuts it down exactly when it answers an error: a
-- payload and a read that merely times out leave it healthy and open as it was.
pub recv_frame-Settled :
    (reads : List ReadOutcome) (t : Transport)
    → t.poisoned ≡ false
    → Settled t.closed (recv_frame reads t)
unfolding recv_frame
recv_frame-Settled reads t h = simp h (recv_loop-Settled reads t h)
