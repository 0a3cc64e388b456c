-- ===== src/Wire/Transport.antt =====
-- The stream under the frames (src/frama-c/transport.rs). What the socket does is an argument: the
-- outcome of a write, and the outcomes of the reads that are still to come.
pub mod Steps
pub mod Poison
pub mod Stream
pub mod Sequence
pub mod Written
use frama_c_mcp.Prelude.{
  ℕ, Bool, true, false, Option, none, some, List, [], ◌∷◌, ◌++◌, Result, ok, err, take, drop,
  if◌then◌else◌,
}
use frama_c_mcp.Wire.Codec.{encode_frame, decode_frame}
use frama_c_mcp.Wire.Error.{
  FramaCError, io, connection_closed, poisoned_transport, system, invalid_frame, timeout,
}

-- `written` is what has gone into the socket, `closed` is set when this side shuts the stream down.
pub record Transport : Type 0 where
  pub read_buf : List ℕ
  pub poisoned : Bool
  pub closed : Bool
  pub written : List ℕ

-- How a write ends: the whole frame went out, or the first `k` bytes of it did.
pub data WriteOutcome : Type 0 where
  complete : WriteOutcome
  write_failed write_timed_out : ℕ → WriteOutcome

pub data ReadOutcome : Type 0 where
  bytes : List ℕ → ReadOutcome
  end_of_stream read_failed read_timed_out : ReadOutcome

-- What a call of `recv_frame` comes to: it waits for a read that has not ended, or it answers.
pub data Received : Type 0 where
  waiting : Received
  answer : Result FramaCError (Option (List ℕ)) → Received

-- a Duration of ten seconds, in milliseconds
abbrev write_timeout : ℕ
write_timeout = 10000

unfoldable pub connect : Transport
connect = record { read_buf = []; poisoned = false; closed = false; written = [] }

unfoldable pub poison : Transport → Transport
poison t = record t { poisoned = true; closed = true }

abbrev put : List ℕ → Transport → Transport
put sent t = record t { written = t.written ++ sent }

unfoldable pub send_frame :
    WriteOutcome → List ℕ → Transport → Transport × Result FramaCError (Unit {0})
unfolding poison
send_frame outcome payload t =
    let frame = encode_frame payload in
    if t.poisoned then (t, err (io poisoned_transport)) else elim outcome [
      | complete ↦ (put frame t, ok tt)
      | write_failed k ↦ (poison (put (take k frame) t), err (io system))
      | write_timed_out k ↦ (poison (put (take k frame) t), err (timeout write_timeout))
    ]

-- the loop of `recv_frame`; the second result is the reads that have not been made
pub recv_loop : List ReadOutcome → Transport → Transport × List ReadOutcome × Received
unfolding poison
recv_loop [] t = elim (decode_frame t.read_buf) [
  | ok (some (payload, consumed)) ↦
      (record t { read_buf = drop consumed t.read_buf }, [], answer (ok (some payload)))
  | ok none ↦ (t, [], waiting)
  | err e ↦ (poison t, [], answer (err (invalid_frame e)))
]
recv_loop (r ∷ rs) t = elim (decode_frame t.read_buf) [
  | ok (some (payload, consumed)) ↦
      (record t { read_buf = drop consumed t.read_buf }, r ∷ rs, answer (ok (some payload)))
  | ok none ↦ elim r [
    | bytes chunk ↦ recv_loop rs (record t { read_buf = t.read_buf ++ chunk })
    | end_of_stream ↦ (poison t, rs, answer (err (io connection_closed)))
    | read_failed ↦ (poison t, rs, answer (err (io system)))
    | read_timed_out ↦ (t, rs, answer (ok none))
  ]
  | err e ↦ (poison t, r ∷ rs, answer (err (invalid_frame e)))
]

unfoldable pub recv_frame : List ReadOutcome → Transport → Transport × List ReadOutcome × Received
unfolding recv_loop
recv_frame reads t =
    if t.poisoned then (t, reads, answer (err (io poisoned_transport))) else recv_loop reads t
