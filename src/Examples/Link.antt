-- ===== src/Examples/Link.antt =====
-- Frames and transports: a small payload, cut into reads.
use frama_c_mcp.Prelude.{
  ℕ, ◌≡◌, refl, true, false, List, [], ◌∷◌, ◌++◌, length, take, some, none, ok, err, arith,
}
use frama_c_mcp.Wire.Codec.{encode_frame, decode_frame}
use frama_c_mcp.Wire.Codec.Hex.{padded, from_str_radix}
use frama_c_mcp.Wire.Codec.Utf8.{utf8_ok}
use frama_c_mcp.Wire.Codec.Stable.{IsFrame, decode_frame-IsFrame}
use frama_c_mcp.Wire.Codec.RoundTrip.{decode_frame-encode_frame, decode_frame-prefix}
use frama_c_mcp.Wire.Error.{io, poisoned_transport}
use frama_c_mcp.Wire.Transport.{
  Transport, complete, write_failed, ReadOutcome, bytes, end_of_stream, read_timed_out, answer,
  connect, send_frame, recv_frame,
}
use frama_c_mcp.Wire.Transport.Poison.{poisoned_refuses, recv_frame-Settled, Settled}
use frama_c_mcp.Wire.Transport.Stream.{Delivers, recv_frame-Delivers}
use frama_c_mcp.Wire.Transport.Sequence.{stream, receive_all, receive_all-stream}
use frama_c_mcp.Wire.Transport.Written.{send, receive, run, IsFramed, run-IsFramed}

-- an empty JSON object
abbrev braces : List ℕ
braces = 123 ∷ 125 ∷ []

-- its frame
abbrev frame : List ℕ
frame = b'S' ∷ b'0' ∷ b'0' ∷ b'2' ∷ 123 ∷ 125 ∷ []

encode_frame_test : encode_frame braces ≡ frame
unfolding encode_frame padded utf8_ok
encode_frame_test = refl

-- a sign passes for a hex digit
signed_header_test : decode_frame (b'S' ∷ b'+' ∷ b'0' ∷ b'2' ∷ braces) ≡ ok (some (braces, 6))
unfolding decode_frame utf8_ok from_str_radix
signed_header_test = refl

decode_frame_test : decode_frame frame ≡ ok (some (braces, 6))
unfolding decode_frame utf8_ok from_str_radix
decode_frame_test = refl

decode_frame-IsFrame_example : IsFrame frame braces 6
decode_frame-IsFrame_example = decode_frame-IsFrame frame decode_frame_test

decode_frame-encode_frame_example :
    decode_frame (encode_frame braces ++ frame) ≡ ok (some (braces, length (encode_frame braces)))
unfolding utf8_ok
decode_frame-encode_frame_example = decode_frame-encode_frame braces frame (omega arith) refl

decode_frame-prefix_example : decode_frame (take 5 (encode_frame braces)) ≡ ok none
unfolding encode_frame padded utf8_ok
decode_frame-prefix_example = decode_frame-prefix braces 5 (omega arith) refl (omega arith)

abbrev broken : Transport
broken = record { read_buf = []; poisoned = true; closed = true; written = [] }

abbrev fresh : Transport
fresh = record { read_buf = []; poisoned = false; closed = false; written = [] }

-- the frame in two parts, with a read between them that times out
abbrev parts : List ReadOutcome
parts = bytes (b'S' ∷ b'0' ∷ []) ∷ read_timed_out ∷ bytes (b'0' ∷ b'2' ∷ 123 ∷ 125 ∷ []) ∷ []

poisoned_refuses_example :
    (send_frame complete braces broken ≡ (broken, err (io poisoned_transport)))
    × (recv_frame parts broken ≡ (broken, parts, answer (err (io poisoned_transport))))
poisoned_refuses_example = poisoned_refuses broken complete braces parts refl

recv_frame-Settled_example : Settled false (recv_frame (end_of_stream ∷ []) fresh)
recv_frame-Settled_example = recv_frame-Settled (end_of_stream ∷ []) fresh refl

recv_frame-Delivers_example : Delivers braces [] 3 (recv_frame parts fresh)
unfolding encode_frame padded utf8_ok
recv_frame-Delivers_example =
    recv_frame-Delivers braces [] (record { within = omega arith; valid = refl }) parts fresh
      (record { healthy = refl; calm = (tt, (tt, (tt, tt))); bytes_eq = refl })

receive_all-stream_example : receive_all 5 parts fresh ≡ braces ∷ []
unfolding encode_frame padded utf8_ok stream
receive_all-stream_example =
    receive_all-stream (braces ∷ []) 5 parts fresh
      (record { within = omega arith; valid = refl }, tt) (omega arith)
      (record { healthy = refl; calm = (tt, (tt, (tt, tt))); bytes_eq = refl })

run-IsFramed_example :
    IsFramed
      (run (send complete braces ∷ receive parts ∷ send (write_failed 3) braces ∷ []) (connect, []))
run-IsFramed_example =
    run-IsFramed (send complete braces ∷ receive parts ∷ send (write_failed 3) braces ∷ [])
