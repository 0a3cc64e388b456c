-- ===== src/Wire/Codec.antt =====
-- Frames of the Frama-C Server protocol (src/frama-c/codec.rs): a letter, a length in hex digits and
-- the payload. Bytes are numbers below 256, and a text on the wire is its UTF-8 bytes.
pub mod Hex
pub mod Utf8
pub mod Stable
pub mod RoundTrip
use frama_c_mcp.Prelude.{
  ℕ, suc, ◌+◌, ◌*◌, Option, none, some, List, [], ◌∷◌, ◌++◌, Result, ok, err, length, take, drop,
  ltb, leb, ◌==◌, if◌then◌else◌,
}
use Hex.{padded, from_str_radix}
use Utf8.{utf8_ok}

-- Why a buffer is no frame: the texts of `InvalidFrame`.
pub data FrameError : Type 0 where
  bad_prefix : ℕ → FrameError
  header_not_utf8 bad_hex payload_not_utf8 : FrameError
  too_long : ℕ → FrameError

abbrev pub max_frame_payload_bytes : ℕ
max_frame_payload_bytes = 256 * 1024 * 1024

unfoldable pub encode_frame : List ℕ → List ℕ
encode_frame payload =
    let len = length payload in
    let header =
      if leb len 0xfff
      then b'S' ∷ padded 3 len
      else if leb len 0xfffffff
      then b'L' ∷ padded 7 len
      else b'W' ∷ padded 15 len in
    header ++ payload

-- How many hex digits follow the letter.
abbrev pub hex_len : ℕ → Option ℕ
hex_len b =
    if b == b'S' then some 3 else if b == b'L' then some 7 else if b == b'W' then some 15 else none

-- the payload's bytes, once the length is known
pub decode_payload : ℕ → ℕ → List ℕ → Result FrameError (Option (List ℕ × ℕ))
decode_payload header_len payload_len buf =
    let total = header_len + payload_len in
    let payload = take payload_len (drop header_len buf) in
    if ltb max_frame_payload_bytes payload_len
    then err (too_long payload_len)
    else if ltb (length buf) total
    then ok none
    else if utf8_ok payload
    then ok (some (payload, total))
    else err payload_not_utf8

-- the rest of the frame, once the letter is known
pub decode_header : ℕ → List ℕ → Result FrameError (Option (List ℕ × ℕ))
decode_header digits buf =
    let header_len = 1 + digits in
    let hex_str = take digits (drop 1 buf) in
    if ltb (length buf) header_len
    then ok none
    else if utf8_ok hex_str
    then (elim (from_str_radix hex_str) [
      | none ↦ err bad_hex
      | some payload_len ↦ decode_payload header_len payload_len buf
    ])
    else err header_not_utf8

unfoldable pub decode_frame : List ℕ → Result FrameError (Option (List ℕ × ℕ))
unfolding decode_header decode_payload
decode_frame [] = ok none
decode_frame (b ∷ bs) = elim (hex_len b) [
  | none ↦ err (bad_prefix b)
  | some digits ↦ decode_header digits (b ∷ bs)
]
