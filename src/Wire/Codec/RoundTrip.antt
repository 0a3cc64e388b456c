-- ===== src/Wire/Codec/RoundTrip.antt =====
-- Frames that this side writes are read back, whole and never early.
use frama_c_mcp.Prelude.{
  ℕ, suc, ◌+◌, ◌≤◌, ◌<◌, ◌≡◌, ◌≢◌, refl, sym, ap, ◌∙◌, Option, none, some, List, [], ◌∷◌, ◌++◌,
  arith, append_assoc, append-nil, Result, ok, err, length, take, drop, length-append, length-take,
  take-append, drop-append, take-append-drop, inl, inr, true, leb, Bool-cases,
}
use frama_c_mcp.Wire.Codec.{
  encode_frame, decode_frame, hex_len, decode_header, decode_payload, max_frame_payload_bytes,
  FrameError,
}
use frama_c_mcp.Wire.Codec.Hex.{
  padded, from_str_radix, pow16, length-padded, from_str_radix-padded, padded_ascii,
}
use frama_c_mcp.Wire.Codec.Utf8.{utf8_ok, utf8_ok_ascii}
use frama_c_mcp.Wire.Codec.Stable.{decode_frame-append, IsFrame-le, decode_frame-IsFrame}

one_add : (n : ℕ) → 1 + n ≡ suc n
one_add n = omega arith

module _ (b : ℕ) (hex payload rest : List ℕ) where
  abbrev whole : List ℕ
  whole = b ∷ (hex ++ (payload ++ rest))

  length-whole : length whole ≡ suc (length hex + length payload + length rest)
  length-whole = omega (arith, length-append hex (payload ++ rest), length-append payload rest)

  decode_payload-whole :
      length payload ≤ max_frame_payload_bytes
      → utf8_ok payload ≡ true
      → decode_payload (1 + length hex) (length payload) whole
        ≡ ok (some (payload, 1 + length hex + length payload))
  unfolding decode_payload
  decode_payload-whole within valid =
      let tail : drop (1 + length hex) whole ≡ payload ++ rest =
        ap (λ k. drop k whole) (one_add (length hex)) ∙ drop-append hex (payload ++ rest) in
      let body : take (length payload) (drop (1 + length hex) whole) ≡ payload =
        rw tail (take-append payload rest) in
      ground (arith, length-whole)

  decode_header-whole :
      length payload ≤ max_frame_payload_bytes
      → utf8_ok payload ≡ true
      → utf8_ok hex ≡ true
      → from_str_radix hex ≡ some (length payload)
      → decode_header (length hex) whole ≡ ok (some (payload, 1 + length hex + length payload))
  unfolding decode_header
  decode_header-whole within valid ascii reads =
      let text : take (length hex) (drop 1 whole) ≡ hex = take-append hex (payload ++ rest) in
      ground (arith, length-whole, decode_payload-whole)

-- A frame under each letter: `w` hex digits hold the length.
module _ (w : ℕ) (payload rest : List ℕ) where
  decode_header-padded :
      (b : ℕ)
      → 0 < w
      → length payload < pow16 w
      → length payload ≤ max_frame_payload_bytes
      → utf8_ok payload ≡ true
      → decode_header w (b ∷ (padded w (length payload) ++ (payload ++ rest)))
        ≡ ok (some (payload, 1 + w + length payload))
  decode_header-padded b pos fits within valid =
      let size = length-padded w (length payload) fits in
      let decoded =
        decode_header-whole b (padded w (length payload)) payload rest within valid
          (utf8_ok_ascii (padded w (length payload)) (padded_ascii w (length payload) fits))
          (from_str_radix-padded w (length payload) pos fits) in
      rw size at decoded

  decode_frame-padded :
      (b : ℕ)
      → hex_len b ≡ some w
      → 0 < w
      → length payload < pow16 w
      → length payload ≤ max_frame_payload_bytes
      → utf8_ok payload ≡ true
      → decode_frame ((b ∷ padded w (length payload) ++ payload) ++ rest)
        ≡ ok (some (payload, length (b ∷ padded w (length payload) ++ payload)))
  unfolding decode_frame
  decode_frame-padded b letter pos fits within valid =
      let text = padded w (length payload) in
      let size : length (b ∷ text ++ payload) ≡ 1 + w + length payload =
        omega (arith, length-append text payload, length-padded w (length payload) fits) in
      rw (size, append_assoc text payload rest) (ground (arith, decode_header-padded b))

-- Every text within the limit is read back from its frame, with the frame's length, whatever bytes
-- follow.
pub decode_frame-encode_frame :
    (payload rest : List ℕ)
    → length payload ≤ max_frame_payload_bytes
    → utf8_ok payload ≡ true
    → decode_frame (encode_frame payload ++ rest)
      ≡ ok (some (payload, length (encode_frame payload)))
unfolding encode_frame
decode_frame-encode_frame payload rest within valid =
    elim (Bool-cases (leb (length payload) 0xfff)) [
      | inl short ↦
          rw short
            (decode_frame-padded 3 payload rest b'S' refl (omega arith) (ground arith) within valid)
      | inr not_short ↦ elim (Bool-cases (leb (length payload) 0xfffffff)) [
        | inl long ↦
            rw (not_short, long)
              (decode_frame-padded 7 payload rest b'L' refl (omega arith) (ground arith) within
                valid)
        | inr huge ↦
            rw (not_short, huge)
              (decode_frame-padded 15 payload rest b'W' refl (omega arith) (omega arith) within
                valid)
      ]
    ]

-- Until the last byte of a frame has come the decoder asks for more: no proper prefix of a frame is
-- taken for a frame or for an error.
pub decode_frame-prefix :
    (payload : List ℕ) (k : ℕ)
    → length payload ≤ max_frame_payload_bytes
    → utf8_ok payload ≡ true
    → k < length (encode_frame payload)
    → decode_frame (take k (encode_frame payload)) ≡ ok none
decode_frame-prefix payload k within valid early = go (decode_frame (take k frame)) refl
  where
    frame : List ℕ
    frame = encode_frame payload

    whole_frame :
        decode_frame (take k frame) ≢ ok none
        → decode_frame (take k frame) ≡ ok (some (payload, length frame))
    whole_frame decided =
        sym (decode_frame-append (take k frame) (drop k frame) decided)
        ∙ ap decode_frame (take-append-drop k frame ∙ sym (append-nil frame))
        ∙ decode_frame-encode_frame payload [] within valid

    go :
        (r : Result FrameError (Option (List ℕ × ℕ)))
        → decode_frame (take k frame) ≡ r
        → decode_frame (take k frame) ≡ ok none
    go (err e) p = absurd (cc (whole_frame (λ q. cc)))
    go (ok none) p = p
    go (ok (some r)) p =
        let found = decode_frame-IsFrame (take k frame) (whole_frame (λ q. cc)) in
        absurd (omega (arith, IsFrame-le found, length-take k frame))
