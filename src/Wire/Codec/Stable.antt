-- ===== src/Wire/Codec/Stable.antt =====
-- What more bytes behind a buffer change of its decoding: nothing, once a frame or an error is seen.
use frama_c_mcp.Prelude.{
  ℕ, ◌+◌, ◌≤◌, ◌≡◌, ◌≢◌, refl, sym, ap, ◌∙◌, subst, none, some, List, [], ◌∷◌, ◌++◌, arith, ok,
  length, take, drop, length-append, length-drop, length-take, take-append_le, take-append-drop,
  drop-append_le, Option-cases, inl, inr, true,
}
use frama_c_mcp.Wire.Codec.{
  decode_frame, decode_header, decode_payload, max_frame_payload_bytes, hex_len,
}
use frama_c_mcp.Wire.Codec.Hex.{from_str_radix}
use frama_c_mcp.Wire.Codec.Utf8.{utf8_ok}

-- A slice that lies in the buffer does not see what is behind.
slice-append :
    (h n : ℕ) (buf more : List ℕ)
    → h + n ≤ length buf
    → take n (drop h (buf ++ more)) ≡ take n (drop h buf)
slice-append h n buf more fits =
    ap (take n) (drop-append_le h buf more (omega arith))
    ∙ take-append_le n (drop h buf) more (omega (arith, length-drop h buf))

decode_payload-append :
    (h n : ℕ) (buf more : List ℕ)
    → decode_payload h n buf ≢ ok none
    → decode_payload h n (buf ++ more) ≡ decode_payload h n buf
unfolding decode_payload
decode_payload-append h n buf more decided =
    ground (arith, slice-append h n buf more, length-append buf more)

decode_header-append :
    (d : ℕ) (buf more : List ℕ)
    → decode_header d buf ≢ ok none
    → decode_header d (buf ++ more) ≡ decode_header d buf
unfolding decode_header
decode_header-append d buf more decided =
    elim (Option-cases (from_str_radix (take d (drop 1 buf)))) [
      | inl bad ↦ ground (arith, slice-append 1 d buf more, length-append buf more)
      | inr (n, good) ↦ ground (
        arith,
        slice-append 1 d buf more,
        length-append buf more,
        decode_payload-append (1 + d) n buf more,
      )
    ]

-- A buffer that is already a frame or an error decodes the same with any bytes behind it.
pub decode_frame-append :
    (buf more : List ℕ) → decode_frame buf ≢ ok none → decode_frame (buf ++ more) ≡ decode_frame buf
unfolding decode_frame
decode_frame-append [] more decided = absurd (decided refl)
decode_frame-append (b ∷ bs) more decided = elim (Option-cases (hex_len b)) [
  | inl bad ↦ ground arith
  | inr (d, good) ↦ ground (arith, decode_header-append d (b ∷ bs) more)
]

-- What a decoded frame is: a header, the payload and bytes that are left alone.
pub record IsFrame (buf payload : List ℕ) (consumed : ℕ) : Type 0 where
  pub header : List ℕ
  pub rest : List ℕ
  pub split : buf ≡ header ++ (payload ++ rest)
  pub size : consumed ≡ length header + length payload
  pub progress : 4 ≤ length header
  pub within : length payload ≤ max_frame_payload_bytes
  pub valid : utf8_ok payload ≡ true

pub IsFrame-le :
    {buf payload : List ℕ} {consumed : ℕ} → IsFrame buf payload consumed → consumed ≤ length buf
IsFrame-le {payload = payload} f = omega (
  arith,
  ap length f.split,
  length-append f.header (payload ++ f.rest),
  length-append payload f.rest,
)

IsFrame-at :
    (h n : ℕ) (buf : List ℕ)
    → 4 ≤ h
    → h + n ≤ length buf
    → n ≤ max_frame_payload_bytes
    → utf8_ok (take n (drop h buf)) ≡ true
    → IsFrame buf (take n (drop h buf)) (h + n)
IsFrame-at h n buf low fits within valid =
    let head : length (take h buf) ≡ h = omega (arith, length-take h buf) in
    let body : length (take n (drop h buf)) ≡ n =
      omega (arith, length-take n (drop h buf), length-drop h buf) in
    record {
      header = take h buf;
      rest = drop n (drop h buf);
      split =
          sym
            (ap (λ t. take h buf ++ t) (take-append-drop n (drop h buf)) ∙ take-append-drop h buf);
      size = omega arith;
      progress = omega arith;
      within = omega arith;
      valid = valid;
    }

decode_payload-IsFrame :
    (h n : ℕ) (buf : List ℕ) {payload : List ℕ} {consumed : ℕ}
    → 4 ≤ h
    → decode_payload h n buf ≡ ok (some (payload, consumed))
    → IsFrame buf payload consumed
unfolding decode_payload
decode_payload-IsFrame h n buf {payload} {consumed} low e =
    let sizes : (n ≤ max_frame_payload_bytes) × (h + n ≤ length buf) =
      (ground arith, ground arith) in
    let body : take n (drop h buf) ≡ payload = ground arith in
    let end : h + n ≡ consumed = ground arith in
    subst (λ p. IsFrame buf p consumed) body
      (subst (IsFrame buf (take n (drop h buf))) end
        (IsFrame-at h n buf low sizes.1 sizes.0 (ground arith)))

decode_header-IsFrame :
    (d : ℕ) (buf : List ℕ) {payload : List ℕ} {consumed : ℕ}
    → 3 ≤ d
    → decode_header d buf ≡ ok (some (payload, consumed))
    → IsFrame buf payload consumed
unfolding decode_header
decode_header-IsFrame d buf {payload} {consumed} low e =
    elim (Option-cases (from_str_radix (take d (drop 1 buf)))) [
      | inl bad ↦ absurd (ground arith)
      | inr (n, good) ↦
          let e' : decode_payload (1 + d) n buf ≡ ok (some (payload, consumed)) = ground arith in
          decode_payload-IsFrame (1 + d) n buf (omega arith) e'
    ]

hex_len-ge : (b : ℕ) {d : ℕ} → hex_len b ≡ some d → 3 ≤ d
hex_len-ge b e = ground arith

-- A frame that is decoded lies in the buffer, behind a header of at least four bytes; its payload is
-- UTF-8 and within the limit, and `consumed` is where it ends.
pub decode_frame-IsFrame :
    (buf : List ℕ) {payload : List ℕ} {consumed : ℕ}
    → decode_frame buf ≡ ok (some (payload, consumed))
    → IsFrame buf payload consumed
unfolding decode_frame
decode_frame-IsFrame [] e = cc
decode_frame-IsFrame (b ∷ bs) e = elim (Option-cases (hex_len b)) [
  | inl bad ↦ absurd (ground arith)
  | inr (d, good) ↦ decode_header-IsFrame d (b ∷ bs) (hex_len-ge b good) (ground arith)
]
