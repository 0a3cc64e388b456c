-- ===== src/Wire/Transport/Stream.antt =====
-- However the bytes of the stream are cut into reads, the frames come out whole and in order.
use frama_c_mcp.Prelude.{
  ℕ, suc, ◌≤◌, ◌≡◌, ◌≢◌, sym, ap, ◌∙◌, subst, false, none, some, List, [], ◌∷◌, ◌++◌, arith,
  append_assoc, append-nil, All, ok, err, length, drop, drop-append, drop-append_le, true,
}
use frama_c_mcp.Wire.Codec.{encode_frame, decode_frame, max_frame_payload_bytes}
use frama_c_mcp.Wire.Codec.Utf8.{utf8_ok}
use frama_c_mcp.Wire.Codec.Stable.{decode_frame-append, decode_frame-IsFrame, IsFrame-le}
use frama_c_mcp.Wire.Codec.RoundTrip.{decode_frame-encode_frame}
use frama_c_mcp.Wire.Transport.{
  Transport, ReadOutcome, bytes, end_of_stream, read_failed, read_timed_out, waiting, answer,
  recv_loop, recv_frame,
}
use frama_c_mcp.Wire.Transport.Steps.{Outcome, recv_loop_induction}

-- A payload that the protocol can carry to this client.
pub record IsText (payload : List ℕ) : Type 0 where
  pub within : length payload ≤ max_frame_payload_bytes
  pub valid : utf8_ok payload ≡ true

-- the bytes that the reads bring
abbrev pub incoming : List ReadOutcome → List ℕ
incoming [] = []
incoming (bytes chunk ∷ rs) = chunk ++ incoming rs
incoming (end_of_stream ∷ rs) = incoming rs
incoming (read_failed ∷ rs) = incoming rs
incoming (read_timed_out ∷ rs) = incoming rs

-- a read that brings bytes or times out, and leaves the stream up
abbrev IsCalm : ReadOutcome → Type 0
IsCalm end_of_stream = ⊥
IsCalm read_failed = ⊥
IsCalm _ = Unit

-- What is buffered and still to come is `content`, and the stream stays up.
pub record Carries (content : List ℕ) (reads : List ReadOutcome) (t : Transport) : Type 0 where
  pub healthy : t.poisoned ≡ false
  pub calm : All IsCalm reads
  pub bytes_eq : t.read_buf ++ incoming reads ≡ content

-- A receive answers with the payload, and leaves what was behind it, or a read times out and the
-- whole frame is still to come; the second list is shorter then. It never waits and never fails.
abbrev pub Delivers : List ℕ → List ℕ → ℕ → Outcome → Type 0
Delivers p rest n (t, rs, waiting) = ⊥
Delivers p rest n (t, rs, answer (ok (some q))) = (q ≡ p) × Carries rest rs t × (length rs ≤ n)
Delivers p rest n (t, rs, answer (ok none)) =
    Carries (encode_frame p ++ rest) rs t × (suc (length rs) ≤ n)
Delivers p rest n (t, rs, answer (err e)) = ⊥

module _ (p rest : List ℕ) (text : IsText p) where
  decided :
      {reads : List ReadOutcome} {t : Transport}
      → Carries (encode_frame p ++ rest) reads t
      → decode_frame t.read_buf ≢ ok none
      → decode_frame t.read_buf ≡ ok (some (p, length (encode_frame p)))
  decided {reads} {t} c h =
      sym (decode_frame-append t.read_buf (incoming reads) h)
      ∙ ap decode_frame c.bytes_eq
      ∙ decode_frame-encode_frame p rest text.within text.valid

  abbrev Goal : List ReadOutcome → Transport → Outcome → Type 0
  Goal reads t r =
      (n : ℕ) → length reads ≤ n → Carries (encode_frame p ++ rest) reads t → Delivers p rest n r

  remaining :
      (reads : List ReadOutcome) (t : Transport)
      → Carries (encode_frame p ++ rest) reads t
      → decode_frame t.read_buf ≡ ok (some (p, length (encode_frame p)))
      → drop (length (encode_frame p)) t.read_buf ++ incoming reads ≡ rest
  remaining reads t c e =
      sym (
        drop-append_le (length (encode_frame p)) t.read_buf (incoming reads)
          (IsFrame-le (decode_frame-IsFrame t.read_buf e)))
      ∙ ap (drop (length (encode_frame p))) c.bytes_eq
      ∙ drop-append (encode_frame p) rest

  found :
      (reads : List ReadOutcome) (t : Transport) (payload : List ℕ) (consumed : ℕ)
      → decode_frame t.read_buf ≡ ok (some (payload, consumed))
      → Goal reads t
          (record t { read_buf = drop consumed t.read_buf }, reads, answer (ok (some payload)))
  found reads t payload consumed e n fits c =
      let whole = decided c (λ q. cc) in
      let same : payload ≡ p = cc in
      let end : length (encode_frame p) ≡ consumed = cc in
      (
        same,
        record {
          healthy = c.healthy;
          calm = c.calm;
          bytes_eq =
              subst (λ k. drop k t.read_buf ++ incoming reads ≡ rest) end
                (remaining reads t c whole);
        },
        fits,
      )

  idle : (t : Transport) → decode_frame t.read_buf ≡ ok none → Goal [] t (t, [], waiting)
  idle t e n fits c =
      let whole = ap decode_frame (sym (append-nil t.read_buf) ∙ c.bytes_eq) in
      let reads = decode_frame-encode_frame p rest text.within text.valid in absurd (cc)

  more :
      (chunk : List ℕ) (rs : List ReadOutcome) (t : Transport)
      → decode_frame t.read_buf ≡ ok none
      → Goal rs
          (record t { read_buf = t.read_buf ++ chunk })
          (recv_loop rs (record t { read_buf = t.read_buf ++ chunk }))
      → Goal (bytes chunk ∷ rs) t (recv_loop rs (record t { read_buf = t.read_buf ++ chunk }))
  more chunk rs t e ih n fits c = ih n (omega arith) (record {
    healthy = c.healthy;
    calm = c.calm.1;
    bytes_eq = append_assoc t.read_buf chunk (incoming rs) ∙ c.bytes_eq;
  })

  -- From a stream that carries a frame, in any cut into reads, a receive delivers it.
  pub recv_frame-Delivers :
      (reads : List ReadOutcome) (t : Transport)
      → Carries (encode_frame p ++ rest) reads t
      → Delivers p rest (length reads) (recv_frame reads t)
  unfolding recv_frame
  recv_frame-Delivers reads t c = simp c.healthy (
      recv_loop_induction Goal found (λ rs s x e n fits k. absurd (cc (decided k (λ q. cc)))) idle
        more (λ rs s n fits k. elim k.calm.0 [ ]) (λ rs s n fits k. elim k.calm.0 [ ])
        (λ rs s e n fits k.
          (record { healthy = k.healthy; calm = k.calm.1; bytes_eq = k.bytes_eq }, fits))
        reads t (length reads) (omega arith) c)
