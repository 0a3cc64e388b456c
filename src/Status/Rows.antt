-- ===== src/Status/Rows.antt =====
-- What the status fields of an enriched row say.
use Prim.Native.Char.{Char}
use Prim.Native.String.{◌++◌ as append}
use Prim.Native.String.append
use frama_c_mcp.Prelude.{
  String, ◌≡◌, refl, sym, ap, ◌∙◌, subst, some, List, [], ◌∷◌, arith, All, inl, inr, lower_char,
  lower, underscore, split_words, join_words, filter_by,
}
use frama_c_mcp.Json.{Value, string, boolean, object, Fields, get, find_field}
use frama_c_mcp.Json.Laws.{find_field-insert}
use frama_c_mcp.Status.{
  own_status, raw_status, normalize_frama_c_status, squeeze, status_counts_as_progress,
  status_is_vacuous, status_requires_hypotheses, with_status, add_status_fields, is_proved,
  own_status_is_proved, fold_chars,
}
use frama_c_mcp.Status.Normal.{
  IsClean, AllClean, IsWord, full, filter_by-IsWord, split_words-AllClean, fold_name-cases,
}

-- What enriching writes: the two spellings, and the flags that follow from the folded one. The raw
-- status stays where it was.
pub record IsEnriched (raw : String) (row : Value) : Type 0 where
  pub own : own_status row ≡ some (normalize_frama_c_status raw)
  pub raw_kept : raw_status row ≡ some raw
  pub status_kept : get row "status" ≡ some (string raw)
  pub progress :
      get row "counts_as_progress"
      ≡ some (boolean (status_counts_as_progress (normalize_frama_c_status raw)))
  pub vacuous :
      get row "vacuous" ≡ some (boolean (status_is_vacuous (normalize_frama_c_status raw)))
  pub hypotheses :
      get row "requires_hypotheses"
      ≡ some (boolean (status_requires_hypotheses (normalize_frama_c_status raw)))

add_status_fields-eq :
    (fields : Fields) (raw : String)
    → find_field "status" fields ≡ some (string raw)
    → add_status_fields (object fields) ≡ object (with_status raw fields)
unfolding add_status_fields
add_status_fields-eq fields raw h = ground arith

with_status-IsEnriched :
    (fields : Fields) (raw : String)
    → find_field "status" fields ≡ some (string raw)
    → IsEnriched raw (object (with_status raw fields))
unfolding with_status own_status raw_status
with_status-IsEnriched fields raw h = record {
  own = simp find_field-insert;
  raw_kept = simp find_field-insert;
  status_kept = simp find_field-insert h;
  progress = simp find_field-insert;
  vacuous = simp find_field-insert;
  hypotheses = simp find_field-insert;
}

-- A row whose status is a text is enriched, whatever fields of an older enrichment it carries.
add_status_fields-IsEnriched :
    (fields : Fields) (raw : String)
    → find_field "status" fields ≡ some (string raw)
    → IsEnriched raw (add_status_fields (object fields))
add_status_fields-IsEnriched fields raw h =
    subst (IsEnriched raw) (sym (add_status_fields-eq fields raw h))
      (with_status-IsEnriched fields raw h)

lower_char-IsClean : (c : Char) → IsClean c → lower_char c ≡ c
lower_char-IsClean c h = ground arith

lower-AllClean : (s : String) → AllClean s → lower s ≡ s
lower-AllClean String.[] h = refl
lower-AllClean (String.◌∷◌ c s) h = cc (lower_char-IsClean c h.0, lower-AllClean s h.1)

lower-append : (s t : String) → lower (append s t) ≡ append (lower s) (lower t)
lower-append String.[] t = rw (append.nil t) (rw (append.nil (lower t)))
lower-append (String.◌∷◌ c s) t =
    ap lower (append.cons c s t)
    ∙ ap (String.◌∷◌ (lower_char c)) (lower-append s t)
    ∙ sym (append.cons (lower_char c) (lower s) (lower t))

lower-join_words : (ws : List String) → All IsWord ws → lower (join_words ws) ≡ join_words ws
lower-join_words [] h = refl
lower-join_words (w ∷ []) h = lower-AllClean w h.0.0
lower-join_words (w ∷ v ∷ ws) h =
    lower-append w (String.◌∷◌ underscore (join_words (v ∷ ws)))
    ∙ cc (lower-AllClean w h.0.0, lower-join_words (v ∷ ws) h.1)

lower-squeeze : (raw : String) → lower (squeeze raw) ≡ squeeze raw
unfolding squeeze
lower-squeeze raw =
    let words = split_words (fold_chars raw) in
    lower-join_words (filter_by full words) (filter_by-IsWord words (split_words-AllClean raw))

-- A normalised status is in lower case.
lower-normalize :
    (raw : String) → lower (normalize_frama_c_status raw) ≡ normalize_frama_c_status raw
unfolding normalize_frama_c_status
lower-normalize raw = elim (fold_name-cases (squeeze raw)) [
  | inl same ↦ subst (λ t. lower t ≡ t) (sym same) (lower-squeeze raw)
  | inr (inl e) ↦ subst (λ t. lower t ≡ t) (sym e) refl
  | inr (inr (inl e)) ↦ subst (λ t. lower t ≡ t) (sym e) refl
  | inr (inr (inr (inl e))) ↦ subst (λ t. lower t ≡ t) (sym e) refl
  | inr (inr (inr (inr e))) ↦ subst (λ t. lower t ≡ t) (sym e) refl
]

-- On an enriched row the two readings of "proved" agree: the case-insensitive one of the row's own
-- status and the exact one that writes `counts_as_progress`.
pub own_status_is_proved-eq :
    (fields : Fields) (raw : String)
    → find_field "status" fields ≡ some (string raw)
    → get (add_status_fields (object fields)) "counts_as_progress"
      ≡ some (boolean (own_status_is_proved (add_status_fields (object fields))))
unfolding own_status_is_proved is_proved status_counts_as_progress
own_status_is_proved-eq fields raw h =
    let e = add_status_fields-IsEnriched fields raw h in
    let folded = lower-normalize raw in e.progress ∙ rw (e.own, folded)
