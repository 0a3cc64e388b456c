-- ===== src/Status/Normal.antt =====
-- Normalising a status twice is normalising it once.
use Prim.Native.Char.{Char, code}
use Prim.Native.String.{char_at, ◌++◌ as append}
use Prim.Native.String.append
use frama_c_mcp.Prelude.{
  ℕ, zero, suc, ◌-◌, ◌<◌, String, Bool, true, false, ◌||◌, ◌&&◌, not, ◌≡◌, refl, sym, ap, ◌∙◌, List,
  [], ◌∷◌, arith, All, ◌⊎◌, inl, inr, Bool-cases, is_lower, is_digit, is_upper, is_alnum,
  is_underscore, underscore, split_words, cons_first, join_words, subst, ◌==◌, ==_iff,
  is_empty_text, filter_by,
}
use frama_c_mcp.Status.{fold_char, fold_chars, squeeze, fold_name, normalize_frama_c_status}

abbrev alphabet : String
alphabet = "abcdefghijklmnopqrstuvwxyz"

abbrev letters_below : ℕ → Bool
letters_below zero = true
letters_below (suc k) = is_lower (char_at alphabet k) && letters_below k

alphabet_table : letters_below 26 ≡ true
alphabet_table = refl

is_lower-char_at : (n k : ℕ) → letters_below n ≡ true → k < n → is_lower (char_at alphabet k) ≡ true
is_lower-char_at zero k h lt = absurd (omega arith)
is_lower-char_at (suc n) k h lt = elim (Bool-cases (k == n)) [
  | inl last ↦
      subst (λ j. is_lower (char_at alphabet j) ≡ true) (sym ((==_iff k n).0 last)) (ground arith)
  | inr below ↦ is_lower-char_at n k (ground arith) (ground arith)
]

-- a character that normalising leaves alone and that is no separator
abbrev pub IsClean : Char → Type 0
IsClean c = (is_lower c || is_digit c) ≡ true

fold_char-IsClean : (c : Char) → IsClean c → fold_char c ≡ c
fold_char-IsClean c h = ground arith

is_underscore-IsClean : (c : Char) → IsClean c → is_underscore c ≡ false
is_underscore-IsClean c h = ground arith

IsClean-lower : (c : Char) → is_lower c ≡ true → IsClean c
IsClean-lower c h = ground arith

fold_char-upper : (c : Char) → is_upper c ≡ true → fold_char c ≡ char_at alphabet (code c - 65)
fold_char-upper c h = ground arith

fold_char-other : (c : Char) → is_alnum c ≡ false → fold_char c ≡ underscore
fold_char-other c h = ground arith

IsClean-alnum : (c : Char) → is_alnum c ≡ true → is_upper c ≡ false → IsClean c
IsClean-alnum c h e = ground arith

upper_offset : (c : Char) → is_upper c ≡ true → code c - 65 < 26
upper_offset c h = ground arith

fold_char-cases : (c : Char) → IsClean (fold_char c) ⊎ (fold_char c ≡ underscore)
fold_char-cases c = elim (Bool-cases (is_upper c)) [
  | inl up ↦ inl (
      subst IsClean (sym (fold_char-upper c up)) (
        IsClean-lower (char_at alphabet (code c - 65))
          (is_lower-char_at 26 (code c - 65) alphabet_table (upper_offset c up))))
  | inr not_up ↦ elim (Bool-cases (is_alnum c)) [
    | inl kept ↦
        let clean = IsClean-alnum c kept not_up in
        inl (subst IsClean (sym (fold_char-IsClean c clean)) clean)
    | inr other ↦ inr (fold_char-other c other)
  ]
]

abbrev pub AllClean : String → Type 0
AllClean String.[] = Unit
AllClean (String.◌∷◌ c s) = IsClean c × AllClean s

cons_first-AllClean :
    (c : Char) (ws : List String) → IsClean c → All AllClean ws → All AllClean (cons_first c ws)
cons_first-AllClean c [] h a = ((h, tt), tt)
cons_first-AllClean c (w ∷ ws) h a = ((h, a.0), a.1)

-- Folded text splits into words of clean characters.
pub split_words-AllClean : (s : String) → All AllClean (split_words (fold_chars s))
split_words-AllClean String.[] = (tt, tt)
split_words-AllClean (String.◌∷◌ c s) = elim (fold_char-cases c) [
  | inl clean ↦ rw (is_underscore-IsClean (fold_char c) clean) (
      cons_first-AllClean (fold_char c) (split_words (fold_chars s)) clean (split_words-AllClean s))
  | inr bar ↦ rw bar (tt, split_words-AllClean s)
]

-- words as they stand between the underscores of a normalised text
abbrev pub IsWord : String → Type 0
IsWord w = AllClean w × (is_empty_text w ≡ false)

abbrev pub full : String → Bool
full w = not (is_empty_text w)

pub filter_by-IsWord : (ws : List String) → All AllClean ws → All IsWord (filter_by full ws)
filter_by-IsWord [] h = tt
filter_by-IsWord (w ∷ ws) h = elim (Bool-cases (is_empty_text w)) [
  | inl empty ↦ rw empty (filter_by-IsWord ws h.1)
  | inr some_text ↦ rw some_text ((h.0, some_text), filter_by-IsWord ws h.1)
]

filter_by-words : (ws : List String) → All IsWord ws → filter_by full ws ≡ ws
filter_by-words [] h = refl
filter_by-words (w ∷ ws) h = rw (h.0.1) (ap (λ t. w ∷ t) (filter_by-words ws h.1))

fold_chars-append : (s t : String) → fold_chars (append s t) ≡ append (fold_chars s) (fold_chars t)
fold_chars-append String.[] t = rw (append.nil t) (rw (append.nil (fold_chars t)))
fold_chars-append (String.◌∷◌ c s) t =
    ap fold_chars (append.cons c s t)
    ∙ ap (String.◌∷◌ (fold_char c)) (fold_chars-append s t)
    ∙ sym (append.cons (fold_char c) (fold_chars s) (fold_chars t))

fold_chars-AllClean : (w : String) → AllClean w → fold_chars w ≡ w
fold_chars-AllClean String.[] h = refl
fold_chars-AllClean (String.◌∷◌ c s) h = cc (fold_char-IsClean c h.0, fold_chars-AllClean s h.1)

fold_chars-join_words :
    (ws : List String) → All IsWord ws → fold_chars (join_words ws) ≡ join_words ws
fold_chars-join_words [] h = refl
fold_chars-join_words (w ∷ []) h = fold_chars-AllClean w h.0.0
fold_chars-join_words (w ∷ v ∷ ws) h =
    let tail = String.◌∷◌ underscore (join_words (v ∷ ws)) in
    fold_chars-append w tail ∙ cc (fold_chars-AllClean w h.0.0, fold_chars-join_words (v ∷ ws) h.1)

split_words-one : (w : String) → AllClean w → split_words w ≡ w ∷ []
split_words-one String.[] h = refl
split_words-one (String.◌∷◌ c s) h =
    rw (is_underscore-IsClean c h.0) (ap (cons_first c) (split_words-one s h.1))

split_words-append :
    (w t : String)
    → AllClean w
    → split_words (append w (String.◌∷◌ underscore t)) ≡ w ∷ split_words t
split_words-append String.[] t h = ap split_words (append.nil (String.◌∷◌ underscore t))
split_words-append (String.◌∷◌ c s) t h =
    ap split_words (append.cons c s (String.◌∷◌ underscore t))
    ∙ rw (is_underscore-IsClean c h.0) (ap (cons_first c) (split_words-append s t h.1))

split_words-join_words :
    (w : String) (ws : List String)
    → All IsWord (w ∷ ws)
    → split_words (join_words (w ∷ ws)) ≡ w ∷ ws
split_words-join_words w [] h = split_words-one w h.0.0
split_words-join_words w (v ∷ ws) h =
    split_words-append w (join_words (v ∷ ws)) h.0.0
    ∙ ap (λ t. w ∷ t) (split_words-join_words v ws h.1)

squeeze-join_words : (ws : List String) → All IsWord ws → squeeze (join_words ws) ≡ join_words ws
unfolding squeeze
squeeze-join_words [] h = refl
squeeze-join_words (w ∷ ws) h = ap join_words (
    ap (λ t. filter_by full (split_words t)) (fold_chars-join_words (w ∷ ws) h)
    ∙ ap (filter_by full) (split_words-join_words w ws h)
    ∙ filter_by-words (w ∷ ws) h)

squeeze_idem : (raw : String) → squeeze (squeeze raw) ≡ squeeze raw
squeeze_idem raw =
    let words = filter_by full (split_words (fold_chars raw)) in
    let squeezed : squeeze raw ≡ join_words words = unfold squeeze in refl in
    subst (λ t. squeeze t ≡ t) (sym squeezed)
      (squeeze-join_words words (filter_by-IsWord _ (split_words-AllClean raw)))

pub fold_name-cases :
    (s : String)
    → (fold_name s ≡ s)
      ⊎ (fold_name s ≡ "valid_under_hyp")
      ⊎ (fold_name s ≡ "invalid_under_hyp")
      ⊎ (fold_name s ≡ "noresult")
      ⊎ (fold_name s ≡ "unknown")
unfolding fold_name
fold_name-cases s = ground arith

-- A name that normalising gives is left alone by it.
fold_name-fixed :
    (s t : String)
    → fold_name (squeeze t) ≡ t
    → fold_name s ≡ t
    → fold_name (squeeze (fold_name s)) ≡ fold_name s
fold_name-fixed s t fixed e = ap (λ x. fold_name (squeeze x)) e ∙ fixed ∙ sym e

fold_name-stable : (s : String) → squeeze s ≡ s → fold_name (squeeze (fold_name s)) ≡ fold_name s
unfolding fold_name squeeze
fold_name-stable s h = elim (fold_name-cases s) [
  | inl same ↦ ap (λ x. fold_name (squeeze x)) same ∙ ap fold_name h
  | inr (inl e) ↦ fold_name-fixed s "valid_under_hyp" refl e
  | inr (inr (inl e)) ↦ fold_name-fixed s "invalid_under_hyp" refl e
  | inr (inr (inr (inl e))) ↦ fold_name-fixed s "noresult" refl e
  | inr (inr (inr (inr e))) ↦ fold_name-fixed s "unknown" refl e
]

-- Normalising is idempotent: a status that went through it once, such as one read back from
-- `normalized_status`, is not changed by going through it again.
pub normalize_frama_c_status_idem :
    (raw : String)
    → normalize_frama_c_status (normalize_frama_c_status raw) ≡ normalize_frama_c_status raw
unfolding normalize_frama_c_status
normalize_frama_c_status_idem raw = fold_name-stable (squeeze raw) (squeeze_idem raw)
