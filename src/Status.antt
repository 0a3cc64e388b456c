-- ===== src/Status.antt =====
-- How a row spells its verdict (src/mcp/status.rs), and the flags that go with it.
pub mod Normal
pub mod Rows
use Prim.Native.Char.{Char}
use frama_c_mcp.Prelude.{
  String, Bool, true, false, ◌||◌, not, Option, none, some, List, [], ◌∷◌, ◌=ˢ◌, ends_with,
  is_alnum, lower_char, underscore, split_words, join_words, is_empty_text, eq_ignore_case,
  filter_by, if◌then◌else◌,
}
use frama_c_mcp.Json.{
  Value, string, boolean, object, Fields, get, get_str, as_str, and_then, or_else, unwrap_or,
  insert, is_some_and,
}

unfoldable pub own_status : Value → Option String
own_status row =
    and_then
      (or_else (or_else (get row "normalized_status") (get row "raw_status")) (get row "status"))
      as_str

-- the first of the keys that holds a text
unfoldable pub consolidated_status : Value → Option String
consolidated_status row =
    or_else (or_else (get_str row "normalized_status") (get_str row "normalized_property_status"))
      (get_str row "status")

unfoldable pub raw_status : Value → Option String
raw_status row = and_then (or_else (get row "raw_status") (get row "status")) as_str

-- what each character becomes before the words are squeezed
abbrev pub fold_char : Char → Char
fold_char c = if is_alnum c then lower_char c else underscore

abbrev pub fold_chars : String → String
fold_chars String.[] = ""
fold_chars (String.◌∷◌ c s) = String.◌∷◌ (fold_char c) (fold_chars s)

-- lower case, and one underscore for each run of other characters between words
unfoldable pub squeeze : String → String
squeeze raw = join_words (filter_by (λ w. not (is_empty_text w)) (split_words (fold_chars raw)))

unfoldable pub fold_name : String → String
fold_name name =
    if name =ˢ "valid_under_hypothesis"
    then "valid_under_hyp"
    else if name =ˢ "invalid_under_hypothesis"
    then "invalid_under_hyp"
    else if name =ˢ "no_result" || name =ˢ "never_tried"
    then "noresult"
    else if name =ˢ ""
    then "unknown"
    else name

unfoldable pub normalize_frama_c_status : String → String
unfolding squeeze fold_name
normalize_frama_c_status raw = fold_name (squeeze raw)

unfoldable pub normalized_or_derived : Value → String
normalized_or_derived row = elim (get_str row "normalized_status") [
  | some s ↦ s
  | none ↦ normalize_frama_c_status (unwrap_or (raw_status row) "unknown")
]

unfoldable pub status_is_failed : String → Bool
status_is_failed status = eq_ignore_case status "failed"

unfoldable pub status_is_timeout : String → Bool
status_is_timeout status = eq_ignore_case status "timeout"

unfoldable pub status_counts_as_progress : String → Bool
status_counts_as_progress status = status =ˢ "valid"

unfoldable pub status_requires_hypotheses : String → Bool
status_requires_hypotheses status =
    status =ˢ "valid_under_hyp"
    || status =ˢ "invalid_under_hyp"
    || status =ˢ "valid_under_false_hypothesis"

unfoldable pub status_is_vacuous : String → Bool
status_is_vacuous status = ends_with status "_but_dead" || status =ˢ "valid_under_false_hypothesis"

unfoldable pub insert_status_flags : Fields → String → Fields
insert_status_flags fields status =
    insert "requires_hypotheses" (boolean (status_requires_hypotheses status)) (
      insert "vacuous" (boolean (status_is_vacuous status))
        (insert "counts_as_progress" (boolean (status_counts_as_progress status)) fields))

-- a row's fields, once its raw status is known
unfoldable pub with_status : String → Fields → Fields
unfolding insert_status_flags
with_status raw fields =
    let status = normalize_frama_c_status raw in
    insert_status_flags
      (insert "normalized_status" (string status) (insert "raw_status" (string raw) fields)) status

unfoldable pub add_status_fields : Value → Value
unfolding with_status
add_status_fields (object fields) = elim (get_str (object fields) "status") [
  | none ↦ object fields
  | some raw ↦ object (with_status raw fields)
]
add_status_fields row = row

unfoldable pub is_proved : String → Bool
is_proved status = eq_ignore_case status "valid"

unfoldable pub own_status_is_proved : Value → Bool
own_status_is_proved row = is_some_and (own_status row) is_proved

unfoldable pub own_status_is_timeout : Value → Bool
own_status_is_timeout row = is_some_and (own_status row) status_is_timeout
