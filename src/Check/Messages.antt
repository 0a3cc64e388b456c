-- ===== src/Check/Messages.antt =====
-- Gaps of the messages of a check and of its memory model (src/mcp/checkgaps.rs, `wp_message_gaps` and
-- `weakening_model_selectors`).
pub mod Reported
pub mod Weakened
pub mod Shown
use Prim.Native.String.{◌++◌ as append}
use frama_c_mcp.Prelude.{
  String, Bool, true, false, ◌&&◌, ◌||◌, not, Option, none, some, List, [], ◌∷◌, ◌++◌, map, any,
  drop, filter_by, is_empty, ◌=ˢ◌, contains, eq_ignore_case, lower, trim, split_on, first_line,
  if◌then◌else◌,
}
use frama_c_mcp.Json.{Value, null, string, obj, arr, get, get_str, unwrap_or, is_null}
use frama_c_mcp.Json.Same.{same_value}
use frama_c_mcp.Check.{gap}

abbrev pub message_field : Value → String → String
message_field message name = unwrap_or (get_str message name) ""

-- the code of a message that means work was skipped, dropped or encoded unsoundly
unfoldable pub message_code : Value → Option String
message_code message =
    let text = message_field message "message" in
    let plugin = message_field message "plugin" in
    if plugin =ˢ "wp"
      && eq_ignore_case (message_field message "kind") "error"
      && contains text "skipped verification"
    then some "WP_VERIFICATION_SKIPPED"
    else if plugin =ˢ "wp" && contains text "not yet supported (skipped)"
    then some "WP_ANNOTATION_SKIPPED"
    else if plugin =ˢ "wp"
        && (contains text "might be unsound" || contains text "interpreted as reads nothing")
    then some "WP_UNSOUND_ENCODING"
    else if plugin =ˢ "kernel"
        && message_field message "category" =ˢ "annot:missing-spec"
        && contains text "Neither code nor specification for function"
    then some "GENERATED_CALLEE_SPEC"
    else none

-- an entry as it grows
pub record MessageGap : Type 0 where
  pub code : String
  pub reason : String
  pub message : String
  pub locations : List Value

-- where a message was printed, when it says so
abbrev source_of : Value → List Value
source_of message = elim (get message "source") [
  | none ↦ []
  | some source ↦ if is_null source then [] else source ∷ []
]

-- the places that are not yet there
unfoldable pub add_locations : List Value → List Value → List Value
add_locations [] locations = locations
add_locations (source ∷ sources) locations =
    add_locations sources
      (if any (same_value source) locations then locations else locations ++ source ∷ [])

abbrev pub is_same_gap : String → String → MessageGap → Bool
is_same_gap code reason g = g.code =ˢ code && g.reason =ˢ reason

-- The first entry of a code and a first line takes the place of another message; a new one is pushed.
unfoldable pub record_message : String → Value → List MessageGap → List MessageGap
record_message code message [] =
    record {
      code = code;
      reason = first_line (message_field message "message");
      message = message_field message "message";
      locations = add_locations (source_of message) [];
    }
    ∷ []
record_message code message (g ∷ gaps) =
    let rest = record_message code message gaps in
    if is_same_gap code (first_line (message_field message "message")) g
    then record g { locations = add_locations (source_of message) g.locations } ∷ gaps
    else g ∷ rest

-- the loop over the messages
unfoldable pub message_gaps : List MessageGap → List Value → List MessageGap
message_gaps gaps [] = gaps
message_gaps gaps (message ∷ messages) =
    message_gaps
      (elim (message_code message) [ none ↦ gaps | some code ↦ record_message code message gaps ])
      messages

abbrev is_weakening : String → Bool
is_weakening s = s =ˢ "cast" || s =ˢ "nat" || s =ˢ "real"

-- the selectors behind each `+` of one alternative
unfoldable pub selectors_of : String → List String
selectors_of alternative = map (λ s. lower (trim s)) (drop 1 (split_on b'+' alternative))

unfoldable pub flat_selectors : List String → List String
flat_selectors [] = []
flat_selectors (alternative ∷ rest) = selectors_of alternative ++ flat_selectors rest

unfoldable pub weakening_model_selectors : Option String → List String
weakening_model_selectors none = []
weakening_model_selectors (some model) =
    map (append "+") (filter_by is_weakening (flat_selectors (split_on b',' model)))

join_comma : List String → String
join_comma [] = ""
join_comma (s ∷ []) = s
join_comma (s ∷ t ∷ ss) = append s (append ", " (join_comma (t ∷ ss)))

unfoldable pub gap_of : MessageGap → Value
gap_of g = gap g.code g.reason (("message", string g.message) ∷ ("locations", arr g.locations) ∷ [])

-- the gap of a model that gives up C semantics
unfoldable pub weakened_gap : Option String → List Value
unfolding join_comma
weakened_gap model =
    let weakenings = weakening_model_selectors model in
    if is_empty weakenings
    then []
    else gap "WP_WEAKENED_MODEL"
        (append "This run's memory model uses "
          (append (join_comma weakenings) ", which departs from C semantics."))
        (("model", elim model [ none ↦ null | some m ↦ string m ])
          ∷ ("selectors", arr (map string weakenings))
          ∷ [])
      ∷ []

unfoldable pub wp_message_gaps : List Value → Option String → List Value
wp_message_gaps messages model = map gap_of (message_gaps [] messages) ++ weakened_gap model
