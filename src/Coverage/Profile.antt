-- ===== src/Coverage/Profile.antt =====
-- Proof targets of a project and what is evidence about one (src/state.rs, `VerificationProfile`;
-- src/mcp/conclusions.rs, `profile_evidence_error`; src/mcp/receipt.rs, `project_load_identity`;
-- src/mcp/analysis.rs, `goals_owned_by`). A refusal is the case it is; its wording is left out.
pub mod Parse
use frama_c_mcp.Prelude.{
  ℕ, String, Bool, true, false, ◌&&◌, ◌||◌, not, Option, none, some, List, [], ◌∷◌, ◌++◌, map, any,
  all, filter_by, length, is_empty, ltb, ◌=ˢ◌, if◌then◌else◌,
}
use frama_c_mcp.Json.{
  Value, null, boolean, string, obj, arr, get, get_str, as_str, as_array, and_then, unwrap_or,
  is_some_and, is_text, pointer,
}
use frama_c_mcp.Json.Same.{same_value}
use frama_c_mcp.Receipt.{sort_texts, receipt_goals_record_owner}
use frama_c_mcp.Check.{is_false, is_true}
use frama_c_mcp.Check.Target.{goal_owner_name}

pub record VerificationProfile : Type 0 where
  pub sources : List String
  pub functions : List String
  pub model : Option String
  pub machdep : Option String
  pub include_paths : List String
  pub defines : List String
  pub force_includes : List String
  pub provers : List String
  pub timeout_seconds : Option ℕ
  pub isystem_paths : List String
  pub nostdinc : Option Bool
  pub min_goals : Option ℕ
  pub build_gates : List String
  pub rte : Option Bool
  pub rte_unsigned : Option Bool
  pub rte_pointer : Option Bool
  pub builtin_models : Option Bool
  pub reproduce : Option String

pub record ProjectLoadOptions : Type 0 where
  pub include_paths : List String
  pub defines : List String
  pub force_includes : List String
  pub machdep : Option String
  pub compilation_database : Option String
  pub rte : Bool
  pub isystem_paths : List String
  pub nostdinc : Bool
  pub unsigned_rte_skipped : Bool
  pub pointer_rte_requested : Bool
  pub builtin_models : Option String

abbrev pub texts : List String → Value
texts names = arr (map string names)

abbrev pub text_or_null : Option String → Value
text_or_null none = null
text_or_null (some s) = string s

-- `skip_serializing_if`: a flag that is off is left out
abbrev when_set : String → Bool → List (String × Value)
when_set key b = if b then (key, boolean true) ∷ [] else []

-- The options as `serde` writes them.
unfoldable pub project_load_identity : ProjectLoadOptions → Value
project_load_identity o = obj (
    (("include_paths", texts o.include_paths)
      ∷ ("defines", texts o.defines)
      ∷ ("force_includes", texts o.force_includes)
      ∷ ("machdep", text_or_null o.machdep)
      ∷ ("compilation_database", text_or_null o.compilation_database)
      ∷ ("rte", boolean o.rte)
      ∷ ("isystem_paths", texts o.isystem_paths)
      ∷ ("nostdinc", boolean o.nostdinc)
      ∷ [])
    ++ when_set "unsigned_rte_skipped" o.unsigned_rte_skipped
    ++ when_set "pointer_rte_requested" o.pointer_rte_requested
    ++ (elim o.builtin_models [ none ↦ [] | some digest ↦ ("builtin_models", string digest) ∷ [] ]))

unfoldable pub goals_owned_by : List Value → List String → ℕ
goals_owned_by goals functions = length (
    filter_by
      (λ goal.
        is_some_and (goal_owner_name goal) (λ owner. any (λ wanted. wanted =ˢ owner) functions))
      goals)

-- the functions a receipt says WP ran over include this one
unfoldable pub receipt_names_function : Value → String → Bool
receipt_names_function receipt function =
    is_some_and (and_then (pointer receipt ("wp" ∷ "functions" ∷ [])) as_array)
      (any (λ name. is_text (as_str name) function))

-- why a receipt is not evidence about a target
pub data ProfileMismatch : Type 0 where
  not_a_target : ProfileMismatch
  other_function : ProfileMismatch
  other_model : String → String → ProfileMismatch
  other_sources : List String → List String → ProfileMismatch
  unstated_settings : ProfileMismatch
  other_load : ProfileMismatch
  too_few_goals : ℕ → ℕ → ProfileMismatch

-- the texts under a key of each entry that has one
abbrev paths_of : List Value → List String
paths_of [] = []
paths_of (file ∷ files) =
    let rest = paths_of files in
    elim (get_str file "path") [ none ↦ rest | some path ↦ path ∷ rest ]

abbrev same_texts : List String → List String → Bool
same_texts [] [] = true
same_texts (s ∷ ss) (t ∷ ts) = s =ˢ t && same_texts ss ts
same_texts _ _ = false

abbrev pub proved_over : Value → List String
proved_over receipt =
    paths_of (unwrap_or (and_then (pointer receipt ("subject" ∷ "files" ∷ [])) as_array) [])

-- The load settings that a target declares. `digest` is the SHA-256 of the server's header of models.
unfoldable pub expected_load : String → VerificationProfile → Bool → Bool → Value
unfolding project_load_identity
expected_load digest profile rte nostdinc = project_load_identity (record {
  include_paths = profile.include_paths;
  defines = profile.defines;
  force_includes = profile.force_includes;
  machdep = profile.machdep;
  compilation_database = none;
  rte = rte;
  isystem_paths = profile.isystem_paths;
  nostdinc = nostdinc;
  unsigned_rte_skipped = is_false profile.rte_unsigned;
  pointer_rte_requested = is_true profile.rte_pointer;
  builtin_models = if is_true profile.builtin_models then some digest else none;
})

abbrev covers_whole_target : Value → VerificationProfile → Bool
covers_whole_target receipt profile =
    is_some_and (and_then (pointer receipt ("wp" ∷ "functions" ∷ [])) as_array) (λ proved.
      all (λ declared. any (λ name. is_text (as_str name) declared) proved) profile.functions)

-- how many goals a receipt records for the functions of a target
unfoldable pub recorded_goals : Value → VerificationProfile → ℕ
recorded_goals receipt profile =
    let goals = unwrap_or (and_then (get receipt "goals") as_array) [] in
    if receipt_goals_record_owner goals
    then goals_owned_by goals profile.functions
    else length goals

unfoldable pub floor_error : Value → VerificationProfile → Option ProfileMismatch
floor_error receipt profile = elim profile.min_goals [
  | none ↦ none
  | some min_goals ↦
      if covers_whole_target receipt profile && ltb (recorded_goals receipt profile) min_goals
      then some (too_few_goals min_goals (recorded_goals receipt profile))
      else none
]

abbrev model_of : Value → Option String
model_of receipt = and_then (pointer receipt ("wp" ∷ "model" ∷ [])) as_str

abbrev model_error : VerificationProfile → Value → Option ProfileMismatch
model_error profile receipt = elim profile.model [
  | none ↦ none
  | some declared ↦ elim (model_of receipt) [
    | none ↦ none
    | some used ↦ if declared =ˢ used then none else some (other_model declared used)
  ]
]

abbrev pub has_load : Value → Value → Bool
has_load receipt load =
    is_some_and (pointer receipt ("subject" ∷ "project_load" ∷ [])) (λ v. same_value v load)

abbrev sources_error : VerificationProfile → Value → Option ProfileMismatch
sources_error profile receipt =
    let declared = sort_texts profile.sources in
    let proved = sort_texts (proved_over receipt) in
    if is_empty declared || same_texts declared proved
    then none
    else some (other_sources declared proved)

-- the settings, and then the floor of goals
unfoldable pub load_error : String → VerificationProfile → Value → Option ProfileMismatch
load_error digest profile receipt = elim profile.rte [
  | none ↦ some unstated_settings
  | some rte ↦ elim profile.nostdinc [
    | none ↦ some unstated_settings
    | some nostdinc ↦
        if has_load receipt (expected_load digest profile rte nostdinc)
        then floor_error receipt profile
        else some other_load
  ]
]

-- what a receipt that is there is refused for
unfoldable pub receipt_error :
    String → VerificationProfile → String → Value → Option ProfileMismatch
receipt_error digest profile function receipt =
    if not (receipt_names_function receipt function)
    then some other_function
    else elim (model_error profile receipt) [
      | some e ↦ some e
      | none ↦ elim (sources_error profile receipt) [
        | some e ↦ some e
        | none ↦ load_error digest profile receipt
      ]
    ]

unfoldable pub profile_evidence_error :
    String → VerificationProfile → String → Option Value → Option ProfileMismatch
profile_evidence_error digest profile function receipt =
    if not (any (λ f. f =ˢ function) profile.functions)
    then some not_a_target
    else elim receipt [ none ↦ none | some r ↦ receipt_error digest profile function r ]
