-- ===== src/Receipt.antt =====
-- Proof receipts (src/mcp/receipt.rs): the shape of one, and which of its goals are progress.
-- SHA-256 and the JSON printer are other packages', so the digests are an argument.
pub mod Evidence
use Prim.Native.Nat.{Ordering}
use Prim.Native.String.{◌++◌ as append, slice, compare}
use frama_c_mcp.Prelude.{
  String, Bool, true, false, ◌&&◌, not, Option, none, some, List, [], ◌∷◌, ◌++◌, map, all,
  filter_by, ◌=ˢ◌, if◌then◌else◌,
}
use frama_c_mcp.Json.{
  Value, null, string, Fields, obj, get, at, entries, get_str, as_bool, as_object, and_then,
  unwrap_or, is_some, is_some_and,
}
use frama_c_mcp.Status.{is_proved}

-- Lower-case hex SHA-256: of a text's bytes, and of a value's JSON (`none` is no bytes at all).
pub record Digests : Type 0 where
  pub of_text : String → String
  pub of_json : Option Value → String

abbrev pub receipt_schema : String
receipt_schema = "frama-c-mcp.proof-receipt"

abbrev pub post_body_key : String
post_body_key = "sha256"

unfoldable pub insert_sorted : String → List String → List String
insert_sorted k [] = k ∷ []
insert_sorted k (j ∷ ks) =
    let rest = insert_sorted k ks in elim (compare k j) [ Ordering.gt ↦ j ∷ rest | _ ↦ k ∷ j ∷ ks ]

-- `Vec::<String>::sort`
unfoldable pub sort_texts : List String → List String
unfolding insert_sorted
sort_texts [] = []
sort_texts (k ∷ ks) = insert_sorted k (sort_texts ks)

join_lines : List String → String
join_lines [] = ""
join_lines (k ∷ []) = k
join_lines (k ∷ j ∷ ks) = append k (append "\n" (join_lines (j ∷ ks)))

-- the closure `names` of `schema_of`: the sorted keys of an object, under a prefix
names : String → Value → List String
unfolding sort_texts
names prefix v =
    let keys =
      map (λ (e : String × Value). e.0)
        (unwrap_or (and_then (as_object v) (λ fs. some (entries fs))) []) in
    sort_texts
      (map (append prefix) (filter_by (λ k. not (prefix =ˢ "" && k =ˢ post_body_key)) keys))

unfoldable pub schema_of : Digests → Value → String
unfolding names join_lines
schema_of h receipt =
    slice (h.of_text (join_lines (names "" receipt ++ names "subject." (at receipt "subject")))) 0
      12

-- The keys that `proof_receipt_body` writes; `receipt_shape` asks only for these.
abbrev pub probe : Value
probe = obj (
    ("schema", string receipt_schema)
    ∷ (
      "subject",
      obj (
          ("tool", null)
          ∷ ("source_hash", null)
          ∷ ("files", null)
          ∷ ("project_load", null)
          ∷ ("ast_digest", null)
          ∷ ("ast_digest_unavailable_nonce", null)
          ∷ ("ast_digest_unavailable_reason", null)
          ∷ ("contracts", null)
          ∷ []),
    )
    ∷ ("environment", null)
    ∷ ("wp", null)
    ∷ ("eva", null)
    ∷ ("goals_status_source", null)
    ∷ ("goals", null)
    ∷ ("reported", null)
    ∷ [])

unfoldable pub receipt_shape : Digests → String
unfolding schema_of
receipt_shape h = schema_of h probe

unfoldable pub receipt_goal_is_progress : Value → Bool
receipt_goal_is_progress goal =
    is_some_and (get_str goal "status") is_proved
    && not (unwrap_or (and_then (get goal "vacuously_proved") as_bool) false)

unfoldable pub receipt_goals_record_owner : List Value → Bool
receipt_goals_record_owner goals = all (λ goal. is_some (get goal "fct")) goals
