-- ===== src/Coverage/Drift.antt =====
-- What a receipt's file hashes say about the tree as it is now (src/mcp/coverage.rs, `SourceDrift`,
-- `SourceDigests` and `receipt_source_drift`). The file system and `Path` are other packages': they are
-- arguments.
pub mod Direct
pub mod Unchanged
use frama_c_mcp.Prelude.{
  ℕ, suc, String, Bool, true, false, Option, none, some, List, [], ◌∷◌, is_empty, not, ◌=ˢ◌, lookup,
  put, if◌then◌else◌,
}
use frama_c_mcp.Json.{Value, get_str, as_array, and_then, unwrap_or, pointer}

-- `Path`: a path that is not absolute and whose parent is empty, the name of a path's directory, and the
-- name of its file; and the digest of a readable regular file's bytes.
pub record Files : Type 0 where
  pub is_bare : String → Bool
  pub parent_name : String → Option String
  pub file_name : String → Option String
  pub digest : String → Option String

pub record SourceDrift : Type 0 where
  pub changed : List String
  pub unchecked : List String
  pub unnamed : ℕ

abbrev pub no_drift : SourceDrift
no_drift = record { changed = []; unchecked = []; unnamed = 0 }

abbrev pub is_stale : SourceDrift → Bool
is_stale drift = not (is_empty drift.changed)

-- what a report has hashed so far
abbrev pub SourceDigests : Type 0
SourceDigests = List (String × Option String)

-- `SourceDigests::current`: the digest, and the cache with it
unfoldable pub current : Files → SourceDigests → String → Option String × SourceDigests
current host digests path = elim (lookup path digests) [
  | some cached ↦ (cached, digests)
  | none ↦ (host.digest path, put path (host.digest path) digests)
]

-- a file that differs, one that cannot be compared, or neither
pub data Judged : Type 0 where
  is_changed is_unchecked is_same : Judged

abbrev pub judge_digest : String → Option String → Judged
judge_digest recorded none = is_unchecked
judge_digest recorded (some now) = if now =ˢ recorded then is_same else is_changed

abbrev add_judged : String → Judged → SourceDrift → SourceDrift
add_judged path is_changed drift = record drift { changed = path ∷ drift.changed }
add_judged path is_unchecked drift = record drift { unchecked = path ∷ drift.unchecked }
add_judged path is_same drift = drift

-- One entry: the file it names and how that file is judged; `none` is an entry that names no file.
unfoldable pub judge_entry :
    Files → SourceDigests → Value → Option (String × Judged) × SourceDigests
unfolding current
judge_entry host digests entry = elim (get_str entry "path") [
  | none ↦ (none, digests)
  | some path ↦ elim (get_str entry "sha256") [
    | none ↦ (some (path, is_unchecked), digests)
    | some recorded ↦
        let found = current host digests path in
        if host.is_bare path
        then (some (path, is_unchecked), digests)
        else (some (path, judge_digest recorded found.0), found.1)
  ]
]

abbrev pub add_entry : Option (String × Judged) → SourceDrift → SourceDrift
add_entry none drift = record drift { unnamed = suc drift.unnamed }
add_entry (some (path, judged)) drift = add_judged path judged drift

-- the loop over the entries
unfoldable pub entries_drift : Files → SourceDigests → List Value → SourceDrift × SourceDigests
entries_drift host digests [] = (no_drift, digests)
entries_drift host digests (entry ∷ entries) =
    let judged = judge_entry host digests entry in
    let rest = entries_drift host judged.1 entries in (add_entry judged.0 rest.0, rest.1)

abbrev pub receipt_files : Value → List Value
receipt_files receipt =
    unwrap_or (and_then (pointer receipt ("subject" ∷ "files" ∷ [])) as_array) []

unfoldable pub receipt_source_drift : Files → SourceDigests → Value → SourceDrift × SourceDigests
receipt_source_drift host digests receipt = entries_drift host digests (receipt_files receipt)
