-- ===== src/Coverage/Drift/Direct.antt =====
-- The cache of digests does not show: a report reads every file as it is.
use frama_c_mcp.Prelude.{
  ◌≡◌, refl, String, Bool-cases, inl, inr, Option, Option-cases, none, some, List, [], ◌∷◌, ◌=ˢ◌,
  =ˢ_iff, lookup, lookup-put, if◌then◌else◌, arith,
}
use frama_c_mcp.Json.{Value, get_str}
use frama_c_mcp.Coverage.Drift.{
  Files, SourceDrift, no_drift, SourceDigests, current, Judged, is_unchecked, judge_digest,
  judge_entry, add_entry, entries_drift, receipt_files, receipt_source_drift,
}

-- how an entry is judged when every file is read
abbrev pub judge_read : Files → Value → Option (String × Judged)
judge_read host entry = elim (get_str entry "path") [
  | none ↦ none
  | some path ↦ elim (get_str entry "sha256") [
    | none ↦ some (path, is_unchecked)
    | some recorded ↦
        if host.is_bare path
        then some (path, is_unchecked)
        else some (path, judge_digest recorded (host.digest path))
  ]
]

abbrev pub drift_read : Files → List Value → SourceDrift
drift_read host [] = no_drift
drift_read host (entry ∷ entries) = add_entry (judge_read host entry) (drift_read host entries)

-- Every cached digest is that of the file.
unfoldable pub IsFaithful : Files → SourceDigests → Type 0
IsFaithful host digests =
    (path : String) (d : Option String) → lookup path digests ≡ some d → d ≡ host.digest path

pub IsFaithful-empty : (host : Files) → IsFaithful host []
unfolding IsFaithful lookup
IsFaithful-empty host path d h = absurd (ground arith)

current-IsFaithful :
    (host : Files) (digests : SourceDigests) (path : String)
    → IsFaithful host digests
    → ((current host digests path).0 ≡ host.digest path)
      × IsFaithful host (current host digests path).1
unfolding current IsFaithful
current-IsFaithful host digests path faithful = elim (Option-cases (lookup path digests)) [
  | inr (cached, eq) ↦ rw (eq, current) (faithful path cached eq, faithful)
  | inl eq ↦
      rw (eq, current)
        (
          refl,
          λ other d h. elim (Bool-cases (path =ˢ other)) [
            | inl same ↦
                ground (arith, =ˢ_iff path other, lookup-put path other (host.digest path) digests)
            | inr differ ↦
                faithful other d (ground (arith, lookup-put path other (host.digest path) digests))
          ],
        )
]

judge_entry-IsFaithful :
    (host : Files) (digests : SourceDigests) (entry : Value)
    → IsFaithful host digests
    → ((judge_entry host digests entry).0 ≡ judge_read host entry)
      × IsFaithful host (judge_entry host digests entry).1
unfolding judge_entry
judge_entry-IsFaithful host digests entry faithful = elim (Option-cases (get_str entry "path")) [
  | inl eq ↦ rw (eq, judge_entry, judge_read) (refl, faithful)
  | inr (path, eq) ↦ elim (Option-cases (get_str entry "sha256")) [
    | inl eq2 ↦ rw (eq, eq2, judge_entry, judge_read) (refl, faithful)
    | inr (recorded, eq2) ↦ elim (Bool-cases (host.is_bare path)) [
      | inl bare ↦ rw (eq, eq2, bare, judge_entry, judge_read) (refl, faithful)
      | inr full ↦
          let found = current-IsFaithful host digests path faithful in
          rw (eq, eq2, full, found.0, judge_entry, judge_read) (refl, found.1)
    ]
  ]
]

entries_drift-IsFaithful :
    (host : Files) (digests : SourceDigests) (entries : List Value)
    → IsFaithful host digests
    → ((entries_drift host digests entries).0 ≡ drift_read host entries)
      × IsFaithful host (entries_drift host digests entries).1
unfolding entries_drift
entries_drift-IsFaithful host digests [] faithful = (refl, faithful)
entries_drift-IsFaithful host digests (entry ∷ entries) faithful =
    let (here, kept) = judge_entry-IsFaithful host digests entry faithful in
    let (rest, after) =
      entries_drift-IsFaithful host (judge_entry host digests entry).1 entries kept in
    (rw (here, rest), after)

-- Where the cache holds only digests that the files have, the drift of a receipt is that of reading every
-- file, and the cache still holds only such digests.
pub receipt_source_drift_lem :
    (host : Files) (digests : SourceDigests) (receipt : Value)
    → IsFaithful host digests
    → ((receipt_source_drift host digests receipt).0 ≡ drift_read host (receipt_files receipt))
      × IsFaithful host (receipt_source_drift host digests receipt).1
unfolding receipt_source_drift
receipt_source_drift_lem host digests receipt =
    entries_drift-IsFaithful host digests (receipt_files receipt)
