-- ===== src/Coverage/Drift/Unchanged.antt =====
-- What a receipt that is not stale says of its files.
use frama_c_mcp.Prelude.{
  ◌≡◌, refl, String, Bool, Bool-cases, inl, inr, true, false, ◌||◌, Option, Option-cases, none,
  some, List, [], ◌∷◌, all, ◌=ˢ◌, arith,
}
use frama_c_mcp.Json.{Value, get_str}
use frama_c_mcp.Coverage.Drift.{Files, SourceDrift, is_stale, judge_digest, add_entry}
use frama_c_mcp.Coverage.Drift.Direct.{judge_read, drift_read}

-- the hash is that recorded, or the file cannot be read
abbrev is_digest_of : String → Option String → Bool
is_digest_of recorded none = true
is_digest_of recorded (some now) = now =ˢ recorded

-- The file of an entry has the recorded hash, where the entry names a file by more than a bare name, has a
-- hash for it, and the file can be read.
abbrev pub is_unchanged : Files → Value → Bool
is_unchanged host entry = elim (get_str entry "path") [
  | none ↦ true
  | some path ↦ elim (get_str entry "sha256") [
    | none ↦ true
    | some recorded ↦ host.is_bare path || is_digest_of recorded (host.digest path)
  ]
]

same_digest :
    (path recorded : String) (now : Option String) (drift : SourceDrift)
    → is_stale (add_entry (some (path, judge_digest recorded now)) drift) ≡ false
    → (is_digest_of recorded now ≡ true) × (is_stale drift ≡ false)
same_digest path recorded none drift h = (refl, h)
same_digest path recorded (some now) drift h = elim (Bool-cases (now =ˢ recorded)) [
  | inl same ↦ (same, ground arith)
  | inr differ ↦ absurd (ground arith)
]

entry_unchanged :
    (host : Files) (entry : Value) (drift : SourceDrift)
    → is_stale (add_entry (judge_read host entry) drift) ≡ false
    → (is_unchanged host entry ≡ true) × (is_stale drift ≡ false)
entry_unchanged host entry drift h = elim (Option-cases (get_str entry "path")) [
  | inl eq ↦ (rw (eq, is_unchanged) refl, rw (eq, judge_read) at h)
  | inr (path, eq) ↦ elim (Option-cases (get_str entry "sha256")) [
    | inl eq2 ↦ (rw (eq, eq2, is_unchanged) refl, rw (eq, eq2, judge_read) at h)
    | inr (recorded, eq2) ↦ elim (Bool-cases (host.is_bare path)) [
      | inl bare ↦ (rw (eq, eq2, bare, is_unchanged) refl, rw (eq, eq2, bare, judge_read) at h)
      | inr full ↦
          let (same, rest) =
            same_digest path recorded (host.digest path) drift
              (rw (eq, eq2, full, judge_read) at h) in
          (rw (eq, eq2, full, is_unchanged) same, rest)
    ]
  ]
]

pub drift_read-is_unchanged :
    (host : Files) (entries : List Value)
    → is_stale (drift_read host entries) ≡ false
    → all (is_unchanged host) entries ≡ true
drift_read-is_unchanged host [] h = refl
drift_read-is_unchanged host (entry ∷ entries) h =
    let (here, fresh) = entry_unchanged host entry (drift_read host entries) h in
    let rest = drift_read-is_unchanged host entries fresh in rw here rest
