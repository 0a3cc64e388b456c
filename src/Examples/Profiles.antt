-- ===== src/Examples/Profiles.antt =====
-- A map of one target.
use frama_c_mcp.Coverage.Profile.Parse.{insert_profile}
use frama_c_mcp.Prelude.{trim}
use frama_c_mcp.Coverage.Profile.Parse.{trim_all}
use frama_c_mcp.Coverage.Profile.Parse.{check_profile}
use frama_c_mcp.Coverage.Profile.Parse.{read_profiles}
use frama_c_mcp.Prelude.{
  String, ◌≡◌, refl, true, false, some, none, List, [], ◌∷◌, is_empty, Result, ok, err,
}
use frama_c_mcp.Json.{Value, null, obj}
use frama_c_mcp.Coverage.Profile.{VerificationProfile}
use frama_c_mcp.Coverage.Profile.Parse.{
  blank_entry, all_usable, parse_verification_profiles, parse_verification_profiles-usable,
}

abbrev target : String → VerificationProfile
target name = record {
  sources = [];
  functions = name ∷ [];
  model = none;
  machdep = none;
  include_paths = [];
  defines = [];
  force_includes = [];
  provers = [];
  timeout_seconds = none;
  isystem_paths = [];
  nostdinc = none;
  min_goals = some 3;
  build_gates = [];
  rte = some true;
  rte_unsigned = none;
  rte_pointer = none;
  builtin_models = none;
  reproduce = none;
}

abbrev decode : Value → Result String VerificationProfile
decode null = ok (target "  ")
decode body = ok (target " f ")

abbrev document : Value
document = obj (("elf", obj []) ∷ [])

abbrev registered : List (String × VerificationProfile)
registered = ("elf", target "f") ∷ []

read : parse_verification_profiles decode document ≡ ok registered
unfolding parse_verification_profiles read_profiles check_profile trim_all trim insert_profile
read = refl

blank_is_refused :
    parse_verification_profiles decode (obj (("elf", null) ∷ []))
    ≡ err (blank_entry "elf" "functions")
unfolding parse_verification_profiles read_profiles check_profile trim_all trim
blank_is_refused = refl

parse_verification_profiles-usable_example :
    (all_usable registered ≡ true) × (is_empty registered ≡ false)
parse_verification_profiles-usable_example =
    parse_verification_profiles-usable decode document registered read
