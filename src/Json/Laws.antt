-- ===== src/Json/Laws.antt =====
-- Objects as maps.
use frama_c_mcp.Prelude.{String, ◌≡◌, refl, none, some, arith, ◌=ˢ◌, =ˢ_iff, if◌then◌else◌}
use frama_c_mcp.Json.{Value, Fields, end, field, find_field, insert, without}

pub find_field-insert :
    (k j : String) (v : Value) (fs : Fields)
    → find_field j (insert k v fs) ≡ (if k =ˢ j then some v else find_field j fs)
unfolding find_field insert
find_field-insert k j v end = refl
find_field-insert k j v (field i w fs) =
    ground (arith, =ˢ_iff k j, =ˢ_iff i k, =ˢ_iff i j, find_field-insert k j v fs)

find_field-without :
    (k j : String) (fs : Fields)
    → find_field j (without k fs) ≡ (if k =ˢ j then none else find_field j fs)
unfolding find_field without
find_field-without k j end = ground arith
find_field-without k j (field i w fs) =
    ground (arith, =ˢ_iff k j, =ˢ_iff i k, =ˢ_iff i j, find_field-without k j fs)
