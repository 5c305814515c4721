-- ===== src/Schemas/Tests.antt =====
-- Runs of the registry at concrete inputs.
use ts_commons.Base.{
  ℕ, ◌+◌, ◌<◌, ◌≡◌, ◌≢◌, ◌↔◌, refl, String, Option, none, some, true, List, [], ◌∷◌, length,
  dec_str,
}
use ts_commons.Base.JsMap.{get, set, delete}
use ts_commons.Schemas.Registry.{
  Schema, SchemaField, json, full, new, Call, registers, deletes, run, register, may_follow,
  get_latest, get_version, versions_of, check_compatibility, ok,
}
use ts_commons.Schemas.Registry.Versions.{
  run-IsNumbered, IsNumbered, register-get_version, version_for,
}
use ts_commons.Schemas.Registry.Compatible.{full-KeepsFields, KeepsFields}
use ts_commons.Schemas.Registry.Growth.{run-Grows, Grows}

abbrev field : String → Option String → SchemaField
field name t = record { name = name; field_type = "string"; optional = none }

abbrev optional_field : String → SchemaField
optional_field name = record { name = name; field_type = "string"; optional = some true }

abbrev schema : List SchemaField → Schema
schema fields = record { schema_type = json; fields = fields; namespace = none }

abbrev order_1 : Schema
order_1 = schema (field "id" none ∷ [])

abbrev order_2 : Schema
order_2 = schema (field "id" none ∷ optional_field "note" ∷ [])

abbrev calls : List Call
calls =
    registers 5 "order" order_1
    ∷ registers 6 "user" order_1
    ∷ deletes "user"
    ∷ registers 7 "order" order_2
    ∷ registers 8 "order" order_1
    ∷ []

run-IsNumbered_example :
    IsNumbered "order" 0 1
      (run (new full) calls).next_id
      (versions_of (run (new full) calls) "order")
run-IsNumbered_example = run-IsNumbered full calls "order"

run-Grows_example : Grows (versions_of (run (new full) calls) "order")
run-Grows_example = run-Grows calls "order" tt

-- The last call would take the optional field away, and is refused.
two_versions : length (versions_of (run (new full) calls) "order") ≡ 2
unfolding run get set delete dec_str check_compatibility
two_versions = refl

full-KeepsFields_example :
    (check_compatibility order_1 order_2 full ≡ true) ↔ KeepsFields order_1 order_2
full-KeepsFields_example = full-KeepsFields order_1 order_2

may_register : may_follow (run (new full) calls) "order" order_2 ≡ true
unfolding run get set delete dec_str may_follow check_compatibility
may_register = refl

register-get_version_example :
    let r = run (new full) calls in
    let (r', answer) = register r 9 "order" order_2 in
    let n = length (versions_of r "order") in
    (answer ≡ ok r.next_id)
    × (get_latest r' "order" ≡ ok order_2)
    × (get_version r' "order" (n + 1) ≡ ok (version_for r 9 "order" order_2))
    × ((k : ℕ) → k < n → get_version r' "order" (k + 1) ≡ get_version r "order" (k + 1))
    × ((j : String) → "order" ≢ j → versions_of r' j ≡ versions_of r j)
register-get_version_example = register-get_version full calls 9 "order" order_2 may_register
