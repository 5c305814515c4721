-- ===== src/Schemas/Registry.antt =====
-- packages/schema-registry/src/SchemaRegistry.ts: versions of schemas by subject, and the tests of
-- compatibility. A method that throws returns the error; the date is an argument.
pub mod Versions
pub mod Compatible
pub mod Growth
use ts_commons.Base.{
  ℕ, suc, ◌+◌, ◌==◌, String, Option, none, some, Bool, true, false, not, ◌&&◌, List, [], ◌∷◌, ◌++◌,
  map, or_else, if◌then◌else◌, length,
}
use ts_commons.Base.JsMap.{JsMap, get, has, set, delete, keys, size}

pub data CompatibilityMode : Type 0 where
  always : CompatibilityMode
  backward : CompatibilityMode
  forward : CompatibilityMode
  full : CompatibilityMode

pub data SchemaType : Type 0 where
  json : SchemaType
  avro : SchemaType
  protobuf : SchemaType

pub record SchemaField : Type 0 where
  pub name : String
  pub field_type : String
  pub optional : Option Bool

pub record Schema : Type 0 where
  pub schema_type : SchemaType
  pub fields : List SchemaField
  pub namespace : Option String

pub record SchemaVersion : Type 0 where
  pub id : ℕ
  pub version : ℕ
  pub schema : Schema
  pub subject : String
  pub created_at : ℕ

pub record SchemaRegistry : Type 0 where
  pub subjects : JsMap (List SchemaVersion)
  pub global_compatibility : CompatibilityMode
  pub subject_compatibility : JsMap CompatibilityMode
  pub next_id : ℕ

pub data SchemaError : Type 0 where
  incompatible : String → SchemaError
  subject_not_found : String → SchemaError
  version_not_found : String → ℕ → SchemaError

pub data Answer (A : Type 0) : Type 0 where
  ok : A → Answer A
  throws : SchemaError → Answer A

abbrev pub new : CompatibilityMode → SchemaRegistry
new mode = record {
  subjects = [];
  global_compatibility = mode;
  subject_compatibility = [];
  next_id = 1;
}

-- `new Map(fields.map((f) => [f.name, f]))`, on top of a map.
unfoldable pub fields_map : List SchemaField → JsMap SchemaField → JsMap SchemaField
fields_map [] m = m
fields_map (f ∷ fs) m = fields_map fs (set f.name f m)

abbrev pub is_optional : SchemaField → Bool
is_optional f = or_else f.optional false

-- The loops over the fields that there were: each required one, or each optional one, is still there.
unfoldable pub backward_check : JsMap SchemaField → JsMap SchemaField → Bool
backward_check [] next = true
backward_check ((name, field) ∷ fs) next =
    if not (is_optional field) && not (has name next) then false else backward_check fs next

unfoldable pub forward_check : JsMap SchemaField → JsMap SchemaField → Bool
forward_check [] next = true
forward_check ((name, field) ∷ fs) next =
    if is_optional field && not (has name next) then false else forward_check fs next

unfoldable pub check_compatibility : Schema → Schema → CompatibilityMode → Bool
unfolding fields_map backward_check forward_check
check_compatibility existing next mode =
    let was = fields_map existing.fields [] in
    let is = fields_map next.fields [] in
    elim mode [
      | always ↦ true
      | backward ↦ backward_check was is
      | forward ↦ forward_check was is
      | full ↦ if backward_check was is then forward_check was is else false
    ]

abbrev pub last_of : {A : Type 0} → List A → Option A
last_of [] = none
last_of (x ∷ []) = some x
last_of (x ∷ y ∷ ys) = last_of (y ∷ ys)

abbrev pub versions_of : SchemaRegistry → String → List SchemaVersion
versions_of r subject = or_else (get subject r.subjects) []

unfoldable pub get_compatibility : SchemaRegistry → String → CompatibilityMode
get_compatibility r subject = or_else (get subject r.subject_compatibility) r.global_compatibility

-- Whether the latest version, if there is one, lets the schema follow it.
unfoldable pub may_follow : SchemaRegistry → String → Schema → Bool
unfolding get_compatibility
may_follow r subject schema = elim (last_of (versions_of r subject)) [
  | none ↦ true
  | some latest ↦ check_compatibility latest.schema schema (get_compatibility r subject)
]

unfoldable pub register : SchemaRegistry → ℕ → String → Schema → SchemaRegistry × Answer ℕ
unfolding may_follow
register r now subject schema =
    let existing = versions_of r subject in
    let version : SchemaVersion = record {
      id = r.next_id;
      version = length existing + 1;
      schema = schema;
      subject = subject;
      created_at = now;
    } in
    if may_follow r subject schema
    then (
      record r {
        next_id = r.next_id + 1;
        subjects = set subject (existing ++ version ∷ []) r.subjects;
      },
      ok r.next_id,
    )
    else (r, throws (incompatible subject))

unfoldable pub get_latest : SchemaRegistry → String → Answer Schema
get_latest r subject = elim (last_of (versions_of r subject)) [
  | none ↦ throws (subject_not_found subject)
  | some v ↦ ok v.schema
]

-- `versions.find((v) => v.version === version)`
unfoldable pub find_version : ℕ → List SchemaVersion → Option SchemaVersion
find_version n [] = none
find_version n (v ∷ vs) = let rest = find_version n vs in if v.version == n then some v else rest

unfoldable pub get_version : SchemaRegistry → String → ℕ → Answer SchemaVersion
unfolding find_version
get_version r subject version = elim (find_version version (versions_of r subject)) [
  | none ↦ throws (version_not_found subject version)
  | some v ↦ ok v
]

abbrev pub list_subjects : SchemaRegistry → List String
list_subjects r = keys r.subjects

abbrev pub list_versions : SchemaRegistry → String → List ℕ
list_versions r subject = map (λ v. v.version) (versions_of r subject)

unfoldable pub delete_subject : SchemaRegistry → String → SchemaRegistry × Bool
delete_subject r subject =
    (record r { subjects = delete subject r.subjects }, has subject r.subjects)

unfoldable pub set_compatibility : SchemaRegistry → String → CompatibilityMode → SchemaRegistry
set_compatibility r subject mode = record r {
  subject_compatibility = set subject mode r.subject_compatibility;
}

abbrev pub subject_count : SchemaRegistry → ℕ
subject_count r = size r.subjects

-- A call on the registry.
pub data Call : Type 0 where
  registers : ℕ → String → Schema → Call
  deletes : String → Call
  sets_compatibility : String → CompatibilityMode → Call

abbrev pub step : SchemaRegistry → Call → SchemaRegistry
step r (registers now subject schema) = (register r now subject schema).0
step r (deletes subject) = (delete_subject r subject).0
step r (sets_compatibility subject mode) = set_compatibility r subject mode

unfoldable pub run : SchemaRegistry → List Call → SchemaRegistry
unfolding register delete_subject set_compatibility
run r [] = r
run r (c ∷ cs) = run (step r c) cs
