-- ===== src/Schemas/Registry/Versions.antt =====
-- How the versions of a subject are numbered.
use ts_commons.Base.{
  ℕ, zero, suc, get_elem?, ◌+◌, ◌<◌, ◌≤◌, ◌==◌, String, ◌≡◌, ◌≢◌, refl, sym, ap, ◌∙◌, subst, Option,
  none, some, true, false, List, [], ◌∷◌, ◌++◌, arith, or_else, length, Bool-cases, inl, inr, ite,
  if_pos, if_neg, dec_str,
}
use ts_commons.Base.JsMap.{get, get-set, get-delete}
use ts_commons.Schemas.Registry.{
  Schema, SchemaVersion, SchemaRegistry, CompatibilityMode, new, versions_of, may_follow, register,
  get_latest, get_version, find_version, last_of, delete_subject, set_compatibility, Call,
  registers, deletes, sets_compatibility, run, ok, throws, Answer, version_not_found,
  subject_not_found,
}

-- Versions of one subject, numbered from `n + 1` on, with rising ids from `low` to below `high`.
abbrev pub IsNumbered : String → ℕ → ℕ → ℕ → List SchemaVersion → Type 0
IsNumbered subject n low high [] = low ≤ high
IsNumbered subject n low high (v ∷ vs) =
    (v.subject ≡ subject)
    × (v.version ≡ n + 1)
    × (low ≤ v.id)
    × IsNumbered subject (n + 1) (v.id + 1) high vs

IsNumbered-append :
    (subject : String) (n low high : ℕ) (vs : List SchemaVersion) (v : SchemaVersion)
    → IsNumbered subject n low high vs
    → v.subject ≡ subject
    → v.version ≡ n + length vs + 1
    → v.id ≡ high
    → IsNumbered subject n low (high + 1) (vs ++ v ∷ [])
IsNumbered-append subject n low high [] v h s e i =
    (s, omega (arith, e), omega (arith, h, i), omega (arith, i))
IsNumbered-append subject n low high (w ∷ vs) v h s e i = (
  h.0,
  h.1,
  h.2,
  IsNumbered-append subject (n + 1) (w.id + 1) high vs v h.3 s (omega (arith, e)) i,
)

IsNumbered-le :
    (subject : String) (n low high : ℕ) (vs : List SchemaVersion)
    → IsNumbered subject n low high vs
    → low ≤ high
IsNumbered-le subject n low high [] h = h
IsNumbered-le subject n low high (v ∷ vs) h =
    omega (arith, h.2, IsNumbered-le subject (n + 1) (v.id + 1) high vs h.3)

IsNumbered-later :
    (subject : String) (n low high : ℕ) (vs : List SchemaVersion)
    → IsNumbered subject n low high vs
    → IsNumbered subject n low (high + 1) vs
IsNumbered-later subject n low high [] h = omega (arith, h)
IsNumbered-later subject n low high (v ∷ vs) h =
    (h.0, h.1, h.2, IsNumbered-later subject (n + 1) (v.id + 1) high vs h.3)

-- Every subject's versions are numbered so, from 1 on.
pub record Inv (r : SchemaRegistry) : Type 0 where
  pub numbered : (subject : String) → IsNumbered subject 0 1 r.next_id (versions_of r subject)

IsNumbered-at :
    (k j : String) (low high : ℕ) (vs ws : List SchemaVersion)
    → (k ≡ j → IsNumbered j 0 low high vs)
    → IsNumbered j 0 low high ws
    → (o : Option (List SchemaVersion)) → or_else o [] ≡ vs
    → (p : Option (List SchemaVersion)) → or_else p [] ≡ ws
    → IsNumbered j 0 low high (or_else (ite (dec_str k j) o p) [])
IsNumbered-at k j low high vs ws a b o e p f = elim (dec_str k j) [
  | yes q ↦ rw (if_pos _ q) (subst (IsNumbered j 0 low high) (sym e) (a q))
  | no q ↦ rw (if_neg _ q) (subst (IsNumbered j 0 low high) (sym f) b)
]

abbrev pub version_for : SchemaRegistry → ℕ → String → Schema → SchemaVersion
version_for r now subject schema = record {
  id = r.next_id;
  version = length (versions_of r subject) + 1;
  schema = schema;
  subject = subject;
  created_at = now;
}

register-Inv :
    (r : SchemaRegistry) (now : ℕ) (subject : String) (schema : Schema)
    → Inv r
    → Inv (register r now subject schema).0
unfolding register
register-Inv r now subject schema i = elim (Bool-cases (may_follow r subject schema)) [
  | inl e ↦
      rw (e, register)
        (record {
          numbered = λ j. rw (get-set subject j (versions_of r subject ++ _ ∷ []) r.subjects) (
              IsNumbered-at subject j 1 (r.next_id + 1) _ (versions_of r j)
                (λ p.
                  subst
                    (λ j.
                      IsNumbered j 0 1 (r.next_id + 1)
                        (versions_of r subject ++ version_for r now subject schema ∷ []))
                    p
                    (IsNumbered-append subject 0 1 r.next_id (versions_of r subject)
                      (version_for r now subject schema) (i.numbered subject) refl (omega arith)
                      refl))
                (IsNumbered-later j 0 1 r.next_id (versions_of r j) (i.numbered j)) _ refl _ refl);
        })
  | inr e ↦ rw (e, register) i
]

delete_subject-Inv :
    (r : SchemaRegistry) (subject : String) → Inv r → Inv (delete_subject r subject).0
unfolding delete_subject
delete_subject-Inv r subject i = record {
  numbered = λ j. rw (get-delete subject j r.subjects) (
      IsNumbered-at subject j 1 r.next_id [] (versions_of r j)
        (λ p. IsNumbered-le j 0 1 r.next_id (versions_of r j) (i.numbered j)) (i.numbered j) _ refl
        _ refl);
}

run-Inv : (r : SchemaRegistry) (cs : List Call) → Inv r → Inv (run r cs)
unfolding run set_compatibility
run-Inv r [] i = i
run-Inv r (registers now subject schema ∷ cs) i =
    run-Inv (register r now subject schema).0 cs (register-Inv r now subject schema i)
run-Inv r (deletes subject ∷ cs) i =
    run-Inv (delete_subject r subject).0 cs (delete_subject-Inv r subject i)
run-Inv r (sets_compatibility subject mode ∷ cs) i =
    run-Inv (set_compatibility r subject mode) cs (record { numbered = i.numbered })

-- The version found under a number is the one at its place.
find_version-IsNumbered :
    (subject : String) (n low high : ℕ) (vs : List SchemaVersion) (k : ℕ)
    → IsNumbered subject n low high vs
    → find_version (n + k + 1) vs ≡ get_elem? vs k
unfolding find_version
find_version-IsNumbered subject n low high [] k h = refl
find_version-IsNumbered subject n low high (v ∷ vs) zero h =
    let same : (v.version == n + 0 + 1) ≡ true = ground (arith, h.1) in rw same refl
find_version-IsNumbered subject n low high (v ∷ vs) (suc k) h =
    let differs : (v.version == n + suc k + 1) ≡ false = ground (arith, h.1) in
    rw differs (
      subst (λ m. find_version m vs ≡ get_elem? vs k) (omega arith)
        (find_version-IsNumbered subject (n + 1) (v.id + 1) high vs k h.3))

new-Inv : (mode : CompatibilityMode) → Inv (new mode)
unfolding get
new-Inv mode = record { numbered = λ j. omega arith }

-- After any calls on a new registry, the versions of every subject are numbered from 1 on without a
-- gap, each knows its subject, and their ids rise and are below the next one.
pub run-IsNumbered :
    (mode : CompatibilityMode) (cs : List Call) (subject : String)
    → IsNumbered subject 0 1 (run (new mode) cs).next_id (versions_of (run (new mode) cs) subject)
run-IsNumbered mode cs subject = (run-Inv (new mode) cs (new-Inv mode)).numbered subject

abbrev pub answered : String → ℕ → Option SchemaVersion → Answer SchemaVersion
answered subject n none = throws (version_not_found subject n)
answered subject n (some v) = ok v

get_version-at :
    (r : SchemaRegistry) (subject : String) (k : ℕ)
    → Inv r
    → get_version r subject (k + 1) ≡ answered subject (k + 1) (get_elem? (versions_of r subject) k)
unfolding get_version
get_version-at r subject k i = ap (answered subject (k + 1)) (
    subst (λ m. find_version m (versions_of r subject) ≡ get_elem? (versions_of r subject) k)
      (omega arith)
      (find_version-IsNumbered subject 0 1 r.next_id (versions_of r subject) k
        (i.numbered subject)))

get_elem?-last :
    (vs : List SchemaVersion) (v : SchemaVersion) → get_elem? (vs ++ v ∷ []) (length vs) ≡ some v
get_elem?-last [] v = refl
get_elem?-last (w ∷ vs) v = get_elem?-last vs v

get_elem?-before :
    (vs : List SchemaVersion) (v : SchemaVersion) (k : ℕ)
    → k < length vs
    → get_elem? (vs ++ v ∷ []) k ≡ get_elem? vs k
get_elem?-before [] v k h = absurd (omega (arith, h))
get_elem?-before (w ∷ vs) v zero h = refl
get_elem?-before (w ∷ vs) v (suc k) h = get_elem?-before vs v k (omega (arith, h))

last_of-append : (vs : List SchemaVersion) (v : SchemaVersion) → last_of (vs ++ v ∷ []) ≡ some v
last_of-append [] v = refl
last_of-append (w ∷ []) v = refl
last_of-append (w ∷ x ∷ vs) v = last_of-append (x ∷ vs) v

pub registered_versions :
    (r : SchemaRegistry) (now : ℕ) (subject j : String) (schema : Schema)
    → may_follow r subject schema ≡ true
    → versions_of (register r now subject schema).0 j
      ≡ ite
          (dec_str subject j)
          (versions_of r subject ++ version_for r now subject schema ∷ [])
          (versions_of r j)
unfolding register
registered_versions r now subject j schema e =
    rw (e, register)
      (ap (λ o. or_else o [])
          (get-set subject j (versions_of r subject ++ version_for r now subject schema ∷ [])
            r.subjects)
        ∙ elim (dec_str subject j) [
          | yes p ↦ rw (if_pos _ p, if_pos _ p) refl
          | no p ↦ rw (if_neg _ p, if_neg _ p) refl
        ])

abbrev latest_answer : String → Option SchemaVersion → Answer Schema
latest_answer subject none = throws (subject_not_found subject)
latest_answer subject (some v) = ok v.schema

module _ (r : SchemaRegistry) (now : ℕ) (subject : String) (schema : Schema) (i : Inv r)
    (e : may_follow r subject schema ≡ true) where
  abbrev r' : SchemaRegistry
  r' = (register r now subject schema).0

  abbrev vs : List SchemaVersion
  vs = versions_of r subject

  here : versions_of r' subject ≡ vs ++ version_for r now subject schema ∷ []
  here =
      registered_versions r now subject subject schema e ∙ if_pos (dec_str subject subject) refl _ _

  register_answer : (register r now subject schema).1 ≡ ok r.next_id
  unfolding register
  register_answer = rw (e, register) refl

  get_latest-register : get_latest r' subject ≡ ok schema
  unfolding get_latest
  get_latest-register =
      ap (latest_answer subject)
        (ap last_of here ∙ last_of-append vs (version_for r now subject schema))

  get_version-register :
      get_version r' subject (length vs + 1) ≡ ok (version_for r now subject schema)
  get_version-register =
      get_version-at r' subject (length vs) (register-Inv r now subject schema i)
      ∙ ap (answered subject (length vs + 1)) (
          ap (λ ws. get_elem? ws (length vs)) here
          ∙ get_elem?-last vs (version_for r now subject schema))

  get_version-before :
      (k : ℕ) → k < length vs → get_version r' subject (k + 1) ≡ get_version r subject (k + 1)
  get_version-before k lt =
      get_version-at r' subject k (register-Inv r now subject schema i)
      ∙ ap (answered subject (k + 1)) (
          ap (λ ws. get_elem? ws k) here
          ∙ get_elem?-before vs (version_for r now subject schema) k lt)
      ∙ sym (get_version-at r subject k i)

-- A schema that may follow the latest version, after any calls on a new registry, is registered: it
-- gets the next id, is the latest schema and the version with the number after the last; the earlier
-- versions are found as before, and the versions of the other subjects stay.
pub register-get_version :
    (mode : CompatibilityMode) (cs : List Call) (now : ℕ) (subject : String) (schema : Schema)
    → may_follow (run (new mode) cs) subject schema ≡ true
    → let r = run (new mode) cs in
      let (r', answer) = register r now subject schema in
      let n = length (versions_of r subject) in
      (answer ≡ ok r.next_id)
      × (get_latest r' subject ≡ ok schema)
      × (get_version r' subject (n + 1) ≡ ok (version_for r now subject schema))
      × ((k : ℕ) → k < n → get_version r' subject (k + 1) ≡ get_version r subject (k + 1))
      × ((j : String) → subject ≢ j → versions_of r' j ≡ versions_of r j)
register-get_version mode cs now subject schema e =
    let r = run (new mode) cs in
    let i = run-Inv (new mode) cs (new-Inv mode) in
    (
      register_answer r now subject schema i e,
      get_latest-register r now subject schema i e,
      get_version-register r now subject schema i e,
      get_version-before r now subject schema i e,
      λ j ne. registered_versions r now subject j schema e ∙ if_neg (dec_str subject j) ne _ _,
    )
