-- ===== src/Schemas/Registry/Growth.antt =====
-- How the fields of a subject grow while its compatibility is full.
use ts_commons.Base.{
  ℕ, String, ◌≡◌, refl, sym, ap, ◌∙◌, subst, Option, none, some, Bool, true, false, List, [], ◌∷◌,
  ◌++◌, or_else, All, All-append, Bool-cases, inl, inr, if_pos, if_neg, dec_str,
}
use ts_commons.Base.JsMap.{get, get-delete}
use ts_commons.Schemas.Registry.{
  Schema, SchemaVersion, SchemaRegistry, full, new, check_compatibility, versions_of, may_follow,
  get_compatibility, register, last_of, delete_subject, Call, registers, deletes,
  sets_compatibility, run,
}
use ts_commons.Schemas.Registry.Compatible.{KeepsFields, full-KeepsFields}
use ts_commons.Schemas.Registry.Versions.{version_for, registered_versions}

-- Each version keeps the fields of every earlier one.
abbrev pub Grows : List SchemaVersion → Type 0
Grows [] = Unit {0}
Grows (v ∷ vs) = All (λ w. KeepsFields v.schema w.schema) vs × Grows vs

KeepsFields-trans : (a b c : Schema) → KeepsFields a b → KeepsFields b c → KeepsFields a c
KeepsFields-trans a b c h k n e = k n (h n e)

-- The schema may follow the last version of the list.
abbrev Follows : Schema → Option SchemaVersion → Type 0
Follows s none = Unit {0}
Follows s (some v) = KeepsFields v.schema s

first-Follows :
    (s : Schema) (w : SchemaVersion) (vs : List SchemaVersion)
    → Grows (w ∷ vs)
    → Follows s (last_of (w ∷ vs))
    → KeepsFields w.schema s
first-Follows s w [] g f = f
first-Follows s w (x ∷ vs) g f =
    KeepsFields-trans w.schema x.schema s g.0.0 (first-Follows s x vs g.1 f)

Grows-append :
    (vs : List SchemaVersion) (v : SchemaVersion)
    → Grows vs
    → Follows v.schema (last_of vs)
    → Grows (vs ++ v ∷ [])
Grows-append [] v g f = (tt, tt)
Grows-append (u ∷ []) v g f = ((f, tt), (tt, tt))
Grows-append (u ∷ w ∷ vs) v g f =
    let rest = Grows-append (w ∷ vs) v g.1 f in
    let u_v =
      KeepsFields-trans u.schema w.schema v.schema g.0.0 (first-Follows v.schema w vs g.1 f) in
    (All-append _ (w ∷ vs) (v ∷ []) g.0 (u_v, tt), rest)

-- Every call keeps the mode, which is full, and what it registers keeps the fields.
abbrev pub KeepsMode : List Call → Type 0
KeepsMode [] = Unit {0}
KeepsMode (sets_compatibility subject mode ∷ cs) = ⊥
KeepsMode (_ ∷ cs) = KeepsMode cs

record Inv (r : SchemaRegistry) : Type 0 where
  is_full : (subject : String) → get_compatibility r subject ≡ full
  grows : (subject : String) → Grows (versions_of r subject)

register_mode :
    (r : SchemaRegistry) (now : ℕ) (subject : String) (schema : Schema) (j : String)
    → get_compatibility (register r now subject schema).0 j ≡ get_compatibility r j
unfolding register get_compatibility
register_mode r now subject schema j = elim (Bool-cases (may_follow r subject schema)) [
  | inl e ↦ rw (e, register) refl
  | inr e ↦ rw (e, register) refl
]

register_refused :
    (r : SchemaRegistry) (now : ℕ) (subject : String) (schema : Schema)
    → may_follow r subject schema ≡ false
    → (register r now subject schema).0 ≡ r
unfolding register
register_refused r now subject schema e = rw (e, register) refl

may_follow-Follows :
    (r : SchemaRegistry) (subject : String) (schema : Schema)
    → get_compatibility r subject ≡ full
    → may_follow r subject schema ≡ true
    → Follows schema (last_of (versions_of r subject))
unfolding may_follow
may_follow-Follows r subject schema e h = by_last (last_of (versions_of r subject)) h
  where
    by_last :
        (o : Option SchemaVersion)
        → (elim o as (λ o. Bool) [
          | none ↦ true
          | some v ↦ check_compatibility v.schema schema (get_compatibility r subject)
        ])
          ≡ true
        → Follows schema o
    by_last none k = tt
    by_last (some v) k =
        (full-KeepsFields v.schema schema).0 (sym (ap (check_compatibility v.schema schema) e) ∙ k)

register-Inv :
    (r : SchemaRegistry) (now : ℕ) (subject : String) (schema : Schema)
    → Inv r
    → Inv (register r now subject schema).0
register-Inv r now subject schema i = elim (Bool-cases (may_follow r subject schema)) [
  | inl e ↦ record {
    is_full = λ j. register_mode r now subject schema j ∙ i.is_full j;
    grows = λ j.
        subst Grows (sym (registered_versions r now subject j schema e)) (elim (dec_str subject j) [
          | yes p ↦ rw (if_pos _ p) (
              Grows-append (versions_of r subject) (version_for r now subject schema)
                (i.grows subject) (may_follow-Follows r subject schema (i.is_full subject) e))
          | no p ↦ rw (if_neg _ p) (i.grows j)
        ]);
  }
  | inr e ↦ subst Inv (sym (register_refused r now subject schema e)) i
]

delete_subject-Inv :
    (r : SchemaRegistry) (subject : String) → Inv r → Inv (delete_subject r subject).0
unfolding delete_subject get_compatibility
delete_subject-Inv r subject i = record {
  is_full = i.is_full;
  grows = λ j.
      subst (λ o. Grows (or_else o [])) (sym (get-delete subject j r.subjects))
        (elim (dec_str subject j) [
          | yes p ↦ rw (if_pos _ p) tt
          | no p ↦ rw (if_neg _ p) (i.grows j)
        ]);
}

run-Inv : (r : SchemaRegistry) (cs : List Call) → KeepsMode cs → Inv r → Inv (run r cs)
unfolding run
run-Inv r [] k i = i
run-Inv r (registers now subject schema ∷ cs) k i =
    run-Inv (register r now subject schema).0 cs k (register-Inv r now subject schema i)
run-Inv r (deletes subject ∷ cs) k i =
    run-Inv (delete_subject r subject).0 cs k (delete_subject-Inv r subject i)
run-Inv r (sets_compatibility subject mode ∷ cs) k i = elim k [ ]

-- A registry whose mode is full and whose subjects are given no mode of their own: after any
-- registering and deleting, each version of a subject has every field of every earlier one, though a
-- schema is only ever compared with the latest.
pub run-Grows :
    (cs : List Call) (subject : String)
    → KeepsMode cs
    → Grows (versions_of (run (new full) cs) subject)
unfolding get_compatibility get
run-Grows cs subject k =
    (run-Inv (new full) cs k (record { is_full = λ j. refl; grows = λ j. tt })).grows subject
