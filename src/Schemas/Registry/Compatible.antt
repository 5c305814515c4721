-- ===== src/Schemas/Registry/Compatible.antt =====
-- What full compatibility comes to.
use ts_commons.Base.{
  String, ◌≡◌, ◌↔◌, refl, sym, ap, ◌∙◌, subst, some, Bool, true, false, ◌||◌, List, [], ◌∷◌, arith,
  is_some, if◌then◌else◌, ite, if_pos, if_neg, dec_str, some_of,
}
use ts_commons.Base.JsMap.{JsMap, get, has, set, get-set}
use ts_commons.Schemas.Registry.{
  Schema, SchemaField, full, fields_map, backward_check, forward_check, check_compatibility,
}

-- The schema has a field of the name.
abbrev pub has_field : String → Schema → Bool
has_field k s = some_of (λ f. ite (dec_str f.name k) true false) s.fields

-- Each field of the one is a field of the other.
abbrev pub KeepsFields : Schema → Schema → Type 0
KeepsFields a b = (k : String) → has_field k a ≡ true → has_field k b ≡ true

or_true : (b : Bool) → (b || true) ≡ true
or_true true = refl
or_true false = refl

has-fields_map :
    (k : String) (fs : List SchemaField) (m : JsMap SchemaField)
    → has k (fields_map fs m) ≡ some_of (λ f. ite (dec_str f.name k) true false) fs || has k m
unfolding fields_map
has-fields_map k [] m = refl
has-fields_map k (f ∷ fs) m =
    has-fields_map k fs (set f.name f m)
    ∙ ap (λ o. some_of (λ g. ite (dec_str g.name k) true false) fs || is_some o)
        (get-set f.name k f m)
    ∙ elim (dec_str f.name k) [
      | yes p ↦ rw (if_pos _ p, if_pos _ p) (or_true _)
      | no p ↦ rw (if_neg _ p, if_neg _ p) refl
    ]

backward_tail :
    (j : String) (w : SchemaField) (was is : JsMap SchemaField)
    → backward_check ((j, w) ∷ was) is ≡ true
    → backward_check was is ≡ true
unfolding backward_check
backward_tail j w was is h = ground (arith, h)

forward_tail :
    (j : String) (w : SchemaField) (was is : JsMap SchemaField)
    → forward_check ((j, w) ∷ was) is ≡ true
    → forward_check was is ≡ true
unfolding forward_check
forward_tail j w was is h = ground (arith, h)

-- A field is required or it is optional, so that one of the two checks finds it.
checks_head :
    (j : String) (w : SchemaField) (was is : JsMap SchemaField)
    → backward_check ((j, w) ∷ was) is ≡ true
    → forward_check ((j, w) ∷ was) is ≡ true
    → has j is ≡ true
unfolding backward_check forward_check
checks_head j w was is b f = ground (arith, b, f)

checks_has :
    (k : String) (was is : JsMap SchemaField)
    → backward_check was is ≡ true
    → forward_check was is ≡ true
    → has k was ≡ true
    → has k is ≡ true
unfolding get
checks_has k [] is b f h = cc h
checks_has k ((j, w) ∷ was) is b f h = elim (dec_str j k) [
  | yes p ↦ subst (λ i. has i is ≡ true) p (checks_head j w was is b f)
  | no p ↦
      checks_has k was is (backward_tail j w was is b) (forward_tail j w was is f)
        (sym (ap is_some (if_neg (dec_str j k) p (some w) (get k was))) ∙ h)
]

has_later :
    (k j : String) (w : SchemaField) (was : JsMap SchemaField)
    → has k was ≡ true
    → has k ((j, w) ∷ was) ≡ true
unfolding get
has_later k j w was h = elim (dec_str j k) [
  | yes p ↦ rw (if_pos _ p) refl
  | no p ↦ rw (if_neg _ p) h
]

has_head : (j : String) (w : SchemaField) (was : JsMap SchemaField) → has j ((j, w) ∷ was) ≡ true
unfolding get
has_head j w was = ap is_some (if_pos (dec_str j j) refl _ _)

checks_step :
    (j : String) (w : SchemaField) (was is : JsMap SchemaField)
    → has j is ≡ true
    → backward_check was is ≡ true
    → forward_check was is ≡ true
    → (backward_check ((j, w) ∷ was) is ≡ true) × (forward_check ((j, w) ∷ was) is ≡ true)
unfolding backward_check forward_check
checks_step j w was is h b f = (ground (arith, h, b), ground (arith, h, f))

checks_nil : (is : JsMap SchemaField) → (backward_check [] is ≡ true) × (forward_check [] is ≡ true)
unfolding backward_check forward_check
checks_nil is = (refl, refl)

or_false : (b : Bool) → (b || false) ≡ b
or_false true = refl
or_false false = refl

has_checks :
    (was is : JsMap SchemaField)
    → ((k : String) → has k was ≡ true → has k is ≡ true)
    → (backward_check was is ≡ true) × (forward_check was is ≡ true)
has_checks [] is h = checks_nil is
has_checks ((j, w) ∷ was) is h =
    let (b, f) = has_checks was is (λ k e. h k (has_later k j w was e)) in
    checks_step j w was is (h j (has_head j w was)) b f

has_field-map : (k : String) (s : Schema) → has k (fields_map s.fields []) ≡ has_field k s
unfolding get
has_field-map k s = has-fields_map k s.fields [] ∙ or_false _

both_true : {b c : Bool} → (if b then c else false) ≡ true → (b ≡ true) × (c ≡ true)
both_true h = (ground (arith, h), ground (arith, h))

-- A schema is fully compatible with an earlier one if and only if it keeps each of its fields.
pub full-KeepsFields : (a b : Schema) → (check_compatibility a b full ≡ true) ↔ KeepsFields a b
unfolding check_compatibility
full-KeepsFields a b = (
  λ h k e.
      let (back, forth) = both_true h in
      sym (has_field-map k b) ∙ checks_has k _ _ back forth (has_field-map k a ∙ e),
  λ h.
      let (back, forth) =
        has_checks (fields_map a.fields []) (fields_map b.fields [])
          (λ k e. has_field-map k b ∙ h k (sym (has_field-map k a) ∙ e)) in
      rw back forth,
)
