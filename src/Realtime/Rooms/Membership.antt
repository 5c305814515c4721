-- ===== src/Realtime/Rooms/Membership.antt =====
-- The manager against a plain relation between connections and rooms.
use mathlib.Core.Option.{some-injective}
use ts_commons.Base.{
  String, ◌≡◌, ◌≢◌, refl, sym, ap, ◌∙◌, Option, none, some, Bool, true, false, [], ◌∷◌, or_else,
  ite, if_pos, if_neg, inl, inr, dec_str, Option-cases,
}
use ts_commons.Base.JsMap.{JsMap, get, set, delete, get-set, get-delete}
use ts_commons.Base.JsSet.{JsSet, contains, add, remove, contains-add, contains-remove}
use ts_commons.Realtime.Rooms.{add_to_set, remove_from_set}

-- The set under a key, which is empty where there is none.
abbrev pub members : JsMap JsSet → String → JsSet
members m k = or_else (get k m) []

-- Whether a relation between keys and values holds after a pair is added to it or taken out of it.
abbrev pub Relation : Type 0
Relation = String → String → Bool

abbrev pub with_pair : String → String → Relation → Relation
with_pair k x R j y = ite (dec_str k j) (ite (dec_str x y) true (R j y)) (R j y)

abbrev pub without_pair : String → String → Relation → Relation
without_pair k x R j y = ite (dec_str k j) (ite (dec_str x y) false (R j y)) (R j y)

abbrev pub holds : JsMap JsSet → Relation
holds m k x = contains x (members m k)

-- No set that is kept is empty.
abbrev pub NonEmpty : JsMap JsSet → Type 0
NonEmpty m = (k : String) → get k m ≢ some []

members-add_to_set :
    (m : JsMap JsSet) (k x j : String)
    → members (add_to_set m k x) j ≡ ite (dec_str k j) (add x (members m j)) (members m j)
unfolding add_to_set
members-add_to_set m k x j =
    ap (λ o. or_else o []) (get-set k j (add x (members m k)) m) ∙ elim (dec_str k j) [
      | yes p ↦ rw (if_pos _ p, if_pos _ p) (ap (λ i. add x (members m i)) p)
      | no p ↦ rw (if_neg _ p, if_neg _ p) refl
    ]

-- A set that is kept only if it is not empty.
abbrev kept : JsSet → Option JsSet
kept [] = none
kept (z ∷ zs) = some (z ∷ zs)

keep_set : JsMap JsSet → String → JsSet → JsMap JsSet
keep_set m k t = elim t [ [] ↦ delete k m | z ∷ zs ↦ set k (z ∷ zs) m ]

get-keep_set :
    (m : JsMap JsSet) (k j : String) (t : JsSet)
    → get j (keep_set m k t) ≡ ite (dec_str k j) (kept t) (get j m)
unfolding keep_set
get-keep_set m k j [] = get-delete k j m
get-keep_set m k j (z ∷ zs) = get-set k j (z ∷ zs) m

get_none-ite :
    (m : JsMap JsSet) (k j : String) → get k m ≡ none → get j m ≡ ite (dec_str k j) none (get j m)
get_none-ite m k j e = elim (dec_str k j) [
  | yes p ↦ rw (if_pos _ p) (ap (λ i. get i m) (sym p) ∙ e)
  | no p ↦ rw (if_neg _ p) refl
]

get-remove_from_set :
    (m : JsMap JsSet) (k x j : String)
    → get j (remove_from_set m k x) ≡ ite (dec_str k j) (kept (remove x (members m k))) (get j m)
unfolding remove_from_set keep_set remove
get-remove_from_set m k x j = elim (Option-cases (get k m)) [
  | inl e ↦ rw (e, remove_from_set) (get_none-ite m k j e)
  | inr (s, e) ↦ rw (e, remove_from_set) (get-keep_set m k j (remove x s))
]

or_else-kept : (t : JsSet) → or_else (kept t) [] ≡ t
or_else-kept [] = refl
or_else-kept (z ∷ zs) = refl

members-remove_from_set :
    (m : JsMap JsSet) (k x j : String)
    → members (remove_from_set m k x) j ≡ ite (dec_str k j) (remove x (members m j)) (members m j)
members-remove_from_set m k x j =
    ap (λ o. or_else o []) (get-remove_from_set m k x j) ∙ elim (dec_str k j) [
      | yes p ↦
          rw (if_pos _ p, if_pos _ p)
            (or_else-kept (remove x (members m k)) ∙ ap (λ i. remove x (members m i)) p)
      | no p ↦ rw (if_neg _ p, if_neg _ p) refl
    ]

-- Both as operations on the relation.
pub add_to_set-holds :
    (m : JsMap JsSet) (k x j y : String)
    → holds (add_to_set m k x) j y ≡ with_pair k x (holds m) j y
add_to_set-holds m k x j y = ap (contains y) (members-add_to_set m k x j) ∙ elim (dec_str k j) [
  | yes p ↦ rw (if_pos _ p, if_pos _ p) (contains-add x y (members m j))
  | no p ↦ rw (if_neg _ p, if_neg _ p) refl
]

pub remove_from_set-holds :
    (m : JsMap JsSet) (k x j y : String)
    → holds (remove_from_set m k x) j y ≡ without_pair k x (holds m) j y
remove_from_set-holds m k x j y =
    ap (contains y) (members-remove_from_set m k x j) ∙ elim (dec_str k j) [
      | yes p ↦ rw (if_pos _ p, if_pos _ p) (contains-remove x y (members m j))
      | no p ↦ rw (if_neg _ p, if_neg _ p) refl
    ]

kept-ne : (t : JsSet) → kept t ≢ some []
kept-ne [] e = cc e
kept-ne (z ∷ zs) e = cc e

add-ne : (x : String) (s : JsSet) → add x s ≢ []
unfolding contains
add-ne x s e = elim (dec_str x x) [
  | yes p ↦
      let found : contains x (add x s) ≡ true = contains-add x x s ∙ rw (if_pos _ p) refl in
      cc (sym (ap (contains x) e) ∙ found)
  | no p ↦ absurd (p refl)
]

ite-ne :
    (k j : String) (o p : Option JsSet)
    → o ≢ some []
    → p ≢ some []
    → ite (dec_str k j) o p ≢ some []
ite-ne k j o p h l = elim (dec_str k j) [ yes q ↦ rw (if_pos _ q) h | no q ↦ rw (if_neg _ q) l ]

pub add_to_set-NonEmpty :
    (m : JsMap JsSet) (k x : String) → NonEmpty m → NonEmpty (add_to_set m k x)
unfolding add_to_set
add_to_set-NonEmpty m k x h j = rw (get-set k j (add x (members m k)) m) (
    ite-ne k j (some (add x (members m k))) (get j m)
      (λ e. add-ne x (members m k) (some-injective _ _ e)) (h j))

pub remove_from_set-NonEmpty :
    (m : JsMap JsSet) (k x : String) → NonEmpty m → NonEmpty (remove_from_set m k x)
remove_from_set-NonEmpty m k x h j =
    rw (get-remove_from_set m k x j) (
      ite-ne k j (kept (remove x (members m k))) (get j m) (kept-ne (remove x (members m k))) (h j))
