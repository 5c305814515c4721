-- ===== src/PubSub/TopicRouter/Matching.antt =====
-- The matcher against the language of patterns.
use ts_commons.Base.{
  String, ◌≡◌, ◌↔◌, refl, sym, ap, subst, inl, inr, Bool, true, List, [], ◌∷◌, ◌++◌, arith, dec_str,
  Bool-cases,
}
use ts_commons.PubSub.TopicRouter.{some_rest, match_parts, split_dots, matches}

-- What a pattern means: `#` stands for any parts, `*` for one, and any part for itself.
pub data Matches : List String → List String → Type 0 where
  done : Matches [] []
  hash :
      {ps ts : List String} {seg : String} (skipped rest : List String)
      → seg ≡ "#"
      → ts ≡ skipped ++ rest
      → Matches ps rest
      → Matches (seg ∷ ps) ts
  star :
      {ps ts : List String} {seg t : String}
      → seg ≡ "*"
      → Matches ps ts
      → Matches (seg ∷ ps) (t ∷ ts)
  same :
      {ps ts : List String} {seg t : String} → seg ≡ t → Matches ps ts → Matches (seg ∷ ps) (t ∷ ts)

-- The loop finds a rest exactly when there is one.
some_rest_sound :
    (f : List String → Bool) (ts : List String)
    → some_rest f ts ≡ true
    → (skipped : List String) × (rest : List String) × (ts ≡ skipped ++ rest) × (f rest ≡ true)
unfolding some_rest
some_rest_sound f [] h = ([], [], refl, h)
some_rest_sound f (t ∷ ts) h = elim (Bool-cases (f (t ∷ ts))) [
  | inl e ↦ ([], t ∷ ts, refl, e)
  | inr e ↦
      let (skipped, rest, p, q) = some_rest_sound f ts (ground arith) in
      (t ∷ skipped, rest, ap (◌∷◌ t) p, q)
]

some_rest_complete :
    (f : List String → Bool) (skipped rest : List String)
    → f rest ≡ true
    → some_rest f (skipped ++ rest) ≡ true
unfolding some_rest
some_rest_complete f [] [] h = h
some_rest_complete f [] (t ∷ rest) h = rw h
some_rest_complete f (t ∷ skipped) rest h = ground (arith, some_rest_complete f skipped rest h)

hash-Matches :
    (seg : String) (ps ts : List String)
    → ((rest : List String) → match_parts ps rest ≡ true → Matches ps rest)
    → seg ≡ "#"
    → some_rest (match_parts ps) ts ≡ true
    → Matches (seg ∷ ps) ts
hash-Matches seg ps ts sound e h =
    let (skipped, rest, p, q) = some_rest_sound (match_parts ps) ts h in
    hash skipped rest e p (sound rest q)

match_parts_sound : (ps ts : List String) → match_parts ps ts ≡ true → Matches ps ts
unfolding match_parts
match_parts_sound [] [] h = done
match_parts_sound [] (t ∷ ts) h = cc
match_parts_sound (seg ∷ ps) [] h = elim (dec_str seg "#") [
  | yes e ↦ hash-Matches seg ps [] (match_parts_sound ps) e (ground arith)
  | no n ↦ absurd (ground arith)
]
match_parts_sound (seg ∷ ps) (t ∷ ts) h = elim (dec_str seg "#") [
  | yes e ↦ hash-Matches seg ps (t ∷ ts) (match_parts_sound ps) e (ground arith)
  | no n ↦ elim (dec_str seg "*") [
    | yes e ↦ star e (match_parts_sound ps ts (ground arith))
    | no n' ↦ elim (dec_str seg t) [
      | yes e ↦ same e (match_parts_sound ps ts (ground arith))
      | no n'' ↦ absurd (ground arith)
    ]
  ]
]

hash_complete :
    (seg : String) (ps ts : List String)
    → seg ≡ "#"
    → some_rest (match_parts ps) ts ≡ true
    → match_parts (seg ∷ ps) ts ≡ true
unfolding match_parts
hash_complete seg ps [] e h = ground arith
hash_complete seg ps (t ∷ ts) e h = ground arith

match_parts_complete : {ps ts : List String} → Matches ps ts → match_parts ps ts ≡ true
unfolding match_parts
match_parts_complete done = refl
match_parts_complete (hash {ps = ps} {ts = ts} {seg = seg} skipped rest e p m) =
    hash_complete seg ps ts e (
      subst (λ l. some_rest (match_parts ps) l ≡ true) (sym p)
        (some_rest_complete (match_parts ps) skipped rest (match_parts_complete m)))
match_parts_complete (star {ps = ps} {ts = ts} {seg = seg} {t = t} e m) =
    ground (arith, match_parts_complete m, some_rest_complete (match_parts ps) (t ∷ []) ts)
match_parts_complete (same {ps = ps} {ts = ts} {seg = seg} {t = t} e m) =
    ground (arith, match_parts_complete m, some_rest_complete (match_parts ps) (t ∷ []) ts)

-- A topic is matched exactly when its dot-separated parts are in the language of the pattern's: `#`
-- for any number of parts, none included, `*` for exactly one, and any other part for itself.
pub matches_iff :
    (pattern topic : String)
    → (matches pattern topic ≡ true) ↔ Matches (split_dots pattern) (split_dots topic)
unfolding matches
matches_iff pattern topic = (match_parts_sound _ _, match_parts_complete)
