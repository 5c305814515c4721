-- ===== src/Streams/Operators/Pipeline.antt =====
-- The operators one behind the other, against the functions on lists.
use ts_commons.Base.{
  ℕ, zero, suc, ◌+◌, ◌≡◌, refl, ap, ◌∙◌, Bool, true, false, List, [], ◌∷◌, ◌++◌, map, arith, ltb,
  leb, keep, take, drop, Bool-cases, inl, inr,
}
use ts_commons.Streams.EventStream.{Signal, next, complete}
use ts_commons.Streams.Operators.{Operator, pushed, told, map_signals, filter, take_first, skip}

-- All that happens at once has one time.
abbrev pub at : {A : Type 0} → ℕ → List (Signal A) → List (ℕ × Signal A)
at t = map (λ x. (t, x))

-- Some values and the end.
abbrev pub completing : {A : Type 0} → List A → List (Signal A)
completing vs = map next vs ++ complete ∷ []

-- What the stream of an operator tells, for what its source tells.
abbrev pub through : {S A B : Type 0} → Operator S A B → S → ℕ → List (Signal A) → List (Signal B)
through on s t xs = told (pushed on s (at t xs))

map-through :
    {A B : Type 0} (f : A → B) (t : ℕ) (vs : List A)
    → through (map_signals f) tt t (completing vs) ≡ completing (map f vs)
unfolding told pushed map_signals
map-through f t [] = refl
map-through f t (v ∷ vs) = ap (λ xs. next (f v) ∷ xs) (map-through f t vs)

filter-through :
    {A : Type 0} (p : A → Bool) (t : ℕ) (vs : List A)
    → through (filter p) tt t (completing vs) ≡ completing (keep p vs)
unfolding told pushed filter
filter-through p t [] = refl
filter-through p t (v ∷ vs) = elim (Bool-cases (p v)) [
  | inl e ↦ rw e (ap (λ xs. next v ∷ xs) (filter-through p t vs))
  | inr e ↦ rw e (filter-through p t vs)
]

skip-through :
    {A : Type 0} (n count skipped : ℕ) (t : ℕ) (vs : List A)
    → count ≡ skipped + n
    → through (skip count) skipped t (completing vs) ≡ completing (drop n vs)
unfolding told pushed skip
skip-through zero count skipped t [] e = refl
skip-through zero count skipped t (v ∷ vs) e =
    let over : ltb skipped count ≡ false = ground (arith, e) in
    rw over (ap (λ xs. next v ∷ xs) (skip-through zero count skipped t vs e))
skip-through (suc n) count skipped t [] e = refl
skip-through (suc n) count skipped t (v ∷ vs) e =
    let under : ltb skipped count ≡ true = ground (arith, e) in
    rw under (skip-through n count (skipped + 1) t vs (omega (arith, e)))

take-through :
    {A : Type 0} (n count seen : ℕ) (t : ℕ) (vs : List A)
    → count ≡ seen + n
    → through (take_first count) (seen, true) t (completing vs) ≡ completing (take n vs)
unfolding told pushed take_first
take-through zero count seen t [] e = refl
take-through zero count seen t (v ∷ vs) e =
    let over : ltb seen count ≡ false = ground (arith, e) in
    rw over (take-through zero count seen t vs e)
take-through (suc n) count seen t [] e = refl
take-through (suc zero) count seen t (v ∷ vs) e =
    let under : ltb seen count ≡ true = ground (arith, e) in
    let last : leb count (seen + 1) ≡ true = ground (arith, e) in rw (under, last) refl
take-through (suc (suc n)) count seen t (v ∷ vs) e =
    let under : ltb seen count ≡ true = ground (arith, e) in
    let more : leb count (seen + 1) ≡ false = ground (arith, e) in
    rw (under, more)
      (ap (λ xs. next v ∷ xs) (take-through (suc n) count (seen + 1) t vs (omega (arith, e))))

-- `source.filter(p).map(f).skip(m).take(n)`, for a source that emits some values and completes, emits
-- what those functions make of the list of the values, and completes.
pub pipeline_lists :
    {A B : Type 0} (p : A → Bool) (f : A → B) (m n t : ℕ) (vs : List A)
    → through
        (take_first n)
        (0, true)
        t
        (through
          (skip m)
          0
          t
          (through (map_signals f) tt t (through (filter p) tt t (completing vs))))
      ≡ completing (take n (drop m (map f (keep p vs))))
pipeline_lists p f m n t vs =
    ap
      (λ xs.
        through (take_first n) (0, true) t (through (skip m) 0 t (through (map_signals f) tt t xs)))
      (filter-through p t vs)
    ∙ ap (λ xs. through (take_first n) (0, true) t (through (skip m) 0 t xs))
        (map-through f t (keep p vs))
    ∙ ap (through (take_first n) (0, true) t)
        (skip-through m m 0 t (map f (keep p vs)) (omega arith))
    ∙ take-through n n 0 t (drop m (map f (keep p vs))) (omega arith)
