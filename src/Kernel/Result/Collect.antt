-- ===== src/Kernel/Result/Collect.antt =====
-- The static methods of `Result` over a list: `all`, `any`, `partition`, `traverse`.
use ts_commons.Base.{
  ◌≡◌, refl, ◌⊎◌, inl, inr, List, [], ◌∷◌, ◌++◌, map, append-nil, append_assoc, arith, length, ◌+◌,
}
use ts_commons.Kernel.Result.{
  Result, ok, err, value, thrown, all_from, all, any_from, any, partition_from, partition,
}

-- `all` as one test of `partition`'s two lists.
abbrev pub from_parts {ℓ κ} : {T : Type ℓ} {E : Type κ} → List T → List E → Result (List T) E
from_parts oks [] = ok oks
from_parts oks (e ∷ es) = err e

module _ {ℓ κ} {T : Type ℓ} {E : Type κ} where
  -- The results are all `Ok`, or there is a first `Err`.
  abbrev pub Collects : List (Result T E) → Result (List T) E → Type (ℓ ⊔ κ)
  Collects rs r =
      ((vs : List T) × (rs ≡ map ok vs) × (r ≡ ok vs))
      ⊎ ((vs : List T) × (e : E) × (rest : List (Result T E)) × (rs ≡ map ok vs ++ err e ∷ rest)
          × (r ≡ err e))

  all_from-Collects :
      (acc : List T) (rs : List (Result T E))
      → ((vs : List T) × (rs ≡ map ok vs) × (all_from acc rs ≡ ok (acc ++ vs)))
        ⊎ ((vs : List T) × (e : E) × (rest : List (Result T E)) × (rs ≡ map ok vs ++ err e ∷ rest)
            × (all_from acc rs ≡ err e))
  unfolding all_from
  all_from-Collects acc [] = inl ([], refl, rw append-nil)
  all_from-Collects acc (err e ∷ rs) = inr ([], e, rs, refl, refl)
  all_from-Collects acc (ok v ∷ rs) = elim (all_from-Collects (acc ++ v ∷ []) rs) [
    | inl (vs, p, q) ↦ inl (v ∷ vs, rw p, rw (q, append_assoc))
    | inr (vs, e, rest, p, q) ↦ inr (v ∷ vs, e, rest, rw p, q)
  ]

  -- `Result.all` returns the values of all the results, in order, when each one is `Ok`; otherwise
  -- it returns the error of the first `Err`, with only `Ok` results before it.
  pub all-Collects : (rs : List (Result T E)) → Collects rs (all rs)
  unfolding all
  all-Collects rs = all_from-Collects [] rs

  -- The first `Ok` of the list, or its last `Err` if there is none.
  abbrev pub Picks : List (Result T E) → Result T E → Type (ℓ ⊔ κ)
  Picks rs r =
      ((es : List E) × (v : T) × (rest : List (Result T E)) × (rs ≡ map err es ++ ok v ∷ rest)
        × (r ≡ ok v))
      ⊎ ((es : List E) × (e : E) × (rs ≡ map err (es ++ e ∷ [])) × (r ≡ err e))

  any_from-Picks : (e : E) (rs : List (Result T E)) → Picks (err e ∷ rs) (any_from (err e) rs)
  unfolding any_from
  any_from-Picks e [] = inr ([], e, refl, refl)
  any_from-Picks e (ok v ∷ rs) = inl (e ∷ [], v, rs, refl, refl)
  any_from-Picks e (err e' ∷ rs) = elim (any_from-Picks e' rs) [
    | inl (es, v, rest, p, q) ↦ inl (e ∷ es, v, rest, rw p, q)
    | inr (es, e'', p, q) ↦ inr (e ∷ es, e'', rw p, q)
  ]

  any_cases : (r : Result T E) (rs : List (Result T E)) → Picks (r ∷ rs) (any_from r (r ∷ rs))
  unfolding any_from
  any_cases (ok v) rs = inl ([], v, rs, refl, refl)
  any_cases (err e) rs = any_from-Picks e rs

  -- On a list that is not empty `Result.any` returns the first `Ok`, with only `Err` results before
  -- it, or, when every result is `Err`, the last one; on the empty list it throws.
  pub any-Picks :
      (rs : List (Result T E))
      → ((rs ≡ []) × (any rs ≡ thrown "Result.any called with an empty array"))
        ⊎ ((r : Result T E) × (any rs ≡ value r) × Picks rs r)
  unfolding any
  any-Picks [] = inl (refl, refl)
  any-Picks (r ∷ rs) = inr (any_from r (r ∷ rs), refl, any_cases r rs)

  -- The values and the errors of a list, each in its order.
  abbrev pub oks_of : List (Result T E) → List T
  oks_of [] = []
  oks_of (ok v ∷ rs) = v ∷ oks_of rs
  oks_of (err e ∷ rs) = oks_of rs

  abbrev pub errs_of : List (Result T E) → List E
  errs_of [] = []
  errs_of (ok v ∷ rs) = errs_of rs
  errs_of (err e ∷ rs) = e ∷ errs_of rs

  partition_from_lem :
      (vs : List T) (es : List E) (rs : List (Result T E))
      → partition_from (record { oks = vs; errs = es }) rs
        ≡ record { oks = vs ++ oks_of rs; errs = es ++ errs_of rs }
  unfolding partition_from
  partition_from_lem vs es [] = rw (append-nil, append-nil)
  partition_from_lem vs es (ok v ∷ rs) = rw (partition_from_lem (vs ++ v ∷ []) es rs, append_assoc)
  partition_from_lem vs es (err e ∷ rs) = rw (partition_from_lem vs (es ++ e ∷ []) rs, append_assoc)

  partition-parts :
      (rs : List (Result T E)) → partition rs ≡ record { oks = oks_of rs; errs = errs_of rs }
  unfolding partition
  partition-parts rs = partition_from_lem [] [] rs

  all_from-parts :
      (acc : List T) (rs : List (Result T E))
      → all_from acc rs ≡ from_parts (acc ++ oks_of rs) (errs_of rs)
  unfolding all_from
  all_from-parts acc [] = rw append-nil
  all_from-parts acc (err e ∷ rs) = refl
  all_from-parts acc (ok v ∷ rs) = rw (all_from-parts (acc ++ v ∷ []) rs, append_assoc)

  length-parts : (rs : List (Result T E)) → length (oks_of rs) + length (errs_of rs) ≡ length rs
  length-parts [] = omega arith
  length-parts (ok v ∷ rs) = omega (arith, length-parts rs)
  length-parts (err e ∷ rs) = omega (arith, length-parts rs)

  -- `Result.partition` puts the values and the errors in two lists, each in the order of the
  -- input, and loses none; `Result.all` is `Ok` of the first list when the second is empty, and
  -- otherwise `Err` of the second's first element.
  pub all-partition :
      (rs : List (Result T E))
      → (partition rs ≡ record { oks = oks_of rs; errs = errs_of rs })
        × (length (partition rs).oks + length (partition rs).errs ≡ length rs)
        × (all rs ≡ from_parts (partition rs).oks (partition rs).errs)
  unfolding all
  all-partition rs = (
    partition-parts rs,
    rw (partition-parts rs) (length-parts rs),
    rw (partition-parts rs) (all_from-parts [] rs),
  )
