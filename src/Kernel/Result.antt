-- ===== src/Kernel/Result.antt =====
-- packages/kernel/src/primitives/Result.ts: success or failure as a value. A method that throws
-- returns `Thrown` here. The callbacks of the source are functions that return.
pub mod Collect
pub mod Monad
use ts_commons.Base.{String, Bool, true, false, not, List, [], ◌∷◌, ◌++◌, map, if◌then◌else◌}

pub data Result {ℓ κ} (T : Type ℓ) (E : Type κ) : Type (ℓ ⊔ κ) where
  ok : T → Result T E
  err : E → Result T E

-- What a call of a method that may throw gives: a value, or the message of its `Error`.
pub data Returned {ℓ} (A : Type ℓ) : Type ℓ where
  value : A → Returned A
  thrown : String → Returned A

-- One entry of `matchGuard`.
pub record Guard {ℓ κ} (T : Type ℓ) (U : Type κ) : Type (ℓ ⊔ κ) where
  pub when : T → Bool
  pub produce : T → U

pub record Parts {ℓ κ} (T : Type ℓ) (E : Type κ) : Type (ℓ ⊔ κ) where
  pub oks : List T
  pub errs : List E

module _ {ℓ κ} {T : Type ℓ} {E : Type κ} where
  -- The loop of `all`, with the values pushed so far.
  all_from : List T → List (Result T E) → Result (List T) E
  all_from values [] = ok values
  all_from values (err e ∷ rs) = err e
  all_from values (ok v ∷ rs) = all_from (values ++ v ∷ []) rs

  unfoldable pub all : List (Result T E) → Result (List T) E
  unfolding all_from
  all rs = all_from [] rs

  -- The loop of `any`, with the variable `last`.
  any_from : Result T E → List (Result T E) → Result T E
  any_from last [] = last
  any_from last (ok v ∷ rs) = ok v
  any_from last (err e ∷ rs) = any_from (err e) rs

  unfoldable pub any : List (Result T E) → Returned (Result T E)
  unfolding any_from
  any [] = thrown "Result.any called with an empty array"
  any (r ∷ rs) = value (any_from r (r ∷ rs))

  -- The loop of `partition`.
  partition_from : Parts T E → List (Result T E) → Parts T E
  partition_from p [] = p
  partition_from p (ok v ∷ rs) = partition_from (record p { oks = p.oks ++ v ∷ [] }) rs
  partition_from p (err e ∷ rs) = partition_from (record p { errs = p.errs ++ e ∷ [] }) rs

  unfoldable pub partition : List (Result T E) → Parts T E
  unfolding partition_from
  partition rs = partition_from (record { oks = []; errs = [] }) rs

  unfoldable pub is_ok : Result T E → Bool
  is_ok (ok v) = true
  is_ok (err e) = false

  unfoldable pub is_err : Result T E → Bool
  unfolding is_ok
  is_err r = not (is_ok r)

  unfoldable pub unwrap : Result T E → Returned T
  unwrap (ok v) = value v
  unwrap (err e) = thrown "Called unwrap on an Err value"

  unfoldable pub unwrap_err : Result T E → Returned E
  unwrap_err (ok v) = thrown "Called unwrapErr on an Ok value"
  unwrap_err (err e) = value e

  unfoldable pub unwrap_or : Result T E → T → T
  unwrap_or (ok v) d = v
  unwrap_or (err e) d = d

  unfoldable pub filter : (T → Bool) → (T → E) → Result T E → Result T E
  filter p make (err e) = err e
  filter p make (ok v) = if p v then ok v else err (make v)

  unfoldable pub or_else : (E → Result T E) → Result T E → Result T E
  or_else f (ok v) = ok v
  or_else f (err e) = f e

-- The loop of `matchGuard` over the guards left; `otherwise` is its `fallback(this)`.
unfoldable pub first_guard {ℓ κ} : {T : Type ℓ} {U : Type κ} → List (Guard T U) → T → U → U
first_guard [] v otherwise = otherwise
first_guard (g ∷ gs) v otherwise = if g.when v then g.produce v else first_guard gs v otherwise

module _ {ℓ κ η} {T : Type ℓ} {E : Type κ} {U : Type η} where
  unfoldable pub map_ok : (T → U) → Result T E → Result U E
  map_ok f (ok v) = ok (f v)
  map_ok f (err e) = err e

  unfoldable pub map_err : (E → U) → Result T E → Result T U
  map_err f (ok v) = ok v
  map_err f (err e) = err (f e)

  -- `flatMap`, and `andThen` once its promise has settled.
  unfoldable pub flat_map : (T → Result U E) → Result T E → Result U E
  flat_map f (ok v) = f v
  flat_map f (err e) = err e

  unfoldable pub match : (T → U) → (E → U) → Result T E → U
  match f g (ok v) = f v
  match f g (err e) = g e

  unfoldable pub match_guard : List (Guard T U) → (Result T E → U) → Result T E → U
  unfolding first_guard
  match_guard gs fallback (ok v) = first_guard gs v (fallback (ok v))
  match_guard gs fallback (err e) = fallback (err e)

  -- `Result.all(items.map(fn))`
  unfoldable pub traverse : List T → (T → Result U E) → Result (List U) E
  unfolding all
  traverse items f = all (map f items)
