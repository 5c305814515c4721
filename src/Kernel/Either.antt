-- ===== src/Kernel/Either.antt =====
-- packages/kernel/src/primitives/Either.ts: one of two values.
use ts_commons.Base.{Bool, true, false, not}
use ts_commons.Kernel.Result.{Returned, value, thrown}

pub data Either {ℓ κ} (L : Type ℓ) (R : Type κ) : Type (ℓ ⊔ κ) where
  left : L → Either L R
  right : R → Either L R

module _ {ℓ κ} {L : Type ℓ} {R : Type κ} where
  unfoldable pub is_right : Either L R → Bool
  is_right (left l) = false
  is_right (right r) = true

  unfoldable pub is_left : Either L R → Bool
  unfolding is_right
  is_left e = not (is_right e)

  unfoldable pub get_left : Either L R → Returned L
  get_left (left l) = value l
  get_left (right r) = thrown "Called getLeft on Right"

  unfoldable pub get_right : Either L R → Returned R
  get_right (left l) = thrown "Called getRight on Left"
  get_right (right r) = value r

module _ {ℓ κ η} {L : Type ℓ} {R : Type κ} {T : Type η} where
  unfoldable pub map : (R → T) → Either L R → Either L T
  map f (left l) = left l
  map f (right r) = right (f r)

  unfoldable pub map_left : (L → T) → Either L R → Either T R
  map_left f (left l) = left (f l)
  map_left f (right r) = right r

  unfoldable pub flat_map : (R → Either L T) → Either L R → Either L T
  flat_map f (left l) = left l
  flat_map f (right r) = f r

  unfoldable pub match : (L → T) → (R → T) → Either L R → T
  match f g (left l) = f l
  match f g (right r) = g r
