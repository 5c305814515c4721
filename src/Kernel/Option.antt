-- ===== src/Kernel/Option.antt =====
-- packages/kernel/src/primitives/Option.ts: `Option`, with the methods that the library's own
-- lacks, and its conversions from and to a value that may be `null` or `undefined`.
use ts_commons.Base.{Bool, true, false, not, if◌then◌else◌}
use ts_commons.Kernel.Result.{Returned, value, thrown}

-- The class has a flag and a field that is set when the flag is.
pub data Option {ℓ} (T : Type ℓ) : Type ℓ where
  some : T → Option T
  none : Option T

-- `T | null | undefined`, for a type `T` that has neither.
pub data Nullable {ℓ} (T : Type ℓ) : Type ℓ where
  null undefined : Nullable T
  present : T → Nullable T

module _ {ℓ} {T : Type ℓ} where
  unfoldable pub from_nullable : Nullable T → Option T
  from_nullable null = none
  from_nullable undefined = none
  from_nullable (present v) = some v

  unfoldable pub to_nullable : Option T → Nullable T
  to_nullable (some v) = present v
  to_nullable none = null

  unfoldable pub is_some : Option T → Bool
  is_some (some v) = true
  is_some none = false

  unfoldable pub is_none : Option T → Bool
  unfolding is_some
  is_none o = not (is_some o)

  unfoldable pub unwrap : Option T → Returned T
  unwrap (some v) = value v
  unwrap none = thrown "Called unwrap on None"

  unfoldable pub unwrap_or : Option T → T → T
  unwrap_or (some v) d = v
  unwrap_or none d = d

  unfoldable pub filter : (T → Bool) → Option T → Option T
  filter p (some v) = if p v then some v else none
  filter p none = none

module _ {ℓ κ} {T : Type ℓ} {U : Type κ} where
  unfoldable pub map : (T → U) → Option T → Option U
  map f (some v) = some (f v)
  map f none = none

  unfoldable pub flat_map : (T → Option U) → Option T → Option U
  flat_map f (some v) = f v
  flat_map f none = none

  unfoldable pub match : (T → U) → U → Option T → U
  match f d (some v) = f v
  match f d none = d
