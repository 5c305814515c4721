-- ===== src/Resilience/Fallback.antt =====
-- packages/resilience/src/fallback/Fallback.ts. A promise is what it settles to; the second
-- operation is started only where its result is read.
use ts_commons.Kernel.Result.{Result, ok, err}

module _ {ℓ κ} {T : Type ℓ} {E : Type κ} where
  unfoldable pub with_fallback : Result T E → (Unit {0} → Result T E) → Result T E
  with_fallback (ok v) fallback = ok v
  with_fallback (err e) fallback = fallback tt

  unfoldable pub with_default : Result T E → T → Result T E
  with_default (ok v) default_value = ok v
  with_default (err e) default_value = ok default_value
