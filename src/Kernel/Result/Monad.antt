-- ===== src/Kernel/Result/Monad.antt =====
-- The loop of `all` against them, and `matchGuard`.
use ts_commons.Base.{◌≡◌, refl, true, false, List, [], ◌∷◌, ◌++◌, ◌⊎◌, inl, inr, Bool-cases, All}
use ts_commons.Kernel.Result.{Result, ok, err, Guard, first_guard, match_guard}

abbrev pub Declines {ℓ κ} : {T : Type ℓ} {U : Type κ} → T → Guard T U → Type 0
Declines v g = g.when v ≡ false

-- The guard that decides, with those before it, or none.
abbrev pub Decides {ℓ κ} : {T : Type ℓ} {U : Type κ} → List (Guard T U) → T → U → U → Type (ℓ ⊔ κ)
Decides {T} {U} gs v otherwise u =
    ((before : List (Guard T U)) × (g : Guard T U) × (after : List (Guard T U)) × (gs
        ≡ before ++ g ∷ after)
      × All (Declines v) before
      × (g.when v ≡ true)
      × (u ≡ g.produce v))
    ⊎ (All (Declines v) gs × (u ≡ otherwise))

first_guard-Decides {ℓ κ} :
    {T : Type ℓ} {U : Type κ} (gs : List (Guard T U)) (v : T) (otherwise : U)
    → Decides gs v otherwise (first_guard gs v otherwise)
unfolding first_guard
first_guard-Decides [] v otherwise = inr (tt, refl)
first_guard-Decides (g ∷ gs) v otherwise = elim (Bool-cases (g.when v)) [
  | inl yes_g ↦ inl ([], g, gs, refl, tt, yes_g, rw yes_g)
  | inr no_g ↦ elim (first_guard-Decides gs v otherwise) [
    | inl (before, g', after, p, q, r, s) ↦
        inl (g ∷ before, g', after, rw p, (no_g, q), r, rw no_g s)
    | inr (q, s) ↦ inr ((no_g, q), rw no_g s)
  ]
]

-- `matchGuard` on `Ok` returns what the first guard whose `when` holds produces from the value, and
-- the fallback's result when none holds; on `Err` it returns the fallback's result.
pub match_guard-Decides {ℓ κ η} :
    {T : Type ℓ} {E : Type κ} {U : Type η} (gs : List (Guard T U)) (fallback : Result T E → U)
    → ((v : T) → Decides gs v (fallback (ok v)) (match_guard gs fallback (ok v)))
      × ((e : E) → match_guard gs fallback (err e) ≡ fallback (err e))
unfolding match_guard
match_guard-Decides gs fallback = (λ v. first_guard-Decides gs v (fallback (ok v)), λ e. refl)
