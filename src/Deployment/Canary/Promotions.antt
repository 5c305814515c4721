-- ===== src/Deployment/Canary/Promotions.antt =====
-- That promotions whose metrics pass bring a release to its end.
use ts_commons.Base.{
  ℕ, zero, suc, ◌+◌, ◌*◌, ◌≤◌, min, ◌≡◌, refl, sym, ap, ◌∙◌, subst, true, List, [], ◌∷◌, arith, leb,
  ◌==◌, if◌then◌else◌, All, All-map, Bool-cases, inl, inr, length,
}
use ts_commons.Deployment.Canary.{
  CanaryPhase, initializing, progressing, paused, succeeded, failed, rolled_back, CanaryMetrics,
  CanaryRelease, phase_code, set_phase, meets_thresholds, promote,
}
use native.Mathlib.Nat.{suc-mul}
use ts_commons.Deployment.Canary.Progress.{raise_weight, promote_passed}

-- Promotions, one after another, each with its time and its metrics.
unfoldable pub promotions : CanaryRelease → List (ℕ × CanaryMetrics × CanaryMetrics) → CanaryRelease
promotions r [] = r
promotions r ((now, stable, canary) ∷ ms) = promotions (promote r now stable canary) ms

-- The metrics of a reading pass the thresholds of the release.
abbrev pub Passes : CanaryRelease → ℕ × CanaryMetrics × CanaryMetrics → Type 0
Passes r (now, stable, canary) = meets_thresholds r canary stable ≡ true

of_code : ℕ → CanaryPhase
of_code zero = initializing
of_code (suc zero) = progressing
of_code (suc (suc zero)) = paused
of_code (suc (suc (suc zero))) = succeeded
of_code (suc (suc (suc (suc zero)))) = failed
of_code (suc (suc (suc (suc (suc n))))) = rolled_back

of_code-phase_code : (p : CanaryPhase) → of_code (phase_code p) ≡ p
unfolding of_code
of_code-phase_code initializing = refl
of_code-phase_code progressing = refl
of_code-phase_code paused = refl
of_code-phase_code succeeded = refl
of_code-phase_code failed = refl
of_code-phase_code rolled_back = refl

same_phase : (p q : CanaryPhase) → (phase_code p == phase_code q) ≡ true → p ≡ q
same_phase p q e =
    let codes : phase_code p ≡ phase_code q = ground (arith, e) in
    sym (of_code-phase_code p) ∙ ap of_code codes ∙ of_code-phase_code q

-- What a promotion that passes makes of the release.
record Rises (r r' : CanaryRelease) : Type 0 where
  weight : r'.canary_weight ≡ min 100 (r.canary_weight + r.step_size)
  same_step : r'.step_size ≡ r.step_size
  thresholds :
      (canary stable : CanaryMetrics)
      → meets_thresholds r' canary stable ≡ meets_thresholds r canary stable

set_phase-Rises :
    (p : CanaryPhase) (r : CanaryRelease) (now : ℕ) → Rises r (set_phase p (raise_weight r now))
unfolding set_phase meets_thresholds
set_phase-Rises p r now = elim (Bool-cases (phase_code r.phase == phase_code p)) [
  | inl e ↦ rw e (record { weight = refl; same_step = refl; thresholds = λ c s. refl })
  | inr e ↦ rw e (record { weight = refl; same_step = refl; thresholds = λ c s. refl })
]

phase-set_phase : (p : CanaryPhase) (r : CanaryRelease) → (set_phase p r).phase ≡ p
unfolding set_phase
phase-set_phase p r = elim (Bool-cases (phase_code r.phase == phase_code p)) [
  | inl e ↦ rw (e, set_phase) (same_phase r.phase p e)
  | inr e ↦ rw (e, set_phase) refl
]

promote-Rises :
    (r : CanaryRelease) (now : ℕ) (stable canary : CanaryMetrics)
    → meets_thresholds r canary stable ≡ true
    → Rises r (promote r now stable canary)
promote-Rises r now stable canary e =
    subst (Rises r) (sym (promote_passed r now stable canary e)) (set_phase-Rises _ r now)

promote-succeeds :
    (r : CanaryRelease) (now : ℕ) (stable canary : CanaryMetrics)
    → meets_thresholds r canary stable ≡ true
    → 100 ≤ r.canary_weight + r.step_size
    → (promote r now stable canary).phase ≡ succeeded
promote-succeeds r now stable canary e le =
    let full : leb 100 (min 100 (r.canary_weight + r.step_size)) ≡ true = ground (arith, le) in
    ap (λ q. q.phase) (promote_passed r now stable canary e)
    ∙ phase-set_phase _ (raise_weight r now)
    ∙ ap (λ b. if b then succeeded else progressing) full

Passes-later :
    (r r' : CanaryRelease) (ms : List (ℕ × CanaryMetrics × CanaryMetrics))
    → Rises r r'
    → All (Passes r) ms
    → All (Passes r') ms
Passes-later r r' ms h =
    All-map (Passes r) ms (λ (now, stable, canary) e. h.thresholds canary stable ∙ e)

-- The weight that so many steps make of a weight, held at 100.
abbrev pub raised : ℕ → ℕ → ℕ → ℕ
raised w step zero = w
raised w step (suc n) = raised (min 100 (w + step)) step n

raised_full : (step n : ℕ) → raised 100 step n ≡ 100
raised_full step zero = refl
raised_full step (suc n) = ap (λ w. raised w step n) (omega arith) ∙ raised_full step n

promotions-raised :
    (r : CanaryRelease) (ms : List (ℕ × CanaryMetrics × CanaryMetrics))
    → All (Passes r) ms
    → (promotions r ms).canary_weight ≡ raised r.canary_weight r.step_size (length ms)
unfolding promotions
promotions-raised r [] h = refl
promotions-raised r ((now, stable, canary) ∷ ms) h =
    let p : Rises r (promote r now stable canary) = promote-Rises r now stable canary h.0 in
    promotions-raised (promote r now stable canary) ms
      (Passes-later r (promote r now stable canary) ms p h.1)
    ∙ ap (λ w. raised w (promote r now stable canary).step_size (length ms)) p.weight
    ∙ ap (λ s. raised (min 100 (r.canary_weight + r.step_size)) s (length ms)) p.same_step

swap_sum : (w m s : ℕ) → w + (m + s) ≡ w + s + m
swap_sum w m s = omega arith

raised_reaches : (w step n : ℕ) → w ≤ 100 → 100 ≤ w + n * step → raised w step n ≡ 100
raised_reaches w step zero le e = omega arith
raised_reaches w step (suc n) le e = elim (Bool-cases (leb 100 (w + step))) [
  | inl l ↦
      let full : min 100 (w + step) ≡ 100 = ground (arith, l) in
      ap (λ v. raised v step n) full ∙ raised_full step n
  | inr l ↦
      let same : min 100 (w + step) ≡ w + step = ground (arith, l) in
      let under : w + step ≤ 100 = ground (arith, l) in
      ap (λ v. raised v step n) same
      ∙ raised_reaches (w + step) step n under
          (subst (λ k. 100 ≤ k) (ap (λ k. w + k) (suc-mul n step) ∙ swap_sum w (n * step) step) e)
]

room_left : (w step n : ℕ) → 100 ≤ w + suc n * step → 100 ≤ min 100 (w + step) + n * step
room_left w step n e =
    let split : 100 ≤ w + (n * step + step) = subst (λ k. 100 ≤ w + k) (suc-mul n step) e in
    ground (arith, split)

promote-room :
    (r r' : CanaryRelease) (n : ℕ)
    → Rises r r'
    → 100 ≤ r.canary_weight + suc n * r.step_size
    → 100 ≤ r'.canary_weight + n * r'.step_size
promote-room r r' n p e =
    subst (λ w. 100 ≤ w + n * r'.step_size) (sym p.weight)
      (subst (λ s. 100 ≤ min 100 (r.canary_weight + r.step_size) + n * s) (sym p.same_step)
        (room_left r.canary_weight r.step_size n e))

promotions-succeeded :
    (r : CanaryRelease) (now : ℕ) (stable canary : CanaryMetrics)
    (ms : List (ℕ × CanaryMetrics × CanaryMetrics))
    → All (Passes r) ((now, stable, canary) ∷ ms)
    → 100 ≤ r.canary_weight + suc (length ms) * r.step_size
    → (promotions r ((now, stable, canary) ∷ ms)).phase ≡ succeeded
unfolding promotions
promotions-succeeded r now stable canary [] h e =
    let enough : 100 ≤ r.canary_weight + r.step_size = omega (arith, e) in
    promote-succeeds r now stable canary h.0 enough
promotions-succeeded r now stable canary ((now', stable', canary') ∷ ms) h e =
    let p : Rises r (promote r now stable canary) = promote-Rises r now stable canary h.0 in
    promotions-succeeded (promote r now stable canary) now' stable' canary' ms
      (Passes-later r (promote r now stable canary) ((now', stable', canary') ∷ ms) p h.1)
      (promote-room r (promote r now stable canary) (suc (length ms)) p e)

-- A release that has not more than 100 percent of the traffic, whatever its phase, and that is
-- promoted once or more with metrics that pass its thresholds each time, gets all the traffic and
-- has succeeded in the end, if the steps add up to what is missing.
pub promotions_complete :
    (r : CanaryRelease) (now : ℕ) (stable canary : CanaryMetrics)
    (ms : List (ℕ × CanaryMetrics × CanaryMetrics))
    → All (Passes r) ((now, stable, canary) ∷ ms)
    → r.canary_weight ≤ 100
    → 100 ≤ r.canary_weight + suc (length ms) * r.step_size
    → let r' = promotions r ((now, stable, canary) ∷ ms) in
      (r'.canary_weight ≡ 100) × (r'.phase ≡ succeeded)
promotions_complete r now stable canary ms h le e = (
  promotions-raised r ((now, stable, canary) ∷ ms) h
      ∙ raised_reaches r.canary_weight r.step_size (suc (length ms)) le e,
  promotions-succeeded r now stable canary ms h e,
)
