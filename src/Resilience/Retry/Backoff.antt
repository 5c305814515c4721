-- ===== src/Resilience/Retry/Backoff.antt =====
-- The delays between the attempts, in closed form, where the policy has whole numbers.
use ts_commons.Base.{
  ℕ, zero, suc, ◌+◌, ◌-◌, ◌*◌, ◌^◌, ◌<◌, ◌≡◌, refl, ap, ◌∙◌, sym, subst, append-nil, append_assoc,
  min, Option, none, some, List, [], ◌∷◌, ◌++◌, arith, dec_le, if◌then◌else◌, ltb,
}
use native.Mathlib.Nat.{pow-suc, pow-zero, mul_assoc}
use ts_commons.Kernel.Result.{Result, ok, err}
use ts_commons.Resilience.Retry.Attempts.{loop-ok, loop_retry, loop_last}
use ts_commons.Resilience.Retry.{RetryPolicy, Trace, whole, cap_delay, next_delay, loop, execute}

-- The delay before retry `k`, counted from 0, in closed form.
abbrev pub delay_at : ℕ → Option ℕ → Option ℕ → ℕ → ℕ
delay_at delay m max_delay zero = delay
delay_at delay none max_delay (suc k) = delay
delay_at delay (some m) max_delay (suc k) =
    if ltb 0 m
    then elim max_delay [ none ↦ delay * m ^ suc k | some c ↦ min (delay * m ^ suc k) c ]
    else delay

min_scaled : (a m c : ℕ) → min (min a c * suc m) c ≡ min (a * suc m) c
min_scaled a m c = elim (dec_le a c) [
  | yes h ↦ let e : min a c ≡ a = omega arith in rw e
  | no h ↦ let e : min a c ≡ c = omega arith in rw e (grind arith)
]

scaled_pow : (d m k : ℕ) → d * m ^ k * m ≡ d * m ^ suc k
scaled_pow d m k = rw (pow-suc, mul_assoc)

first_pow : (d m : ℕ) → d * m ≡ d * m ^ 1
first_pow d m = omega (arith, ap (λ t. t * m) (ap (λ t. d * t) (pow-zero m)), scaled_pow d m 0)

next_delay-delay_at :
    (d : ℕ) (m c : Option ℕ) (k : ℕ)
    → next_delay whole m c (delay_at d m c k) ≡ delay_at d m c (suc k)
unfolding next_delay cap_delay
next_delay-delay_at d none c zero = refl
next_delay-delay_at d none c (suc k) = refl
next_delay-delay_at d (some zero) c zero = ground arith
next_delay-delay_at d (some zero) c (suc k) = ground arith
next_delay-delay_at d (some (suc m)) none zero = ground (arith, first_pow d (suc m))
next_delay-delay_at d (some (suc m)) (some c) zero = ground (arith, first_pow d (suc m))
next_delay-delay_at d (some (suc m)) none (suc k) = ground (arith, scaled_pow d (suc m) (suc k))
next_delay-delay_at d (some (suc m)) (some c) (suc k) =
    ground (arith, scaled_pow d (suc m) (suc k), min_scaled (d * suc m ^ suc k) m c)

abbrev pub delays_from : RetryPolicy ℕ → ℕ → ℕ → List ℕ
delays_from p k zero = []
delays_from p k (suc n) =
    delay_at p.delay_ms p.backoff_multiplier p.max_delay_ms k ∷ delays_from p (suc k) n

module _ {T E : Type 0} (fn : ℕ → Result T E) (p : RetryPolicy ℕ) where
  abbrev delay_now : ℕ → ℕ
  delay_now k = delay_at p.delay_ms p.backoff_multiplier p.max_delay_ms k

  abbrev Sleeps : ℕ → List ℕ → Trace ℕ T E → Type 0
  Sleeps k slept t = (n : ℕ) × (t.calls ≡ suc n) × (t.sleeps ≡ slept ++ delays_from p k n)

  loop-Sleeps :
      (left k : ℕ) (last : Option E) (slept : List ℕ)
      → suc k + left ≡ p.max_attempts
      → (r : Result T E) → fn (suc k) ≡ r
      → Sleeps k slept (loop whole fn p (suc left) (suc k) (delay_now k) last slept)
  loop-Sleeps left k last slept sum (ok v) h =
      rw (loop-ok whole fn p left (suc k) (delay_now k) last slept v h) (0, refl, rw append-nil)
  loop-Sleeps zero k last slept sum (err e) h =
      rw (loop_last whole fn p (suc k) (delay_now k) last slept e h (omega arith))
        (0, refl, rw append-nil)
  loop-Sleeps (suc left) k last slept sum (err e) h =
      let slept' = slept ++ delay_now k ∷ [] in
      let (n, a, b) =
        loop-Sleeps left (suc k) (some e) slept' (omega arith) (fn (suc (suc k))) refl in
      rw
        (
          loop_retry whole fn p (suc left) (suc k) (delay_now k) last slept e h (omega arith)
              (omega arith),
          next_delay-delay_at p.delay_ms p.backoff_multiplier p.max_delay_ms k,
        )
        (suc n, ap suc a, b ∙ append_assoc slept (delay_now k ∷ []) (delays_from p (suc k) n))

  Sleeps-calls :
      (t : Trace ℕ T E) → Sleeps 0 [] t → (0 < t.calls) × (t.sleeps ≡ delays_from p 0 (t.calls - 1))
  Sleeps-calls t (n, a, b) =
      let e : n ≡ t.calls - 1 = omega arith in (omega arith, b ∙ ap (delays_from p 0) e)

  no_sleeps : p.max_attempts ≡ 0 → (execute whole fn p).sleeps ≡ []
  unfolding execute loop
  no_sleeps h = subst (λ m. (loop whole fn p m 1 p.delay_ms none []).sleeps ≡ []) (sym h) refl

  -- Where delay, multiplier and maximum are whole numbers (with a multiplier between 0 and 1 it can
  -- be otherwise): between two calls `execute` sleeps once, and not after the last call. The first
  -- sleep is the policy's delay; the later ones are that delay too without a positive multiplier,
  -- and with one retry `k`, counted from 0, waits `delayMs * multiplier ^ k`, or `maxDelayMs` where
  -- that is less.
  pub execute-sleeps :
      (0 < p.max_attempts
        → (0 < (execute whole fn p).calls)
          × ((execute whole fn p).sleeps ≡ delays_from p 0 ((execute whole fn p).calls - 1)))
      × (p.max_attempts ≡ 0 → (execute whole fn p).sleeps ≡ [])
  unfolding execute
  execute-sleeps = (λ h. some_attempts (p.max_attempts - 1) (omega arith), no_sleeps)
    where
      some_attempts :
          (left : ℕ)
          → p.max_attempts ≡ suc left
          → (0 < (execute whole fn p).calls)
            × ((execute whole fn p).sleeps ≡ delays_from p 0 ((execute whole fn p).calls - 1))
      some_attempts left h = Sleeps-calls (execute whole fn p) (
          subst (λ m. Sleeps 0 [] (loop whole fn p m 1 p.delay_ms none [])) (sym h)
            (loop-Sleeps left 0 none [] (omega arith) (fn 1) refl))
