-- ===== src/Resilience/Retry.antt =====
-- packages/resilience/src/retries/Retry.ts. The function's outcome is given for each attempt, and
-- what the loop does is recorded: how often it called the function and how long it slept between.
-- The numbers that delays are counted in are a parameter with their operations, since a multiplier
-- can be any number: a fraction as well as a whole one.
pub mod Attempts
pub mod Backoff
use ts_commons.Base.{
  ℕ, zero, suc, ◌+◌, ◌*◌, min, Option, none, some, Bool, true, false, List, [], ◌∷◌, ◌++◌, ◌&&◌,
  if◌then◌else◌, ltb,
}
use ts_commons.Kernel.Result.{Result, ok, err}

-- What the loop uses of numbers: `x * y`, `Math.min(x, y)` and `x > 0`.
pub record NumberOps (N : Type 0) : Type 0 where
  pub times : N → N → N
  pub lesser : N → N → N
  pub is_positive : N → Bool

-- The whole numbers, as long as they are exact.
abbrev pub whole : NumberOps ℕ
whole = record { times = λ x y. x * y; lesser = λ x y. min x y; is_positive = λ x. ltb 0 x }

pub record RetryPolicy (N : Type 0) : Type 0 where
  pub max_attempts : ℕ
  pub delay_ms : N
  pub backoff_multiplier : Option N
  pub max_delay_ms : Option N

-- What `execute` throws: `lastError`, or its own error where there was no attempt.
pub data Thrown {ℓ} (E : Type ℓ) : Type ℓ where
  last_error : E → Thrown E
  retry_failed : Thrown E

pub record Trace {ℓ κ} (N : Type 0) (T : Type ℓ) (E : Type κ) : Type (ℓ ⊔ κ) where
  pub outcome : Result T (Thrown E)
  pub calls : ℕ
  pub sleeps : List N

-- The error that the loop's end throws, `lastError ?? new Error('Retry failed')`.
abbrev pub final_error {ℓ} : {E : Type ℓ} → Option E → Thrown E
final_error none = retry_failed
final_error (some e) = last_error e

module _ {N : Type 0} (num : NumberOps N) where
  -- `Math.min(d, policy.maxDelayMs ?? Infinity)`
  unfoldable pub cap_delay : Option N → N → N
  cap_delay none d = d
  cap_delay (some m) d = num.lesser d m

  -- The `delay` after a sleep, under the policy's multiplier and its cap.
  unfoldable pub next_delay : Option N → Option N → N → N
  unfolding cap_delay
  next_delay none max_delay delay = delay
  next_delay (some m) max_delay delay =
      if num.is_positive m then cap_delay max_delay (num.times delay m) else delay

module _ {ℓ κ} {N : Type 0} (num : NumberOps N) {T : Type ℓ} {E : Type κ} (fn : ℕ → Result T E)
    (p : RetryPolicy N) where
  -- The `for` loop with `left` attempts to go, from the attempt `attempt`.
  unfoldable pub loop : ℕ → ℕ → N → Option E → List N → Trace N T E
  unfolding next_delay
  loop zero attempt delay last sleeps = record {
    outcome = err (final_error last);
    calls = 0;
    sleeps = sleeps;
  }
  loop (suc left) attempt delay last sleeps = elim (fn attempt) [
    | ok v ↦ record { outcome = ok v; calls = 1; sleeps = sleeps }
    | err e ↦
        let retried =
          loop left (suc attempt) (next_delay num p.backoff_multiplier p.max_delay_ms delay)
            (some e) (sleeps ++ delay ∷ []) in
        let ended = loop left (suc attempt) delay (some e) sleeps in
        let t : Trace N T E =
          if ltb 0 attempt && ltb attempt p.max_attempts then retried else ended in
        record t { calls = suc t.calls }
  ]

  unfoldable pub execute : Trace N T E
  unfolding loop
  execute = loop p.max_attempts 1 p.delay_ms none []
