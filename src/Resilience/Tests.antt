-- ===== src/Resilience/Tests.antt =====
-- Runs of the resilience policies, and their theorems at concrete inputs.
use ts_commons.Base.{
  min, ltb, ◌/◌, ℕ, zero, suc, ◌*◌, ◌≤◌, ◌<◌, ◌≡◌, ◌≢◌, refl, ◌↔◌, none, some, List, [], ◌∷◌, arith,
  ℕ_discrete, ◌-◌, String,
}
use ts_commons.Base.Int
use ts_commons.Base.Int.{pos_part}
use ts_commons.Kernel.Result.{Result, ok, err}
use ts_commons.Resilience.Bulkhead
use ts_commons.Resilience.Bulkhead.{calls, settles}
use ts_commons.Resilience.Bulkhead.Invariant
use ts_commons.Resilience.CircuitBreaker
use ts_commons.Resilience.CircuitBreaker.{begins, fulfils, rejects}
use ts_commons.Resilience.CircuitBreaker.History
use ts_commons.Resilience.RateLimiter
use ts_commons.Resilience.RateLimiter.{Request}
use ts_commons.Resilience.RateLimiter.Budget
use ts_commons.Resilience.Retry
use ts_commons.Resilience.Retry.{RetryPolicy}
use ts_commons.Resilience.Retry.Attempts
use ts_commons.Resilience.Retry.Backoff
use ts_commons.Resilience.Hedge
use ts_commons.Resilience.Hedge.Settlement
use ts_commons.Resilience.Health.{Completion, healthy}

-- Two slots and one place in the queue: the fourth call is rejected, the third starts when the
-- first settles.
abbrev crowd : List Bulkhead.Event
crowd = calls 1 ∷ calls 2 ∷ calls 3 ∷ calls 4 ∷ settles 1 ∷ []

crowd_starts : (Bulkhead.run (Bulkhead.initial 2 1) crowd).started ≡ 1 ∷ 2 ∷ 3 ∷ []
unfolding Bulkhead.run Bulkhead.initial ℕ_discrete
crowd_starts = refl

run-initial-Inv_example : Invariant.Inv 2 1 (Bulkhead.run (Bulkhead.initial 2 1) crowd)
run-initial-Inv_example = Invariant.run-initial-Inv 2 1 crowd

-- The second of two rejections in a row opens a breaker of threshold 2.
abbrev outage : List CircuitBreaker.Event
outage = begins 1 ∷ fulfils 2 ∷ begins 3 ∷ rejects 4 ∷ begins 5 ∷ rejects 6 ∷ []

outage_opens : (CircuitBreaker.run (CircuitBreaker.new 2 100) outage).state ≡ CircuitBreaker.open_
unfolding CircuitBreaker.run CircuitBreaker.new
outage_opens = refl

run-closed_iff_example :
    ((CircuitBreaker.run (CircuitBreaker.new 2 100) outage).failures
      ≡ History.failures_since 0 outage)
    × (((CircuitBreaker.run (CircuitBreaker.new 2 100) outage).state ≡ CircuitBreaker.closed)
        ↔ (History.failures_since 0 outage < 2))
run-closed_iff_example = History.run-closed_iff 2 100 outage (omega arith)

abbrev tripped : CircuitBreaker.CircuitBreaker
tripped = record (CircuitBreaker.new 2 100) {
  state = CircuitBreaker.open_;
  failures = 2;
  last_failure_time = some 50;
}

-- Ten tokens, two a second.
abbrev burst : List Request
burst =
    record { at = 5; needed = 8 }
    ∷ record { at = 6; needed = 5 }
    ∷ record { at = 2005; needed = 5 }
    ∷ []

burst-granted : Budget.granted (RateLimiter.new 10 2 5) burst ≡ 13
unfolding RateLimiter.run RateLimiter.new Int.◌+ℤ◌ Int.◌-ℤ◌ Int.scale Int.min_ℤ
burst-granted = refl

granted-le_example :
    (Budget.granted (RateLimiter.new 10 2 5) burst * 1000 ≤ 14000)
    × Budget.Inv (RateLimiter.run (RateLimiter.new 10 2 5) burst)
granted-le_example = Budget.granted-le 10 2 5 burst (omega arith)

abbrev policy : RetryPolicy ℕ
policy = record {
  max_attempts = 3;
  delay_ms = 50;
  backoff_multiplier = some 2;
  max_delay_ms = some 80;
}

abbrev flaky : ℕ → Result String String
flaky zero = err "zero"
flaky (suc n) = err "down"

execute-Ends_example :
    (0 < 3 → Attempts.Ends Retry.whole flaky policy 1 (Retry.execute Retry.whole flaky policy))
    × (◌≡◌ {A = ℕ} 3 0
        → Retry.execute Retry.whole flaky policy
          ≡ record { outcome = err Retry.retry_failed; calls = 0; sleeps = [] })
execute-Ends_example = Attempts.execute-Ends Retry.whole flaky policy

execute-sleeps_example :
    (0 < 3
      → (0 < (Retry.execute Retry.whole flaky policy).calls)
        × ((Retry.execute Retry.whole flaky policy).sleeps
            ≡ Backoff.delays_from policy 0 ((Retry.execute Retry.whole flaky policy).calls - 1)))
    × (◌≡◌ {A = ℕ} 3 0 → (Retry.execute Retry.whole flaky policy).sleeps ≡ [])
execute-sleeps_example = Backoff.execute-sleeps flaky policy

flaky_sleeps : (Retry.execute Retry.whole flaky policy).sleeps ≡ 50 ∷ 80 ∷ []
unfolding Retry.execute
flaky_sleeps = refl

-- Multipliers in tenths: with a half and a cap of 60, the third sleep is half of the cap.
abbrev tenths : Retry.NumberOps ℕ
tenths = record { times = λ x y. x * y / 10; lesser = λ x y. min x y; is_positive = λ x. ltb 0 x }

abbrev halving : RetryPolicy ℕ
halving = record {
  max_attempts = 4;
  delay_ms = 200;
  backoff_multiplier = some 5;
  max_delay_ms = some 60;
}

halving_sleeps : (Retry.execute tenths flaky halving).sleeps ≡ 200 ∷ 60 ∷ 30 ∷ []
unfolding Retry.execute
halving_sleeps = refl

-- Two copies: the first rejects, the timer fires, the second fulfils.
abbrev race : List (Hedge.Event ℕ String)
race = Hedge.rejects "slow" ∷ Hedge.fires ∷ Hedge.fulfils 7 ∷ []

race-CanHappen : Hedge.CanHappen (Hedge.start 2) race
unfolding Hedge.start Hedge.step
race-CanHappen = omega arith

run-settled_example :
    ((Hedge.run (Hedge.start 2) race).settled ≡ some (ok 7))
    × ((Hedge.run (Hedge.start 2) race).in_flight ≡ 0
        → (Hedge.run (Hedge.start 2) race).timers_set ≡ 0
        → (Hedge.run (Hedge.start 2) race).settled ≢ none)
run-settled_example = Settlement.run-settled 2 race (omega arith) race-CanHappen

abbrev database : Completion
database = record { name = "db"; outcome = none }

abbrev cache : Completion
cache = record { name = "cache"; outcome = some healthy }
