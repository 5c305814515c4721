-- ===== src/Resilience/CircuitBreaker.antt =====
-- packages/resilience/src/circuitbreaker/CircuitBreaker.ts. The clock is an argument of each call.
-- Calls of `execute` may overlap, so a history is a list of the moments at which the breaker's
-- state is read or written: a call begins, a call's function fulfils, a call's function rejects.
pub mod History
use ts_commons.Base.{
  ℕ, ◌+◌, ◌-◌, Option, none, some, Bool, true, false, List, [], ◌∷◌, if◌then◌else◌, ltb, leb,
  or_else,
}

pub data CircuitBreakerState : Type 0 where
  closed open_ half_open : CircuitBreakerState

pub record CircuitBreaker : Type 0 where
  pub failure_threshold : ℕ
  pub reset_timeout_ms : ℕ
  pub state : CircuitBreakerState
  pub failures : ℕ
  pub last_failure_time : Option ℕ

unfoldable pub new : ℕ → ℕ → CircuitBreaker
new failure_threshold reset_timeout_ms = record {
  failure_threshold = failure_threshold;
  reset_timeout_ms = reset_timeout_ms;
  state = closed;
  failures = 0;
  last_failure_time = none;
}

-- `Date.now() - (this.lastFailureTime ?? 0) > this.resetTimeoutMs`. A clock that has gone back
-- gives a negative difference, which is never above the timeout; here the difference is 0.
abbrev pub has_elapsed : CircuitBreaker → ℕ → Bool
has_elapsed b now = ltb b.reset_timeout_ms (now - or_else b.last_failure_time 0)

-- `execute` before its `try`: the breaker then, and whether the function is called; if not, the
-- call throws `CircuitBreakerOpenError`.
unfoldable pub admit : CircuitBreaker → ℕ → CircuitBreaker × Bool
admit b now = elim b.state [
  | open_ ↦ if has_elapsed b now then (record b { state = half_open }, true) else (b, false)
  | closed ↦ (b, true)
  | half_open ↦ (b, true)
]

unfoldable pub on_success : CircuitBreaker → CircuitBreaker
on_success b = record b { failures = 0; state = closed }

unfoldable pub on_failure : CircuitBreaker → ℕ → CircuitBreaker
on_failure b now =
    let failures = b.failures + 1 in
    record b {
      failures = failures;
      last_failure_time = some now;
      state = if leb b.failure_threshold failures then open_ else b.state;
    }

-- An event has the time at which it happens.
pub data Event : Type 0 where
  begins fulfils rejects : ℕ → Event

unfoldable pub step : CircuitBreaker → Event → CircuitBreaker
unfolding admit on_success on_failure
step b (begins now) = (admit b now).0
step b (fulfils now) = on_success b
step b (rejects now) = on_failure b now

unfoldable pub run : CircuitBreaker → List Event → CircuitBreaker
unfolding step
run b [] = b
run b (e ∷ es) = run (step b e) es

-- A call of `execute` that nothing overlaps: it begins, and its function, if it is called, fulfils
-- or rejects at a later time.
pub data Answer : Type 0 where
  refused fulfilled rejected : Answer

unfoldable pub execute : CircuitBreaker → ℕ → Bool → ℕ → CircuitBreaker × Answer
unfolding admit on_success on_failure
execute b now succeeds later =
    let (b', admitted) = admit b now in
    if admitted
    then (if succeeds then (on_success b', fulfilled) else (on_failure b' later, rejected))
    else (b', refused)
