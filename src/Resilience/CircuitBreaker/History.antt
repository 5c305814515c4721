-- ===== src/Resilience/CircuitBreaker/History.antt =====
-- The breaker's state as a function of the history, and how an open breaker refuses and recovers.
use ts_commons.Base.{
  ℕ, ◌+◌, ◌<◌, ◌≡◌, refl, ap, some, Bool, true, false, List, [], ◌∷◌, arith, ◌↔◌, All, map, ◌∙◌,
}
use ts_commons.Resilience.CircuitBreaker.{
  CircuitBreaker, closed, open_, Event, begins, fulfils, rejects, new, has_elapsed, step, run,
  execute, refused, fulfilled, rejected,
}

-- The rejections after the last fulfilment, the history read from its start.
abbrev pub failures_since : ℕ → List Event → ℕ
failures_since n [] = n
failures_since n (begins now ∷ es) = failures_since n es
failures_since n (fulfils now ∷ es) = failures_since 0 es
failures_since n (rejects now ∷ es) = failures_since (n + 1) es

pub record Inv (threshold timeout : ℕ) (b : CircuitBreaker) : Type 0 where
  pub threshold_kept : b.failure_threshold ≡ threshold
  pub timeout_kept : b.reset_timeout_ms ≡ timeout
  pub tripped : (b.state ≡ closed) ↔ (b.failures < threshold)

module _ (threshold timeout : ℕ) where
  step-Inv :
      (b : CircuitBreaker) (e : Event)
      → 0 < threshold
      → Inv threshold timeout b
      → Inv threshold timeout (step b e)
  unfolding step
  step-Inv b (begins now) p v = ground arith
  step-Inv b (fulfils now) p v = ground arith
  step-Inv b (rejects now) p v = ground arith

  run-Inv :
      (b : CircuitBreaker) (es : List Event)
      → 0 < threshold
      → Inv threshold timeout b
      → Inv threshold timeout (run b es)
  unfolding run
  run-Inv b [] p v = v
  run-Inv b (e ∷ es) p v = run-Inv (step b e) es p (step-Inv b e p v)

  new-Inv : 0 < threshold → Inv threshold timeout (new threshold timeout)
  unfolding new
  new-Inv p = ground arith

begins-failures : (b : CircuitBreaker) (now : ℕ) → (step b (begins now)).failures ≡ b.failures
unfolding step
begins-failures b now = ground arith

run-failures :
    (b : CircuitBreaker) (es : List Event) (n : ℕ)
    → b.failures ≡ n
    → (run b es).failures ≡ failures_since n es
unfolding run step
run-failures b [] n h = h
run-failures b (begins now ∷ es) n h =
    run-failures (step b (begins now)) es n (begins-failures b now ∙ h)
run-failures b (fulfils now ∷ es) n h = run-failures (step b (fulfils now)) es 0 refl
run-failures b (rejects now ∷ es) n h = run-failures (step b (rejects now)) es (n + 1) (rw h)

module _ (threshold timeout : ℕ) where
  abbrev pub after : List Event → CircuitBreaker
  after es = run (new threshold timeout) es

  after-Inv : (es : List Event) → 0 < threshold → Inv threshold timeout (after es)
  after-Inv es p = run-Inv threshold timeout _ es p (new-Inv threshold timeout p)

  after-failures : (es : List Event) → (after es).failures ≡ failures_since 0 es
  unfolding new
  after-failures es = run-failures (new threshold timeout) es 0 refl

  -- After any history of overlapping calls on a new breaker with a positive threshold, the failure
  -- count is the number of rejections since the last fulfilment, and the breaker is closed exactly
  -- when that number is below the threshold.
  pub run-closed_iff :
      (es : List Event)
      → 0 < threshold
      → ((run (new threshold timeout) es).failures ≡ failures_since 0 es)
        × (((run (new threshold timeout) es).state ≡ closed) ↔ (failures_since 0 es < threshold))
  run-closed_iff es p = ground (arith, after-Inv es p, after-failures es)

  -- From any breaker that a history leaves open, a call inside the reset timeout is refused and
  -- changes nothing; a call after it is tried, and then closes the breaker and clears the count if
  -- its function fulfils, and opens the breaker again at once, from the time of the rejection, if
  -- its function rejects.
  pub execute-open :
      (es : List Event) (now later : ℕ) (succeeds : Bool)
      → 0 < threshold
      → (after es).state ≡ open_
      → (has_elapsed (after es) now ≡ false
          → execute (after es) now succeeds later ≡ (after es, refused))
        × (has_elapsed (after es) now ≡ true
            → (execute (after es) now true later
                ≡ (record (after es) { state = closed; failures = 0 }, fulfilled))
              × (execute (after es) now false later ≡ (
                record (after es) {
                  failures = (after es).failures + 1;
                  last_failure_time = some later;
                },
                rejected,
              )))
  unfolding execute
  execute-open es now later succeeds p o = ground (arith, after-Inv es p)

begins_inside :
    (b : CircuitBreaker) (now : ℕ)
    → b.state ≡ open_
    → has_elapsed b now ≡ false
    → step b (begins now) ≡ b
unfolding step
begins_inside b now o h = ground arith

-- Calls that begin inside the reset timeout, however many, leave an open breaker as it is.
pub run_inside_timeout :
    (b : CircuitBreaker) (times : List ℕ)
    → b.state ≡ open_
    → All (λ now. has_elapsed b now ≡ false) times
    → run b (map begins times) ≡ b
unfolding run
run_inside_timeout b [] o h = refl
run_inside_timeout b (now ∷ times) o h =
    ap (λ c. run c (map begins times)) (begins_inside b now o h.0)
    ∙ run_inside_timeout b times o h.1
