-- ===== src/Scheduler/InMemory/Statistics.antt =====
-- The scheduler's statistics against what has happened.
use ts_commons.Base.{
  ℕ, suc, ◌+◌, ◌==◌, String, ◌≡◌, refl, sym, subst, Option, none, some, Bool, true, false, List, [],
  ◌∷◌, arith, length, length-append, if◌then◌else◌,
}
use ts_commons.Base.Int.{pos, negsuc, ◌+ℤ◌, ◌-ℤ◌}
use ts_commons.Kernel.Result.{Result, ok, err}
use ts_commons.Scheduler.Registry.{JobRegistration, JobError}
use ts_commons.Scheduler.InMemory.{
  InMemoryScheduler, Execution, World, Event, registers, unregisters, triggers, completes, clears,
  Outcome, fulfils, rejects, StatsInternal, no_stats, increment_active, decrement_active,
  start_execution, trigger, finalize, register, unregister, pick, step, run, initial,
}

-- `clear` is not called.
abbrev pub IsKept : List Event → Type 0
IsKept [] = Unit {0}
IsKept (clears ∷ es) = ⊥
IsKept (e ∷ es) = IsKept es

-- The statistics of a scheduler with `n` executions in flight.
pub record Adds (s : StatsInternal) (n : ℕ) : Type 0 where
  pub active : s.active ≡ pos n
  pub total : s.total ≡ s.succeeded + s.failed + n

increment_active-Adds : (s : StatsInternal) (n : ℕ) → Adds s n → Adds (increment_active s) (n + 1)
unfolding increment_active ◌+ℤ◌
increment_active-Adds s n a = record {
  active = ground (arith, a.active);
  total = omega (arith, a.total);
}

decrement_active-Adds :
    (s : StatsInternal) (o : Outcome) (n : ℕ) → Adds s (suc n) → Adds (decrement_active s o) n
unfolding decrement_active ◌-ℤ◌
decrement_active-Adds s fulfils n a = record {
  active = ground (arith, a.active);
  total = omega (arith, a.total);
}
decrement_active-Adds s (rejects e) n a = record {
  active = ground (arith, a.active);
  total = omega (arith, a.total);
}

-- The rest of a list of length `n` from which an execution is picked.
abbrev Shortens : ℕ → Option (Execution × List Execution) → Type 0
Shortens n none = Unit {0}
Shortens n (some (x, rest)) = n ≡ suc (length rest)

pick-Shortens : (id : ℕ) (xs : List Execution) → Shortens (length xs) (pick id xs)
unfolding pick
pick-Shortens id [] = tt
pick-Shortens id (x ∷ xs) = by_head (x.base.execution_id == id) (pick id xs) (pick-Shortens id xs)
  where
    by_head :
        (c : Bool) (later : Option (Execution × List Execution))
        → Shortens (length xs) later
        → Shortens (suc (length xs)) (
            if c
            then some (x, xs)
            else elim later [ none ↦ none | some (y, ys) ↦ some (y, x ∷ ys) ])
    by_head true later h = refl
    by_head false none h = tt
    by_head false (some (y, ys)) h = omega (arith, h)

-- The statistics add up, and count the executions in flight.
abbrev IsCounted : World → Type 0
IsCounted w = Adds w.scheduler.stats (length w.in_flight)

-- A method that returns leaves the statistics, or counts one execution more.
abbrev SameStats : InMemoryScheduler → Result InMemoryScheduler JobError → Type 0
SameStats s (err e) = Unit {0}
SameStats s (ok s') = s'.stats ≡ s.stats

abbrev Triggered : InMemoryScheduler → Result (InMemoryScheduler × Execution) JobError → Type 0
Triggered s (err e) = Unit {0}
Triggered s (ok (s', x)) = s'.stats ≡ increment_active s.stats

trigger_stats :
    (s : InMemoryScheduler) (job_id : String) (now : ℕ)
    (r : Result (InMemoryScheduler × Execution) JobError)
    → trigger s job_id now ≡ r
    → Triggered s r
unfolding trigger start_execution
trigger_stats s job_id now (err e) h = tt
trigger_stats s job_id now (ok (s', x)) h = ground (arith, h)

register_stats :
    (s : InMemoryScheduler) (reg : JobRegistration) (r : Result InMemoryScheduler JobError)
    → register s reg ≡ r
    → SameStats s r
unfolding register
register_stats s reg (err e) h = tt
register_stats s reg (ok s') h = ground (arith, h)

unregister_stats :
    (s : InMemoryScheduler) (job_id : String) (r : Result InMemoryScheduler JobError)
    → unregister s job_id ≡ r
    → SameStats s r
unfolding unregister
unregister_stats s job_id (err e) h = tt
unregister_stats s job_id (ok s') h = ground (arith, h)

step-IsCounted : (w : World) (e : Event) → IsKept (e ∷ []) → IsCounted w → IsCounted (step w e)
unfolding step
step-IsCounted w (registers reg) k c = by_result (register w.scheduler reg) refl
  where
    by_result :
        (r : Result InMemoryScheduler JobError)
        → register w.scheduler reg ≡ r
        → IsCounted (step w (registers reg))
    by_result (err e) h = rw (h, step) c
    by_result (ok s) h =
        rw (h, step)
          (subst (λ t. Adds t (length w.in_flight)) (sym (register_stats w.scheduler reg (ok s) h))
            c)
step-IsCounted w (unregisters job_id) k c = by_result (unregister w.scheduler job_id) refl
  where
    by_result :
        (r : Result InMemoryScheduler JobError)
        → unregister w.scheduler job_id ≡ r
        → IsCounted (step w (unregisters job_id))
    by_result (err e) h = rw (h, step) c
    by_result (ok s) h =
        rw (h, step)
          (subst (λ t. Adds t (length w.in_flight))
            (sym (unregister_stats w.scheduler job_id (ok s) h)) c)
step-IsCounted w (triggers job_id now) k c = by_result (trigger w.scheduler job_id now) refl
  where
    by_result :
        (r : Result (InMemoryScheduler × Execution) JobError)
        → trigger w.scheduler job_id now ≡ r
        → IsCounted (step w (triggers job_id now))
    by_result (err e) h = rw (h, step) c
    by_result (ok (s, x)) h =
        rw
          (
            h,
            step,
            trigger_stats w.scheduler job_id now (ok (s, x)) h,
            length-append w.in_flight (x ∷ []),
          )
          (increment_active-Adds w.scheduler.stats (length w.in_flight) c)
step-IsCounted w (completes id outcome now) k c = by_pick (pick id w.in_flight) refl
  where
    by_pick :
        (o : Option (Execution × List Execution))
        → pick id w.in_flight ≡ o
        → IsCounted (step w (completes id outcome now))
    by_pick none h = rw (h, step) c
    by_pick (some (x, rest)) h =
        let n : length w.in_flight ≡ suc (length rest) =
          subst (Shortens (length w.in_flight)) h (pick-Shortens id w.in_flight) in
        rw (h, step, finalize)
          (decrement_active-Adds w.scheduler.stats outcome (length rest)
            (subst (Adds w.scheduler.stats) n c))
step-IsCounted w clears k c = absurd k

run-IsCounted : (w : World) (es : List Event) → IsKept es → IsCounted w → IsCounted (run w es)
unfolding run
run-IsCounted w [] k c = c
run-IsCounted w (e ∷ es) k c =
    run-IsCounted (step w e) es (kept_later e es k) (step-IsCounted w e (kept_first e es k) c)
  where
    kept_later : (e : Event) (es : List Event) → IsKept (e ∷ es) → IsKept es
    kept_later (registers reg) es k = k
    kept_later (unregisters id) es k = k
    kept_later (triggers id now) es k = k
    kept_later (completes id o now) es k = k
    kept_later clears es k = absurd k

    kept_first : (e : Event) (es : List Event) → IsKept (e ∷ es) → IsKept (e ∷ [])
    kept_first (registers reg) es k = tt
    kept_first (unregisters id) es k = tt
    kept_first (triggers id now) es k = tt
    kept_first (completes id o now) es k = tt
    kept_first clears es k = k

-- As long as `clear` is not called, in any order of registrations, triggers and completions, the
-- number of active executions in the statistics is the number of executions in flight, and the
-- total is the sum of those that succeeded, those that failed and those in flight.
pub run-initial-Adds :
    (es : List Event)
    → IsKept es
    → Adds (run initial es).scheduler.stats (length (run initial es).in_flight)
run-initial-Adds es k = run-IsCounted initial es k (record { active = refl; total = omega arith })

-- `clear` sets the statistics to zero and forgets no execution in flight: the next one that
-- completes makes the number of active executions -1.
pub clear_in_flight :
    (w : World) (id now : ℕ) (outcome : Outcome) (x : Execution) (rest : List Execution)
    → pick id w.in_flight ≡ some (x, rest)
    → (run w (clears ∷ completes id outcome now ∷ [])).scheduler.stats.active ≡ negsuc 0
unfolding run step finalize decrement_active ◌-ℤ◌
clear_in_flight w id now outcome x rest h = rw (h, step, finalize) (minus_one outcome)
  where
    minus_one : (o : Outcome) → (decrement_active no_stats o).active ≡ negsuc 0
    minus_one fulfils = refl
    minus_one (rejects e) = refl
