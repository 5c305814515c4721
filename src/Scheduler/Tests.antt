-- ===== src/Scheduler/Tests.antt =====
-- Runs of the scheduler, and its theorems at concrete inputs.
use ts_commons.Base.{
  ℕ, ◌≤◌, String, ◌≡◌, ◌↔◌, refl, Option, none, some, List, [], ◌∷◌, length, or_else, dec_str, ltb,
  if◌then◌else◌,
}
use ts_commons.Base.JsMap.{get, set, delete}
use ts_commons.Kernel.Result.{err}
use ts_commons.Scheduler.Limiter
use ts_commons.Scheduler.Registry
use ts_commons.Scheduler.Registry.{JobRegistration, JobRegistry, interval}
use ts_commons.Scheduler.InMemory
use ts_commons.Scheduler.InMemory.{
  World, Event, Execution, registers, unregisters, triggers, completes, clears, fulfils, rejects,
  run, initial, trigger, limiter_of, pick, step,
}
use ts_commons.Scheduler.InMemory.Limits
use ts_commons.Scheduler.InMemory.Statistics
use ts_commons.Scheduler.InMemory.Retries

abbrev report_job : JobRegistration
report_job = record {
  job_id = "report";
  job_name = "Report";
  schedule = interval 60000 none;
  max_concurrency = none;
  max_retries = some 2;
  retry_backoff_ms = some 10;
}

abbrev jobs : JobRegistry
jobs = ("cleanup", record report_job { job_id = "cleanup" }) ∷ []

-- The second trigger is refused: the job may run once at a time.
abbrev busy : List Event
busy = registers report_job ∷ triggers "report" 5 ∷ triggers "report" 6 ∷ []

busy_in_flight : length (run initial busy).in_flight ≡ 1
unfolding run get set dec_str Registry.find Registry.register Limiter.new
busy_in_flight = refl

-- To register the job again gives it a new limiter, and it runs twice at a time.
reregistered_in_flight :
    length
      (run initial (
        registers report_job
        ∷ triggers "report" 5
        ∷ unregisters "report"
        ∷ registers report_job
        ∷ triggers "report" 6
        ∷ [])).in_flight
    ≡ 2
unfolding run get set delete dec_str Registry.find Registry.register Limiter.new Registry.unregister
reregistered_in_flight = refl

abbrev busy_limiter : Limiter.ConcurrencyLimiter
busy_limiter = record { counts = ("report", 1) ∷ []; max_concurrency = 1 }

busy_registered : get "report" (run initial busy).scheduler.registry ≡ some report_job
unfolding run get set dec_str Registry.find Registry.register Limiter.new
busy_registered = refl

busy_limited : limiter_of (run initial busy).scheduler "report" ≡ some (0, busy_limiter)
unfolding run get set dec_str Registry.find Registry.register Limiter.new limiter_of
busy_limited = refl

run-limited_example :
    (Limits.count_via 0 "report" (run initial busy).in_flight ≤ 1)
    × ((trigger (run initial busy).scheduler "report" 7
          ≡ err (Registry.concurrency_limit "report" (or_else none 1)))
        ↔ (Limits.count_via 0 "report" (run initial busy).in_flight ≡ 1))
run-limited_example =
    Limits.run-limited busy "report" 7 0 busy_limiter report_job busy_registered busy_limited

run-initial-Adds_example :
    Statistics.Adds (run initial busy).scheduler.stats (length (run initial busy).in_flight)
run-initial-Adds_example = Statistics.run-initial-Adds busy tt

abbrev running_report : Execution
running_report = record {
  base = record {
    job_id = "report";
    job_name = "Report";
    execution_id = 1;
    status = InMemory.running;
    scheduled_at_ms = 5;
    started_at_ms = some 5;
    completed_at_ms = none;
    failure_reason = none;
    attempt_number = 1;
  };
  limiter = some 0;
}

busy_pick : pick 1 (run initial busy).in_flight ≡ some (running_report, [])
unfolding run get set dec_str Registry.find Registry.register Limiter.new pick
busy_pick = refl

-- The job rejects twice, then fulfils.
abbrev third_time : ℕ → Option String
third_time n = if ltb n 3 then some "down" else none

third_time_delays : (Retries.run_with_retries third_time 10 4).delays ≡ 10 ∷ 20 ∷ []
unfolding Retries.run_with_retries
third_time_delays = refl

run_with_retries-Ends_example :
    Retries.Ends third_time 10 4 0 (Retries.run_with_retries third_time 10 4)
run_with_retries-Ends_example = Retries.run_with_retries-Ends third_time 10 4
