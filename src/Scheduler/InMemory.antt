-- ===== src/Scheduler/InMemory.antt =====
-- packages/scheduler/src/InMemoryScheduler.ts. The limiters are objects that executions in flight
-- share with the map: `heap` holds them, and the map and the executions hold their places in it. An
-- execution id is the number in it. What a job does is its outcome, so that an execution is two
-- steps: `trigger` up to the job's own code, and `finalize`.
pub mod Limits
pub mod Statistics
pub mod Retries
use ts_commons.Base.{
  ℕ, zero, suc, ◌+◌, ◌==◌, String, Option, none, some, Bool, true, false, List, [], ◌∷◌, ◌++◌,
  or_else, if◌then◌else◌, length, get_elem?,
}
use ts_commons.Base.Int.{ℤ, pos, ◌+ℤ◌, ◌-ℤ◌}
use ts_commons.Base.JsMap.{JsMap, get, set, delete, has}
use ts_commons.Kernel.Result.{Result, ok, err}
use ts_commons.Scheduler.Limiter
use ts_commons.Scheduler.Limiter.{ConcurrencyLimiter, is_allowed, acquire, release}
use ts_commons.Scheduler.Registry
use ts_commons.Scheduler.Registry.{
  JobRegistration, JobRegistry, JobError, not_found, concurrency_limit,
}

pub data JobStatus : Type 0 where
  idle running succeeded failed cancelled : JobStatus

pub record JobRecord : Type 0 where
  pub job_id : String
  pub job_name : String
  pub execution_id : ℕ
  pub status : JobStatus
  pub scheduled_at_ms : ℕ
  pub started_at_ms : Option ℕ
  pub completed_at_ms : Option ℕ
  pub failure_reason : Option String
  pub attempt_number : ℕ

pub record StatsInternal : Type 0 where
  pub total : ℕ
  pub succeeded : ℕ
  pub failed : ℕ
  pub active : ℤ

abbrev pub no_stats : StatsInternal
no_stats = record { total = 0; succeeded = 0; failed = 0; active = pos 0 }

-- What the job's promise settles to, once the retries are over.
pub data Outcome : Type 0 where
  fulfils : Outcome
  rejects : String → Outcome

unfoldable pub increment_active : StatsInternal → StatsInternal
increment_active s = record s { total = s.total + 1; active = s.active +ℤ pos 1 }

unfoldable pub decrement_active : StatsInternal → Outcome → StatsInternal
decrement_active s fulfils = record s { succeeded = s.succeeded + 1; active = s.active -ℤ pos 1 }
decrement_active s (rejects e) = record s { failed = s.failed + 1; active = s.active -ℤ pos 1 }

pub record InMemoryScheduler : Type 0 where
  pub registry : JobRegistry
  pub records : List JobRecord
  pub history : JsMap (List ℕ)
  pub limiters : JsMap ℕ
  pub heap : List ConcurrencyLimiter
  pub stats : StatsInternal
  pub id_counter : ℕ

abbrev pub new : InMemoryScheduler
new = record {
  registry = [];
  records = [];
  history = [];
  limiters = [];
  heap = [];
  stats = no_stats;
  id_counter = 0;
}

-- `records.set(record.executionId, record)`
unfoldable pub set_record : JobRecord → List JobRecord → List JobRecord
set_record r [] = r ∷ []
set_record r (x ∷ xs) =
    let rest = set_record r xs in if x.execution_id == r.execution_id then r ∷ xs else x ∷ rest

unfoldable pub get_record : ℕ → List JobRecord → Option JobRecord
get_record id [] = none
get_record id (x ∷ xs) =
    let rest = get_record id xs in if x.execution_id == id then some x else rest

-- The limiter at a place is changed by a method.
unfoldable pub update :
    (ConcurrencyLimiter → ConcurrencyLimiter)
    → ℕ
    → List ConcurrencyLimiter
    → List ConcurrencyLimiter
update f a [] = []
update f zero (l ∷ ls) = f l ∷ ls
update f (suc a) (l ∷ ls) = l ∷ update f a ls

unfoldable pub build_running_record : JobRegistration → ℕ → ℕ → JobRecord
build_running_record reg execution_id now = record {
  job_id = reg.job_id;
  job_name = reg.job_name;
  execution_id = execution_id;
  status = running;
  scheduled_at_ms = now;
  started_at_ms = some now;
  completed_at_ms = none;
  failure_reason = none;
  attempt_number = 1;
}

unfoldable pub finished_record : JobRecord → Outcome → ℕ → JobRecord
finished_record base fulfils now = record base { status = succeeded; completed_at_ms = some now }
finished_record base (rejects e) now = record base {
  status = failed;
  completed_at_ms = some now;
  failure_reason = some e;
}

unfoldable pub append_history : JsMap (List ℕ) → String → ℕ → JsMap (List ℕ)
append_history history job_id execution_id =
    let existing = or_else (get job_id history) [] in
    set job_id (existing ++ execution_id ∷ []) history

unfoldable pub register : InMemoryScheduler → JobRegistration → Result InMemoryScheduler JobError
register s reg = elim (Registry.register s.registry reg) [
  | err e ↦ err e
  | ok jobs ↦ ok (record s {
    registry = jobs;
    limiters = set reg.job_id (length s.heap) s.limiters;
    heap = s.heap ++ Limiter.new (or_else reg.max_concurrency 1) ∷ [];
  })
]

unfoldable pub unregister : InMemoryScheduler → String → Result InMemoryScheduler JobError
unregister s job_id = elim (Registry.unregister s.registry job_id) [
  | err e ↦ err e
  | ok jobs ↦ ok (record s { registry = jobs; limiters = delete job_id s.limiters })
]

-- The limiter that the map has for a job, and its place.
unfoldable pub limiter_of : InMemoryScheduler → String → Option (ℕ × ConcurrencyLimiter)
limiter_of s job_id = elim (get job_id s.limiters) [
  | none ↦ none
  | some a ↦ elim (get_elem? s.heap a) [ none ↦ none | some l ↦ some (a, l) ]
]

-- An execution in flight: what `run` has in its variables.
pub record Execution : Type 0 where
  pub base : JobRecord
  pub limiter : Option ℕ

-- `trigger` from `limiter?.acquire` to the call of `run`.
unfoldable pub start_execution :
    InMemoryScheduler → JobRegistration → String → ℕ → Option ℕ → InMemoryScheduler × Execution
unfolding build_running_record append_history increment_active update acquire set_record
start_execution s reg job_id now limiter =
    let base = build_running_record reg (s.id_counter + 1) now in
    (
      record s {
        id_counter = s.id_counter + 1;
        heap = elim limiter [ none ↦ s.heap | some a ↦ update (λ l. acquire l job_id) a s.heap ];
        records = set_record base s.records;
        history = append_history s.history job_id (s.id_counter + 1);
        stats = increment_active s.stats;
      },
      record { base = base; limiter = limiter },
    )

unfoldable pub trigger :
    InMemoryScheduler → String → ℕ → Result (InMemoryScheduler × Execution) JobError
unfolding start_execution limiter_of is_allowed
trigger s job_id now = elim (Registry.find s.registry job_id) [
  | none ↦ err (not_found job_id)
  | some reg ↦ elim (limiter_of s job_id) [
    | none ↦ ok (start_execution s reg job_id now none)
    | some (a, l) ↦
        if is_allowed l job_id
        then ok (start_execution s reg job_id now (some a))
        else err (concurrency_limit job_id (or_else reg.max_concurrency 1))
  ]
]

unfoldable pub finalize : InMemoryScheduler → Execution → Outcome → ℕ → InMemoryScheduler
unfolding set_record finished_record decrement_active update release
finalize s x outcome now = record s {
  records = set_record (finished_record x.base outcome now) s.records;
  stats = decrement_active s.stats outcome;
  heap = elim x.limiter [ none ↦ s.heap | some a ↦ update (λ l. release l x.base.job_id) a s.heap ];
}

-- The `flatMap` of `getJobHistory` over the ids.
unfoldable pub records_of : List ℕ → List JobRecord → List JobRecord
unfolding get_record
records_of [] records = []
records_of (id ∷ ids) records =
    let rest = records_of ids records in
    elim (get_record id records) [ none ↦ rest | some r ↦ r ∷ rest ]

unfoldable pub get_job_history : InMemoryScheduler → String → List JobRecord
unfolding records_of
get_job_history s job_id = records_of (or_else (get job_id s.history) []) s.records

-- The limiters that executions in flight still hold stay in the heap.
abbrev pub clear : InMemoryScheduler → InMemoryScheduler
clear s = record s { registry = []; records = []; history = []; limiters = []; stats = no_stats }

-- The scheduler among its callers, with the executions in flight.
pub record World : Type 0 where
  pub scheduler : InMemoryScheduler
  pub in_flight : List Execution

pub data Event : Type 0 where
  registers : JobRegistration → Event
  unregisters : String → Event
  triggers : String → ℕ → Event
  completes : ℕ → Outcome → ℕ → Event
  clears : Event

-- The execution of an id and those without it.
unfoldable pub pick : ℕ → List Execution → Option (Execution × List Execution)
pick id [] = none
pick id (x ∷ xs) =
    let later = pick id xs in
    if x.base.execution_id == id
    then some (x, xs)
    else elim later [ none ↦ none | some (y, ys) ↦ some (y, x ∷ ys) ]

-- A call that throws changes nothing, and an execution that is not in flight cannot complete.
unfoldable pub step : World → Event → World
unfolding register unregister trigger finalize pick
step w (registers reg) = elim (register w.scheduler reg) [
  | err e ↦ w
  | ok s ↦ record w { scheduler = s }
]
step w (unregisters job_id) = elim (unregister w.scheduler job_id) [
  | err e ↦ w
  | ok s ↦ record w { scheduler = s }
]
step w (triggers job_id now) = elim (trigger w.scheduler job_id now) [
  | err e ↦ w
  | ok (s, x) ↦ record { scheduler = s; in_flight = w.in_flight ++ x ∷ [] }
]
step w (completes id outcome now) = elim (pick id w.in_flight) [
  | none ↦ w
  | some (x, rest) ↦ record { scheduler = finalize w.scheduler x outcome now; in_flight = rest }
]
step w clears = record w { scheduler = clear w.scheduler }

unfoldable pub run : World → List Event → World
unfolding step
run w [] = w
run w (e ∷ es) = run (step w e) es

abbrev pub initial : World
initial = record { scheduler = new; in_flight = [] }
