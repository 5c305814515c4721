-- ===== src/Saga/Monitor.antt =====
-- packages/saga/src/SagaMonitor.ts: counters and a log of what is reported.
use ts_commons.Base.{
  ℕ, ◌+◌, String, ◌≡◌, Option, none, some, Bool, true, false, List, [], ◌∷◌, ◌++◌, arith,
  if◌then◌else◌,
}

pub data EventName : Type 0 where
  started committed compensated failed : EventName

pub record SagaMetrics : Type 0 where
  pub started : ℕ
  pub committed : ℕ
  pub compensated : ℕ
  pub failed : ℕ

pub record SagaEventRecord : Type 0 where
  pub saga_id : String
  pub event : EventName
  pub timestamp : ℕ
  pub error : Option String

pub record SagaMonitor : Type 0 where
  pub metrics : SagaMetrics
  pub events : List SagaEventRecord

abbrev pub no_metrics : SagaMetrics
no_metrics = record { started = 0; committed = 0; compensated = 0; failed = 0 }

unfoldable pub new : SagaMonitor
new = record { metrics = no_metrics; events = [] }

unfoldable pub on_saga_started : SagaMonitor → ℕ → String → SagaMonitor
on_saga_started m now saga_id = record {
  metrics = record m.metrics { started = m.metrics.started + 1 };
  events =
      m.events ++ record { saga_id = saga_id; event = started; timestamp = now; error = none } ∷ [];
}

unfoldable pub on_saga_committed : SagaMonitor → ℕ → String → SagaMonitor
on_saga_committed m now saga_id = record {
  metrics = record m.metrics { committed = m.metrics.committed + 1 };
  events =
      m.events
      ++ record { saga_id = saga_id; event = committed; timestamp = now; error = none } ∷ [];
}

unfoldable pub on_saga_compensated : SagaMonitor → ℕ → String → SagaMonitor
on_saga_compensated m now saga_id = record {
  metrics = record m.metrics { compensated = m.metrics.compensated + 1 };
  events =
      m.events
      ++ record { saga_id = saga_id; event = compensated; timestamp = now; error = none } ∷ [];
}

-- `error_msg` is the error's message, or `String(error)`.
unfoldable pub on_saga_failed : SagaMonitor → ℕ → String → String → SagaMonitor
on_saga_failed m now saga_id error_msg = record {
  metrics = record m.metrics { failed = m.metrics.failed + 1 };
  events =
      m.events
      ++ record { saga_id = saga_id; event = failed; timestamp = now; error = some error_msg } ∷ [];
}

unfoldable pub reset : SagaMonitor → SagaMonitor
reset m = record { metrics = no_metrics; events = [] }

-- A call on the monitor.
pub data Report : Type 0 where
  starts commits compensates : ℕ → String → Report
  fails : ℕ → String → String → Report
  resets : Report

unfoldable pub report : SagaMonitor → Report → SagaMonitor
unfolding on_saga_started on_saga_committed on_saga_compensated on_saga_failed reset
report m (starts now id) = on_saga_started m now id
report m (commits now id) = on_saga_committed m now id
report m (compensates now id) = on_saga_compensated m now id
report m (fails now id msg) = on_saga_failed m now id msg
report m resets = reset m

unfoldable pub report_all : SagaMonitor → List Report → SagaMonitor
unfolding report
report_all m [] = m
report_all m (r ∷ rs) = report_all (report m r) rs

abbrev pub is_event : EventName → SagaEventRecord → Bool
is_event started r = elim r.event [ started ↦ true | _ ↦ false ]
is_event committed r = elim r.event [ committed ↦ true | _ ↦ false ]
is_event compensated r = elim r.event [ compensated ↦ true | _ ↦ false ]
is_event failed r = elim r.event [ failed ↦ true | _ ↦ false ]

abbrev pub count_events : EventName → List SagaEventRecord → ℕ
count_events n [] = 0
count_events n (r ∷ rs) = (if is_event n r then 1 else 0) + count_events n rs

count_events-append :
    (n : EventName) (rs : List SagaEventRecord) (r : SagaEventRecord)
    → count_events n (rs ++ r ∷ []) ≡ count_events n rs + (if is_event n r then 1 else 0)
count_events-append n [] r = omega arith
count_events-append n (x ∷ rs) r = omega (arith, count_events-append n rs r)

pub record Counts (m : SagaMonitor) : Type 0 where
  pub started_events : m.metrics.started ≡ count_events started m.events
  pub committed_events : m.metrics.committed ≡ count_events committed m.events
  pub compensated_events : m.metrics.compensated ≡ count_events compensated m.events
  pub failed_events : m.metrics.failed ≡ count_events failed m.events

report-Counts : (m : SagaMonitor) (r : Report) → Counts m → Counts (report m r)
unfolding report
report-Counts m (starts now id) c = grind (arith, count_events-append)
report-Counts m (commits now id) c = grind (arith, count_events-append)
report-Counts m (compensates now id) c = grind (arith, count_events-append)
report-Counts m (fails now id msg) c = grind (arith, count_events-append)
report-Counts m resets c = ground arith

report_all-Counts : (m : SagaMonitor) (rs : List Report) → Counts m → Counts (report_all m rs)
unfolding report_all
report_all-Counts m [] c = c
report_all-Counts m (r ∷ rs) c = report_all-Counts (report m r) rs (report-Counts m r c)

-- Whatever is reported to a new monitor, resets included, each of the four counters is the number
-- of events of its name in the log.
pub report_all-new : (rs : List Report) → Counts (report_all new rs)
unfolding new
report_all-new rs = report_all-Counts new rs (ground arith)
