-- ===== src/Process/Monitor.antt =====
-- packages/process-manager/src/ProcessMonitor.ts and ProcessCorrelator.ts: counters with a log of
-- the events of processes, and the map from correlation keys to processes.
use ts_commons.Base.{
  ℕ, ◌+◌, String, ◌≡◌, refl, Option, none, Bool, List, [], ◌∷◌, ◌++◌, arith, length, length-append,
}
use ts_commons.Base.JsMap.{JsMap, get, set, delete, has, size}

pub data EventType : Type 0 where
  started completed failed timed_out : EventType

pub record ProcessMetrics : Type 0 where
  pub started : ℕ
  pub completed : ℕ
  pub failed : ℕ
  pub timed_out : ℕ

pub record ProcessEvent : Type 0 where
  pub process_id : String
  pub type : EventType
  pub timestamp : ℕ
  pub error : Option String

pub record ProcessMonitor : Type 0 where
  pub metrics : ProcessMetrics
  pub events : List ProcessEvent

abbrev pub no_metrics : ProcessMetrics
no_metrics = record { started = 0; completed = 0; failed = 0; timed_out = 0 }

abbrev pub logged : ProcessMonitor → String → EventType → ℕ → Option String → List ProcessEvent
logged m process_id type now error =
    m.events ++ record { process_id = process_id; type = type; timestamp = now; error = error } ∷ []

unfoldable pub on_started : ProcessMonitor → ℕ → String → ProcessMonitor
on_started m now process_id = record {
  metrics = record m.metrics { started = m.metrics.started + 1 };
  events = logged m process_id started now none;
}

unfoldable pub on_completed : ProcessMonitor → ℕ → String → ProcessMonitor
on_completed m now process_id = record {
  metrics = record m.metrics { completed = m.metrics.completed + 1 };
  events = logged m process_id completed now none;
}

-- `error_msg` is the error's message, or `String(error)`, and `none` when no error is given.
unfoldable pub on_failed : ProcessMonitor → ℕ → String → Option String → ProcessMonitor
on_failed m now process_id error_msg = record {
  metrics = record m.metrics { failed = m.metrics.failed + 1 };
  events = logged m process_id failed now error_msg;
}

unfoldable pub on_timed_out : ProcessMonitor → ℕ → String → ProcessMonitor
on_timed_out m now process_id = record {
  metrics = record m.metrics { timed_out = m.metrics.timed_out + 1 };
  events = logged m process_id timed_out now none;
}

unfoldable pub reset : ProcessMonitor → ProcessMonitor
reset m = record { metrics = no_metrics; events = [] }

-- The counters together count the events in the log, whichever method is called.
CountsAll : ProcessMonitor → Type 0
CountsAll m =
    m.metrics.started + m.metrics.completed + m.metrics.failed + m.metrics.timed_out
    ≡ length m.events

monitor_keeps-CountsAll :
    (m : ProcessMonitor) (now : ℕ) (id : String) (error_msg : Option String)
    → CountsAll m
    → CountsAll (on_started m now id)
      × CountsAll (on_completed m now id)
      × CountsAll (on_failed m now id error_msg)
      × CountsAll (on_timed_out m now id)
      × CountsAll (reset m)
unfolding CountsAll on_started on_completed on_failed on_timed_out reset
monitor_keeps-CountsAll m now id error_msg h = (
  omega (
    arith,
    h,
    length-append m.events
        (record { process_id = id; type = started; timestamp = now; error = none } ∷ []),
  ),
  omega (
    arith,
    h,
    length-append m.events
        (record { process_id = id; type = completed; timestamp = now; error = none } ∷ []),
  ),
  omega (
    arith,
    h,
    length-append m.events
        (record { process_id = id; type = failed; timestamp = now; error = error_msg } ∷ []),
  ),
  omega (
    arith,
    h,
    length-append m.events
        (record { process_id = id; type = timed_out; timestamp = now; error = none } ∷ []),
  ),
  refl,
)

-- The correlator has this one field.
abbrev pub Correlator : Type 0
Correlator = JsMap String

unfoldable pub register : Correlator → String → String → Correlator
register m correlation_id process_id = set correlation_id process_id m

unfoldable pub resolve : Correlator → String → Option String
resolve m correlation_id = get correlation_id m

unfoldable pub deregister : Correlator → String → Correlator
deregister m correlation_id = delete correlation_id m

abbrev pub is_registered : Correlator → String → Bool
is_registered m correlation_id = has correlation_id m

abbrev pub correlations : Correlator → ℕ
correlations m = size m
