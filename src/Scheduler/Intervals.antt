-- ===== src/Scheduler/Intervals.antt =====
-- packages/scheduler/src/IntervalRunner.ts. Timer handles are numbers that the event loop gives out,
-- and `timers` are those that are set, each with its job and its interval.
use ts_commons.Base.{
  ℕ, ◌+◌, ◌==◌, String, none, some, Bool, true, false, List, [], ◌∷◌, ◌++◌, keep, if◌then◌else◌,
}
use ts_commons.Base.JsMap.{JsMap, get, set, delete, has, keys, size}

pub record IntervalRunner : Type 0 where
  pub handles : JsMap ℕ
  pub timers : List (ℕ × String × ℕ)
  pub next_handle : ℕ

unfoldable pub start : IntervalRunner → String → ℕ → IntervalRunner
start r job_id interval_ms = if has job_id r.handles then r else record {
  handles = set job_id r.next_handle r.handles;
  timers = r.timers ++ (r.next_handle, job_id, interval_ms) ∷ [];
  next_handle = r.next_handle + 1;
}

unfoldable pub stop : IntervalRunner → String → IntervalRunner
stop r job_id = elim (get job_id r.handles) [
  | none ↦ r
  | some handle ↦ record r {
    timers = keep (λ t. if t.0 == handle then false else true) r.timers;
    handles = delete job_id r.handles;
  }
]

-- The loop of `stopAll` over the keys of the map.
unfoldable pub stop_each : IntervalRunner → List String → IntervalRunner
unfolding stop
stop_each r [] = r
stop_each r (id ∷ ids) = stop_each (stop r id) ids

unfoldable pub stop_all : IntervalRunner → IntervalRunner
unfolding stop_each
stop_all r = stop_each r (keys r.handles)

abbrev pub is_running : IntervalRunner → String → Bool
is_running r job_id = has job_id r.handles

abbrev pub active_count : IntervalRunner → ℕ
active_count r = size r.handles
