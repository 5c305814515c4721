-- ===== src/Deployment/Canary.antt =====
-- extras/k8s/src/canary/CanaryRelease.ts: a release that gets more of the traffic step by step. Error
-- rates are counted in millionths, and 1.2 times the baseline is compared as 6 to 5. The provider of
-- the metrics is given by its answers; what the handlers of alerts and of phases are called with is
-- kept in two lists. A promotion runs on from its metrics without another call between.
pub mod Progress
pub mod Promotions
use ts_commons.Base.{
  ℕ, suc, ◌+◌, ◌*◌, ◌<◌, min, String, Option, none, some, Bool, true, false, List, [], ◌∷◌, ◌++◌,
  or_else, ltb, leb, ◌==◌, if◌then◌else◌,
}

pub data CanaryPhase : Type 0 where
  initializing : CanaryPhase
  progressing : CanaryPhase
  paused : CanaryPhase
  succeeded : CanaryPhase
  failed : CanaryPhase
  rolled_back : CanaryPhase

pub record CanaryMetrics : Type 0 where
  pub error_rate : ℕ
  pub p99_latency_ms : ℕ

pub record CanaryConfig : Type 0 where
  pub initial_weight : Option ℕ
  pub step_size : Option ℕ
  pub error_rate_threshold : Option ℕ
  pub baseline_latency_ms : Option ℕ

-- Why an alert was raised.
pub data AlertReason : Type 0 where
  error_rate_exceeds : AlertReason
  latency_exceeds : AlertReason
  twice_the_stable : AlertReason
  given : String → AlertReason

pub record CanaryRelease : Type 0 where
  pub canary_weight : ℕ
  pub phase : CanaryPhase
  pub step_size : ℕ
  pub error_rate_threshold : ℕ
  pub baseline_latency_ms : ℕ
  pub last_updated_at : ℕ
  pub alerts : List AlertReason
  pub phases : List CanaryPhase

abbrev pub new : ℕ → CanaryConfig → CanaryRelease
new now config = record {
  canary_weight = or_else config.initial_weight 5;
  phase = initializing;
  step_size = or_else config.step_size 10;
  error_rate_threshold = or_else config.error_rate_threshold 50000;
  baseline_latency_ms = or_else config.baseline_latency_ms 200;
  last_updated_at = now;
  alerts = [];
  phases = [];
}

abbrev pub phase_code : CanaryPhase → ℕ
phase_code initializing = 0
phase_code progressing = 1
phase_code paused = 2
phase_code succeeded = 3
phase_code failed = 4
phase_code rolled_back = 5

-- The handlers are called when the phase changes.
unfoldable pub set_phase : CanaryPhase → CanaryRelease → CanaryRelease
set_phase phase r =
    if phase_code r.phase == phase_code phase
    then r
    else record r { phase = phase; phases = r.phases ++ phase ∷ [] }

abbrev pub alert : AlertReason → CanaryRelease → CanaryRelease
alert reason r = record r { alerts = r.alerts ++ reason ∷ [] }

unfoldable pub meets_thresholds : CanaryRelease → CanaryMetrics → CanaryMetrics → Bool
meets_thresholds r canary stable =
    if ltb r.error_rate_threshold canary.error_rate
    then false
    else (if ltb (r.baseline_latency_ms * 6) (canary.p99_latency_ms * 5)
        then false
        else (if ltb (stable.error_rate * 2) canary.error_rate then false else true))

unfoldable pub failure_reason : CanaryRelease → CanaryMetrics → AlertReason
failure_reason r canary =
    if ltb r.error_rate_threshold canary.error_rate
    then error_rate_exceeds
    else (if ltb (r.baseline_latency_ms * 6) (canary.p99_latency_ms * 5)
        then latency_exceeds
        else twice_the_stable)

unfoldable pub analyse : CanaryRelease → CanaryMetrics → CanaryMetrics → CanaryRelease × Bool
analyse r stable canary =
    let passed = meets_thresholds r canary stable in
    (if passed then r else set_phase failed r, passed)

unfoldable pub promote : CanaryRelease → ℕ → CanaryMetrics → CanaryMetrics → CanaryRelease
promote r now stable canary =
    let (r', passed) = analyse r stable canary in
    let weight = min 100 (r'.canary_weight + r'.step_size) in
    let raised = record r' { canary_weight = weight; last_updated_at = now } in
    if passed
    then set_phase (if leb 100 weight then succeeded else progressing) raised
    else alert (failure_reason r canary) (set_phase failed r')

unfoldable pub rollback : CanaryRelease → ℕ → String → CanaryRelease
rollback r now reason =
    alert (given reason)
      (set_phase rolled_back (record r { canary_weight = 0; last_updated_at = now }))

unfoldable pub pause : CanaryRelease → CanaryRelease
pause r = set_phase paused r

unfoldable pub resume : CanaryRelease → CanaryRelease
resume r = if phase_code r.phase == phase_code paused then set_phase progressing r else r

-- A call on the release, with its time and its metrics.
pub data Call : Type 0 where
  promotes : ℕ → CanaryMetrics → CanaryMetrics → Call
  analyses : CanaryMetrics → CanaryMetrics → Call
  rolls_back : ℕ → String → Call
  pauses : Call
  resumes : Call

abbrev pub step : CanaryRelease → Call → CanaryRelease
step r (promotes now stable canary) = promote r now stable canary
step r (analyses stable canary) = (analyse r stable canary).0
step r (rolls_back now reason) = rollback r now reason
step r pauses = pause r
step r resumes = resume r

unfoldable pub run : CanaryRelease → List Call → CanaryRelease
run r [] = r
run r (c ∷ cs) = run (step r c) cs
