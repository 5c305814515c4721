-- ===== src/Resilience/Health.antt =====
-- packages/resilience/src/health/HealthCheck.ts. `Promise.all` lets the checks complete in any
-- order, so the report is a function of the completions in their order.
pub mod Worst
use ts_commons.Base.{
  ◌++◌, ℕ, String, Option, none, some, Bool, true, false, ◌≡◌, List, [], ◌∷◌, if◌then◌else◌,
  some_of,
}
use ts_commons.Base.JsMap.{JsMap, set, values}

pub data HealthStatus : Type 0 where
  healthy degraded unhealthy : HealthStatus

-- An indicator whose check has come to its end: a status, or nothing where it threw.
pub record Completion : Type 0 where
  pub name : String
  pub outcome : Option HealthStatus

pub record HealthReport : Type 0 where
  pub status : HealthStatus
  pub checks : JsMap HealthStatus
  pub timestamp : ℕ

-- The indicators are numbers.
abbrev pub register : List ℕ → ℕ → List ℕ
register indicators indicator = indicators ++ indicator ∷ []

abbrev pub is_unhealthy : HealthStatus → Bool
is_unhealthy unhealthy = true
is_unhealthy _ = false

abbrev pub is_degraded : HealthStatus → Bool
is_degraded degraded = true
is_degraded _ = false

-- What the `try` around a check writes.
abbrev pub recorded : Option HealthStatus → HealthStatus
recorded none = unhealthy
recorded (some s) = s

unfoldable pub collect : JsMap HealthStatus → List Completion → JsMap HealthStatus
collect checks [] = checks
collect checks (c ∷ cs) = collect (set c.name (recorded c.outcome) checks) cs

unfoldable pub overall : List HealthStatus → HealthStatus
overall statuses =
    if some_of is_unhealthy statuses
    then unhealthy
    else (if some_of is_degraded statuses then degraded else healthy)

unfoldable pub check : List Completion → ℕ → HealthReport
unfolding collect overall
check completions now =
    let checks = collect [] completions in
    record { status = overall (values checks); checks = checks; timestamp = now }
