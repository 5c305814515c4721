-- ===== src/Realtime/Reconnection.antt =====
-- packages/websocket/src/ReconnectionHandler.ts: how long to wait before the next attempt, and
-- whether there is one. Attempts are counted from 1.
pub mod Doubling
use ts_commons.Base.{
  ℕ, ◌+◌, ◌-◌, ◌*◌, ◌^◌, min, Option, none, some, Bool, true, List, [], ◌∷◌, ltb, ◌==◌, or_else,
  if◌then◌else◌,
}

pub data ReconnectionStrategy : Type 0 where
  fixed : ReconnectionStrategy
  linear : ReconnectionStrategy
  exponential : ReconnectionStrategy

pub record ReconnectionConfig : Type 0 where
  pub strategy : ReconnectionStrategy
  pub max_attempts : ℕ
  pub base_delay_ms : ℕ
  pub max_delay_ms : Option ℕ

pub record ReconnectionHandler : Type 0 where
  pub config : ReconnectionConfig
  pub attempt_count : ℕ

abbrev pub new : ReconnectionConfig → ReconnectionHandler
new config = record { config = config; attempt_count = 0 }

unfoldable pub should_retry : ReconnectionConfig → ℕ → Bool
should_retry config attempt =
    if config.max_attempts == 0 then true else ltb attempt config.max_attempts

unfoldable pub get_next_delay : ReconnectionConfig → ℕ → ℕ
get_next_delay config attempt = elim config.strategy [
  | fixed ↦ config.base_delay_ms
  | linear ↦ attempt * config.base_delay_ms
  | exponential ↦ min (config.base_delay_ms * 2 ^ (attempt - 1)) (or_else config.max_delay_ms 30000)
]

unfoldable pub schedule : ReconnectionHandler → ReconnectionHandler × ℕ
schedule h = (
  record h { attempt_count = h.attempt_count + 1 },
  get_next_delay h.config (h.attempt_count + 1),
)

abbrev pub can_retry : ReconnectionHandler → Bool
can_retry h = should_retry h.config h.attempt_count

abbrev pub attempts : ReconnectionHandler → ℕ
attempts h = h.attempt_count

abbrev pub reset : ReconnectionHandler → ReconnectionHandler
reset h = record h { attempt_count = 0 }

-- A call that changes the handler.
pub data Call : Type 0 where
  schedules : Call
  resets : Call

abbrev pub step : ReconnectionHandler → Call → ReconnectionHandler
step h schedules = (schedule h).0
step h resets = reset h

unfoldable pub run : ReconnectionHandler → List Call → ReconnectionHandler
run h [] = h
run h (c ∷ cs) = run (step h c) cs
