-- ===== src/Outbox/Relay.antt =====
-- packages/outbox/src/relay: the relay's poll cycle, and its counters. The publisher is given by
-- its answers: what the promise of its call for the i-th message of a batch settles to, `none` for
-- fulfilled and the error's message for rejected. Its calls are logged. The clock gives two
-- readings for the i-th message, one for the back-off test and one for the mark that follows.
pub mod Batch
pub mod Starvation
pub mod Overlap
use ts_commons.Base.{
  ℕ, zero, suc, ◌+◌, ◌-◌, ◌*◌, ◌^◌, String, Option, none, some, Bool, true, false, ◌&&◌, List, [],
  ◌∷◌, ◌++◌, if◌then◌else◌, ltb, leb,
}
use ts_commons.Base.JsMap.{JsMap}
use ts_commons.Outbox.Store.{OutboxMessage, get_unpublished, mark_as_published, mark_as_failed}

pub record OutboxRelayOptions : Type 0 where
  pub poll_interval_ms : ℕ
  pub batch_size : ℕ
  pub max_attempts : ℕ
  pub backoff_base_ms : ℕ

abbrev pub default_options : OutboxRelayOptions
default_options = record {
  poll_interval_ms = 1000;
  batch_size = 100;
  max_attempts = 5;
  backoff_base_ms = 1000;
}

pub record OutboxRelayMetrics : Type 0 where
  pub published : ℕ
  pub failed : ℕ
  pub skipped : ℕ

abbrev pub record_published : OutboxRelayMetrics → OutboxRelayMetrics
record_published m = record m { published = m.published + 1 }

abbrev pub record_failed : OutboxRelayMetrics → OutboxRelayMetrics
record_failed m = record m { failed = m.failed + 1 }

abbrev pub record_skipped : OutboxRelayMetrics → OutboxRelayMetrics
record_skipped m = record m { skipped = m.skipped + 1 }

abbrev pub reset : OutboxRelayMetrics → OutboxRelayMetrics
reset m = record { published = 0; failed = 0; skipped = 0 }

-- The relay with its collaborators: the store, the metrics, and the log of the publisher's calls.
pub record OutboxRelay (V : Type 0) : Type 0 where
  pub store : JsMap (OutboxMessage V)
  pub metrics : OutboxRelayMetrics
  pub sent : List V
  pub last_run_had_failures : Bool
  -- `intervalHandle !== undefined`
  pub running : Bool

-- What a cycle finds outside: the clock and the publisher.
pub record Surroundings : Type 0 where
  pub checked_at : ℕ → ℕ
  pub marked_at : ℕ → ℕ
  pub answer : ℕ → Option String

module _ {V : Type 0} (o : OutboxRelayOptions) where
  abbrev pub is_dead : OutboxMessage V → Bool
  is_dead msg = leb o.max_attempts msg.attempts

  -- The message has failed before and its back-off has not passed.
  abbrev pub is_backing_off : OutboxMessage V → ℕ → Bool
  is_backing_off msg now = ltb 0 msg.attempts && elim msg.last_attempt_at [
    | none ↦ false
    | some t ↦ ltb now (t + o.backoff_base_ms * 2 ^ (msg.attempts - 1))
  ]

module _ {V : Type 0} (o : OutboxRelayOptions) (env : Surroundings) where
  -- The `try` and its `catch`, for the i-th message of the batch.
  unfoldable pub publish_one : OutboxRelay V → Bool → ℕ → OutboxMessage V → OutboxRelay V × Bool
  publish_one r had i msg =
      let r' = record r { sent = r.sent ++ msg.event_envelope ∷ [] } in
      elim (env.answer i) [
        | none ↦ (
          record r' {
            store = mark_as_published r.store (env.marked_at i) msg.id;
            metrics = record_published r.metrics;
          },
          had,
        )
        | some error ↦ (
          record r' {
            store = mark_as_failed r.store (env.marked_at i) msg.id error;
            metrics = record_failed r.metrics;
          },
          true,
        )
      ]

  -- The body of the loop; the Boolean is `hadFailures`.
  unfoldable pub process_one : OutboxRelay V → Bool → ℕ → OutboxMessage V → OutboxRelay V × Bool
  unfolding publish_one
  process_one r had i msg =
      if is_dead o msg
      then (
        record r {
          store = mark_as_failed r.store (env.marked_at i) msg.id "max attempts exceeded";
          metrics = record_skipped r.metrics;
        },
        had,
      )
      else (if is_backing_off o msg (env.checked_at i) then (r, had) else publish_one r had i msg)

  unfoldable pub process_all :
      OutboxRelay V → Bool → ℕ → List (OutboxMessage V) → OutboxRelay V × Bool
  unfolding process_one
  process_all r had i [] = (r, had)
  process_all r had i (msg ∷ msgs) =
      let (r', had') = process_one r had i msg in process_all r' had' (i + 1) msgs

  unfoldable pub run_once : OutboxRelay V → OutboxRelay V
  unfolding process_all
  run_once r =
      let (r', had) = process_all r false 0 (get_unpublished r.store o.batch_size) in
      record r' { last_run_had_failures = had }

module _ {V : Type 0} where
  abbrev pub start : OutboxRelay V → OutboxRelay V
  start r = if r.running then r else record r { running = true }

  abbrev pub stop : OutboxRelay V → OutboxRelay V
  stop r = if r.running then record r { running = false } else r

  abbrev pub is_healthy : OutboxRelay V → Bool
  is_healthy r = if r.last_run_had_failures then false else true
