-- ===== src/Outbox/Relay/Overlap.antt =====
-- packages/outbox/src/relay/OutboxRelay.ts: poll cycles that overlap. `start` begins a cycle at each
-- tick of its timer, whether or not the one before has ended, and each runs from one await to the
-- next: it awaits the store, and the publisher for as long as that takes. An event is what ends an
-- await, or the start of a cycle, or a message that a use case saves meanwhile. Cycles are numbered
-- in the order of their starts. The clock of an event gives a reading for each number of messages
-- that the cycle has left.
pub mod Marks
pub mod Quiet
pub mod Fresh
pub mod Published
use ts_commons.Base.{
  ℕ, ◌+◌, ◌==◌, String, Option, none, some, Bool, true, false, List, [], ◌∷◌, ◌++◌, length,
  if◌then◌else◌,
}
use ts_commons.Base.JsMap.{JsMap}
use ts_commons.Outbox.Store.{
  OutboxMessage, save, get_unpublished, mark_as_published, mark_as_failed,
}
use ts_commons.Outbox.Relay.{
  OutboxRelayOptions, OutboxRelayMetrics, record_published, record_failed, record_skipped, is_dead,
  is_backing_off,
}

-- What a cycle records when the store has marked its message.
pub data Mark : Type 0 where
  as_published : Mark
  as_failed : Mark
  as_skipped : Mark

-- Where a cycle stands, at an await.
pub data Stage (V : Type 0) : Type 0 where
  begun : Stage V
  publishing : OutboxMessage V → Stage V
  marking : Mark → Stage V

pub record Cycle (V : Type 0) : Type 0 where
  pub stage : Stage V
  pub rest : List (OutboxMessage V)
  pub had_failures : Bool

pub record World (V : Type 0) : Type 0 where
  pub store : JsMap (OutboxMessage V)
  pub metrics : OutboxRelayMetrics
  pub last_run_had_failures : Bool
  pub next_cycle : ℕ
  pub cycles : ℕ → Option (Cycle V)

pub data Event (V : Type 0) : Type 0 where
  starts : Event V
  resumes : ℕ → (ℕ → ℕ) → Event V
  settles : ℕ → Option String → ℕ → Event V
  saves : OutboxMessage V → Event V

abbrev pub record_mark : Mark → OutboxRelayMetrics → OutboxRelayMetrics
record_mark as_published m = record_published m
record_mark as_failed m = record_failed m
record_mark as_skipped m = record_skipped m

-- `hadFailures` after the mark.
abbrev pub had_then : Mark → Bool → Bool
had_then as_published had = had
had_then as_failed had = true
had_then as_skipped had = had

module _ {V : Type 0} where
  abbrev pub initial : JsMap (OutboxMessage V) → World V
  initial store = record {
    store = store;
    metrics = record { published = 0; failed = 0; skipped = 0 };
    last_run_had_failures = false;
    next_cycle = 0;
    cycles = λ c. none;
  }

  unfoldable pub put : ℕ → Option (Cycle V) → (ℕ → Option (Cycle V)) → ℕ → Option (Cycle V)
  put c cycle cycles k = if k == c then cycle else cycles k

module _ {V : Type 0} (o : OutboxRelayOptions) where
  -- The loop of the cycle up to its next await, or to its end; the publisher's calls are told with
  -- the cycle that makes them.
  unfoldable pub advance :
      World V → ℕ → Bool → (ℕ → ℕ) → List (OutboxMessage V) → World V × List (ℕ × OutboxMessage V)
  advance w c had clock [] =
      (record w { last_run_had_failures = had; cycles = put c none w.cycles }, [])
  advance w c had clock (msg ∷ rest) =
      let now = clock (length rest) in
      let next = advance w c had clock rest in
      let failing : Cycle V = record {
        stage = marking as_skipped;
        rest = rest;
        had_failures = had;
      } in
      let sending : Cycle V = record { stage = publishing msg; rest = rest; had_failures = had } in
      if is_dead o msg
      then (
        record w {
          store = mark_as_failed w.store now msg.id "max attempts exceeded";
          cycles = put c (some failing) w.cycles;
        },
        [],
      )
      else (if is_backing_off o msg now
          then next
          else (record w { cycles = put c (some sending) w.cycles }, (c, msg) ∷ []))

  abbrev pub start_cycle : World V → World V
  start_cycle w =
      let cycle : Cycle V = record {
        stage = begun;
        rest = get_unpublished w.store o.batch_size;
        had_failures = false;
      } in
      record w { next_cycle = w.next_cycle + 1; cycles = put w.next_cycle (some cycle) w.cycles }

  -- The store has answered; a cycle that waits for the publisher is not ended so.
  abbrev pub resume_cycle : World V → ℕ → (ℕ → ℕ) → Cycle V → World V × List (ℕ × OutboxMessage V)
  resume_cycle w c clock cycle = elim cycle.stage [
    | publishing msg ↦ (w, [])
    | begun ↦ advance w c cycle.had_failures clock cycle.rest
    | marking m ↦
        advance (record w { metrics = record_mark m w.metrics }) c (had_then m cycle.had_failures)
          clock cycle.rest
  ]

  -- The publisher has answered, for the message that the cycle waits for.
  abbrev pub settle_cycle : World V → ℕ → Option String → ℕ → Cycle V → World V
  settle_cycle w c answer now cycle = elim cycle.stage [
    | begun ↦ w
    | marking m ↦ w
    | publishing msg ↦ elim answer [
      | none ↦
          let marked : Cycle V = record cycle { stage = marking as_published } in
          record w {
            store = mark_as_published w.store now msg.id;
            cycles = put c (some marked) w.cycles;
          }
      | some error ↦
          let marked : Cycle V = record cycle { stage = marking as_failed } in
          record w {
            store = mark_as_failed w.store now msg.id error;
            cycles = put c (some marked) w.cycles;
          }
    ]
  ]

  unfoldable pub step : World V → Event V → World V × List (ℕ × OutboxMessage V)
  unfolding advance
  step w starts = (start_cycle w, [])
  step w (saves msg) = (record w { store = save w.store msg }, [])
  step w (resumes c clock) = elim (w.cycles c) [
    | none ↦ (w, [])
    | some cycle ↦ resume_cycle w c clock cycle
  ]
  step w (settles c answer now) = elim (w.cycles c) [
    | none ↦ (w, [])
    | some cycle ↦ (settle_cycle w c answer now cycle, [])
  ]

  unfoldable pub run : World V → List (Event V) → World V × List (ℕ × OutboxMessage V)
  unfolding step
  run w [] = (w, [])
  run w (e ∷ es) = let (w', told) = step w e in let (w'', more) = run w' es in (w'', told ++ more)
