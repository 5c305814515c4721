-- ===== src/EventSourcing/Aggregate.antt =====
-- packages/eventsourcing/src/EventSourcedAggregate.ts, with `apply` of the class that extends it as
-- a parameter on its state, and packages/eventsourcing/src/Projection.ts and Snapshot.ts.
use ts_commons.Base.{ℕ, ◌+◌, String, Option, List, [], ◌∷◌, ◌++◌}
use ts_commons.Base.JsMap.{JsMap, get, set}

pub record EventSourcedAggregate (S V : Type 0) : Type 0 where
  pub state : S
  pub version : ℕ
  pub uncommitted_events : List V

module _ {S V : Type 0} (apply : S → V → S) where
  unfoldable pub new : S → EventSourcedAggregate S V
  new state = record { state = state; version = 0; uncommitted_events = [] }

  unfoldable pub load_from_history : EventSourcedAggregate S V → List V → EventSourcedAggregate S V
  load_from_history a [] = a
  load_from_history a (e ∷ es) =
      load_from_history (record a { state = apply a.state e; version = a.version + 1 }) es

  unfoldable pub raise : EventSourcedAggregate S V → V → EventSourcedAggregate S V
  raise a event = record {
    state = apply a.state event;
    version = a.version + 1;
    uncommitted_events = a.uncommitted_events ++ event ∷ [];
  }

  -- The loop of `ProjectionRunner.run`.
  unfoldable pub run_projection : S → List V → S
  run_projection state [] = state
  run_projection state (e ∷ es) = run_projection (apply state e) es

unfoldable pub mark_committed :
    {S V : Type 0} → EventSourcedAggregate S V → EventSourcedAggregate S V
mark_committed a = record a { uncommitted_events = [] }

pub record Snapshot (S : Type 0) : Type 0 where
  pub aggregate_id : String
  pub version : ℕ
  pub state : S
  pub timestamp : ℕ

unfoldable pub save_snapshot : {S : Type 0} → JsMap (Snapshot S) → Snapshot S → JsMap (Snapshot S)
save_snapshot store snapshot = set snapshot.aggregate_id snapshot store

unfoldable pub find_snapshot : {S : Type 0} → JsMap (Snapshot S) → String → Option (Snapshot S)
find_snapshot store aggregate_id = get aggregate_id store
