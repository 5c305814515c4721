-- ===== src/EventSourcing/Tests.antt =====
-- Event streams and aggregates at concrete inputs: an account whose events are deposits.
use ts_commons.Base.{ℕ, ◌+◌, ◌≡◌, List, [], ◌∷◌}
use ts_commons.Kernel.Result.{ok}
use ts_commons.EventSourcing.Store
use ts_commons.EventSourcing.Store.{EventStore, stream, get_events}
use ts_commons.EventSourcing.Aggregate
use ts_commons.EventSourcing.Reload

-- A handler writes down what it sees.
abbrev notes : ℕ → ℕ → List (ℕ × ℕ) → List (ℕ × ℕ)
notes h e w = (h, e) ∷ w

abbrev accounts : EventStore ℕ
accounts = record { streams = ("a1", 10 ∷ 20 ∷ []) ∷ ("a2", 5 ∷ []) ∷ []; handlers = 1 ∷ [] }

save_reload_example :
    let loaded =
      Aggregate.load_from_history ◌+◌ (Aggregate.new ◌+◌ 0) (get_events accounts "a1" 0) in
    let raised = Reload.raise_all ◌+◌ loaded (30 ∷ []) in
    let (s', w', r) =
      Store.append notes accounts "a1" raised.uncommitted_events loaded.version [] in
    (r ≡ ok tt)
    × (Aggregate.load_from_history ◌+◌ (Aggregate.new ◌+◌ 0) (get_events s' "a1" 0)
        ≡ Aggregate.mark_committed raised)
    × (Aggregate.run_projection ◌+◌ loaded.state (get_events s' "a1" loaded.version) ≡ raised.state)
save_reload_example = Reload.save_reload ◌+◌ notes accounts "a1" 0 (30 ∷ []) []
