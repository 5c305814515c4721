-- ===== src/Process/Tests.antt =====
-- Runs of the process parts at concrete inputs.
use ts_commons.Base.{
  ℕ, ◌≡◌, ◌==◌, ◌↔◌, refl, true, none, some, List, [], ◌∷◌, dec_str, arith, if◌then◌else◌,
}
use ts_commons.Kernel.Result.{ok, err}
use ts_commons.Process.Lifecycle
use ts_commons.Process.Lifecycle.{Call}
use ts_commons.Process.Lifecycle.Reachable.{Reaches, states_exactly}
use ts_commons.Base.JsMap.{get, set, delete}
use ts_commons.Process.StateMachine
use ts_commons.Process.StateMachine.{TransitionRule}
use ts_commons.Process.Timeouts
use ts_commons.Process.Timeouts.{Pending}
use ts_commons.Process.Store
use ts_commons.Process.Store.{ProcessStore, ProcessState}

abbrev order_rules : List (TransitionRule ℕ)
order_rules =
    record { origin = 1; target = 2 }
    ∷ record { origin = 1; target = 4 }
    ∷ record { origin = 2; target = 3 }
    ∷ []

allowed_from_one : StateMachine.get_allowed_transitions ◌==◌ order_rules 1 ≡ 2 ∷ 4 ∷ []
unfolding StateMachine.get_allowed_transitions
allowed_from_one = refl

abbrev two_timeouts : Pending
two_timeouts = Timeouts.schedule (Timeouts.schedule [] 100 "p1" 50 7) 100 "p2" 500 8

only_first_fires : (Timeouts.tick two_timeouts 150).1 ≡ 7 ∷ []
unfolding Timeouts.tick Timeouts.schedule set delete dec_str
only_first_fires = refl

abbrev order_process : ProcessState ℕ
order_process = record {
  id = "p1";
  name = "order";
  status = Store.running;
  current_state = 1;
  started_at = 0;
  updated_at = 0;
  correlation_id = some "c1";
  timeout_at = none;
  error = none;
}

abbrev no_processes : ProcessStore ℕ
no_processes = record { by_id = []; by_correlation = [] }

-- Removed after its correlation id has changed, a process leaves its old one in the index.
stale_index :
    (Store.remove
      (Store.save
        (Store.save no_processes order_process)
        (record order_process { correlation_id = some "c2" }))
      "p1").by_correlation
    ≡ ("c1", "p1") ∷ []
unfolding Store.remove Store.save get set delete dec_str
stale_index = refl

same_sound : (m n : ℕ) → (m == n) ≡ true → m ≡ n
same_sound m n e = ground (arith, e)

same_self : (n : ℕ) → (n == n) ≡ true
same_self n = ground arith

states_exactly_example :
    let p = Lifecycle.begin {T = ℕ} "order" 1 "u" 0 none (some "c1") in
    ((b : ℕ)
      → Reaches order_rules 1 b
        ↔ ((cs : List (Call ℕ)) × ((Lifecycle.run ◌==◌ order_rules p cs).current_state ≡ b)))
    × ((q : ProcessState ℕ) (later : ℕ) (to : ℕ)
        → Lifecycle.transition ◌==◌ order_rules q later to ≡ (
            if StateMachine.can_transition ◌==◌ order_rules q.current_state to
            then (record q { current_state = to; updated_at = later }, ok tt)
            else (q, err (q.current_state, to))))
states_exactly_example =
    states_exactly ◌==◌ same_sound same_self order_rules "order" "u" 1 0 none (some "c1")
