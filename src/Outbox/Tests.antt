-- ===== src/Outbox/Tests.antt =====
-- Runs of the outbox, and its theorems at concrete inputs. An envelope is a number.
use ts_commons.Base.{
  ℕ, zero, suc, String, ◌≡◌, ◌≢◌, refl, none, some, List, [], ◌∷◌, ◌++◌, arith, All, true, false,
  dec_str,
}
use text.Mathlib.TextEquality.{eq_iff}
use ts_commons.Base.JsMap.{JsMap, get, set}
use ts_commons.Outbox.Store
use ts_commons.Outbox.Store.{OutboxMessage}
use ts_commons.Outbox.Store.Keyed
use ts_commons.Outbox.Inbox
use ts_commons.Outbox.Relay
use ts_commons.Outbox.Relay.{OutboxRelay, OutboxRelayOptions, Surroundings}
use ts_commons.Outbox.Relay.Batch
use ts_commons.Outbox.Relay.Starvation
use ts_commons.Outbox.Relay.Overlap
use ts_commons.Outbox.Relay.Overlap.{Event, Cycle}
use ts_commons.Outbox.Relay.Overlap.Published
use ts_commons.Outbox.Relay.Overlap.Marks.{IsOut}
use ts_commons.Outbox.Relay.Overlap.Quiet.{AllQuiet}

abbrev fresh_message : OutboxMessage ℕ
fresh_message = record {
  id = "m1";
  event_envelope = 11;
  created_at = 0;
  published_at = none;
  attempts = 0;
  last_attempt_at = none;
  error = none;
}

abbrev tired_message : OutboxMessage ℕ
tired_message = record fresh_message { id = "m2"; event_envelope = 12; attempts = 3 }

abbrev sent_message : OutboxMessage ℕ
sent_message = record fresh_message { id = "m3"; event_envelope = 13; published_at = some 4 }

abbrev stored : JsMap (OutboxMessage ℕ)
stored = ("m2", tired_message) ∷ ("m1", fresh_message) ∷ ("m3", sent_message) ∷ []

stored-IsKeyed : Keyed.IsKeyed stored
stored-IsKeyed = (
  (refl, (refl, (refl, tt))),
  (
    ((ground (arith, eq_iff "m2" "m1")), ((ground (arith, eq_iff "m2" "m3")), tt)),
    (((ground (arith, eq_iff "m1" "m3")), tt), (tt, tt)),
  ),
)

abbrev options : OutboxRelayOptions
options = record { poll_interval_ms = 10; batch_size = 2; max_attempts = 3; backoff_base_ms = 10 }

-- The publisher fulfils its first call and rejects the next.
abbrev first_works : Surroundings
first_works = record {
  checked_at = λ i. 100;
  marked_at = λ i. 101;
  answer = λ i. elim i [ zero ↦ none | suc n ↦ some "down" ];
}

abbrev relay : OutboxRelay ℕ
relay = record {
  store = stored;
  metrics = record { published = 0; failed = 0; skipped = 0 };
  sent = [];
  last_run_had_failures = false;
  running = true;
}

run_once-relayed_example :
    let batch = Store.get_unpublished stored 2 in
    Batch.AreRelayed options first_works 0 batch (Relay.run_once options first_works relay).store
    × ((j : String)
        → All (λ m. m.id ≢ j) batch
        → get j (Relay.run_once options first_works relay).store ≡ get j stored)
    × ((Relay.run_once options first_works relay).sent
        ≡ [] ++ Batch.all_sends options first_works 0 batch)
run_once-relayed_example = Batch.run_once-relayed options first_works relay stored-IsKeyed

-- The second message of the batch is sent, and its publisher rejects.
relay_sends : (Relay.run_once options first_works relay).sent ≡ 11 ∷ []
unfolding Relay.run_once Store.get_unpublished
relay_sends = refl

-- Two cycles read the same batch; the first has called the publisher for its second message.
abbrev two_cycles : List (Event ℕ)
two_cycles =
    Overlap.starts
    ∷ Overlap.starts
    ∷ Overlap.resumes 0 (λ i. 100)
    ∷ Overlap.resumes 0 (λ i. 101)
    ∷ []

-- The second one calls the publisher for it too, and is refused; then a third starts.
abbrev then_late : List (Event ℕ)
then_late =
    Overlap.resumes 1 (λ i. 102)
    ∷ Overlap.resumes 1 (λ i. 103)
    ∷ Overlap.settles 1 (some "late") 104
    ∷ Overlap.starts
    ∷ Overlap.resumes 2 (λ i. 105)
    ∷ []

sent_twice :
    (Overlap.run options
      (Overlap.initial stored)
      (two_cycles ++ Overlap.settles 0 none 101 ∷ then_late)).1
    ≡ (0, fresh_message) ∷ (1, fresh_message) ∷ []
unfolding Overlap.run Overlap.step Overlap.advance Overlap.put Store.get_unpublished
    Store.mark_as_failed Store.mark_as_published get set dec_str
sent_twice = refl

abbrev waiting : Cycle ℕ
waiting = record { stage = Overlap.publishing fresh_message; rest = []; had_failures = false }

waits : (Overlap.run options (Overlap.initial stored) two_cycles).0.cycles 0 ≡ some waiting
unfolding Overlap.run Overlap.step Overlap.advance Overlap.put Store.get_unpublished
    Store.mark_as_failed get set dec_str
waits = refl

still_stored :
    get "m1" (Overlap.run options (Overlap.initial stored) two_cycles).0.store ≡ some fresh_message
unfolding Overlap.run Overlap.step Overlap.advance Overlap.put Store.get_unpublished
    Store.mark_as_failed get set dec_str
still_stored = refl

never_again_example :
    let w = (Overlap.run options (Overlap.initial stored) two_cycles).0 in
    let w' = (Overlap.step options w (Overlap.settles 0 none 101)).0 in
    IsOut "m1" (Overlap.run options w' then_late).0.store
    × AllQuiet "m1" w.next_cycle (Overlap.run options w' then_late).1
never_again_example =
    Published.never_again options stored two_cycles then_late 0 101 waiting fresh_message
      fresh_message stored-IsKeyed waits refl still_stored tt

-- A batch of one, which the dead message fills.
abbrev narrow : OutboxRelayOptions
narrow = record options { batch_size = 1 }

tired_batch : Store.get_unpublished stored 1 ≡ tired_message ∷ []
unfolding Store.get_unpublished
tired_batch = refl

All-IsDead : All (Starvation.IsDead narrow) (Store.get_unpublished stored 1)
unfolding Store.get_unpublished
All-IsDead = (omega arith, tt)

IsDead-batch_starves_example :
    ((Starvation.run_cycles narrow (first_works ∷ first_works ∷ []) relay).sent ≡ [])
    × All (Starvation.IsDead narrow) (
        Store.get_unpublished
          (Starvation.run_cycles narrow (first_works ∷ first_works ∷ []) relay).store
          1)
IsDead-batch_starves_example =
    Starvation.IsDead-batch_starves narrow (first_works ∷ first_works ∷ []) relay All-IsDead

abbrev received : Inbox.InboxMessage ℕ
received = record {
  id = "i1";
  event_envelope = record {
    event_id = "e1";
    event_type = "order.created";
    event_version = "1";
    timestamp = "2024-01-01T00:00:00Z";
    correlation_id = none;
    causation_id = none;
    tenant_id = none;
    payload = 7;
    metadata = none;
  };
  received_at = 3;
  processed_at = none;
}

abbrev inbox_calls : List (Inbox.Call ℕ)
inbox_calls = Inbox.saves received ∷ Inbox.processes 5 "i1" ∷ []
