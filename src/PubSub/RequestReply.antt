-- ===== src/PubSub/RequestReply.antt =====
-- packages/messaging/src/pubsub/RequestReplyBroker.ts. Requests are numbered; a number stands for
-- the `resolve` closure of its promise and for its timer. The timers that are set are the event
-- loop's, and `settled` records what became of the promises.
pub mod Lost
pub mod InFlight
use ts_commons.Base.{
  ℕ, suc, ◌+◌, String, Option, none, some, Bool, true, false, List, [], ◌∷◌, ◌++◌, if◌then◌else◌,
  ◌==◌, keep,
}
use ts_commons.Base.JsMap.{JsMap, get, set, delete, size, keys}

pub data Outcome : Type 0 where
  replied timed_out : Outcome

pub record Timer : Type 0 where
  pub request : ℕ
  pub correlation_id : String

pub record RequestReplyBroker : Type 0 where
  pub pending : JsMap ℕ
  pub timers : List Timer
  pub next_request : ℕ
  pub settled : List (ℕ × Outcome)

unfoldable pub new : RequestReplyBroker
new = record { pending = []; timers = []; next_request = 0; settled = [] }

abbrev pub clear_timeout : ℕ → List Timer → List Timer
clear_timeout n = keep (λ t. if t.request == n then false else true)

unfoldable pub await_reply : RequestReplyBroker → String → RequestReplyBroker
await_reply b correlation_id = record b {
  pending = set correlation_id b.next_request b.pending;
  timers = b.timers ++ record { request = b.next_request; correlation_id = correlation_id } ∷ [];
  next_request = b.next_request + 1;
}

-- The callback of a timer, which fires once.
unfoldable pub on_timeout : RequestReplyBroker → Timer → RequestReplyBroker
on_timeout b t = record b {
  pending = delete t.correlation_id b.pending;
  timers = clear_timeout t.request b.timers;
  settled = b.settled ++ (t.request, timed_out) ∷ [];
}

unfoldable pub deliver : RequestReplyBroker → Option String → RequestReplyBroker × Bool
deliver b none = (b, false)
deliver b (some correlation_id) = elim (get correlation_id b.pending) [
  | none ↦ (b, false)
  | some n ↦ (
    record b {
      pending = delete correlation_id b.pending;
      timers = clear_timeout n b.timers;
      settled = b.settled ++ (n, replied) ∷ [];
    },
    true,
  )
]

unfoldable pub cancel : RequestReplyBroker → String → RequestReplyBroker
cancel b correlation_id = elim (get correlation_id b.pending) [
  | none ↦ b
  | some n ↦ record b {
    pending = delete correlation_id b.pending;
    timers = clear_timeout n b.timers;
  }
]

abbrev pub pending_count : RequestReplyBroker → ℕ
pending_count b = size b.pending

-- The loop of `clearAll` over the keys of the map.
unfoldable pub cancel_each : RequestReplyBroker → List String → RequestReplyBroker
unfolding cancel
cancel_each b [] = b
cancel_each b (id ∷ ids) = cancel_each (cancel b id) ids

unfoldable pub clear_all : RequestReplyBroker → RequestReplyBroker
unfolding cancel_each
clear_all b = cancel_each b (keys b.pending)
