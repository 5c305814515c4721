-- ===== src/PubSub/MessageFilter.antt =====
-- packages/messaging/src/pubsub/MessageFilter.ts: messages by type, correlation id and a test of the
-- caller's, and a router that lets through what passes. Of an envelope the fields are kept that the
-- filter reads, with its id and payload. The keys of the map of subscribers are the numbers of a
-- counter, each used once. A handler is a number, and each routing comes with those subscribers whose
-- handlers throw or reject for it. A routing has settled before the next call on the router: without
-- that, two that await their handlers can overlap, and tell a subscriber in another order.
pub mod Heard
use ts_commons.Base.{
  ℕ, ◌+◌, ◌==◌, String, Option, none, some, Bool, true, false, not, ◌&&◌, List, [], ◌∷◌, ◌++◌, map,
  keep, some_of, length, dec_str, if◌then◌else◌, ite,
}

pub record EventEnvelope (T : Type 0) : Type 0 where
  pub event_id : String
  pub event_type : String
  pub correlation_id : Option String
  pub payload : T

pub record MessageFilterOptions (T : Type 0) : Type 0 where
  pub allowed_types : Option (List String)
  pub denied_types : Option (List String)
  pub custom_filter : Option (EventEnvelope T → Bool)
  pub correlation_id : Option String

-- `types.includes(t)`
abbrev pub includes : String → List String → Bool
includes t types = some_of (λ s. ite (dec_str s t) true false) types

-- The allowed types and the denied types; an empty list does not count.
abbrev pub is_allowed : Option (List String) → String → Bool
is_allowed none t = true
is_allowed (some []) t = true
is_allowed (some (x ∷ xs)) t = includes t (x ∷ xs)

abbrev pub is_denied : Option (List String) → String → Bool
is_denied none t = false
is_denied (some xs) t = includes t xs

module _ {T : Type 0} where
  unfoldable pub passes_type_checks : MessageFilterOptions T → EventEnvelope T → Bool
  passes_type_checks o e =
      if not (is_allowed o.allowed_types e.event_type)
      then false
      else (if is_denied o.denied_types e.event_type then false else true)

  unfoldable pub passes_correlation_check : MessageFilterOptions T → EventEnvelope T → Bool
  passes_correlation_check o e = elim o.correlation_id [
    | none ↦ true
    | some c ↦ elim e.correlation_id [ none ↦ false | some d ↦ ite (dec_str d c) true false ]
  ]

  unfoldable pub passes_custom_filter : MessageFilterOptions T → EventEnvelope T → Bool
  passes_custom_filter o e = elim o.custom_filter [ none ↦ true | some f ↦ f e ]

  unfoldable pub passes : MessageFilterOptions T → EventEnvelope T → Bool
  passes o e = passes_type_checks o e && passes_correlation_check o e && passes_custom_filter o e

  unfoldable pub filter : MessageFilterOptions T → List (EventEnvelope T) → List (EventEnvelope T)
  filter o es = keep (passes o) es

-- The subscribers with their ids, and the next id.
pub record FilteredRouter (T : Type 0) : Type 0 where
  pub options : MessageFilterOptions T
  pub subscribers : List (ℕ × ℕ)
  pub next_id : ℕ

-- A call on the router; a routing comes with whether each subscriber's handler fails.
pub data Call (T : Type 0) : Type 0 where
  subscribes : ℕ → Call T
  unsubscribes : ℕ → Call T
  routes : EventEnvelope T → (ℕ → Bool) → Call T

module _ {T : Type 0} where
  abbrev pub new : MessageFilterOptions T → FilteredRouter T
  new o = record { options = o; subscribers = []; next_id = 1 }

  -- The router, and the id that the function to unsubscribe holds.
  unfoldable pub subscribe : FilteredRouter T → ℕ → FilteredRouter T × ℕ
  subscribe r h = (
    record r { subscribers = r.subscribers ++ (r.next_id, h) ∷ []; next_id = r.next_id + 1 },
    r.next_id,
  )

  unfoldable pub unsubscribe : FilteredRouter T → ℕ → FilteredRouter T
  unsubscribe r id = record r { subscribers = keep (λ s. not (s.0 == id)) r.subscribers }

  -- The loop over the subscribers, which ends with the first whose handler fails: who is called
  -- with what, and whether the promise fulfils.
  unfoldable pub deliver :
      List (ℕ × ℕ) → EventEnvelope T → (ℕ → Bool) → List (ℕ × EventEnvelope T) × Bool
  deliver [] e fails = ([], true)
  deliver ((id, h) ∷ ss) e fails =
      let (told, settled) = deliver ss e fails in
      if fails id then ((id, e) ∷ [], false) else ((id, e) ∷ told, settled)

  unfoldable pub route :
      FilteredRouter T → EventEnvelope T → (ℕ → Bool) → List (ℕ × EventEnvelope T) × Bool
  unfolding deliver
  route r e fails = if passes r.options e then deliver r.subscribers e fails else ([], true)

  abbrev pub subscriber_count : FilteredRouter T → ℕ
  subscriber_count r = length r.subscribers

  abbrev pub step : FilteredRouter T → Call T → FilteredRouter T × List (ℕ × EventEnvelope T)
  step r (subscribes h) = ((subscribe r h).0, [])
  step r (unsubscribes id) = (unsubscribe r id, [])
  step r (routes e fails) = (r, (route r e fails).0)

  unfoldable pub run :
      FilteredRouter T → List (Call T) → FilteredRouter T × List (ℕ × EventEnvelope T)
  run r [] = (r, [])
  run r (c ∷ cs) = let (r', told) = step r c in let (r'', more) = run r' cs in (r'', told ++ more)
