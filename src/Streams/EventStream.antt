-- ===== src/Streams/EventStream.antt =====
-- packages/streams/src/EventStream.ts: a hot stream and its subscribers. An observer is known by a
-- number, and by whether it has the two callbacks that may be missing. What the callbacks are called
-- with is a list of deliveries, in order; they do not themselves call the stream.
pub mod Delivered
use ts_commons.Base.{
  ℕ, suc, ◌+◌, ◌==◌, Option, none, some, Bool, true, false, List, [], ◌∷◌, ◌++◌, map, if◌then◌else◌,
  keep, not, length,
}

-- What a stream tells its observers.
pub data Signal (A : Type 0) : Type 0 where
  next : A → Signal A
  error : ℕ → Signal A
  complete : Signal A

pub record Observer : Type 0 where
  pub name : ℕ
  pub has_error : Bool
  pub has_complete : Bool

-- `completed`, `hasError` and `errorState`, of which no two are set at once.
pub data Phase : Type 0 where
  is_open : Phase
  is_completed : Phase
  is_errored : ℕ → Phase

pub record Stream : Type 0 where
  pub subscribers : List (ℕ × Observer)
  pub next_id : ℕ
  pub phase : Phase

-- A callback of an observer, called with a signal.
abbrev pub Delivery : Type 0 → Type 0
Delivery A = Observer × Signal A

abbrev pub new : Stream
new = record { subscribers = []; next_id = 0; phase = is_open }

module _ {A : Type 0} where
  -- The observer's callback for the signal, if it has one.
  abbrev pub to_observer : Signal A → Observer → List (Delivery A)
  to_observer (next v) o = (o, next v) ∷ []
  to_observer (error e) o = if o.has_error then (o, error e) ∷ [] else []
  to_observer complete o = if o.has_complete then (o, complete) ∷ [] else []

  -- The loop over the subscribers.
  unfoldable pub to_all : Signal A → List (ℕ × Observer) → List (Delivery A)
  to_all s [] = []
  to_all s ((id, o) ∷ os) = to_observer s o ++ to_all s os

  -- With the id under which the subscription can be ended, if there is one.
  unfoldable pub subscribe : Stream → Observer → Stream × List (Delivery A) × Option ℕ
  subscribe s o = elim s.phase [
    | is_completed ↦ (s, to_observer complete o, none)
    | is_errored e ↦ (s, to_observer (error e) o, none)
    | is_open ↦ (
      record s { subscribers = s.subscribers ++ (s.next_id, o) ∷ []; next_id = s.next_id + 1 },
      [],
      some s.next_id,
    )
  ]

  unfoldable pub emit : Stream → A → Stream × List (Delivery A)
  unfolding to_all
  emit s v = elim s.phase [ is_open ↦ (s, to_all (next v) s.subscribers) | _ ↦ (s, []) ]

  unfoldable pub fail : Stream → ℕ → Stream × List (Delivery A)
  unfolding to_all
  fail s e = elim s.phase [
    | is_open ↦ (record s { phase = is_errored e }, to_all (error e) s.subscribers)
    | _ ↦ (s, [])
  ]

  unfoldable pub finish : Stream → Stream × List (Delivery A)
  unfolding to_all
  finish s = elim s.phase [
    | is_open ↦ (record s { phase = is_completed }, to_all complete s.subscribers)
    | _ ↦ (s, [])
  ]

  abbrev pub push : Stream → Signal A → Stream × List (Delivery A)
  push s (next v) = emit s v
  push s (error e) = fail s e
  push s complete = finish s

unfoldable pub unsubscribe : Stream → ℕ → Stream
unsubscribe s id = record s { subscribers = keep (λ e. not (e.0 == id)) s.subscribers }

abbrev pub subscriber_count : Stream → ℕ
subscriber_count s = length s.subscribers

-- A call on the stream.
pub data Call (A : Type 0) : Type 0 where
  subscribes : Observer → Call A
  unsubscribes : ℕ → Call A
  pushes : Signal A → Call A

-- The calls in turn, with all that is delivered.
unfoldable pub run : {A : Type 0} → Stream → List (Call A) → Stream × List (Delivery A)
unfolding subscribe unsubscribe emit fail finish
run s [] = (s, [])
run s (subscribes o ∷ cs) =
    let (s', d, _) = subscribe s o in let (s'', ds) = run s' cs in (s'', d ++ ds)
run s (unsubscribes id ∷ cs) = run (unsubscribe s id) cs
run s (pushes x ∷ cs) = let (s', d) = push s x in let (s'', ds) = run s' cs in (s'', d ++ ds)
