-- ===== src/Outbox/Inbox.antt =====
-- packages/outbox/src/inbox: received messages, and the set of the event ids seen.
use ts_commons.Base.{
  ℕ, String, ◌≡◌, Option, none, some, Bool, true, false, List, [], ◌∷◌, arith, dec_str, ite, ◌||◌,
}
use ts_commons.Base.JsMap.{JsMap, get, has, set, values, get-set}

-- `P` is the type of the values that the source leaves unknown.
pub record EventEnvelope (P : Type 0) : Type 0 where
  pub event_id : String
  pub event_type : String
  pub event_version : String
  pub timestamp : String
  pub correlation_id : Option String
  pub causation_id : Option String
  pub tenant_id : Option String
  pub payload : P
  pub metadata : Option (JsMap P)

pub record InboxMessage (P : Type 0) : Type 0 where
  pub id : String
  pub event_envelope : EventEnvelope P
  pub received_at : ℕ
  pub processed_at : Option ℕ

-- `seenEventIds` is a `Set<string>`: a map to nothing.
pub record InboxStore (P : Type 0) : Type 0 where
  pub messages : JsMap (InboxMessage P)
  pub seen_event_ids : JsMap (Unit {0})

module _ {P : Type 0} where
  unfoldable pub empty : InboxStore P
  empty = record { messages = []; seen_event_ids = [] }

  unfoldable pub is_duplicate : InboxStore P → String → Bool
  is_duplicate s event_id = has event_id s.seen_event_ids

  unfoldable pub save : InboxStore P → InboxMessage P → InboxStore P
  save s message = record {
    messages = set message.id message s.messages;
    seen_event_ids = set message.event_envelope.event_id tt s.seen_event_ids;
  }

  unfoldable pub mark_as_processed : InboxStore P → ℕ → String → InboxStore P
  mark_as_processed s now id = elim (get id s.messages) [
    | none ↦ s
    | some msg ↦ record s { messages = set id (record msg { processed_at = some now }) s.messages }
  ]

  abbrev pub get_all : InboxStore P → List (InboxMessage P)
  get_all s = values s.messages

-- A call on the store.
pub data Call (P : Type 0) : Type 0 where
  saves : InboxMessage P → Call P
  processes : ℕ → String → Call P

module _ {P : Type 0} where
  unfoldable pub run : InboxStore P → List (Call P) → InboxStore P
  unfolding save mark_as_processed
  run s [] = s
  run s (saves m ∷ cs) = run (save s m) cs
  run s (processes now id ∷ cs) = run (mark_as_processed s now id) cs

  -- One of the calls saves a message of the event.
  abbrev pub has_saved : String → List (Call P) → Bool
  has_saved e [] = false
  has_saved e (saves m ∷ cs) = ite (dec_str m.event_envelope.event_id e) true (has_saved e cs)
  has_saved e (processes now id ∷ cs) = has_saved e cs

  is_duplicate-run :
      (s : InboxStore P) (cs : List (Call P)) (e : String)
      → is_duplicate (run s cs) e ≡ (is_duplicate s e || has_saved e cs)
  unfolding run is_duplicate
  is_duplicate-run s [] e = ground arith
  is_duplicate-run s (saves m ∷ cs) e = ground (
    arith,
    is_duplicate-run (save s m) cs e,
    get-set m.event_envelope.event_id e tt s.seen_event_ids,
  )
  is_duplicate-run s (processes now id ∷ cs) e =
      ground (arith, is_duplicate-run (mark_as_processed s now id) cs e)

  -- After any calls on a new store an event id is a duplicate exactly when a message of that event
  -- has been saved, whatever was marked as processed before or after.
  pub is_duplicate-history :
      (cs : List (Call P)) (e : String) → is_duplicate (run empty cs) e ≡ has_saved e cs
  unfolding empty is_duplicate get
  is_duplicate-history cs e = is_duplicate-run empty cs e
