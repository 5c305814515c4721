-- ===== src/Outbox/Relay/Batch.antt =====
-- What one poll cycle does to each message of its batch, and to the others.
use ts_commons.Base.{
  ℕ, ◌+◌, String, ◌≡◌, ◌≢◌, refl, sym, ap, ◌∙◌, Option, none, some, Bool, false, List, [], ◌∷◌,
  ◌++◌, arith, All, All-map, All-both, Option-cases, inl, inr, if◌then◌else◌, append_assoc,
  append-nil,
}
use ts_commons.Base.JsMap.{JsMap, get, get-set_self, get-set_ne}
use ts_commons.Outbox.Store.{
  OutboxMessage, get_unpublished, mark_as_published, mark_as_failed, published, failed,
}
use ts_commons.Outbox.Store.Keyed.{IsKeyed, HaveOwnIds, IsStored, batch-HaveOwnIds, batch-IsStored}
use ts_commons.Outbox.Relay.{
  OutboxRelayOptions, OutboxRelay, Surroundings, is_dead, is_backing_off, process_one, process_all,
  run_once,
}

module _ {V : Type 0} where
  get-mark_as_failed :
      (m : JsMap (OutboxMessage V)) (now : ℕ) (id error : String) (msg : OutboxMessage V)
      → get id m ≡ some msg
      → get id (mark_as_failed m now id error) ≡ some (failed msg now error)
  unfolding mark_as_failed
  get-mark_as_failed m now id error msg h =
      rw (h, mark_as_failed) (get-set_self id (failed msg now error) m)

  get-mark_as_published :
      (m : JsMap (OutboxMessage V)) (now : ℕ) (id : String) (msg : OutboxMessage V)
      → get id m ≡ some msg
      → get id (mark_as_published m now id) ≡ some (published msg now)
  unfolding mark_as_published
  get-mark_as_published m now id msg h =
      rw (h, mark_as_published) (get-set_self id (published msg now) m)

  get-mark_as_failed_ne :
      (m : JsMap (OutboxMessage V)) (now : ℕ) (id j error : String)
      → id ≢ j
      → get j (mark_as_failed m now id error) ≡ get j m
  unfolding mark_as_failed
  get-mark_as_failed_ne m now id j error h = elim (Option-cases (get id m)) [
    | inl e ↦ rw (e, mark_as_failed)
    | inr (msg, e) ↦ rw (e, mark_as_failed) (get-set_ne id j (failed msg now error) m h)
  ]

  get-mark_as_published_ne :
      (m : JsMap (OutboxMessage V)) (now : ℕ) (id j : String)
      → id ≢ j
      → get j (mark_as_published m now id) ≡ get j m
  unfolding mark_as_published
  get-mark_as_published_ne m now id j h = elim (Option-cases (get id m)) [
    | inl e ↦ rw (e, mark_as_published)
    | inr (msg, e) ↦ rw (e, mark_as_published) (get-set_ne id j (published msg now) m h)
  ]

module _ {V : Type 0} (o : OutboxRelayOptions) (env : Surroundings) where
  -- What a cycle does with the i-th message of its batch, from the message alone.
  pub relayed : ℕ → OutboxMessage V → OutboxMessage V
  relayed i msg =
      if is_dead o msg
      then failed msg (env.marked_at i) "max attempts exceeded"
      else (if is_backing_off o msg (env.checked_at i) then msg else elim (env.answer i) [
        | none ↦ published msg (env.marked_at i)
        | some error ↦ failed msg (env.marked_at i) error
      ])

  -- The calls of the publisher for it.
  pub sends : ℕ → OutboxMessage V → List V
  sends i msg =
      if is_dead o msg
      then []
      else (if is_backing_off o msg (env.checked_at i) then [] else msg.event_envelope ∷ [])

  module _ (r : OutboxRelay V) (had : Bool) (i : ℕ) (msg : OutboxMessage V) where
    abbrev processed : OutboxRelay V
    processed = (process_one o env r had i msg).0

    process_one_self :
        get msg.id r.store ≡ some msg → get msg.id processed.store ≡ some (relayed i msg)
    unfolding process_one relayed
    process_one_self h = by_answer (env.answer i) refl
      where
        by_answer :
            (a : Option String)
            → env.answer i ≡ a
            → get msg.id processed.store ≡ some (relayed i msg)
        by_answer none e = ground (
          arith,
          get-mark_as_failed r.store (env.marked_at i) msg.id "max attempts exceeded" msg h,
          get-mark_as_published r.store (env.marked_at i) msg.id msg h,
        )
        by_answer (some x) e = ground (
          arith,
          get-mark_as_failed r.store (env.marked_at i) msg.id "max attempts exceeded" msg h,
          get-mark_as_failed r.store (env.marked_at i) msg.id x msg h,
        )

    process_one_other : (j : String) → msg.id ≢ j → get j processed.store ≡ get j r.store
    unfolding process_one
    process_one_other j h = by_answer (env.answer i) refl
      where
        by_answer : (a : Option String) → env.answer i ≡ a → get j processed.store ≡ get j r.store
        by_answer none e = ground (
          arith,
          get-mark_as_failed_ne r.store (env.marked_at i) msg.id j "max attempts exceeded" h,
          get-mark_as_published_ne r.store (env.marked_at i) msg.id j h,
        )
        by_answer (some x) e = ground (
          arith,
          get-mark_as_failed_ne r.store (env.marked_at i) msg.id j "max attempts exceeded" h,
          get-mark_as_failed_ne r.store (env.marked_at i) msg.id j x h,
        )

    process_one-sends : processed.sent ≡ r.sent ++ sends i msg
    unfolding process_one sends
    process_one-sends = ground (arith, append-nil r.sent)

  -- Each message of the batch, counted from `i`, as the cycle leaves it in the store.
  abbrev pub AreRelayed : ℕ → List (OutboxMessage V) → JsMap (OutboxMessage V) → Type 0
  AreRelayed i [] m = Unit {0}
  AreRelayed i (msg ∷ msgs) m = (get msg.id m ≡ some (relayed i msg)) × AreRelayed (i + 1) msgs m

  abbrev pub all_sends : ℕ → List (OutboxMessage V) → List V
  all_sends i [] = []
  all_sends i (msg ∷ msgs) = sends i msg ++ all_sends (i + 1) msgs

  process_all-relayed :
      (r : OutboxRelay V) (had : Bool) (i : ℕ) (msgs : List (OutboxMessage V))
      → HaveOwnIds msgs
      → All (IsStored r.store) msgs
      → AreRelayed i msgs (process_all o env r had i msgs).0.store
        × ((j : String)
            → All (λ m. m.id ≢ j) msgs
            → get j (process_all o env r had i msgs).0.store ≡ get j r.store)
        × ((process_all o env r had i msgs).0.sent ≡ r.sent ++ all_sends i msgs)
  unfolding process_all
  process_all-relayed r had i [] own stored = (tt, λ j a. refl, sym (append-nil r.sent))
  process_all-relayed r had i (msg ∷ msgs) own stored =
      let r' = (process_one o env r had i msg).0 in
      let still_stored : All (IsStored r'.store) msgs =
        All-map (λ m. (msg.id ≢ m.id) × IsStored r.store m) msgs
          (λ m h. process_one_other r had i msg m.id h.0 ∙ h.1)
          (All-both (λ m. msg.id ≢ m.id) (IsStored r.store) msgs own.0 stored.1) in
      let (relayed_rest, others, sent) =
        process_all-relayed r' (process_one o env r had i msg).1 (i + 1) msgs own.1 still_stored in
      (
        (
          others msg.id (All-map (λ m. msg.id ≢ m.id) msgs (λ m h e. h (sym e)) own.0)
              ∙ process_one_self r had i msg stored.0,
          relayed_rest,
        ),
        λ j a. others j a.1 ∙ process_one_other r had i msg j a.0,
        sent
            ∙ ap (λ s. s ++ all_sends (i + 1) msgs) (process_one-sends r had i msg)
            ∙ append_assoc r.sent (sends i msg) (all_sends (i + 1) msgs),
      )

  -- In a store where each message stands once, under its id, a poll cycle leaves the i-th message of
  -- its batch as the message alone determines: failed once more when its attempts are used up,
  -- untouched while it backs off, and otherwise published or failed as the publisher answers. No
  -- other entry changes, and the publisher is called for the messages of the last kind, in order.
  pub run_once-relayed :
      (r : OutboxRelay V)
      → IsKeyed r.store
      → let batch = get_unpublished r.store o.batch_size in
        AreRelayed 0 batch (run_once o env r).store
        × ((j : String)
            → All (λ m. m.id ≢ j) batch
            → get j (run_once o env r).store ≡ get j r.store)
        × ((run_once o env r).sent ≡ r.sent ++ all_sends 0 batch)
  unfolding run_once
  run_once-relayed r k =
      process_all-relayed r false 0 (get_unpublished r.store o.batch_size)
        (batch-HaveOwnIds r.store o.batch_size k) (batch-IsStored r.store o.batch_size k)
