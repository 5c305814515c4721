-- ===== src/Outbox/Relay/Overlap/Published.antt =====
-- What overlapping cycles do with a message that has been published.
use ts_commons.Base.{ℕ, ◌≡◌, refl, sym, ◌∙◌, Option, none, some, List, arith}
use ts_commons.Base.JsMap.{JsMap, get}
use ts_commons.Outbox.Store.{OutboxMessage}
use ts_commons.Outbox.Store.Keyed.{IsKeyed, store-IsKeyed}
use ts_commons.Outbox.Relay.{OutboxRelayOptions}
use ts_commons.Outbox.Relay.Overlap.{
  publishing, Cycle, World, Event, settles, initial, settle_cycle, step, run,
}
use ts_commons.Outbox.Relay.Overlap.Marks.{IsOut, marked-IsOut}
use ts_commons.Outbox.Relay.Overlap.Quiet.{Inv, AllQuiet, put-Avoids, SavesOthers, run-Inv}
use ts_commons.Outbox.Relay.Overlap.Fresh.{Fresh, below, run-Fresh}

module _ {V : Type 0} (o : OutboxRelayOptions) where
  -- The step in which the publisher fulfils.
  settles-Inv :
      (w : World V) (c now : ℕ) (cycle : Cycle V) (msg stored : OutboxMessage V)
      → Fresh w
      → w.cycles c ≡ some cycle
      → cycle.stage ≡ publishing msg
      → get msg.id w.store ≡ some stored
      → Inv msg.id w.next_cycle (step o w (settles c none now)).0
  unfolding step
  settles-Inv w c now cycle msg stored f e s g =
      rw (e, step, s, settle_cycle)
        (
          (store-IsKeyed w.store msg now msg.id "" f.0).2,
          marked-IsOut w.store now msg.id stored g,
          omega arith,
          put-Avoids msg.id w.next_cycle c _ w.cycles
              (λ y le q. absurd (omega (arith, le, below w c cycle f e)))
              (λ k y le q. absurd (none-some y (sym (f.1 k le) ∙ q))),
        )
    where
      none-some : (y : Cycle V) → ◌≡◌ {A = Option (Cycle V)} none (some y) → ⊥
      none-some y q = cc q

  -- Cycles start, await and overlap in any way on a store where each message stands once, under its
  -- id, and messages are saved meanwhile. Once the publisher fulfils for a message that is stored,
  -- the message is published, and stays so whatever the cycles in flight still do to it, while
  -- nothing else is saved under its id; and no cycle that starts from then on calls the publisher
  -- for it.
  pub never_again :
      (store : JsMap (OutboxMessage V)) (before after : List (Event V)) (c now : ℕ)
      (cycle : Cycle V) (msg stored : OutboxMessage V)
      → IsKeyed store
      → (run o (initial store) before).0.cycles c ≡ some cycle
      → cycle.stage ≡ publishing msg
      → get msg.id (run o (initial store) before).0.store ≡ some stored
      → SavesOthers msg.id after
      → let w = (run o (initial store) before).0 in
        let w' = (step o w (settles c none now)).0 in
        IsOut msg.id (run o w' after).0.store × AllQuiet msg.id w.next_cycle (run o w' after).1
  never_again store before after c now cycle msg stored k e s g others =
      let w = (run o (initial store) before).0 in
      let f = run-Fresh o (initial store) before (k, λ j le. refl) in
      let (i, quiet) =
        run-Inv o msg.id w.next_cycle (step o w (settles c none now)).0 after others
          (settles-Inv w c now cycle msg stored f e s g) in
      (i.1, quiet)
