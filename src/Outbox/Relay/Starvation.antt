-- ===== src/Outbox/Relay/Starvation.antt =====
-- A message that has used up its attempts is marked as failed at every cycle and stays unpublished,
-- so it keeps its place in the batch.
use ts_commons.Base.{
  ℕ, zero, suc, ◌+◌, ◌≤◌, String, ◌≡◌, refl, sym, subst, some, Bool, false, List, [], ◌∷◌, arith,
  keep, take, All, max, Option-cases, inl, inr,
}
use ts_commons.Base.JsMap.{JsMap, get, set, values}
use ts_commons.Outbox.Store.{
  OutboxMessage, is_unpublished, get_unpublished, mark_as_failed, failed, get_unpublished-take,
}
use ts_commons.Outbox.Relay.{
  OutboxRelayOptions, OutboxRelay, Surroundings, process_one, process_all, run_once,
}

module _ {V : Type 0} (o : OutboxRelayOptions) where
  abbrev pub IsDead : OutboxMessage V → Type 0
  IsDead msg = o.max_attempts ≤ msg.attempts

  -- The first `n` unpublished messages of the list are dead.
  abbrev FrontDead : ℕ → List (OutboxMessage V) → Type 0
  FrontDead n msgs = All IsDead (take n (keep is_unpublished msgs))

  set-FrontDead :
      (n now : ℕ) (id error : String) (m : JsMap (OutboxMessage V)) (msg : OutboxMessage V)
      → get id m ≡ some msg
      → FrontDead n (values m)
      → FrontDead n (values (set id (failed msg now error) m))
  unfolding get set failed
  set-FrontDead n now id error [] msg h d = cc
  set-FrontDead zero now id error ((j, w) ∷ m) msg h d = tt
  set-FrontDead (suc n) now id error ((j, w) ∷ m) msg h d =
      ground (arith, set-FrontDead (suc n) now id error m msg, set-FrontDead n now id error m msg)

  mark_as_failed-FrontDead :
      (n now : ℕ) (id error : String) (m : JsMap (OutboxMessage V))
      → FrontDead n (values m)
      → FrontDead n (values (mark_as_failed m now id error))
  unfolding mark_as_failed
  mark_as_failed-FrontDead n now id error m d = elim (Option-cases (get id m)) [
    | inl e ↦ rw (e, mark_as_failed) d
    | inr (msg, e) ↦ rw (e, mark_as_failed) (set-FrontDead n now id error m msg e d)
  ]

  -- The relay sends nothing over dead messages, and the front of the store stays dead.
  abbrev Stuck : ℕ → OutboxRelay V → List V → Type 0
  Stuck n r sent = FrontDead n (values r.store) × (r.sent ≡ sent)

  process_one-Stuck :
      (env : Surroundings) (n : ℕ) (sent : List V) (r : OutboxRelay V) (had : Bool) (i : ℕ)
      (msg : OutboxMessage V)
      → IsDead msg
      → Stuck n r sent
      → Stuck n (process_one o env r had i msg).0 sent
  unfolding process_one
  process_one-Stuck env n sent r had i msg d s = ground (
    arith,
    mark_as_failed-FrontDead n (env.marked_at i) msg.id "max attempts exceeded" r.store s.0,
  )

  process_all-Stuck :
      (env : Surroundings) (n : ℕ) (sent : List V) (r : OutboxRelay V) (had : Bool) (i : ℕ)
      (msgs : List (OutboxMessage V))
      → All IsDead msgs
      → Stuck n r sent
      → Stuck n (process_all o env r had i msgs).0 sent
  unfolding process_all
  process_all-Stuck env n sent r had i [] d s = s
  process_all-Stuck env n sent r had i (msg ∷ msgs) d s =
      process_all-Stuck env n sent (process_one o env r had i msg).0
        (process_one o env r had i msg).1 (i + 1) msgs d.1
        (process_one-Stuck env n sent r had i msg d.0 s)

  -- Calls of `runOnce`, each awaited before the next, with its clock and its publisher's answers.
  abbrev pub run_cycles : List Surroundings → OutboxRelay V → OutboxRelay V
  run_cycles [] r = r
  run_cycles (env ∷ envs) r = run_cycles envs (run_once o env r)

  run_once-Stuck :
      (env : Surroundings) (sent : List V) (r : OutboxRelay V)
      → Stuck (max 1 o.batch_size) r sent
      → Stuck (max 1 o.batch_size) (run_once o env r) sent
  unfolding run_once
  run_once-Stuck env sent r s =
      process_all-Stuck env (max 1 o.batch_size) sent r false 0
        (get_unpublished r.store o.batch_size)
        (subst (All IsDead) (sym (get_unpublished-take r.store o.batch_size)) s.0) s

  run_cycles-Stuck :
      (envs : List Surroundings) (sent : List V) (r : OutboxRelay V)
      → Stuck (max 1 o.batch_size) r sent
      → Stuck (max 1 o.batch_size) (run_cycles envs r) sent
  run_cycles-Stuck [] sent r s = s
  run_cycles-Stuck (env ∷ envs) sent r s =
      run_cycles-Stuck envs sent (run_once o env r) (run_once-Stuck env sent r s)

  -- Once every message that `getUnpublished` returns has used up its attempts, the relay publishes
  -- nothing in any number of poll cycles, one after another, whatever the clock and the publisher
  -- do, and its batch still holds only such messages: those behind them are never read.
  pub IsDead-batch_starves :
      (envs : List Surroundings) (r : OutboxRelay V)
      → All IsDead (get_unpublished r.store o.batch_size)
      → ((run_cycles envs r).sent ≡ r.sent)
        × All IsDead (get_unpublished (run_cycles envs r).store o.batch_size)
  IsDead-batch_starves envs r d =
      let s =
        run_cycles-Stuck envs r.sent r
          (subst (All IsDead) (get_unpublished-take r.store o.batch_size) d, refl) in
      (
        s.1,
        subst (All IsDead) (sym (get_unpublished-take (run_cycles envs r).store o.batch_size)) s.0,
      )
