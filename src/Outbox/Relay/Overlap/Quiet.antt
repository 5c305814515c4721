-- ===== src/Outbox/Relay/Overlap/Quiet.antt =====
-- A published message, and the cycles that do not reach it.
use ts_commons.Base.{
  ℕ, ◌==◌, ◌≤◌, String, ◌≡◌, ◌≢◌, refl, sym, ap, ◌∙◌, subst, Option, none, some, Bool, false, List,
  [], ◌∷◌, arith, length, All, All-append, Bool-cases, Option-cases, or_else, inl, inr,
  if◌then◌else◌,
}
use ts_commons.Outbox.Store.{OutboxMessage, save, get_unpublished}
use ts_commons.Outbox.Store.Keyed.{IsKeyed, store-IsKeyed, published-batch}
use ts_commons.Outbox.Relay.{OutboxRelayOptions, is_dead, is_backing_off}
use ts_commons.Outbox.Relay.Overlap.{
  as_published, as_failed, as_skipped, Stage, begun, publishing, marking, Cycle, World, Event,
  starts, resumes, settles, saves, record_mark, had_then, put, advance, start_cycle, resume_cycle,
  settle_cycle, step, run,
}
use ts_commons.Outbox.Relay.Overlap.Marks.{IsOut, set-IsOut, published-IsOut, failed-IsOut}

module _ {V : Type 0} where
  -- A cycle from number `n` on has no message of the id before it.
  abbrev pub Avoids : String → ℕ → (ℕ → Option (Cycle V)) → Type 0
  Avoids id n cycles =
      (k : ℕ) (cycle : Cycle V) → n ≤ k → cycles k ≡ some cycle → All (λ m. m.id ≢ id) cycle.rest

  -- The id is published, and no cycle from number `n` on reaches it.
  abbrev pub Inv : String → ℕ → World V → Type 0
  Inv id n w = IsKeyed w.store × IsOut id w.store × (n ≤ w.next_cycle) × Avoids id n w.cycles

  -- What is told names the id in no call of a cycle from number `n` on.
  abbrev pub AllQuiet : String → ℕ → List (ℕ × OutboxMessage V) → Type 0
  AllQuiet id n told = All (λ t. n ≤ t.0 → t.1.id ≢ id) told

  pub put-Avoids :
      (id : String) (n c : ℕ) (x : Option (Cycle V)) (cycles : ℕ → Option (Cycle V))
      → ((cycle : Cycle V) → n ≤ c → x ≡ some cycle → All (λ m. m.id ≢ id) cycle.rest)
      → Avoids id n cycles
      → Avoids id n (put c x cycles)
  unfolding put
  put-Avoids id n c x cycles new h k cycle le e = elim (Bool-cases (k == c)) [
    | inl q ↦
        let same : k ≡ c = ground (arith, q) in
        new cycle (subst (λ j. n ≤ j) same le) (sym (ap (λ b. if b then x else cycles k) q) ∙ e)
    | inr q ↦ h k cycle le (sym (ap (λ b. if b then x else cycles k) q) ∙ e)
  ]

  -- A cycle that stays has the messages after its own left.
  put-rest :
      (id : String) (n c : ℕ) (stage : Stage V) (rest : List (OutboxMessage V)) (had : Bool)
      (cycles : ℕ → Option (Cycle V))
      → (n ≤ c → All (λ m. m.id ≢ id) rest)
      → Avoids id n cycles
      → Avoids id n
          (put c (some (record { stage = stage; rest = rest; had_failures = had })) cycles)
  put-rest id n c stage rest had cycles a h =
      put-Avoids id n c _ cycles
        (λ cycle le e.
          subst (λ y. All (λ m. m.id ≢ id) y.rest) (ap (λ y. or_else y cycle) e) (a le))
        h

  -- No message is saved under the id.
  abbrev pub SavesOthers : String → List (Event V) → Type 0
  SavesOthers id [] = Unit {0}
  SavesOthers id (saves msg ∷ es) = (msg.id ≢ id) × SavesOthers id es
  SavesOthers id (starts ∷ es) = SavesOthers id es
  SavesOthers id (resumes c clock ∷ es) = SavesOthers id es
  SavesOthers id (settles c answer now ∷ es) = SavesOthers id es

module _ {V : Type 0} (o : OutboxRelayOptions) where
  advance-Inv :
      (id : String) (n : ℕ) (w : World V) (c : ℕ) (had : Bool) (clock : ℕ → ℕ)
      (rest : List (OutboxMessage V))
      → (n ≤ c → All (λ m. m.id ≢ id) rest)
      → Inv id n w
      → Inv id n (advance o w c had clock rest).0 × AllQuiet id n (advance o w c had clock rest).1
  unfolding advance
  advance-Inv id n w c had clock [] a (k, p, lt, av) =
      ((k, p, lt, put-Avoids id n c none w.cycles (λ cycle le e. cc e) av), tt)
  advance-Inv id n w c had clock (msg ∷ rest) a (k, p, lt, av) =
      let later : n ≤ c → All (λ m. m.id ≢ id) rest = λ le. (a le).1 in
      elim (Bool-cases (is_dead o msg)) [
        | inl d ↦
            rw (d, advance)
              (
                (
                  (store-IsKeyed w.store msg (clock (length rest)) msg.id "max attempts exceeded"
                      k).3,
                  failed-IsOut w.store (clock (length rest)) msg.id id "max attempts exceeded" p,
                  lt,
                  put-rest id n c (marking as_skipped) rest had w.cycles later av,
                ),
                tt,
              )
        | inr d ↦ elim (Bool-cases (is_backing_off o msg (clock (length rest)))) [
          | inl b ↦ rw (d, b, advance) (advance-Inv id n w c had clock rest later (k, p, lt, av))
          | inr b ↦
              rw (d, b, advance)
                (
                  (k, p, lt, put-rest id n c (publishing msg) rest had w.cycles later av),
                  ((λ le. (a le).0), tt),
                )
        ]
      ]

  start-Inv : (id : String) (n : ℕ) (w : World V) → Inv id n w → Inv id n (start_cycle o w)
  start-Inv id n w (k, (m, e, p), lt, av) = (
    k,
    (m, e, p),
    omega (arith, lt),
    put-rest id n w.next_cycle begun (get_unpublished w.store o.batch_size) false w.cycles
        (λ le. published-batch w.store o.batch_size id m k e p) av,
  )

  resume-Inv :
      (id : String) (n : ℕ) (w : World V) (c : ℕ) (clock : ℕ → ℕ) (cycle : Cycle V)
      → (stage : Stage V) → w.cycles c ≡ some cycle
      → cycle.stage ≡ stage
      → Inv id n w
      → Inv id n (resume_cycle o w c clock cycle).0
        × AllQuiet id n (resume_cycle o w c clock cycle).1
  resume-Inv id n w c clock cycle begun at_c e i =
      rw (e, resume_cycle)
        (advance-Inv id n w c cycle.had_failures clock cycle.rest (λ le. i.3 c cycle le at_c) i)
  resume-Inv id n w c clock cycle (marking m) at_c e i =
      rw (e, resume_cycle)
        (advance-Inv id n (record w { metrics = record_mark m w.metrics }) c
          (had_then m cycle.had_failures) clock cycle.rest (λ le. i.3 c cycle le at_c) i)
  resume-Inv id n w c clock cycle (publishing msg) at_c e i = rw (e, resume_cycle) (i, tt)

  settle-Inv :
      (id : String) (n : ℕ) (w : World V) (c : ℕ) (answer : Option String) (now : ℕ)
      (cycle : Cycle V) (stage : Stage V)
      → w.cycles c ≡ some cycle
      → cycle.stage ≡ stage
      → Inv id n w
      → Inv id n (settle_cycle o w c answer now cycle)
  settle-Inv id n w c answer now cycle begun at_c e i = rw (e, settle_cycle) i
  settle-Inv id n w c answer now cycle (marking m) at_c e i = rw (e, settle_cycle) i
  settle-Inv id n w c none now cycle (publishing msg) at_c e (k, p, lt, av) =
      rw (e, settle_cycle)
        (
          (store-IsKeyed w.store msg now msg.id "" k).2,
          published-IsOut w.store now msg.id id p,
          lt,
          put-rest id n c (marking as_published) cycle.rest cycle.had_failures w.cycles
              (λ le. av c cycle le at_c) av,
        )
  settle-Inv id n w c (some error) now cycle (publishing msg) at_c e (k, p, lt, av) =
      rw (e, settle_cycle)
        (
          (store-IsKeyed w.store msg now msg.id error k).3,
          failed-IsOut w.store now msg.id id error p,
          lt,
          put-rest id n c (marking as_failed) cycle.rest cycle.had_failures w.cycles
              (λ le. av c cycle le at_c) av,
        )

  save-Inv :
      (id : String) (n : ℕ) (w : World V) (msg : OutboxMessage V)
      → msg.id ≢ id
      → Inv id n w
      → Inv id n (record w { store = save w.store msg })
  unfolding save
  save-Inv id n w msg ne (k, p, lt, av) = (
    (store-IsKeyed w.store msg 0 id "" k).1,
    set-IsOut id msg.id msg w.store (λ q. absurd (ne q)) p,
    lt,
    av,
  )

  resumed-Inv :
      (id : String) (n : ℕ) (w : World V) (c : ℕ) (clock : ℕ → ℕ)
      → Inv id n w
      → Inv id n (step o w (resumes c clock)).0 × AllQuiet id n (step o w (resumes c clock)).1
  unfolding step
  resumed-Inv id n w c clock i = elim (Option-cases (w.cycles c)) [
    | inl e ↦ rw (e, step) (i, tt)
    | inr (cycle, e) ↦ rw (e, step) (resume-Inv id n w c clock cycle cycle.stage e refl i)
  ]

  settled-Inv :
      (id : String) (n : ℕ) (w : World V) (c : ℕ) (answer : Option String) (now : ℕ)
      → Inv id n w
      → Inv id n (step o w (settles c answer now)).0
        × AllQuiet id n (step o w (settles c answer now)).1
  unfolding step
  settled-Inv id n w c answer now i = elim (Option-cases (w.cycles c)) [
    | inl e ↦ rw (e, step) (i, tt)
    | inr (cycle, e) ↦ rw (e, step) (settle-Inv id n w c answer now cycle cycle.stage e refl i, tt)
  ]

  pub run-Inv :
      (id : String) (n : ℕ) (w : World V) (es : List (Event V))
      → SavesOthers id es
      → Inv id n w
      → Inv id n (run o w es).0 × AllQuiet id n (run o w es).1
  unfolding run
  run-Inv id n w [] s i = (i, tt)
  run-Inv id n w (e ∷ es) s i =
      let now = step-Inv e s in
      let later = run-Inv id n (step o w e).0 es (rest_of e s) now.0 in
      (later.0, All-append (λ t. n ≤ t.0 → t.1.id ≢ id) (step o w e).1 _ now.1 later.1)
    where
      rest_of : (e : Event V) → SavesOthers id (e ∷ es) → SavesOthers id es
      rest_of (saves msg) s = s.1
      rest_of starts s = s
      rest_of (resumes c clock) s = s
      rest_of (settles c answer now) s = s

      step-Inv :
          (e : Event V)
          → SavesOthers id (e ∷ es)
          → Inv id n (step o w e).0 × AllQuiet id n (step o w e).1
      step-Inv starts s = (start-Inv id n w i, tt)
      step-Inv (saves msg) s = (save-Inv id n w msg s.0 i, tt)
      step-Inv (resumes c clock) s = resumed-Inv id n w c clock i
      step-Inv (settles c answer now) s = settled-Inv id n w c answer now i
