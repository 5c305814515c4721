-- ===== src/Outbox/Relay/Overlap/Fresh.antt =====
-- The numbers of the cycles: none is in use before it is given.
use ts_commons.Base.{
  ℕ, ◌+◌, ◌==◌, ◌≤◌, String, ◌≡◌, refl, sym, ap, ◌∙◌, Option, none, some, Bool, false, List, [],
  ◌∷◌, arith, length, Bool-cases, Option-cases, inl, inr, if◌then◌else◌, dec_le, ◌<◌,
}
use ts_commons.Outbox.Store.{OutboxMessage, save}
use ts_commons.Outbox.Store.Keyed.{IsKeyed, store-IsKeyed}
use ts_commons.Outbox.Relay.{OutboxRelayOptions, is_dead, is_backing_off}
use ts_commons.Outbox.Relay.Overlap.{
  Stage, begun, publishing, marking, Cycle, World, Event, starts, resumes, settles, saves,
  record_mark, had_then, put, advance, start_cycle, resume_cycle, settle_cycle, step, run,
}

module _ {V : Type 0} where
  -- No cycle has a number that is still to be given.
  abbrev pub Fresh : World V → Type 0
  Fresh w = IsKeyed w.store × ((k : ℕ) → w.next_cycle ≤ k → w.cycles k ≡ none)

  put_below :
      (n c : ℕ) (x : Option (Cycle V)) (cycles : ℕ → Option (Cycle V))
      → c < n
      → ((k : ℕ) → n ≤ k → cycles k ≡ none)
      → (k : ℕ) → n ≤ k
      → put c x cycles k ≡ none
  unfolding put
  put_below n c x cycles lt h k le =
      let other : (k == c) ≡ false = ground (arith, lt, le) in
      ap (λ b. if b then x else cycles k) other ∙ h k le

  pub below :
      (w : World V) (c : ℕ) (cycle : Cycle V) → Fresh w → w.cycles c ≡ some cycle → c < w.next_cycle
  below w c cycle f e = elim (dec_le w.next_cycle c) [
    | yes le ↦ absurd (none-some (sym (f.1 c le) ∙ e))
    | no g ↦ omega (arith, g)
  ]
    where
      none-some : ◌≡◌ {A = Option (Cycle V)} none (some cycle) → ⊥
      none-some q = cc q

module _ {V : Type 0} (o : OutboxRelayOptions) where
  advance-Fresh :
      (w : World V) (c : ℕ) (had : Bool) (clock : ℕ → ℕ) (rest : List (OutboxMessage V))
      → c < w.next_cycle
      → Fresh w
      → Fresh (advance o w c had clock rest).0
  unfolding advance
  advance-Fresh w c had clock [] lt f = (f.0, put_below w.next_cycle c none w.cycles lt f.1)
  advance-Fresh w c had clock (msg ∷ rest) lt f = elim (Bool-cases (is_dead o msg)) [
    | inl d ↦
        rw (d, advance)
          (
            (store-IsKeyed w.store msg (clock (length rest)) msg.id "max attempts exceeded" f.0).3,
            put_below w.next_cycle c _ w.cycles lt f.1,
          )
    | inr d ↦ elim (Bool-cases (is_backing_off o msg (clock (length rest)))) [
      | inl b ↦ rw (d, b, advance) (advance-Fresh w c had clock rest lt f)
      | inr b ↦ rw (d, b, advance) (f.0, put_below w.next_cycle c _ w.cycles lt f.1)
    ]
  ]

  resume-Fresh :
      (w : World V) (c : ℕ) (clock : ℕ → ℕ) (cycle : Cycle V) (stage : Stage V)
      → c < w.next_cycle
      → cycle.stage ≡ stage
      → Fresh w
      → Fresh (resume_cycle o w c clock cycle).0
  resume-Fresh w c clock cycle begun lt e f =
      rw (e, resume_cycle) (advance-Fresh w c cycle.had_failures clock cycle.rest lt f)
  resume-Fresh w c clock cycle (marking m) lt e f =
      rw (e, resume_cycle)
        (advance-Fresh (record w { metrics = record_mark m w.metrics }) c
          (had_then m cycle.had_failures) clock cycle.rest lt f)
  resume-Fresh w c clock cycle (publishing msg) lt e f = rw (e, resume_cycle) f

  settle-Fresh :
      (w : World V) (c : ℕ) (answer : Option String) (now : ℕ) (cycle : Cycle V) (stage : Stage V)
      → c < w.next_cycle
      → cycle.stage ≡ stage
      → Fresh w
      → Fresh (settle_cycle o w c answer now cycle)
  settle-Fresh w c answer now cycle begun lt e f = rw (e, settle_cycle) f
  settle-Fresh w c answer now cycle (marking m) lt e f = rw (e, settle_cycle) f
  settle-Fresh w c none now cycle (publishing msg) lt e f =
      rw (e, settle_cycle)
        (
          (store-IsKeyed w.store msg now msg.id "" f.0).2,
          put_below w.next_cycle c _ w.cycles lt f.1,
        )
  settle-Fresh w c (some error) now cycle (publishing msg) lt e f =
      rw (e, settle_cycle)
        (
          (store-IsKeyed w.store msg now msg.id error f.0).3,
          put_below w.next_cycle c _ w.cycles lt f.1,
        )

  start-Fresh : (w : World V) → Fresh w → Fresh (start_cycle o w)
  start-Fresh w f = (
    f.0,
    put_below (w.next_cycle + 1) w.next_cycle _ w.cycles (omega arith)
        (λ k le. f.1 k (omega (arith, le))),
  )

  step-Fresh : (w : World V) (e : Event V) → Fresh w → Fresh (step o w e).0
  unfolding step save
  step-Fresh w starts f = start-Fresh w f
  step-Fresh w (saves msg) f = ((store-IsKeyed w.store msg 0 "" "" f.0).1, f.1)
  step-Fresh w (resumes c clock) f = elim (Option-cases (w.cycles c)) [
    | inl e ↦ rw (e, step) f
    | inr (cycle, e) ↦
        rw (e, step) (resume-Fresh w c clock cycle cycle.stage (below w c cycle f e) refl f)
  ]
  step-Fresh w (settles c answer now) f = elim (Option-cases (w.cycles c)) [
    | inl e ↦ rw (e, step) f
    | inr (cycle, e) ↦
        rw (e, step) (settle-Fresh w c answer now cycle cycle.stage (below w c cycle f e) refl f)
  ]

  pub run-Fresh : (w : World V) (es : List (Event V)) → Fresh w → Fresh (run o w es).0
  unfolding run
  run-Fresh w [] f = f
  run-Fresh w (e ∷ es) f = run-Fresh (step o w e).0 es (step-Fresh w e f)
