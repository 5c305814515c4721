-- ===== src/Process/Lifecycle/Reachable.antt =====
-- The states a process can get into are those that the rules of its machine lead to.
use ts_commons.Base.{
  ℕ, String, ◌≡◌, ◌↔◌, refl, sym, ap, ◌∙◌, subst, Option, Bool, true, false, ◌&&◌, ◌||◌, List, [],
  ◌∷◌, ◌++◌, arith, Bool-cases, inl, inr, if◌then◌else◌,
}
use ts_commons.Kernel.Result.{ok, err}
use ts_commons.Process.StateMachine.{TransitionRule, can_transition, validate_transition}
use ts_commons.Process.Store.{ProcessState}
use ts_commons.Process.Lifecycle.{
  Call, transitions, completes, fails, times_out, sets_timeout_at, begin, transition, step, run,
}

-- A rule leads from the one state to the other.
pub data HasRule {T : Type 0} : List (TransitionRule T) → T → T → Type 0 where
  here :
      {r : TransitionRule T} {rs : List (TransitionRule T)} {a b : T}
      → r.origin ≡ a
      → r.target ≡ b
      → HasRule (r ∷ rs) a b
  there :
      {r : TransitionRule T} {rs : List (TransitionRule T)} {a b : T}
      → HasRule rs a b
      → HasRule (r ∷ rs) a b

-- Rules lead, one after another, from the one state to the other.
pub data Reaches {T : Type 0} (rules : List (TransitionRule T)) (a : T) : T → Type 0 where
  stays : Reaches rules a a
  goes : {b c : T} → Reaches rules a b → HasRule rules b c → Reaches rules a c

both_true : (x y : Bool) → (x && y) ≡ true → (x ≡ true) × (y ≡ true)
both_true true true e = (refl, refl)
both_true true false e = cc e
both_true false y e = cc e

module _ {T : Type 0} (same : T → T → Bool) (same_sound : (x y : T) → same x y ≡ true → x ≡ y)
    (same_refl : (x : T) → same x x ≡ true) where
  can-HasRule :
      (rules : List (TransitionRule T)) (a b : T)
      → can_transition same rules a b ≡ true
      → HasRule rules a b
  unfolding can_transition
  can-HasRule [] a b e = cc e
  can-HasRule (r ∷ rs) a b e = elim (Bool-cases (same r.origin a && same r.target b)) [
    | inl t ↦
        let (o, q) = both_true (same r.origin a) (same r.target b) t in
        here (same_sound r.origin a o) (same_sound r.target b q)
    | inr f ↦ there (can-HasRule rs a b (sym (ap (λ x. x || can_transition same rs a b) f) ∙ e))
  ]

  HasRule-can :
      (rules : List (TransitionRule T)) (a b : T)
      → HasRule rules a b
      → can_transition same rules a b ≡ true
  unfolding can_transition
  HasRule-can [] a b h = elim h [ ]
  HasRule-can (r ∷ rs) a b (here o q) =
      let os : same r.origin a ≡ true =
        subst (λ x. same r.origin x ≡ true) o (same_refl r.origin) in
      let qs : same r.target b ≡ true =
        subst (λ x. same r.target x ≡ true) q (same_refl r.target) in
      ground (arith, os, qs)
  HasRule-can (r ∷ rs) a b (there h) = ground (arith, HasRule-can rs a b h)

  transition_lem :
      (rules : List (TransitionRule T)) (p : ProcessState T) (now : ℕ) (to : T)
      → transition same rules p now to ≡ (
          if can_transition same rules p.current_state to
          then (record p { current_state = to; updated_at = now }, ok tt)
          else (p, err (p.current_state, to)))
  unfolding transition validate_transition
  transition_lem rules p now to = elim (Bool-cases (can_transition same rules p.current_state to)) [
    | inl e ↦ rw (e, transition, validate_transition) refl
    | inr e ↦ rw (e, transition, validate_transition) refl
  ]

  transition-Reaches :
      (rules : List (TransitionRule T)) (a : T) (p : ProcessState T) (now : ℕ) (to : T)
      → Reaches rules a p.current_state
      → Reaches rules a (transition same rules p now to).0.current_state
  transition-Reaches rules a p now to h =
      elim (Bool-cases (can_transition same rules p.current_state to)) [
        | inl e ↦
            rw (transition_lem rules p now to, e) (goes h (can-HasRule rules p.current_state to e))
        | inr e ↦ rw (transition_lem rules p now to, e) h
      ]

  step-Reaches :
      (rules : List (TransitionRule T)) (a : T) (p : ProcessState T) (c : Call T)
      → Reaches rules a p.current_state
      → Reaches rules a (step same rules p c).current_state
  step-Reaches rules a p (transitions now to) h = transition-Reaches rules a p now to h
  step-Reaches rules a p (completes now) h = h
  step-Reaches rules a p (fails now e) h = h
  step-Reaches rules a p (times_out now) h = h
  step-Reaches rules a p (sets_timeout_at now at_time) h = h

  run-Reaches :
      (rules : List (TransitionRule T)) (a : T) (p : ProcessState T) (cs : List (Call T))
      → Reaches rules a p.current_state
      → Reaches rules a (run same rules p cs).current_state
  unfolding run
  run-Reaches rules a p [] h = h
  run-Reaches rules a p (c ∷ cs) h =
      run-Reaches rules a (step same rules p c) cs (step-Reaches rules a p c h)

  run-append :
      (rules : List (TransitionRule T)) (p : ProcessState T) (cs ds : List (Call T))
      → run same rules p (cs ++ ds) ≡ run same rules (run same rules p cs) ds
  unfolding run
  run-append rules p [] ds = refl
  run-append rules p (c ∷ cs) ds = run-append rules (step same rules p c) cs ds

  transition_to :
      (rules : List (TransitionRule T)) (p : ProcessState T) (to : T)
      → HasRule rules p.current_state to
      → (transition same rules p 0 to).0.current_state ≡ to
  transition_to rules p to h =
      rw (transition_lem rules p 0 to, HasRule-can rules p.current_state to h) refl

  Reaches-run :
      (rules : List (TransitionRule T)) (p : ProcessState T) (b : T)
      → Reaches rules p.current_state b
      → (cs : List (Call T)) × ((run same rules p cs).current_state ≡ b)
  unfolding run
  Reaches-run rules p _ stays = ([], refl)
  Reaches-run rules p c (goes {b = b} h rule) =
      let (cs, e) = Reaches-run rules p b h in
      (
        cs ++ transitions 0 c ∷ [],
        ap (λ q. q.current_state) (run-append rules p cs (transitions 0 c ∷ []))
            ∙ transition_to rules (run same rules p cs) c
                (subst (λ x. HasRule rules x c) (sym e) rule),
      )

  -- Where `===` tells equal states, the states that a process which has begun can get into, by any
  -- calls on it, are exactly those that the rules lead to from its initial state; a transition that
  -- no rule allows throws and leaves the process as it is, and any other is made.
  pub states_exactly :
      (rules : List (TransitionRule T)) (name uuid : String) (initial : T) (now : ℕ)
      (id correlation_id : Option String)
      → let p = begin name initial uuid now id correlation_id in
        ((b : T)
          → Reaches rules initial b
            ↔ ((cs : List (Call T)) × ((run same rules p cs).current_state ≡ b)))
        × ((q : ProcessState T) (later : ℕ) (to : T)
            → transition same rules q later to ≡ (
                if can_transition same rules q.current_state to
                then (record q { current_state = to; updated_at = later }, ok tt)
                else (q, err (q.current_state, to))))
  states_exactly rules name uuid initial now id correlation_id =
      let p = begin name initial uuid now id correlation_id in
      (
        λ b. (
          Reaches-run rules p b,
          λ (cs, e). subst (Reaches rules initial) e (run-Reaches rules initial p cs stays),
        ),
        transition_lem rules,
      )
