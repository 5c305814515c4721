-- ===== src/Resilience/Retry/Attempts.antt =====
-- How often `Retry.execute` calls its function, and what it returns or throws.
use ts_commons.Base.{
  ℕ, zero, suc, ◌+◌, ◌-◌, ◌≤◌, ◌<◌, ◌≡◌, refl, ◌⊎◌, inl, inr, Option, none, some, List, [], ◌∷◌,
  ◌++◌, arith, ℕ_discrete, subst, sym,
}
use ts_commons.Kernel.Result.{Result, ok, err}
use ts_commons.Resilience.Retry.{
  NumberOps, RetryPolicy, last_error, retry_failed, Trace, next_delay, loop, execute,
}

module _ {N T E : Type 0} (num : NumberOps N) (fn : ℕ → Result T E) (p : RetryPolicy N) where
  -- The attempts from `first` up to `last`, without it, all reject.
  abbrev pub AllReject : ℕ → ℕ → Type 0
  AllReject first last = (i : ℕ) → first ≤ i → i < last → (e : E) × (fn i ≡ err e)

  abbrev pub Ends : ℕ → Trace N T E → Type 0
  Ends first t =
      ((k : ℕ) × (v : T) × (k < p.max_attempts + 1)
        × (first ≤ k)
        × AllReject first k
        × (fn k ≡ ok v)
        × (t.outcome ≡ ok v)
        × (t.calls + first ≡ suc k))
      ⊎ ((e : E) × AllReject first (suc p.max_attempts)
          × (fn p.max_attempts ≡ err e)
          × (t.outcome ≡ err (last_error e))
          × (t.calls + first ≡ suc p.max_attempts))

  AllReject-extend :
      (first last : ℕ) (e : E)
      → fn first ≡ err e
      → AllReject (suc first) last
      → AllReject first last
  AllReject-extend first last e h all i le lt = elim (ℕ_discrete i first) [
    | yes same ↦ (e, rw same h)
    | no other ↦ all i (omega arith) lt
  ]

  -- The trace of the calls after a rejection, with that call put before them.
  extend :
      (first : ℕ) (e : E) (t : Trace N T E)
      → fn first ≡ err e
      → Ends (suc first) t
      → Ends first (record t { calls = suc t.calls })
  extend first e t h (inl (k, v, a, b, c, d, o, n)) =
      inl (k, v, a, omega arith, AllReject-extend first k e h c, d, o, omega arith)
  extend first e t h (inr (e', c, d, o, n)) =
      inr (e', AllReject-extend first _ e h c, d, o, omega arith)

  abbrev counted : Trace N T E → Trace N T E
  counted t = record t { calls = suc t.calls }

  pub loop-ok :
      (left first : ℕ) (delay : N) (last : Option E) (sleeps : List N) (v : T)
      → fn first ≡ ok v
      → loop num fn p (suc left) first delay last sleeps
        ≡ record { outcome = ok v; calls = 1; sleeps = sleeps }
  unfolding loop
  loop-ok left first delay last sleeps v h = rw (h, loop)

  pub loop_retry :
      (left first : ℕ) (delay : N) (last : Option E) (sleeps : List N) (e : E)
      → fn first ≡ err e
      → 0 < first
      → first < p.max_attempts
      → loop num fn p (suc left) first delay last sleeps
        ≡ counted (
            loop num fn p left
              (suc first)
              (next_delay num p.backoff_multiplier p.max_delay_ms delay)
              (some e)
              (sleeps ++ delay ∷ []))
  unfolding loop
  loop_retry left first delay last sleeps e h p1 p2 = ground arith

  pub loop_last :
      (first : ℕ) (delay : N) (last : Option E) (sleeps : List N) (e : E)
      → fn first ≡ err e
      → first ≡ p.max_attempts
      → loop num fn p 1 first delay last sleeps
        ≡ record { outcome = err (last_error e); calls = 1; sleeps = sleeps }
  unfolding loop
  loop_last first delay last sleeps e h eq = ground arith

  loop-Ends :
      (left first : ℕ) (delay : N) (last : Option E) (sleeps : List N)
      → 0 < first
      → first + left ≡ p.max_attempts
      → (r : Result T E) → fn first ≡ r
      → Ends first (loop num fn p (suc left) first delay last sleeps)
  loop-Ends left first delay last sleeps p1 sum (ok v) h =
      rw (loop-ok left first delay last sleeps v h) (
        inl
          (first, v, omega arith, omega arith, λ i a b. absurd (omega arith), h, refl, omega arith))
  loop-Ends zero first delay last sleeps p1 sum (err e) h =
      let at_end : first ≡ p.max_attempts = omega arith in
      rw (loop_last first delay last sleeps e h at_end) (
        inr (
          e,
          AllReject-extend first _ e h (λ i a b. absurd (omega arith)),
          subst (λ k. fn k ≡ err e) at_end h,
          refl,
          omega arith,
        ))
  loop-Ends (suc left) first delay last sleeps p1 sum (err e) h =
      rw (loop_retry (suc left) first delay last sleeps e h p1 (omega arith)) (
        extend first e
          (loop num fn p (suc left) (suc first)
            (next_delay num p.backoff_multiplier p.max_delay_ms delay) (some e)
            (sleeps ++ delay ∷ []))
          h
          (loop-Ends left (suc first) (next_delay num p.backoff_multiplier p.max_delay_ms delay)
            (some e) (sleeps ++ delay ∷ []) (omega arith) (omega arith) (fn (suc first)) refl))

  -- With at least one attempt allowed, `execute` returns the value of the first attempt that
  -- fulfils, after a call for each attempt up to that one; if all the attempts allowed reject, it
  -- throws the error of the last one, after a call for each. With none allowed it throws its own
  -- error and calls nothing.
  pub execute-Ends :
      (0 < p.max_attempts → Ends 1 (execute num fn p))
      × (p.max_attempts ≡ 0
          → execute num fn p ≡ record { outcome = err retry_failed; calls = 0; sleeps = [] })
  unfolding execute
  execute-Ends = (λ h. some_attempts (p.max_attempts - 1) (omega arith), λ h. rw h)
    where
      some_attempts : (left : ℕ) → p.max_attempts ≡ suc left → Ends 1 (execute num fn p)
      some_attempts left h =
          subst (λ n. Ends 1 (loop num fn p n 1 p.delay_ms none [])) (sym h)
            (loop-Ends left 1 p.delay_ms none [] (omega arith) (omega arith) (fn 1) refl)
