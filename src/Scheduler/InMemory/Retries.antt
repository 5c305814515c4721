-- ===== src/Scheduler/InMemory/Retries.antt =====
-- `runWithRetries`: the job is given by what its promise settles to at each attempt number, `none`
-- for fulfilled and the error's message for rejected.
use ts_commons.Base.{
  ℕ, zero, suc, ◌+◌, ◌*◌, ◌^◌, ◌≤◌, String, ◌≡◌, refl, ap, ◌∙◌, Option, none, some, List, [], ◌∷◌,
  arith, ◌⊎◌, inl, inr, Option-cases,
}
use ts_commons.Scheduler.InMemory.{Outcome, fulfils, rejects}

-- The outcome, the number of calls of the job, and the delays that were waited for.
pub record RetryTrace : Type 0 where
  pub outcome : Outcome
  pub calls : ℕ
  pub delays : List ℕ

module _ (fn : ℕ → Option String) (backoff_ms : ℕ) where
  -- The `for` loop from an attempt on, with `left` retries behind it.
  unfoldable pub loop : ℕ → ℕ → RetryTrace
  loop zero attempt = elim (fn (attempt + 1)) [
    | none ↦ record { outcome = fulfils; calls = 1; delays = [] }
    | some e ↦ record { outcome = rejects e; calls = 1; delays = [] }
  ]
  loop (suc left) attempt =
      let rest = loop left (attempt + 1) in
      elim (fn (attempt + 1)) [
        | none ↦ record { outcome = fulfils; calls = 1; delays = [] }
        | some e ↦ record rest {
          calls = rest.calls + 1;
          delays = backoff_ms * 2 ^ attempt ∷ rest.delays;
        }
      ]

  unfoldable pub run_with_retries : ℕ → RetryTrace
  unfolding loop
  run_with_retries max_retries = loop max_retries 0

  -- The job rejects at `k` attempts, after the first `attempt` ones.
  abbrev pub AllReject : ℕ → ℕ → Type 0
  AllReject attempt zero = Unit {0}
  AllReject attempt (suc k) =
      ((e : String) × (fn (attempt + 1) ≡ some e)) × AllReject (attempt + 1) k

  abbrev pub doubling : ℕ → ℕ → List ℕ
  doubling attempt zero = []
  doubling attempt (suc k) = backoff_ms * 2 ^ attempt ∷ doubling (attempt + 1) k

  -- How the loop ends, after `k` attempts that reject.
  abbrev pub Ends : ℕ → ℕ → RetryTrace → Type 0
  Ends left attempt t =
      (k : ℕ) × AllReject attempt k
      × (t.calls ≡ k + 1)
      × (t.delays ≡ doubling attempt k)
      × (((k ≤ left) × (fn (attempt + k + 1) ≡ none) × (t.outcome ≡ fulfils))
          ⊎ ((k ≡ left)
              × ((e : String) × (fn (attempt + k + 1) ≡ some e) × (t.outcome ≡ rejects e))))

  stops :
      (left attempt : ℕ)
      → fn (attempt + 1) ≡ none
      → Ends left attempt (record { outcome = fulfils; calls = 1; delays = [] })
  stops left attempt h =
      let e : attempt + 0 + 1 ≡ attempt + 1 = omega arith in
      (0, tt, omega arith, refl, inl (omega arith, ap fn e ∙ h, refl))

  gives_up :
      (attempt : ℕ) (error : String)
      → fn (attempt + 1) ≡ some error
      → Ends 0 attempt (record { outcome = rejects error; calls = 1; delays = [] })
  gives_up attempt error h =
      let e : attempt + 0 + 1 ≡ attempt + 1 = omega arith in
      (0, tt, omega arith, refl, inr (refl, (error, ap fn e ∙ h, refl)))

  again :
      (left attempt : ℕ) (error : String) (t : RetryTrace)
      → fn (attempt + 1) ≡ some error
      → Ends left (attempt + 1) t
      → Ends
          (suc left)
          attempt
          (record t { calls = t.calls + 1; delays = backoff_ms * 2 ^ attempt ∷ t.delays })
  again left attempt error t h (k, rejected, calls, delays, last) =
      let e : attempt + suc k + 1 ≡ attempt + 1 + k + 1 = omega arith in
      (
        suc k,
        ((error, h), rejected),
        omega (arith, calls),
        ap (λ l. backoff_ms * 2 ^ attempt ∷ l) delays,
        elim last [
          | inl (le, f, o) ↦ inl (omega (arith, le), ap fn e ∙ f, o)
          | inr (eq, (error', f, o)) ↦ inr (ap (λ n. suc n) eq, (error', ap fn e ∙ f, o))
        ],
      )

  loop-Ends : (left attempt : ℕ) → Ends left attempt (loop left attempt)
  unfolding loop
  loop-Ends zero attempt = elim (Option-cases (fn (attempt + 1))) [
    | inl h ↦ rw (h, loop) (stops 0 attempt h)
    | inr (e, h) ↦ rw (h, loop) (gives_up attempt e h)
  ]
  loop-Ends (suc left) attempt =
      let rest = loop-Ends left (attempt + 1) in
      elim (Option-cases (fn (attempt + 1))) [
        | inl h ↦ rw (h, loop) (stops (suc left) attempt h)
        | inr (e, h) ↦ rw (h, loop) (again left attempt e (loop left (attempt + 1)) h rest)
      ]

  -- The job is tried until it fulfils, at most `maxRetries + 1` times; before the attempt that
  -- follows the i-th rejected one, counted from 0, the delay is `backoffMs * 2 ** i`; and when all
  -- attempts reject the outcome is the last one's error.
  pub run_with_retries-Ends : (max_retries : ℕ) → Ends max_retries 0 (run_with_retries max_retries)
  unfolding run_with_retries
  run_with_retries-Ends max_retries = loop-Ends max_retries 0
