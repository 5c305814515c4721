-- ===== src/Realtime/Reconnection/Doubling.antt =====
-- How the delays of a handler grow.
use native.Mathlib.Nat.{pow-suc, pow-zero, mul_assoc, suc-mul}
use ts_commons.Base.{
  ℕ, suc, ◌+◌, ◌-◌, ◌*◌, ◌^◌, ◌≡◌, refl, sym, ap, ◌∙◌, subst, min, List, [], ◌∷◌, arith, ltb, ◌==◌,
  or_else, if◌then◌else◌, true,
}
use ts_commons.Realtime.Reconnection.{
  ReconnectionConfig, ReconnectionHandler, fixed, linear, exponential, new, should_retry,
  get_next_delay, schedule, can_retry, Call, schedules, resets, step, run,
}

-- How many delays have been asked for since the last reset.
abbrev pub since_reset : ℕ → List Call → ℕ
since_reset n [] = n
since_reset n (schedules ∷ cs) = since_reset (n + 1) cs
since_reset n (resets ∷ cs) = since_reset 0 cs

run_lem :
    (h : ReconnectionHandler) (cs : List Call)
    → run h cs ≡ record { config = h.config; attempt_count = since_reset h.attempt_count cs }
unfolding run schedule
run_lem h [] = refl
run_lem h (schedules ∷ cs) = run_lem (schedule h).0 cs
run_lem h (resets ∷ cs) = run_lem (record h { attempt_count = 0 }) cs

capped_twice : (a c : ℕ) → min (a * 2) c ≡ min (min a c * 2) c
capped_twice a c = omega arith

doubled : (b n : ℕ) → b * 2 ^ suc n ≡ b * 2 ^ n * 2
doubled b n = rw (pow-suc, mul_assoc)

delay-doubles : (b c n : ℕ) → min (b * 2 ^ suc n) c ≡ min (min (b * 2 ^ n) c * 2) c
delay-doubles b c n = ap (λ d. min d c) (doubled b n) ∙ capped_twice (b * 2 ^ n) c

-- The delay after the first attempt, and the delay that follows one.
abbrev pub first_delay : ReconnectionConfig → ℕ
first_delay config = elim config.strategy [
  | fixed ↦ config.base_delay_ms
  | linear ↦ config.base_delay_ms
  | exponential ↦ min config.base_delay_ms (or_else config.max_delay_ms 30000)
]

abbrev pub following : ReconnectionConfig → ℕ → ℕ
following config d = elim config.strategy [
  | fixed ↦ d
  | linear ↦ d + config.base_delay_ms
  | exponential ↦ min (d * 2) (or_else config.max_delay_ms 30000)
]

exponential_grows :
    (b c n : ℕ) → min (b * 2 ^ (n + 1 + 1 - 1)) c ≡ min (min (b * 2 ^ (n + 1 - 1)) c * 2) c
exponential_grows b c n =
    let p : n + 1 + 1 - 1 ≡ suc n = omega arith in
    let q : n ≡ n + 1 - 1 = omega arith in
    ap (λ k. min (b * 2 ^ k) c) p ∙ delay-doubles b c n ∙ ap (λ k. min (min (b * 2 ^ k) c * 2) c) q

linear_grows : (b n : ℕ) → (n + 1 + 1) * b ≡ (n + 1) * b + b
linear_grows b n =
    let e : n + 1 + 1 ≡ suc (n + 1) = omega arith in ap (λ k. k * b) e ∙ suc-mul (n + 1) b

delay_first : (config : ReconnectionConfig) → get_next_delay config 1 ≡ first_delay config
unfolding get_next_delay
delay_first config =
    elim config.strategy
      as (λ s.
        let c : ReconnectionConfig = record config { strategy = s } in
        get_next_delay c 1 ≡ first_delay c) [
          | fixed ↦ refl
          | linear ↦ omega arith
          | exponential ↦
              ap (λ d. min d (or_else config.max_delay_ms 30000))
                (ap (λ t. config.base_delay_ms * t) (pow-zero 2) ∙ omega arith)
        ]

delay_following :
    (config : ReconnectionConfig) (n : ℕ)
    → get_next_delay config (n + 1 + 1) ≡ following config (get_next_delay config (n + 1))
unfolding get_next_delay
delay_following config n =
    elim config.strategy
      as (λ s.
        let c : ReconnectionConfig = record config { strategy = s } in
        get_next_delay c (n + 1 + 1) ≡ following c (get_next_delay c (n + 1))) [
          | fixed ↦ refl
          | linear ↦ linear_grows config.base_delay_ms n
          | exponential ↦
              exponential_grows config.base_delay_ms (or_else config.max_delay_ms 30000) n
        ]

-- After any calls on a new handler: the delay after a reset is the first one, the delay after any
-- other is the same (fixed), more by the base delay (linear), or twice as long but not above the
-- maximum (exponential); and there is a further attempt exactly if there is no limit, or fewer
-- delays than it were asked for since the last reset.
pub delays_grow :
    (config : ReconnectionConfig) (cs : List Call)
    → let h = run (new config) cs in
      ((schedule (step h resets)).1 ≡ first_delay config)
      × ((schedule (schedule h).0).1 ≡ following config (schedule h).1)
      × (can_retry h
          ≡ (if config.max_attempts == 0 then true else ltb (since_reset 0 cs) config.max_attempts))
unfolding schedule should_retry
delays_grow config cs =
    subst
      (λ h.
        ((schedule (step h resets)).1 ≡ first_delay config)
        × ((schedule (schedule h).0).1 ≡ following config (schedule h).1)
        × (can_retry h ≡ (
            if config.max_attempts == 0 then true else ltb (since_reset 0 cs) config.max_attempts)))
      (sym (run_lem (new config) cs))
      (delay_first config, delay_following config (since_reset 0 cs), refl)
