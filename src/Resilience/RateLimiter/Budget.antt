-- ===== src/Resilience/RateLimiter/Budget.antt =====
-- How many tokens a limiter can hand out, and when it must.
use ts_commons.Base.{
  ℕ, ◌+◌, ◌-◌, ◌*◌, min, ◌∙◌, ◌≤◌, ◌≡◌, refl, true, false, List, [], ◌∷◌, arith, if◌then◌else◌, ◌↔◌,
}
use ts_commons.Base.Int.{pos_part, neg_part, scale, min_ℤ, ◌+ℤ◌, ◌-ℤ◌}
use ts_commons.Resilience.RateLimiter.{RateLimiter, Request, new, refill, acquire, run}

-- The tokens granted to the requests, in order.
abbrev pub granted : RateLimiter → List Request → ℕ
granted r [] = 0
granted r (q ∷ qs) =
    let (r', ok) = acquire r q.at q.needed in
    let later = granted r' qs in (if ok then q.needed else 0) + later

-- The requests come at times that do not go back, the first not before `t`.
abbrev pub InOrder : ℕ → List Request → Type 0
InOrder t [] = Unit {0}
InOrder t (q ∷ qs) = (t ≤ q.at) × InOrder q.at qs

-- The time of the last request.
abbrev pub ends_at : ℕ → List Request → ℕ
ends_at t [] = t
ends_at t (q ∷ qs) = ends_at q.at qs

pub record Inv (r : RateLimiter) : Type 0 where
  pub nonneg : neg_part r.tokens ≡ 0
  pub capped : pos_part r.tokens ≤ r.max_tokens * 1000

-- The balance after a refill, as numbers.
refill_parts :
    (r : RateLimiter) (now : ℕ)
    → Inv r
    → r.last_refill ≤ now
    → (neg_part (refill r now).tokens ≡ 0)
      × (pos_part (refill r now).tokens
          ≡ min
              (r.max_tokens * 1000)
              (pos_part r.tokens + (now - r.last_refill) * r.refill_rate_per_second))
unfolding refill scale min_ℤ ◌+ℤ◌
refill_parts r now v h = ground arith

module _ (r : RateLimiter) (now needed : ℕ) (v : Inv r) (h : r.last_refill ≤ now) where
  abbrev afterwards : RateLimiter
  afterwards = (acquire r now needed).0

  acquire-Inv : Inv afterwards
  unfolding acquire ◌-ℤ◌
  acquire-Inv = ground (arith, refill_parts r now v h)

  acquire_config :
      (afterwards.max_tokens ≡ r.max_tokens)
      × (afterwards.refill_rate_per_second ≡ r.refill_rate_per_second)
      × (afterwards.last_refill ≡ now)
  unfolding acquire
  acquire_config = ground arith

  acquire_cost :
      pos_part afterwards.tokens + (if (acquire r now needed).1 then needed else 0) * 1000
      ≤ pos_part r.tokens + (now - r.last_refill) * r.refill_rate_per_second
  unfolding acquire ◌-ℤ◌
  acquire_cost = ground (arith, refill_parts r now v h)

  acquire_iff : ((acquire r now needed).1 ≡ true) ↔ (
      (needed ≤ r.max_tokens)
      × (needed * 1000 ≤ pos_part r.tokens + (now - r.last_refill) * r.refill_rate_per_second))
  unfolding acquire
  acquire_iff = ground (arith, refill_parts r now v h)

ends-le : (t : ℕ) (qs : List Request) → InOrder t qs → t ≤ ends_at t qs
ends-le t [] o = omega arith
ends-le t (q ∷ qs) o = omega (arith, o.0, ends-le q.at qs o.1)

refill_at : (now l t k rate : ℕ) → l ≡ t → k ≡ rate → (now - l) * k ≡ (now - t) * rate
refill_at now l t k rate e f = rw (e, f)

affordable :
    (r : RateLimiter) (now needed max_tokens rate t : ℕ)
    → (r.max_tokens ≡ max_tokens) × (r.refill_rate_per_second ≡ rate) × (r.last_refill ≡ t)
    → Inv r
    → t ≤ now
    → ((acquire r now needed).1 ≡ true)
      ↔ ((needed ≤ max_tokens) × (needed * 1000 ≤ pos_part r.tokens + (now - t) * rate))
affordable r now needed max_tokens rate t config v h = ground (
  arith,
  acquire_iff r now needed v (omega arith),
  refill_at now r.last_refill t r.refill_rate_per_second rate config.2 config.1,
)

refused_lem :
    (r : RateLimiter) (now needed : ℕ)
    → (acquire r now needed).1 ≡ false
    → (acquire r now needed).0 ≡ refill r now
unfolding acquire
refused_lem r now needed h = ground arith

refill_split : (a b c k : ℕ) → a ≤ b → b ≤ c → (c - a) * k ≡ (c - b) * k + (b - a) * k
refill_split a b c k h h' = grind arith

run-Inv :
    (r : RateLimiter) (qs : List Request) (t : ℕ)
    → r.last_refill ≡ t
    → Inv r
    → InOrder t qs
    → Inv (run r qs)
unfolding run
run-Inv r [] t e v o = v
run-Inv r (q ∷ qs) t e v o =
    let h : r.last_refill ≤ q.at = omega arith in
    run-Inv (acquire r q.at q.needed).0 qs q.at (acquire_config r q.at q.needed v h).2
      (acquire-Inv r q.at q.needed v h) o.1

run_config :
    (r : RateLimiter) (qs : List Request) (t : ℕ)
    → r.last_refill ≡ t
    → Inv r
    → InOrder t qs
    → ((run r qs).max_tokens ≡ r.max_tokens)
      × ((run r qs).refill_rate_per_second ≡ r.refill_rate_per_second)
      × ((run r qs).last_refill ≡ ends_at t qs)
unfolding run
run_config r [] t e v o = (refl, refl, e)
run_config r (q ∷ qs) t e v o =
    let h : r.last_refill ≤ q.at = omega arith in
    let config = acquire_config r q.at q.needed v h in
    let later =
      run_config (acquire r q.at q.needed).0 qs q.at config.2 (acquire-Inv r q.at q.needed v h)
        o.1 in
    (later.0 ∙ config.0, later.1 ∙ config.1, later.2)

-- The rate is kept and each step pays for what it grants, so the whole run does.
granted_bound :
    (r : RateLimiter) (qs : List Request) (t rate : ℕ)
    → r.last_refill ≡ t
    → r.refill_rate_per_second ≡ rate
    → Inv r
    → InOrder t qs
    → granted r qs * 1000 ≤ pos_part r.tokens + (ends_at t qs - t) * rate
granted_bound r [] t rate e f v o = omega arith
granted_bound r (q ∷ qs) t rate e f v o =
    let h : r.last_refill ≤ q.at = omega arith in
    let config = acquire_config r q.at q.needed v h in
    let rest =
      granted_bound (acquire r q.at q.needed).0 qs q.at rate config.2 (config.1 ∙ f)
        (acquire-Inv r q.at q.needed v h) o.1 in
    omega (
      arith,
      rest,
      acquire_cost r q.at q.needed v h,
      refill_at q.at r.last_refill t r.refill_rate_per_second rate e f,
      refill_split t q.at (ends_at q.at qs) rate (omega arith) (ends-le q.at qs o.1),
    )

-- From a new limiter, over any requests at times that do not go back, the tokens granted are at
-- most the capacity and what the rate gives between the construction and the last request; the
-- balance stays between nothing and the capacity.
pub granted-le :
    (max_tokens rate start : ℕ) (qs : List Request)
    → InOrder start qs
    → (granted (new max_tokens rate start) qs * 1000
        ≤ max_tokens * 1000 + (ends_at start qs - start) * rate)
      × Inv (run (new max_tokens rate start) qs)
unfolding new
granted-le max_tokens rate start qs o = (
  granted_bound (new max_tokens rate start) qs start rate refl refl (ground arith) o,
  run-Inv (new max_tokens rate start) qs start refl (ground arith) o,
)

-- After any such requests, a further request at a time that is not earlier is granted exactly when
-- it is no larger than the capacity, and no larger than the balance and what the rate has given
-- since; a refused request costs nothing.
pub acquire_iff_affordable :
    (max_tokens rate start : ℕ) (qs : List Request) (now needed : ℕ)
    → InOrder start qs
    → ends_at start qs ≤ now
    → let r = run (new max_tokens rate start) qs in
      (((acquire r now needed).1 ≡ true) ↔ (
        (needed ≤ max_tokens)
        × (needed * 1000 ≤ pos_part r.tokens + (now - ends_at start qs) * rate)))
      × ((acquire r now needed).1 ≡ false → (acquire r now needed).0 ≡ refill r now)
unfolding new
acquire_iff_affordable max_tokens rate start qs now needed o h =
    let fresh : Inv (new max_tokens rate start) = ground arith in
    let r = run (new max_tokens rate start) qs in
    (
      affordable r now needed max_tokens rate (ends_at start qs)
          (run_config (new max_tokens rate start) qs start refl fresh o)
          (run-Inv (new max_tokens rate start) qs start refl fresh o) h,
      refused_lem r now needed,
    )
