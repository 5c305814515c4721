-- ===== src/Resilience/RateLimiter.antt =====
-- packages/resilience/src/ratelimit/RateLimiter.ts. The source's balance is a floating-point
-- number of tokens; here it is the exact number of thousandths of a token, which is an integer,
-- since a refill is (ms / 1000) * rate. The sizes, the rate and the requests are natural numbers.
-- The clock may go back, so that a refill can be negative: balances are signed.
pub mod Budget
use ts_commons.Base.{ℕ, ◌*◌, Bool, true, false, List, [], ◌∷◌, if◌then◌else◌}
use ts_commons.Base.Int.{ℤ, pos, sub_ℕ, scale, min_ℤ, leb_ℤ, ◌+ℤ◌, ◌-ℤ◌}

pub record RateLimiter : Type 0 where
  pub max_tokens : ℕ
  pub refill_rate_per_second : ℕ
  -- in thousandths
  pub tokens : ℤ
  pub last_refill : ℕ

unfoldable pub new : ℕ → ℕ → ℕ → RateLimiter
new max_tokens refill_rate_per_second now = record {
  max_tokens = max_tokens;
  refill_rate_per_second = refill_rate_per_second;
  tokens = pos (max_tokens * 1000);
  last_refill = now;
}

unfoldable pub refill : RateLimiter → ℕ → RateLimiter
refill r now =
    let elapsed_ms = sub_ℕ now r.last_refill in
    let to_add = scale elapsed_ms r.refill_rate_per_second in
    record r { tokens = min_ℤ (pos (r.max_tokens * 1000)) (r.tokens +ℤ to_add); last_refill = now }

unfoldable pub acquire : RateLimiter → ℕ → ℕ → RateLimiter × Bool
unfolding refill
acquire r now tokens_needed =
    let r' = refill r now in
    if leb_ℤ (pos (tokens_needed * 1000)) r'.tokens
    then (record r' { tokens = r'.tokens -ℤ pos (tokens_needed * 1000) }, true)
    else (r', false)

-- Requests, each with its time and its number of tokens, one after another.
pub record Request : Type 0 where
  pub at : ℕ
  pub needed : ℕ

unfoldable pub run : RateLimiter → List Request → RateLimiter
unfolding acquire
run r [] = r
run r (q ∷ qs) = run (acquire r q.at q.needed).0 qs
