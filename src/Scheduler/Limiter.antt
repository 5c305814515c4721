-- ===== src/Scheduler/Limiter.antt =====
-- packages/scheduler/src/ConcurrencyLimiter.ts: how many executions of each key are active.
use ts_commons.Base.{
  ℕ, ◌+◌, ◌-◌, ◌<◌, ◌≤◌, String, ◌≡◌, Bool, true, false, [], arith, ltb, or_else, if◌then◌else◌,
  ite, dec_str,
}
use ts_commons.Base.JsMap.{JsMap, get, set, get-set}

pub record ConcurrencyLimiter : Type 0 where
  pub counts : JsMap ℕ
  pub max_concurrency : ℕ

unfoldable pub new : ℕ → ConcurrencyLimiter
new max_concurrency = record { counts = []; max_concurrency = max_concurrency }

unfoldable pub get_count : ConcurrencyLimiter → String → ℕ
get_count l key = or_else (get key l.counts) 0

unfoldable pub is_allowed : ConcurrencyLimiter → String → Bool
unfolding get_count
is_allowed l key = ltb (get_count l key) l.max_concurrency

unfoldable pub acquire : ConcurrencyLimiter → String → ConcurrencyLimiter
unfolding get_count
acquire l key = record l { counts = set key (get_count l key + 1) l.counts }

unfoldable pub release : ConcurrencyLimiter → String → ConcurrencyLimiter
unfolding get_count
release l key =
    let current = get_count l key in
    if ltb 0 current then record l { counts = set key (current - 1) l.counts } else l

abbrev pub reset : ConcurrencyLimiter → ConcurrencyLimiter
reset l = record l { counts = [] }

pub get_count-acquire :
    (l : ConcurrencyLimiter) (j k : String)
    → get_count (acquire l j) k ≡ get_count l k + ite (dec_str j k) 1 0
unfolding get_count acquire
get_count-acquire l j k = ground (arith, get-set j k (get_count l j + 1) l.counts)

pub get_count-release :
    (l : ConcurrencyLimiter) (j k : String)
    → get_count (release l j) k ≡ get_count l k - ite (dec_str j k) 1 0
unfolding get_count release
get_count-release l j k = ground (arith, get-set j k (get_count l j - 1) l.counts)

pub max_concurrency_kept :
    (l : ConcurrencyLimiter) (k : String)
    → ((acquire l k).max_concurrency ≡ l.max_concurrency)
      × ((release l k).max_concurrency ≡ l.max_concurrency)
unfolding acquire release
max_concurrency_kept l k = ground arith

pub allowed_below :
    (l : ConcurrencyLimiter) (k : String)
    → (is_allowed l k ≡ true → get_count l k < l.max_concurrency)
      × (is_allowed l k ≡ false → l.max_concurrency ≤ get_count l k)
unfolding is_allowed
allowed_below l k = (λ h. ground (arith, h), λ h. ground (arith, h))
