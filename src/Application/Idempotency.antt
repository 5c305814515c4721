-- ===== src/Application/Idempotency.antt =====
-- packages/application/src/idempotency: the in-memory store, and the use case that is run at most
-- once per key. The time is an argument. Calls overlap: what a call does between two of its awaits
-- is one event, and events come in any order. A result is a value of `T`, `null` is `none`.
pub mod OneAtATime
pub mod Cached
use ts_commons.Base.{
  ℕ, suc, ◌+◌, ◌==◌, String, Option, none, some, Bool, true, false, List, [], ◌∷◌, ◌++◌, leb, ltb,
  if◌then◌else◌, keep,
}
use ts_commons.Base.JsMap.{JsMap, get, set, delete, size}

pub record StoreEntry (T : Type 0) : Type 0 where
  pub result : Option T
  pub expires_at : ℕ

abbrev pub Store : Type 0 → Type 0
Store T = JsMap (StoreEntry T)

module _ {T : Type 0} where
  unfoldable pub try_acquire : Store T → ℕ → String → ℕ → Store T × Bool
  try_acquire m now k ttl_ms =
      let fresh : Store T × Bool =
        (set k (record { result = none; expires_at = now + ttl_ms }) m, true) in
      elim (get k m) [
        | none ↦ fresh
        | some existing ↦ if leb now existing.expires_at then (m, false) else fresh
      ]

  unfoldable pub get_result : Store T → ℕ → String → Option T
  get_result m now k = elim (get k m) [
    | none ↦ none
    | some entry ↦ if ltb entry.expires_at now then none else entry.result
  ]

  -- Both branches of the source leave the same entry under the key.
  unfoldable pub store_result : Store T → ℕ → String → T → ℕ → Store T
  store_result m now k result ttl_ms =
      set k (record { result = some result; expires_at = now + ttl_ms }) m

  unfoldable pub release : Store T → String → Store T
  release m k = delete k m

  -- The loop of `cleanup` over the entries left, with the map and the count so far.
  unfoldable pub cleanup_each : ℕ → Store T → Store T → ℕ → Store T × ℕ
  cleanup_each now [] m removed = (m, removed)
  cleanup_each now ((k, entry) ∷ es) m removed =
      let gone = cleanup_each now es (delete k m) (removed + 1) in
      let kept = cleanup_each now es m removed in if ltb entry.expires_at now then gone else kept

  unfoldable pub cleanup : Store T → ℕ → Store T × ℕ
  unfolding cleanup_each
  cleanup m now = cleanup_each now m m 0

pub record IdempotencyMetrics : Type 0 where
  pub hits : ℕ
  pub misses : ℕ
  pub conflicts : ℕ
  pub errors : ℕ

abbrev pub record_hit : IdempotencyMetrics → IdempotencyMetrics
record_hit m = record m { hits = m.hits + 1 }

abbrev pub record_miss : IdempotencyMetrics → IdempotencyMetrics
record_miss m = record m { misses = m.misses + 1 }

abbrev pub record_conflict : IdempotencyMetrics → IdempotencyMetrics
record_conflict m = record m { conflicts = m.conflicts + 1 }

abbrev pub record_error : IdempotencyMetrics → IdempotencyMetrics
record_error m = record m { errors = m.errors + 1 }

-- A call whose inner use case runs: it has acquired the lock for its key.
pub record Running : Type 0 where
  pub call : ℕ
  pub key : String
  pub acquired_at : ℕ

-- How a call of `execute` settled.
pub data Settled (T : Type 0) : Type 0 where
  returned : T → Settled T
  conflict : String → Settled T
  thrown : Settled T

-- The store and the metrics, the calls whose inner use case runs, and the calls that have settled.
pub record World (T : Type 0) : Type 0 where
  pub store : Store T
  pub metrics : IdempotencyMetrics
  pub running : List Running
  pub settled : List (ℕ × Settled T)

-- What a call does next, and when: the first look at the cache; the attempt to acquire, and the
-- look that follows a refusal; and what the inner use case's promise settles to.
pub data Event (T : Type 0) : Type 0 where
  looks : ℕ → String → ℕ → Event T
  acquires : ℕ → String → ℕ → Event T
  looks_again : ℕ → String → ℕ → Event T
  fulfils : ℕ → T → ℕ → Event T
  rejects : ℕ → ℕ → Event T

-- The running call of a number, and the others.
unfoldable pub take_call : ℕ → List Running → Option (Running × List Running)
take_call call [] = none
take_call call (x ∷ xs) =
    let later = take_call call xs in
    if x.call == call
    then some (x, xs)
    else elim later [ none ↦ none | some (y, ys) ↦ some (y, x ∷ ys) ]

module _ {T : Type 0} (ttl_ms : ℕ) where
  abbrev pub settle : World T → ℕ → Settled T → List (ℕ × Settled T)
  settle w call r = w.settled ++ (call, r) ∷ []

  -- A call that finds nothing in its first look goes on to acquire.
  unfoldable pub first_look : World T → ℕ → String → ℕ → World T
  first_look w call k now = elim (get_result w.store now k) [
    | none ↦ w
    | some r ↦ record w { metrics = record_hit w.metrics; settled = settle w call (returned r) }
  ]

  unfoldable pub acquire : World T → ℕ → String → ℕ → World T
  unfolding try_acquire
  acquire w call k now =
      let (m, acquired) = try_acquire w.store now k ttl_ms in
      if acquired
      then record w {
        store = m;
        metrics = record_miss w.metrics;
        running = record { call = call; key = k; acquired_at = now } ∷ w.running;
      }
      else record w { store = m }

  unfoldable pub second_look : World T → ℕ → String → ℕ → World T
  second_look w call k now = elim (get_result w.store now k) [
    | none ↦ record w { metrics = record_conflict w.metrics; settled = settle w call (conflict k) }
    | some r ↦ record w { metrics = record_hit w.metrics; settled = settle w call (returned r) }
  ]

  unfoldable pub on_result : World T → Running → List Running → T → ℕ → World T
  unfolding store_result
  on_result w x rest r now = record w {
    store = store_result w.store now x.key r ttl_ms;
    running = rest;
    settled = settle w x.call (returned r);
  }

  unfoldable pub on_error : World T → Running → List Running → World T
  unfolding release
  on_error w x rest = record w {
    store = release w.store x.key;
    metrics = record_error w.metrics;
    running = rest;
    settled = settle w x.call thrown;
  }

  -- A call whose inner use case does not run cannot settle by it.
  unfoldable pub step : World T → Event T → World T
  unfolding first_look acquire second_look on_result on_error take_call
  step w (looks call k now) = first_look w call k now
  step w (acquires call k now) = acquire w call k now
  step w (looks_again call k now) = second_look w call k now
  step w (fulfils call r now) = elim (take_call call w.running) [
    | none ↦ w
    | some (x, rest) ↦ on_result w x rest r now
  ]
  step w (rejects call now) = elim (take_call call w.running) [
    | none ↦ w
    | some (x, rest) ↦ on_error w x rest
  ]

  unfoldable pub run : World T → List (Event T) → World T
  unfolding step
  run w [] = w
  run w (e ∷ es) = run (step w e) es

abbrev pub time_of : {T : Type 0} → Event T → ℕ
time_of (looks call k now) = now
time_of (acquires call k now) = now
time_of (looks_again call k now) = now
time_of (fulfils call r now) = now
time_of (rejects call now) = now

abbrev pub initial : {T : Type 0} → World T
initial = record {
  store = [];
  metrics = record { hits = 0; misses = 0; conflicts = 0; errors = 0 };
  running = [];
  settled = [];
}
