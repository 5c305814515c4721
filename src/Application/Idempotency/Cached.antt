-- ===== src/Application/Idempotency/Cached.antt =====
-- The result that is kept for a key answers the later calls with the key.
use ts_commons.Base.{
  ℕ, ◌+◌, ◌≤◌, String, ◌≡◌, ◌≢◌, sym, subst, All-map, ap, ◌∙◌, inl, inr, Option, none, some, List,
  [], ◌∷◌, arith, All, Option-cases,
}
use ts_commons.Base.JsMap.{get, get-set_self, get-set_ne, get-delete_ne}
use ts_commons.Application.Idempotency.{
  StoreEntry, returned, Running, World, Event, looks, acquires, looks_again, fulfils, rejects,
  take_call, record_hit, settle, first_look, second_look, acquire, on_result, on_error, step, run,
  time_of, get_result, store_result, release,
}
use ts_commons.Application.Idempotency.OneAtATime.{
  HaveOwnKeys, Taken, take_call-Taken, try_acquire_cases, refused_lem,
}

module _ {T : Type 0} (ttl_ms : ℕ) (k : String) (entry : StoreEntry T) where
  -- The entry stands under the key, and no running call has the key.
  record Kept (w : World T) : Type 0 where
    kept : get k w.store ≡ some entry
    free : All (λ x. x.key ≢ k) w.running

  looks-Kept :
      (w : World T) (call : ℕ) (j : String) (now : ℕ)
      → Kept w
      → Kept (first_look ttl_ms w call j now) × Kept (second_look ttl_ms w call j now)
  unfolding first_look second_look
  looks-Kept w call j now i = elim (Option-cases (get_result w.store now j)) [
    | inl e ↦ rw (e, first_look, second_look) (i, record { kept = i.kept; free = i.free })
    | inr (r, e) ↦
        rw (e, first_look, second_look)
          (record { kept = i.kept; free = i.free }, record { kept = i.kept; free = i.free })
  ]

  acquire-Kept :
      (w : World T) (call : ℕ) (j : String) (now : ℕ)
      → now ≤ entry.expires_at
      → Kept w
      → Kept (acquire ttl_ms w call j now)
  unfolding acquire
  acquire-Kept w call j now le i = elim (try_acquire_cases ttl_ms w.store now j) [
    | inl e ↦ rw e (record { kept = i.kept; free = i.free })
    | inr e ↦
        let ne : j ≢ k = λ p.
          cc (e, refused_lem ttl_ms w.store now j entry (ap (λ n. get n w.store) p ∙ i.kept) le) in
        rw e (record { kept = get-set_ne j k _ w.store ne ∙ i.kept; free = (ne, i.free) })
  ]

  step-Kept :
      (w : World T) (e : Event T) → time_of e ≤ entry.expires_at → Kept w → Kept (step ttl_ms w e)
  unfolding step on_result on_error store_result release
  step-Kept w (looks call j now) le i = (looks-Kept w call j now i).0
  step-Kept w (acquires call j now) le i = acquire-Kept w call j now le i
  step-Kept w (looks_again call j now) le i = (looks-Kept w call j now i).1
  step-Kept w (fulfils call r now) le i =
      by_call (take_call call w.running) (take_call-Taken call w.running)
    where
      by_call :
          (o : Option (Running × List Running))
          → Taken w.running o
          → Kept (elim o [ none ↦ w | some (x, rest) ↦ on_result ttl_ms w x rest r now ])
      by_call none t = i
      by_call (some (x, rest)) t =
          let (ne, free) = t.0 (λ y. y.key ≢ k) i.free in
          record { kept = get-set_ne x.key k _ w.store ne ∙ i.kept; free = free }
  step-Kept w (rejects call now) le i =
      by_call (take_call call w.running) (take_call-Taken call w.running)
    where
      by_call :
          (o : Option (Running × List Running))
          → Taken w.running o
          → Kept (elim o [ none ↦ w | some (x, rest) ↦ on_error ttl_ms w x rest ])
      by_call none t = i
      by_call (some (x, rest)) t =
          let (ne, free) = t.0 (λ y. y.key ≢ k) i.free in
          record { kept = get-delete_ne x.key k w.store ne ∙ i.kept; free = free }

  run-Kept :
      (w : World T) (es : List (Event T))
      → All (λ e. time_of e ≤ entry.expires_at) es
      → Kept w
      → Kept (run ttl_ms w es)
  unfolding run
  run-Kept w [] h i = i
  run-Kept w (e ∷ es) h i = run-Kept (step ttl_ms w e) es h.1 (step-Kept w e h.0 i)

module _ {T : Type 0} (ttl_ms : ℕ) (r : T) (t : ℕ) where
  abbrev entry_of : StoreEntry T
  entry_of = record { result = some r; expires_at = t + ttl_ms }

  fulfils-Kept :
      (w : World T) (call : ℕ) (x : Running) (rest : List Running)
      → HaveOwnKeys w.running
      → take_call call w.running ≡ some (x, rest)
      → Kept ttl_ms x.key entry_of (step ttl_ms w (fulfils call r t))
  unfolding step on_result store_result
  fulfils-Kept w call x rest own taken =
      let was : Taken w.running (some (x, rest)) =
        subst (Taken w.running) taken (take_call-Taken call w.running) in
      rw (taken, step)
        (record {
          kept = get-set_self x.key _ w.store;
          free = All-map (λ y. x.key ≢ y.key) rest (λ y ne e. ne (sym e)) (was.1 own).0;
        })

  Kept-answers :
      (w : World T) (other now : ℕ) (k : String)
      → Kept ttl_ms k entry_of w
      → now ≤ t + ttl_ms
      → (first_look ttl_ms w other k now ≡ record w {
        metrics = record_hit w.metrics;
        settled = settle ttl_ms w other (returned r);
      })
        × (acquire ttl_ms w other k now ≡ w)
  unfolding first_look get_result acquire
  Kept-answers w other now k i le =
      (ground (arith, i.kept), rw (refused_lem ttl_ms w.store now k _ i.kept le))

-- When the running calls have keys of their own and one of them, with key `k`, fulfils with `r` at
-- `t`, then after any events up to `t + ttl_ms`, until that time a first look at `k` returns `r` and
-- counts a hit, and an attempt to acquire `k` changes nothing.
pub fulfilled_is_cached :
    {T : Type 0} (ttl_ms : ℕ) (w : World T) (call : ℕ) (x : Running) (rest : List Running) (r : T)
    (t : ℕ) (es : List (Event T))
    → HaveOwnKeys w.running
    → take_call call w.running ≡ some (x, rest)
    → All (λ e. time_of e ≤ t + ttl_ms) es
    → (other now : ℕ) → now ≤ t + ttl_ms
    → let w' = run ttl_ms (step ttl_ms w (fulfils call r t)) es in
      (first_look ttl_ms w' other x.key now ≡ record w' {
        metrics = record_hit w'.metrics;
        settled = settle ttl_ms w' other (returned r);
      })
      × (acquire ttl_ms w' other x.key now ≡ w')
fulfilled_is_cached ttl_ms w call x rest r t es own taken times other now le =
    let start = fulfils-Kept ttl_ms r t w call x rest own taken in
    Kept-answers ttl_ms r t _ other now x.key (run-Kept ttl_ms x.key _ _ es times start) le
