-- ===== src/Application/Idempotency/OneAtATime.antt =====
-- No two calls run the inner use case for one key at once.
use ts_commons.Base.{
  ℕ, ◌+◌, ◌≤◌, ◌⊎◌, ◌==◌, String, ◌≡◌, ◌≢◌, sym, ap, ◌∙◌, Option, none, some, Bool, true, false,
  List, [], ◌∷◌, arith, leb, if◌then◌else◌, All, All-map, All-both, Option-cases, Bool-cases, inl,
  inr,
}
use ts_commons.Base.JsMap.{get, set, delete, get-set_self, get-set_ne, get-delete_ne}
use ts_commons.Application.Idempotency.{
  StoreEntry, Store, Running, World, Event, looks, acquires, looks_again, fulfils, rejects,
  take_call, first_look, second_look, acquire, on_result, on_error, step, run, time_of, initial,
  try_acquire, get_result, store_result, release,
}

-- No two of the running calls have one key.
abbrev pub HaveOwnKeys : List Running → Type 0
HaveOwnKeys [] = Unit {0}
HaveOwnKeys (x ∷ xs) = All (λ y. x.key ≢ y.key) xs × HaveOwnKeys xs

-- A call is taken out of those that run.
abbrev pub Taken : List Running → Option (Running × List Running) → Type 1
Taken xs none = Unit {1}
Taken xs (some (y, ys)) =
    ((P : Running → Type 0) → All P xs → P y × All P ys)
    × (HaveOwnKeys xs → All (λ z. y.key ≢ z.key) ys × HaveOwnKeys ys)

pub take_call-Taken : (call : ℕ) (xs : List Running) → Taken xs (take_call call xs)
unfolding take_call
take_call-Taken call [] = tt
take_call-Taken call (x ∷ xs) =
    by_head (x.call == call) (take_call call xs) (take_call-Taken call xs)
  where
    by_head :
        (c : Bool) (later : Option (Running × List Running))
        → Taken xs later
        → Taken (x ∷ xs) (
            if c
            then some (x, xs)
            else elim later [ none ↦ none | some (y, ys) ↦ some (y, x ∷ ys) ])
    by_head true later h = (λ P a. a, λ o. o)
    by_head false none h = tt
    by_head false (some (y, ys)) (all, own) = (
      λ P a. let (p, ps) = all P a.1 in (p, (a.0, ps)),
      λ o.
          let (ne, rest) = own o.1 in
          let (xy, xys) = all (λ z. x.key ≢ z.key) o.0 in (((λ e. xy (sym e)), ne), (xys, rest)),
    )

false-ne-true : false ≢ true
false-ne-true e = cc e

module _ {T : Type 0} (ttl_ms : ℕ) where
  -- The call's lock is in the store, without a result.
  abbrev pub IsLocked : Store T → Running → Type 0
  IsLocked m x = get x.key m ≡ some (record { result = none; expires_at = x.acquired_at + ttl_ms })

  pub record Inv (w : World T) : Type 0 where
    pub own_keys : HaveOwnKeys w.running
    pub locked : All (IsLocked w.store) w.running

  -- At each event the calls that run have not outlived their locks.
  abbrev pub InTime : World T → List (Event T) → Type 0
  InTime w [] = Unit {0}
  InTime w (e ∷ es) =
      All (λ x. time_of e ≤ x.acquired_at + ttl_ms) w.running × InTime (step ttl_ms w e) es

  -- The locks of the other calls do not change with another key's entry.
  set-IsLocked :
      (m : Store T) (k : String) (v : StoreEntry T) (xs : List Running)
      → All (λ x. k ≢ x.key) xs
      → All (IsLocked m) xs
      → All (IsLocked (set k v m)) xs
  set-IsLocked m k v xs ne a =
      All-map (λ x. (k ≢ x.key) × IsLocked m x) xs (λ x h. get-set_ne k x.key v m h.0 ∙ h.1)
        (All-both (λ x. k ≢ x.key) (IsLocked m) xs ne a)

  delete-IsLocked :
      (m : Store T) (k : String) (xs : List Running)
      → All (λ x. k ≢ x.key) xs
      → All (IsLocked m) xs
      → All (IsLocked (delete k m)) xs
  delete-IsLocked m k xs ne a =
      All-map (λ x. (k ≢ x.key) × IsLocked m x) xs (λ x h. get-delete_ne k x.key m h.0 ∙ h.1)
        (All-both (λ x. k ≢ x.key) (IsLocked m) xs ne a)

  -- A lock that has not expired refuses the others.
  pub refused_lem :
      (m : Store T) (now : ℕ) (k : String) (v : StoreEntry T)
      → get k m ≡ some v
      → now ≤ v.expires_at
      → try_acquire m now k ttl_ms ≡ (m, false)
  unfolding try_acquire
  refused_lem m now k v h le = ground (arith, h, le)

  -- The key that is acquired is no running call's.
  granted-ne :
      (m : Store T) (now : ℕ) (k : String) (x : Running)
      → (try_acquire m now k ttl_ms).1 ≡ true
      → IsLocked m x
      → now ≤ x.acquired_at + ttl_ms
      → k ≢ x.key
  granted-ne m now k x g locked le e =
      false-ne-true
        (sym (ap (λ p. p.1) (refused_lem m now k _ (ap (λ j. get j m) e ∙ locked) le)) ∙ g)

  free_key :
      (m : Store T) (now : ℕ) (k : String) (xs : List Running)
      → (try_acquire m now k ttl_ms).1 ≡ true
      → All (IsLocked m) xs
      → All (λ x. now ≤ x.acquired_at + ttl_ms) xs
      → All (λ x. k ≢ x.key) xs
  free_key m now k [] g locked late = tt
  free_key m now k (x ∷ xs) g locked late =
      (granted-ne m now k x g locked.0 late.0, free_key m now k xs g locked.1 late.1)

  pub try_acquire_cases :
      (m : Store T) (now : ℕ) (k : String)
      → (try_acquire m now k ttl_ms ≡ (m, false))
        ⊎ (try_acquire m now k ttl_ms
            ≡ (set k (record { result = none; expires_at = now + ttl_ms }) m, true))
  unfolding try_acquire
  try_acquire_cases m now k = elim (Option-cases (get k m)) [
    | inl e ↦ inr (rw (e, try_acquire))
    | inr (v, e) ↦ elim (Bool-cases (leb now v.expires_at)) [
      | inl l ↦ inl (rw (e, l, try_acquire))
      | inr l ↦ inr (rw (e, l, try_acquire))
    ]
  ]

  -- Each kind of event keeps the invariant.
  acquire-Inv :
      (w : World T) (call now : ℕ) (k : String)
      → Inv w
      → All (λ x. now ≤ x.acquired_at + ttl_ms) w.running
      → Inv (acquire ttl_ms w call k now)
  unfolding acquire
  acquire-Inv w call now k i late = elim (try_acquire_cases w.store now k) [
    | inl e ↦ rw e (record { own_keys = i.own_keys; locked = i.locked })
    | inr e ↦
        let free = free_key w.store now k w.running (ap (λ p. p.1) e) i.locked late in
        rw e (record {
          own_keys = (free, i.own_keys);
          locked = (get-set_self k _ w.store, set-IsLocked w.store k _ w.running free i.locked);
        })
  ]

  Taken-Inv :
      (w : World T) (x : Running) (rest : List Running) (m : Store T)
      → Taken w.running (some (x, rest))
      → Inv w
      → ((xs : List Running)
          → All (λ y. x.key ≢ y.key) xs
          → All (IsLocked w.store) xs
          → All (IsLocked m) xs)
      → HaveOwnKeys rest × All (IsLocked m) rest
  Taken-Inv w x rest m t i keeps =
      let (ne, own) = t.1 i.own_keys in (own, keeps rest ne (t.0 (IsLocked w.store) i.locked).1)

  on_result-Inv :
      (w : World T) (x : Running) (rest : List Running) (r : T) (now : ℕ)
      → Taken w.running (some (x, rest))
      → Inv w
      → Inv (on_result ttl_ms w x rest r now)
  unfolding on_result store_result
  on_result-Inv w x rest r now t i =
      let (own, locked) = Taken-Inv w x rest _ t i (set-IsLocked w.store x.key _) in
      record { own_keys = own; locked = locked }

  on_error-Inv :
      (w : World T) (x : Running) (rest : List Running)
      → Taken w.running (some (x, rest))
      → Inv w
      → Inv (on_error ttl_ms w x rest)
  unfolding on_error release
  on_error-Inv w x rest t i =
      let (own, locked) = Taken-Inv w x rest _ t i (delete-IsLocked w.store x.key) in
      record { own_keys = own; locked = locked }

  first_look-Inv :
      (w : World T) (call : ℕ) (k : String) (now : ℕ) → Inv w → Inv (first_look ttl_ms w call k now)
  unfolding first_look
  first_look-Inv w call k now i = elim (Option-cases (get_result w.store now k)) [
    | inl e ↦ rw (e, first_look) i
    | inr (r, e) ↦ rw (e, first_look) (record { own_keys = i.own_keys; locked = i.locked })
  ]

  second_look-Inv :
      (w : World T) (call : ℕ) (k : String) (now : ℕ)
      → Inv w
      → Inv (second_look ttl_ms w call k now)
  unfolding second_look
  second_look-Inv w call k now i = elim (Option-cases (get_result w.store now k)) [
    | inl e ↦ rw (e, second_look) (record { own_keys = i.own_keys; locked = i.locked })
    | inr (r, e) ↦ rw (e, second_look) (record { own_keys = i.own_keys; locked = i.locked })
  ]

  step-Inv :
      (w : World T) (e : Event T)
      → Inv w
      → All (λ x. time_of e ≤ x.acquired_at + ttl_ms) w.running
      → Inv (step ttl_ms w e)
  unfolding step
  step-Inv w (looks call k now) i late = first_look-Inv w call k now i
  step-Inv w (acquires call k now) i late = acquire-Inv w call now k i late
  step-Inv w (looks_again call k now) i late = second_look-Inv w call k now i
  step-Inv w (fulfils call r now) i late =
      by_call (take_call call w.running) (take_call-Taken call w.running)
    where
      by_call :
          (o : Option (Running × List Running))
          → Taken w.running o
          → Inv (elim o [ none ↦ w | some (x, rest) ↦ on_result ttl_ms w x rest r now ])
      by_call none t = i
      by_call (some (x, rest)) t = on_result-Inv w x rest r now t i
  step-Inv w (rejects call now) i late =
      by_call (take_call call w.running) (take_call-Taken call w.running)
    where
      by_call :
          (o : Option (Running × List Running))
          → Taken w.running o
          → Inv (elim o [ none ↦ w | some (x, rest) ↦ on_error ttl_ms w x rest ])
      by_call none t = i
      by_call (some (x, rest)) t = on_error-Inv w x rest t i

  run-Inv : (w : World T) (es : List (Event T)) → Inv w → InTime w es → Inv (run ttl_ms w es)
  unfolding run
  run-Inv w [] i h = i
  run-Inv w (e ∷ es) i h = run-Inv (step ttl_ms w e) es (step-Inv w e i h.0) h.1

-- Whatever calls overlap on a fresh store, in any order of events: while no running call outlives
-- its lock, no two calls run the inner use case for one key, and an attempt to acquire the key of a
-- running call before its lock expires is refused, so that the call does not run.
pub one_call_per_key :
    {T : Type 0} (ttl_ms : ℕ) (es : List (Event T))
    → InTime ttl_ms initial es
    → HaveOwnKeys (run ttl_ms initial es).running
      × ((call now : ℕ)
          → All
              (λ x.
                now ≤ x.acquired_at + ttl_ms
                → acquire ttl_ms (run ttl_ms initial es) call x.key now ≡ run ttl_ms initial es)
              (run ttl_ms initial es).running)
unfolding acquire
one_call_per_key {T = T} ttl_ms es h =
    let w = run ttl_ms (initial {T = T}) es in
    let i = run-Inv ttl_ms initial es (record { own_keys = tt; locked = tt }) h in
    (
      i.own_keys,
      λ call now.
          All-map (IsLocked ttl_ms w.store) w.running
            (λ x locked le. rw (refused_lem ttl_ms w.store now x.key _ locked le)) i.locked,
    )
