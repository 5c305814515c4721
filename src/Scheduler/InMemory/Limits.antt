-- ===== src/Scheduler/InMemory/Limits.antt =====
-- How many executions run at once through each limiter.
use ts_commons.Base.{
  ℕ, zero, suc, ◌+◌, ◌-◌, ◌≤◌, ◌==◌, String, ◌≡◌, ◌↔◌, refl, sym, ◌∙◌, subst, Option, none, some,
  Bool, true, false, List, [], ◌∷◌, ◌++◌, arith, or_else, if◌then◌else◌, length, get_elem?, ite,
  dec_str, inl, inr, Bool-cases,
}
use ts_commons.Base.JsMap.{get, set, has, get-set, get-delete}
use ts_commons.Kernel.Result.{ok, err}
use ts_commons.Scheduler.Limiter.{
  ConcurrencyLimiter, is_allowed, acquire, release, get_count, get_count-acquire, get_count-release,
  max_concurrency_kept, allowed_below,
}
use ts_commons.Scheduler.Limiter
use ts_commons.Scheduler.Registry
use ts_commons.Scheduler.Registry.{JobRegistration, JobRegistry, JobError, concurrency_limit}
use ts_commons.Scheduler.InMemory.{
  InMemoryScheduler, Execution, World, Event, registers, unregisters, triggers, completes, clears,
  Outcome, update, start_execution, trigger, finalize, register, unregister, limiter_of, pick, step,
  run, initial, build_running_record,
}

-- 1 for an execution of the job through the limiter, 0 for another.
abbrev pub via : ℕ → String → Execution → ℕ
via a k x = elim x.limiter [
  | none ↦ 0
  | some b ↦ if b == a then ite (dec_str x.base.job_id k) 1 0 else 0
]

-- The executions of a job through a limiter.
abbrev pub count_via : ℕ → String → List Execution → ℕ
count_via a k [] = 0
count_via a k (x ∷ xs) = via a k x + count_via a k xs

abbrev pub active_at : List ConcurrencyLimiter → ℕ → String → ℕ
active_at heap a k = elim (get_elem? heap a) [ none ↦ 0 | some l ↦ get_count l k ]

abbrev pub max_at : List ConcurrencyLimiter → ℕ → ℕ
max_at heap a = elim (get_elem? heap a) [ none ↦ 0 | some l ↦ l.max_concurrency ]

active_at-acquire :
    (j : String) (a : ℕ) (heap : List ConcurrencyLimiter) (l : ConcurrencyLimiter) (b : ℕ)
    (k : String)
    → get_elem? heap a ≡ some l
    → active_at (update (λ l. acquire l j) a heap) b k
      ≡ active_at heap b k + (if a == b then ite (dec_str j k) 1 0 else 0)
unfolding update
active_at-acquire j a [] l b k h = absurd (ground arith)
active_at-acquire j zero (x ∷ xs) l zero k h = ground (arith, get_count-acquire x j k)
active_at-acquire j zero (x ∷ xs) l (suc b) k h = ground arith
active_at-acquire j (suc a) (x ∷ xs) l zero k h = ground arith
active_at-acquire j (suc a) (x ∷ xs) l (suc b) k h =
    ground (arith, active_at-acquire j a xs l b k h)

active_at-release :
    (j : String) (a : ℕ) (heap : List ConcurrencyLimiter) (b : ℕ) (k : String)
    → active_at (update (λ l. release l j) a heap) b k
      ≡ active_at heap b k - (if a == b then ite (dec_str j k) 1 0 else 0)
unfolding update
active_at-release j a [] b k = ground arith
active_at-release j zero (x ∷ xs) zero k = ground (arith, get_count-release x j k)
active_at-release j zero (x ∷ xs) (suc b) k = ground arith
active_at-release j (suc a) (x ∷ xs) zero k = ground arith
active_at-release j (suc a) (x ∷ xs) (suc b) k = ground (arith, active_at-release j a xs b k)

max_at-update :
    (f : ConcurrencyLimiter → ConcurrencyLimiter) (a : ℕ) (heap : List ConcurrencyLimiter) (b : ℕ)
    → ((l : ConcurrencyLimiter) → (f l).max_concurrency ≡ l.max_concurrency)
    → max_at (update f a heap) b ≡ max_at heap b
unfolding update
max_at-update f a [] b h = refl
max_at-update f zero (x ∷ xs) zero h = h x
max_at-update f zero (x ∷ xs) (suc b) h = refl
max_at-update f (suc a) (x ∷ xs) zero h = refl
max_at-update f (suc a) (x ∷ xs) (suc b) h = max_at-update f a xs b h

-- A new limiter counts nothing, and no older one is moved.
new_limiter :
    (n : ℕ) (heap : List ConcurrencyLimiter) (b : ℕ) (k : String)
    → (active_at (heap ++ Limiter.new n ∷ []) b k ≡ active_at heap b k)
      × (max_at heap b ≤ max_at (heap ++ Limiter.new n ∷ []) b)
unfolding Limiter.new get_count get
new_limiter n [] zero k = (refl, omega arith)
new_limiter n [] (suc b) k = (refl, omega arith)
new_limiter n (x ∷ xs) zero k = (refl, omega arith)
new_limiter n (x ∷ xs) (suc b) k = new_limiter n xs b k

count_via-append :
    (a : ℕ) (k : String) (xs : List Execution) (x : Execution)
    → count_via a k (xs ++ x ∷ []) ≡ count_via a k xs + via a k x
count_via-append a k [] x = omega arith
count_via-append a k (y ∷ xs) x = omega (arith, count_via-append a k xs x)

-- The executions of a list are the one picked and the rest.
abbrev Splits : ℕ → String → ℕ → Option (Execution × List Execution) → Type 0
Splits a k n none = Unit {0}
Splits a k n (some (y, ys)) = n ≡ via a k y + count_via a k ys

pick-Splits :
    (id a : ℕ) (k : String) (xs : List Execution) → Splits a k (count_via a k xs) (pick id xs)
unfolding pick
pick-Splits id a k [] = tt
pick-Splits id a k (x ∷ xs) =
    by_head (x.base.execution_id == id) (pick id xs) (pick-Splits id a k xs)
  where
    by_head :
        (c : Bool) (later : Option (Execution × List Execution))
        → Splits a k (count_via a k xs) later
        → Splits a k (via a k x + count_via a k xs) (
            if c
            then some (x, xs)
            else elim later [ none ↦ none | some (y, ys) ↦ some (y, x ∷ ys) ])
    by_head true later h = refl
    by_head false none h = tt
    by_head false (some (y, ys)) h = omega (arith, h)

pub record Inv (w : World) : Type 0 where
  pub counted : (a : ℕ) (k : String) → count_via a k w.in_flight ≡ active_at w.scheduler.heap a k
  pub bounded : (a : ℕ) (k : String) → active_at w.scheduler.heap a k ≤ max_at w.scheduler.heap a
  pub keyed :
      (k : String) (reg : JobRegistration) → get k w.scheduler.registry ≡ some reg → reg.job_id ≡ k

finalize-Inv :
    (w : World) (x : Execution) (rest : List Execution) (outcome : Outcome) (now : ℕ)
    → ((a : ℕ) (k : String) → count_via a k w.in_flight ≡ via a k x + count_via a k rest)
    → Inv w
    → Inv (record { scheduler = finalize w.scheduler x outcome now; in_flight = rest })
unfolding finalize
finalize-Inv w x rest outcome now split v = by_limiter x.limiter refl
  where
    by_limiter :
        (l : Option ℕ)
        → x.limiter ≡ l
        → Inv (record { scheduler = finalize w.scheduler x outcome now; in_flight = rest })
    by_limiter none e = record {
      counted = λ a k. ground (arith, split a k, v.counted a k);
      bounded = λ a k. ground (arith, v.bounded a k);
      keyed = v.keyed;
    }
    by_limiter (some b) e = record {
      counted = λ a k.
          ground (
            arith,
            split a k,
            v.counted a k,
            active_at-release x.base.job_id b w.scheduler.heap a k,
          );
      bounded = λ a k. ground (
        arith,
        v.bounded a k,
        active_at-release x.base.job_id b w.scheduler.heap a k,
        max_at-update (λ l. release l x.base.job_id) b w.scheduler.heap a
            (λ l. (max_concurrency_kept l x.base.job_id).1),
      );
      keyed = v.keyed;
    }

-- `trigger` past its tests, without a limiter and with one that allows the job.
start_execution-Inv :
    (w : World) (reg : JobRegistration) (job_id : String) (now : ℕ)
    → reg.job_id ≡ job_id
    → Inv w
    → let (s, x) = start_execution w.scheduler reg job_id now none in
      Inv (record { scheduler = s; in_flight = w.in_flight ++ x ∷ [] })
unfolding start_execution build_running_record
start_execution-Inv w reg job_id now e v = record {
  counted = λ a k. ground (
    arith,
    v.counted a k,
    count_via-append a k w.in_flight (start_execution w.scheduler reg job_id now none).1,
  );
  bounded = v.bounded;
  keyed = v.keyed;
}

start_limited-Inv :
    (w : World) (reg : JobRegistration) (job_id : String) (now b : ℕ) (l : ConcurrencyLimiter)
    → reg.job_id ≡ job_id
    → get_elem? w.scheduler.heap b ≡ some l
    → is_allowed l job_id ≡ true
    → Inv w
    → let (s, x) = start_execution w.scheduler reg job_id now (some b) in
      Inv (record { scheduler = s; in_flight = w.in_flight ++ x ∷ [] })
unfolding start_execution build_running_record is_allowed
start_limited-Inv w reg job_id now b l e h allowed v = record {
  counted = λ a k. ground (
    arith,
    v.counted a k,
    e,
    count_via-append a k w.in_flight (start_execution w.scheduler reg job_id now (some b)).1,
    active_at-acquire job_id b w.scheduler.heap l a k h,
  );
  bounded = λ a k. ground (
    arith,
    v.bounded a k,
    h,
    allowed,
    active_at-acquire job_id b w.scheduler.heap l a k h,
    max_at-update (λ l. acquire l job_id) b w.scheduler.heap a
        (λ l. (max_concurrency_kept l job_id).0),
  );
  keyed = v.keyed;
}

limiter_of-elem :
    (s : InMemoryScheduler) (job_id : String) (b : ℕ) (l : ConcurrencyLimiter)
    → limiter_of s job_id ≡ some (b, l)
    → get_elem? s.heap b ≡ some l
unfolding limiter_of
limiter_of-elem s job_id b l h = ground arith

trigger-Inv : (w : World) (job_id : String) (now : ℕ) → Inv w → Inv (step w (triggers job_id now))
unfolding Registry.find step
trigger-Inv w job_id now v =
    by_job (get job_id w.scheduler.registry) refl (limiter_of w.scheduler job_id) refl
  where
    by_job :
        (r : Option JobRegistration)
        → get job_id w.scheduler.registry ≡ r
        → (o : Option (ℕ × ConcurrencyLimiter)) → limiter_of w.scheduler job_id ≡ o
        → Inv (step w (triggers job_id now))
    by_job none e o f = rw (e, step, trigger) v
    by_job (some reg) e none f =
        rw (e, f, step, trigger) (start_execution-Inv w reg job_id now (v.keyed job_id reg e) v)
    by_job (some reg) e (some (b, l)) f = elim (Bool-cases (is_allowed l job_id)) [
      | inl c ↦
          rw (e, f, c, step, trigger)
            (start_limited-Inv w reg job_id now b l (v.keyed job_id reg e)
              (limiter_of-elem w.scheduler job_id b l f) c v)
      | inr c ↦ rw (e, f, c, step, trigger) v
    ]

registered-Inv :
    (w : World) (reg : JobRegistration)
    → Inv w
    → Inv (record w {
      scheduler = record w.scheduler {
        registry = set reg.job_id reg w.scheduler.registry;
        limiters = set reg.job_id (length w.scheduler.heap) w.scheduler.limiters;
        heap = w.scheduler.heap ++ Limiter.new (or_else reg.max_concurrency 1) ∷ [];
      };
    })
registered-Inv w reg v = record {
  counted = λ a k.
      v.counted a k ∙ sym (new_limiter (or_else reg.max_concurrency 1) w.scheduler.heap a k).0;
  bounded = λ a k.
      omega
        (arith, v.bounded a k, new_limiter (or_else reg.max_concurrency 1) w.scheduler.heap a k);
  keyed = λ k r h. ground (arith, h, get-set reg.job_id k reg w.scheduler.registry, v.keyed k r);
}

register-Inv : (w : World) (reg : JobRegistration) → Inv w → Inv (step w (registers reg))
unfolding step register Registry.register
register-Inv w reg v = elim (Bool-cases (has reg.job_id w.scheduler.registry)) [
  | inl e ↦ rw (e, step, register, Registry.register) v
  | inr e ↦ rw (e, step, register, Registry.register) (registered-Inv w reg v)
]

unregister-Inv : (w : World) (job_id : String) → Inv w → Inv (step w (unregisters job_id))
unfolding step unregister Registry.unregister
unregister-Inv w job_id v = elim (Bool-cases (has job_id w.scheduler.registry)) [
  | inl e ↦
      rw (e, step, unregister, Registry.unregister)
        (record {
          counted = v.counted;
          bounded = v.bounded;
          keyed = λ k r h. ground (arith, h, get-delete job_id k w.scheduler.registry, v.keyed k r);
        })
  | inr e ↦ rw (e, step, unregister, Registry.unregister) v
]

none_found : (k : String) (reg : JobRegistration) → get k [] ≡ some reg → reg.job_id ≡ k
unfolding get
none_found k reg h = absurd (ground (arith, h))

step-Inv : (w : World) (e : Event) → Inv w → Inv (step w e)
unfolding step
step-Inv w (registers reg) v = register-Inv w reg v
step-Inv w (unregisters job_id) v = unregister-Inv w job_id v
step-Inv w (triggers job_id now) v = trigger-Inv w job_id now v
step-Inv w (completes id outcome now) v = by_pick (pick id w.in_flight) refl
  where
    by_pick :
        (o : Option (Execution × List Execution))
        → pick id w.in_flight ≡ o
        → Inv (step w (completes id outcome now))
    by_pick none f = rw (f, step) v
    by_pick (some (x, rest)) f =
        rw (f, step)
          (finalize-Inv w x rest outcome now
            (λ a k.
              subst (Splits a k (count_via a k w.in_flight)) f (pick-Splits id a k w.in_flight))
            v)
step-Inv w clears v = record { counted = v.counted; bounded = v.bounded; keyed = none_found }

run-Inv : (w : World) (es : List Event) → Inv w → Inv (run w es)
unfolding run
run-Inv w [] v = v
run-Inv w (e ∷ es) v = run-Inv (step w e) es (step-Inv w e v)

initial-Inv : Inv initial
initial-Inv = record { counted = λ a k. refl; bounded = λ a k. omega arith; keyed = none_found }

limited :
    (w : World) (job_id : String) (now a : ℕ) (l : ConcurrencyLimiter) (reg : JobRegistration)
    → Inv w
    → get job_id w.scheduler.registry ≡ some reg
    → limiter_of w.scheduler job_id ≡ some (a, l)
    → (count_via a job_id w.in_flight ≤ l.max_concurrency)
      × ((trigger w.scheduler job_id now
            ≡ err (concurrency_limit job_id (or_else reg.max_concurrency 1)))
          ↔ (count_via a job_id w.in_flight ≡ l.max_concurrency))
unfolding trigger Registry.find
limited w job_id now a l reg v r f =
    let h = limiter_of-elem w.scheduler job_id a l f in
    let le : get_count l job_id ≤ l.max_concurrency = ground (arith, h, v.bounded a job_id) in
    let eq : count_via a job_id w.in_flight ≡ get_count l job_id =
      ground (arith, h, v.counted a job_id) in
    elim (Bool-cases (is_allowed l job_id)) [
      | inl c ↦
          let below = (allowed_below l job_id).0 c in
          rw (r, f, c, trigger)
            (
              omega (arith, le, eq),
              (λ e. absurd (not_err e), λ e. absurd (omega (arith, e, eq, below))),
            )
      | inr c ↦
          let above = (allowed_below l job_id).1 c in
          rw (r, f, c, trigger)
            (omega (arith, le, eq), (λ e. omega (arith, le, eq, above), λ e. refl))
    ]
  where
    not_err : {s : InMemoryScheduler × Execution} {x : JobError} → ok s ≡ err x → ⊥
    not_err e = ground (arith, e)

-- Whatever is registered, unregistered, triggered, completed and cleared, in any order: the
-- executions of a job that run through the limiter that the scheduler has for it are never more
-- than that limiter's maximum, and `trigger` refuses the job for its concurrency exactly when they
-- are as many.
pub run-limited :
    (es : List Event) (job_id : String) (now a : ℕ) (l : ConcurrencyLimiter) (reg : JobRegistration)
    → let w = run initial es in
      get job_id w.scheduler.registry ≡ some reg
      → limiter_of w.scheduler job_id ≡ some (a, l)
      → (count_via a job_id w.in_flight ≤ l.max_concurrency)
        × ((trigger w.scheduler job_id now
              ≡ err (concurrency_limit job_id (or_else reg.max_concurrency 1)))
            ↔ (count_via a job_id w.in_flight ≡ l.max_concurrency))
run-limited es job_id now a l reg =
    limited (run initial es) job_id now a l reg (run-Inv initial es initial-Inv)
