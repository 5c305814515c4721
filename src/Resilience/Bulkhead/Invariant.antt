-- ===== src/Resilience/Bulkhead/Invariant.antt =====
-- What holds of a bulkhead between two events, whatever the interleaving.
use ts_commons.Base.{
  ℕ, suc, ◌≤◌, ◌<◌, ◌≡◌, refl, ap, ◌⊎◌, inl, inr, some, List, [], ◌∷◌, ◌++◌, arith, append-nil,
  append_assoc, length, length-append, Option-cases, ◌↔◌,
}
use ts_commons.Resilience.Bulkhead.{
  World, Event, calls, settles, granted, queued, rejected, acquire_slot, begin_execute, end_execute,
  without, step, run, initial,
}

pub record Inv (width : ℕ) (room : ℕ) (w : World) : Type 0 where
  pub limit : w.bulkhead.max_concurrent ≡ width
  pub queue_limit : w.bulkhead.max_queue ≡ room
  -- A slot is taken by each call that runs, and by no other.
  pub slots : length w.running ≡ w.bulkhead.active
  pub bounded : w.bulkhead.active ≤ width
  pub queue_bounded : length w.bulkhead.queue ≤ room
  -- Nobody waits while a slot is free.
  pub busy : (w.bulkhead.queue ≡ []) ⊎ (w.bulkhead.active ≡ width)
  -- The calls that were not rejected have started, in order, but for those that wait.
  pub fifo : w.accepted ≡ w.started ++ w.bulkhead.queue

initial-Inv : (width room : ℕ) → Inv width room (initial width room)
unfolding initial
initial-Inv width room = record {
  limit = refl;
  queue_limit = refl;
  slots = refl;
  bounded = omega arith;
  queue_bounded = omega arith;
  busy = inl refl;
  fifo = refl;
}

module _ (width room : ℕ) (w : World) (v : Inv width room w) where
  begin_execute-Inv : (call : ℕ) → Inv width room (begin_execute w call)
  unfolding begin_execute
  begin_execute-Inv call = grind (
    arith,
    length-append w.running (call ∷ []),
    length-append w.bulkhead.queue (call ∷ []),
    append_assoc w.started w.bulkhead.queue (call ∷ []),
    append-nil w.started,
    append-nil (w.started ++ call ∷ []),
  )

  end_execute-Inv :
      (rest : List ℕ) → length w.running ≡ suc (length rest) → Inv width room (end_execute w rest)
  unfolding end_execute
  end_execute-Inv rest h = queue_cases w.bulkhead.queue refl
    where
      queue_cases : (q : List ℕ) → w.bulkhead.queue ≡ q → Inv width room (end_execute w rest)
      queue_cases [] e = ground (arith, append-nil w.started)
      queue_cases (next ∷ later) e = ground (
        arith,
        length-append rest (next ∷ []),
        append_assoc w.started (next ∷ []) later,
        ap length e,
      )

length-without :
    (call : ℕ) (xs ys : List ℕ) → without call xs ≡ some ys → length xs ≡ suc (length ys)
unfolding without
length-without call [] ys h = cc
length-without call (x ∷ xs) ys h = grind (arith, length-without call xs)

step-Inv : (width room : ℕ) (w : World) (e : Event) → Inv width room w → Inv width room (step w e)
unfolding step
step-Inv width room w (calls call) v = begin_execute-Inv width room w v call
step-Inv width room w (settles call) v = elim (Option-cases (without call w.running)) [
  | inl none_left ↦ rw (none_left, step) v
  | inr (rest, e) ↦
      rw (e, step) (end_execute-Inv width room w v rest (length-without call w.running rest e))
]

run-Inv :
    (width room : ℕ) (w : World) (es : List Event) → Inv width room w → Inv width room (run w es)
unfolding run
run-Inv width room w [] v = v
run-Inv width room w (e ∷ es) v = run-Inv width room (step w e) es (step-Inv width room w e v)

-- After any sequence of calls of `execute` and completions of their functions, on a new bulkhead:
-- at most `maxConcurrent` functions run and at most `maxQueue` calls wait, `getActiveCount` is the
-- number of functions that run, a call waits only while every slot is taken, and the calls that
-- were not rejected have started in the order in which they came, all but those still waiting.
pub run-initial-Inv :
    (width room : ℕ) (es : List Event) → Inv width room (run (initial width room) es)
run-initial-Inv width room es = run-Inv width room (initial width room) es (initial-Inv width room)

-- After any history a call is rejected exactly when every slot is taken and the queue is full; it
-- gets a slot at once exactly when one is free; and a call that gets neither waits at the end of
-- the queue.
pub acquire_slot-history :
    (width room : ℕ) (es : List Event) (call : ℕ)
    → let b = (run (initial width room) es).bulkhead in
      (((acquire_slot b call).1 ≡ rejected) ↔ ((b.active ≡ width) × (length b.queue ≡ room)))
      × (((acquire_slot b call).1 ≡ granted) ↔ (b.active < width))
      × ((acquire_slot b call).1 ≡ queued → (acquire_slot b call).0.queue ≡ b.queue ++ call ∷ [])
unfolding acquire_slot
acquire_slot-history width room es call = ground (arith, run-initial-Inv width room es)
