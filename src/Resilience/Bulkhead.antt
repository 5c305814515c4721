-- ===== src/Resilience/Bulkhead.antt =====
-- packages/resilience/src/bulkhead/Bulkhead.ts. A call of `execute` is a number; what is queued is
-- the `resolve` callback of the call that waits, so the queue holds calls. `World` is a bulkhead
-- among its callers, with every interleaving of calls and completions as a list of events.
pub mod Invariant
use ts_commons.Base.{
  ℕ, ◌+◌, ◌-◌, Option, none, some, Bool, true, false, List, [], ◌∷◌, ◌++◌, if◌then◌else◌, ite, ltb,
  leb, length, ℕ_discrete,
}

pub record Bulkhead : Type 0 where
  pub max_concurrent : ℕ
  pub max_queue : ℕ
  pub active : ℕ
  pub queue : List ℕ

unfoldable pub new : ℕ → ℕ → Bulkhead
new max_concurrent max_queue = record {
  max_concurrent = max_concurrent;
  max_queue = max_queue;
  active = 0;
  queue = [];
}

-- How the promise of `acquireSlot` stands when the method returns.
pub data Slot : Type 0 where
  granted queued rejected : Slot

unfoldable pub acquire_slot : Bulkhead → ℕ → Bulkhead × Slot
acquire_slot b call =
    if ltb b.active b.max_concurrent
    then (record b { active = b.active + 1 }, granted)
    else (if leb b.max_queue (length b.queue)
        then (b, rejected)
        else (record b { queue = b.queue ++ call ∷ [] }, queued))

-- The second part is the waiting call whose promise `releaseSlot` resolves.
unfoldable pub release_slot : Bulkhead → Bulkhead × Option ℕ
release_slot b = elim b.queue [
  | [] ↦ (record b { active = b.active - 1 }, none)
  | next ∷ rest ↦ (record b { queue = rest }, some next)
]

abbrev pub get_active_count : Bulkhead → ℕ
get_active_count b = b.active

abbrev pub get_queue_size : Bulkhead → ℕ
get_queue_size b = length b.queue

-- The bulkhead, the calls whose `fn` runs, and what has happened: the calls that were not rejected,
-- in the order of the calls, and those whose `fn` was started, in the order of the starts.
pub record World : Type 0 where
  pub bulkhead : Bulkhead
  pub running : List ℕ
  pub accepted : List ℕ
  pub started : List ℕ

-- `execute` up to its first `await`, and `fn` when a slot is granted at once.
unfoldable pub begin_execute : World → ℕ → World
unfolding acquire_slot
begin_execute w call =
    let (b, slot) = acquire_slot w.bulkhead call in
    elim slot [
      | granted ↦ record {
        bulkhead = b;
        running = w.running ++ call ∷ [];
        accepted = w.accepted ++ call ∷ [];
        started = w.started ++ call ∷ [];
      }
      | queued ↦ record w { bulkhead = b; accepted = w.accepted ++ call ∷ [] }
      | rejected ↦ record w { bulkhead = b }
    ]

-- The `finally` of `execute`, with the call whose `fn` settled taken out of those that run, and
-- the waiting call, if one gets the slot, going on to its `fn`.
unfoldable pub end_execute : World → List ℕ → World
unfolding release_slot
end_execute w rest =
    let (b, next) = release_slot w.bulkhead in
    elim next [
      | none ↦ record w { bulkhead = b; running = rest }
      | some call ↦ record w {
        bulkhead = b;
        running = rest ++ call ∷ [];
        started = w.started ++ call ∷ [];
      }
    ]

-- The list without its first `call`, if it has one.
unfoldable pub without : ℕ → List ℕ → Option (List ℕ)
without call [] = none
without call (x ∷ xs) =
    let later = without call xs in
    ite (ℕ_discrete x call) (some xs) (elim later [ none ↦ none | some ys ↦ some (x ∷ ys) ])

pub data Event : Type 0 where
  calls settles : ℕ → Event

-- A call that does not run cannot settle, so that event changes nothing.
unfoldable pub step : World → Event → World
unfolding begin_execute end_execute without
step w (calls call) = begin_execute w call
step w (settles call) = elim (without call w.running) [ none ↦ w | some rest ↦ end_execute w rest ]

unfoldable pub run : World → List Event → World
unfolding step
run w [] = w
run w (e ∷ es) = run (step w e) es

unfoldable pub initial : ℕ → ℕ → World
unfolding new
initial max_concurrent max_queue = record {
  bulkhead = new max_concurrent max_queue;
  running = [];
  accepted = [];
  started = [];
}
