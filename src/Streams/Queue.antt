-- ===== src/Streams/Queue.antt =====
-- packages/streams/src/BackpressureQueue.ts: the bounded queue and its three strategies.
pub mod History
use ts_commons.Base.{
  ℕ, suc, ◌+◌, ◌<◌, Option, none, some, Bool, true, false, List, [], ◌∷◌, ◌++◌, ltb, leb,
  if◌then◌else◌, length, get_elem?,
}

pub data BackpressureStrategy : Type 0 where
  buffer : BackpressureStrategy
  drop_oldest : BackpressureStrategy
  drop_newest : BackpressureStrategy

pub record BackpressureQueue (A : Type 0) : Type 0 where
  pub items : List A
  pub max_size : ℕ
  pub strategy : BackpressureStrategy
  pub dropped_count : ℕ

abbrev pub new : {A : Type 0} → ℕ → BackpressureStrategy → BackpressureQueue A
new max_size strategy = record {
  items = [];
  max_size = max_size;
  strategy = strategy;
  dropped_count = 0;
}

-- `items.shift()`: the first item and the others.
abbrev pub shift : {A : Type 0} → List A → Option A × List A
shift [] = (none, [])
shift (x ∷ xs) = (some x, xs)

module _ {A : Type 0} where
  abbrev pub push : BackpressureQueue A → A → BackpressureQueue A
  push q item = record q { items = q.items ++ item ∷ [] }

  -- Any strategy but `drop_newest` drops the oldest.
  unfoldable pub apply_pressure : BackpressureQueue A → A → BackpressureQueue A
  apply_pressure q item = elim q.strategy [
    | drop_newest ↦ record q { dropped_count = q.dropped_count + 1 }
    | _ ↦ record q { items = (shift q.items).1 ++ item ∷ []; dropped_count = q.dropped_count + 1 }
  ]

  unfoldable pub enqueue : BackpressureQueue A → A → BackpressureQueue A
  unfolding apply_pressure
  enqueue q item = elim q.strategy [
    | buffer ↦ push q item
    | _ ↦ if ltb (length q.items) q.max_size then push q item else apply_pressure q item
  ]

  unfoldable pub dequeue : BackpressureQueue A → BackpressureQueue A × Option A
  dequeue q = (record q { items = (shift q.items).1 }, (shift q.items).0)

  abbrev pub peek : BackpressureQueue A → Option A
  peek q = get_elem? q.items 0

  abbrev pub size : BackpressureQueue A → ℕ
  size q = length q.items

  abbrev pub is_empty : BackpressureQueue A → Bool
  is_empty q = leb (length q.items) 0

  unfoldable pub is_full : BackpressureQueue A → Bool
  is_full q = elim q.strategy [ buffer ↦ false | _ ↦ leb q.max_size (length q.items) ]

  unfoldable pub drain : BackpressureQueue A → BackpressureQueue A × List A
  drain q = (record q { items = [] }, q.items)

-- A call on the queue.
pub data Call (A : Type 0) : Type 0 where
  enqueues : A → Call A
  dequeues : Call A
  drains : Call A

-- The queue after some calls, and all the items that were handed out, in order.
unfoldable pub run :
    {A : Type 0} → BackpressureQueue A → List (Call A) → BackpressureQueue A × List A
unfolding enqueue dequeue drain
run q [] = (q, [])
run q (enqueues x ∷ cs) = run (enqueue q x) cs
run q (dequeues ∷ cs) =
    let (q', o) = dequeue q in
    let (q'', out) = run q' cs in (q'', elim o [ none ↦ out | some x ↦ x ∷ out ])
run q (drains ∷ cs) = let (q', xs) = drain q in let (q'', out) = run q' cs in (q'', xs ++ out)
