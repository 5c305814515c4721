-- ===== src/Streams/Queue/History.antt =====
-- What becomes of the items that are put in a queue.
use mathlib.Core.List.{Sublist, sublist-append_left}
use mathlib.Core.List.Sublist as Sublists
use ts_commons.Base.{
  ℕ, ◌+◌, ◌<◌, ◌≤◌, ◌≡◌, ◌⊎◌, refl, sym, ap, ◌∙◌, subst, none, some, List, [], ◌∷◌, ◌++◌, arith,
  ltb, length, length-append, append_assoc, append-nil, Bool-cases, inl, inr,
}
use ts_commons.Streams.Queue.{
  BackpressureStrategy, buffer, drop_oldest, drop_newest, BackpressureQueue, new, shift, push,
  apply_pressure, enqueue, dequeue, drain, Call, enqueues, dequeues, drains, run,
}

Strategy-cases : (s : BackpressureStrategy) → (s ≡ buffer) ⊎ (s ≡ drop_oldest) ⊎ (s ≡ drop_newest)
Strategy-cases buffer = inl refl
Strategy-cases drop_oldest = inr (inl refl)
Strategy-cases drop_newest = inr (inr refl)

module _ {A : Type 0} where
  abbrev pub enqueued : List (Call A) → List A
  enqueued [] = []
  enqueued (enqueues x ∷ cs) = x ∷ enqueued cs
  enqueued (dequeues ∷ cs) = enqueued cs
  enqueued (drains ∷ cs) = enqueued cs

  -- What `enqueue` makes of the items and of the count.
  data Enqueued (q : BackpressureQueue A) (x : A) (q' : BackpressureQueue A) : Type 0 where
    pushed : (q.strategy ≡ buffer) ⊎ (length q.items < q.max_size) → q' ≡ push q x → Enqueued q x q'
    refused :
        q.max_size ≤ length q.items
        → q' ≡ record q { dropped_count = q.dropped_count + 1 }
        → Enqueued q x q'
    shifted :
        (q.strategy ≡ drop_oldest)
        → q.max_size ≤ length q.items
        → q' ≡ record q { items = (shift q.items).1 ++ x ∷ []; dropped_count = q.dropped_count + 1 }
        → Enqueued q x q'

  enqueue-Enqueued : (q : BackpressureQueue A) (x : A) → Enqueued q x (enqueue q x)
  unfolding enqueue apply_pressure
  enqueue-Enqueued q x = elim (Strategy-cases q.strategy) [
    | inl e ↦ pushed (inl e) (ground (arith, e))
    | inr (inl e) ↦ elim (Bool-cases (ltb (length q.items) q.max_size)) [
      | inl l ↦ pushed (inr (ground (arith, l))) (ground (arith, e, l))
      | inr l ↦ shifted e (ground (arith, l)) (ground (arith, e, l))
    ]
    | inr (inr e) ↦ elim (Bool-cases (ltb (length q.items) q.max_size)) [
      | inl l ↦ pushed (inr (ground (arith, l))) (ground (arith, e, l))
      | inr l ↦ refused (ground (arith, l)) (ground (arith, e, l))
    ]
  ]

  shift-Sublist : (xs : List A) → Sublist (shift xs).1 xs
  shift-Sublist [] = Sublists.refl []
  shift-Sublist (x ∷ xs) = Sublists.cons x (Sublists.refl xs)

  length-shift : (xs : List A) → 0 < length xs → length (shift xs).1 + 1 ≡ length xs
  length-shift [] h = elim h [ ]
  length-shift (x ∷ xs) h = omega arith

  -- With `0 < max_size` a full queue has an item to drop.
  record Step (q : BackpressureQueue A) (x : A) (q' : BackpressureQueue A) : Type 0 where
    order : Sublist q'.items (q.items ++ x ∷ [])
    count : length q'.items + q'.dropped_count ≡ length q.items + q.dropped_count + 1
    bound : length q.items ≤ q.max_size → (q.strategy ≡ buffer) ⊎ (length q'.items ≤ q.max_size)
    max_size : q'.max_size ≡ q.max_size
    strategy : q'.strategy ≡ q.strategy

  Enqueued-Step :
      (q : BackpressureQueue A) (x : A) (q' : BackpressureQueue A)
      → 0 < q.max_size
      → Enqueued q x q'
      → Step q x q'
  Enqueued-Step q x q' pos (pushed r e) = subst (Step q x) (sym e) (record {
    order = Sublists.refl _;
    count = ground (arith, length-append q.items (x ∷ []));
    bound = λ le. elim r [
      | inl b ↦ inl b
      | inr lt ↦ inr (ground (arith, length-append q.items (x ∷ []), lt))
    ];
    max_size = refl;
    strategy = refl;
  })
  Enqueued-Step q x q' pos (refused r e) = subst (Step q x) (sym e) (record {
    order = sublist-append_left q.items (x ∷ []);
    count = omega arith;
    bound = λ le. inr le;
    max_size = refl;
    strategy = refl;
  })
  Enqueued-Step q x q' pos (shifted s r e) =
      let shorter = length-shift q.items (omega (arith, pos, r)) in
      let longer = length-append (shift q.items).1 (x ∷ []) in
      subst (Step q x) (sym e) (record {
        order = Sublists.append (shift-Sublist q.items) (Sublists.refl (x ∷ []));
        count = omega (arith, shorter, longer);
        bound = λ le. inr (omega (arith, shorter, longer, le));
        max_size = refl;
        strategy = refl;
      })

  -- The items that are handed out and those that stay are those that were put in, less the dropped,
  -- in the order in which they were put in.
  record Account (q : BackpressureQueue A) (xs : List A) (r : BackpressureQueue A × List A)
      : Type 0 where
    order : Sublist (r.1 ++ r.0.items) (q.items ++ xs)
    count : length (r.1 ++ r.0.items) + r.0.dropped_count ≡ length (q.items ++ xs) + q.dropped_count
    bound : length q.items ≤ q.max_size → (q.strategy ≡ buffer) ⊎ (length r.0.items ≤ q.max_size)

  enqueue-Account :
      (q : BackpressureQueue A) (x : A) (xs : List A) (r : BackpressureQueue A × List A)
      → 0 < q.max_size
      → Account (enqueue q x) xs r
      → Account q (x ∷ xs) r
  enqueue-Account q x xs r pos a =
      let s = Enqueued-Step q x (enqueue q x) pos (enqueue-Enqueued q x) in
      record {
        order =
            subst (Sublist (r.1 ++ r.0.items)) (append_assoc q.items (x ∷ []) xs)
              (Sublists.trans a.order (Sublists.append s.order (Sublists.refl xs)));
        count = omega (
          arith,
          a.count,
          s.count,
          length-append (enqueue q x).items xs,
          length-append q.items (x ∷ xs),
        );
        bound = λ le. elim (s.bound le) [
          | inl b ↦ inl b
          | inr le' ↦ elim (a.bound (omega (arith, le', s.max_size))) [
            | inl b ↦ inl (sym s.strategy ∙ b)
            | inr l ↦ inr (omega (arith, l, s.max_size))
          ]
        ];
      }

  length-shift-le : (xs : List A) → length (shift xs).1 ≤ length xs
  length-shift-le [] = omega arith
  length-shift-le (x ∷ xs) = omega arith

  dequeue-order :
      (items xs out left : List A)
      → Sublist (out ++ left) ((shift items).1 ++ xs)
      → Sublist ((elim (shift items).0 [ none ↦ out | some x ↦ x ∷ out ]) ++ left) (items ++ xs)
  dequeue-order [] xs out left h = h
  dequeue-order (x ∷ items) xs out left h = Sublists.cons-cons x h

  dequeue-count :
      (items xs out left : List A) (m n : ℕ)
      → length (out ++ left) + m ≡ length ((shift items).1 ++ xs) + n
      → length ((elim (shift items).0 [ none ↦ out | some x ↦ x ∷ out ]) ++ left) + m
        ≡ length (items ++ xs) + n
  dequeue-count [] xs out left m n h = h
  dequeue-count (x ∷ items) xs out left m n h = omega (arith, h)

  dequeue-Account :
      (q : BackpressureQueue A) (xs : List A) (r : BackpressureQueue A × List A)
      → Account (dequeue q).0 xs r
      → Account q xs (r.0, elim (dequeue q).1 [ none ↦ r.1 | some x ↦ x ∷ r.1 ])
  unfolding dequeue
  dequeue-Account q xs r a = record {
    order = dequeue-order q.items xs r.1 r.0.items a.order;
    count = dequeue-count q.items xs r.1 r.0.items r.0.dropped_count q.dropped_count a.count;
    bound = λ le. a.bound (omega (arith, le, length-shift-le q.items));
  }

  drain-Account :
      (q : BackpressureQueue A) (xs : List A) (r : BackpressureQueue A × List A)
      → Account (drain q).0 xs r
      → Account q xs (r.0, (drain q).1 ++ r.1)
  unfolding drain
  drain-Account q xs r a = record {
    order =
        subst (λ ys. Sublist ys (q.items ++ xs)) (sym (append_assoc q.items r.1 r.0.items))
          (Sublists.append (Sublists.refl q.items) a.order);
    count = omega (
      arith,
      a.count,
      ap length (append_assoc q.items r.1 r.0.items),
      length-append q.items (r.1 ++ r.0.items),
      length-append q.items xs,
    );
    bound = λ le. a.bound (omega arith);
  }

  dequeue-pos : (q : BackpressureQueue A) → 0 < q.max_size → 0 < (dequeue q).0.max_size
  unfolding dequeue
  dequeue-pos q pos = pos

  drain-pos : (q : BackpressureQueue A) → 0 < q.max_size → 0 < (drain q).0.max_size
  unfolding drain
  drain-pos q pos = pos

  run-Account :
      (q : BackpressureQueue A) (cs : List (Call A))
      → 0 < q.max_size
      → Account q (enqueued cs) (run q cs)
  unfolding run
  run-Account q [] pos = record {
    order = subst (Sublist q.items) (sym (append-nil q.items)) (Sublists.refl q.items);
    count = omega (arith, ap length (append-nil q.items));
    bound = λ le. inr le;
  }
  run-Account q (enqueues x ∷ cs) pos =
      enqueue-Account q x (enqueued cs) (run (enqueue q x) cs) pos (
        run-Account (enqueue q x) cs (
          omega
            (arith, pos, (Enqueued-Step q x (enqueue q x) pos (enqueue-Enqueued q x)).max_size)))
  run-Account q (dequeues ∷ cs) pos =
      dequeue-Account q (enqueued cs) (run (dequeue q).0 cs)
        (run-Account (dequeue q).0 cs (dequeue-pos q pos))
  run-Account q (drains ∷ cs) pos =
      drain-Account q (enqueued cs) (run (drain q).0 cs)
        (run-Account (drain q).0 cs (drain-pos q pos))

-- After any calls on a new queue whose bound is not 0: the items handed out, followed by those in the
-- queue, are items that were enqueued, in that order; their number and the count of the dropped make
-- up the number enqueued; and unless the strategy is to buffer, the queue is within its bound.
pub run_account :
    {A : Type 0} (max_size : ℕ) (strategy : BackpressureStrategy) (cs : List (Call A))
    → 0 < max_size
    → let (q, out) = run (new max_size strategy) cs in
      Sublist (out ++ q.items) (enqueued cs)
      × (length (out ++ q.items) + q.dropped_count ≡ length (enqueued cs))
      × ((strategy ≡ buffer) ⊎ (length q.items ≤ max_size))
run_account max_size strategy cs pos =
    let a = run-Account (new max_size strategy) cs pos in
    (a.order, omega (arith, a.count), a.bound (omega arith))
