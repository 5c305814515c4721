-- ===== src/PubSub/MessageFilter/Heard.antt =====
-- What a subscriber of a filtered router is called with.
use ts_commons.Base.{
  ℕ, ◌+◌, ◌<◌, ◌==◌, ◌≡◌, ◌≢◌, refl, ap, ◌∙◌, Bool, true, false, not, ◌&&◌, List, [], ◌∷◌, ◌++◌,
  map, keep, some_of, arith, All, All-map, All-keep, All-append, keep-append, append_assoc,
  Bool-cases, inl, inr, if◌then◌else◌,
}
use ts_commons.PubSub.MessageFilter.{
  EventEnvelope, MessageFilterOptions, FilteredRouter, Call, subscribes, unsubscribes, routes, new,
  passes, subscribe, unsubscribe, deliver, route, run,
}

abbrev ids : List (ℕ × ℕ) → List ℕ
ids ss = map (λ s. s.0) ss

abbrev IsOther : ℕ → List (ℕ × ℕ) → Type 0
IsOther id ss = All (λ s. s.0 ≢ id) ss

ids-keep :
    (m : ℕ) (ss : List (ℕ × ℕ))
    → ids (keep (λ s. not (s.0 == m)) ss) ≡ keep (λ k. not (k == m)) (ids ss)
ids-keep m [] = refl
ids-keep m ((k, h) ∷ ss) = ground (arith, ids-keep m ss)

module _ {T : Type 0} where
  -- The envelopes that one of the subscribers is called with.
  abbrev pub heard : ℕ → List (ℕ × EventEnvelope T) → List (EventEnvelope T)
  heard id [] = []
  heard id ((m, e) ∷ log) = let rest = heard id log in if m == id then e ∷ rest else rest

  -- What a subscriber should be called with, before which some others stand: what is routed and
  -- passes, unless a handler before its own fails. Those that subscribe later stand behind it.
  abbrev pub expected : MessageFilterOptions T → List ℕ → List (Call T) → List (EventEnvelope T)
  expected o ahead [] = []
  expected o ahead (subscribes h ∷ cs) = expected o ahead cs
  expected o ahead (unsubscribes m ∷ cs) = expected o (keep (λ k. not (k == m)) ahead) cs
  expected o ahead (routes e fails ∷ cs) =
      let rest = expected o ahead cs in
      if passes o e && not (some_of fails ahead) then e ∷ rest else rest

  -- No call takes the subscriber away.
  abbrev pub Keeps : ℕ → List (Call T) → Type 0
  Keeps id [] = Unit {0}
  Keeps id (unsubscribes m ∷ cs) = (m ≢ id) × Keeps id cs
  Keeps id (subscribes h ∷ cs) = Keeps id cs
  Keeps id (routes e fails ∷ cs) = Keeps id cs

  heard-append :
      (id : ℕ) (as_is more : List (ℕ × EventEnvelope T))
      → heard id (as_is ++ more) ≡ heard id as_is ++ heard id more
  heard-append id [] more = refl
  heard-append id ((m, e) ∷ log) more = ground (arith, heard-append id log more)

  -- Others hear nothing that is this subscriber's.
  deliver_others :
      (id : ℕ) (e : EventEnvelope T) (fails : ℕ → Bool) (ss : List (ℕ × ℕ))
      → IsOther id ss
      → heard id (deliver ss e fails).0 ≡ []
  unfolding deliver
  deliver_others id e fails [] o = refl
  deliver_others id e fails ((m, h) ∷ ss) o = ground (arith, o.0, deliver_others id e fails ss o.1)

  deliver-heard :
      (id h : ℕ) (e : EventEnvelope T) (fails : ℕ → Bool) (pre post : List (ℕ × ℕ))
      → IsOther id pre
      → IsOther id post
      → heard id (deliver (pre ++ (id, h) ∷ post) e fails).0
        ≡ (if not (some_of fails (ids pre)) then e ∷ [] else [])
  unfolding deliver
  deliver-heard id h e fails [] post o o' = ground (arith, deliver_others id e fails post o')
  deliver-heard id h e fails ((m, g) ∷ pre) post o o' =
      ground (arith, o.0, deliver-heard id h e fails pre post o.1 o')

  IsFresh : FilteredRouter T → Type 0
  IsFresh r = All (λ s. s.0 < r.next_id) r.subscribers

  subscribe-IsFresh : (r : FilteredRouter T) (h : ℕ) → IsFresh r → IsFresh (subscribe r h).0
  unfolding IsFresh subscribe
  subscribe-IsFresh r h f =
      All-append (λ s. s.0 < r.next_id + 1) r.subscribers _
        (All-map (λ s. s.0 < r.next_id) r.subscribers (λ s lt. omega arith) f) (omega arith, tt)

  run-IsFresh : (r : FilteredRouter T) (cs : List (Call T)) → IsFresh r → IsFresh (run r cs).0
  unfolding IsFresh run unsubscribe
  run-IsFresh r [] f = f
  run-IsFresh r (subscribes h ∷ cs) f = run-IsFresh (subscribe r h).0 cs (subscribe-IsFresh r h f)
  run-IsFresh r (unsubscribes id ∷ cs) f =
      run-IsFresh (unsubscribe r id) cs (All-keep (λ s. s.0 < r.next_id) _ r.subscribers f)
  run-IsFresh r (routes e fails ∷ cs) f = run-IsFresh r cs f

  -- Where the subscriber stands in the router.
  record Stands (id h : ℕ) (pre post : List (ℕ × ℕ)) (r : FilteredRouter T) : Type 0 where
    split : r.subscribers ≡ pre ++ (id, h) ∷ post
    before : IsOther id pre
    behind : IsOther id post
    taken : id < r.next_id

  route-heard :
      (r : FilteredRouter T) (id h : ℕ) (pre post : List (ℕ × ℕ)) (e : EventEnvelope T)
      (fails : ℕ → Bool)
      → Stands id h pre post r
      → heard id (route r e fails).0
        ≡ (if passes r.options e && not (some_of fails (ids pre)) then e ∷ [] else [])
  unfolding route
  route-heard r id h pre post e fails s = elim (Bool-cases (passes r.options e)) [
    | inl p ↦
        rw (p, route)
          (ap (λ ss. heard id (deliver ss e fails).0) s.split
            ∙ deliver-heard id h e fails pre post s.before s.behind)
    | inr p ↦ rw (p, route) refl
  ]

  subscribe-Stands :
      (r : FilteredRouter T) (id h g : ℕ) (pre post : List (ℕ × ℕ))
      → Stands id h pre post r
      → Stands id h pre (post ++ (r.next_id, g) ∷ []) (subscribe r g).0
  unfolding subscribe
  subscribe-Stands r id h g pre post s = record {
    split =
        ap (λ ss. ss ++ (r.next_id, g) ∷ []) s.split
        ∙ append_assoc pre ((id, h) ∷ post) ((r.next_id, g) ∷ []);
    before = s.before;
    behind =
        All-append (λ q. q.0 ≢ id) post _ s.behind ((λ e. absurd (omega (arith, e, s.taken))), tt);
    taken = omega (arith, s.taken);
  }

  unsubscribe-Stands :
      (r : FilteredRouter T) (id h m : ℕ) (pre post : List (ℕ × ℕ))
      → m ≢ id
      → Stands id h pre post r
      → Stands id h
          (keep (λ q. not (q.0 == m)) pre)
          (keep (λ q. not (q.0 == m)) post)
          (unsubscribe r m)
  unfolding unsubscribe
  unsubscribe-Stands r id h m pre post ne s =
      let stays : (id == m) ≡ false = ground (arith, ne) in
      record {
        split =
            ap (keep (λ q. not (q.0 == m))) s.split
            ∙ keep-append (λ q. not (q.0 == m)) pre ((id, h) ∷ post)
            ∙ ap
                (λ b.
                  keep (λ q. not (q.0 == m)) pre
                  ++ (if not b
                      then (id, h) ∷ keep (λ q. not (q.0 == m)) post
                      else keep (λ q. not (q.0 == m)) post))
                stays;
        before = All-keep (λ q. q.0 ≢ id) _ pre s.before;
        behind = All-keep (λ q. q.0 ≢ id) _ post s.behind;
        taken = s.taken;
      }

  hears :
      (r : FilteredRouter T) (id h : ℕ) (pre post : List (ℕ × ℕ)) (cs : List (Call T))
      → Stands id h pre post r
      → Keeps id cs
      → heard id (run r cs).1 ≡ expected r.options (ids pre) cs
  unfolding run subscribe unsubscribe
  hears r id h pre post [] s k = refl
  hears r id h pre post (subscribes g ∷ cs) s k =
      hears (subscribe r g).0 id h pre (post ++ (r.next_id, g) ∷ []) cs
        (subscribe-Stands r id h g pre post s) k
  hears r id h pre post (unsubscribes m ∷ cs) s k =
      hears (unsubscribe r m) id h (keep (λ q. not (q.0 == m)) pre)
        (keep (λ q. not (q.0 == m)) post) cs (unsubscribe-Stands r id h m pre post k.0 s) k.1
      ∙ ap (λ ks. expected r.options ks cs) (ids-keep m pre)
  hears r id h pre post (routes e fails ∷ cs) s k =
      heard-append id (route r e fails).0 (run r cs).1
      ∙ ap (λ xs. heard id (route r e fails).0 ++ xs) (hears r id h pre post cs s k)
      ∙ ap (λ xs. xs ++ expected r.options (ids pre) cs) (route-heard r id h pre post e fails s)
      ∙ elim (passes r.options e && not (some_of fails (ids pre)))
          as (λ b. (if b then e ∷ [] else []) ++ expected r.options (ids pre) cs ≡ (
            if b then e ∷ expected r.options (ids pre) cs else expected r.options (ids pre) cs)) [
              | true ↦ refl
              | false ↦ refl
            ]

  run-options : (r : FilteredRouter T) (cs : List (Call T)) → (run r cs).0.options ≡ r.options
  unfolding run subscribe unsubscribe
  run-options r [] = refl
  run-options r (subscribes h ∷ cs) = run-options (subscribe r h).0 cs
  run-options r (unsubscribes m ∷ cs) = run-options (unsubscribe r m) cs
  run-options r (routes e fails ∷ cs) = run-options r cs

  subscribed-Stands :
      (r : FilteredRouter T) (h : ℕ)
      → IsFresh r
      → Stands r.next_id h r.subscribers [] (subscribe r h).0
  unfolding IsFresh subscribe
  subscribed-Stands r h f = record {
    split = refl;
    before =
        All-map (λ s. s.0 < r.next_id) r.subscribers (λ s lt e. absurd (omega (arith, lt, e))) f;
    behind = tt;
    taken = omega arith;
  }

  -- After any calls on a new router, where each routing has settled before the next call: one who
  -- subscribes is called, until its own function to unsubscribe is, with exactly those envelopes
  -- routed from then on that the filter passes and for which no handler fails of one that had
  -- subscribed before it and has not left, in their order and once each.
  pub hears_filtered :
      (o : MessageFilterOptions T) (before after : List (Call T)) (h : ℕ)
      → Keeps (subscribe (run (new o) before).0 h).1 after
      → let r = (run (new o) before).0 in
        heard (subscribe r h).1 (run (subscribe r h).0 after).1
        ≡ expected o (map (λ s. s.0) r.subscribers) after
  unfolding subscribe IsFresh
  hears_filtered o before after h k =
      let r = (run (new o) before).0 in
      let f = run-IsFresh (new o) before tt in
      hears (subscribe r h).0 r.next_id h r.subscribers [] after (subscribed-Stands r h f) k
      ∙ ap (λ p. expected p (ids r.subscribers) after) (run-options (new o) before)
