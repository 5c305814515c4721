-- ===== src/PubSub/TopicRouter/Delivery.antt =====
-- Which subscriptions a topic reaches after subscribing and unsubscribing.
use ts_commons.Base.{
  ℕ, ◌+◌, ◌<◌, String, ◌≡◌, refl, true, false, List, [], ◌∷◌, ◌++◌, arith, keep, keep-append, All,
  All-map, All-keep, All-append, if◌then◌else◌, ◌==◌,
}
use ts_commons.PubSub.TopicRouter.{
  TopicSubscription, TopicRouter, new, subscribe, unsubscribe, matches, matched,
}

-- The ids in use are below the next one.
abbrev pub IsFresh : TopicRouter → Type 0
IsFresh r = All (λ s. s.id < r.next_id) r.subscriptions

-- A call on the router.
pub data Call : Type 0 where
  subscribes : String → ℕ → Call
  unsubscribes : ℕ → Call

pub run : TopicRouter → List Call → TopicRouter
run r [] = r
run r (subscribes p h ∷ cs) = run (subscribe r p h).0 cs
run r (unsubscribes id ∷ cs) = run (unsubscribe r id) cs

subscribe-IsFresh : (r : TopicRouter) (p : String) (h : ℕ) → IsFresh r → IsFresh (subscribe r p h).0
unfolding subscribe
subscribe-IsFresh r p h f =
    All-append (λ s. s.id < r.next_id + 1) r.subscriptions _
      (All-map (λ s. s.id < r.next_id) r.subscriptions (λ s lt. omega arith) f) (omega arith, tt)

run-IsFresh : (r : TopicRouter) (cs : List Call) → IsFresh r → IsFresh (run r cs)
unfolding run unsubscribe
run-IsFresh r [] f = f
run-IsFresh r (subscribes p h ∷ cs) f =
    run-IsFresh (subscribe r p h).0 cs (subscribe-IsFresh r p h f)
run-IsFresh r (unsubscribes id ∷ cs) f =
    run-IsFresh (unsubscribe r id) cs (All-keep (λ s. s.id < r.next_id) _ r.subscriptions f)

keep-fresh_last :
    (n : ℕ) (xs : List TopicSubscription) (s : TopicSubscription)
    → s.id ≡ n
    → All (λ s. s.id < n) xs
    → keep (λ s. if s.id == n then false else true) (xs ++ s ∷ []) ≡ xs
keep-fresh_last n [] s e f = ground (arith)
keep-fresh_last n (x ∷ xs) s e f = ground (arith, keep-fresh_last n xs s e f.1)

unsubscribe-subscribe :
    (r : TopicRouter) (p : String) (h : ℕ)
    → IsFresh r
    → (unsubscribe (subscribe r p h).0 r.next_id).subscriptions ≡ r.subscriptions
unfolding subscribe unsubscribe
unsubscribe-subscribe r p h f = keep-fresh_last r.next_id r.subscriptions _ refl f

-- After any subscribing and unsubscribing: a new subscription is reached after the others by the
-- topics that its pattern matches, and by no other topic; and the function that `subscribe` returns
-- takes away that subscription alone.
pub subscribe-unsubscribe :
    (cs : List Call) (p : String) (h : ℕ) (topic : String)
    → let r = run new cs in
      let (r', id) = subscribe r p h in
      (matched r' topic
        ≡ matched r topic
          ++ (if matches p topic then record { id = id; pattern = p; handler = h } ∷ [] else []))
      × ((unsubscribe r' id).subscriptions ≡ r.subscriptions)
unfolding subscribe matched new
subscribe-unsubscribe cs p h topic =
    let r = run new cs in
    (keep-append _ r.subscriptions _, unsubscribe-subscribe r p h (run-IsFresh new cs tt))
