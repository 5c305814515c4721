-- ===== src/Streams/EventStream/Delivered.antt =====
-- What one observer among others is called with.
use ts_commons.Base.{
  ℕ, ◌==◌, ◌≡◌, ◌≢◌, ◌⊎◌, refl, ap, ◌∙◌, Bool, true, false, List, [], ◌∷◌, ◌++◌, arith,
  if◌then◌else◌, keep, keep-append, not, Bool-cases, inl, inr, append-nil,
}
use ts_commons.Streams.EventStream.{
  Signal, next, error, complete, Observer, Phase, is_open, is_completed, is_errored, Stream,
  Delivery, new, to_observer, to_all, subscribe, unsubscribe, emit, fail, finish, push, Call,
  subscribes, unsubscribes, pushes, run,
}

keep_comm : {A : Type 0} (p q : A → Bool) (xs : List A) → keep p (keep q xs) ≡ keep q (keep p xs)
keep_comm p q [] = refl
keep_comm p q (x ∷ xs) = elim (Bool-cases (p x)) [
  | inl e ↦ elim (Bool-cases (q x)) [
    | inl f ↦ rw (e, f, e) (ap (λ ys. x ∷ ys) (keep_comm p q xs))
    | inr f ↦ rw (e, f) (keep_comm p q xs)
  ]
  | inr e ↦ elim (Bool-cases (q x)) [
    | inl f ↦ rw (e, f, e) (keep_comm p q xs)
    | inr f ↦ rw (e, f) (keep_comm p q xs)
  ]
]

Phase-cases : (p : Phase) → (p ≡ is_open) ⊎ (p ≡ is_completed) ⊎ ((e : ℕ) × (p ≡ is_errored e))
Phase-cases is_open = inl refl
Phase-cases is_completed = inr (inl refl)
Phase-cases (is_errored e) = inr (inr (e, refl))

is_open-dec : (s : Stream) → (s.phase ≡ is_open) ⊎ (s.phase ≢ is_open)
is_open-dec s = elim (Phase-cases s.phase) [
  | inl e ↦ inl e
  | inr (inl e) ↦ inr (λ f. cc (e, f))
  | inr (inr (_, e)) ↦ inr (λ f. cc (e, f))
]

module _ (o : Observer) where
  abbrev named : ℕ × Observer → Bool
  named e = e.1.name == o.name

  -- A stream that has ended, or that has no subscriber of the name.
  data Deaf (s : Stream) : Type 0 where
    ended : s.phase ≢ is_open → Deaf s
    absent : keep named s.subscribers ≡ [] → Deaf s

  unsubscribe-Deaf : (s : Stream) (id : ℕ) → Deaf s → Deaf (unsubscribe s id)
  unfolding unsubscribe
  unsubscribe-Deaf s id (ended e) = ended e
  unsubscribe-Deaf s id (absent e) = absent (keep_comm named _ s.subscribers ∙ ap (keep _) e)

  -- While the observer is the only one of its name.
  record Heard (id : ℕ) (s : Stream) : Type 0 where
    listening : s.phase ≡ is_open
    present : keep named s.subscribers ≡ (id, o) ∷ []

  keep-unsubscribe :
      (id : ℕ) (s : Stream) (j : ℕ)
      → keep named s.subscribers ≡ (id, o) ∷ []
      → keep named (unsubscribe s j).subscribers ≡ keep (λ e. not (e.0 == j)) ((id, o) ∷ [])
  unfolding unsubscribe
  keep-unsubscribe id s j p = keep_comm named _ s.subscribers ∙ ap (keep _) p

  subscribe-absent :
      (A : Type 0) (s : Stream) (p : Observer)
      → (p.name == o.name) ≡ false
      → keep named s.subscribers ≡ []
      → keep named (subscribe {A = A} s p).0.subscribers ≡ []
  unfolding subscribe
  subscribe-absent A s p ne f = elim (Phase-cases s.phase) [
    | inl e ↦ rw (e, subscribe) (keep-append named s.subscribers _ ∙ rw (f, ne) refl)
    | inr (inl e) ↦ rw (e, subscribe) f
    | inr (inr (n, e)) ↦ rw (e, subscribe) f
  ]

module _ {A : Type 0} (o : Observer) where
  abbrev pub is_for : Delivery A → Bool
  is_for d = d.0.name == o.name

  -- No call subscribes another observer of the name.
  abbrev pub Others : List (Call A) → Type 0
  Others [] = Unit {0}
  Others (subscribes p ∷ cs) = ((p.name == o.name) ≡ false) × Others cs
  Others (unsubscribes id ∷ cs) = Others cs
  Others (pushes x ∷ cs) = Others cs

  -- From a subscription on: each value until the observer unsubscribes or the stream ends, and the
  -- end, if the observer has a callback for it.
  unfoldable pub expected : ℕ → List (Call A) → List (Delivery A)
  expected id [] = []
  expected id (subscribes p ∷ cs) = expected id cs
  expected id (unsubscribes j ∷ cs) = let rest = expected id cs in if id == j then [] else rest
  expected id (pushes (next v) ∷ cs) = (o, next v) ∷ expected id cs
  expected id (pushes (error e) ∷ cs) = to_observer (error e) o
  expected id (pushes complete ∷ cs) = to_observer complete o

  to_observer-keep :
      (x : Signal A) (p : Observer)
      → keep is_for (to_observer x p) ≡ (if p.name == o.name then to_observer x p else [])
  to_observer-keep (next v) p = ground arith
  to_observer-keep (error e) p = ground arith
  to_observer-keep complete p = ground arith

  to_all-keep :
      (x : Signal A) (os : List (ℕ × Observer))
      → keep is_for (to_all x os) ≡ to_all x (keep (named o) os)
  unfolding to_all
  to_all-keep x [] = refl
  to_all-keep x ((id, p) ∷ os) =
      keep-append is_for (to_observer x p) (to_all x os)
      ∙ by_name (p.name == o.name) (to_observer-keep x p) (to_all-keep x os)
    where
      by_name :
          (b : Bool)
          → keep is_for (to_observer x p) ≡ (if b then to_observer x p else [])
          → keep is_for (to_all x os) ≡ to_all x (keep (named o) os)
          → keep is_for (to_observer x p) ++ keep is_for (to_all x os)
            ≡ to_all x (if b then (id, p) ∷ keep (named o) os else keep (named o) os)
      by_name true h k = rw (h, k) refl
      by_name false h k = rw (h, k) refl

  push-shut : (s : Stream) (x : Signal A) → s.phase ≢ is_open → push s x ≡ (s, [])
  unfolding emit fail finish
  push-shut s (next v) h = elim (Phase-cases s.phase) [
    | inl e ↦ absurd (h e)
    | inr (inl e) ↦ rw e refl
    | inr (inr (_, e)) ↦ rw e refl
  ]
  push-shut s (error n) h = elim (Phase-cases s.phase) [
    | inl e ↦ absurd (h e)
    | inr (inl e) ↦ rw e refl
    | inr (inr (_, e)) ↦ rw e refl
  ]
  push-shut s complete h = elim (Phase-cases s.phase) [
    | inl e ↦ absurd (h e)
    | inr (inl e) ↦ rw e refl
    | inr (inr (_, e)) ↦ rw e refl
  ]

  -- The phase that a signal leaves an open stream in.
  abbrev phase_after : Signal A → Phase
  phase_after (next v) = is_open
  phase_after (error n) = is_errored n
  phase_after complete = is_completed

  push-open :
      (s : Stream) (x : Signal A)
      → s.phase ≡ is_open
      → push s x ≡ (record s { phase = phase_after x }, to_all x s.subscribers)
  unfolding emit fail finish
  push-open s (next v) e = rw e refl
  push-open s (error n) e = rw e refl
  push-open s complete e = rw e refl

  push-Deaf :
      (s : Stream) (x : Signal A) → Deaf o s → Deaf o (push s x).0 × (keep is_for (push s x).1 ≡ [])
  unfolding to_all
  push-Deaf s x d = elim (is_open-dec s) [
    | inr shut ↦ rw (push-shut s x shut) (d, refl)
    | inl opened ↦ rw (push-open s x opened) (elim d [
      | ended e ↦ absurd (e opened)
      | absent e ↦ (absent e, to_all-keep x s.subscribers ∙ ap (to_all x) e)
    ])
  ]

  subscribe-Deaf :
      (s : Stream) (p : Observer)
      → (p.name == o.name) ≡ false
      → Deaf o s
      → Deaf o (subscribe {A = A} s p).0 × (keep is_for (subscribe {A = A} s p).1 ≡ [])
  unfolding subscribe
  subscribe-Deaf s p ne d = elim (Phase-cases s.phase) [
    | inl e ↦
        rw (e, subscribe)
          (elim d [
            | ended f ↦ absurd (f e)
            | absent f ↦ (absent (keep-append (named o) s.subscribers _ ∙ rw (f, ne) refl), refl)
          ])
    | inr (inl e) ↦ rw (e, subscribe) (d, to_observer-keep complete p ∙ rw ne refl)
    | inr (inr (n, e)) ↦ rw (e, subscribe) (d, to_observer-keep (error n) p ∙ rw ne refl)
  ]

  -- Nothing for the observer before, and nothing after.
  nothing_more :
      (d ds : List (Delivery A))
      → keep is_for d ≡ []
      → keep is_for ds ≡ []
      → keep is_for (d ++ ds) ≡ []
  nothing_more d ds h k = keep-append is_for d ds ∙ rw (h, k) refl

  run-Deaf :
      (s : Stream) (cs : List (Call A)) → Others cs → Deaf o s → keep is_for (run s cs).1 ≡ []
  unfolding run
  run-Deaf s [] h d = refl
  run-Deaf s (subscribes p ∷ cs) h d =
      let (d', none') = subscribe-Deaf s p h.0 d in
      nothing_more _ _ none' (run-Deaf (subscribe {A = A} s p).0 cs h.1 d')
  run-Deaf s (unsubscribes id ∷ cs) h d =
      run-Deaf (unsubscribe s id) cs h (unsubscribe-Deaf o s id d)
  run-Deaf s (pushes x ∷ cs) h d =
      let (d', none') = push-Deaf s x d in nothing_more _ _ none' (run-Deaf (push s x).0 cs h d')

  push-subscribers : (s : Stream) (x : Signal A) → (push s x).0.subscribers ≡ s.subscribers
  push-subscribers s x = elim (is_open-dec s) [
    | inl e ↦ rw (push-open s x e) refl
    | inr e ↦ rw (push-shut s x e) refl
  ]

  -- Calls that do not subscribe the name leave it absent.
  run-absent :
      (s : Stream) (cs : List (Call A))
      → Others cs
      → keep (named o) s.subscribers ≡ []
      → keep (named o) (run s cs).0.subscribers ≡ []
  unfolding run unsubscribe
  run-absent s [] h e = e
  run-absent s (subscribes p ∷ cs) h e =
      run-absent (subscribe {A = A} s p).0 cs h.1 (subscribe-absent o A s p h.0 e)
  run-absent s (unsubscribes id ∷ cs) h e =
      run-absent (unsubscribe s id) cs h (keep_comm (named o) _ s.subscribers ∙ ap (keep _) e)
  run-absent s (pushes x ∷ cs) h e =
      run-absent (push s x).0 cs h (ap (keep (named o)) (push-subscribers s x) ∙ e)

  first_then :
      (x : Signal A) (s : Stream) {id : ℕ}
      → keep (named o) s.subscribers ≡ (id, o) ∷ []
      → (ds es : List (Delivery A)) → keep is_for ds ≡ es
      → keep is_for (to_all x s.subscribers ++ ds) ≡ to_observer x o ++ es
  unfolding to_all
  first_then x s p ds es h =
      keep-append is_for (to_all x s.subscribers) ds
      ∙ rw (to_all-keep x s.subscribers, p, h, append-nil (to_observer x o)) refl

  run-Heard :
      (id : ℕ) (s : Stream) (cs : List (Call A))
      → Others cs
      → Heard o id s
      → keep is_for (run s cs).1 ≡ expected id cs
  unfolding run expected
  run-Heard id s [] h i = refl
  run-Heard id s (subscribes p ∷ cs) h i =
      rw (i.listening, subscribe)
        (run-Heard id _ cs h.1 (record {
          listening = i.listening;
          present = keep-append (named o) s.subscribers _ ∙ rw (i.present, h.0) refl;
        }))
  run-Heard id s (unsubscribes j ∷ cs) h i = elim (Bool-cases (id == j)) [
    | inl e ↦
        rw e (
          run-Deaf (unsubscribe s j) cs h
            (absent (keep-unsubscribe o id s j i.present ∙ rw e refl)))
    | inr e ↦ rw e (
        run-Heard id (unsubscribe s j) cs h (record {
          listening = i.listening;
          present = keep-unsubscribe o id s j i.present ∙ rw e refl;
        }))
  ]
  run-Heard id s (pushes (next v) ∷ cs) h i =
      rw (push-open s (next v) i.listening)
        (first_then (next v) s i.present _ _ (run-Heard id _ cs h i'))
    where
      i' : Heard o id (record s { phase = is_open })
      i' = record { listening = refl; present = i.present }
  run-Heard id s (pushes (error n) ∷ cs) h i =
      rw (push-open s (error n) i.listening)
        (first_then (error n) s i.present _ _ (run-Deaf _ cs h (ended (λ e. cc e))) ∙ append-nil _)
  run-Heard id s (pushes complete ∷ cs) h i =
      rw (push-open s complete i.listening)
        (first_then complete s i.present _ _ (run-Deaf _ cs h (ended (λ e. cc e))) ∙ append-nil _)

-- On a stream that is open after some calls, none of which subscribed an observer of its name, an
-- observer that subscribes is called, in order, with each value that is emitted, until it
-- unsubscribes or the stream ends; with the end, if it has a callback for it; and with nothing more,
-- whatever else is called on the stream.
pub subscriber_hears :
    {A : Type 0} (o : Observer) (before cs : List (Call A))
    → Others o before
    → Others o cs
    → let s = (run new before).0 in
      s.phase ≡ is_open → keep (is_for o) (run s (subscribes o ∷ cs)).1 ≡ expected o s.next_id cs
unfolding subscribe run expected
subscriber_hears o before cs others others' opened =
    rw (opened, subscribe, run, expected)
      (run-Heard o _ _ cs others' (record {
        listening = opened;
        present =
            keep-append (named o) (run new before).0.subscribers _
            ∙ rw (run-absent o new before others refl) (ground arith);
      }))
