-- ===== src/PubSub/RequestReply/InFlight.antt =====
-- Requests with correlation ids of their own.
use ts_commons.Base.{
  ℕ, String, ◌≡◌, ◌≢◌, refl, sym, ap, ◌∙◌, subst, Option, none, some, true, List, [], ◌∷◌, ◌++◌,
  arith, All, All-map, All-append, All-right, Option-cases, inl, inr,
}
use mathlib.Core.Option.{some-injective}
use ts_commons.Base.JsMap.{
  JsMap, get, set, delete, get-set_self, get-set_ne, get-delete_ne, get-delete_self,
}
use ts_commons.PubSub.RequestReply.{
  RequestReplyBroker, Timer, replied, new, clear_timeout, await_reply, on_timeout, deliver, cancel,
}

abbrev pub IsPending : JsMap ℕ → Timer → Type 0
IsPending m t = get t.correlation_id m ≡ some t.request

-- Each request whose timer is set is the one pending under its correlation id.
abbrev pub AllPending : RequestReplyBroker → Type 0
AllPending b = All (IsPending b.pending) b.timers

-- A request is taken out of the map and out of the timers.
drop-IsPending :
    (m : JsMap ℕ) (c : String) (n : ℕ) (ts : List Timer)
    → get c m ≡ some n
    → All (IsPending m) ts
    → All (IsPending (delete c m)) (clear_timeout n ts)
drop-IsPending m c n [] h a = tt
drop-IsPending m c n (t ∷ ts) h a =
    let rest = drop-IsPending m c n ts h a.1 in
    let still : t.request ≢ n → IsPending (delete c m) t = λ ne.
      get-delete_ne c t.correlation_id m
        (λ e. ne (some-injective _ _ (sym a.0 ∙ ap (λ j. get j m) (sym e) ∙ h)))
      ∙ a.0 in
    ground (arith, rest, still)

-- What the callers and the event loop do, in any order. A timer that is set fires.
pub data Event : Type 0 where
  awaits : String → Event
  receives : Option String → Event
  cancels : String → Event
  fires : Timer → Event

unfoldable pub step : RequestReplyBroker → Event → RequestReplyBroker
step b (awaits c) = await_reply b c
step b (receives c) = (deliver b c).0
step b (cancels c) = cancel b c
step b (fires t) = on_timeout b t

-- A caller awaits under an id that is not pending, and the timer that fires is set.
abbrev pub IsPossible : RequestReplyBroker → Event → Type 0
IsPossible b (awaits c) = get c b.pending ≡ none
IsPossible b (fires t) =
    (before : List Timer) × (after : List Timer) × (b.timers ≡ before ++ t ∷ after)
IsPossible b _ = Unit {0}

add-IsPending :
    (m : JsMap ℕ) (c : String) (n : ℕ) (ts : List Timer)
    → get c m ≡ none
    → All (IsPending m) ts
    → All (IsPending (set c n m)) ts
add-IsPending m c n ts h a =
    All-map (IsPending m) ts
      (λ t p.
        get-set_ne c t.correlation_id n m (λ e. none≢some (sym h ∙ ap (λ j. get j m) e ∙ p)) ∙ p)
      a
  where
    none≢some : {k : ℕ} → none ≡ some k → ⊥
    none≢some e = ground arith

step-AllPending :
    (b : RequestReplyBroker) (e : Event) → IsPossible b e → AllPending b → AllPending (step b e)
unfolding step await_reply deliver cancel on_timeout
step-AllPending b (awaits c) h a =
    All-append (IsPending _) b.timers _ (add-IsPending b.pending c b.next_request b.timers h a)
      (get-set_self c b.next_request b.pending, tt)
step-AllPending b (receives none) h a = a
step-AllPending b (receives (some c)) h a = elim (Option-cases (get c b.pending)) [
  | inl e ↦ rw (e, step, deliver) a
  | inr (n, e) ↦ rw (e, step, deliver) (drop-IsPending b.pending c n b.timers e a)
]
step-AllPending b (cancels c) h a = elim (Option-cases (get c b.pending)) [
  | inl e ↦ rw (e, step, cancel) a
  | inr (n, e) ↦ rw (e, step, cancel) (drop-IsPending b.pending c n b.timers e a)
]
step-AllPending b (fires t) (before, after, e) a =
    drop-IsPending b.pending t.correlation_id t.request b.timers
      (All-right (IsPending b.pending) before (t ∷ after) (subst (All (IsPending b.pending)) e a)).0
      a

unfoldable pub run : RequestReplyBroker → List Event → RequestReplyBroker
run b [] = b
run b (e ∷ es) = run (step b e) es

abbrev pub CanHappen : RequestReplyBroker → List Event → Type 0
CanHappen b [] = Unit {0}
CanHappen b (e ∷ es) = IsPossible b e × CanHappen (step b e) es

run-AllPending :
    (b : RequestReplyBroker) (es : List Event)
    → CanHappen b es
    → AllPending b
    → AllPending (run b es)
unfolding run
run-AllPending b [] h a = a
run-AllPending b (e ∷ es) h a = run-AllPending (step b e) es h.1 (step-AllPending b e h.0 a)

-- A reply under the timer's id is taken by the timer's request, and by no other.
abbrev pub IsAnswerable : RequestReplyBroker → Timer → Type 0
IsAnswerable b t =
    let (b', resolved) = deliver b (some t.correlation_id) in
    (resolved ≡ true)
    × (b'.settled ≡ b.settled ++ (t.request, replied) ∷ [])
    × (get t.correlation_id b'.pending ≡ none)

deliver-IsAnswerable :
    (b : RequestReplyBroker) (t : Timer) → IsPending b.pending t → IsAnswerable b t
unfolding deliver
deliver-IsAnswerable b t p =
    rw (p, deliver) (refl, refl, get-delete_self t.correlation_id b.pending)

-- When no caller awaits under an id that is still pending, and only timers that are set fire, in
-- any order with replies and cancellations, then at any moment each request whose timer is set is answerable: a reply under its id
-- resolves that request's promise, once, and leaves the id free.
pub run-new-IsAnswerable :
    (es : List Event) → CanHappen new es → All (IsAnswerable (run new es)) (run new es).timers
unfolding new
run-new-IsAnswerable es h =
    All-map (IsPending (run new es).pending) (run new es).timers (deliver-IsAnswerable (run new es))
      (run-AllPending new es h tt)
