-- ===== src/Saga/Choreography.antt =====
-- packages/saga/src/SagaChoreography.ts. A handler is its identity, a number, and `effect` says
-- what a handler does with an event: it changes the world and fulfils or rejects.
use ts_commons.Base.{
  ℕ, String, ◌≡◌, ◌≢◌, ap, Option, none, some, not, List, [], ◌∷◌, ◌++◌, arith, length, keep,
  or_else, ◌==◌,
}
use ts_commons.Base.JsMap.{JsMap, get, set, delete, get-set_self, get-set_ne}
use ts_commons.Kernel.Result.{Result, ok, err}

pub record ChoreographyEvent (P : Type 0) : Type 0 where
  pub type : String
  pub payload : P
  pub saga_id : String
  pub timestamp : ℕ

-- The class has this one field.
abbrev pub Handlers : Type 0
Handlers = JsMap (List ℕ)

unfoldable pub on : Handlers → String → ℕ → Handlers
on m event_type handler =
    let existing = or_else (get event_type m) [] in set event_type (existing ++ handler ∷ []) m

unfoldable pub off : Handlers → String → ℕ → Handlers
off m event_type handler =
    let existing = or_else (get event_type m) [] in
    set event_type (keep (λ h. not (h == handler)) existing) m

unfoldable pub get_handler_count : Handlers → String → ℕ
get_handler_count m event_type = elim (get event_type m) [ none ↦ 0 | some hs ↦ length hs ]

unfoldable pub clear_handlers : Handlers → Option String → Handlers
clear_handlers m none = []
clear_handlers m (some event_type) = delete event_type m

module _ {W E P : Type 0} (effect : ℕ → ChoreographyEvent P → W → W × Result (Unit {0}) E) where
  -- The loop of `emit`: the first handler that rejects ends it.
  unfoldable pub call_each : List ℕ → ChoreographyEvent P → W → W × Result (Unit {0}) E
  call_each [] event w = (w, ok tt)
  call_each (h ∷ hs) event w =
      let (w', r) = effect h event w in
      let rest = call_each hs event w' in elim r [ ok u ↦ rest | err e ↦ (w', err e) ]

  unfoldable pub emit : Handlers → ChoreographyEvent P → W → W × Result (Unit {0}) E
  unfolding call_each
  emit m event w = call_each (or_else (get event.type m) []) event w

-- The handlers that `emit` calls for a type, in the order of the calls.
abbrev pub handlers_for : Handlers → String → List ℕ
handlers_for m event_type = or_else (get event_type m) []

get_handler_count-length :
    (m : Handlers) (t : String) → get_handler_count m t ≡ length (handlers_for m t)
unfolding get_handler_count
get_handler_count-length m t = ground arith

-- `on` puts the handler behind those of its event type, `off` takes out every registration of the
-- handler for that type and no other one, both leave the other types as they are, and the count is
-- the number of handlers that `emit` would call.
pub on_off_handlers :
    (m : Handlers) (t u : String) (h : ℕ)
    → (handlers_for (on m t h) t ≡ handlers_for m t ++ h ∷ [])
      × (handlers_for (off m t h) t ≡ keep (λ k. not (k == h)) (handlers_for m t))
      × (t ≢ u
          → (handlers_for (on m t h) u ≡ handlers_for m u)
            × (handlers_for (off m t h) u ≡ handlers_for m u))
      × (get_handler_count m t ≡ length (handlers_for m t))
unfolding on off
on_off_handlers m t u h = (
  ap (λ o. or_else o []) (get-set_self t _ m),
  ap (λ o. or_else o []) (get-set_self t _ m),
  λ ne. (
    ap (λ o. or_else o []) (get-set_ne t u _ m ne),
    ap (λ o. or_else o []) (get-set_ne t u _ m ne),
  ),
  get_handler_count-length m t,
)
