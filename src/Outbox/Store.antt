-- ===== src/Outbox/Store.antt =====
-- packages/outbox/src/outbox: the message and the in-memory store. The envelope is a parameter
-- type. `Date.now()` is an argument.
pub mod Keyed
use ts_commons.Base.{
  ℕ, zero, suc, ◌+◌, ◌-◌, ◌≤◌, String, ◌≡◌, refl, ap, ◌∙◌, max, inl, inr, Bool-cases, append-nil,
  append_assoc, length-append, Option, none, some, Bool, true, false, not, List, [], ◌∷◌, ◌++◌,
  arith, keep, take, length, is_some, if◌then◌else◌, leb,
}
use ts_commons.Base.JsMap.{JsMap, get, set, values}

pub record OutboxMessage (V : Type 0) : Type 0 where
  pub id : String
  pub event_envelope : V
  pub created_at : ℕ
  pub published_at : Option ℕ
  pub attempts : ℕ
  pub last_attempt_at : Option ℕ
  pub error : Option String

module _ {V : Type 0} where
  abbrev pub is_unpublished : OutboxMessage V → Bool
  is_unpublished msg = not (is_some msg.published_at)

  unfoldable pub save : JsMap (OutboxMessage V) → OutboxMessage V → JsMap (OutboxMessage V)
  save m msg = set msg.id msg m

  -- The loop of `getUnpublished`, with the result so far. The test for the limit follows a push.
  unfoldable pub collect :
      ℕ → List (OutboxMessage V) → List (OutboxMessage V) → List (OutboxMessage V)
  collect limit result [] = result
  collect limit result (msg ∷ msgs) =
      let found = result ++ msg ∷ [] in
      let on_found = collect limit found msgs in
      let skipped = collect limit result msgs in
      if is_unpublished msg then (if leb limit (length found) then found else on_found) else skipped

  unfoldable pub get_unpublished : JsMap (OutboxMessage V) → ℕ → List (OutboxMessage V)
  unfolding collect
  get_unpublished m limit = collect limit [] (values m)

  -- The entry after `markAsPublished`, without its `error`.
  unfoldable pub published : OutboxMessage V → ℕ → OutboxMessage V
  published msg now = record msg {
    published_at = some now;
    attempts = msg.attempts + 1;
    last_attempt_at = some now;
    error = none;
  }

  unfoldable pub failed : OutboxMessage V → ℕ → String → OutboxMessage V
  failed msg now error = record msg {
    attempts = msg.attempts + 1;
    last_attempt_at = some now;
    error = some error;
  }

  unfoldable pub mark_as_published : JsMap (OutboxMessage V) → ℕ → String → JsMap (OutboxMessage V)
  unfolding published
  mark_as_published m now id = elim (get id m) [
    | none ↦ m
    | some msg ↦ set id (published msg now) m
  ]

  unfoldable pub mark_as_failed :
      JsMap (OutboxMessage V) → ℕ → String → String → JsMap (OutboxMessage V)
  unfolding failed
  mark_as_failed m now id error = elim (get id m) [
    | none ↦ m
    | some msg ↦ set id (failed msg now error) m
  ]

  abbrev pub get_all : JsMap (OutboxMessage V) → List (OutboxMessage V)
  get_all = values

  collect-take :
      (limit k : ℕ) (result msgs : List (OutboxMessage V))
      → limit ≡ length result + suc k
      → collect limit result msgs ≡ result ++ take (suc k) (keep is_unpublished msgs)
  unfolding collect
  collect-take limit k result [] h = rw append-nil
  collect-take limit zero result (msg ∷ msgs) h =
      ground (arith, collect-take limit zero result msgs h, length-append result (msg ∷ []))
  collect-take limit (suc k) result (msg ∷ msgs) h = ground (
    arith,
    collect-take limit (suc k) result msgs h,
    collect-take limit k (result ++ msg ∷ []) msgs,
    length-append result (msg ∷ []),
    append_assoc result (msg ∷ []) (take (suc k) (keep is_unpublished msgs)),
  )

  -- The loop with the limit 0 stops as with the limit 1: after its first push.
  collect-zero :
      (msgs : List (OutboxMessage V)) → collect 0 [] msgs ≡ take 1 (keep is_unpublished msgs)
  unfolding collect
  collect-zero [] = refl
  collect-zero (msg ∷ msgs) = ground (arith, collect-zero msgs)

  -- `getUnpublished` returns the first unpublished messages, in the order in which they were first
  -- saved, as many as the limit says; but with the limit 0 it returns one, if there is one.
  pub get_unpublished-take :
      (m : JsMap (OutboxMessage V)) (limit : ℕ)
      → get_unpublished m limit ≡ take (max 1 limit) (keep is_unpublished (values m))
  unfolding get_unpublished
  get_unpublished-take m zero = collect-zero (values m)
  get_unpublished-take m (suc k) =
      let e : suc k ≡ max 1 (suc k) = omega arith in
      collect-take (suc k) k [] (values m) (omega arith)
      ∙ ap (λ n. take n (keep is_unpublished (values m))) e
