-- ===== src/Application/Mediator/Stack.antt =====
-- A mediator with the three behaviours, added in another order than the one in which they act.
use ts_commons.Base.{
  ℕ, ◌+◌, ◌-◌, ◌≤◌, String, ◌≡◌, refl, Option, none, some, true, false, List, [], ◌∷◌, arith,
  if◌then◌else◌, Option-cases, Bool-cases, inl, inr, ap, ◌∙◌,
}
use ts_commons.Base.JsMap.{get, set, get-set_self}
use ts_commons.Application.Mediator.{
  Outcome, resolved, rejected, invalid, Effect, Request, Mediator, RequestHandler, new, register,
  add_behavior, send,
}
use ts_commons.Application.Mediator.Behaviors.{
  World, MediatorLogEntry, CacheEntry, write_log, log_outcome, logging, validation, caching,
  remember, has_entry, is_stale,
}

-- `later` is within the time to live, where there is one.
abbrev pub IsWithin : Option ℕ → ℕ → ℕ → Type 0
IsWithin none start later = Unit {0}
IsWithin (some ttl) start later = later ≤ start + ttl

within-is_stale :
    {A : Type 0} (ttl_ms : Option ℕ) (v : A) (start later : ℕ)
    → IsWithin ttl_ms start later
    → is_stale ttl_ms (record { value = v; cached_at = start; ttl_ms = ttl_ms }) later ≡ false
unfolding is_stale
within-is_stale none v start later h = refl
within-is_stale (some ttl) v start later h = ground (arith, h)

abbrev pub succeeded : String → ℕ → MediatorLogEntry
succeeded name duration = record {
  request_type = name;
  duration_ms = duration;
  success = true;
  error = none;
}

-- What a handler does to the time and to its own state.
abbrev pub Handler : Type 0 → Type 0 → Type 0 → Type 0
Handler W B A = Request B → Effect (ℕ × W) A

abbrev pub in_world : {W B A : Type 0} → Handler W B A → RequestHandler (World W A) B A
in_world handler request s =
    let ((now, outer), r) = handler request (s.now, s.outer) in
    (record s { now = now; outer = outer }, r)

module _ {W B A : Type 0} (key_fn : B → String) (ttl_ms : Option ℕ)
    (validate : B → List String) where
  unfoldable pub stack : String → Handler W B A → Mediator (World W A) B A
  unfolding add_behavior caching validation logging
  stack name handler = add_behavior logging (
      add_behavior (validation validate)
        (add_behavior (caching key_fn ttl_ms) (register name (in_world handler) new)))

  -- What becomes of a request, but for the log.
  unfoldable pub answer : Handler W B A → Request B → World W A → World W A × Outcome A
  unfolding has_entry remember
  answer handler request s = elim (validate request.body) [
    | e ∷ es ↦ (s, rejected (invalid (e ∷ es)))
    | [] ↦ elim (get (key_fn request.body) s.cache) [
      | none ↦ remember ttl_ms (key_fn request.body) (in_world handler request s)
      | some entry ↦
          if is_stale ttl_ms entry s.now
          then remember ttl_ms (key_fn request.body) (in_world handler request s)
          else (s, resolved entry.value)
    ]
  ]

  -- The three behaviours act in the order of their numbers, whatever the order in which they were
  -- added: a request is validated first; a valid one is answered from the cache, or else by the
  -- handler, whose result is then kept; and however it ends, one entry is logged.
  pub send-stack :
      (handler : Handler W B A) (request : Request B) (s : World W A)
      → send (stack request.type_name handler) request s
        ≡ log_outcome request s.now (answer handler request s)
  unfolding send stack answer
  send-stack handler request s =
      rw (get-set_self request.type_name (in_world handler) [], send) refl

  answer_miss :
      (handler : Handler W B A) (request : Request B) (s : World W A)
      → validate request.body ≡ []
      → has_entry ttl_ms (key_fn request.body) s ≡ false
      → answer handler request s
        ≡ remember ttl_ms (key_fn request.body) (in_world handler request s)
  unfolding answer has_entry
  answer_miss handler request s valid miss =
      elim (Option-cases (get (key_fn request.body) s.cache)) [
        | inl e ↦ rw (valid, e, answer) refl
        | inr (entry, e) ↦ elim (Bool-cases (is_stale ttl_ms entry s.now)) [
          | inl stale ↦ rw (valid, e, stale, answer) refl
          | inr fresh ↦ absurd (ground (arith, miss, e, fresh))
        ]
      ]

  answer_hit :
      (handler : Handler W B A) (request : Request B) (s : World W A) (entry : CacheEntry A)
      → validate request.body ≡ []
      → get (key_fn request.body) s.cache ≡ some entry
      → is_stale ttl_ms entry s.now ≡ false
      → answer handler request s ≡ (s, resolved entry.value)
  unfolding answer
  answer_hit handler request s entry valid there fresh = rw (valid, there, fresh, answer) refl

  -- The world after a request that the handler answered.
  abbrev after : Request B → World W A → A → ℕ → W → World W A
  after request s v now outer =
      let k = key_fn request.body in
      write_log (succeeded request.type_name (now - s.now)) (record s {
        now = now;
        outer = outer;
        cache = set k (record { value = v; cached_at = now; ttl_ms = ttl_ms }) s.cache;
      })

  send_miss :
      (handler : Handler W B A) (request : Request B) (s : World W A) (v : A) (now : ℕ) (outer : W)
      → validate request.body ≡ []
      → has_entry ttl_ms (key_fn request.body) s ≡ false
      → handler request (s.now, s.outer) ≡ ((now, outer), resolved v)
      → send (stack request.type_name handler) request s ≡ (after request s v now outer, resolved v)
  unfolding log_outcome remember
  send_miss handler request s v now outer valid miss result =
      send-stack handler request s
      ∙ ap (log_outcome request s.now) (answer_miss handler request s valid miss)
      ∙ rw result refl

  -- A valid request for which the cache has no entry in time, and whose handler resolves, resolves to
  -- the handler's result. A valid request of its type and key, within the time to live after that,
  -- resolves to the same, and all that it changes is one more entry in the log.
  pub send_again :
      (handler : Handler W B A) (request : Request B) (other : B) (s : World W A) (v : A) (now : ℕ)
      (outer : W) (later : ℕ)
      → validate request.body ≡ []
      → validate other ≡ []
      → key_fn other ≡ key_fn request.body
      → has_entry ttl_ms (key_fn request.body) s ≡ false
      → handler request (s.now, s.outer) ≡ ((now, outer), resolved v)
      → IsWithin ttl_ms now later
      → let m = stack request.type_name handler in
        let (s', r) = send m request s in
        let s'' = record s' { now = later } in
        (r ≡ resolved v)
        × (send m (record { type_name = request.type_name; body = other }) s''
            ≡ (write_log (succeeded request.type_name 0) s'', resolved v))
  unfolding log_outcome
  send_again handler request other s v now outer later valid valid' same miss result within =
      rw (send_miss handler request s v now outer valid miss result) (
        refl,
        (send-stack handler again s''
            ∙ ap (log_outcome again later) (
                answer_hit handler again s'' _ valid'
                  (ap (λ k. get k s''.cache) same ∙ get-set_self (key_fn request.body) _ s.cache)
                  (within-is_stale ttl_ms v now later within))
            ∙ ap (λ n. (write_log (succeeded request.type_name n) s'', resolved v)) (omega arith)),
      )
    where
      again : Request B
      again = record { type_name = request.type_name; body = other }

      s'' : World W A
      s'' = record (after request s v now outer) { now = later }
