-- ===== src/Application/Mediator/Behaviors.antt =====
-- The three behaviours, in a world that has the log of the one, the cache of another, the time in
-- milliseconds, and whatever the handlers use.
use ts_commons.Base.{
  ℕ, ◌-◌, String, Option, none, some, Bool, true, false, not, List, [], ◌∷◌, ◌++◌, ltb,
  if◌then◌else◌,
}
use ts_commons.Base.Int.{pos}
use ts_commons.Base.JsMap.{JsMap, get, set, delete}
use ts_commons.Application.Mediator.{
  Outcome, resolved, rejected, Failure, invalid, Effect, Request, PipelineBehavior,
}

pub record MediatorLogEntry : Type 0 where
  pub request_type : String
  pub duration_ms : ℕ
  pub success : Bool
  pub error : Option Failure

pub record CacheEntry (A : Type 0) : Type 0 where
  pub value : A
  pub cached_at : ℕ
  pub ttl_ms : Option ℕ

pub record World (W A : Type 0) : Type 0 where
  pub log : List MediatorLogEntry
  pub cache : JsMap (CacheEntry A)
  pub now : ℕ
  pub outer : W

-- Whether an entry has outlived its own time to live, or else the behaviour's.
unfoldable pub is_stale : {A : Type 0} → Option ℕ → CacheEntry A → ℕ → Bool
is_stale ttl_ms entry now = elim entry.ttl_ms [
  | some ttl ↦ ltb ttl (now - entry.cached_at)
  | none ↦ elim ttl_ms [ none ↦ false | some ttl ↦ ltb ttl (now - entry.cached_at) ]
]

module _ {W A : Type 0} where
  abbrev pub write_log : MediatorLogEntry → World W A → World W A
  write_log entry s = record s { log = s.log ++ entry ∷ [] }

  abbrev pub invalidate : String → World W A → World W A
  invalidate k s = record s { cache = delete k s.cache }

  abbrev pub clear_cache : World W A → World W A
  clear_cache s = record s { cache = [] }

  module _ (ttl_ms : Option ℕ) where
    -- The new entry is made when `next` has settled.
    unfoldable pub remember : String → World W A × Outcome A → World W A × Outcome A
    remember k (s, resolved v) = (
      record s { cache = set k (record { value = v; cached_at = s.now; ttl_ms = ttl_ms }) s.cache },
      resolved v,
    )
    remember k (s, rejected e) = (s, rejected e)

    -- `has`
    unfoldable pub has_entry : String → World W A → Bool
    unfolding is_stale
    has_entry k s = elim (get k s.cache) [
      | none ↦ false
      | some entry ↦ not (is_stale ttl_ms entry s.now)
    ]

module _ {W B A : Type 0} where
  -- `start` is the time at which the behaviour was entered.
  unfoldable pub log_outcome : Request B → ℕ → World W A × Outcome A → World W A × Outcome A
  log_outcome request start (s, resolved v) = (
    write_log
        (record {
          request_type = request.type_name;
          duration_ms = s.now - start;
          success = true;
          error = none;
        })
        s,
    resolved v,
  )
  log_outcome request start (s, rejected e) = (
    write_log
        (record {
          request_type = request.type_name;
          duration_ms = s.now - start;
          success = false;
          error = some e;
        })
        s,
    rejected e,
  )

  unfoldable pub logging : PipelineBehavior (World W A) B A
  unfolding log_outcome
  logging = record {
    order = some (pos 10);
    handle = λ request next s. log_outcome request s.now (next s);
  }

  unfoldable pub validation : (B → List String) → PipelineBehavior (World W A) B A
  validation validate = record {
    order = some (pos 20);
    handle = λ request next s. elim (validate request.body) [
      | [] ↦ next s
      | e ∷ es ↦ (s, rejected (invalid (e ∷ es)))
    ];
  }

  module _ (key_fn : B → String) (ttl_ms : Option ℕ) where
    unfoldable pub cache_handle : Request B → Effect (World W A) A → Effect (World W A) A
    unfolding is_stale remember
    cache_handle request next s =
        let k = key_fn request.body in
        elim (get k s.cache) [
          | none ↦ remember ttl_ms k (next s)
          | some entry ↦
              if is_stale ttl_ms entry s.now
              then remember ttl_ms k (next s)
              else (s, resolved entry.value)
        ]

    unfoldable pub caching : PipelineBehavior (World W A) B A
    unfolding cache_handle
    caching = record { order = some (pos 30); handle = cache_handle }
