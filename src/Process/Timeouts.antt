-- ===== src/Process/Timeouts.antt =====
-- packages/process-manager/src/ProcessTimeoutScheduler.ts. A callback is its identity, a number;
-- those that `tick` calls are returned in their order. A callback does not itself call the
-- scheduler here.
use ts_commons.Base.{
  ℕ, ◌+◌, String, ◌≡◌, Bool, List, [], ◌∷◌, ◌++◌, arith, map, keep, leb, if◌then◌else◌, append-nil,
  append_assoc,
}
use ts_commons.Base.JsMap.{JsMap, set, delete, has, keys, values, size}

pub record TimeoutEntry : Type 0 where
  pub process_id : String
  pub fire_at : ℕ
  pub callback : ℕ

abbrev pub Pending : Type 0
Pending = JsMap TimeoutEntry

unfoldable pub schedule : Pending → ℕ → String → ℕ → ℕ → Pending
schedule m now process_id delay_ms callback =
    set process_id
      (record { process_id = process_id; fire_at = now + delay_ms; callback = callback }) m

unfoldable pub cancel : Pending → String → Pending
cancel m process_id = delete process_id m

abbrev pub is_due : ℕ → TimeoutEntry → Bool
is_due now e = leb e.fire_at now

-- The loop of `tick` over the entries left, with the map and the callbacks called so far.
unfoldable pub tick_each : ℕ → Pending → Pending → List ℕ → Pending × List ℕ
tick_each now [] m called = (m, called)
tick_each now ((id, e) ∷ es) m called =
    let fired = tick_each now es (delete id m) (called ++ e.callback ∷ []) in
    let skipped = tick_each now es m called in if is_due now e then fired else skipped

unfoldable pub tick : Pending → ℕ → Pending × List ℕ
unfolding tick_each
tick m now = tick_each now m m []

abbrev pub get_pending_ids : Pending → List String
get_pending_ids m = keys m

abbrev pub get_pending_count : Pending → ℕ
get_pending_count m = size m

abbrev pub has_pending : Pending → String → Bool
has_pending m process_id = has process_id m

tick_each-calls :
    (now : ℕ) (es m : Pending) (called : List ℕ)
    → (tick_each now es m called).1
      ≡ called ++ map (λ e. e.callback) (keep (is_due now) (values es))
unfolding tick_each
tick_each-calls now [] m called = rw append-nil
tick_each-calls now ((id, e) ∷ es) m called = ground (
  arith,
  tick_each-calls now es m called,
  tick_each-calls now es (delete id m) (called ++ e.callback ∷ []),
  append_assoc called (e.callback ∷ []) (map (λ e. e.callback) (keep (is_due now) (values es))),
)

-- `tick` calls the callbacks of exactly the entries that are due, in the order of the map.
tick-calls :
    (m : Pending) (now : ℕ) → (tick m now).1 ≡ map (λ e. e.callback) (keep (is_due now) (values m))
unfolding tick
tick-calls m now = tick_each-calls now m m []
