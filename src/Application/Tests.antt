-- ===== src/Application/Tests.antt =====
-- Runs of the use cases and of the mediator at concrete inputs.
use ts_commons.Base.{
  ℕ, ◌+◌, ◌≡◌, ◌≤◌, refl, All, keep, false, some, String, List, [], ◌∷◌, length, arith, dec_str,
}
use ts_commons.Base.JsMap.{get, set}
use ts_commons.Base.Int.{ℤ, pos, negsuc}
use ts_commons.Application.Idempotency.{
  Event, looks, acquires, fulfils, World, run, step, initial, get_result, take_call, acquire,
  first_look, settle, record_hit, returned,
}
use ts_commons.Application.Idempotency.OneAtATime.{one_call_per_key, InTime, HaveOwnKeys}
use ts_commons.Application.Idempotency.Cached.{fulfilled_is_cached}
use ts_commons.Application.Mediator.{resolved, PipelineBehavior, new, send}
use ts_commons.Application.Mediator.Sorting.{IsSorted, has_order, add_all, add_all-stable}
use ts_commons.Application.Mediator.Behaviors as Mediated
use ts_commons.Application.Mediator.Behaviors.{log_outcome, write_log, has_entry}
use ts_commons.Application.Mediator.Stack.{Handler, succeeded, send_again, stack}

abbrev two_calls : List (Event ℕ)
two_calls =
    looks 1 "a" 0 ∷ acquires 1 "a" 0 ∷ looks 2 "a" 3 ∷ acquires 2 "a" 3 ∷ acquires 3 "b" 4 ∷ []

-- The second call of the key does not run.
two_run : length (run 10 initial two_calls).running ≡ 2
unfolding run get set dec_str get_result
two_run = refl

two_calls-InTime : InTime 10 initial two_calls
unfolding step get set dec_str get_result
two_calls-InTime = (tt, (tt, ((omega arith, tt), ((omega arith, tt), ((omega arith, tt), tt)))))

abbrev later_world : World ℕ
later_world = run 10 initial two_calls

one_call_per_key_example :
    HaveOwnKeys later_world.running
    × ((call now : ℕ)
        → All
            (λ x. now ≤ x.acquired_at + 10 → acquire 10 later_world call x.key now ≡ later_world)
            later_world.running)
one_call_per_key_example = one_call_per_key 10 two_calls two_calls-InTime

two_calls-taken :
    take_call 1 later_world.running
    ≡ some (
      record { call = 1; key = "a"; acquired_at = 0 },
      record { call = 3; key = "b"; acquired_at = 4 } ∷ [],
    )
unfolding run get set dec_str get_result take_call
two_calls-taken = refl

fulfilled_is_cached_example :
    let w' = run 10 (step 10 later_world (fulfils 1 7 6)) (acquires 4 "a" 9 ∷ []) in
    (first_look 10 w' 5 "a" 12
      ≡ record w' { metrics = record_hit w'.metrics; settled = settle 10 w' 5 (returned 7) })
    × (acquire 10 w' 5 "a" 12 ≡ w')
fulfilled_is_cached_example =
    fulfilled_is_cached 10 later_world 1 _ _ 7 6 (acquires 4 "a" 9 ∷ [])
      (one_call_per_key 10 two_calls two_calls-InTime).0 two_calls-taken (omega arith, tt) 5 12
      (omega arith)

-- A handler that counts its runs, takes 5 ms and answers with twice what it is sent.
abbrev double : Handler ℕ ℕ ℕ
double request (now, runs) = ((now + 5, runs + 1), resolved (request.body + request.body))

abbrev fresh_world : Mediated.World ℕ ℕ
fresh_world = record { log = []; cache = []; now = 100; outer = 0 }

-- The key is one and the same, and nothing is invalid.
abbrev one_key : ℕ → String
one_key n = "n"

abbrev no_errors : ℕ → List String
no_errors n = []

fresh_world-has_entry : has_entry (some 60) "n" fresh_world ≡ false
unfolding has_entry get
fresh_world-has_entry = refl

send_again_example :
    let m = stack one_key (some 60) no_errors "Double" double in
    let (s', r) = send m (record { type_name = "Double"; body = 4 }) fresh_world in
    let s'' = record s' { now = 150 } in
    (r ≡ resolved 8)
    × (send m (record { type_name = "Double"; body = 9 }) s''
        ≡ (write_log (succeeded "Double" 0) s'', resolved 8))
send_again_example =
    send_again one_key (some 60) no_errors double (record { type_name = "Double"; body = 4 }) 9
      fresh_world 8 105 1 150 refl refl refl fresh_world-has_entry refl (omega arith)

abbrev behavior_of : ℤ → PipelineBehavior ℕ ℕ ℕ
behavior_of o = record { order = some o; handle = λ request next. next }

abbrev unordered : List (PipelineBehavior ℕ ℕ ℕ)
unordered = behavior_of (pos 3) ∷ behavior_of (negsuc 0) ∷ behavior_of (pos 3) ∷ []

add_all-stable_example :
    IsSorted (add_all unordered new).behaviors
    × ((o : ℤ)
        → keep (has_order o) (add_all unordered new).behaviors ≡ keep (has_order o) unordered)
add_all-stable_example = add_all-stable unordered
