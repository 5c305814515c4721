-- ===== src/Streams/Tests.antt =====
-- Runs of the streams at concrete inputs.
use mathlib.Core.List.{Sublist}
use ts_commons.Base.{
  ℕ, ◌+◌, ◌≤◌, ◌≡◌, ◌⊎◌, refl, Bool, true, false, List, [], ◌∷◌, ◌++◌, map, arith, ltb, keep, take,
  drop, length,
}
use ts_commons.Streams.EventStream
use ts_commons.Streams.EventStream.{
  Signal, next, error, complete, Observer, is_open, Call, subscribes, unsubscribes, pushes,
}
use ts_commons.Streams.EventStream.Delivered.{subscriber_hears, is_for, expected}
use ts_commons.Streams.Queue
use ts_commons.Streams.Queue.{BackpressureQueue, buffer, drop_oldest, drop_newest}
use ts_commons.Streams.Queue.History.{run_account, enqueued}
use ts_commons.Streams.Operators.{pushed, map_signals, filter, take_first, skip}
use ts_commons.Streams.Operators.Pipeline.{pipeline_lists, through, completing}
use ts_commons.Streams.Windows.{StreamWindow, tumbling, sliding}
use ts_commons.Streams.Windows.Tumbling
use ts_commons.Streams.Windows.Tumbling.{tumbling_cuts, Cut}
use ts_commons.Streams.Windows.Sliding.{sliding-slides, contents, slides}
use ts_commons.Streams.Merger.{Either, from_a, from_b, zip}
use ts_commons.Streams.Merger.Together.{zip-pairs, pairs, values_a, values_b}

abbrev observer : ℕ → Observer
observer n = record { name = n; has_error = false; has_complete = true }

abbrev first_calls : List (Call ℕ)
first_calls = subscribes (observer 1) ∷ pushes (next 4) ∷ []

abbrev then_calls : List (Call ℕ)
then_calls = pushes (next 5) ∷ unsubscribes 0 ∷ pushes complete ∷ pushes (next 6) ∷ []

is_open_after : (EventStream.run EventStream.new first_calls).0.phase ≡ is_open
unfolding EventStream.run
is_open_after = refl

subscriber_hears_example :
    let s = (EventStream.run EventStream.new first_calls).0 in
    keep (is_for (observer 2)) (EventStream.run s (subscribes (observer 2) ∷ then_calls)).1
    ≡ expected (observer 2) s.next_id then_calls
subscriber_hears_example =
    subscriber_hears (observer 2) first_calls then_calls (refl, tt) tt is_open_after

heard : expected (observer 2) 1 then_calls ≡ (observer 2, next 5) ∷ (observer 2, complete) ∷ []
unfolding expected
heard = refl

abbrev queue_calls : List (Queue.Call ℕ)
queue_calls =
    Queue.enqueues 1 ∷ Queue.enqueues 2 ∷ Queue.enqueues 3 ∷ Queue.dequeues ∷ Queue.enqueues 4 ∷ []

run_account_example :
    let (q, out) = Queue.run (Queue.new 2 drop_oldest) queue_calls in
    Sublist (out ++ q.items) (enqueued queue_calls)
    × (length (out ++ q.items) + q.dropped_count ≡ length (enqueued queue_calls))
    × ((drop_oldest ≡ buffer) ⊎ (length q.items ≤ 2))
run_account_example = run_account 2 drop_oldest queue_calls (omega arith)

oldest_dropped : (Queue.run (Queue.new 2 drop_oldest) queue_calls).1 ≡ 2 ∷ []
unfolding Queue.run
oldest_dropped = refl

-- A queue with room for nothing that is to drop the oldest keeps one item.
no_room_keeps_one :
    (Queue.run {A = ℕ} (Queue.new 0 drop_oldest) (Queue.enqueues 7 ∷ [])).0.items ≡ 7 ∷ []
unfolding Queue.run
no_room_keeps_one = refl

-- To take none of the values does not complete before the source does.
take_none : pushed {A = ℕ} (take_first 0) (0, true) ((1, next 5) ∷ (2, next 6) ∷ []) ≡ []
unfolding pushed take_first
take_none = refl

abbrev timed : List (ℕ × ℕ)
timed = (10, 1) ∷ (11, 2) ∷ (15, 3) ∷ []

tumbling_cuts_example :
    (ws : List (StreamWindow ℕ)) × (pushed
        (tumbling 2)
        (record { buffer = []; opened_at = 0 })
        (Tumbling.completing timed 20)
      ≡ map next ws ++ complete ∷ [])
    × Cut 2 (map (λ v. v.1) timed) ws
tumbling_cuts_example = tumbling_cuts 2 0 timed 20 (omega arith)

sliding-slides_example :
    contents (
      pushed
        (sliding 2 1)
        (record { ring = []; count = 0; ring_opened_at = [] })
        (map (λ v. (v.0, next v.1)) timed))
    ≡ slides 2 1 [] (map (λ v. v.1) timed)
sliding-slides_example = sliding-slides 2 1 timed

slid : slides {A = ℕ} 2 1 [] (1 ∷ 2 ∷ 3 ∷ []) ≡ (1 ∷ 2 ∷ []) ∷ (2 ∷ 3 ∷ []) ∷ []
unfolding slides
slid = refl

-- With step 0 the source's remainder is not a number and never 0.
slid_never : slides {A = ℕ} 1 0 [] (1 ∷ 2 ∷ 3 ∷ []) ≡ []
unfolding slides
slid_never = refl

pipeline_lists_example :
    through
      (take_first 2)
      (0, true)
      0
      (through (skip 1) 0 0 (
        through
          (map_signals (λ n. n + 1))
          tt
          0
          (through (filter (ltb 2)) tt 0 (completing (1 ∷ 3 ∷ 5 ∷ 7 ∷ 9 ∷ [])))))
    ≡ completing (take 2 (drop 1 (map (λ n. n + 1) (keep (ltb 2) (1 ∷ 3 ∷ 5 ∷ 7 ∷ 9 ∷ [])))))
pipeline_lists_example = pipeline_lists (ltb 2) (λ n. n + 1) 1 2 0 (1 ∷ 3 ∷ 5 ∷ 7 ∷ 9 ∷ [])

abbrev arrivals : List (Either ℕ Bool)
arrivals = from_a (next 1) ∷ from_a (next 2) ∷ from_b (next true) ∷ from_a complete ∷ []

zip-pairs_example : zip [] [] arrivals ≡ map next (pairs (values_a arrivals) (values_b arrivals))
zip-pairs_example = zip-pairs arrivals tt

abbrev two_sources : List (Signal ℕ)
two_sources = next 1 ∷ complete ∷ next 2 ∷ []
