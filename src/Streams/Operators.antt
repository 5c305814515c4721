-- ===== src/Streams/Operators.antt =====
-- packages/streams/src/EventStream.ts: `map`, `filter`, `take` and `skip`. An operator subscribes to
-- its source at once and pushes on a stream of its own. What it does at a signal is a function of its
-- state, the time and the signal, to the signals that it pushes.
pub mod Pipeline
use ts_commons.Base.{ℕ, suc, ◌+◌, Bool, true, false, List, [], ◌∷◌, ◌++◌, ltb, leb, if◌then◌else◌}
use ts_commons.Streams.EventStream.{Signal, next, error, complete}

abbrev pub Operator : Type 0 → Type 0 → Type 0 → Type 0
Operator S A B = S → ℕ → Signal A → S × List (Signal B)

module _ {S A B : Type 0} where
  -- What an operator pushes for the signals of its source, each with its time: the source tells
  -- nothing after its end.
  unfoldable pub pushed : Operator S A B → S → List (ℕ × Signal A) → List (Signal B)
  pushed on s [] = []
  pushed on s ((now, next v) ∷ xs) = (on s now (next v)).1 ++ pushed on (on s now (next v)).0 xs
  pushed on s ((now, error e) ∷ xs) = (on s now (error e)).1
  pushed on s ((now, complete) ∷ xs) = (on s now complete).1

-- What a stream tells of the signals that are pushed on it: those up to the first end.
unfoldable pub told : {A : Type 0} → List (Signal A) → List (Signal A)
told [] = []
told (next v ∷ xs) = next v ∷ told xs
told (error e ∷ xs) = error e ∷ []
told (complete ∷ xs) = complete ∷ []

-- An error or the end of the source is passed on.
module _ {A B : Type 0} where
  unfoldable pub map_signals : (A → B) → Operator (Unit {0}) A B
  map_signals f s now (next v) = (s, next (f v) ∷ [])
  map_signals f s now (error e) = (s, error e ∷ [])
  map_signals f s now complete = (s, complete ∷ [])

module _ {A : Type 0} where
  unfoldable pub filter : (A → Bool) → Operator (Unit {0}) A A
  filter p s now (next v) = (s, if p v then next v ∷ [] else [])
  filter p s now (error e) = (s, error e ∷ [])
  filter p s now complete = (s, complete ∷ [])

  -- The state is how many values were seen, and whether the source is still subscribed to.
  unfoldable pub take_first : ℕ → Operator (ℕ × Bool) A A
  take_first count (seen, false) now x = ((seen, false), [])
  take_first count (seen, true) now (next v) =
      let last = leb count (seen + 1) in
      if ltb seen count
      then (if last
          then ((seen + 1, false), next v ∷ complete ∷ [])
          else ((seen + 1, true), next v ∷ []))
      else ((seen, true), [])
  take_first count (seen, true) now (error e) = ((seen, true), error e ∷ [])
  take_first count (seen, true) now complete = ((seen, true), complete ∷ [])

  -- The state is how many values were skipped.
  unfoldable pub skip : ℕ → Operator ℕ A A
  skip count skipped now (next v) =
      if ltb skipped count then (skipped + 1, []) else (skipped, next v ∷ [])
  skip count skipped now (error e) = (skipped, error e ∷ [])
  skip count skipped now complete = (skipped, complete ∷ [])
