-- ===== src/Streams/Merger.antt =====
-- packages/streams/src/StreamMerger.ts: streams made of several. What the sources tell comes in any
-- order, each signal with its source.
pub mod Together
use ts_commons.Base.{
  ℕ, suc, ◌+◌, ◌==◌, Option, none, some, Bool, true, false, List, [], ◌∷◌, ◌++◌, map, if◌then◌else◌,
}
use ts_commons.Streams.EventStream.{Signal, next, error, complete}

-- `merge`: the number of the sources, and of those that have completed.
module _ {A : Type 0} (sources : ℕ) where
  unfoldable pub on_merged : ℕ → Signal A → ℕ × List (Signal A)
  on_merged completed_count (next v) = (completed_count, next v ∷ [])
  on_merged completed_count (error e) = (completed_count, error e ∷ [])
  on_merged completed_count complete =
      (completed_count + 1, if completed_count + 1 == sources then complete ∷ [] else [])

  unfoldable pub merged : ℕ → List (Signal A) → List (Signal A)
  unfolding on_merged
  merged n [] = []
  merged n (x ∷ xs) = (on_merged n x).1 ++ merged (on_merged n x).0 xs

  -- With no source the stream completes at once.
  unfoldable pub merge : List (Signal A) → List (Signal A)
  unfolding merged
  merge xs = if sources == 0 then complete ∷ [] else merged 0 xs

-- Which of two sources a signal comes from.
pub data Either (A B : Type 0) : Type 0 where
  from_a : Signal A → Either A B
  from_b : Signal B → Either A B

module _ {A B : Type 0} where
  -- The loop that pairs the front values, with the buffers that it leaves.
  unfoldable pub try_emit_zip : List A → List B → List (A × B) × List A × List B
  try_emit_zip [] right = ([], [], right)
  try_emit_zip (a ∷ left) [] = ([], a ∷ left, [])
  try_emit_zip (a ∷ left) (b ∷ right) =
      let (out, left', right') = try_emit_zip left right in ((a, b) ∷ out, left', right')

  -- The end of a source is not listened to.
  unfoldable pub zip : List A → List B → List (Either A B) → List (Signal (A × B))
  unfolding try_emit_zip
  zip buf_a buf_b [] = []
  zip buf_a buf_b (from_a (next v) ∷ xs) =
      let (out, left, right) = try_emit_zip (buf_a ++ v ∷ []) buf_b in
      map next out ++ zip left right xs
  zip buf_a buf_b (from_b (next v) ∷ xs) =
      let (out, left, right) = try_emit_zip buf_a (buf_b ++ v ∷ []) in
      map next out ++ zip left right xs
  zip buf_a buf_b (from_a (error e) ∷ xs) = error e ∷ zip buf_a buf_b xs
  zip buf_a buf_b (from_b (error e) ∷ xs) = error e ∷ zip buf_a buf_b xs
  zip buf_a buf_b (from_a complete ∷ xs) = zip buf_a buf_b xs
  zip buf_a buf_b (from_b complete ∷ xs) = zip buf_a buf_b xs

  abbrev pub paired : Option A → Option B → List (Signal (A × B))
  paired none b = []
  paired (some a) none = []
  paired (some a) (some b) = next (a, b) ∷ []

  -- The latest value of each source, if it has told one.
  unfoldable pub combine_latest : Option A → Option B → List (Either A B) → List (Signal (A × B))
  combine_latest a b [] = []
  combine_latest a b (from_a (next v) ∷ xs) = paired (some v) b ++ combine_latest (some v) b xs
  combine_latest a b (from_b (next v) ∷ xs) = paired a (some v) ++ combine_latest a (some v) xs
  combine_latest a b (from_a (error e) ∷ xs) = error e ∷ combine_latest a b xs
  combine_latest a b (from_b (error e) ∷ xs) = error e ∷ combine_latest a b xs
  combine_latest a b (from_a complete ∷ xs) = combine_latest a b xs
  combine_latest a b (from_b complete ∷ xs) = combine_latest a b xs

-- The matching stream, and the other.
unfoldable pub split :
    {A : Type 0} → (A → Bool) → List (Signal A) → List (Signal A) × List (Signal A)
split p [] = ([], [])
split p (next v ∷ xs) =
    let (yes_s, no_s) = split p xs in if p v then (next v ∷ yes_s, no_s) else (yes_s, next v ∷ no_s)
split p (error e ∷ xs) = let (yes_s, no_s) = split p xs in (error e ∷ yes_s, error e ∷ no_s)
split p (complete ∷ xs) = let (yes_s, no_s) = split p xs in (complete ∷ yes_s, complete ∷ no_s)
