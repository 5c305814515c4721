-- ===== src/Streams/Merger/Together.antt =====
-- What the merged streams tell, whatever the order in which the sources do.
use ts_commons.Base.{
  ℕ, ◌+◌, ◌==◌, ◌<◌, ◌≡◌, refl, sym, ap, ◌∙◌, true, false, List, [], ◌∷◌, ◌++◌, map, map-append,
  append-nil, append_assoc, arith,
}
use ts_commons.Streams.EventStream.{Signal, next, error, complete}
use ts_commons.Streams.Merger.{merged, merge, on_merged, Either, from_a, from_b, try_emit_zip, zip}

module _ {A B : Type 0} where
  abbrev pub pairs : List A → List B → List (A × B)
  pairs [] right = []
  pairs (a ∷ left) [] = []
  pairs (a ∷ left) (b ∷ right) = (a, b) ∷ pairs left right

  -- The values of each source, in its own order. An end is passed over.
  abbrev pub values_a : List (Either A B) → List A
  values_a [] = []
  values_a (from_a (next v) ∷ xs) = v ∷ values_a xs
  values_a (_ ∷ xs) = values_a xs

  abbrev pub values_b : List (Either A B) → List B
  values_b [] = []
  values_b (from_b (next v) ∷ xs) = v ∷ values_b xs
  values_b (_ ∷ xs) = values_b xs

  abbrev pub NoErrors : List (Either A B) → Type 0
  NoErrors [] = Unit {0}
  NoErrors (from_a (error e) ∷ xs) = ⊥
  NoErrors (from_b (error e) ∷ xs) = ⊥
  NoErrors (_ ∷ xs) = NoErrors xs

  -- One of the buffers is empty.
  abbrev IsSpent : List A → List B → Type 0
  IsSpent [] right = Unit {0}
  IsSpent (a ∷ left) [] = Unit {0}
  IsSpent (a ∷ left) (b ∷ right) = ⊥

  try_emit_zip-IsSpent :
      (left : List A) (right : List B)
      → let (out, left', right') = try_emit_zip left right in IsSpent left' right'
  unfolding try_emit_zip
  try_emit_zip-IsSpent [] right = tt
  try_emit_zip-IsSpent (a ∷ left) [] = tt
  try_emit_zip-IsSpent (a ∷ left) (b ∷ right) = try_emit_zip-IsSpent left right

  try_emit_zip-pairs :
      (left xs : List A) (right ys : List B)
      → let (out, left', right') = try_emit_zip left right in
        out ++ pairs (left' ++ xs) (right' ++ ys) ≡ pairs (left ++ xs) (right ++ ys)
  unfolding try_emit_zip
  try_emit_zip-pairs [] xs right ys = refl
  try_emit_zip-pairs (a ∷ left) xs [] ys = refl
  try_emit_zip-pairs (a ∷ left) xs (b ∷ right) ys =
      ap (λ ps. (a, b) ∷ ps) (try_emit_zip-pairs left xs right ys)

  IsSpent-pairs : (left : List A) (right : List B) → IsSpent left right → pairs left right ≡ []
  IsSpent-pairs [] right s = refl
  IsSpent-pairs (a ∷ left) [] s = refl
  IsSpent-pairs (a ∷ left) (b ∷ right) s = elim s [ ]

  map-pairs :
      (left xs : List A) (right ys : List B)
      → let (out, left', right') = try_emit_zip left right in
        map (λ p. next p) out ++ map (λ p. next p) (pairs (left' ++ xs) (right' ++ ys))
        ≡ map (λ p. next p) (pairs (left ++ xs) (right ++ ys))
  map-pairs left xs right ys =
      let (out, left', right') = try_emit_zip left right in
      sym (map-append (λ p. next p) out (pairs (left' ++ xs) (right' ++ ys)))
      ∙ ap (map (λ p. next p)) (try_emit_zip-pairs left xs right ys)

  zip-pairs_from :
      (left : List A) (right : List B) (es : List (Either A B))
      → IsSpent left right
      → NoErrors es
      → zip left right es ≡ map next (pairs (left ++ values_a es) (right ++ values_b es))
  unfolding zip
  zip-pairs_from left right [] s h = ap (map next) (
      sym (IsSpent-pairs left right s)
      ∙ ap (λ zs. pairs zs right) (sym (append-nil left))
      ∙ ap (pairs (left ++ [])) (sym (append-nil right)))
  zip-pairs_from left right (from_a (next v) ∷ es) s h =
      let (out, left', right') = try_emit_zip (left ++ v ∷ []) right in
      ap (λ zs. map next out ++ zs)
        (zip-pairs_from left' right' es (try_emit_zip-IsSpent (left ++ v ∷ []) right) h)
      ∙ map-pairs (left ++ v ∷ []) (values_a es) right (values_b es)
      ∙ ap (λ zs. map next (pairs zs (right ++ values_b es)))
          (append_assoc left (v ∷ []) (values_a es))
  zip-pairs_from left right (from_b (next v) ∷ es) s h =
      let (out, left', right') = try_emit_zip left (right ++ v ∷ []) in
      ap (λ zs. map next out ++ zs)
        (zip-pairs_from left' right' es (try_emit_zip-IsSpent left (right ++ v ∷ [])) h)
      ∙ map-pairs left (values_a es) (right ++ v ∷ []) (values_b es)
      ∙ ap (λ zs. map next (pairs (left ++ values_a es) zs))
          (append_assoc right (v ∷ []) (values_b es))
  zip-pairs_from left right (from_a complete ∷ es) s h = zip-pairs_from left right es s h
  zip-pairs_from left right (from_b complete ∷ es) s h = zip-pairs_from left right es s h
  zip-pairs_from left right (from_a (error e) ∷ es) s h = elim h [ ]
  zip-pairs_from left right (from_b (error e) ∷ es) s h = elim h [ ]

-- In whatever order the values of two sources come, the zipped stream tells the pairs of the first
-- values, of the second, and so on, while both have one, and nothing else; no source fails here.
pub zip-pairs :
    {A B : Type 0} (es : List (Either A B))
    → NoErrors es
    → zip [] [] es ≡ map next (pairs (values_a es) (values_b es))
zip-pairs es h = zip-pairs_from [] [] es tt h

module _ {A : Type 0} where
  abbrev pub told_values : List (Signal A) → List A
  told_values [] = []
  told_values (next v ∷ xs) = v ∷ told_values xs
  told_values (_ ∷ xs) = told_values xs

  abbrev pub completions : List (Signal A) → ℕ
  completions [] = 0
  completions (complete ∷ xs) = completions xs + 1
  completions (_ ∷ xs) = completions xs

  abbrev pub NoFailures : List (Signal A) → Type 0
  NoFailures [] = Unit {0}
  NoFailures (error e ∷ xs) = ⊥
  NoFailures (_ ∷ xs) = NoFailures xs

  merged-lem :
      (sources n : ℕ) (xs ys : List (Signal A))
      → NoFailures xs
      → n + completions xs < sources
      → merged sources n (xs ++ ys)
        ≡ map next (told_values xs) ++ merged sources (n + completions xs) ys
  unfolding merged on_merged
  merged-lem sources n [] ys h lt = ap (λ k. merged sources k ys) (omega arith)
  merged-lem sources n (next v ∷ xs) ys h lt =
      ap (λ zs. next v ∷ zs) (merged-lem sources n xs ys h lt)
  merged-lem sources n (error e ∷ xs) ys h lt = elim h [ ]
  merged-lem sources n (complete ∷ xs) ys h lt =
      let early : (n + 1 == sources) ≡ false = ground (arith, lt) in
      rw early (
        merged-lem sources (n + 1) xs ys h (omega (arith, lt))
        ∙ ap (λ k. map next (told_values xs) ++ merged sources k ys) (omega arith))

-- The merged stream tells the values in the order in which they come, whichever sources they come
-- from, and completes with the last of its sources and not before; no source fails here.
pub merge_completes :
    {A : Type 0} (sources : ℕ) (xs : List (Signal A))
    → NoFailures xs
    → completions xs + 1 ≡ sources
    → (merge sources xs ≡ map next (told_values xs))
      × (merge sources (xs ++ complete ∷ []) ≡ map next (told_values xs) ++ complete ∷ [])
unfolding merge merged on_merged
merge_completes sources xs h e =
    let some_source : (sources == 0) ≡ false = ground (arith, e) in
    let last : (0 + completions xs + 1 == sources) ≡ true = ground (arith, e) in
    rw some_source (
      ap (merged sources 0) (sym (append-nil xs))
          ∙ merged-lem sources 0 xs [] h (omega (arith, e))
          ∙ append-nil _,
      merged-lem sources 0 xs (complete ∷ []) h (omega (arith, e)) ∙ rw last refl,
    )
