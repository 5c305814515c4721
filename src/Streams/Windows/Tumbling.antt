-- ===== src/Streams/Windows/Tumbling.antt =====
-- Windows that do not overlap.
use ts_commons.Base.{
  ℕ, ◌<◌, ◌≡◌, refl, sym, ap, subst, true, List, [], ◌∷◌, ◌++◌, map, arith, leb, if◌then◌else◌,
  length, length-append, append_assoc, append-nil, Bool-cases, inl, inr,
}
use ts_commons.Streams.EventStream.{Signal, next, complete}
use ts_commons.Streams.Operators.{pushed}
use ts_commons.Streams.Windows.{StreamWindow, Buffer, window, is_empty, tumbling}

module _ {A : Type 0} where
  -- A list cut into windows of `n` values, the last of which may have fewer, but has some.
  pub data Cut (n : ℕ) : List A → List (StreamWindow A) → Type 0 where
    done : Cut n [] []
    rest :
        {w : StreamWindow A} → 0 < length w.values → length w.values < n → Cut n w.values (w ∷ [])
    full :
        {w : StreamWindow A} {xs : List A} {ws : List (StreamWindow A)}
        → length w.values ≡ n
        → Cut n xs ws
        → Cut n (w.values ++ xs) (w ∷ ws)

  -- A source that emits each value at its time and then completes.
  abbrev pub completing : List (ℕ × A) → ℕ → List (ℕ × Signal A)
  completing vs end = map (λ v. (v.0, next v.1)) vs ++ (end, complete) ∷ []

  -- The windows and the end are what is pushed.
  abbrev Windows : ℕ → List A → List (Signal (StreamWindow A)) → Type 0
  Windows n xs out =
      (ws : List (StreamWindow A)) × (out ≡ map next ws ++ complete ∷ []) × Cut n xs ws

  last-Windows :
      (n : ℕ) (buffer : List A) (opened end : ℕ)
      → length buffer < n
      → Windows n (buffer ++ []) (
          if is_empty buffer
          then complete ∷ []
          else next (window buffer opened end) ∷ complete ∷ [])
  last-Windows n [] opened end lt = ([], refl, done)
  last-Windows n (x ∷ xs) opened end lt =
      let w = window (x ∷ xs) opened end in
      (
        w ∷ [],
        refl,
        subst (λ ys. Cut n ys (w ∷ [])) (sym (append-nil (x ∷ xs))) (rest {w = w} (omega arith) lt),
      )

  full_length :
      (n : ℕ) (buffer : List A) (v : A)
      → length buffer < n
      → leb n (length (buffer ++ v ∷ [])) ≡ true
      → length (buffer ++ v ∷ []) ≡ n
  full_length n buffer v lt e = ground (arith, e, lt, length-append buffer (v ∷ []))

  full_then :
      (n : ℕ) (buffer : List A) (v : A) (xs : List A) (opened closed : ℕ)
      (out : List (Signal (StreamWindow A)))
      → length (buffer ++ v ∷ []) ≡ n
      → Windows n xs out
      → Windows n (buffer ++ v ∷ xs) (next (window (buffer ++ v ∷ []) opened closed) ∷ out)
  full_then n buffer v xs opened closed out e (ws, p, c) =
      let w = window (buffer ++ v ∷ []) opened closed in
      (
        w ∷ ws,
        ap (λ ys. next w ∷ ys) p,
        subst (λ ys. Cut n ys (w ∷ ws)) (append_assoc buffer (v ∷ []) xs) (full {w = w} e c),
      )

  tumbling-Windows :
      (n : ℕ) (b : Buffer A) (vs : List (ℕ × A)) (end : ℕ)
      → length b.buffer < n
      → Windows n (b.buffer ++ map (λ v. v.1) vs) (pushed (tumbling n) b (completing vs end))
  unfolding pushed tumbling
  tumbling-Windows n b [] end lt = last-Windows n b.buffer b.opened_at end lt
  tumbling-Windows n b ((t, v) ∷ vs) end lt =
      elim (Bool-cases (leb n (length (b.buffer ++ v ∷ [])))) [
        | inl e ↦ rw e (
            full_then n b.buffer v _ b.opened_at t _ (full_length n b.buffer v lt e) (
              tumbling-Windows n (record { buffer = []; opened_at = t }) vs end
                (omega (arith, lt))))
        | inr e ↦ rw e (
            subst
              (λ ys. Windows n ys (
                pushed (tumbling n) (record b { buffer = b.buffer ++ v ∷ [] }) (completing vs end)))
              (append_assoc b.buffer (v ∷ []) (map (λ v. v.1) vs))
              (tumbling-Windows n (record b { buffer = b.buffer ++ v ∷ [] }) vs end
                (ground (arith, e))))
      ]

-- With a window size that is not 0, a source that emits some values and completes is cut into
-- windows: they hold its values in order, all are full but perhaps the last, which holds at least one
-- value; and the output completes after them.
pub tumbling_cuts :
    {A : Type 0} (n start : ℕ) (vs : List (ℕ × A)) (end : ℕ)
    → 0 < n
    → (ws : List (StreamWindow A)) × (pushed
          (tumbling n)
          (record { buffer = []; opened_at = start })
          (completing vs end)
        ≡ map next ws ++ complete ∷ [])
      × Cut n (map (λ v. v.1) vs) ws
tumbling_cuts n start vs end pos =
    tumbling-Windows n (record { buffer = []; opened_at = start }) vs end pos
