-- ===== src/Streams/Windows/Sliding.antt =====
-- Windows that overlap.
use ts_commons.Base.{
  ℕ, zero, suc, ◌+◌, ◌-◌, ◌%◌, ◌≤◌, ◌==◌, ◌≡◌, refl, sym, ap, ◌∙◌, Bool, true, false, ◌&&◌, List,
  [], ◌∷◌, ◌++◌, map, arith, leb, ltb, if◌then◌else◌, length, drop, length-append, Bool-cases, inl,
  inr,
}
use ts_commons.Streams.EventStream.{Signal, next, error, complete}
use ts_commons.Streams.Operators.{pushed}
use ts_commons.Streams.Queue.{shift}
use ts_commons.Streams.Windows.{StreamWindow, Ring, window, push_shift, first_or, sliding}

-- The last `n` of a list, or all of it where it is shorter.
abbrev pub last_of : {A : Type 0} → ℕ → List A → List A
last_of n xs = drop (length xs - n) xs

module _ {A : Type 0} where
  -- The values of the windows that are told.
  unfoldable pub contents : List (Signal (StreamWindow A)) → List (List A)
  contents [] = []
  contents (next w ∷ xs) = w.values ∷ contents xs
  contents (error e ∷ xs) = contents xs
  contents (complete ∷ xs) = contents xs

  -- At each value whose number is a multiple of `step`, the last `size` of those seen, once there are
  -- as many.
  unfoldable pub slides : ℕ → ℕ → List A → List A → List (List A)
  slides size step seen [] = []
  slides size step seen (v ∷ vs) =
      let now = seen ++ v ∷ [] in
      (if (length now % step == 0) && leb size (length now) then last_of size now ∷ [] else [])
      ++ slides size step now vs

  drop-nil : (n : ℕ) → ◌≡◌ {A = List A} [] (drop n [])
  drop-nil zero = refl
  drop-nil (suc n) = refl

  length-drop : (n : ℕ) (xs : List A) → length (drop n xs) ≡ length xs - n
  length-drop zero xs = omega arith
  length-drop (suc n) [] = omega arith
  length-drop (suc n) (x ∷ xs) = omega (arith, length-drop n xs)

  drop-append : (n : ℕ) (xs ys : List A) → n ≤ length xs → drop n (xs ++ ys) ≡ drop n xs ++ ys
  drop-append zero xs ys h = refl
  drop-append (suc n) [] ys h = elim h [ ]
  drop-append (suc n) (x ∷ xs) ys h = drop-append n xs ys (omega (arith, h))

  shift-drop : (n : ℕ) (xs : List A) → (shift (drop n xs)).1 ≡ drop (suc n) xs
  shift-drop zero [] = refl
  shift-drop zero (x ∷ xs) = refl
  shift-drop (suc n) [] = refl
  shift-drop (suc n) (x ∷ xs) = shift-drop n xs

  push_shift-last_of :
      (size : ℕ) (xs : List A) (v : A)
      → push_shift size (last_of size xs) v ≡ last_of size (xs ++ v ∷ [])
  push_shift-last_of size xs v = elim (Bool-cases (leb size (length xs))) [
    | inl e ↦
        let long : ltb size (length (drop k xs ++ v ∷ [])) ≡ true =
          ground (arith, length-append (drop k xs) (v ∷ []), length-drop k xs, e) in
        let grows : suc k ≡ length (xs ++ v ∷ []) - size =
          ground (arith, length-append xs (v ∷ []), e) in
        rw long (
          ap (λ ys. (shift ys).1) (sym (drop-append k xs (v ∷ []) (omega arith)))
          ∙ shift-drop k (xs ++ v ∷ [])
          ∙ ap (λ n. drop n (xs ++ v ∷ [])) grows)
    | inr e ↦
        let short : ltb size (length (drop k xs ++ v ∷ [])) ≡ false =
          ground (arith, length-append (drop k xs) (v ∷ []), length-drop k xs, e) in
        let all : k ≡ 0 = ground (arith, e) in
        let still : 0 ≡ length (xs ++ v ∷ []) - size =
          ground (arith, length-append xs (v ∷ []), e) in
        rw short (ap (λ n. drop n xs ++ v ∷ []) all ∙ ap (λ n. drop n (xs ++ v ∷ [])) still)
  ]
    where
      k : ℕ
      k = length xs - size

  last_of-full :
      (size : ℕ) (xs : List A) → (length (last_of size xs) == size) ≡ leb size (length xs)
  last_of-full size xs = ground (arith, length-drop (length xs - size) xs)

  contents-if :
      (b : Bool) (w : StreamWindow A) (xs : List (Signal (StreamWindow A)))
      → contents ((if b then next w ∷ [] else []) ++ xs)
        ≡ (if b then w.values ∷ [] else []) ++ contents xs
  unfolding contents
  contents-if true w xs = refl
  contents-if false w xs = refl

  -- The ring holds the last values seen.
  record Rings (size : ℕ) (seen : List A) (r : Ring A) : Type 0 where
    ring : r.ring ≡ last_of size seen
    count : r.count ≡ length seen

  same_windows :
      (size step : ℕ) {n n' : ℕ} {xs xs' : List A} {out out' : List (List A)}
      → xs ≡ xs'
      → n ≡ n'
      → out ≡ out'
      → (if (n % step == 0) && (length xs == size) then xs ∷ [] else []) ++ out
        ≡ (if (n' % step == 0) && (length xs' == size) then xs' ∷ [] else []) ++ out'
  same_windows size step p q r = rw (p, q, r) refl

  sliding-slides_from :
      (size step : ℕ) (seen : List A) (vs : List (ℕ × A)) (r : Ring A)
      → Rings size seen r
      → contents (pushed (sliding size step) r (map (λ v. (v.0, next v.1)) vs))
        ≡ slides size step seen (map (λ v. v.1) vs)
  unfolding pushed sliding slides contents
  sliding-slides_from size step seen [] r i = refl
  sliding-slides_from size step seen ((t, v) ∷ vs) r i =
      let here : push_shift size r.ring v ≡ last_of size (seen ++ v ∷ []) =
        ap (λ ys. push_shift size ys v) i.ring ∙ push_shift-last_of size seen v in
      let counted : r.count + 1 ≡ length (seen ++ v ∷ []) =
        omega (arith, i.count, length-append seen (v ∷ [])) in
      let ring = push_shift size r.ring v in
      let opened = push_shift size r.ring_opened_at t in
      let r' : Ring A = record { ring = ring; count = r.count + 1; ring_opened_at = opened } in
      contents-if ((r.count + 1) % step == 0 && length ring == size)
        (window ring (first_or t opened) t)
        (pushed (sliding size step) r' (map (λ v. (v.0, next v.1)) vs))
      ∙ same_windows size step here counted (
          sliding-slides_from size step (seen ++ v ∷ []) vs r'
            (record { ring = here; count = counted }))
      ∙ ap
          (λ b.
            (if (length (seen ++ v ∷ []) % step == 0) && b
              then last_of size (seen ++ v ∷ []) ∷ []
              else [])
            ++ slides size step (seen ++ v ∷ []) (map (λ v. v.1) vs))
          (last_of-full size (seen ++ v ∷ []))

-- What the windows hold, for a source that emits some values: at each value whose number is a
-- multiple of `step`, the last `size` values, once there are as many; and nothing else.
pub sliding-slides :
    {A : Type 0} (size step : ℕ) (vs : List (ℕ × A))
    → contents (
        pushed
          (sliding size step)
          (record { ring = []; count = 0; ring_opened_at = [] })
          (map (λ v. (v.0, next v.1)) vs))
      ≡ slides size step [] (map (λ v. v.1) vs)
sliding-slides size step vs =
    sliding-slides_from size step [] vs _ (record { ring = drop-nil (0 - size); count = refl })
