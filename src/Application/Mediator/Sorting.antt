-- ===== src/Application/Mediator/Sorting.antt =====
-- The order in which a mediator keeps its behaviours.
use ts_commons.Base.{
  ◌≡◌, refl, sym, ap, ◌∙◌, Bool, false, ◌&&◌, List, [], ◌∷◌, ◌++◌, append-nil, append_assoc, arith,
  keep, keep-append, keep-none, All, All-map, Bool-cases, inl, inr,
}
use ts_commons.Base.Int.{ℤ, leb_ℤ, ◌≤ℤ◌}
use ts_commons.Application.Mediator.{
  PipelineBehavior, Mediator, order_of, insert_sorted, sort_onto, add_behavior, new,
}

module _ {S B A : Type 0} where
  -- The orders do not go down.
  abbrev pub IsSorted : List (PipelineBehavior S B A) → Type 0
  IsSorted [] = Unit {0}
  IsSorted (x ∷ xs) = All (λ y. order_of x ≤ℤ order_of y) xs × IsSorted xs

  abbrev pub has_order : ℤ → PipelineBehavior S B A → Bool
  has_order o b = leb_ℤ (order_of b) o && leb_ℤ o (order_of b)

  unfoldable pub add_all : List (PipelineBehavior S B A) → Mediator S B A → Mediator S B A
  unfolding add_behavior
  add_all [] m = m
  add_all (b ∷ bs) m = add_all bs (add_behavior b m)

  insert_sorted-All :
      (P : PipelineBehavior S B A → Type 0) (x : PipelineBehavior S B A)
      (ys : List (PipelineBehavior S B A))
      → P x
      → All P ys
      → All P (insert_sorted x ys)
  unfolding insert_sorted
  insert_sorted-All P x [] p a = (p, tt)
  insert_sorted-All P x (y ∷ ys) p a = elim (Bool-cases (leb_ℤ (order_of y) (order_of x))) [
    | inl e ↦ rw e (a.0, insert_sorted-All P x ys p a.1)
    | inr e ↦ rw e (p, a)
  ]

  insert_sorted-IsSorted :
      (x : PipelineBehavior S B A) (ys : List (PipelineBehavior S B A))
      → IsSorted ys
      → IsSorted (insert_sorted x ys)
  unfolding insert_sorted
  insert_sorted-IsSorted x [] s = (tt, tt)
  insert_sorted-IsSorted x (y ∷ ys) s = elim (Bool-cases (leb_ℤ (order_of y) (order_of x))) [
    | inl e ↦ rw e (
      insert_sorted-All (λ z. order_of y ≤ℤ order_of z) x ys (ground (arith, e)) s.0,
      insert_sorted-IsSorted x ys s.1,
    )
    | inr e ↦ rw e (
      (
        ground (arith, e),
        All-map (λ z. order_of y ≤ℤ order_of z) ys (λ z h. ground (arith, e, h)) s.0,
      ),
      s,
    )
  ]

  -- One that stands before others, all of higher orders, might as well stand behind them.
  keep-higher :
      (o : ℤ) (x : PipelineBehavior S B A) (ys : List (PipelineBehavior S B A))
      → All (λ y. leb_ℤ (order_of y) (order_of x) ≡ false) ys
      → keep (has_order o) (x ∷ ys) ≡ keep (has_order o) ys ++ keep (has_order o) (x ∷ [])
  keep-higher o x ys h = elim (Bool-cases (has_order o x)) [
    | inl e ↦ rw (e, keep-none (has_order o) ys (All-map _ ys (λ y g. ground (arith, e, g)) h)) refl
    | inr e ↦ rw (e, append-nil (keep (has_order o) ys)) refl
  ]

  -- Those of one order stay in their places, and the new one goes behind them.
  keep-insert_sorted :
      (o : ℤ) (x : PipelineBehavior S B A) (ys : List (PipelineBehavior S B A))
      → IsSorted ys
      → keep (has_order o) (insert_sorted x ys)
        ≡ keep (has_order o) ys ++ keep (has_order o) (x ∷ [])
  unfolding insert_sorted
  keep-insert_sorted o x [] s = refl
  keep-insert_sorted o x (y ∷ ys) s = elim (Bool-cases (leb_ℤ (order_of y) (order_of x))) [
    | inl e ↦ rw e (elim (Bool-cases (has_order o y)) [
      | inl f ↦ rw f (ap (λ zs. y ∷ zs) (keep-insert_sorted o x ys s.1))
      | inr f ↦ rw f (keep-insert_sorted o x ys s.1)
    ])
    | inr e ↦ rw e (keep-higher o x (y ∷ ys) (e, All-map _ ys (λ z h. ground (arith, e, h)) s.0))
  ]

  sort_onto-IsSorted :
      (done xs : List (PipelineBehavior S B A)) → IsSorted done → IsSorted (sort_onto done xs)
  unfolding sort_onto
  sort_onto-IsSorted done [] s = s
  sort_onto-IsSorted done (x ∷ xs) s =
      sort_onto-IsSorted (insert_sorted x done) xs (insert_sorted-IsSorted x done s)

  keep-sort_onto :
      (o : ℤ) (done xs : List (PipelineBehavior S B A))
      → IsSorted done
      → keep (has_order o) (sort_onto done xs) ≡ keep (has_order o) (done ++ xs)
  unfolding sort_onto
  keep-sort_onto o done [] s = ap (keep (has_order o)) (sym (append-nil done))
  keep-sort_onto o done (x ∷ xs) s =
      keep-sort_onto o (insert_sorted x done) xs (insert_sorted-IsSorted x done s)
      ∙ keep-append p (insert_sorted x done) xs
      ∙ ap (λ zs. zs ++ keep p xs) (keep-insert_sorted o x done s)
      ∙ append_assoc (keep p done) (keep p (x ∷ [])) (keep p xs)
      ∙ ap (λ zs. keep p done ++ zs) (sym (keep-append p (x ∷ []) xs))
      ∙ sym (keep-append p done (x ∷ xs))
    where
      p : PipelineBehavior S B A → Bool
      p = has_order o

  add_all-IsSorted :
      (bs : List (PipelineBehavior S B A)) (m : Mediator S B A)
      → IsSorted m.behaviors
      → IsSorted (add_all bs m).behaviors
  unfolding add_all add_behavior
  add_all-IsSorted [] m s = s
  add_all-IsSorted (b ∷ bs) m s =
      add_all-IsSorted bs (add_behavior b m) (sort_onto-IsSorted [] (m.behaviors ++ b ∷ []) tt)

  keep-add_all :
      (o : ℤ) (bs : List (PipelineBehavior S B A)) (m : Mediator S B A)
      → keep (has_order o) (add_all bs m).behaviors ≡ keep (has_order o) (m.behaviors ++ bs)
  unfolding add_all add_behavior
  keep-add_all o [] m = ap (keep (has_order o)) (sym (append-nil m.behaviors))
  keep-add_all o (b ∷ bs) m =
      keep-add_all o bs (add_behavior b m)
      ∙ keep-append p (add_behavior b m).behaviors bs
      ∙ ap (λ zs. zs ++ keep p bs) (keep-sort_onto o [] (m.behaviors ++ b ∷ []) tt)
      ∙ sym (keep-append p (m.behaviors ++ b ∷ []) bs)
      ∙ ap (keep p) (append_assoc m.behaviors (b ∷ []) bs)
    where
      p : PipelineBehavior S B A → Bool
      p = has_order o

  -- Behaviours added to a new mediator in any number and order stand by rising `order`, those of one
  -- order as they were added.
  pub add_all-stable :
      (bs : List (PipelineBehavior S B A))
      → IsSorted (add_all bs new).behaviors
        × ((o : ℤ) → keep (has_order o) (add_all bs new).behaviors ≡ keep (has_order o) bs)
  add_all-stable bs = (add_all-IsSorted bs new tt, λ o. keep-add_all o bs new)
