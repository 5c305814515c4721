-- ===== src/Outbox/Store/Keyed.antt =====
-- Stores in which each message stands once, under its id: what `getUnpublished` returns from one,
-- and that the store's operations keep it so.
use mathlib.Core.Option.{some-injective}
use ts_commons.Base.{
  ℕ, zero, suc, String, ◌≡◌, ◌≢◌, refl, sym, ap, ◌∙◌, subst, Option, none, some, Bool, true, false,
  List, [], ◌∷◌, arith, keep, take, All, All-keep, All-take, All-map, All-both, Bool-cases, max,
  inl, inr,
}
use ts_commons.Base.JsMap.{JsMap, get, set, values, IsDistinct, Lacks, Lacks-get, set-IsDistinct}
use ts_commons.Outbox.Store.{
  OutboxMessage, is_unpublished, save, get_unpublished, mark_as_published, mark_as_failed,
  published, failed, get_unpublished-take,
}

module _ {V : Type 0} where
  -- The entry of each message stands under the message's id, once.
  abbrev pub IsKeyed : JsMap (OutboxMessage V) → Type 0
  IsKeyed m = All (λ e. e.0 ≡ e.1.id) m × IsDistinct m

  -- No two messages of the list share an id.
  abbrev pub HaveOwnIds : List (OutboxMessage V) → Type 0
  HaveOwnIds [] = Unit {0}
  HaveOwnIds (m ∷ ms) = All (λ n. m.id ≢ n.id) ms × HaveOwnIds ms

  HaveOwnIds-keep :
      (p : OutboxMessage V → Bool) (ms : List (OutboxMessage V))
      → HaveOwnIds ms
      → HaveOwnIds (keep p ms)
  HaveOwnIds-keep p [] h = tt
  HaveOwnIds-keep p (m ∷ ms) h = elim (Bool-cases (p m)) [
    | inl e ↦ rw e (All-keep (λ n. m.id ≢ n.id) p ms h.0, HaveOwnIds-keep p ms h.1)
    | inr e ↦ rw e (HaveOwnIds-keep p ms h.1)
  ]

  HaveOwnIds-take : (n : ℕ) (ms : List (OutboxMessage V)) → HaveOwnIds ms → HaveOwnIds (take n ms)
  HaveOwnIds-take zero ms h = tt
  HaveOwnIds-take (suc n) [] h = tt
  HaveOwnIds-take (suc n) (m ∷ ms) h =
      (All-take (λ k. m.id ≢ k.id) n ms h.0, HaveOwnIds-take n ms h.1)

  Lacks-ids :
      (id : String) (m : JsMap (OutboxMessage V))
      → Lacks id m
      → All (λ e. e.0 ≡ e.1.id) m
      → All (λ n. id ≢ n.id) (values m)
  Lacks-ids id [] l k = tt
  Lacks-ids id ((j, w) ∷ m) l k = (λ e. l.0 (k.0 ∙ sym e), Lacks-ids id m l.1 k.1)

  values-HaveOwnIds : (m : JsMap (OutboxMessage V)) → IsKeyed m → HaveOwnIds (values m)
  values-HaveOwnIds [] k = tt
  values-HaveOwnIds ((j, w) ∷ m) k = (
    subst (λ i. All (λ n. i ≢ n.id) (values m)) k.0.0 (Lacks-ids j m k.1.0 k.0.1),
    values-HaveOwnIds m (k.0.1, k.1.1),
  )

  abbrev pub IsStored : JsMap (OutboxMessage V) → OutboxMessage V → Type 0
  IsStored m msg = get msg.id m ≡ some msg

  values-IsStored : (m : JsMap (OutboxMessage V)) → IsKeyed m → All (IsStored m) (values m)
  unfolding get
  values-IsStored [] k = tt
  values-IsStored ((j, w) ∷ m) k = (
    ground arith,
    All-map (IsStored m) (values m) (λ msg h. ground (arith, Lacks-get j m k.1.0))
        (values-IsStored m (k.0.1, k.1.1)),
  )

  pub batch-HaveOwnIds :
      (m : JsMap (OutboxMessage V)) (limit : ℕ) → IsKeyed m → HaveOwnIds (get_unpublished m limit)
  batch-HaveOwnIds m limit k =
      subst HaveOwnIds (sym (get_unpublished-take m limit))
        (HaveOwnIds-take (max 1 limit) _ (HaveOwnIds-keep is_unpublished _ (values-HaveOwnIds m k)))

  pub batch-IsStored :
      (m : JsMap (OutboxMessage V)) (limit : ℕ)
      → IsKeyed m
      → All (IsStored m) (get_unpublished m limit)
  batch-IsStored m limit k = subst (All (IsStored m)) (sym (get_unpublished-take m limit)) (
      All-take (IsStored m) (max 1 limit) _
        (All-keep (IsStored m) is_unpublished _ (values-IsStored m k)))

  set-ids :
      (id : String) (v : OutboxMessage V) (m : JsMap (OutboxMessage V))
      → v.id ≡ id
      → All (λ e. e.0 ≡ e.1.id) m
      → All (λ e. e.0 ≡ e.1.id) (set id v m)
  unfolding set
  set-ids id v [] h k = (sym h, tt)
  set-ids id v ((j, w) ∷ m) h k = ground (arith, set-ids id v m h k.1)

  set-IsKeyed :
      (id : String) (v : OutboxMessage V) (m : JsMap (OutboxMessage V))
      → v.id ≡ id
      → IsKeyed m
      → IsKeyed (set id v m)
  set-IsKeyed id v m h k = (set-ids id v m h k.0, set-IsDistinct id v m k.1)

  -- What stands under a key has it for its id.
  get-id :
      (id : String) (m : JsMap (OutboxMessage V)) (msg : OutboxMessage V)
      → IsKeyed m
      → get id m ≡ some msg
      → msg.id ≡ id
  unfolding get
  get-id id [] msg k h = cc
  get-id id ((j, w) ∷ m) msg k h = ground (arith, get-id id m msg (k.0.1, k.1.1))

  -- The store starts empty, and every operation keeps each message under its id, once.
  pub store-IsKeyed :
      (m : JsMap (OutboxMessage V)) (msg : OutboxMessage V) (now : ℕ) (id error : String)
      → IsKeyed m
      → IsKeyed []
        × IsKeyed (save m msg)
        × IsKeyed (mark_as_published m now id)
        × IsKeyed (mark_as_failed m now id error)
  unfolding save mark_as_published mark_as_failed published failed
  store-IsKeyed m msg now id error k = (
    (tt, tt),
    set-IsKeyed msg.id msg m refl k,
    by_entry (get id m) refl,
    by_entry' (get id m) refl,
  )
    where
      by_entry :
          (e : Option (OutboxMessage V)) → get id m ≡ e → IsKeyed (mark_as_published m now id)
      by_entry none e = rw (e, mark_as_published) k
      by_entry (some x) e =
          rw (e, mark_as_published) (set-IsKeyed id (published x now) m (get-id id m x k e) k)

      by_entry' :
          (e : Option (OutboxMessage V)) → get id m ≡ e → IsKeyed (mark_as_failed m now id error)
      by_entry' none e = rw (e, mark_as_failed) k
      by_entry' (some x) e =
          rw (e, mark_as_failed) (set-IsKeyed id (failed x now error) m (get-id id m x k e) k)

  keep-unpublished :
      (msgs : List (OutboxMessage V))
      → All (λ m. is_unpublished m ≡ true) (keep is_unpublished msgs)
  keep-unpublished [] = tt
  keep-unpublished (m ∷ msgs) = elim (Bool-cases (is_unpublished m)) [
    | inl e ↦ rw e (e, keep-unpublished msgs)
    | inr e ↦ rw e (keep-unpublished msgs)
  ]

  batch-unpublished :
      (m : JsMap (OutboxMessage V)) (limit : ℕ)
      → All (λ x. is_unpublished x ≡ true) (get_unpublished m limit)
  batch-unpublished m limit =
      subst (All (λ x. is_unpublished x ≡ true)) (sym (get_unpublished-take m limit))
        (All-take (λ x. is_unpublished x ≡ true) (max 1 limit) _ (keep-unpublished (values m)))

  pub published-batch :
      (m : JsMap (OutboxMessage V)) (limit : ℕ) (id : String) (msg : OutboxMessage V)
      → IsKeyed m
      → get id m ≡ some msg
      → is_unpublished msg ≡ false
      → All (λ x. x.id ≢ id) (get_unpublished m limit)
  published-batch m limit id msg k h p =
      All-map (λ x. (is_unpublished x ≡ true) × IsStored m x) (get_unpublished m limit)
        (λ x u e. unstored x u.0 (ap (λ j. get j m) (sym e) ∙ u.1))
        (All-both (λ x. is_unpublished x ≡ true) (IsStored m) (get_unpublished m limit)
          (batch-unpublished m limit) (batch-IsStored m limit k))
    where
      unstored : (x : OutboxMessage V) → is_unpublished x ≡ true → get id m ≡ some x → ⊥
      unstored x u e = ground (arith, some-injective (sym h ∙ e))
