-- ===== src/Outbox/Relay/Overlap/Marks.antt =====
-- Messages that are published stay so when the store marks any message.
use ts_commons.Base.{
  ℕ, String, ◌≡◌, refl, sym, ap, ◌∙◌, subst, some, false, Option-cases, or_else, inl, inr, if_pos,
  if_neg, dec_str,
}
use ts_commons.Base.JsMap.{JsMap, get, set, get-set}
use ts_commons.Outbox.Store.{
  OutboxMessage, is_unpublished, published, failed, mark_as_published, mark_as_failed,
}

module _ {V : Type 0} where
  abbrev pub IsOut : String → JsMap (OutboxMessage V) → Type 0
  IsOut id store = (m : OutboxMessage V) × (get id store ≡ some m) × (is_unpublished m ≡ false)

  pub set-IsOut :
      (id j : String) (v : OutboxMessage V) (store : JsMap (OutboxMessage V))
      → (j ≡ id → is_unpublished v ≡ false)
      → IsOut id store
      → IsOut id (set j v store)
  set-IsOut id j v store new (m, e, p) = elim (dec_str j id) [
    | yes q ↦ (v, get-set j id v store ∙ if_pos (dec_str j id) q _ _, new q)
    | no q ↦ (m, get-set j id v store ∙ if_neg (dec_str j id) q _ _ ∙ e, p)
  ]

  pub published-IsOut :
      (store : JsMap (OutboxMessage V)) (now : ℕ) (j id : String)
      → IsOut id store
      → IsOut id (mark_as_published store now j)
  unfolding mark_as_published published
  published-IsOut store now j id h = elim (Option-cases (get j store)) [
    | inl e ↦ rw (e, mark_as_published) h
    | inr (m, e) ↦ rw (e, mark_as_published) (set-IsOut id j (published m now) store (λ q. refl) h)
  ]

  pub failed-IsOut :
      (store : JsMap (OutboxMessage V)) (now : ℕ) (j id error : String)
      → IsOut id store
      → IsOut id (mark_as_failed store now j error)
  unfolding mark_as_failed failed
  failed-IsOut store now j id error h = elim (Option-cases (get j store)) [
    | inl e ↦ rw (e, mark_as_failed) h
    | inr (m, e) ↦
        rw (e, mark_as_failed)
          (set-IsOut id j (failed m now error) store
            (λ q.
              let same : h.0 ≡ m =
                ap (λ y. or_else y h.0) (sym h.1 ∙ ap (λ k. get k store) (sym q) ∙ e) in
              subst (λ x. is_unpublished x ≡ false) same h.2)
            h)
  ]

  -- The message that is marked is published from then on.
  pub marked-IsOut :
      (store : JsMap (OutboxMessage V)) (now : ℕ) (id : String) (m : OutboxMessage V)
      → get id store ≡ some m
      → IsOut id (mark_as_published store now id)
  unfolding mark_as_published published
  marked-IsOut store now id m e =
      rw (e, mark_as_published)
        (
          published m now,
          get-set id id (published m now) store ∙ if_pos (dec_str id id) refl _ _,
          refl,
        )
