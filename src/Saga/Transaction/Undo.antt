-- ===== src/Saga/Transaction/Undo.antt =====
-- What the compensations are for: a transaction that is rolled back leaves the world as it was.
use ts_commons.Base.{ℕ, String, ◌≡◌, refl, ap, ◌∙◌, Option, none, some, List, [], ◌∷◌, All}
use ts_commons.Kernel.Result.{Result, ok, err}
use ts_commons.Saga.Transaction.{
  SagaStatus, running, compensated, SagaError, Effect, SagaTransaction, new, is_late, run_action,
  step, rollback,
}
use ts_commons.Saga.Transaction.Rollback.{undo_all, undo_all-append, rollback-undo_all}

-- A call of `step` that a saga makes, at its time.
pub record PlannedStep (W E T : Type 0) : Type 0 where
  pub at : ℕ
  pub name : String
  pub action : Effect W E T
  pub compensation : T → Effect W E (Unit {0})

-- Undoing what a transaction has recorded takes the world `w` back to `w₀`.
abbrev Restores : {W E : Type 0} → W → SagaTransaction W E → W → Type 0
Restores w₀ tx w = undo_all tx.completed_steps w ≡ w₀

module _ {W E T : Type 0} where
  -- The body of a saga: its steps one after another, up to the first that throws.
  unfoldable pub perform :
      List (PlannedStep W E T) → SagaTransaction W E → W → SagaTransaction W E × W
  perform [] tx w = (tx, w)
  perform (p ∷ ps) tx w =
      let (tx', w', r) = step tx p.at p.name p.action p.compensation w in
      let rest = perform ps tx' w' in elim r [ ok v ↦ rest | err e ↦ (tx', w') ]

  -- The compensation takes the world after the action back to the world before it, and an action
  -- that rejects has changed nothing.
  abbrev pub IsReversible : PlannedStep W E T → Type 0
  IsReversible p =
      ((w : W) (v : T) → (p.action w).1 ≡ ok v → (p.compensation v (p.action w).0).0 ≡ w)
      × ((w : W) (e : E) → (p.action w).1 ≡ err e → (p.action w).0 ≡ w)

  run_action-Restores :
      (w₀ : W) (tx : SagaTransaction W E) (name : String) (compensation : T → Effect W E (Unit {0}))
      (q : W × Result T E) (w : W)
      → ((v : T) → q.1 ≡ ok v → (compensation v q.0).0 ≡ w)
      → ((e : E) → q.1 ≡ err e → q.0 ≡ w)
      → Restores w₀ tx w
      → Restores w₀ (run_action tx name compensation q).0 (run_action tx name compensation q).1
  unfolding run_action
  run_action-Restores w₀ tx name compensation (w', ok v) w undoes atomic r =
      undo_all-append tx.completed_steps _ w' ∙ ap (undo_all tx.completed_steps) (undoes v refl) ∙ r
  run_action-Restores w₀ tx name compensation (w', err e) w undoes atomic r =
      ap (undo_all tx.completed_steps) (atomic e refl) ∙ r

  -- `step` refuses and changes nothing, or runs the action.
  step_cases :
      (P : SagaTransaction W E × W × Result T (SagaError E) → Type 0) (tx : SagaTransaction W E)
      (p : PlannedStep W E T) (w : W)
      → ((x : SagaError E) → P (tx, w, err x))
      → P (run_action tx p.name p.compensation (p.action w))
      → P (step tx p.at p.name p.action p.compensation w)
  unfolding step
  step_cases P tx p w refused run = by_status tx.status refl (is_late tx p.at) refl
    where
      by_status :
          (s : SagaStatus)
          → tx.status ≡ s
          → (l : Option ℕ) → is_late tx p.at ≡ l
          → P (step tx p.at p.name p.action p.compensation w)
      by_status running e none l = rw (e, l, step) run
      by_status running e (some ms) l = rw (e, l, step) (refused _)
      by_status _ e l _ = rw (e, step) (refused _)

  perform-Restores :
      (w₀ : W) (ps : List (PlannedStep W E T)) (tx : SagaTransaction W E) (w : W)
      → All IsReversible ps
      → Restores w₀ tx w
      → Restores w₀ (perform ps tx w).0 (perform ps tx w).1
  unfolding perform
  perform-Restores w₀ [] tx w a r = r
  perform-Restores w₀ (p ∷ ps) tx w a r =
      by_result t.2 refl (perform-Restores w₀ ps t.0 t.1 a.1 kept)
    where
      t : SagaTransaction W E × W × Result T (SagaError E)
      t = step tx p.at p.name p.action p.compensation w

      kept : Restores w₀ t.0 t.1
      kept =
          step_cases (λ u. Restores w₀ u.0 u.1) tx p w (λ x. r)
            (run_action-Restores w₀ tx p.name p.compensation (p.action w) w (a.0.0 w) (a.0.1 w) r)

      by_result :
          (x : Result T (SagaError E))
          → t.2 ≡ x
          → Restores w₀ (perform ps t.0 t.1).0 (perform ps t.0 t.1).1
          → Restores w₀ (perform (p ∷ ps) tx w).0 (perform (p ∷ ps) tx w).1
      by_result (ok v) e rest = rw (e, perform) rest
      by_result (err x) e rest = rw (e, perform) kept

  -- A new transaction performs steps, each with a compensation that undoes its action and an action
  -- that changes nothing when it rejects. Wherever the steps stop, at the last one or at the first
  -- that throws for whatever reason, `rollback` then leaves the world as it was at the start.
  pub perform-rollback :
      (ps : List (PlannedStep W E T)) (now : ℕ) (timeout_ms : Option ℕ) (w : W)
      → All IsReversible ps
      → let t = perform ps (new now timeout_ms) w in
        ((rollback t.0 t.1).1 ≡ w) × ((rollback t.0 t.1).0.status ≡ compensated)
  unfolding new
  perform-rollback ps now timeout_ms w a =
      let t = perform ps (new now timeout_ms) w in
      rw (rollback-undo_all t.0 t.1) (perform-Restores w ps (new now timeout_ms) w a refl, refl)
