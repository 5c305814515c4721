-- ===== src/Saga/Transaction/Rollback.antt =====
-- The order and the number of the compensations, and what the status guards.
use mathlib.Core.List.{reverse-cons}
use ts_commons.Base.{◌≡◌, refl, ap, ◌∙◌, List, [], ◌∷◌, ◌++◌, reverse}
use ts_commons.Saga.Transaction.{
  committed, compensated, SagaStepRecord, SagaTransaction, commit, run_each, run_one_compensation,
  rollback,
}

module _ {W E : Type 0} where
  -- The world after the steps of a list, oldest first, are undone from the last to the first.
  abbrev pub undo_all : List (SagaStepRecord W E) → W → W
  undo_all [] w = w
  undo_all (s ∷ ss) w = (s.compensation (undo_all ss w)).0

  run_each-append :
      (ss ts : List (SagaStepRecord W E)) (w : W)
      → run_each (ss ++ ts) w ≡ run_each ts (run_each ss w)
  unfolding run_each
  run_each-append [] ts w = refl
  run_each-append (s ∷ ss) ts w = run_each-append ss ts (run_one_compensation s w)

  run_each-reverse :
      (ss : List (SagaStepRecord W E)) (w : W) → run_each (reverse ss) w ≡ undo_all ss w
  unfolding run_each
  run_each-reverse [] w = refl
  run_each-reverse (s ∷ ss) w =
      ap (λ l. run_each l w) (reverse-cons s ss)
      ∙ run_each-append (reverse ss) (s ∷ []) w
      ∙ ap (λ u. (s.compensation u).0) (run_each-reverse ss w)

  pub undo_all-append :
      (ss ts : List (SagaStepRecord W E)) (w : W)
      → undo_all (ss ++ ts) w ≡ undo_all ss (undo_all ts w)
  undo_all-append [] ts w = refl
  undo_all-append (s ∷ ss) ts w = ap (λ u. (s.compensation u).0) (undo_all-append ss ts w)

  -- `rollback` runs the compensation of every completed step, each on the world that the later
  -- steps' compensations left and whether those rejected or not, and ends in `compensated` with the
  -- steps still recorded.
  pub rollback-undo_all :
      (tx : SagaTransaction W E) (w : W)
      → rollback tx w ≡ (record tx { status = compensated }, undo_all tx.completed_steps w)
  unfolding rollback
  rollback-undo_all tx w =
      ap (λ u. (record tx { status = compensated }, u)) (run_each-reverse tx.completed_steps w)

  -- Nothing stops a second `rollback`, or one after `commit`: each runs all the compensations again.
  pub rollback_again :
      (tx : SagaTransaction W E) (w : W)
      → ((rollback (rollback tx w).0 (rollback tx w).1).1
          ≡ undo_all tx.completed_steps (undo_all tx.completed_steps w))
        × ((rollback (commit tx) w).1 ≡ undo_all tx.completed_steps w)
  unfolding commit
  rollback_again tx w = (
    rw (rollback-undo_all tx w)
        (ap (λ t. t.1) (rollback-undo_all (record tx { status = compensated }) _)),
    ap (λ t. t.1) (rollback-undo_all (record tx { status = committed }) w),
  )
