-- ===== src/Saga/Tests.antt =====
-- Runs of sagas, and their theorems at concrete inputs. The world is a list of what was done.
use ts_commons.Base.{ℕ, String, ◌≡◌, refl, none, some, List, [], ◌∷◌, arith, All}
use ts_commons.Kernel.Result.{ok, err}
use ts_commons.Saga.Transaction
use ts_commons.Saga.Transaction.{Effect, SagaTransaction, SagaStepRecord}
use ts_commons.Saga.Transaction.Undo
use ts_commons.Saga.Transaction.Undo.{PlannedStep}
use ts_commons.Saga.Choreography.{Handlers}
use ts_commons.Saga.Store.{SagaState, SagaStore}
use ts_commons.Saga.Monitor
use ts_commons.Saga.Monitor.{Report, Counts}

abbrev World : Type 0
World = List ℕ

-- Puts `n` in front; its compensation takes the front away.
abbrev pushes : ℕ → Effect World String ℕ
pushes n w = (n ∷ w, ok n)

abbrev pops : ℕ → Effect World String (Unit {0})
pops n [] = ([], err "nothing to undo")
pops n (x ∷ w) = (w, ok tt)

abbrev refuses : Effect World String ℕ
refuses w = (w, err "no stock")

abbrev planned : List (PlannedStep World String ℕ)
planned =
    record { at = 1; name = "reserve"; action = pushes 4; compensation = pops }
    ∷ record { at = 2; name = "charge"; action = pushes 5; compensation = pops }
    ∷ record { at = 3; name = "ship"; action = refuses; compensation = pops }
    ∷ []

planned-IsReversible : All Undo.IsReversible planned
planned-IsReversible = (
  (λ w v e. refl, λ w x e. absurd (ground arith)),
  (
    (λ w v e. refl, λ w x e. absurd (ground arith)),
    ((λ w v e. absurd (ground arith), λ w x e. refl), tt),
  ),
)

perform-rollback_example :
    let t = Undo.perform planned (Transaction.new 0 (some 100)) (9 ∷ []) in
    ((Transaction.rollback t.0 t.1).1 ≡ 9 ∷ [])
    × ((Transaction.rollback t.0 t.1).0.status ≡ Transaction.compensated)
perform-rollback_example = Undo.perform-rollback planned 0 (some 100) (9 ∷ []) planned-IsReversible

-- The third step rejects after two have run.
two_steps_ran : (Undo.perform planned (Transaction.new 0 (some 100)) (9 ∷ [])).1 ≡ 5 ∷ 4 ∷ 9 ∷ []
unfolding Undo.perform Transaction.new Transaction.step
two_steps_ran = refl

abbrev two_done : SagaTransaction World String
two_done = record {
  started_at = 0;
  timeout_ms = none;
  completed_steps =
      record { name = "reserve"; compensation = pops 4 }
      ∷ record { name = "charge"; compensation = pops 5 }
      ∷ [];
  status = Transaction.running;
}

abbrev wired : Handlers
wired = ("paid", 1 ∷ 2 ∷ 1 ∷ []) ∷ ("shipped", 3 ∷ []) ∷ []

abbrev order_saga : SagaState
order_saga = record {
  id = "s1";
  name = "order";
  status = Transaction.running;
  started_at = 1;
  updated_at = 2;
  completed_steps = 1;
  error = none;
}

abbrev saga_store : SagaStore
saga_store = ("s0", record order_saga { id = "s0"; status = Transaction.committed }) ∷ []

abbrev reports : List Report
reports =
    Monitor.starts 1 "s0"
    ∷ Monitor.resets
    ∷ Monitor.starts 2 "s1"
    ∷ Monitor.fails 3 "s1" "no stock"
    ∷ Monitor.compensates 4 "s1"
    ∷ []
