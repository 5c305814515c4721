-- ===== src/Saga/Transaction.antt =====
-- packages/saga/src/SagaTransaction.ts. `W` is all that actions and compensations can change; an
-- `async` function takes it and gives it back beside what its promise settles to. A compensation in
-- a step's record has the action's result already, as the closure of the source has.
pub mod Rollback
pub mod Undo
use ts_commons.Base.{
  ℕ, ◌-◌, String, Option, none, some, Bool, true, false, List, [], ◌∷◌, ◌++◌, reverse,
  if◌then◌else◌, ltb, length,
}
use ts_commons.Kernel.Result.{Result, ok, err}

pub data SagaStatus : Type 0 where
  pending running committed compensating compensated failed : SagaStatus

pub data SagaError (E : Type 0) : Type 0 where
  saga_step_error : SagaStatus → SagaError E
  saga_timeout_error : ℕ → SagaError E
  action_error : E → SagaError E

abbrev pub Effect : Type 0 → Type 0 → Type 0 → Type 0
Effect W E A = W → W × Result A E

pub record SagaStepRecord (W E : Type 0) : Type 0 where
  pub name : String
  pub compensation : Effect W E (Unit {0})

pub record SagaTransaction (W E : Type 0) : Type 0 where
  pub started_at : ℕ
  pub timeout_ms : Option ℕ
  pub completed_steps : List (SagaStepRecord W E)
  pub status : SagaStatus

module _ {W E : Type 0} where
  unfoldable pub new : ℕ → Option ℕ → SagaTransaction W E
  new now timeout_ms = record {
    started_at = now;
    timeout_ms = timeout_ms;
    completed_steps = [];
    status = running;
  }

  abbrev pub step_count : SagaTransaction W E → ℕ
  step_count tx = length tx.completed_steps

  -- `timeout !== undefined && Date.now() - this.startedAt > timeout`
  abbrev pub is_late : SagaTransaction W E → ℕ → Option ℕ
  is_late tx now = elim tx.timeout_ms [
    | none ↦ none
    | some ms ↦ if ltb ms (now - tx.started_at) then some ms else none
  ]

  -- The `await action()` of `step` and what follows it.
  unfoldable pub run_action :
      {T : Type 0}
      → SagaTransaction W E
      → String
      → (T → Effect W E (Unit {0}))
      → W × Result T E
      → SagaTransaction W E × W × Result T (SagaError E)
  run_action tx name compensation (w, ok result) = (
    record tx {
      completed_steps =
          tx.completed_steps ++ record { name = name; compensation = compensation result } ∷ [];
    },
    w,
    ok result,
  )
  run_action tx name compensation (w, err e) = (tx, w, err (action_error e))

  unfoldable pub step :
      {T : Type 0}
      → SagaTransaction W E
      → ℕ
      → String
      → Effect W E T
      → (T → Effect W E (Unit {0}))
      → W
      → SagaTransaction W E × W × Result T (SagaError E)
  unfolding run_action
  step tx now name action compensation w = elim tx.status [
    | running ↦ elim (is_late tx now) [
      | some ms ↦ (tx, w, err (saga_timeout_error ms))
      | none ↦ run_action tx name compensation (action w)
    ]
    | s ↦ (tx, w, err (saga_step_error s))
  ]

  unfoldable pub commit : SagaTransaction W E → SagaTransaction W E
  commit tx = record tx { status = committed }

  -- A compensation that rejects is passed over.
  unfoldable pub run_one_compensation : SagaStepRecord W E → W → W
  run_one_compensation s w = (s.compensation w).0

  -- The loop of `runCompensations` over the reversed steps.
  unfoldable pub run_each : List (SagaStepRecord W E) → W → W
  unfolding run_one_compensation
  run_each [] w = w
  run_each (s ∷ ss) w = run_each ss (run_one_compensation s w)

  unfoldable pub run_compensations : SagaTransaction W E → W → W
  unfolding run_each
  run_compensations tx w = run_each (reverse tx.completed_steps) w

  unfoldable pub rollback : SagaTransaction W E → W → SagaTransaction W E × W
  unfolding run_compensations
  rollback tx w =
      let w' = run_compensations (record tx { status = compensating }) w in
      (record tx { status = compensated }, w')
