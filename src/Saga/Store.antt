-- ===== src/Saga/Store.antt =====
-- packages/saga/src/SagaStore.ts: sagas by id. `save` and the reads copy the state that they are
-- given or give, so that no caller shares it; states are values here.
use ts_commons.Base.{
  ℕ, String, ◌≡◌, ◌≢◌, sym, Option, none, some, Bool, true, false, List, [], ◌∷◌, arith, keep, All,
}
use ts_commons.Base.JsMap.{
  JsMap, get, set, delete, values, get-set_self, get-set_ne, get-delete_self, get-delete_ne,
}
use ts_commons.Saga.Transaction.{
  SagaStatus, pending, running, committed, compensating, compensated, failed,
}

pub record SagaState : Type 0 where
  pub id : String
  pub name : String
  pub status : SagaStatus
  pub started_at : ℕ
  pub updated_at : ℕ
  pub completed_steps : ℕ
  pub error : Option String

abbrev pub SagaStore : Type 0
SagaStore = JsMap SagaState

abbrev pub same_status : SagaStatus → SagaStatus → Bool
same_status pending pending = true
same_status running running = true
same_status committed committed = true
same_status compensating compensating = true
same_status compensated compensated = true
same_status failed failed = true
same_status _ _ = false

unfoldable pub save : SagaStore → SagaState → SagaStore
save store state = set state.id state store

unfoldable pub find_by_id : SagaStore → String → Option SagaState
find_by_id store id = get id store

unfoldable pub find_by_status : SagaStore → SagaStatus → List SagaState
find_by_status store status = keep (λ s. same_status s.status status) (values store)

unfoldable pub remove : SagaStore → String → SagaStore
remove store id = delete id store

same_status-eq : (s t : SagaStatus) → same_status s t ≡ true → s ≡ t
same_status-eq s t h = ground arith

keep-status :
    (status : SagaStatus) (ss : List SagaState)
    → All (λ s. s.status ≡ status) (keep (λ s. same_status s.status status) ss)
keep-status status [] = tt
keep-status status (s ∷ ss) = ground (arith, keep-status status ss, same_status-eq s.status status)

-- A saved state is found under its id, in place of an earlier one; a removed one is not found; the
-- other ids are not touched by either; and a search by status finds only states of that status.
pub save_find :
    (store : SagaStore) (s : SagaState) (id : String) (status : SagaStatus)
    → (find_by_id (save store s) s.id ≡ some s)
      × (find_by_id (remove store id) id ≡ none)
      × (s.id ≢ id
          → (find_by_id (save store s) id ≡ find_by_id store id)
            × (find_by_id (remove store id) s.id ≡ find_by_id store s.id))
      × All (λ t. t.status ≡ status) (find_by_status store status)
unfolding save find_by_id find_by_status remove
save_find store s id status = (
  get-set_self s.id s store,
  get-delete_self id store,
  λ ne. (get-set_ne s.id id s store ne, get-delete_ne id s.id store (λ e. ne (sym e))),
  keep-status status (values store),
)
