-- ===== src/Process/Store.antt =====
-- packages/process-manager/src/InMemoryProcessStore.ts: processes by id, and an index from
-- correlation ids to ids. `save` and the reads copy what they are given or give; states are values.
use ts_commons.Base.{ℕ, String, ◌≡◌, Option, none, some, Bool, true, false, List, arith, keep}
use ts_commons.Base.JsMap.{JsMap, get, set, delete, values, size, get-set, get-set_self}

pub data ProcessStatus : Type 0 where
  idle running completed failed timed_out : ProcessStatus

pub record ProcessState (T : Type 0) : Type 0 where
  pub id : String
  pub name : String
  pub status : ProcessStatus
  pub current_state : T
  pub started_at : ℕ
  pub updated_at : ℕ
  pub correlation_id : Option String
  pub timeout_at : Option ℕ
  pub error : Option String

pub record ProcessStore (T : Type 0) : Type 0 where
  pub by_id : JsMap (ProcessState T)
  pub by_correlation : JsMap String

abbrev pub same_status : ProcessStatus → ProcessStatus → Bool
same_status idle idle = true
same_status running running = true
same_status completed completed = true
same_status failed failed = true
same_status timed_out timed_out = true
same_status _ _ = false

module _ {T : Type 0} where
  unfoldable pub save : ProcessStore T → ProcessState T → ProcessStore T
  save s state = record {
    by_id = set state.id state s.by_id;
    by_correlation = elim state.correlation_id [
      | none ↦ s.by_correlation
      | some c ↦ set c state.id s.by_correlation
    ];
  }

  unfoldable pub find_by_id : ProcessStore T → String → Option (ProcessState T)
  find_by_id s id = get id s.by_id

  unfoldable pub find_by_correlation_id : ProcessStore T → String → Option (ProcessState T)
  unfolding find_by_id
  find_by_correlation_id s c = elim (get c s.by_correlation) [
    | none ↦ none
    | some id ↦ find_by_id s id
  ]

  unfoldable pub find_by_status : ProcessStore T → ProcessStatus → List (ProcessState T)
  find_by_status s status = keep (λ p. same_status p.status status) (values s.by_id)

  -- The correlation id of the entry that `delete` finds, if it has both.
  unfoldable pub remove : ProcessStore T → String → ProcessStore T
  remove s id = elim (get id s.by_id) [
    | none ↦ record s { by_id = delete id s.by_id }
    | some p ↦ elim p.correlation_id [
      | none ↦ record s { by_id = delete id s.by_id }
      | some c ↦ record { by_id = delete id s.by_id; by_correlation = delete c s.by_correlation }
    ]
  ]

  abbrev pub count : ProcessStore T → ℕ
  count s = size s.by_id

  -- A process that is saved again with another correlation id is found under that one, and still
  -- under the one that it had before, as it is now.
  save_moved :
      (s : ProcessStore T) (p q : ProcessState T) (c d : String)
      → p.id ≡ q.id
      → p.correlation_id ≡ some c
      → q.correlation_id ≡ some d
      → (find_by_correlation_id (save (save s p) q) c ≡ some q)
        × (find_by_correlation_id (save (save s p) q) d ≡ some q)
        × (find_by_id (save (save s p) q) q.id ≡ some q)
  unfolding save find_by_correlation_id find_by_id
  save_moved s p q c d same h k = ground (
    arith,
    same,
    h,
    k,
    get-set d c q.id (set c p.id s.by_correlation),
    get-set d d q.id (set c p.id s.by_correlation),
    get-set c c p.id s.by_correlation,
    get-set_self q.id q (set p.id p s.by_id),
  )
