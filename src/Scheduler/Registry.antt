-- ===== src/Scheduler/Registry.antt =====
-- packages/scheduler/src/JobRegistry.ts, with the types of JobTypes.ts and JobErrors.ts. A job's
-- `execute` is the scheduler's business, so a job is its name here.
use ts_commons.Base.{
  ap, ℕ, String, ◌≡◌, ◌≢◌, refl, Option, none, some, Bool, true, false, List, [], ◌∷◌, arith,
  is_some, if◌then◌else◌,
}
use ts_commons.Base.JsMap.{JsMap, get, set, delete, has, values, get-set_self, get-set_ne}
use ts_commons.Kernel.Result.{Result, ok, err}

pub data JobScheduleConfig : Type 0 where
  interval : ℕ → Option Bool → JobScheduleConfig
  cron : String → JobScheduleConfig
  once : ℕ → JobScheduleConfig

pub record JobRegistration : Type 0 where
  pub job_id : String
  pub job_name : String
  pub schedule : JobScheduleConfig
  pub max_concurrency : Option ℕ
  pub max_retries : Option ℕ
  pub retry_backoff_ms : Option ℕ

pub data JobError : Type 0 where
  already_registered : String → JobError
  not_found : String → JobError
  concurrency_limit : String → ℕ → JobError

abbrev pub JobRegistry : Type 0
JobRegistry = JsMap JobRegistration

unfoldable pub register : JobRegistry → JobRegistration → Result JobRegistry JobError
register jobs reg =
    if has reg.job_id jobs
    then err (already_registered reg.job_id)
    else ok (set reg.job_id reg jobs)

unfoldable pub unregister : JobRegistry → String → Result JobRegistry JobError
unregister jobs job_id = if has job_id jobs then ok (delete job_id jobs) else err (not_found job_id)

unfoldable pub find : JobRegistry → String → Option JobRegistration
find jobs job_id = get job_id jobs

abbrev pub get_all : JobRegistry → List JobRegistration
get_all = values

abbrev pub is_registered : JobRegistry → String → Bool
is_registered jobs job_id = has job_id jobs

abbrev pub clear : JobRegistry → JobRegistry
clear jobs = []

delete-set :
    {V : Type 0} (k : String) (v : V) (m : JsMap V) → get k m ≡ none → delete k (set k v m) ≡ m
unfolding get set delete
delete-set k v [] h = ground arith
delete-set k v ((j, w) ∷ m) h = ground (arith, delete-set k v m)

-- `register` refuses an id that is taken and changes nothing; a new job is found under its id, the
-- other jobs stay, and `unregister` gives back the registry as it was before; and `unregister`
-- refuses an id that is not registered.
pub register-unregister :
    (jobs : JobRegistry) (reg : JobRegistration) (job_id : String)
    → (has reg.job_id jobs ≡ true → register jobs reg ≡ err (already_registered reg.job_id))
      × (has reg.job_id jobs ≡ false
          → (jobs' : JobRegistry) × (register jobs reg ≡ ok jobs')
            × (find jobs' reg.job_id ≡ some reg)
            × (reg.job_id ≢ job_id → find jobs' job_id ≡ find jobs job_id)
            × (unregister jobs' reg.job_id ≡ ok jobs))
      × (has job_id jobs ≡ false → unregister jobs job_id ≡ err (not_found job_id))
unfolding register unregister find
register-unregister jobs reg job_id = (λ h. rw h refl, registers, λ h. rw h refl)
  where
    absent : is_some (get reg.job_id jobs) ≡ false → get reg.job_id jobs ≡ none
    absent h = ground arith

    registers :
        has reg.job_id jobs ≡ false
        → (jobs' : JobRegistry) × (register jobs reg ≡ ok jobs')
          × (find jobs' reg.job_id ≡ some reg)
          × (reg.job_id ≢ job_id → find jobs' job_id ≡ find jobs job_id)
          × (unregister jobs' reg.job_id ≡ ok jobs)
    registers h = (
      set reg.job_id reg jobs,
      rw h refl,
      get-set_self reg.job_id reg jobs,
      λ ne. get-set_ne reg.job_id job_id reg jobs ne,
      rw (get-set_self reg.job_id reg jobs)
          (ap (λ m. ok m) (delete-set reg.job_id reg jobs (absent h))),
    )
