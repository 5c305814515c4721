-- ===== src/Process/Lifecycle.antt =====
-- packages/process-manager/src/ProcessManager.ts: what a process manager does to the state of its
-- process. The rules of its machine and `===` on the states are parameters; the id that is drawn
-- when none is given and the time are arguments, and an error is its text.
pub mod Reachable
use ts_commons.Base.{ℕ, String, Option, none, some, Bool, List, [], ◌∷◌, or_else}
use ts_commons.Kernel.Result.{Result, ok, err}
use ts_commons.Process.StateMachine.{TransitionRule, validate_transition}
use ts_commons.Process.Store.{ProcessState, running, completed, failed, timed_out}

-- A call on the state of a process, with its time.
pub data Call (T : Type 0) : Type 0 where
  transitions : ℕ → T → Call T
  completes : ℕ → Call T
  fails : ℕ → String → Call T
  times_out : ℕ → Call T
  sets_timeout_at : ℕ → ℕ → Call T

module _ {T : Type 0} where
  abbrev pub begin :
      String → T → (uuid : String) → ℕ → Option String → Option String → ProcessState T
  begin name initial uuid now id correlation_id = record {
    id = or_else id uuid;
    name = name;
    status = running;
    current_state = initial;
    started_at = now;
    updated_at = now;
    correlation_id = correlation_id;
    timeout_at = none;
    error = none;
  }

  abbrev pub complete : ProcessState T → ℕ → ProcessState T
  complete p now = record p { status = completed; updated_at = now }

  abbrev pub fail : ProcessState T → ℕ → String → ProcessState T
  fail p now e = record p { status = failed; error = some e; updated_at = now }

  abbrev pub time_out : ProcessState T → ℕ → ProcessState T
  time_out p now = record p { status = timed_out; updated_at = now }

  abbrev pub set_timeout_at : ProcessState T → ℕ → ℕ → ProcessState T
  set_timeout_at p now at_time = record p { timeout_at = some at_time; updated_at = now }

module _ {T : Type 0} (same : T → T → Bool) (rules : List (TransitionRule T)) where
  unfoldable pub transition : ProcessState T → ℕ → T → ProcessState T × Result (Unit {0}) (T × T)
  transition p now to = elim (validate_transition same rules p.current_state to) [
    | ok u ↦ (record p { current_state = to; updated_at = now }, ok tt)
    | err e ↦ (p, err e)
  ]

  -- A transition that throws ends its handler, and the process keeps its state.
  abbrev pub step : ProcessState T → Call T → ProcessState T
  step p (transitions now to) = (transition p now to).0
  step p (completes now) = complete p now
  step p (fails now e) = fail p now e
  step p (times_out now) = time_out p now
  step p (sets_timeout_at now at_time) = set_timeout_at p now at_time

  unfoldable pub run : ProcessState T → List (Call T) → ProcessState T
  run p [] = p
  run p (c ∷ cs) = run (step p c) cs
