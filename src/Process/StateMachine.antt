-- ===== src/Process/StateMachine.antt =====
-- packages/process-manager/src/StateMachine.ts. `same` is `===` on the states. A method that throws
-- `InvalidTransitionError` returns the two states.
use ts_commons.Base.{
  ℕ, Bool, ◌&&◌, List, [], ◌∷◌, map, keep, some_of, length, if◌then◌else◌, ◌≡◌, arith,
}
use ts_commons.Kernel.Result.{Result, ok, err}

pub record TransitionRule (T : Type 0) : Type 0 where
  pub origin : T
  pub target : T

module _ {T : Type 0} (same : T → T → Bool) where
  unfoldable pub can_transition : List (TransitionRule T) → T → T → Bool
  can_transition rules origin target =
      some_of (λ r. same r.origin origin && same r.target target) rules

  unfoldable pub validate_transition : List (TransitionRule T) → T → T → Result (Unit {0}) (T × T)
  unfolding can_transition
  validate_transition rules origin target =
      if can_transition rules origin target then ok tt else err (origin, target)

  unfoldable pub get_allowed_transitions : List (TransitionRule T) → T → List T
  get_allowed_transitions rules origin =
      map (λ r. r.target) (keep (λ r. same r.origin origin) rules)

  -- A transition is permitted exactly when its target is, as `===` tells, among the allowed ones.
  can_transition-allowed :
      (rules : List (TransitionRule T)) (origin target : T)
      → can_transition rules origin target
        ≡ some_of (λ t. same t target) (get_allowed_transitions rules origin)
  unfolding can_transition get_allowed_transitions
  can_transition-allowed [] origin target = ground arith
  can_transition-allowed (r ∷ rules) origin target =
      ground (arith, can_transition-allowed rules origin target)

abbrev pub get_rule_count : {T : Type 0} → List (TransitionRule T) → ℕ
get_rule_count rules = length rules
