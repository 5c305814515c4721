-- ===== src/Deployment/BlueGreen.antt =====
-- extras/k8s/src/bluegreen/BlueGreenDeployment.ts: two slots, one of which gets the traffic. The map
-- of the slots has one place for each colour. `deploy` and `getSlot` give the slot itself away, so that
-- a caller can write its fields: such a write is a call of the model. A smoke check is given by its
-- answer.
pub mod Traffic
use ts_commons.Base.{
  ℕ, String, Option, none, some, Bool, true, false, List, [], ◌∷◌, or_else, ltb, if◌then◌else◌,
  every,
}

pub data DeploymentColor : Type 0 where
  blue : DeploymentColor
  green : DeploymentColor

pub record DeploymentSlot : Type 0 where
  pub color : DeploymentColor
  pub image : String
  pub replicas : ℕ
  pub ready_replicas : ℕ
  pub active : Bool
  pub created_at : ℕ

pub record BlueGreenDeployment : Type 0 where
  pub blue_slot : Option DeploymentSlot
  pub green_slot : Option DeploymentSlot
  pub active_color : DeploymentColor
  pub config_replicas : Option ℕ

-- What became of a switch of the traffic.
pub data TrafficSwitchResult : Type 0 where
  switched : DeploymentColor → DeploymentColor → TrafficSwitchResult
  not_deployed : DeploymentColor → TrafficSwitchResult
  not_ready : DeploymentColor → TrafficSwitchResult

pub record SmokeTestCheck : Type 0 where
  pub name : String
  pub passed : Bool

abbrev pub same_color : DeploymentColor → DeploymentColor → Bool
same_color blue blue = true
same_color green green = true
same_color blue green = false
same_color green blue = false

abbrev pub new : Option ℕ → BlueGreenDeployment
new replicas = record {
  blue_slot = none;
  green_slot = none;
  active_color = blue;
  config_replicas = replicas;
}

abbrev pub other_color : DeploymentColor → DeploymentColor
other_color blue = green
other_color green = blue

abbrev pub inactive_color : BlueGreenDeployment → DeploymentColor
inactive_color d = other_color d.active_color

abbrev pub get_slot : BlueGreenDeployment → DeploymentColor → Option DeploymentSlot
get_slot d blue = d.blue_slot
get_slot d green = d.green_slot

abbrev pub set_slot : BlueGreenDeployment → DeploymentColor → DeploymentSlot → BlueGreenDeployment
set_slot d blue s = record d { blue_slot = some s }
set_slot d green s = record d { green_slot = some s }

unfoldable pub deploy :
    BlueGreenDeployment → ℕ → DeploymentColor → String → BlueGreenDeployment × DeploymentSlot
deploy d now color image =
    let replicas = or_else d.config_replicas 2 in
    let slot : DeploymentSlot = record {
      color = color;
      image = image;
      replicas = replicas;
      ready_replicas = replicas;
      active = same_color color d.active_color;
      created_at = now;
    } in
    (set_slot d color slot, slot)

abbrev pub mark : DeploymentColor → DeploymentColor → Option DeploymentSlot → Option DeploymentSlot
mark color c none = none
mark color c (some s) = some (record s { active = same_color c color })

unfoldable pub set_active : DeploymentColor → BlueGreenDeployment → BlueGreenDeployment
set_active color d = record d {
  active_color = color;
  blue_slot = mark color blue d.blue_slot;
  green_slot = mark color green d.green_slot;
}

unfoldable pub switch_traffic :
    BlueGreenDeployment → DeploymentColor → BlueGreenDeployment × TrafficSwitchResult
unfolding set_active
switch_traffic d to = elim (get_slot d to) [
  | none ↦ (d, not_deployed to)
  | some slot ↦
      if ltb slot.ready_replicas slot.replicas
      then (d, not_ready to)
      else (set_active to d, switched d.active_color to)
]

-- The colours from which and to which the traffic goes.
unfoldable pub rollback :
    BlueGreenDeployment → BlueGreenDeployment × DeploymentColor × DeploymentColor
unfolding set_active
rollback d = (set_active (inactive_color d) d, d.active_color, inactive_color d)

-- The health check is the first; one whose request fails has not passed.
unfoldable pub run_smoke_tests : Option Bool → List SmokeTestCheck → Bool × List SmokeTestCheck
run_smoke_tests answer added =
    let health : SmokeTestCheck = record { name = "healthcheck"; passed = or_else answer false } in
    (every (λ c. c.passed) (health ∷ added), health ∷ added)

abbrev pub written :
    (DeploymentSlot → DeploymentSlot) → Option DeploymentSlot → Option DeploymentSlot
written f none = none
written f (some s) = some (f s)

-- A write to the slot of a colour, through the reference that `getSlot` returned.
unfoldable pub write_slot :
    BlueGreenDeployment → DeploymentColor → (DeploymentSlot → DeploymentSlot) → BlueGreenDeployment
write_slot d blue f = record d { blue_slot = written f d.blue_slot }
write_slot d green f = record d { green_slot = written f d.green_slot }

-- A call that changes the deployment, or a write to one of its slots.
pub data Call : Type 0 where
  writes : DeploymentColor → (DeploymentSlot → DeploymentSlot) → Call
  deploys : ℕ → DeploymentColor → String → Call
  switches : DeploymentColor → Call
  rolls_back : Call

abbrev pub step : BlueGreenDeployment → Call → BlueGreenDeployment
step d (deploys now color image) = (deploy d now color image).0
step d (switches to) = (switch_traffic d to).0
step d rolls_back = (rollback d).0
step d (writes color f) = write_slot d color f

unfoldable pub run : BlueGreenDeployment → List Call → BlueGreenDeployment
unfolding deploy switch_traffic rollback write_slot
run d [] = d
run d (c ∷ cs) = run (step d c) cs
