-- ===== src/Deployment/BlueGreen/Traffic.antt =====
-- Which slot gets the traffic.
use ts_commons.Base.{◌≡◌, Option, none, some, Bool, false, List, [], ◌∷◌, leb, if◌then◌else◌}
use ts_commons.Deployment.BlueGreen.{
  DeploymentColor, DeploymentSlot, BlueGreenDeployment, TrafficSwitchResult, switched, not_deployed,
  not_ready, same_color, get_slot, set_active, Call, deploys, switches, rolls_back, writes,
}

-- A slot, if there is one, knows its colour and is active just if its colour is.
abbrev pub IsRight : DeploymentColor → DeploymentColor → Option DeploymentSlot → Type 0
IsRight active color none = Unit {0}
IsRight active color (some s) = (s.color ≡ color) × (s.active ≡ same_color color active)

abbrev pub AllRight : BlueGreenDeployment → Type 0
AllRight d = (color : DeploymentColor) → IsRight d.active_color color (get_slot d color)

-- The slot has no fewer replicas ready than it should have.
abbrev pub is_ready : Option DeploymentSlot → Bool
is_ready none = false
is_ready (some s) = leb s.replicas s.ready_replicas

abbrev pub refusal : DeploymentColor → Option DeploymentSlot → TrafficSwitchResult
refusal to none = not_deployed to
refusal to (some s) = not_ready to

-- What a switch to a colour does, by whether its slot is ready.
abbrev pub switch_answer :
    BlueGreenDeployment → DeploymentColor → BlueGreenDeployment × TrafficSwitchResult
switch_answer d to =
    if is_ready (get_slot d to)
    then (set_active to d, switched d.active_color to)
    else (d, refusal to (get_slot d to))

-- A write that keeps the colour of the slot and its mark.
abbrev pub KeepsMark : (DeploymentSlot → DeploymentSlot) → Type 0
KeepsMark f = (s : DeploymentSlot) → ((f s).color ≡ s.color) × ((f s).active ≡ s.active)

abbrev pub KeepMarks : List Call → Type 0
KeepMarks [] = Unit {0}
KeepMarks (writes color f ∷ cs) = KeepsMark f × KeepMarks cs
KeepMarks (deploys now color image ∷ cs) = KeepMarks cs
KeepMarks (switches to ∷ cs) = KeepMarks cs
KeepMarks (rolls_back ∷ cs) = KeepMarks cs
