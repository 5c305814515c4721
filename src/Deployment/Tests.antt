-- ===== src/Deployment/Tests.antt =====
-- Runs of deployments and releases at concrete inputs.
use ts_commons.Base.{ℕ, ◌≤◌, ◌≡◌, refl, arith, none, some, List, [], ◌∷◌, All}
use ts_commons.Deployment.BlueGreen.{
  blue, green, Call, deploys, writes, switches, rolls_back, run, switch_traffic, not_deployed,
  set_active, get_slot,
}
use ts_commons.Deployment.BlueGreen as Slots
use ts_commons.Deployment.Canary as Release
use ts_commons.Deployment.Canary.{
  CanaryMetrics, CanaryConfig, CanaryRelease, initializing, succeeded, promotes, analyses, pauses,
  resumes, meets_thresholds, new, promote, rollback, analyse, set_phase,
}
use ts_commons.Deployment.Canary.Progress.{run-within, last_phase, Changes}
use ts_commons.Deployment.Canary.Promotions.{promotions, promotions_complete, Passes}

abbrev calls : List Call
calls = deploys 1 green "app:2" ∷ switches green ∷ rolls_back ∷ []

-- After the rollback the traffic goes to a slot that was never deployed.
lost_traffic : get_slot (run (Slots.new none) calls) blue ≡ none
unfolding run Slots.deploy switch_traffic Slots.rollback set_active
lost_traffic = refl

-- The blue slot loses its replicas after its deployment.
abbrev with_writes : List Call
with_writes =
    deploys 1 green "app:2"
    ∷ switches green
    ∷ deploys 2 blue "app:3"
    ∷ writes blue (λ s. record s { ready_replicas = 0 })
    ∷ []

is_refused : (switch_traffic (run (Slots.new none) with_writes) blue).1 ≡ Slots.not_ready blue
unfolding run Slots.deploy switch_traffic set_active Slots.write_slot
is_refused = refl

abbrev config : CanaryConfig
config = record {
  initial_weight = none;
  step_size = some 40;
  error_rate_threshold = none;
  baseline_latency_ms = none;
}

abbrev good : CanaryMetrics
good = record { error_rate = 1000; p99_latency_ms = 180 }

abbrev bad : CanaryMetrics
bad = record { error_rate = 60000; p99_latency_ms = 180 }

abbrev canary_calls : List Release.Call
canary_calls = promotes 1 good good ∷ pauses ∷ resumes ∷ analyses good bad ∷ []

run-within_example :
    let r = Release.run (new 0 config) canary_calls in
    (r.canary_weight ≤ 100)
    × (r.phase ≡ last_phase initializing r.phases)
    × Changes initializing r.phases
run-within_example = run-within 0 config canary_calls (omega arith)

abbrev readings : List (ℕ × CanaryMetrics × CanaryMetrics)
readings = (2, good, good) ∷ (3, good, good) ∷ []

metrics_fine : All (Passes (new 0 config)) ((1, good, good) ∷ readings)
unfolding meets_thresholds
metrics_fine = (refl, (refl, (refl, tt)))

promotions_complete_example :
    let r' = promotions (new 0 config) ((1, good, good) ∷ readings) in
    (r'.canary_weight ≡ 100) × (r'.phase ≡ succeeded)
promotions_complete_example =
    promotions_complete (new 0 config) 1 good good readings metrics_fine (omega arith) (omega arith)

-- A promotion after a rollback raises the weight again.
raised_again : (promote (rollback (new 0 config) 1 "stop") 2 good good).canary_weight ≡ 40
unfolding promote rollback analyse meets_thresholds set_phase
raised_again = refl
