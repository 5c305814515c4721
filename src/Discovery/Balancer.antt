-- ===== src/Discovery/Balancer.antt =====
-- packages/discovery/src/LoadBalancer.ts: the balancers that keep a state.
pub mod RoundRobin
pub mod LeastConnections
use ts_commons.Base.{
  ℕ, zero, suc, ◌+◌, ◌-◌, ◌%◌, String, Option, none, some, Bool, List, [], ◌∷◌, ltb, or_else,
  if◌then◌else◌, length, get_elem?,
}
use ts_commons.Base.JsMap.{JsMap, get, set}
use ts_commons.Discovery.{ServiceInstance}

-- Round robin: the state is the index.
unfoldable pub next_in_turn : ℕ → List ServiceInstance → ℕ × Option ServiceInstance
next_in_turn index [] = (index, none)
next_in_turn index (x ∷ xs) =
    ((index + 1) % length (x ∷ xs), get_elem? (x ∷ xs) (index % length (x ∷ xs)))

-- So many calls with the same instances.
unfoldable pub turns : ℕ → List ServiceInstance → ℕ → ℕ × List (Option ServiceInstance)
unfolding next_in_turn
turns index xs zero = (index, [])
turns index xs (suc n) =
    let (index', chosen) = next_in_turn index xs in
    let (index'', rest) = turns index' xs n in (index'', chosen ∷ rest)

-- Least connections: the state is the map of the counts.
abbrev pub Connections : Type 0
Connections = JsMap ℕ

abbrev pub get_connections : Connections → String → ℕ
get_connections c id = or_else (get id c) 0

-- The loop over the other instances, with the one chosen so far.
unfoldable pub choose : Connections → ServiceInstance → List ServiceInstance → ServiceInstance
choose c chosen [] = chosen
choose c chosen (x ∷ xs) =
    let taken = choose c x xs in
    let kept = choose c chosen xs in
    if ltb (get_connections c x.id) (get_connections c chosen.id) then taken else kept

unfoldable pub next_least :
    Connections → List ServiceInstance → Connections × Option ServiceInstance
unfolding choose
next_least c [] = (c, none)
next_least c (x ∷ xs) =
    let chosen = choose c x xs in (set chosen.id (get_connections c chosen.id + 1) c, some chosen)

unfoldable pub release : Connections → String → Connections
release c id = if ltb 0 (get_connections c id) then set id (get_connections c id - 1) c else c

-- The connections after so many calls with the same instances and no release.
unfoldable pub after_calls : Connections → List ServiceInstance → ℕ → Connections
unfolding next_least
after_calls c xs zero = c
after_calls c xs (suc n) = after_calls (next_least c xs).0 xs n
