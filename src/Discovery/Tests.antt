-- ===== src/Discovery/Tests.antt =====
-- Runs of the balancers and of the registry at concrete inputs.
use ts_commons.Base.{
  length, ◌≡◌, refl, String, none, some, List, [], ◌∷◌, ◌++◌, map, or_else, dec_str,
}
use ts_commons.Base.JsMap.{get, set, delete, IsDistinct}
use ts_commons.Discovery.{ServiceInstance, healthy, unknown}
use ts_commons.Discovery.Balancer.{turns, after_calls, get_connections, next_least, choose}
use ts_commons.Discovery.Balancer.RoundRobin.{turns-round}
use ts_commons.Discovery.Balancer.LeastConnections.{
  served, times, keeps_balance, IsBalanced, IsLeast,
}
use ts_commons.Discovery.Registry.{
  ServiceRegistry, new, no_options, notify_watchers, register, watch, discover, Call, registers,
  deregisters, updates_health, run,
}
use ts_commons.Discovery.Registry.Watched.{watcher_knows, last_told, KeepNames, Watches}

abbrev instance_of : String → String → ServiceInstance
instance_of id name = record {
  id = id;
  name = name;
  host = "localhost";
  tags = none;
  health = unknown;
  registered_at = 0;
  last_checked_at = none;
}

abbrev a : ServiceInstance
a = instance_of "a" "orders"

abbrev b : ServiceInstance
b = instance_of "b" "orders"

abbrev c : ServiceInstance
c = instance_of "c" "users"

turns-round_example : turns 7 (a ∷ b ∷ c ∷ []) 3 ≡ (1, map some (b ∷ c ∷ []) ++ map some (a ∷ []))
turns-round_example = turns-round 7 (a ∷ []) b (c ∷ []) refl

keeps_balance_example :
    let n = after_calls [] (a ∷ b ∷ c ∷ []) 5 in
    (length (served [] (a ∷ b ∷ c ∷ []) 5) ≡ 5)
    × ((id : String) → get_connections n id ≡ times id (served [] (a ∷ b ∷ c ∷ []) 5))
    × IsBalanced n (a ∷ b ∷ c ∷ [])
    × ((next_least n (a ∷ b ∷ c ∷ [])).1 ≡ some (choose n a (b ∷ c ∷ [])))
    × IsLeast n (choose n a (b ∷ c ∷ [])) (a ∷ b ∷ c ∷ [])
keeps_balance_example = keeps_balance a (b ∷ c ∷ []) 5

abbrev watched : ServiceRegistry
watched = watch (register new a).0 "orders" 7

abbrev calls : List Call
calls = registers b ∷ registers c ∷ updates_health 9 "b" healthy ∷ deregisters "a" ∷ []

watched-Watches : Watches 7 (or_else (get "orders" watched.watchers) [])
unfolding watch register get set dec_str notify_watchers
watched-Watches = refl

watched-IsDistinct : IsDistinct watched.instances
unfolding watch register set
watched-IsDistinct = (tt, tt)

calls-KeepNames : KeepNames watched calls
unfolding watch register get set delete dec_str
calls-KeepNames = (tt, (tt, tt))

watcher_knows_example :
    discover (run watched calls).0 "orders" no_options
    ≡ last_told "orders" 7 (discover watched "orders" no_options) (run watched calls).1
watcher_knows_example =
    watcher_knows "orders" 7 watched calls watched-Watches watched-IsDistinct calls-KeepNames

-- An instance that is registered again under another name leaves the old service without a notice.
no_notice : map (λ n. n.service) (register watched (instance_of "a" "users")).1 ≡ []
unfolding watch register get set dec_str notify_watchers
no_notice = refl
