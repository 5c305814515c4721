-- ===== src/Discovery/Registry.antt =====
-- packages/discovery/src/ServiceRegistry.ts: the in-memory registry and its watchers. A handler is
-- known by a number; what handlers are called with is a list of notices, in order. The date is an
-- argument.
pub mod Watched
use ts_commons.Base.{
  ℕ, suc, ◌+◌, ◌==◌, String, Option, none, some, Bool, true, false, not, List, [], ◌∷◌, ◌++◌, map,
  or_else, if◌then◌else◌, keep, every, some_of, ite, dec_str,
}
use ts_commons.Base.JsMap.{JsMap, get, set, delete, values, size}
use ts_commons.Discovery.{ServiceInstance, HealthStatus, healthy, unhealthy, unknown}

pub record DiscoveryOptions : Type 0 where
  pub healthy_only : Bool
  pub tags : List String

pub record ServiceRegistry : Type 0 where
  pub instances : JsMap ServiceInstance
  pub watchers : JsMap (List ℕ)

-- A handler called with the instances of a service.
pub record Notice : Type 0 where
  pub service : String
  pub handler : ℕ
  pub current : List ServiceInstance

abbrev pub new : ServiceRegistry
new = record { instances = []; watchers = [] }

abbrev pub no_options : DiscoveryOptions
no_options = record { healthy_only = false; tags = [] }

abbrev pub is_healthy : ServiceInstance → Bool
is_healthy i = elim i.health [ healthy ↦ true | unhealthy ↦ false | unknown ↦ false ]

abbrev pub has_tag : String → ServiceInstance → Bool
has_tag tag i = some_of (λ t. ite (dec_str t tag) true false) (or_else i.tags [])

abbrev pub is_named : String → ServiceInstance → Bool
is_named name i = ite (dec_str i.name name) true false

-- With no tag asked for every instance passes the third filter.
unfoldable pub discover : ServiceRegistry → String → DiscoveryOptions → List ServiceInstance
discover r name options =
    let named = keep (is_named name) (values r.instances) in
    let fit = if options.healthy_only then keep is_healthy named else named in
    keep (λ i. every (λ tag. has_tag tag i) options.tags) fit

abbrev pub get_healthy : ServiceRegistry → String → List ServiceInstance
get_healthy r name = discover r name (record { healthy_only = true; tags = [] })

-- The loop over the handlers of a service.
unfoldable pub notify_watchers : ServiceRegistry → String → List Notice
unfolding discover
notify_watchers r name =
    map (λ h. record { service = name; handler = h; current = discover r name no_options })
      (or_else (get name r.watchers) [])

-- The instance comes with its date of registration.
unfoldable pub register : ServiceRegistry → ServiceInstance → ServiceRegistry × List Notice
register r i =
    let r' = record r { instances = set i.id i r.instances } in (r', notify_watchers r' i.name)

unfoldable pub deregister : ServiceRegistry → String → ServiceRegistry × List Notice × Bool
deregister r id = elim (get id r.instances) [
  | none ↦ (r, [], false)
  | some i ↦
      let r' = record r { instances = delete id r.instances } in
      (r', notify_watchers r' i.name, true)
]

unfoldable pub update_health :
    ServiceRegistry → ℕ → String → HealthStatus → ServiceRegistry × List Notice × Bool
update_health r now id health = elim (get id r.instances) [
  | none ↦ (r, [], false)
  | some i ↦
      let i' = record i { health = health; last_checked_at = some now } in
      let r' = record r { instances = set id i' r.instances } in
      (r', notify_watchers r' i.name, true)
]

-- A set of handlers: one that is there is not added again.
abbrev pub add_handler : ℕ → List ℕ → List ℕ
add_handler h [] = h ∷ []
add_handler h (g ∷ gs) = if g == h then g ∷ gs else g ∷ add_handler h gs

unfoldable pub watch : ServiceRegistry → String → ℕ → ServiceRegistry
watch r name h = record r {
  watchers = set name (add_handler h (or_else (get name r.watchers) [])) r.watchers;
}

unfoldable pub unwatch : ServiceRegistry → String → ℕ → ServiceRegistry
unwatch r name h = elim (get name r.watchers) [
  | none ↦ r
  | some hs ↦ record r { watchers = set name (keep (λ g. not (g == h)) hs) r.watchers }
]

abbrev pub instance_count : ServiceRegistry → ℕ
instance_count r = size r.instances

-- A call that changes the instances.
pub data Call : Type 0 where
  registers : ServiceInstance → Call
  deregisters : String → Call
  updates_health : ℕ → String → HealthStatus → Call

abbrev pub step : ServiceRegistry → Call → ServiceRegistry × List Notice
step r (registers i) = register r i
step r (deregisters id) = let (r', ns, _) = deregister r id in (r', ns)
step r (updates_health now id health) = let (r', ns, _) = update_health r now id health in (r', ns)

unfoldable pub run : ServiceRegistry → List Call → ServiceRegistry × List Notice
unfolding register deregister update_health
run r [] = (r, [])
run r (c ∷ cs) = let (r', ns) = step r c in let (r'', more) = run r' cs in (r'', ns ++ more)
