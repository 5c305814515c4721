-- ===== src/Discovery/Registry/Watched.antt =====
-- What a watcher was last told, against what the registry holds.
use ts_commons.Base.{
  ℕ, ◌==◌, String, ◌≡◌, ◌≢◌, refl, sym, ap, ◌∙◌, subst, Option, none, some, Bool, true, false, List,
  [], ◌∷◌, ◌++◌, ◌||◌, map, arith, or_else, if◌then◌else◌, keep, some_of, Option-cases, Bool-cases,
  inl, inr, ite, if_pos, if_neg, dec_str,
}
use ts_commons.Base.JsMap.{
  JsMap, get, set, delete, values, IsDistinct, Lacks-get, set-IsDistinct, delete-IsDistinct,
}
use ts_commons.Discovery.{ServiceInstance, HealthStatus}
use ts_commons.Discovery.Registry.{
  ServiceRegistry, Notice, no_options, is_named, discover, notify_watchers, register, deregister,
  update_health, Call, registers, deregisters, updates_health, run,
}

abbrev pub after_notice : String → ℕ → List ServiceInstance → Notice → List ServiceInstance
after_notice name h known n =
    ite (dec_str n.service name) (if n.handler == h then n.current else known) known

-- What the last of some notices to the handler about the service said, or what was so before.
abbrev pub last_told : String → ℕ → List ServiceInstance → List Notice → List ServiceInstance
last_told name h known [] = known
last_told name h known (n ∷ ns) = last_told name h (after_notice name h known n) ns

-- The handler is among some handlers.
abbrev pub Watches : ℕ → List ℕ → Type 0
Watches h hs = some_of (λ g. g == h) hs ≡ true

-- The entry under a key, if any, is not of the service.
abbrev IsElsewhere : String → Option ServiceInstance → Type 0
IsElsewhere name none = Unit {0}
IsElsewhere name (some i) = i.name ≢ name

keep_skip :
    (name : String) (i : ServiceInstance) (is : List ServiceInstance)
    → i.name ≢ name
    → keep (is_named name) (i ∷ is) ≡ keep (is_named name) is
keep_skip name i is ne =
    let other : is_named name i ≡ false = if_neg (dec_str i.name name) ne _ _ in rw other refl

set_elsewhere :
    (name k : String) (i : ServiceInstance) (m : JsMap ServiceInstance)
    → i.name ≢ name
    → IsElsewhere name (get k m)
    → keep (is_named name) (values (set k i m)) ≡ keep (is_named name) (values m)
unfolding get set
set_elsewhere name k i [] ne e = keep_skip name i [] ne
set_elsewhere name k i ((j, w) ∷ m) ne e = elim (dec_str j k) [
  | yes p ↦ rw (if_pos _ p) (
      keep_skip name i (values m) ne
      ∙ sym (
          keep_skip name w (values m)
            (subst (IsElsewhere name) (if_pos (dec_str j k) p (some w) (get k m)) e)))
  | no p ↦ rw (if_neg _ p) (
      ap (λ zs. if is_named name w then w ∷ zs else zs)
        (set_elsewhere name k i m ne
          (subst (IsElsewhere name) (if_neg (dec_str j k) p (some w) (get k m)) e)))
]

delete_elsewhere :
    (name k : String) (m : JsMap ServiceInstance)
    → IsDistinct m
    → IsElsewhere name (get k m)
    → keep (is_named name) (values (delete k m)) ≡ keep (is_named name) (values m)
unfolding get delete
delete_elsewhere name k [] d e = refl
delete_elsewhere name k ((j, w) ∷ m) d e = elim (dec_str j k) [
  | yes p ↦
      let gone : get k m ≡ none = ap (λ i. get i m) (sym p) ∙ Lacks-get j m d.0 in
      rw (if_pos _ p) (
        delete_elsewhere name k m d.1 (subst (IsElsewhere name) (sym gone) tt)
        ∙ sym (
            keep_skip name w (values m)
              (subst (IsElsewhere name) (if_pos (dec_str j k) p (some w) (get k m)) e)))
  | no p ↦ rw (if_neg _ p) (
      ap (λ zs. if is_named name w then w ∷ zs else zs)
        (delete_elsewhere name k m d.1
          (subst (IsElsewhere name) (if_neg (dec_str j k) p (some w) (get k m)) e)))
]

abbrev notices : String → List ServiceInstance → List ℕ → List Notice
notices name current = map (λ g. record { service = name; handler = g; current = current })

heard :
    (name : String) (h : ℕ) (known current : List ServiceInstance) (g : ℕ) (b : Bool)
    → (g == h) ≡ b
    → after_notice name h known (record { service = name; handler = g; current = current })
      ≡ (if b then current else known)
heard name h known current g b e =
    if_pos (dec_str name name) refl _ _ ∙ ap (λ c. if c then current else known) e

told_again :
    (name : String) (h : ℕ) (current : List ServiceInstance) (hs : List ℕ)
    → last_told name h current (notices name current hs) ≡ current
told_again name h current [] = refl
told_again name h current (g ∷ gs) =
    ap (λ k. last_told name h k (notices name current gs))
      (elim (Bool-cases (g == h)) [
        | inl e ↦ heard name h current current g true e
        | inr e ↦ heard name h current current g false e
      ])
    ∙ told_again name h current gs

told_here :
    (name : String) (h : ℕ) (known current : List ServiceInstance) (hs : List ℕ)
    → Watches h hs
    → last_told name h known (notices name current hs) ≡ current
told_here name h known current [] w = absurd (ground (arith, w))
told_here name h known current (g ∷ gs) w = elim (Bool-cases (g == h)) [
  | inl e ↦
      ap (λ k. last_told name h k (notices name current gs)) (heard name h known current g true e)
      ∙ told_again name h current gs
  | inr e ↦
      ap (λ k. last_told name h k (notices name current gs)) (heard name h known current g false e)
      ∙ told_here name h known current gs (sym (ap (λ b. b || some_of (λ g. g == h) gs) e) ∙ w)
]

told_elsewhere :
    (name other : String) (h : ℕ) (known current : List ServiceInstance) (hs : List ℕ)
    → other ≢ name
    → last_told name h known (notices other current hs) ≡ known
told_elsewhere name other h known current [] ne = refl
told_elsewhere name other h known current (g ∷ gs) ne =
    ap (λ k. last_told name h k (notices other current gs))
      (if_neg (dec_str other name) ne (if g == h then current else known) known)
    ∙ told_elsewhere name other h known current gs ne

last_told-append :
    (name : String) (h : ℕ) (known : List ServiceInstance) (ns more : List Notice)
    → last_told name h known (ns ++ more) ≡ last_told name h (last_told name h known ns) more
last_told-append name h known [] more = refl
last_told-append name h known (n ∷ ns) more =
    last_told-append name h (after_notice name h known n) ns more

keep_all : (is : List ServiceInstance) → keep (λ i. true) is ≡ is
keep_all [] = refl
keep_all (i ∷ is) = ap (λ js. i ∷ js) (keep_all is)

discover_lem :
    (r : ServiceRegistry) (name : String)
    → discover r name no_options ≡ keep (is_named name) (values r.instances)
unfolding discover
discover_lem r name = keep_all _

-- An instance that takes the place of another is of the same service.
abbrev pub KeepsName : ServiceInstance → Option ServiceInstance → Type 0
KeepsName i none = Unit {0}
KeepsName i (some w) = w.name ≡ i.name

-- In each call, from the registry as it then is.
abbrev pub KeepNames : ServiceRegistry → List Call → Type 0
KeepNames r [] = Unit {0}
KeepNames r (registers i ∷ cs) = KeepsName i (get i.id r.instances) × KeepNames (register r i).0 cs
KeepNames r (deregisters id ∷ cs) = KeepNames (deregister r id).0 cs
KeepNames r (updates_health now id health ∷ cs) = KeepNames (update_health r now id health).0 cs

module _ (name : String) (h : ℕ) where
  moved :
      (o : Option ServiceInstance) (i : ServiceInstance)
      → KeepsName i o
      → i.name ≢ name
      → IsElsewhere name o
  moved none i k ne = tt
  moved (some w) i k ne = λ e. ne (sym k ∙ e)

  -- The handler watches the service, and `known` is what the registry would tell.
  record Knows (r : ServiceRegistry) (known : List ServiceInstance) : Type 0 where
    watches : Watches h (or_else (get name r.watchers) [])
    distinct : IsDistinct r.instances
    is_known : discover r name no_options ≡ known

  -- After the notices to the watchers of a service, where the others' instances stay.
  notified :
      (r : ServiceRegistry) (service : String) (known : List ServiceInstance)
      → Watches h (or_else (get name r.watchers) [])
      → (service ≢ name → discover r name no_options ≡ known)
      → discover r name no_options ≡ last_told name h known (notify_watchers r service)
  unfolding notify_watchers
  notified r service known w same = elim (dec_str service name) [
    | yes p ↦ sym (
        subst
          (λ s.
            last_told name h known
              (notices s (discover r s no_options) (or_else (get s r.watchers) []))
            ≡ discover r name no_options)
          (sym p) (told_here name h known (discover r name no_options) _ w))
    | no p ↦
        same p
        ∙ sym (
            told_elsewhere name service h known (discover r service no_options)
              (or_else (get service r.watchers) []) p)
  ]

  register-Knows :
      (r : ServiceRegistry) (i : ServiceInstance) (known : List ServiceInstance)
      → KeepsName i (get i.id r.instances)
      → Knows r known
      → Knows (register r i).0 (last_told name h known (register r i).1)
  unfolding register
  register-Knows r i known same k = record {
    watches = k.watches;
    distinct = set-IsDistinct i.id i r.instances k.distinct;
    is_known =
        notified (record r { instances = set i.id i r.instances }) i.name known k.watches
          (λ ne.
            discover_lem (record r { instances = set i.id i r.instances }) name
            ∙ set_elsewhere name i.id i r.instances ne (moved (get i.id r.instances) i same ne)
            ∙ sym (discover_lem r name)
            ∙ k.is_known);
  }

  deregister-Knows :
      (r : ServiceRegistry) (id : String) (known : List ServiceInstance)
      → Knows r known
      → Knows (deregister r id).0 (last_told name h known (deregister r id).1)
  unfolding deregister
  deregister-Knows r id known k = elim (Option-cases (get id r.instances)) [
    | inl e ↦ rw (e, deregister) k
    | inr (i, e) ↦
        rw (e, deregister)
          (record {
            watches = k.watches;
            distinct = delete-IsDistinct id r.instances k.distinct;
            is_known =
                notified (record r { instances = delete id r.instances }) i.name known k.watches
                  (λ ne.
                    discover_lem (record r { instances = delete id r.instances }) name
                    ∙ delete_elsewhere name id r.instances k.distinct
                        (subst (IsElsewhere name) (sym e) ne)
                    ∙ sym (discover_lem r name)
                    ∙ k.is_known);
          })
  ]

  update_health-Knows :
      (r : ServiceRegistry) (now : ℕ) (id : String) (health : HealthStatus)
      (known : List ServiceInstance)
      → Knows r known
      → Knows
          (update_health r now id health).0
          (last_told name h known (update_health r now id health).1)
  unfolding update_health
  update_health-Knows r now id health known k = elim (Option-cases (get id r.instances)) [
    | inl e ↦ rw (e, update_health) k
    | inr (i, e) ↦
        let i' = record i { health = health; last_checked_at = some now } in
        rw (e, update_health)
          (record {
            watches = k.watches;
            distinct = set-IsDistinct id i' r.instances k.distinct;
            is_known =
                notified (record r { instances = set id i' r.instances }) i.name known k.watches
                  (λ ne.
                    discover_lem (record r { instances = set id i' r.instances }) name
                    ∙ set_elsewhere name id i' r.instances ne (subst (IsElsewhere name) (sym e) ne)
                    ∙ sym (discover_lem r name)
                    ∙ k.is_known);
          })
  ]

  run-Knows :
      (r : ServiceRegistry) (known : List ServiceInstance) (cs : List Call)
      → KeepNames r cs
      → Knows r known
      → discover (run r cs).0 name no_options ≡ last_told name h known (run r cs).1
  unfolding run
  run-Knows r known [] s k = k.is_known
  run-Knows r known (registers i ∷ cs) s k =
      run-Knows (register r i).0 (last_told name h known (register r i).1) cs s.1
        (register-Knows r i known s.0 k)
      ∙ sym (last_told-append name h known (register r i).1 (run (register r i).0 cs).1)
  run-Knows r known (deregisters id ∷ cs) s k =
      run-Knows (deregister r id).0 (last_told name h known (deregister r id).1) cs s
        (deregister-Knows r id known k)
      ∙ sym (last_told-append name h known (deregister r id).1 (run (deregister r id).0 cs).1)
  run-Knows r known (updates_health now id health ∷ cs) s k =
      let (r', ns, _) = update_health r now id health in
      run-Knows r' (last_told name h known ns) cs s (update_health-Knows r now id health known k)
      ∙ sym (last_told-append name h known ns (run r' cs).1)

-- No handler is added or taken away here, and no instance is registered under the id of one of
-- another service. Then a handler that watches a service, and knows what the registry held of it,
-- knows it still after any registering, deregistering and change of health: what it was last told is
-- what `discover` returns.
pub watcher_knows :
    (name : String) (h : ℕ) (r : ServiceRegistry) (cs : List Call)
    → Watches h (or_else (get name r.watchers) [])
    → IsDistinct r.instances
    → KeepNames r cs
    → discover (run r cs).0 name no_options
      ≡ last_told name h (discover r name no_options) (run r cs).1
watcher_knows name h r cs w d s =
    run-Knows name h r (discover r name no_options) cs s
      (record { watches = w; distinct = d; is_known = refl })
