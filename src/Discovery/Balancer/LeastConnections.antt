-- ===== src/Discovery/Balancer/LeastConnections.antt =====
-- The least loaded instance.
use ts_commons.Base.{
  ℕ, zero, suc, ◌+◌, ◌≤◌, String, ◌≡◌, refl, sym, ap, ◌∙◌, subst, none, some, length, true, false,
  List, [], ◌∷◌, arith, ltb, or_else, All, All-map, All-both, Bool-cases, inl, inr, ite, if_pos,
  if_neg, dec_str,
}
use ts_commons.Base.JsMap.{get, set, get-set}
use ts_commons.Discovery.{ServiceInstance}
use ts_commons.Discovery.Balancer.{Connections, get_connections, choose, next_least, after_calls}

abbrev pub IsLeast : Connections → ServiceInstance → List ServiceInstance → Type 0
IsLeast c x = All (λ y. get_connections c x.id ≤ get_connections c y.id)

choose_less :
    (c : Connections) (x y : ServiceInstance) (ys : List ServiceInstance)
    → ltb (get_connections c y.id) (get_connections c x.id) ≡ true
    → choose c x (y ∷ ys) ≡ choose c y ys
unfolding choose
choose_less c x y ys e = rw e refl

choose_other :
    (c : Connections) (x y : ServiceInstance) (ys : List ServiceInstance)
    → ltb (get_connections c y.id) (get_connections c x.id) ≡ false
    → choose c x (y ∷ ys) ≡ choose c x ys
unfolding choose
choose_other c x y ys e = rw e refl

choose-IsLeast :
    (c : Connections) (x : ServiceInstance) (xs : List ServiceInstance)
    → IsLeast c (choose c x xs) (x ∷ xs)
unfolding choose
choose-IsLeast c x [] = (omega arith, tt)
choose-IsLeast c x (y ∷ ys) =
    elim (Bool-cases (ltb (get_connections c y.id) (get_connections c x.id))) [
      | inl e ↦
          let (le, all) = choose-IsLeast c y ys in
          subst (λ z. IsLeast c z (x ∷ y ∷ ys)) (sym (choose_less c x y ys e))
            (ground (arith, e, le), (le, all))
      | inr e ↦
          let (le, all) = choose-IsLeast c x ys in
          subst (λ z. IsLeast c z (x ∷ y ∷ ys)) (sym (choose_other c x y ys e))
            (le, (ground (arith, e, le), all))
    ]

-- One of the instances is chosen.
choose-All :
    (P : ServiceInstance → Type 0) (c : Connections) (x : ServiceInstance)
    (xs : List ServiceInstance)
    → P x
    → All P xs
    → P (choose c x xs)
unfolding choose
choose-All P c x [] p a = p
choose-All P c x (y ∷ ys) p a =
    elim (Bool-cases (ltb (get_connections c y.id) (get_connections c x.id))) [
      | inl e ↦ rw e (choose-All P c y ys a.0 a.1)
      | inr e ↦ rw e (choose-All P c x ys p a.1)
    ]

get_connections-set :
    (k j : String) (n : ℕ) (c : Connections)
    → get_connections (set k n c) j ≡ ite (dec_str k j) n (get_connections c j)
get_connections-set k j n c = ap (λ o. or_else o 0) (get-set k j n c) ∙ elim (dec_str k j) [
  | yes p ↦ rw (if_pos _ p, if_pos _ p) refl
  | no p ↦ rw (if_neg _ p, if_neg _ p) refl
]

abbrev pub IsBetween : Connections → ℕ → ServiceInstance → Type 0
IsBetween c m x = (m ≤ get_connections c x.id) × (get_connections c x.id ≤ m + 1)

-- No two of the instances are more than one connection apart.
abbrev pub IsBalanced : Connections → List ServiceInstance → Type 0
IsBalanced c xs = (m : ℕ) × All (IsBetween c m) xs

set-IsBetween :
    (c : Connections) (k : String) (m n : ℕ) (y : ServiceInstance)
    → m ≤ n
    → n ≤ m
    → m ≤ get_connections c y.id
    → get_connections c y.id ≤ m + 1
    → IsBetween (set k (n + 1) c) m y
set-IsBetween c k m n y lo hi le ge =
    rw (get_connections-set k y.id (n + 1) c) (elim (dec_str k y.id) [
      | yes p ↦ rw (if_pos _ p) (omega (arith, lo), omega (arith, hi))
      | no p ↦ rw (if_neg _ p) (le, ge)
    ])

next_least-IsBalanced :
    (c : Connections) (xs : List ServiceInstance)
    → IsBalanced c xs
    → IsBalanced (next_least c xs).0 xs
unfolding next_least
next_least-IsBalanced c [] b = b
next_least-IsBalanced c (x ∷ xs) (m, all) =
    let chosen = choose c x xs in
    let n = get_connections c chosen.id in
    let least = All-both _ _ (x ∷ xs) (choose-IsLeast c x xs) all in
    let (low, high) = choose-All (IsBetween c m) c x xs all.0 all.1 in
    elim (Bool-cases (ltb m n)) [
      | inl e ↦ (
        m + 1,
        All-map _ (x ∷ xs)
            (λ y h.
              set-IsBetween c chosen.id (m + 1) n y (ground (arith, e)) (ground (arith, high))
                (ground (arith, e, h.0)) (ground (arith, h.1.1)))
            least,
      )
      | inr e ↦ (
        m,
        All-map _ (x ∷ xs)
            (λ y h.
              set-IsBetween c chosen.id m n y (ground (arith, low)) (ground (arith, e)) h.1.0 h.1.1)
            least,
      )
    ]

none_yet : (xs : List ServiceInstance) → All (IsBetween [] 0) xs
unfolding get
none_yet [] = tt
none_yet (x ∷ xs) = ((omega arith, omega arith), none_yet xs)

after_calls-IsBalanced :
    (c : Connections) (xs : List ServiceInstance) (n : ℕ)
    → IsBalanced c xs
    → IsBalanced (after_calls c xs n) xs
unfolding after_calls
after_calls-IsBalanced c xs zero b = b
after_calls-IsBalanced c xs (suc n) b =
    after_calls-IsBalanced (next_least c xs).0 xs n (next_least-IsBalanced c xs b)

-- The ids that so many calls with the same instances return.
abbrev pub served : Connections → List ServiceInstance → ℕ → List String
served c xs zero = []
served c xs (suc n) =
    let rest = served (next_least c xs).0 xs n in
    elim (next_least c xs).1 [ none ↦ rest | some x ↦ x.id ∷ rest ]

-- How often an id stands in a list.
abbrev pub times : String → List String → ℕ
times id [] = 0
times id (k ∷ ks) = ite (dec_str k id) (suc (times id ks)) (times id ks)

counted :
    (c : Connections) (k id : String) (ks : List String)
    → get_connections (set k (get_connections c k + 1) c) id + times id ks
      ≡ get_connections c id + times id (k ∷ ks)
counted c k id ks = rw (get_connections-set k id (get_connections c k + 1) c) (elim (dec_str k id) [
  | yes p ↦
      let same : get_connections c k ≡ get_connections c id = ap (get_connections c) p in
      rw (if_pos _ p, if_pos _ p) (omega (arith, same))
  | no p ↦ rw (if_neg _ p, if_neg _ p) refl
])

after_calls-counts :
    (c : Connections) (x : ServiceInstance) (xs : List ServiceInstance) (n : ℕ) (id : String)
    → get_connections (after_calls c (x ∷ xs) n) id
      ≡ get_connections c id + times id (served c (x ∷ xs) n)
unfolding after_calls next_least
after_calls-counts c x xs zero id = omega arith
after_calls-counts c x xs (suc n) id =
    let k = (choose c x xs).id in
    let c' = set k (get_connections c k + 1) c in
    after_calls-counts c' x xs n id ∙ counted c k id (served c' (x ∷ xs) n)

length-served :
    (c : Connections) (x : ServiceInstance) (xs : List ServiceInstance) (n : ℕ)
    → length (served c (x ∷ xs) n) ≡ n
unfolding next_least
length-served c x xs zero = refl
length-served c x xs (suc n) =
    let k = (choose c x xs).id in ap suc (length-served (set k (get_connections c k + 1) c) x xs n)

-- From no connections, any number of calls with the same instances and no release: each returns an
-- instance, an id counts as many connections as the calls that returned it, no two of the instances
-- are more than one connection apart, and the next call returns one with the fewest.
pub keeps_balance :
    (x : ServiceInstance) (xs : List ServiceInstance) (n : ℕ)
    → let c = after_calls [] (x ∷ xs) n in
      (length (served [] (x ∷ xs) n) ≡ n)
      × ((id : String) → get_connections c id ≡ times id (served [] (x ∷ xs) n))
      × IsBalanced c (x ∷ xs)
      × ((next_least c (x ∷ xs)).1 ≡ some (choose c x xs))
      × IsLeast c (choose c x xs) (x ∷ xs)
unfolding next_least get
keeps_balance x xs n =
    let c = after_calls [] (x ∷ xs) n in
    (
      length-served [] x xs n,
      λ id. after_calls-counts [] x xs n id ∙ omega arith,
      after_calls-IsBalanced [] (x ∷ xs) n (0, none_yet (x ∷ xs)),
      refl,
      choose-IsLeast c x xs,
    )
