-- ===== src/Discovery/Balancer/RoundRobin.antt =====
-- Instances in turn.
use native.Mathlib.Nat.{mod-eq_of_lt, mod_self, mod-mod, mod-add-mod}
use ts_commons.Base.{
  ℕ, zero, suc, ◌+◌, ◌%◌, ◌<◌, ◌≡◌, refl, sym, ap, ◌∙◌, Option, some, List, [], ◌∷◌, ◌++◌, map,
  arith, length, get_elem?, length-append, append_assoc,
}
use ts_commons.Discovery.{ServiceInstance}
use ts_commons.Discovery.Balancer.{next_in_turn, turns}

-- Where the index stands after the last of some instances.
abbrev after : ℕ → List ServiceInstance → ℕ
after n [] = 0
after n (z ∷ zs) = n

get_elem?-append :
    (xs : List ServiceInstance) (y : ServiceInstance) (ys : List ServiceInstance)
    → get_elem? (xs ++ y ∷ ys) (length xs) ≡ some y
get_elem?-append [] y ys = refl
get_elem?-append (x ∷ xs) y ys = get_elem?-append xs y ys

next_in_turn-lem :
    (i : ℕ) (xs : List ServiceInstance)
    → 0 < length xs
    → next_in_turn i xs ≡ ((i + 1) % length xs, get_elem? xs (i % length xs))
unfolding next_in_turn
next_in_turn-lem i [] h = absurd (omega (arith, h))
next_in_turn-lem i (x ∷ xs) h = refl

index_after :
    (xs : List ServiceInstance) (y : ServiceInstance) (ys : List ServiceInstance)
    → (length xs + 1) % length (xs ++ y ∷ ys) ≡ after (length xs + 1) ys
index_after xs y [] =
    ap (λ n. (length xs + 1) % n) (length-append xs (y ∷ []) ∙ omega arith)
    ∙ mod_self (length xs + 1)
index_after xs y (z ∷ zs) = mod-eq_of_lt (omega (arith, length-append xs (y ∷ z ∷ zs)))

next_in_turn-at :
    (xs : List ServiceInstance) (y : ServiceInstance) (ys : List ServiceInstance)
    → next_in_turn (length xs) (xs ++ y ∷ ys) ≡ (after (length xs + 1) ys, some y)
next_in_turn-at xs y ys =
    let total = length-append xs (y ∷ ys) in
    let within : length xs % length (xs ++ y ∷ ys) ≡ length xs =
      mod-eq_of_lt (omega (arith, total)) in
    next_in_turn-lem (length xs) (xs ++ y ∷ ys) (omega (arith, total))
    ∙ ap (λ n. ((length xs + 1) % length (xs ++ y ∷ ys), get_elem? (xs ++ y ∷ ys) n)) within
    ∙ ap (λ o. ((length xs + 1) % length (xs ++ y ∷ ys), o)) (get_elem?-append xs y ys)
    ∙ ap (λ n. (n, some y)) (index_after xs y ys)

after-append :
    (n : ℕ) (ys : List ServiceInstance) (z : ServiceInstance) (zs : List ServiceInstance)
    → after n (ys ++ z ∷ zs) ≡ n
after-append n [] z zs = refl
after-append n (y ∷ ys) z zs = refl

turns_none : (i : ℕ) (xs : List ServiceInstance) → turns i xs 0 ≡ (i, [])
unfolding turns
turns_none i xs = refl

-- One call, and those after it.
turns_step :
    (xs : List ServiceInstance) (y : ServiceInstance) (ys : List ServiceInstance) (n i : ℕ)
    (out : List (Option ServiceInstance))
    → turns (after (length xs + 1) ys) ((xs ++ y ∷ []) ++ ys) n ≡ (i, out)
    → turns (length xs) (xs ++ y ∷ ys) (suc n) ≡ (i, some y ∷ out)
unfolding turns
turns_step xs y ys n i out h =
    ap (λ p. let (j, o) = p in let (j', rest) = turns j (xs ++ y ∷ ys) n in (j', o ∷ rest))
      (next_in_turn-at xs y ys)
    ∙ ap (λ l. let (j', rest) = turns (after (length xs + 1) ys) l n in (j', some y ∷ rest))
        (sym (append_assoc xs (y ∷ []) ys))
    ∙ ap (λ r. (r.0, some y ∷ r.1)) h

length-snoc :
    (xs : List ServiceInstance) (y : ServiceInstance) → length (xs ++ y ∷ []) ≡ length xs + 1
length-snoc xs y = length-append xs (y ∷ [])

-- Calls for some instances `ys` that stand before another.
turns_before :
    (xs ys : List ServiceInstance) (z : ServiceInstance) (zs : List ServiceInstance)
    → turns (length xs) (xs ++ (ys ++ z ∷ zs)) (length ys) ≡ (length xs + length ys, map some ys)
turns_before xs [] z zs = turns_none (length xs) (xs ++ z ∷ zs) ∙ ap (λ n. (n, [])) (omega arith)
turns_before xs (y ∷ ys) z zs =
    turns_step xs y (ys ++ z ∷ zs) (length ys) _ _ (
      ap (λ n. turns n ((xs ++ y ∷ []) ++ (ys ++ z ∷ zs)) (length ys))
        (after-append (length xs + 1) ys z zs ∙ sym (length-snoc xs y))
      ∙ turns_before (xs ++ y ∷ []) ys z zs)
    ∙ ap (λ n. (n, map some (y ∷ ys))) (omega (arith, length-snoc xs y))

-- Calls for the instances up to the last, after which the index is 0.
turns_last :
    (xs : List ServiceInstance) (y : ServiceInstance) (ys : List ServiceInstance)
    → turns (length xs) (xs ++ y ∷ ys) (length (y ∷ ys)) ≡ (0, map some (y ∷ ys))
turns_last xs y [] = turns_step xs y [] 0 _ _ (turns_none 0 ((xs ++ y ∷ []) ++ []))
turns_last xs y (z ∷ zs) = turns_step xs y (z ∷ zs) (length (z ∷ zs)) _ _ (
    ap (λ n. turns n ((xs ++ y ∷ []) ++ z ∷ zs) (length (z ∷ zs))) (sym (length-snoc xs y))
    ∙ turns_last (xs ++ y ∷ []) z zs)

turns_add :
    (i : ℕ) (xs : List ServiceInstance) (m n : ℕ)
    → turns i xs (m + n)
      ≡ ((turns (turns i xs m).0 xs n).0, (turns i xs m).1 ++ (turns (turns i xs m).0 xs n).1)
unfolding turns
turns_add i xs zero n = let same : 0 + n ≡ n = omega arith in ap (turns i xs) same
turns_add i xs (suc m) n =
    let later : suc m + n ≡ suc (m + n) = omega arith in
    ap (turns i xs) later
    ∙ ap (λ r. (r.0, (next_in_turn i xs).1 ∷ r.1)) (turns_add (next_in_turn i xs).0 xs m n)

round_within :
    (xs : List ServiceInstance) (y : ServiceInstance) (ys : List ServiceInstance)
    → turns (length xs) (xs ++ y ∷ ys) (length (y ∷ ys) + length xs)
      ≡ (length xs, map some (y ∷ ys) ++ map some xs)
round_within xs y ys =
    turns_add (length xs) (xs ++ y ∷ ys) (length (y ∷ ys)) (length xs)
    ∙ ap
        (λ r. (
          (turns r.0 (xs ++ y ∷ ys) (length xs)).0,
          r.1 ++ (turns r.0 (xs ++ y ∷ ys) (length xs)).1,
        ))
        (turns_last xs y ys)
    ∙ ap (λ r. (r.0, map some (y ∷ ys) ++ r.1)) (turns_before [] xs y ys)
    ∙ ap (λ n. (n, map some (y ∷ ys) ++ map some xs)) (omega arith)

next_in_turn-mod :
    (i : ℕ) (xs : List ServiceInstance)
    → 0 < length xs
    → next_in_turn i xs ≡ next_in_turn (i % length xs) xs
next_in_turn-mod i xs h =
    next_in_turn-lem i xs h
    ∙ ap (λ n. (n, get_elem? xs (i % length xs))) (sym (mod-add-mod i (length xs) 1))
    ∙ ap (λ n. ((i % length xs + 1) % length xs, get_elem? xs n)) (sym (mod-mod i (length xs)))
    ∙ sym (next_in_turn-lem (i % length xs) xs h)

-- Calls go by the remainder of the index.
turns-mod :
    (i : ℕ) (xs : List ServiceInstance) (n : ℕ)
    → 0 < length xs
    → turns i xs (suc n) ≡ turns (i % length xs) xs (suc n)
unfolding turns
turns-mod i xs n h =
    ap (λ p. let (j, o) = p in let (j', rest) = turns j xs n in (j', o ∷ rest))
      (next_in_turn-mod i xs h)

-- Whatever the index, also one that a longer list of instances has left: as many calls in a row as
-- there are instances return each of them once, from the one at the remainder of the index by their
-- number on and round to the one before it, and leave the index at that remainder.
pub turns-round :
    (i : ℕ) (xs : List ServiceInstance) (y : ServiceInstance) (ys : List ServiceInstance)
    → i % length (xs ++ y ∷ ys) ≡ length xs
    → turns i (xs ++ y ∷ ys) (length (y ∷ ys) + length xs)
      ≡ (length xs, map some (y ∷ ys) ++ map some xs)
turns-round i xs y ys at_y =
    let total = length-append xs (y ∷ ys) in
    let calls : length (y ∷ ys) + length xs ≡ suc (length ys + length xs) = omega arith in
    ap (turns i (xs ++ y ∷ ys)) calls
    ∙ turns-mod i (xs ++ y ∷ ys) (length ys + length xs) (omega (arith, total))
    ∙ ap (λ n. turns n (xs ++ y ∷ ys) (suc (length ys + length xs))) at_y
    ∙ ap (turns (length xs) (xs ++ y ∷ ys)) (sym calls)
    ∙ round_within xs y ys
