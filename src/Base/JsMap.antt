-- ===== src/Base/JsMap.antt =====
-- The `Map<string, V>` of the source: its entries in insertion order. `set` on a key that is there
-- keeps the entry's place, and a new key goes to the end, as a JavaScript `Map` does.
use Prim.Native.Nat.{ℕ, ◌+◌}
use Prim.Native.String.{String}
use mathlib.Core.Path.{◌≡◌, refl}
use mathlib.Core.Logic.{◌≢◌, ite, if_pos, if_neg}
use mathlib.Core.Bool.{Bool}
use mathlib.Core.Option.{Option, none, some}
use mathlib.Core.List.{List, [], ◌∷◌, map}
use native.Mathlib.Omega.{arith}
use ts_commons.Base.Tests.{dec_str, is_some}
use ts_commons.Base.Lists.{length}

abbrev pub JsMap {ℓ} : Type ℓ → Type ℓ
JsMap V = List (String × V)

module _ {ℓ} {V : Type ℓ} where
  unfoldable pub get : String → JsMap V → Option V
  get k [] = none
  get k ((j, v) ∷ m) = ite (dec_str j k) (some v) (get k m)

  abbrev pub has : String → JsMap V → Bool
  has k m = is_some (get k m)

  unfoldable pub set : String → V → JsMap V → JsMap V
  set k v [] = (k, v) ∷ []
  set k v ((j, w) ∷ m) = ite (dec_str j k) ((j, v) ∷ m) ((j, w) ∷ set k v m)

  -- A key stands in one entry only, so to drop all its entries is to drop that one.
  unfoldable pub delete : String → JsMap V → JsMap V
  delete k [] = []
  delete k ((j, w) ∷ m) = let rest = delete k m in ite (dec_str j k) rest ((j, w) ∷ rest)

  abbrev pub keys : JsMap V → List String
  keys = map (λ e. e.0)

  abbrev pub values : JsMap V → List V
  values = map (λ e. e.1)

  abbrev pub size : JsMap V → ℕ
  size = length

  -- No key of the map is `k`.
  abbrev pub Lacks : String → JsMap V → Type 0
  Lacks k [] = Unit {0}
  Lacks k ((j, v) ∷ m) = (j ≢ k) × Lacks k m

  -- Each key stands in one entry.
  abbrev pub IsDistinct : JsMap V → Type 0
  IsDistinct [] = Unit {0}
  IsDistinct ((j, v) ∷ m) = Lacks j m × IsDistinct m

  -- A read after a write, at any key.
  pub get-set :
      (k j : String) (v : V) (m : JsMap V)
      → get j (set k v m) ≡ ite (dec_str k j) (some v) (get j m)
  unfolding get set
  get-set k j v [] = refl
  get-set k j v ((i, w) ∷ m) = ground (arith, get-set k j v m)

  pub get-delete :
      (k j : String) (m : JsMap V) → get j (delete k m) ≡ ite (dec_str k j) none (get j m)
  unfolding get delete
  get-delete k j [] = ground arith
  get-delete k j ((i, w) ∷ m) = ground (arith, get-delete k j m)

  pub get-set_self : (k : String) (v : V) (m : JsMap V) → get k (set k v m) ≡ some v
  get-set_self k v m = ground (arith, get-set k k v m)

  pub get-set_ne : (k j : String) (v : V) (m : JsMap V) → k ≢ j → get j (set k v m) ≡ get j m
  get-set_ne k j v m h = ground (arith, get-set k j v m)

  pub get-delete_self : (k : String) (m : JsMap V) → get k (delete k m) ≡ none
  get-delete_self k m = ground (arith, get-delete k k m)

  pub get-delete_ne : (k j : String) (m : JsMap V) → k ≢ j → get j (delete k m) ≡ get j m
  get-delete_ne k j m h = ground (arith, get-delete k j m)

  -- A write to a new key appends, and to an old one keeps the size.
  pub size-set :
      (k : String) (v : V) (m : JsMap V)
      → size (set k v m) ≡ elim (get k m) [ none ↦ size m + 1 | some w ↦ size m ]
  unfolding get set
  size-set k v [] = omega arith
  size-set k v ((j, w) ∷ m) = ground (arith, size-set k v m)

  pub Lacks-get : (k : String) (m : JsMap V) → Lacks k m → get k m ≡ none
  unfolding get
  Lacks-get k [] h = refl
  Lacks-get k ((j, w) ∷ m) h = rw (if_neg _ h.0) (Lacks-get k m h.1)

  get-Lacks : (k : String) (m : JsMap V) → get k m ≡ none → Lacks k m
  unfolding get
  get-Lacks k [] h = tt
  get-Lacks k ((j, w) ∷ m) h = (ground arith, get-Lacks k m (ground arith))

  set-Lacks : (k j : String) (v : V) (m : JsMap V) → k ≢ j → Lacks j m → Lacks j (set k v m)
  unfolding set
  set-Lacks k j v [] h l = (h, tt)
  set-Lacks k j v ((i, w) ∷ m) h l = ground (arith, set-Lacks k j v m h l.1)

  delete-Lacks : (k j : String) (m : JsMap V) → Lacks j m → Lacks j (delete k m)
  unfolding delete
  delete-Lacks k j [] l = tt
  delete-Lacks k j ((i, w) ∷ m) l = ground (arith, delete-Lacks k j m l.1)

  -- Both keep the keys distinct.
  pub set-IsDistinct : (k : String) (v : V) (m : JsMap V) → IsDistinct m → IsDistinct (set k v m)
  unfolding set
  set-IsDistinct k v [] d = (tt, tt)
  set-IsDistinct k v ((j, w) ∷ m) d = elim (dec_str j k) [
    | yes p ↦ rw (if_pos _ p) d
    | no p ↦
        rw (if_neg _ p) (set-Lacks k j v m (λ e. p (ground arith)) d.0, set-IsDistinct k v m d.1)
  ]

  pub delete-IsDistinct : (k : String) (m : JsMap V) → IsDistinct m → IsDistinct (delete k m)
  unfolding delete
  delete-IsDistinct k [] d = tt
  delete-IsDistinct k ((j, w) ∷ m) d =
      ground (arith, delete-Lacks k j m d.0, delete-IsDistinct k m d.1)
