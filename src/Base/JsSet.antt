-- ===== src/Base/JsSet.antt =====
-- The `Set<string>` of the source: its elements in insertion order. `add` of an element that is
-- there changes nothing.
use Prim.Native.String.{String}
use mathlib.Core.Path.{◌≡◌, refl}
use mathlib.Core.Logic.{ite}
use mathlib.Core.Bool.{Bool, true, false}
use mathlib.Core.List.{List, [], ◌∷◌}
use native.Mathlib.Omega.{arith}
use ts_commons.Base.Tests.{dec_str}

abbrev pub JsSet : Type 0
JsSet = List String

unfoldable pub contains : String → JsSet → Bool
contains x [] = false
contains x (y ∷ s) = ite (dec_str y x) true (contains x s)

unfoldable pub add : String → JsSet → JsSet
add x [] = x ∷ []
add x (y ∷ s) = let rest = add x s in ite (dec_str y x) (y ∷ s) (y ∷ rest)

-- An element stands in the list once, so to drop all its copies is to drop that one.
unfoldable pub remove : String → JsSet → JsSet
remove x [] = []
remove x (y ∷ s) = let rest = remove x s in ite (dec_str y x) rest (y ∷ rest)

pub contains-add :
    (x y : String) (s : JsSet) → contains y (add x s) ≡ ite (dec_str x y) true (contains y s)
unfolding contains add
contains-add x y [] = refl
contains-add x y (z ∷ s) = ground (arith, contains-add x y s)

pub contains-remove :
    (x y : String) (s : JsSet) → contains y (remove x s) ≡ ite (dec_str x y) false (contains y s)
unfolding contains remove
contains-remove x y [] = ground arith
contains-remove x y (z ∷ s) = ground (arith, contains-remove x y s)
