-- ===== src/Kernel/Tests.antt =====
-- The theorems on the primitives at concrete inputs.
use ts_commons.Base.{ℕ, String, ◌≡◌, refl, List, [], ◌∷◌, ltb}
use ts_commons.Kernel.Result
use ts_commons.Kernel.Result.{Result, ok, err, Guard, thrown, value}

abbrev mixed : List (Result ℕ String)
mixed = ok 1 ∷ err "a" ∷ ok 2 ∷ err "b" ∷ []

mixed-all : Result.all mixed ≡ err "a"
unfolding Result.all
mixed-all = refl

abbrev guards : List (Guard ℕ String)
guards =
    record { when = λ v. ltb v 10; produce = λ v. "small" }
    ∷ record { when = λ v. ltb v 100; produce = λ v. "medium" }
    ∷ []

abbrev otherwise : Result ℕ String → String
otherwise (ok v) = "large"
otherwise (err e) = e
