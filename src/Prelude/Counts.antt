-- ===== src/Prelude/Counts.antt =====
-- How often a number occurs in a list, and the equality of lists up to order that it gives.
use Prim.Native.Nat.{ℕ, ◌+◌}
use mathlib.Core.Path.{◌≡◌}
use mathlib.Core.Bool.{Bool, true, false, not}
use mathlib.Core.List.{List, [], ◌∷◌, ◌++◌}
use native.Mathlib.Omega.{arith}
use bst_staging.Prelude.Tests.{◌==◌}
use bst_staging.Prelude.Lists.{keep, extendleft}

abbrev pub one_if : Bool → ℕ
one_if true = 1
one_if false = 0

abbrev pub count : ℕ → List ℕ → ℕ
count a [] = 0
count a (x ∷ xs) = one_if (a == x) + count a xs

-- Two parts of a list are counted apart.
pub count-append :
    (n : ℕ) (first second : List ℕ) → count n (first ++ second) ≡ count n first + count n second
count-append n [] second = omega arith
count-append n (i ∷ first) second = omega (arith, count-append n first second)

pub count-extendleft :
    (a : ℕ) (xs ys : List ℕ) → count a (extendleft xs ys) ≡ count a xs + count a ys
count-extendleft a [] ys = omega arith
count-extendleft a (x ∷ xs) ys = omega (arith, count-extendleft a xs (x ∷ ys))

-- A list is what a test keeps of it and what the opposite test keeps.
pub count-keep :
    (a : ℕ) (p : ℕ → Bool) (xs : List ℕ)
    → count a (keep p xs) + count a (keep (λ x. not (p x)) xs) ≡ count a xs
count-keep a p [] = omega arith
count-keep a p (x ∷ xs) = ground (arith, count-keep a p xs)

-- Two lists hold the same items, each as often.
abbrev pub SameItems : List ℕ → List ℕ → Type 0
SameItems xs ys = (a : ℕ) → count a xs ≡ count a ys
