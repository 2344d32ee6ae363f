-- ===== src/Base/Occurrences.antt =====
-- How often a number stands in a list.
use Prim.Native.Nat.{ℕ, suc, ◌+◌}
use mathlib.Core.Path.{◌≡◌}
use mathlib.Core.Logic.{◌≢◌}
use mathlib.Core.Bool.{Bool, true, false}
use mathlib.Core.List.{List, [], ◌∷◌, ◌++◌}
use native.Mathlib.Omega.{arith}
use saba_os.Base.Tests.{◌==◌}

-- 1 for a true flag
abbrev pub bit : Bool → ℕ
bit true = 1
bit false = 0

-- How often a number stands in a list.
unfoldable pub occurrences : ℕ → List ℕ → ℕ
occurrences pfn [] = 0
occurrences pfn (x ∷ xs) = bit (x == pfn) + occurrences pfn xs

pub occurrences_self : (p : ℕ) (xs : List ℕ) → occurrences p (p ∷ xs) ≡ suc (occurrences p xs)
unfolding occurrences
occurrences_self p xs = let self : (p == p) ≡ true = ground arith in rw self (omega arith)

pub occurrences_other : (q p : ℕ) (xs : List ℕ) → q ≢ p → occurrences q (p ∷ xs) ≡ occurrences q xs
unfolding occurrences
occurrences_other q p xs ne =
    let other : (p == q) ≡ false = grind (arith, ne) in rw other (omega arith)

pub occurrences-append :
    (q : ℕ) (xs ys : List ℕ) → occurrences q (xs ++ ys) ≡ occurrences q xs + occurrences q ys
unfolding occurrences
occurrences-append q [] ys = omega arith
occurrences-append q (x ∷ xs) ys = omega (arith, occurrences-append q xs ys)
