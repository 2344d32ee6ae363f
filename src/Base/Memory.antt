-- ===== src/Base/Memory.antt =====
-- A buffer as a function from its index to its cell, what `memcpy` and `memset` do to it, and the
-- list of its first cells.
use Prim.Native.Nat.{ℕ, zero, suc, ◌+◌, ◌-◌, ◌<◌, ◌≤◌}
use mathlib.Core.Logic.{◌≢◌, ◌⊎◌, inl, inr}
use mathlib.Core.Path.{◌≡◌, refl, ap, ap₂}
use mathlib.Core.Bool.{◌&&◌, true, false}
use mathlib.Core.List.{List, [], ◌∷◌, ◌++◌}
use native.Mathlib.Omega.{arith}
use saba_os.Base.Tests.{ltb, leb, if◌then◌else◌}
use saba_os.Base.Lists.{length}

-- `T *buffer`
abbrev pub Buffer {ℓ} : Type ℓ → Type ℓ
Buffer A = ℕ → A

module _ {ℓ} {A : Type ℓ} where
  -- memcpy(dst + at, src + from, n)
  abbrev pub memcpy : Buffer A → ℕ → Buffer A → ℕ → ℕ → Buffer A
  memcpy dst at src from n i = if leb at i && ltb i (at + n) then src (from + (i - at)) else dst i

  -- memset(dst + at, v, n)
  abbrev pub memset : Buffer A → ℕ → A → ℕ → Buffer A
  memset dst at v n i = if leb at i && ltb i (at + n) then v else dst i

  -- dst[at] = v
  abbrev pub update : Buffer A → ℕ → A → Buffer A
  update dst at v i = if leb at i && leb i at then v else dst i

  -- The `n` cells from index `at` on.
  unfoldable pub cells : Buffer A → ℕ → ℕ → List A
  cells b at zero = []
  cells b at (suc n) = b at ∷ cells b (at + 1) n

  pub length-cells : (b : Buffer A) (at n : ℕ) → length (cells b at n) ≡ n
  unfolding cells
  length-cells b at zero = refl
  length-cells b at (suc n) = ap suc (length-cells b (at + 1) n)

  -- Two ranges with the same cells make the same list.
  pub cells_ext :
      (b c : Buffer A) (at at' n : ℕ)
      → ((i : ℕ) → i < n → b (at + i) ≡ c (at' + i))
      → cells b at n ≡ cells c at' n
  unfolding cells
  cells_ext b c at at' zero h = refl
  cells_ext b c at at' (suc n) h =
      ap₂ ◌∷◌ (ground (arith, h 0)) (cells_ext b c (at + 1) (at' + 1) n step)
    where
      step : (i : ℕ) → i < n → b (at + 1 + i) ≡ c (at' + 1 + i)
      step i lt =
          let e : at + 1 + i ≡ at + suc i = omega arith in
          let e' : at' + 1 + i ≡ at' + suc i = omega arith in rw (e, e') (h (suc i) (omega arith))

  pub cells-add :
      (b : Buffer A) (at m n : ℕ) → cells b at (m + n) ≡ cells b at m ++ cells b (at + m) n
  unfolding cells
  cells-add b at zero n = ground arith
  cells-add b at (suc m) n =
      let e : suc m + n ≡ suc (m + n) = omega arith in
      let e' : at + suc m ≡ at + 1 + m = omega arith in
      rw (e, e') (ap (λ l. b at ∷ l) (cells-add b (at + 1) m n))

module _ {A : Type 0} (dst src : Buffer A) (at from n : ℕ) where
  -- What a copy leaves inside its range, and outside it.
  pub memcpy_inside : (i : ℕ) → i < n → memcpy dst at src from n (at + i) ≡ src (from + i)
  memcpy_inside i lt = ground arith

  pub memcpy_outside : (i : ℕ) → (i < at) ⊎ (at + n ≤ i) → memcpy dst at src from n i ≡ dst i
  memcpy_outside i (inl before) = ground arith
  memcpy_outside i (inr after) = ground arith

  pub memcpy_start : (i : ℕ) → i < n → memcpy dst at src 0 n (at + i) ≡ src i
  memcpy_start i lt = ground arith

  pub cells-memcpy : cells (memcpy dst at src from n) at n ≡ cells src from n
  cells-memcpy = cells_ext (memcpy dst at src from n) src at from n memcpy_inside

module _ {A : Type 0} (dst : Buffer A) (at : ℕ) (v : A) (n : ℕ) where
  pub memset_inside : (i : ℕ) → i < n → memset dst at v n (at + i) ≡ v
  memset_inside i lt = ground arith

  pub memset_outside : (i : ℕ) → (i < at) ⊎ (at + n ≤ i) → memset dst at v n i ≡ dst i
  memset_outside i (inl before) = ground arith
  memset_outside i (inr after) = ground arith

module _ {ℓ} {A : Type ℓ} (dst : Buffer A) (at : ℕ) (v : A) where
  pub update_self : update dst at v at ≡ v
  update_self = let e : leb at at ≡ true = ground arith in rw e refl

  pub update_other : (i : ℕ) → i ≢ at → update dst at v i ≡ dst i
  update_other i ne = let e : (leb at i && leb i at) ≡ false = grind (arith, ne) in rw e refl
