-- ===== src/Klib/Algorithm/Rounding.antt =====
-- Rounding gives the nearest multiple on its side.
use native.Mathlib.Nat.{div-add-mod', mod-lt, mul-mod_left}
use saba_os.Base.{ℕ, ◌+◌, ◌*◌, ◌/◌, ◌%◌, ◌≡◌, ◌≤◌, ◌<◌, inl, inr, Bool-cases, ◌==◌, ==_iff, arith}
use saba_os.Klib.Algorithm.{align_up, align_down}

-- The least multiple of the alignment that is no less, for an alignment that is not 0.
pub align_up_lem :
    (i alignment : ℕ)
    → 0 < alignment
    → (align_up i alignment % alignment ≡ 0)
      × (i ≤ align_up i alignment)
      × (align_up i alignment < i + alignment)
unfolding align_up
align_up_lem i alignment pos = elim (Bool-cases (i % alignment == 0)) [
  | inl whole ↦ rw whole ((==_iff _ _).0 whole, omega arith, omega arith)
  | inr part ↦
      let split = div-add-mod' i alignment in
      let low = mod-lt i pos in
      let some_left : 0 < i % alignment = ground (arith, part) in
      let step : (i / alignment + 1) * alignment ≡ i / alignment * alignment + alignment =
        grind arith in
      rw part (
        mul-mod_left (i / alignment + 1) alignment,
        omega (arith, split, low, step),
        omega (arith, split, some_left, step),
      )
]

-- The greatest multiple of the alignment that is no more, for an alignment that is not 0.
pub align_down_lem :
    (i alignment : ℕ)
    → 0 < alignment
    → (align_down i alignment % alignment ≡ 0)
      × (align_down i alignment ≤ i)
      × (i < align_down i alignment + alignment)
unfolding align_down
align_down_lem i alignment pos = elim (Bool-cases (i % alignment == 0)) [
  | inl whole ↦ rw whole ((==_iff _ _).0 whole, omega arith, omega arith)
  | inr part ↦
      let split = div-add-mod' i alignment in
      let low = mod-lt i pos in
      rw part
        (mul-mod_left (i / alignment) alignment, omega (arith, split), omega (arith, split, low))
]
