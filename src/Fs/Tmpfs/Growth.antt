-- ===== src/Fs/Tmpfs/Growth.antt =====
-- The growth of a node's capacity ends, and is enough.
use native.Mathlib.Nat.{pow-suc}
use saba_os.Base.{
  ℕ, zero, suc, ◌*◌, ◌%◌, ◌^◌, ◌≡◌, ◌≤◌, ◌<◌, refl, Bool-cases, inl, inr, ltb, max, arith, ap,
  ltb→lt,
}
use saba_os.Fs.Tmpfs.{grow_loop, grow_fuel}

grow_scale : (k c : ℕ) → 4 ^ k ≤ 4 ^ k * suc c
grow_scale k c = grind arith

-- With `k` rounds the loop reaches any size up to 4 ^ k times the capacity that it begins with.
grow_loop_reaches :
    (k size capacity : ℕ)
    → 0 < capacity
    → size ≤ 2 ^ 62
    → size ≤ 4 ^ k * capacity
    → size ≤ grow_loop k size capacity
unfolding grow_loop
grow_loop_reaches zero size capacity pos small h = omega (arith, h)
grow_loop_reaches (suc k) size capacity pos small h = elim (Bool-cases (ltb capacity size)) [
  | inl less ↦
      let next : max 1 (capacity * 4 % 2 ^ 64) ≡ capacity * 4 =
        omega (arith, ltb→lt capacity size less) in
      let scaled = ap (λ (t : ℕ). t * capacity) (pow-suc 4 k) in
      rw (less, next)
        (grow_loop_reaches k size (capacity * 4) (omega arith) small (omega (arith, scaled)))
  | inr done ↦ rw done (ground (arith, done))
]

-- From any capacity, the loop of `grow_to` ends with a capacity that holds the size, up to 2 ^ 62.
pub grow_loop_enough :
    (size capacity : ℕ) → size ≤ 2 ^ 62 → size ≤ grow_loop grow_fuel size capacity
unfolding grow_loop
grow_loop_enough size zero small = elim (Bool-cases (ltb 0 size)) [
  | inl less ↦ rw less (grow_loop_reaches 32 size 1 (omega arith) small (omega arith))
  | inr done ↦ rw done (ground (arith, done))
]
grow_loop_enough size (suc c) small =
    let pos = grow_scale 33 c in
    grow_loop_reaches 33 size (suc c) (omega arith) small (omega (arith, pos))

-- A capacity that is large enough stays.
pub grow_loop_done :
    (fuel size capacity : ℕ) → size ≤ capacity → grow_loop fuel size capacity ≡ capacity
unfolding grow_loop
grow_loop_done zero size capacity h = refl
grow_loop_done (suc fuel) size capacity h = ground arith
