-- ===== src/Mem/Bump/Disjoint.antt =====
-- Where the bump allocator puts its blocks.
use saba_os.Base.{
  ℕ, ◌+◌, ◌-◌, ◌%◌, ◌^◌, ◌≡◌, ◌≤◌, ◌<◌, refl, inl, inr, Bool-cases, ltb, ◌==◌, Option, none, some,
  add64, sub64, arith, ltb→lt, false,
}
use saba_os.Klib.Algorithm.{align_up}
use saba_os.Klib.Algorithm.Rounding.{align_up_lem}
use saba_os.Mem.Bump.{Bump, allocate}

-- The allocator's memory ends far enough before 2 ^ 64 for a request.
pub record Fits (size alignment : ℕ) (b : Bump) : Type 0 where
  pub inside : b.alloc_ptr ≤ b.total_size
  pub below : b.alloc_base + b.total_size + alignment + size < 2 ^ 64

-- A block, and the allocator after it.
pub record Block (size alignment : ℕ) (b : Bump) (p : ℕ) (b' : Bump) : Type 0 where
  pub aligned : p % alignment ≡ 0
  pub starts : b.alloc_base + b.alloc_ptr ≤ p
  pub tight : p < b.alloc_base + b.alloc_ptr + alignment
  pub ends : p + size ≡ b'.alloc_base + b'.alloc_ptr
  pub inside : b'.alloc_ptr < b'.total_size
  pub same_memory : (b'.alloc_base ≡ b.alloc_base) × (b'.total_size ≡ b.total_size)

-- The result of a request.
pub data Result (size alignment : ℕ) (b : Bump) : Option (Bump × ℕ) → Type 0 where
  block : (b' : Bump) (p : ℕ) → Block size alignment b p b' → Result size alignment b (some (b', p))
  -- the request does not fit behind the first aligned address
  exhausted :
      b.alloc_base + b.total_size ≤ align_up (b.alloc_base + b.alloc_ptr) alignment + size
      → Result size alignment b none

-- A request of at least one byte, with an alignment that is not 0, to an allocator whose memory ends at
-- least the size and the alignment before 2 ^ 64, gives the first aligned block behind
-- all earlier ones, inside the memory; or it fails, and then that block would not end before the end of
-- the memory.
pub allocate_lem :
    (size alignment : ℕ) (b : Bump)
    → 0 < size
    → 0 < alignment
    → Fits size alignment b
    → Result size alignment b (allocate size alignment b)
unfolding allocate
allocate_lem size alignment b some_size pos f =
    let up = align_up_lem (b.alloc_base + b.alloc_ptr) alignment pos in
    let at = align_up (b.alloc_base + b.alloc_ptr) alignment in
    let nonzero : (size == 0) ≡ false = ground arith in
    let start : add64 b.alloc_base b.alloc_ptr ≡ b.alloc_base + b.alloc_ptr =
      omega (arith, f.inside, f.below) in
    let whole : at % 2 ^ 64 ≡ at = omega (arith, up.2, f.inside, f.below) in
    let back : sub64 at b.alloc_base ≡ at - b.alloc_base =
      omega (arith, up.1, up.2, f.inside, f.below) in
    let end : add64 (at - b.alloc_base) size ≡ at - b.alloc_base + size =
      omega (arith, up.1, up.2, f.inside, f.below) in
    elim (Bool-cases (ltb (at - b.alloc_base + size) b.total_size)) [
      | inl room ↦
          rw (nonzero, start, whole, back, end, room)
            (block _ at (record {
              aligned = up.0;
              starts = up.1;
              tight = up.2;
              ends = omega (arith, up.1);
              inside = ltb→lt _ _ room;
              same_memory = (refl, refl);
            }))
      | inr full ↦
          rw (nonzero, start, whole, back, end, full) (exhausted (ground (arith, full, up.1)))
    ]
