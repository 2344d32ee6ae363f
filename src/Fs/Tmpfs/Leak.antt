-- ===== src/Fs/Tmpfs/Leak.antt =====
-- `TmpNode::truncate` and the bytes behind the end of a file.
use saba_os.Base.{
  ℕ, ◌≡◌, ◌≤◌, ◌<◌, ◌^◌, refl, ◌∙◌, inl, inr, Bool-cases, ltb→lt, ltb, Buffer, ok, arith,
}
use saba_os.Fs.Tmpfs.{Node, grow_to, truncate}
use saba_os.Fs.Tmpfs.Content.{IsValid}
use saba_os.Fs.Tmpfs.Growth.{grow_loop_enough}

-- Truncating a file to at most 2 ^ 62 bytes succeeds, sets the size exactly and leaves an allocation
-- that holds it and is no smaller. No byte of the old allocation changes, those between the sizes included.
pub truncate_lem :
    (junk : Buffer ℕ) (n : Node) (length : ℕ)
    → IsValid n
    → length ≤ 2 ^ 62
    → let (n', r) = truncate junk n length in
      (r ≡ ok 0)
      × (n'.size ≡ length)
      × IsValid n'
      × (n.capacity ≤ n'.capacity)
      × ((i : ℕ) → i < n.capacity → n'.storage i ≡ n.storage i)
unfolding truncate grow_to
truncate_lem junk n length v small = elim (Bool-cases (ltb n.size length)) [
  | inr shrinks ↦ rw shrinks simp v.file (
    refl,
    refl,
    record { file = refl; fits = ground (arith, v.fits); small = small },
    omega arith,
    λ i lt. refl,
  )
  | inl longer ↦ elim (Bool-cases (ltb n.capacity length)) [
    | inl grows ↦
        rw (longer, grows) simp v.file
          (
            refl,
            refl,
            record { file = refl; fits = grow_loop_enough length n.capacity small; small = small },
            omega (arith, ltb→lt n.capacity length grows, grow_loop_enough length n.capacity small),
            λ i lt. ground (arith, lt),
          )
    | inr stays ↦
        rw (longer, stays) simp v.file
          (
            refl,
            refl,
            record { file = refl; fits = ground (arith, stays); small = small },
            omega arith,
            λ i lt. ground (arith, lt),
          )
  ]
]

-- A file of at most 2 ^ 62 bytes that is truncated and then made longer again, up to its old size, shows
-- the bytes that it had before, not zeros.
pub truncate_restores :
    (junk junk' : Buffer ℕ) (n : Node) (less more : ℕ)
    → IsValid n
    → less ≤ n.size
    → more ≤ n.size
    → let m = (truncate junk' (truncate junk n less).0 more).0 in
      (m.size ≡ more) × ((i : ℕ) → i < more → m.storage i ≡ n.storage i)
truncate_restores junk junk' n less more v h h' =
    let first = truncate_lem junk n less v (omega (arith, v.small)) in
    let second =
      truncate_lem junk' (truncate junk n less).0 more first.2 (omega (arith, v.small)) in
    (
      second.1,
      λ i lt. second.4 i (omega (arith, first.3, v.fits)) ∙ first.4 i (omega (arith, v.fits, lt)),
    )
