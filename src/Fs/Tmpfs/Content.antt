-- ===== src/Fs/Tmpfs/Content.antt =====
-- What a node holds after a write, and that a read of the same range gives the bytes back.
use saba_os.Base.{
  ℕ, ◌+◌, ◌-◌, ◌^◌, ◌≡◌, ◌≤◌, ◌<◌, ◌⊎◌, inl, inr, refl, ◌∙◌, false, true, Bool-cases, ltb, leb,
  ◌==◌, if◌then◌else◌, Buffer, cells, cells_ext, ok, add64, max, arith, min, subst, true, ltb→lt,
  memcpy_start, memcpy_outside, cells-memcpy,
}
use saba_os.Fs.Tmpfs.{Node, grow_to, read, write}
use saba_os.Fs.Tmpfs.Growth.{grow_loop_enough}

-- A file whose allocation holds its size, within the bound up to which the growth is shown to end.
pub record IsValid (n : Node) : Type 0 where
  pub file : n.is_directory ≡ false
  pub fits : n.size ≤ n.capacity
  pub small : n.size ≤ 2 ^ 62

-- `n'` is `n` with at least the size `length`, and with the bytes of `n`.
pub record Grown (n : Node) (length : ℕ) (n' : Node) : Type 0 where
  pub valid : IsValid n'
  pub size : n'.size ≡ max n.size length
  pub kept : (i : ℕ) → i < n.size → n'.storage i ≡ n.storage i

grow_to-Grown :
    (junk : Buffer ℕ) (n : Node) (length : ℕ)
    → IsValid n
    → length ≤ 2 ^ 62
    → n.size < length
    → Grown n length (grow_to junk length n)
unfolding grow_to
grow_to-Grown junk n length v small less = elim (Bool-cases (ltb n.capacity length)) [
  | inl grows ↦ rw grows (record {
    valid = record {
      file = v.file;
      fits = grow_loop_enough length n.capacity small;
      small = small;
    };
    size = omega (arith, less);
    kept = λ i lt. ground (arith, lt, v.fits);
  })
  | inr stays ↦ rw stays (record {
    valid = record { file = v.file; fits = ground (arith, stays); small = small };
    size = omega (arith, less);
    kept = λ i lt. refl;
  })
]

-- The node that `write` copies to.
grows_when_past :
    (junk : Buffer ℕ) (n : Node) (length : ℕ)
    → IsValid n
    → length ≤ 2 ^ 62
    → Grown n length (if ltb n.size length then grow_to junk length n else n)
grows_when_past junk n length v small = elim (Bool-cases (ltb n.size length)) [
  | inl past ↦ rw past (grow_to-Grown junk n length v small (ltb→lt n.size length past))
  | inr within ↦
      rw within (record { valid = v; size = ground (arith, within); kept = λ i lt. refl })
]

pub record Written (n : Node) (buf : Buffer ℕ) (count offset : ℕ) (n' : Node) : Type 0 where
  pub valid : IsValid n'
  pub size : n'.size ≡ max n.size (offset + count)
  pub holds : (i : ℕ) → i < count → n'.storage (offset + i) ≡ buf i
  pub kept : (i : ℕ) → i < n.size → (i < offset) ⊎ (offset + count ≤ i) → n'.storage i ≡ n.storage i

-- A write of at least one byte to a file that ends at or before 2 ^ 62 takes all of them, grows the file
-- exactly to the end of the range if it was shorter, puts the bytes into the range, and keeps every
-- other byte of the file.
pub write_lem :
    (junk : Buffer ℕ) (n : Node) (buf : Buffer ℕ) (count offset : ℕ)
    → IsValid n
    → 0 < count
    → offset + count ≤ 2 ^ 62
    → let (n', r) = write junk n buf count offset in (r ≡ ok count) × Written n buf count offset n'
unfolding write
write_lem junk n buf count offset v pos small =
    let nonzero : (count == 0) ≡ false = ground arith in
    let exact : add64 offset count ≡ offset + count = omega arith in
    let g = grows_when_past junk n (offset + count) v small in
    let old =
      (if ltb n.size (offset + count) then grow_to junk (offset + count) n else n).storage in
    rw (nonzero, exact) simp v.file
      (
        refl,
        record {
          valid = record { file = g.valid.file; fits = g.valid.fits; small = g.valid.small };
          size = g.size;
          holds = memcpy_start old buf offset 0 count;
          kept = λ i lt outside. memcpy_outside old buf offset 0 count i outside ∙ g.kept i lt;
        },
      )

-- A read from before the end, of less than 2 ^ 62 bytes, gives the bytes from there on, as many as asked
-- for or as there are.
pub read_lem :
    (n : Node) (buf : Buffer ℕ) (count offset : ℕ)
    → IsValid n
    → count < 2 ^ 62
    → offset < n.size
    → let (r, buf') = read n buf count offset in
      let k = min count (n.size - offset) in
      (r ≡ ok k) × (cells buf' 0 k ≡ cells n.storage offset k)
unfolding read
read_lem n buf count offset v few inside =
    let exact : add64 offset count ≡ offset + count = omega (arith, v.small) in
    let starts : leb n.size offset ≡ false = ground arith in
    elim (Bool-cases (ltb n.size (offset + count))) [
      | inl cut ↦
          let k : min count (n.size - offset) ≡ n.size - offset = ground (arith, cut) in
          rw (exact, starts, cut, k) simp v.file
            (refl, cells-memcpy buf n.storage 0 offset (n.size - offset))
      | inr whole ↦
          let k : min count (n.size - offset) ≡ count = ground (arith, whole) in
          rw (exact, starts, whole, k) simp v.file (refl, cells-memcpy buf n.storage 0 offset count)
    ]

-- A read from the end or past it gives nothing.
pub read_past :
    (n : Node) (buf : Buffer ℕ) (count offset : ℕ)
    → IsValid n
    → n.size ≤ offset
    → read n buf count offset ≡ (ok 0, buf)
unfolding read
read_past n buf count offset v past =
    let e : leb n.size offset ≡ true = ground arith in rw e simp v.file refl

-- After a write of at least one byte, and of less than 2 ^ 62, that ends at or before 2 ^ 62, a read of the same range succeeds
-- in full and gives the bytes that were written.
pub read-write :
    (junk : Buffer ℕ) (n : Node) (buf out : Buffer ℕ) (count offset : ℕ)
    → IsValid n
    → 0 < count
    → count < 2 ^ 62
    → offset + count ≤ 2 ^ 62
    → let (r, out') = read (write junk n buf count offset).0 out count offset in
      (r ≡ ok count) × (cells out' 0 count ≡ cells buf 0 count)
read-write junk n buf out count offset v pos few small =
    let n' = (write junk n buf count offset).0 in
    let w = (write_lem junk n buf count offset v pos small).1 in
    let e = read_lem n' out count offset w.valid few (omega (arith, w.size)) in
    let k : min count (n'.size - offset) ≡ count = omega (arith, w.size) in
    let e' =
      subst
        (λ j.
          ((read n' out count offset).0 ≡ ok j)
          × (cells (read n' out count offset).1 0 j ≡ cells n'.storage offset j))
        k e in
    (
      e'.0,
      e'.1
          ∙ cells_ext n'.storage buf offset 0 count
              (λ i lt. let z : 0 + i ≡ i = omega arith in rw z (w.holds i lt)),
    )
