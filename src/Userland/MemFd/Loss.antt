-- ===== src/Userland/MemFd/Loss.antt =====
-- What a growth of a memory file keeps.
use saba_os.Base.{
  ℕ, ◌+◌, ◌-◌, ◌%◌, ◌^◌, ◌≡◌, ◌≤◌, ◌<◌, ◌⊎◌, inl, inr, refl, true, false, Bool-cases, ltb, leb,
  ◌==◌, if◌then◌else◌, add64, ok, Buffer, cells, cells_ext, cells-memcpy, memcpy_start,
  memcpy_outside, memset_inside, memset_outside, max, page_size, arith, ◌∙◌,
}
use saba_os.Klib.Algorithm.{align_up}
use saba_os.Userland.MemFd.{MemFd, clear_pages, grow_to, read, write, truncate}

pub record IsValid (f : MemFd) : Type 0 where
  pub fits : f.size ≤ f.capacity
  pub small : f.size ≤ 2 ^ 62

align_up_bounds : (n : ℕ) → n ≤ 2 ^ 62 → n ≤ align_up n page_size % 2 ^ 64
unfolding align_up
align_up_bounds n small = ground arith

-- What is at offset `i` of a file after it grows to `length`.
pub grown_byte : Buffer ℕ → MemFd → ℕ → ℕ → ℕ
grown_byte memory f length i =
    if ltb f.capacity length
    then clear_pages memory (align_up length page_size % 2 ^ 64) i
    else f.storage i

-- A write of at least one byte that ends at or before 2 ^ 62 takes all of them, makes the file reach at
-- least to the end of the range and puts the bytes there. A byte outside the range stays when the
-- allocation holds the new size; when it does not, it is what the new memory holds, with the first byte
-- of each page cleared: the old contents are gone.
pub write_or_lose :
    (memory : Buffer ℕ) (f : MemFd) (buf : Buffer ℕ) (count offset : ℕ)
    → IsValid f
    → 0 < count
    → offset + count ≤ 2 ^ 62
    → let (f', r) = write memory f buf count offset in
      (r ≡ ok count)
      × (f'.size ≡ max f.size (offset + count))
      × IsValid f'
      × ((i : ℕ) → i < count → f'.storage (offset + i) ≡ buf i)
      × ((i : ℕ)
          → (i < offset) ⊎ (offset + count ≤ i)
          → f'.storage i ≡ grown_byte memory f (offset + count) i)
unfolding write grow_to grown_byte
write_or_lose memory f buf count offset v pos small =
    let nonzero : (count == 0) ≡ false = ground arith in
    let exact : add64 offset count ≡ offset + count = omega arith in
    elim (Bool-cases (ltb f.size (offset + count))) [
      | inr within ↦
          let held : ltb f.capacity (offset + count) ≡ false = ground (arith, within, v.fits) in
          rw (nonzero, exact, within, held)
            (
              refl,
              ground (arith, within),
              record { fits = v.fits; small = v.small },
              memcpy_start f.storage buf offset 0 count,
              memcpy_outside f.storage buf offset 0 count,
            )
      | inl past ↦ elim (Bool-cases (ltb f.capacity (offset + count))) [
        | inl grows ↦
            rw (nonzero, exact, past, grows)
              (
                refl,
                ground (arith, past),
                record { fits = align_up_bounds (offset + count) small; small = small },
                memcpy_start (clear_pages memory (align_up (offset + count) page_size % 2 ^ 64)) buf
                    offset 0 count,
                memcpy_outside (clear_pages memory (align_up (offset + count) page_size % 2 ^ 64))
                    buf offset 0 count,
              )
        | inr held ↦
            rw (nonzero, exact, past, held)
              (
                refl,
                ground (arith, past),
                record { fits = ground (arith, held); small = small },
                memcpy_start f.storage buf offset 0 count,
                memcpy_outside f.storage buf offset 0 count,
              )
      ]
    ]

-- A read of a range that lies in the file gives its bytes.
read_within :
    (f : MemFd) (buf : Buffer ℕ) (count offset : ℕ)
    → IsValid f
    → 0 < count
    → offset + count ≤ f.size
    → let (r, buf') = read f buf count offset in
      (r ≡ ok count) × (cells buf' 0 count ≡ cells f.storage offset count)
unfolding read
read_within f buf count offset v pos within =
    let exact : add64 offset count ≡ offset + count = omega (arith, v.small) in
    let whole : ltb f.size (offset + count) ≡ false = ground arith in
    let inside : leb f.size offset ≡ false = ground arith in
    rw (exact, whole, inside) (refl, cells-memcpy buf f.storage 0 offset count)

-- After a write of at least one byte that ends at or before 2 ^ 62, a read of the same range succeeds
-- in full and gives the bytes that were written.
pub read_back :
    (memory : Buffer ℕ) (f : MemFd) (buf out : Buffer ℕ) (count offset : ℕ)
    → IsValid f
    → 0 < count
    → offset + count ≤ 2 ^ 62
    → let (r, out') = read (write memory f buf count offset).0 out count offset in
      (r ≡ ok count) × (cells out' 0 count ≡ cells buf 0 count)
read_back memory f buf out count offset v pos small =
    let f' = (write memory f buf count offset).0 in
    let w = write_or_lose memory f buf count offset v pos small in
    let e = read_within f' out count offset w.2 pos (omega (arith, w.1)) in
    (
      e.0,
      e.1
          ∙ cells_ext f'.storage buf offset 0 count
              (λ i lt. let z : 0 + i ≡ i = omega arith in rw z (w.3 i lt)),
    )

-- A file that is truncated and then made longer again within its allocation has zeros between the size
-- it was truncated to and its old size, and its old bytes before that.
pub truncate_clears :
    (memory memory' : Buffer ℕ) (f : MemFd) (less more : ℕ)
    → less ≤ f.size
    → more ≤ f.capacity
    → less < more
    → let f' = (truncate memory' (truncate memory f less).0 more).0 in
      (f'.size ≡ more)
      × ((i : ℕ) → i < less → f'.storage i ≡ f.storage i)
      × ((i : ℕ) → i < f.size - less → f'.storage (less + i) ≡ 0)
unfolding truncate grow_to
truncate_clears memory memory' f less more le held longer =
    let shrinks : ltb f.size less ≡ false = ground arith in
    let grows : ltb less more ≡ true = ground arith in
    let fits : ltb f.capacity more ≡ false = ground arith in
    rw (shrinks, grows, fits)
      (
        refl,
        λ i lt. memset_outside f.storage less 0 (f.size - less) i (inl lt),
        memset_inside f.storage less 0 (f.size - less),
      )
