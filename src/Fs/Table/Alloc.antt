-- ===== src/Fs/Table/Alloc.antt =====
-- The low-water mark `first_free_fdnum`, and which number `allocate_fdnum` gives.
use saba_os.Base.{
  ℕ, zero, suc, ◌+◌, ◌≡◌, ◌≢◌, ◌≤◌, ◌<◌, refl, inl, inr, true, false, ◌&&◌, none, some,
  Option-cases, Bool-cases, List, [], ◌∷◌, ◌++◌, length, get_or, if◌then◌else◌, ltb, leb, arith,
  get_or-append_end, length-append,
}
use saba_os.Fs.Table.{
  Descriptor, Table, empty, is_free, slot, find_free, scan_begin, after_scan, allocate_fdnum,
}

-- Every slot below the mark is in use.
pub record IsLow (t : Table) : Type 0 where
  pub within : t.first_free_fdnum ≤ length t.file_descriptors
  pub below : (i : ℕ) → i < t.first_free_fdnum → is_free (slot t i) ≡ false

-- No slot from `begin` on, before the list's place `j`, is free; `i` is the index of the list's head.
abbrev Busy : List Descriptor → ℕ → ℕ → ℕ → Type 0
Busy ds i begin j = (m : ℕ) → m < j → begin ≤ i + m → is_free (get_or ds m empty) ≡ false

Busy-cons :
    (d : Descriptor) (ds : List Descriptor) (i begin j : ℕ)
    → (leb begin i && is_free d) ≡ false
    → Busy ds (i + 1) begin j
    → Busy (d ∷ ds) i begin (suc j)
Busy-cons d ds i begin j miss rest zero lt le = ground arith
Busy-cons d ds i begin j miss rest (suc m) lt le = rest m (omega arith) (omega arith)

-- The scan stops at the first free slot.
find_free-some :
    (ds : List Descriptor) (i begin k : ℕ)
    → find_free ds i begin ≡ some k
    → (j : ℕ) × (k ≡ i + j)
      × (begin ≤ k)
      × (j < length ds)
      × (is_free (get_or ds j empty) ≡ true)
      × Busy ds i begin j
unfolding find_free
find_free-some [] i begin k e = absurd (ground arith)
find_free-some (d ∷ ds) i begin k e = elim (Bool-cases (leb begin i && is_free d)) [
  | inl hit ↦ (
    0,
    ground (arith, hit),
    ground (arith, hit),
    omega arith,
    ground (arith, hit),
    λ m lt le. absurd (omega arith),
  )
  | inr miss ↦
      let (j, at, from, lt, free, busy) = find_free-some ds (i + 1) begin k (rw miss at e) in
      (suc j, omega (arith, at), from, omega (arith, lt), free, Busy-cons d ds i begin j miss busy)
]

find_free-none :
    (ds : List Descriptor) (i begin : ℕ) → find_free ds i begin ≡ none → Busy ds i begin (length ds)
unfolding find_free
find_free-none [] i begin e = λ m lt le. absurd (omega arith)
find_free-none (d ∷ ds) i begin e = elim (Bool-cases (leb begin i && is_free d)) [
  | inl hit ↦ absurd (ground (arith, hit))
  | inr miss ↦
      Busy-cons d ds i begin (length ds) miss (find_free-none ds (i + 1) begin (rw miss at e))
]

-- What `allocate_fdnum` gives: a free slot of the new table, no number in use lost, every slot from the
-- wanted number up to it in use.
pub record Allocates (min_fdnum : ℕ) (t : Table) (fd : ℕ) (t' : Table) : Type 0 where
  pub in_table : fd < length t'.file_descriptors
  pub grows : length t.file_descriptors ≤ length t'.file_descriptors
  pub free : is_free (slot t' fd) ≡ true
  pub others : (i : ℕ) → slot t' i ≡ slot t i
  pub lowest : (i : ℕ) → min_fdnum ≤ i → i < fd → is_free (slot t i) ≡ false
  pub mark : (i : ℕ) → i < t'.first_free_fdnum → i ≢ fd → is_free (slot t i) ≡ false
  pub mark_in : t'.first_free_fdnum ≤ length t'.file_descriptors

get_or-append_empty :
    (ds : List Descriptor) (i : ℕ) → get_or (ds ++ (empty ∷ [])) i empty ≡ get_or ds i empty
get_or-append_empty [] zero = refl
get_or-append_empty [] (suc i) = refl
get_or-append_empty (d ∷ ds) zero = refl
get_or-append_empty (d ∷ ds) (suc i) = get_or-append_empty ds i

-- The slots that the scan skips are in use too, since they are below the mark.
Busy-from :
    (min_fdnum : ℕ) (t : Table) (j : ℕ)
    → IsLow t
    → Busy t.file_descriptors 0 (scan_begin min_fdnum t) j
    → (i : ℕ) → min_fdnum ≤ i
    → i < j
    → is_free (slot t i) ≡ false
Busy-from min_fdnum t j low busy i from lt = elim (Bool-cases (ltb i t.first_free_fdnum)) [
  | inl skipped ↦ low.below i (ground (arith, skipped))
  | inr scanned ↦ busy i lt (ground (arith, scanned))
]

Busy-from_mark :
    (t : Table) (j i : ℕ)
    → IsLow t
    → Busy t.file_descriptors 0 t.first_free_fdnum j
    → i < j
    → is_free (slot t i) ≡ false
Busy-from_mark t j i low busy lt = elim (Bool-cases (ltb i t.first_free_fdnum)) [
  | inl skipped ↦ low.below i (ground (arith, skipped))
  | inr scanned ↦ busy i lt (ground (arith, scanned))
]

allocate_some :
    (min_fdnum : ℕ) (t : Table) (k : ℕ)
    → IsLow t
    → find_free t.file_descriptors 0 (scan_begin min_fdnum t) ≡ some k
    → let (fd, t') = after_scan min_fdnum t (some k) in Allocates min_fdnum t fd t'
unfolding after_scan
allocate_some min_fdnum t k low e =
    let (j, at, from, lt, free, busy) =
      find_free-some t.file_descriptors 0 (scan_begin min_fdnum t) k e in
    let kj : k ≡ j = omega (arith, at) in
    record {
      in_table = omega (arith, lt, kj);
      grows = omega arith;
      free = rw kj free;
      others = λ i. refl;
      lowest = λ i m l. Busy-from min_fdnum t j low busy i m (omega (arith, kj));
      mark = λ i m ne. elim (Bool-cases (ltb min_fdnum t.first_free_fdnum)) [
        | inl under ↦
            Busy-from_mark t j i low (rw under at busy) (omega (arith, kj, ne, marked i under m))
        | inr over ↦ low.below i (rw over at m)
      ];
      mark_in = ground (arith, low.within);
    }
  where
    marked :
        (i : ℕ)
        → ltb min_fdnum t.first_free_fdnum ≡ true
        → i < (if ltb min_fdnum t.first_free_fdnum then k + 1 else t.first_free_fdnum)
        → i < k + 1
    marked i under m = rw under at m

allocate_none :
    (min_fdnum : ℕ) (t : Table)
    → IsLow t
    → find_free t.file_descriptors 0 (scan_begin min_fdnum t) ≡ none
    → let (fd, t') = after_scan min_fdnum t none in Allocates min_fdnum t fd t'
unfolding after_scan
allocate_none min_fdnum t low e =
    let busy = find_free-none t.file_descriptors 0 (scan_begin min_fdnum t) e in
    record {
      in_table = omega (arith, length-append t.file_descriptors (empty ∷ []));
      grows = omega (arith, length-append t.file_descriptors (empty ∷ []));
      free = rw (get_or-append_end t.file_descriptors empty empty);
      others = λ i. get_or-append_empty t.file_descriptors i;
      lowest = λ i m l. Busy-from min_fdnum t (length t.file_descriptors) low busy i m l;
      mark = λ i m ne. elim (Bool-cases (ltb min_fdnum t.first_free_fdnum)) [
        | inl under ↦
            Busy-from_mark t (length t.file_descriptors) i low (rw under at busy) (rw under at m)
        | inr over ↦ low.below i (rw over at m)
      ];
      mark_in = ground (arith, low.within, length-append t.file_descriptors (empty ∷ []));
    }

-- `allocate_fdnum` from a table whose mark is low.
pub allocate_lem :
    (min_fdnum : ℕ) (t : Table)
    → IsLow t
    → let (fd, t') = allocate_fdnum min_fdnum t in Allocates min_fdnum t fd t'
unfolding allocate_fdnum
allocate_lem min_fdnum t low =
    elim (Option-cases (find_free t.file_descriptors 0 (scan_begin min_fdnum t))) [
      | inl e ↦ rw e (allocate_none min_fdnum t low e)
      | inr (k, e) ↦ rw e (allocate_some min_fdnum t k low e)
    ]

-- A scan that begins past the end finds nothing.
pub find_free-past :
    (ds : List Descriptor) (i begin : ℕ) → i + length ds ≤ begin → find_free ds i begin ≡ none
unfolding find_free
find_free-past [] i begin le = refl
find_free-past (d ∷ ds) i begin le = ground (arith, find_free-past ds (i + 1) begin)
