-- ===== src/Fs/Table/Refs.antt =====
-- The well-formed table: the mark is low, and the count of each description is the number of slots that
-- hold it and of its holders outside this table.
use saba_os.Base.{
  ℕ, suc, ◌+◌, ◌≡◌, ◌≢◌, ◌≤◌, ◌<◌, ◌∙◌, ap, refl, inl, inr, Bool, true, false, some, Option-cases,
  Bool-cases, [], ◌∷◌, length, ◌==◌, arith, length-set, get_or-set_self, get_or-set_ne, update,
  ==_iff,
}
use saba_os.Fs.Table.{
  Descriptor, Table, empty, is_free, slot, with_slot, find_free, scan_begin, after_scan,
  allocate_fdnum, decrement_ref_count, close_slot,
}
use saba_os.Fs.Table.Count.{
  total, total-set, total-append, total-replicate, w-le-total, in_use, holds,
}
use saba_os.Fs.Table.Alloc.{IsLow, allocate_lem}

-- `outside d` counts the holders of `d` in other processes' tables.
pub record IsValid (outside : ℕ → ℕ) (t : Table) : Type 0 where
  pub low : IsLow t
  pub refs : (d : ℕ) → t.ref_count d ≡ total (holds d) t.file_descriptors + outside d

-- The table counts its slots in use.
abbrev pub IsCounted : Table → Type 0
IsCounted t = t.num_file_descriptors ≡ total in_use t.file_descriptors

-- Putting the description `d` into a free slot of the table.
pub fill-IsValid :
    (outside : ℕ → ℕ) (t : Table) (fd d count : ℕ) (cloexec : Bool)
    → fd < length t.file_descriptors
    → is_free (slot t fd) ≡ true
    → count ≡ suc (t.ref_count d)
    → (t.first_free_fdnum ≤ length t.file_descriptors)
    → ((i : ℕ) → i < t.first_free_fdnum → i ≢ fd → is_free (slot t i) ≡ false)
    → ((e : ℕ) → t.ref_count e ≡ total (holds e) t.file_descriptors + outside e)
    → IsValid outside (
        with_slot
          (record t { ref_count = update t.ref_count d count })
          fd
          (record { description = some d; cloexec = cloexec }))
fill-IsValid outside t fd d count cloexec lt free grown in_table low refs = record {
  low = record {
    within = omega (arith, in_table, length-set t.file_descriptors fd new);
    below = λ i l. elim (Bool-cases (i == fd)) [
      | inl here ↦ rw ((==_iff i fd).0 here, get_or-set_self t.file_descriptors fd new empty lt)
      | inr apart ↦
          rw (get_or-set_ne t.file_descriptors fd i new empty (λ e. ground (arith, apart)))
            (low i l (λ e. ground (arith, apart)))
    ];
  };
  refs = λ e. ground (arith, total-set (holds e) t.file_descriptors fd new lt, refs e);
}
  where
    new : Descriptor
    new = record { description = some d; cloexec = cloexec }

-- Closing a slot that holds `d`.
pub close_slot-IsValid :
    (outside : ℕ → ℕ) (t : Table) (fd d : ℕ)
    → fd < length t.file_descriptors
    → (slot t fd).description ≡ some d
    → IsValid outside t
    → IsValid outside (close_slot fd d t)
unfolding close_slot decrement_ref_count
close_slot-IsValid outside t fd d lt held v = record {
  low = record {
    within = ground (arith, v.low.within, length-set t.file_descriptors fd empty);
    below = λ i l.
        rw (get_or-set_ne t.file_descriptors fd i empty empty (ground arith))
          (v.low.below i (ground arith));
  };
  refs = λ e. ground (
    arith,
    total-set (holds e) t.file_descriptors fd empty lt,
    w-le-total (holds e) t.file_descriptors fd lt,
    v.refs e,
    v.refs d,
  );
}

pub allocate_refs :
    (min_fdnum : ℕ) (t : Table)
    → let (fd, t') = allocate_fdnum min_fdnum t in
      (t'.ref_count ≡ t.ref_count)
      × ((e : ℕ) → total (holds e) t'.file_descriptors ≡ total (holds e) t.file_descriptors)
unfolding allocate_fdnum after_scan
allocate_refs min_fdnum t =
    elim (Option-cases (find_free t.file_descriptors 0 (scan_begin min_fdnum t))) [
      | inl e ↦ rw e (
        refl,
        λ k. omega (
          arith,
          total-append (holds k) t.file_descriptors (empty ∷ []),
          total-replicate (holds k) 1 refl,
        ),
      )
      | inr (k, e) ↦ rw e (refl, λ m. refl)
    ]

-- A number allocated, then filled with a description whose count grows by one.
pub allocate_fill-IsValid :
    (outside : ℕ → ℕ) (t : Table) (min_fdnum d count : ℕ) (cloexec : Bool)
    → IsValid outside t
    → count ≡ suc (t.ref_count d)
    → let (fd, t') = allocate_fdnum min_fdnum t in
      IsValid outside (
        with_slot
          (record t' { ref_count = update t'.ref_count d count })
          fd
          (record { description = some d; cloexec = cloexec }))
allocate_fill-IsValid outside t min_fdnum d count cloexec v grown =
    let (fd, t') = allocate_fdnum min_fdnum t in
    let a = allocate_lem min_fdnum t v.low in
    let (same, kept) = allocate_refs min_fdnum t in
    fill-IsValid outside t' fd d count cloexec a.in_table a.free
      (omega (arith, grown, ap (λ r. r d) same)) a.mark_in
      (λ i l ne. ap is_free (a.others i) ∙ a.mark i l ne)
      (λ e. omega (arith, ap (λ r. r e) same, kept e, v.refs e))
