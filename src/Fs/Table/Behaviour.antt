-- ===== src/Fs/Table/Behaviour.antt =====
-- What the descriptor calls return and change, and how far the table's own count of descriptors can be
-- trusted.
use saba_os.Base.{
  ℕ, zero, suc, ◌+◌, ◌-◌, ◌≡◌, ◌≢◌, ◌≤◌, ◌<◌, ◌∙◌, sym, ap, refl, ◌⊎◌, inl, inr, Bool, true, false,
  none, some, Option-cases, Bool-cases, List, [], ◌∷◌, ◌++◌, length, get_or, replicate, ◌==◌, arith,
  get_or_past, length-append, length-set, length-replicate, get_or-set_self, get_or-set_ne, ok,
}
use saba_os.Fs.Table.{
  Descriptor, Table, empty, is_free, slot, find_free, scan_begin, after_scan, allocate_fdnum,
  decrement_ref_count, close_slot, get_file_description, syscall_close, duplicate_to, dupfd,
  install, grow_to, close_if_used, dup3_impl,
}
use saba_os.Fs.Table.Count.{
  total, total-set, total-append, total-replicate, w-le-total, in_use, holds,
}
use saba_os.Fs.Table.Alloc.{IsLow, allocate_lem, find_free-past}
use saba_os.Fs.Table.Refs.{IsValid, IsCounted}

-- Closing a slot in use frees it, leaves every other slot as it was, and deletes the description if
-- and only if no slot of the new table and no other table holds it.
pub syscall_close_lem :
    (outside : ℕ → ℕ) (t : Table) (fd d : ℕ)
    → IsValid outside t
    → get_file_description t fd ≡ some d
    → let (t', ret) = syscall_close fd t in
      (ret ≡ ok 0)
      × (get_file_description t' fd ≡ none)
      × ((i : ℕ) → i ≢ fd → slot t' i ≡ slot t i)
      × (((t'.deleted ≡ t.deleted ++ (d ∷ []))
            × (total (holds d) t'.file_descriptors + outside d ≡ 0))
          ⊎ ((t'.deleted ≡ t.deleted) × (0 < total (holds d) t'.file_descriptors + outside d)))
unfolding syscall_close close_slot decrement_ref_count
syscall_close_lem outside t fd d v used =
    rw (used, syscall_close)
      (
        refl,
        ground (arith, get_or-set_self t.file_descriptors fd empty empty),
        λ i ne. get_or-set_ne t.file_descriptors fd i empty empty (λ e. ne (sym e)),
        elim (Bool-cases (t.ref_count d - 1 == 0)) [
          | inl last ↦ rw last (
              inl (
                refl,
                ground (
                  arith,
                  last,
                  v.refs d,
                  total-set (holds d) t.file_descriptors fd empty,
                  w-le-total (holds d) t.file_descriptors fd,
                ),
              ))
          | inr more ↦ rw more (
              inr (
                refl,
                ground (
                  arith,
                  more,
                  v.refs d,
                  total-set (holds d) t.file_descriptors fd empty,
                  w-le-total (holds d) t.file_descriptors fd,
                ),
              ))
        ],
      )

-- `F_DUPFD` and `dup` give the lowest number from `min_fdnum` on that is free, if the table reaches it, and
-- make it share the description; the other slots stay.
pub dupfd_lem :
    (outside : ℕ → ℕ) (t : Table) (fd d min_fdnum : ℕ) (cloexec : Bool)
    → IsValid outside t
    → get_file_description t fd ≡ some d
    → let (t', ret) = dupfd fd min_fdnum cloexec t in
      (newfd : ℕ) × (ret ≡ ok newfd)
      × (is_free (slot t newfd) ≡ true)
      × ((i : ℕ) → min_fdnum ≤ i → i < newfd → is_free (slot t i) ≡ false)
      × (slot t' newfd ≡ record { description = some d; cloexec = cloexec })
      × ((i : ℕ) → i ≢ newfd → slot t' i ≡ slot t i)
unfolding dupfd duplicate_to
dupfd_lem outside t fd d min_fdnum cloexec v used =
    let (newfd, t') = allocate_fdnum min_fdnum t in
    let a = allocate_lem min_fdnum t v.low in
    rw (used, dupfd)
      (
        newfd,
        refl,
        ap is_free (sym (a.others newfd)) ∙ a.free,
        a.lowest,
        get_or-set_self t'.file_descriptors newfd _ empty a.in_table,
        λ i ne. get_or-set_ne t'.file_descriptors newfd i _ empty (λ e. ne (sym e)) ∙ a.others i,
      )

-- Where `min_fdnum` is past the end of the table, the number given is the table's length, below the
-- minimum that was asked for.
pub dupfd_below_minimum :
    (t : Table) (fd d min_fdnum : ℕ) (cloexec : Bool)
    → IsLow t
    → get_file_description t fd ≡ some d
    → length t.file_descriptors < min_fdnum
    → (dupfd fd min_fdnum cloexec t).1 ≡ ok (length t.file_descriptors)
unfolding dupfd allocate_fdnum after_scan
dupfd_below_minimum t fd d min_fdnum cloexec low used past =
    let missed =
      find_free-past t.file_descriptors 0 (scan_begin min_fdnum t) (ground (arith, low.within)) in
    rw (used, dupfd) (rw (missed, after_scan) refl)

grown_length : (t : Table) (newfd : ℕ) → newfd < length (grow_to newfd t).file_descriptors
grown_length t newfd = omega (
  arith,
  length-append t.file_descriptors (replicate (newfd + 1 - length t.file_descriptors) empty),
  length-replicate (newfd + 1 - length t.file_descriptors) empty,
)

get_or-append_replicate :
    (ds : List Descriptor) (n i : ℕ) → get_or (ds ++ replicate n empty) i empty ≡ get_or ds i empty
get_or-append_replicate [] zero i = refl
get_or-append_replicate [] (suc n) zero = refl
get_or-append_replicate [] (suc n) (suc i) = get_or-append_replicate [] n i
get_or-append_replicate (d ∷ ds) n zero = refl
get_or-append_replicate (d ∷ ds) n (suc i) = get_or-append_replicate ds n i

close_if_used_slots :
    (t : Table) (fd : ℕ)
    → (length (close_if_used fd t).file_descriptors ≡ length t.file_descriptors)
      × ((i : ℕ) → i ≢ fd → slot (close_if_used fd t) i ≡ slot t i)
unfolding close_if_used
close_if_used_slots t fd = elim (Option-cases (slot t fd).description) [
  | inl e ↦ rw (e, close_if_used) (refl, λ i ne. refl)
  | inr (d, e) ↦
      rw (e, close_if_used)
        (
          length-set t.file_descriptors fd empty,
          λ i ne. get_or-set_ne t.file_descriptors fd i empty empty (λ e. ne (sym e)),
        )
]

dup3_success :
    (t : Table) (oldfd newfd d : ℕ) (cloexec : Bool)
    → get_file_description t oldfd ≡ some d
    → newfd ≤ 1023
    → oldfd ≢ newfd
    → dup3_impl oldfd newfd false cloexec t
      ≡ (duplicate_to newfd d cloexec (close_if_used newfd (grow_to newfd t)), ok newfd)
unfolding dup3_impl
dup3_success t oldfd newfd d cloexec used small apart = ground arith

-- `dup2` and `dup3` of a number in use to another number up to 1023 make both numbers share the description, and leave every other
-- slot as it was.
pub dup3_lem :
    (t : Table) (oldfd newfd d : ℕ) (cloexec : Bool)
    → get_file_description t oldfd ≡ some d
    → newfd ≤ 1023
    → oldfd ≢ newfd
    → let (t', ret) = dup3_impl oldfd newfd false cloexec t in
      (ret ≡ ok newfd)
      × (slot t' newfd ≡ record { description = some d; cloexec = cloexec })
      × ((i : ℕ) → i ≢ newfd → slot t' i ≡ slot t i)
unfolding duplicate_to
dup3_lem t oldfd newfd d cloexec used small apart =
    let grown = grow_to newfd t in
    let cleared = close_if_used newfd grown in
    let (long, kept) = close_if_used_slots grown newfd in
    rw (dup3_success t oldfd newfd d cloexec used small apart) (
      refl,
      get_or-set_self cleared.file_descriptors newfd _ empty
          (omega (arith, long, grown_length t newfd)),
      λ i ne.
          get_or-set_ne cleared.file_descriptors newfd i _ empty (λ e. ne (sym e))
          ∙ kept i ne
          ∙ get_or-append_replicate t.file_descriptors _ i,
    )

allocate_count :
    (min_fdnum : ℕ) (t : Table)
    → let t' = (allocate_fdnum min_fdnum t).1 in
      (t'.num_file_descriptors ≡ t.num_file_descriptors + 1)
      × (total in_use t'.file_descriptors ≡ total in_use t.file_descriptors)
unfolding allocate_fdnum after_scan
allocate_count min_fdnum t =
    elim (Option-cases (find_free t.file_descriptors 0 (scan_begin min_fdnum t))) [
      | inl e ↦ rw e (
        refl,
        omega (
          arith,
          total-append in_use t.file_descriptors (empty ∷ []),
          total-replicate in_use 1 refl,
        ),
      )
      | inr (k, e) ↦ rw e (refl, refl)
    ]

not_used : (t : Table) (fd : ℕ) → get_file_description t fd ≡ none → (slot t fd).description ≡ none
not_used t fd free = ground (arith, get_or_past t.file_descriptors fd empty)

-- Opening a new description keeps the table's count of its descriptors right.
pub install-IsCounted :
    (t : Table) (d : ℕ) (cloexec : Bool) → IsLow t → IsCounted t → IsCounted (install d cloexec t).1
unfolding install
install-IsCounted t d cloexec low c =
    let (fd, t') = allocate_fdnum 0 t in
    let a = allocate_lem 0 t low in
    let (num, same) = allocate_count 0 t in
    ground (
      arith,
      total-set in_use t'.file_descriptors fd (record { description = some d; cloexec = cloexec })
          a.in_table,
      a.free,
      num,
      same,
    )

-- `dup2` and `dup3` of a number in use to a number up to 1023 that is not in use put the count wrong: they do not raise it, and the close
-- of the new number will lower it.
pub dup3_miscounts :
    (t : Table) (oldfd newfd d : ℕ) (cloexec : Bool)
    → get_file_description t oldfd ≡ some d
    → get_file_description t newfd ≡ none
    → newfd ≤ 1023
    → let t' = (dup3_impl oldfd newfd false cloexec t).0 in
      (t'.num_file_descriptors ≡ t.num_file_descriptors)
      × (total in_use t'.file_descriptors ≡ total in_use t.file_descriptors + 1)
unfolding duplicate_to close_if_used
dup3_miscounts t oldfd newfd d cloexec used free small =
    let apart : oldfd ≢ newfd = λ e. ground (arith, ap (get_file_description t) e) in
    let empty_slot : (slot (grow_to newfd t) newfd).description ≡ none =
      rw get_or-append_replicate (not_used t newfd free) in
    let more = newfd + 1 - length t.file_descriptors in
    rw (dup3_success t oldfd newfd d cloexec used small apart, empty_slot, close_if_used)
      (
        refl,
        ground (
          arith,
          total-set in_use (grow_to newfd t).file_descriptors newfd
              (record { description = some d; cloexec = cloexec }) (grown_length t newfd),
          total-append in_use t.file_descriptors (replicate more empty),
          total-replicate in_use more,
          empty_slot,
        ),
      )
