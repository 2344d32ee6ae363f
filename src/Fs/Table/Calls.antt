-- ===== src/Fs/Table/Calls.antt =====
-- The system calls on a well-formed table: open, close, dup, dup2, dup3 and F_DUPFD.
use saba_os.Base.{
  ℕ, ◌+◌, ◌-◌, ◌≡◌, ◌<◌, ap, refl, inl, inr, Bool, true, Option-cases, length, replicate, arith,
  get_or-append_left, length-append, length-set, length-replicate, get_or-set_self,
}
use saba_os.Fs.Table.{
  Table, empty, is_free, slot, get_file_description, syscall_close, duplicate_to, dupfd, install,
  grow_to, close_if_used, dup3_impl,
}
use saba_os.Fs.Table.Count.{total-append, total-replicate, holds}
use saba_os.Fs.Table.Refs.{
  IsValid, fill-IsValid, close_slot-IsValid, allocate_fill-IsValid, allocate_refs,
}

module _ (outside : ℕ → ℕ) where
  -- Opening a description that nobody holds keeps the table well formed.
  pub install-IsValid :
      (t : Table) (d : ℕ) (cloexec : Bool)
      → IsValid outside t
      → t.ref_count d ≡ 0
      → IsValid outside (install d cloexec t).1
  unfolding install
  install-IsValid t d cloexec v new =
      allocate_fill-IsValid outside t 0 d 1 cloexec v (omega (arith, new))

  -- `dup` and `F_DUPFD` keep the table well formed, on every branch.
  pub dupfd-IsValid :
      (t : Table) (fd min_fdnum : ℕ) (cloexec : Bool)
      → IsValid outside t
      → IsValid outside (dupfd fd min_fdnum cloexec t).0
  unfolding dupfd duplicate_to
  dupfd-IsValid t fd min_fdnum cloexec v = elim (Option-cases (get_file_description t fd)) [
    | inl e ↦ rw (e, dupfd) v
    | inr (d, e) ↦
        rw (e, dupfd)
          (allocate_fill-IsValid outside t min_fdnum d _ cloexec v
            (omega (arith, ap (λ r. r d) (allocate_refs min_fdnum t).0)))
  ]

  -- `close` keeps the table well formed, on every branch.
  pub syscall_close-IsValid :
      (t : Table) (fd : ℕ) → IsValid outside t → IsValid outside (syscall_close fd t).0
  unfolding syscall_close
  syscall_close-IsValid t fd v = elim (Option-cases (get_file_description t fd)) [
    | inl e ↦ rw (e, syscall_close) v
    | inr (d, e) ↦
        rw (e, syscall_close) (close_slot-IsValid outside t fd d (ground arith) (ground arith) v)
  ]

  grow_to-IsValid :
      (t : Table) (newfd : ℕ)
      → IsValid outside t
      → IsValid outside (grow_to newfd t) × (newfd < length (grow_to newfd t).file_descriptors)
  grow_to-IsValid t newfd v =
      let more = newfd + 1 - length t.file_descriptors in
      let long = length-append t.file_descriptors (replicate more empty) in
      (
        record {
          low = record {
            within = omega (arith, v.low.within, long);
            below = λ i l.
                rw
                  (get_or-append_left t.file_descriptors (replicate more empty) i empty
                    (omega (arith, v.low.within)))
                  (v.low.below i l);
          };
          refs = λ e. omega (
            arith,
            v.refs e,
            total-append (holds e) t.file_descriptors (replicate more empty),
            total-replicate (holds e) more refl,
          );
        },
        omega (arith, long, length-replicate more empty),
      )

  close_if_used-IsValid :
      (t : Table) (fd : ℕ)
      → fd < length t.file_descriptors
      → IsValid outside t
      → let t' = close_if_used fd t in
        IsValid outside t' × (fd < length t'.file_descriptors) × (is_free (slot t' fd) ≡ true)
  unfolding close_if_used
  close_if_used-IsValid t fd lt v = elim (Option-cases (slot t fd).description) [
    | inl e ↦ rw (e, close_if_used) (v, lt, ground (arith, e))
    | inr (d, e) ↦
        rw (e, close_if_used)
          (
            close_slot-IsValid outside t fd d lt e v,
            omega (arith, length-set t.file_descriptors fd empty),
            ap is_free (get_or-set_self t.file_descriptors fd empty empty lt),
          )
  ]

  moved-IsValid :
      (t : Table) (newfd d : ℕ) (cloexec : Bool)
      → IsValid outside t
      → IsValid outside (duplicate_to newfd d cloexec (close_if_used newfd (grow_to newfd t)))
  unfolding duplicate_to
  moved-IsValid t newfd d cloexec v =
      let (gv, lt) = grow_to-IsValid t newfd v in
      let (cv, in_table, free) = close_if_used-IsValid (grow_to newfd t) newfd lt gv in
      fill-IsValid outside (close_if_used newfd (grow_to newfd t)) newfd d _ cloexec in_table free
        (omega arith) cv.low.within (λ i l ne. cv.low.below i l) cv.refs

  -- `dup2` and `dup3` keep the table well formed, on every branch.
  pub dup3_impl-IsValid :
      (t : Table) (oldfd newfd : ℕ) (bad_flags cloexec : Bool)
      → IsValid outside t
      → IsValid outside (dup3_impl oldfd newfd bad_flags cloexec t).0
  unfolding dup3_impl
  dup3_impl-IsValid t oldfd newfd bad_flags cloexec v =
      elim (Option-cases (slot t oldfd).description) [
        | inl e ↦ ground (arith, e)
        | inr (d, e) ↦ ground (arith, e, moved-IsValid t newfd d cloexec v)
      ]
