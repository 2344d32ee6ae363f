-- ===== src/Fs/Table.antt =====
-- The descriptor table of a process: `sched::Process::allocate_fdnum` in sched/sched.cpp, and
-- `vfs::FileDescriptor`, close, dup and the descriptor commands of fcntl in fs/vfs.hpp and fs/vfs.cpp.
-- A description is known by a number; its reference count, and the order in which descriptions are
-- deleted, stand in the table. Descriptor numbers are not negative: a caller's negative `fd` is the
-- `EBADF` of an index that no table has.
pub mod Count
pub mod Alloc
pub mod Refs
pub mod Behaviour
pub mod Calls
mod Tests
use saba_os.Base.{
  ℕ, zero, suc, ◌+◌, ◌-◌, Bool, true, false, ◌&&◌, ◌||◌, not, Option, none, some, List, [], ◌∷◌,
  ◌++◌, length, get_or, set, replicate, if◌then◌else◌, ltb, leb, ◌==◌, sub64, min, Ret, ok, err,
  ebadf, einval, update,
}

-- `usize data`: a pointer with the close-on-exec flag in its lowest bit.
pub record Descriptor : Type 0 where
  pub description : Option ℕ
  pub cloexec : Bool

abbrev pub empty : Descriptor
empty = record { description = none; cloexec = false }

pub record Table : Type 0 where
  pub file_descriptors : List Descriptor
  pub num_file_descriptors : ℕ
  pub first_free_fdnum : ℕ
  pub ref_count : ℕ → ℕ
  pub deleted : List ℕ

abbrev pub is_free : Descriptor → Bool
is_free d = elim d.description [ none ↦ true | some _ ↦ false ]

-- `file_descriptors[i]`, for an `i` that the callers have checked.
abbrev pub slot : Table → ℕ → Descriptor
slot t i = get_or t.file_descriptors i empty

abbrev pub with_slot : Table → ℕ → Descriptor → Table
with_slot t i d = record t { file_descriptors = set t.file_descriptors i d }

-- The loop of `allocate_fdnum`: the first free slot from `begin` on; `i` is the index of the list's head.
pub find_free : List Descriptor → ℕ → ℕ → Option ℕ
find_free [] i begin = none
find_free (d ∷ ds) i begin = if leb begin i && is_free d then some i else find_free ds (i + 1) begin

-- `begin`, where the scan starts.
abbrev pub scan_begin : ℕ → Table → ℕ
scan_begin min_fdnum t = if ltb min_fdnum t.first_free_fdnum then t.first_free_fdnum else min_fdnum

-- The rest of `allocate_fdnum`, by what the loop found.
pub after_scan : ℕ → Table → Option ℕ → ℕ × Table
after_scan min_fdnum t (some i) = (
  i,
  record t {
    num_file_descriptors = t.num_file_descriptors + 1;
    first_free_fdnum = if ltb min_fdnum t.first_free_fdnum then i + 1 else t.first_free_fdnum;
  },
)
after_scan min_fdnum t none = (
  length t.file_descriptors,
  record t {
    file_descriptors = t.file_descriptors ++ (empty ∷ []);
    num_file_descriptors = t.num_file_descriptors + 1;
    first_free_fdnum =
        if ltb min_fdnum t.first_free_fdnum then length t.file_descriptors else t.first_free_fdnum;
  },
)

pub allocate_fdnum : ℕ → Table → ℕ × Table
allocate_fdnum min_fdnum t =
    after_scan min_fdnum t (find_free t.file_descriptors 0 (scan_begin min_fdnum t))

-- `FileDescription::decrement_ref_count`, with the deletion at zero.
pub decrement_ref_count : ℕ → Table → Table
decrement_ref_count d t =
    let left = t.ref_count d - 1 in
    record t {
      ref_count = update t.ref_count d left;
      deleted = if left == 0 then t.deleted ++ (d ∷ []) else t.deleted;
    }

-- `FileDescriptor::close` on a slot that holds the description `d`.
pub close_slot : ℕ → ℕ → Table → Table
unfolding decrement_ref_count
close_slot fdnum d t =
    let t' = with_slot (decrement_ref_count d t) fdnum empty in
    record t' {
      num_file_descriptors = sub64 t.num_file_descriptors 1;
      first_free_fdnum = if ltb fdnum t.first_free_fdnum then fdnum else t.first_free_fdnum;
    }

-- A slot's description, if the index is in the table and the slot is in use.
abbrev pub get_file_description : Table → ℕ → Option ℕ
get_file_description t fd =
    if leb (length t.file_descriptors) fd then none else (slot t fd).description

pub syscall_close : ℕ → Table → Table × Ret
syscall_close fd t = elim (get_file_description t fd) [
  | none ↦ (t, err ebadf)
  | some d ↦ (close_slot fd d t, ok 0)
]

-- `*new_descriptor = old_descriptor->duplicate()`, then `set_flags`.
pub duplicate_to : ℕ → ℕ → Bool → Table → Table
duplicate_to newfd d cloexec t =
    with_slot (record t { ref_count = update t.ref_count d (t.ref_count d + 1) }) newfd
      (record { description = some d; cloexec = cloexec })

-- The slots that `dup3_impl` appends until `newfd` is in the table.
abbrev pub grow_to : ℕ → Table → Table
grow_to newfd t = record t {
  file_descriptors = t.file_descriptors ++ replicate (newfd + 1 - length t.file_descriptors) empty;
}

pub close_if_used : ℕ → Table → Table
unfolding close_slot
close_if_used fd t = elim (slot t fd).description [ none ↦ t | some d ↦ close_slot fd d t ]

-- `flags & ~FD_CLOEXEC` is `bad_flags`, and `flags & FD_CLOEXEC` is `cloexec`.
pub dup3_impl : ℕ → ℕ → Bool → Bool → Table → Table × Ret
dup3_impl oldfd newfd bad_flags cloexec t =
    if leb (length t.file_descriptors) oldfd
    then (t, err ebadf)
    else if ltb 1023 newfd
    then (t, err ebadf)
    else elim (slot t oldfd).description [
      | none ↦ (t, err ebadf)
      | some d ↦
          if bad_flags
          then (t, err einval)
          else if oldfd == newfd
          then (t, ok newfd)
          else (duplicate_to newfd d cloexec (close_if_used newfd (grow_to newfd t)), ok newfd)
    ]

pub syscall_dup3 : ℕ → ℕ → Bool → Bool → Table → Table × Ret
syscall_dup3 oldfd newfd bad_flags cloexec t =
    if oldfd == newfd then (t, err einval) else dup3_impl oldfd newfd bad_flags cloexec t

pub syscall_dup2 : ℕ → ℕ → Table → Table × Ret
syscall_dup2 oldfd newfd t = dup3_impl oldfd newfd false false t

-- The descriptor commands of `fcntl_impl`.
pub dupfd : ℕ → ℕ → Bool → Table → Table × Ret
dupfd fd min_fdnum cloexec t = elim (get_file_description t fd) [
  | none ↦ (t, err ebadf)
  | some d ↦
      let (newfd, t') = allocate_fdnum min_fdnum t in (duplicate_to newfd d cloexec t', ok newfd)
]

pub setfd : ℕ → Bool → Table → Table × Ret
setfd fd cloexec t = elim (get_file_description t fd) [
  | none ↦ (t, err ebadf)
  | some d ↦ (with_slot t fd (record (slot t fd) { cloexec = cloexec }), ok 0)
]

pub syscall_dup : ℕ → Table → Table × Ret
syscall_dup oldfd t = dupfd oldfd 0 false t

-- How the callers open a new description `d`: allocate, then `init` with a count of one.
pub install : ℕ → Bool → Table → ℕ × Table
install d cloexec t =
    let (fd, t') = allocate_fdnum 0 t in
    (
      fd,
      with_slot (record t' { ref_count = update t'.ref_count d 1 }) fd
          (record { description = some d; cloexec = cloexec }),
    )

-- `syscall_close_range`, its loop over the slots `fd ≤ last`; `rounds` is what is left of it.
pub close_range_loop : ℕ → ℕ → Bool → Table → Table
close_range_loop zero fd cloexec t = t
close_range_loop (suc rounds) fd cloexec t =
    close_range_loop rounds (fd + 1) cloexec (elim (slot t fd).description [
      | none ↦ t
      | some d ↦
          if cloexec
          then with_slot t fd (record (slot t fd) { cloexec = true })
          else close_slot fd d t
    ])

-- `last` is cut to the last index of the table; the subtraction wraps at an empty table.
pub syscall_close_range : ℕ → ℕ → Bool → Bool → Table → Table × Ret
syscall_close_range first last bad_flags cloexec t =
    let last' = min last (sub64 (length t.file_descriptors) 1) in
    if bad_flags
    then (t, err einval)
    else if ltb last first
    then (t, err einval)
    else (close_range_loop (last' + 1 - first) first cloexec t, ok 0)
