-- ===== src/Fs/File.antt =====
-- fs/vfs.hpp and fs/vfs.cpp: an open file description with its cursor, and the calls that read, write and
-- seek through it. The node is known by the operations that its type gives.
pub mod Stream
pub mod Vectors
mod Tests
use saba_os.Base.{
  ℕ, ◌+◌, ◌-◌, ◌%◌, ◌^◌, Bool, true, false, if◌then◌else◌, ltb, Option, none, some, Ret, ok, err,
  ebadf, Errno, Buffer, add64,
}
use saba_os.Fs.Description.{FileFlags}
use saba_os.Fs.Tmpfs
use saba_os.Fs.Tmpfs.{Node, Whence, seek_end, Sought, at, fails}

-- The virtual functions of `vfs::VNode` that the calls use; each gives the node after the call.
pub record VNode (S : Type 0) : Type 0 where
  pub read : S → Buffer ℕ → ℕ → ℕ → S × Ret × Buffer ℕ
  pub write : S → Buffer ℕ → ℕ → ℕ → S × Ret
  pub seek : S → ℕ → ℕ → Whence → Sought

-- `vfs::FileDescription`, with its vnode
pub record File (S : Type 0) : Type 0 where
  pub vnode : S
  pub cursor : ℕ
  pub flags : FileFlags

-- A node of tmpfs. `junk` is what lies behind old allocations.
pub tmpfs : Buffer ℕ → VNode Node
tmpfs junk = record {
  read = λ n buf count offset. let (r, buf') = Tmpfs.read n buf count offset in (n, r, buf');
  write = λ n buf count offset. Tmpfs.write junk n buf count offset;
  seek = Tmpfs.seek;
}

module _ {S : Type 0} (ops : VNode S) where
  -- `if (ret < 0) return ret; description->cursor += ret`
  pub advance : File S → Ret → File S
  advance d (ok n) = record d { cursor = add64 d.cursor n }
  advance d (err e) = d

  -- A `seek` result of 2 ^ 63 or more is a negative `isize`.
  pub move_to : File S → Sought → File S
  move_to d (at p) = if ltb p (2 ^ 63) then record d { cursor = p } else d
  move_to d (fails e) = d

  pub seek_to_end_if_append : File S → File S
  seek_to_end_if_append d =
      if d.flags.append then move_to d (ops.seek d.vnode d.cursor 0 seek_end) else d

  -- The calls on the description that `get_file_description` found; without one they are EBADF.
  pub read_file : File S → Buffer ℕ → ℕ → File S × Ret × Buffer ℕ
  read_file d buf count =
      let (node, r, buf') = ops.read d.vnode buf count d.cursor in
      (advance (record d { vnode = node }) r, r, buf')

  pub write_file : File S → Buffer ℕ → ℕ → File S × Ret
  write_file d buf count =
      let e = seek_to_end_if_append d in
      let (node, r) = ops.write e.vnode buf count e.cursor in
      (advance (record e { vnode = node }) r, r)

  pub pread_file : File S → Buffer ℕ → ℕ → ℕ → File S × Ret × Buffer ℕ
  pread_file d buf count offset =
      let (node, r, buf') = ops.read d.vnode buf count offset in
      (record d { vnode = node }, r, buf')

  pub pwrite_file : File S → Buffer ℕ → ℕ → ℕ → File S × Ret
  pwrite_file d buf count offset =
      let (node, r) = ops.write d.vnode buf count offset in (record d { vnode = node }, r)

  pub seek_file : File S → ℕ → Whence → File S × Sought
  seek_file d offset whence = let r = ops.seek d.vnode d.cursor offset whence in (move_to d r, r)

  -- Where the process keeps no description under the number, the calls fail.
  pub syscall_read : Option (File S) → Buffer ℕ → ℕ → Option (File S) × Ret × Buffer ℕ
  syscall_read none buf count = (none, err ebadf, buf)
  syscall_read (some d) buf count = let (d', r, buf') = read_file d buf count in (some d', r, buf')

  pub syscall_write : Option (File S) → Buffer ℕ → ℕ → Option (File S) × Ret
  syscall_write none buf count = (none, err ebadf)
  syscall_write (some d) buf count = let (d', r) = write_file d buf count in (some d', r)

  pub syscall_pread64 : Option (File S) → Buffer ℕ → ℕ → ℕ → Option (File S) × Ret × Buffer ℕ
  syscall_pread64 none buf count offset = (none, err ebadf, buf)
  syscall_pread64 (some d) buf count offset =
      let (d', r, buf') = pread_file d buf count offset in (some d', r, buf')

  pub syscall_pwrite64 : Option (File S) → Buffer ℕ → ℕ → ℕ → Option (File S) × Ret
  syscall_pwrite64 none buf count offset = (none, err ebadf)
  syscall_pwrite64 (some d) buf count offset =
      let (d', r) = pwrite_file d buf count offset in (some d', r)

  pub syscall_lseek : Option (File S) → ℕ → Whence → Option (File S) × Sought
  syscall_lseek none offset whence = (none, fails ebadf)
  syscall_lseek (some d) offset whence = let (d', r) = seek_file d offset whence in (some d', r)
