-- ===== src/Fs/File/Vectors.antt =====
-- fs/vfs.cpp: readv, writev, preadv and pwritev, over any node. Each vector has its memory of its own.
pub mod Gather
mod Tests
use saba_os.Base.{
  ℕ, zero, suc, ◌+◌, ◌*◌, ◌%◌, ◌^◌, Bool, true, false, if◌then◌else◌, ltb, ◌==◌, List, [], ◌∷◌,
  Option, none, some, Ret, ok, err, ebadf, Errno, Buffer, add64,
}
use saba_os.Fs.File.{VNode, File, advance, seek_to_end_if_append}

pub record Iovec : Type 0 where
  pub iov_base : Buffer ℕ
  pub iov_len : ℕ

-- `transferred ? transferred : ret`
pub partial : ℕ → Errno → Ret
partial transferred e = if transferred == 0 then err e else ok transferred

module _ {S : Type 0} (ops : VNode S) where
  -- After a read into one vector; `continue` is the loop over the others.
  pub after_read :
      (S → ℕ → ℕ → S × Ret × List (Buffer ℕ))
      → Iovec
      → List (Buffer ℕ)
      → ℕ
      → ℕ
      → S × Ret × Buffer ℕ
      → S × Ret × List (Buffer ℕ)
  after_read continue v others offset transferred (s, err e, buf) =
      (s, partial transferred e, buf ∷ others)
  after_read continue v others offset transferred (s, ok n, buf) =
      let (t, r, bufs) = continue s (add64 offset n) (add64 transferred n) in
      if ltb n v.iov_len then (s, ok (add64 transferred n), buf ∷ others) else (t, r, buf ∷ bufs)

  pub bases : List Iovec → List (Buffer ℕ)
  bases [] = []
  bases (v ∷ vs) = v.iov_base ∷ bases vs

  pub readv_loop : List Iovec → S → ℕ → ℕ → S × Ret × List (Buffer ℕ)
  readv_loop [] s offset transferred = (s, ok transferred, [])
  readv_loop (v ∷ vs) s offset transferred =
      let (t, r, bufs) = readv_loop vs s offset transferred in
      if v.iov_len == 0
      then (t, r, v.iov_base ∷ bufs)
      else after_read (λ s' o n. readv_loop vs s' o n) v (bases vs) offset transferred
          (ops.read s v.iov_base v.iov_len offset)

  pub readv : S → List Iovec → ℕ → S × Ret × List (Buffer ℕ)
  readv s iovs offset = readv_loop iovs s offset 0

  pub after_write : (S → ℕ → ℕ → S × Ret) → Iovec → ℕ → ℕ → S × Ret → S × Ret
  after_write continue v offset transferred (s, err e) = (s, partial transferred e)
  after_write continue v offset transferred (s, ok n) =
      let rest = continue s (add64 offset n) (add64 transferred n) in
      if ltb n v.iov_len then (s, ok (add64 transferred n)) else rest

  pub writev_loop : List Iovec → S → ℕ → ℕ → S × Ret
  writev_loop [] s offset transferred = (s, ok transferred)
  writev_loop (v ∷ vs) s offset transferred =
      let rest = writev_loop vs s offset transferred in
      if v.iov_len == 0
      then rest
      else after_write (λ s' o n. writev_loop vs s' o n) v offset transferred
          (ops.write s v.iov_base v.iov_len offset)

  pub writev : S → List Iovec → ℕ → S × Ret
  writev s iovs offset = writev_loop iovs s offset 0

  pub syscall_readv : Option (File S) → List Iovec → Option (File S) × Ret × List (Buffer ℕ)
  syscall_readv none iovs = (none, err ebadf, bases iovs)
  syscall_readv (some d) iovs =
      let (s, r, bufs) = readv d.vnode iovs d.cursor in
      (some (advance ops (record d { vnode = s }) r), r, bufs)

  pub syscall_writev : Option (File S) → List Iovec → Option (File S) × Ret
  syscall_writev none iovs = (none, err ebadf)
  syscall_writev (some d) iovs =
      let e = seek_to_end_if_append ops d in
      let (s, r) = writev e.vnode iovs e.cursor in
      (some (advance ops (record e { vnode = s }) r), r)

  -- `(offset_high << 32) | offset_low`, for a low part below 2 ^ 32 or a high part of 0
  pub whole_offset : ℕ → ℕ → ℕ
  whole_offset low high = high * 2 ^ 32 % 2 ^ 64 + low

  pub syscall_preadv :
      Option (File S) → List Iovec → ℕ → ℕ → Option (File S) × Ret × List (Buffer ℕ)
  syscall_preadv none iovs low high = (none, err ebadf, bases iovs)
  syscall_preadv (some d) iovs low high =
      let (s, r, bufs) = readv d.vnode iovs (whole_offset low high) in
      (some (record d { vnode = s }), r, bufs)

  pub syscall_pwritev : Option (File S) → List Iovec → ℕ → ℕ → Option (File S) × Ret
  syscall_pwritev none iovs low high = (none, err ebadf)
  syscall_pwritev (some d) iovs low high =
      let (s, r) = writev d.vnode iovs (whole_offset low high) in (some (record d { vnode = s }), r)
