-- ===== src/Userland/MemFd.antt =====
-- userland/memfd.cpp: a file in kernel memory. `memory` is what `virt_alloc` and `map_anonymous` make
-- readable at the new address: its bytes are whatever they are, less the first byte of each page, which
-- `grow_to` clears.
pub mod Loss
mod Tests
use saba_os.Base.{
  ℕ, ◌+◌, ◌-◌, ◌*◌, ◌/◌, ◌%◌, ◌^◌, Bool, true, false, if◌then◌else◌, ltb, leb, ◌==◌, add64, Ret, ok,
  err, Buffer, memcpy, memset, page_size, enxio, einval,
}
use saba_os.Klib.Algorithm.{align_up}
use saba_os.Fs.Tmpfs.{
  Whence, seek_set, seek_cur, seek_end, seek_data, seek_hole, other, Sought, at, fails,
}

pub record MemFd : Type 0 where
  pub size : ℕ
  pub capacity : ℕ
  pub storage : Buffer ℕ

pub clear_pages : Buffer ℕ → ℕ → Buffer ℕ
clear_pages memory capacity i =
    if ltb i capacity then (if i % page_size == 0 then 0 else memory i) else memory i

pub grow_to : Buffer ℕ → ℕ → MemFd → MemFd
grow_to memory length f =
    if ltb f.capacity length
    then record {
      size = length;
      capacity = align_up length page_size % 2 ^ 64;
      storage = clear_pages memory (align_up length page_size % 2 ^ 64);
    }
    else record f { size = length }

pub read : MemFd → Buffer ℕ → ℕ → ℕ → Ret × Buffer ℕ
read f buf count offset =
    let actual_count = if ltb f.size (add64 offset count) then f.size - offset else count in
    if leb f.size offset
    then (ok 0, buf)
    else (ok actual_count, memcpy buf 0 f.storage offset actual_count)

pub write : Buffer ℕ → MemFd → Buffer ℕ → ℕ → ℕ → MemFd × Ret
write memory f buf count offset =
    let grown =
      if ltb f.size (add64 offset count) then grow_to memory (add64 offset count) f else f in
    if count == 0
    then (f, ok 0)
    else (record grown { storage = memcpy grown.storage offset buf 0 count }, ok count)

pub truncate : Buffer ℕ → MemFd → ℕ → MemFd × Ret
truncate memory f length =
    if ltb f.size length
    then (record (grow_to memory length f) { size = length }, ok 0)
    else (record f { size = length; storage = memset f.storage length 0 (f.size - length) }, ok 0)

pub seek : MemFd → ℕ → ℕ → Whence → Sought
seek f position offset seek_set = at offset
seek f position offset seek_cur = at (add64 position offset)
seek f position offset seek_end = at (add64 f.size offset)
seek f position offset seek_data = if leb f.size offset then fails enxio else at offset
seek f position offset seek_hole = if leb f.size offset then fails enxio else at f.size
seek f position offset other = fails einval
