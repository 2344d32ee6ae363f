-- ===== src/Fs/Tmpfs.antt =====
-- fs/tmpfs.hpp and fs/tmpfs.cpp: the data of a node, and read, write, seek and truncate of one that is no
-- directory. The storage is the memory from the node's pointer on. `junk` is what lies behind an old
-- allocation, which `klib::realloc` copies along with it (mem/bump.cpp does not know the old size).
pub mod Growth
pub mod Content
pub mod Leak
mod Tests
use saba_os.Base.{
  ℕ, zero, suc, ◌+◌, ◌-◌, ◌*◌, ◌%◌, ◌^◌, Bool, true, false, if◌then◌else◌, ltb, leb, ◌==◌, add64,
  max, Ret, ok, err, eisdir, enxio, einval, Errno, Buffer, memcpy, memset, Option, none, some,
}

pub record Node : Type 0 where
  pub is_directory : Bool
  pub size : ℕ
  pub capacity : ℕ
  pub storage : Buffer ℕ

-- `while (capacity < size) capacity = max(1, capacity * 4)`, on fuel.
pub grow_loop : ℕ → ℕ → ℕ → ℕ
grow_loop zero size capacity = capacity
grow_loop (suc fuel) size capacity =
    let rest = grow_loop fuel size (max 1 (capacity * 4 % 2 ^ 64)) in
    if ltb capacity size then rest else capacity

-- 4 ^ 32 is 2 ^ 64: `Growth` shows that 33 rounds are enough for sizes up to 2 ^ 62.
abbrev pub grow_fuel : ℕ
grow_fuel = 33

-- `klib::realloc` to a larger size: the old allocation, then what lay behind it.
abbrev pub realloc : Buffer ℕ → ℕ → Buffer ℕ → Buffer ℕ
realloc old old_size junk i = if ltb i old_size then old i else junk i

pub grow_to : Buffer ℕ → ℕ → Node → Node
grow_to junk length n =
    if ltb n.capacity length
    then record n {
      size = length;
      capacity = grow_loop grow_fuel length n.capacity;
      storage = realloc n.storage n.capacity junk;
    }
    else record n { size = length }

-- What comes back, and the caller's buffer.
pub read : Node → Buffer ℕ → ℕ → ℕ → Ret × Buffer ℕ
read n buf count offset =
    let actual_count = if ltb n.size (add64 offset count) then n.size - offset else count in
    if n.is_directory
    then (err eisdir, buf)
    else if leb n.size offset
    then (ok 0, buf)
    else (ok actual_count, memcpy buf 0 n.storage offset actual_count)

pub write : Buffer ℕ → Node → Buffer ℕ → ℕ → ℕ → Node × Ret
write junk n buf count offset =
    let grown =
      if ltb n.size (add64 offset count) then grow_to junk (add64 offset count) n else n in
    if n.is_directory
    then (n, err eisdir)
    else if count == 0
    then (n, ok 0)
    else (record grown { storage = memcpy grown.storage offset buf 0 count }, ok count)

-- `grow_to` has set the size when the range to clear is computed.
pub truncate : Buffer ℕ → Node → ℕ → Node × Ret
truncate junk n length =
    let grown = grow_to junk length n in
    let cleared = record grown {
      storage = memset grown.storage grown.size 0 (length - grown.size);
    } in
    if n.is_directory
    then (n, err eisdir)
    else ((record (if ltb n.size length then cleared else n) { size = length }), ok 0)

pub data Whence : Type 0 where
  seek_set seek_cur seek_end seek_data seek_hole other : Whence

-- A result of `seek` that is no errno is a 64-bit pattern; the caller reads it as an `isize`.
pub data Sought : Type 0 where
  at : ℕ → Sought
  fails : Errno → Sought

unfoldable pub seek : Node → ℕ → ℕ → Whence → Sought
seek n position offset seek_set = at offset
seek n position offset seek_cur = at (add64 position offset)
seek n position offset seek_end = at (add64 n.size offset)
seek n position offset seek_data = if leb n.size offset then fails enxio else at offset
seek n position offset seek_hole = if leb n.size offset then fails enxio else at n.size
seek n position offset other = fails einval
