-- ===== src/Mem/Ranges/Calls.antt =====
-- mem/vmm.cpp: the calls that look up, map, unmap and change the ranges of a process. `none` is a call that
-- had no fuel left, or a resolution of overlaps that did not end.
pub mod Protect
pub mod Lookup
pub mod Unmap
use saba_os.Base.{
  ℕ, zero, suc, ◌+◌, ◌-◌, ◌/◌, ◌%◌, ◌^◌, Bool, true, false, ◌&&◌, if◌then◌else◌, ltb, leb, ◌==◌,
  not, List, [], ◌∷◌, ◌++◌, Option, none, some, add64, sub64, page_size, Ret, ok, err, enomem,
  einval, ebadf, eacces,
}
use saba_os.Klib.Algorithm.{align_up, max_of}
use saba_os.Mem.Ranges.{
  MappedRange, Kind, direct, anonymous, file_backed, Request, Effect, invalidate, end, add_range,
}

-- The ranges of a `Pagemap` with the cache of its lookups, and the bounds that a `Process` keeps.
pub record Space : Type 0 where
  pub ranges : List MappedRange
  pub cached : Option MappedRange
  pub mmap_anon_base : ℕ
  pub brk : ℕ
  pub effects : List Effect

pub record Prot : Type 0 where
  pub write : Bool
  pub exec : Bool

-- PAGE_PRESENT, PAGE_USER, PAGE_WRITABLE and PAGE_NO_EXECUTE are distinct bits.
pub mmap_prot_to_page_flags : Prot → ℕ
mmap_prot_to_page_flags prot = 5 + (if prot.write then 2 else 0) + (if prot.exec then 0 else 2 ^ 63)

unfoldable pub page_up : ℕ → ℕ
page_up n = align_up n page_size % 2 ^ 64

unfoldable pub in_range : ℕ → MappedRange → Bool
in_range virt r = leb r.base virt && ltb virt (end r)

unfoldable pub find_range : List MappedRange → ℕ → Option MappedRange
find_range [] virt = none
find_range (r ∷ rs) virt = let rest = find_range rs virt in if in_range virt r then some r else rest

pub remember : Space → Option MappedRange → Option MappedRange → Space × Option MappedRange
remember s (some r) other = (record s { cached = some r }, some r)
remember s none (some r) = (record s { cached = some r }, some r)
remember s none none = (s, none)

pub from_cache : Option MappedRange → ℕ → Option MappedRange
from_cache none virt = none
from_cache (some r) virt = if in_range virt r then some r else none

-- `kernel` is the ranges of the kernel's pagemap, looked up after the process's own.
module _ (kernel : List MappedRange) where
  pub search_ranges : Space → ℕ → Space × Option MappedRange
  search_ranges s virt = remember s (find_range s.ranges virt) (find_range kernel virt)

  pub cache_or : Space → ℕ → Option MappedRange → Space × Option MappedRange
  cache_or s virt (some r) = (s, some r)
  cache_or s virt none = search_ranges s virt

  pub addr_to_range : Space → ℕ → Space × Option MappedRange
  addr_to_range s virt = cache_or s virt (from_cache s.cached virt)

pub with_added : Space → Option (List MappedRange × List Effect) → Option Space
with_added s none = none
with_added s (some (rs, es)) =
    some (record s { ranges = rs; cached = none; effects = s.effects ++ es })

pub call_add_range : Request → Bool → Bool → Space → Option Space
call_add_range q mergeable keep s = with_added s (add_range q mergeable keep s.ranges)

abbrev pub unmapping : ℕ → ℕ → Request
unmapping base length = record {
  base = base;
  length = length;
  page_flags = 0;
  type = none;
  phy_base = 0;
  file = none;
  file_offset = 0;
}

abbrev pub anonymous_at : ℕ → ℕ → ℕ → Request
anonymous_at base length flags = record {
  base = base;
  length = length;
  page_flags = flags;
  type = some anonymous;
  phy_base = 0;
  file = none;
  file_offset = 0;
}

pub map_anonymous : ℕ → ℕ → ℕ → Bool → Space → Option Space
map_anonymous base length flags keep s = call_add_range (anonymous_at base length flags) true keep s

pub map_direct : ℕ → ℕ → ℕ → ℕ → Space → Option Space
map_direct base length flags phy_base s =
    call_add_range
      (record {
        base = base;
        length = length;
        page_flags = flags;
        type = some direct;
        phy_base = phy_base;
        file = none;
        file_offset = 0;
      })
      false false s

pub map_file : ℕ → ℕ → ℕ → ℕ → ℕ → Space → Option Space
map_file base length flags file file_offset s =
    call_add_range
      (record {
        base = base;
        length = length;
        page_flags = flags;
        type = some file_backed;
        phy_base = 0;
        file = some file;
        file_offset = file_offset;
      })
      false false s

-- The result of a call after the ranges are changed.
pub finish : (Space → Space × Ret) → Option Space → Option (Space × Ret)
finish f none = none
finish f (some s) = some (f s)

pub lower_base : ℕ → ℕ → Space → Space × Ret
lower_base addr length s =
    (if s.mmap_anon_base == add64 addr length then record s { mmap_anon_base = addr } else s, ok 0)

pub syscall_munmap : ℕ → ℕ → Space → Option (Space × Ret)
syscall_munmap addr length s =
    let aligned = page_up length in
    if addr % page_size == 0
    then finish (lower_base addr aligned) (call_add_range (unmapping addr aligned) false false s)
    else some (s, err einval)

-- mmap with MAP_ANONYMOUS; the other kind hands over to the file's node.
pub choose_base : Bool → ℕ → ℕ → Space → Space × ℕ
choose_base fixed addr size s =
    if fixed
    then (record s { mmap_anon_base = page_up (max_of s.mmap_anon_base (add64 addr size)) }, addr)
    else (record s { mmap_anon_base = add64 s.mmap_anon_base size }, s.mmap_anon_base)

pub mmap_anonymous : ℕ → ℕ → Prot → Bool → Space → Option (Space × Ret)
mmap_anonymous addr length prot fixed s =
    let size = page_up length in
    let (s', base) = choose_base fixed addr size s in
    if length == 0
    then some (s, err einval)
    else finish (λ t. (t, ok base))
        (map_anonymous base size (mmap_prot_to_page_flags prot) (not fixed) s')

abbrev pub read_write : ℕ
read_write = mmap_prot_to_page_flags (record { write = true; exec = false })

pub set_brk : ℕ → Space → Space × Ret
set_brk new s = (record s { brk = new }, ok new)

pub syscall_brk : ℕ → Space → Option (Space × Ret)
syscall_brk new s =
    let old_page = page_up s.brk in
    let new_page = page_up new in
    if new == 0
    then some (s, ok s.brk)
    else if ltb old_page new_page
    then finish (set_brk new) (map_anonymous old_page (new_page - old_page) read_write true s)
    else if ltb new_page old_page
    then finish (set_brk new)
        (call_add_range (unmapping new_page (old_page - new_page)) false false s)
    else some (set_brk new s)
