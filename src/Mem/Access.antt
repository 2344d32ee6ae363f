-- ===== src/Mem/Access.antt =====
-- mem/vmm.cpp: `access_memory`, the copy from the memory of an address space, page by page, with
-- `get_physical_addr`. The physical memory is one function; a page that a fault brings in has its contents in it.
-- The direction that writes differs in the arguments of memcpy alone.
pub mod Bytes
mod Tests
use saba_os.Base.{
  ℕ, zero, suc, ◌+◌, ◌-◌, ◌*◌, ◌/◌, ◌%◌, ◌^◌, Bool, if◌then◌else◌, ltb, leb, ◌==◌, Option, none,
  some, Ret, ok, err, efault, Buffer, memcpy, page_size, sub64,
}

-- A pagemap: the leaf entry for a page number, which is 0 where there is no table for it, and what
-- `handle_page_fault` gives for an address; none is EFAULT.
pub record Pagemap : Type 0 where
  pub page_table_entry : ℕ → ℕ
  pub fault : ℕ → Option ℕ

-- The entry that `find_page_table_entry` comes to.
abbrev pub entry_of : Pagemap → ℕ → ℕ
entry_of p virt = p.page_table_entry (virt / 2 ^ 12 % 2 ^ 36)

abbrev pub is_present : ℕ → Bool
is_present entry = entry % 2 == 1

-- The physical address of the page, without the offset in it.
unfoldable pub get_physical_addr : Pagemap → ℕ → Option ℕ
get_physical_addr p virt =
    if is_present (entry_of p virt)
    then some (entry_of p virt / 2 ^ 12 % 2 ^ 40 * 2 ^ 12)
    else p.fault virt

-- klib::align_down(x, PAGE_SIZE)
abbrev pub page_of : ℕ → ℕ
page_of virt = virt / page_size * page_size

-- Where the bytes of the interval begin in a page, and how many there are.
pub offset_in : ℕ → ℕ → ℕ
offset_in start page_virt = if ltb page_virt start then start - page_virt else 0

pub bytes_in_page : ℕ → ℕ → ℕ → ℕ
bytes_in_page start end page_virt =
    let bytes = page_size - offset_in start page_virt in
    if leb end (page_virt + page_size) then sub64 bytes (page_virt + page_size - end) else bytes

-- The result when a page is not there.
abbrev pub stopped_at : ℕ → Ret
stopped_at transferred = if transferred == 0 then err efault else ok transferred

-- The turn of a page that is translated to `phy`, or is not; `rest` is the rest of the loop.
pub copy_page :
    Buffer ℕ → Buffer ℕ → ℕ → ℕ → ℕ → (ℕ → Buffer ℕ → Buffer ℕ × Ret) → Option ℕ → Buffer ℕ × Ret
copy_page memory target transferred offset bytes rest none = (target, stopped_at transferred)
copy_page memory target transferred offset bytes rest (some phy) =
    rest (transferred + bytes) (memcpy target transferred memory (phy + offset) bytes)

module _ (p : Pagemap) (memory : Buffer ℕ) (start end : ℕ) where
  -- The loop, for as many pages as are left.
  pub read_pages : ℕ → ℕ → ℕ → Buffer ℕ → Buffer ℕ × Ret
  read_pages zero page_virt transferred target = (target, ok transferred)
  read_pages (suc pages) page_virt transferred target =
      let bytes = bytes_in_page start end page_virt in
      let copied =
        copy_page memory target transferred (offset_in start page_virt) bytes
          (read_pages pages (page_virt + page_size)) (get_physical_addr p page_virt) in
      if bytes == 0 then (target, ok transferred) else copied

-- `access_memory` with `write` false.
pub access_memory : Pagemap → Buffer ℕ → ℕ → Buffer ℕ → ℕ → Buffer ℕ × Ret
access_memory p memory virt target count =
    let end = virt + count in
    read_pages p memory virt end (end / page_size - virt / page_size + 1) (page_of virt) 0 target
