-- ===== src/Mem/Pmm.antt =====
-- mem/pmm.hpp and mem/pmm.cpp: the physical page allocator. A page struct is named by the page frame
-- number that it holds, so that the intrusive free list is a list of these numbers, its head first, and
-- the structs are a function of them. A failed ASSERT and a call of `panic` are `none`. Locks are left out:
-- each operation holds `pmm_lock` from its first statement to its last.
pub mod Invariant
pub mod Contiguous
pub mod Regions
mod Tests
use saba_os.Base.{
  ℕ, zero, suc, ◌+◌, ◌-◌, ◌*◌, ◌/◌, ◌%◌, ◌^◌, Bool, true, false, ◌&&◌, ◌||◌, not, if◌then◌else◌,
  ltb, leb, ◌==◌, List, [], ◌∷◌, ◌++◌, Option, none, some, add64, sub64, update, Buffer, page_size,
}

-- `Page`, less its link and its number
pub record Page : Type 0 where
  pub free : Bool
  pub mapped_addr : ℕ

-- The region's struct lies at its first page: `base_phy` is the address of that page.
pub record Region : Type 0 where
  pub pfn_start : ℕ
  pub num_pages : ℕ

pub record Pmm : Type 0 where
  pub pages : Buffer Page
  pub page_freelist : List ℕ
  pub region_list : List Region
  pub total_pages_usable : ℕ
  pub total_pages_reserved : ℕ
  pub total_free_pages : ℕ

abbrev pub base_phy : Region → ℕ
base_phy r = r.pfn_start * page_size

abbrev pub end_phy : Region → ℕ
end_phy r = base_phy r + r.num_pages * page_size

-- sizeof(Region) and sizeof(Page) are 32.
abbrev pub num_pages_reserved : Region → ℕ
num_pages_reserved r = (32 + r.num_pages * 32 + page_size - 1) / page_size

abbrev pub num_pages_usable : Region → ℕ
num_pages_usable r = sub64 r.num_pages (num_pages_reserved r)

-- The frame number of `pages_array()[i]`
abbrev pub frame : Region → ℕ → ℕ
frame r i = r.pfn_start + num_pages_reserved r + i

abbrev pub phy : ℕ → ℕ
phy pfn = pfn * page_size

-- The loop of `absorb_memmap_entry`, from index `i` on for `n` structs.
pub add_pages : Region → ℕ → ℕ → Pmm → Pmm
add_pages r i zero m = m
add_pages r i (suc n) m =
    let pfn = frame r i in
    add_pages r (i + 1) n (record m {
      pages = update m.pages pfn (record (m.pages pfn) { free = true });
      page_freelist = m.page_freelist ++ (pfn ∷ []);
      total_free_pages = m.total_free_pages + 1;
    })

pub absorb_memmap_entry : ℕ → ℕ → Pmm → Pmm
absorb_memmap_entry base length m =
    let start = base / page_size in
    let pfn_start = if base % page_size == 0 then start else start + 1 in
    let last = start + length / page_size in
    let pfn_end = if length % page_size == 0 then last else sub64 last 1 in
    let region : Region = record { pfn_start = pfn_start; num_pages = sub64 pfn_end pfn_start } in
    add_pages region 0 (num_pages_usable region) (record m {
      region_list = m.region_list ++ (region ∷ []);
      total_pages_reserved = m.total_pages_reserved + num_pages_reserved region;
    })

-- `limine_memmap_entry`; `usable` is its type's test.
pub record Entry : Type 0 where
  pub usable : Bool
  pub base : ℕ
  pub length : ℕ

pub absorb_all : List Entry → Pmm → Pmm
absorb_all [] m = m
absorb_all (e ∷ es) m =
    absorb_all es (if e.usable then absorb_memmap_entry e.base e.length m else m)

pub init : Buffer Page → List Entry → Pmm
init junk entries =
    let m = absorb_all entries (record {
      pages = junk;
      page_freelist = [];
      region_list = [];
      total_pages_usable = 0;
      total_pages_reserved = 0;
      total_free_pages = 0;
    }) in
    record m { total_pages_usable = m.total_free_pages }

-- What a search ends with: the frame number of a struct, a null pointer, or a failed ASSERT.
pub data Search : Type 0 where
  page : ℕ → Search
  missing : Search
  asserts : Search

pub find_in : List Region → ℕ → Search
find_in [] at = missing
find_in (r ∷ rs) at =
    let rest = find_in rs at in
    let offset_pages = (at - base_phy r) / page_size in
    let pfn = frame r (offset_pages - num_pages_reserved r) in
    if ltb at (base_phy r) || ltb (end_phy r) at
    then rest
    else if ltb offset_pages (num_pages_reserved r)
    then missing
    else if phy pfn == at
    then page pfn
    else asserts

pub find_page : Pmm → ℕ → Search
find_page m at = find_in m.region_list at

-- The page's frame number.
pub alloc_head : List ℕ → Pmm → Option (Pmm × ℕ)
alloc_head [] m = none
alloc_head (pfn ∷ rest) m =
    if (m.pages pfn).free
    then some (
      record m {
        pages = update m.pages pfn (record (m.pages pfn) { free = false });
        page_freelist = rest;
        total_free_pages = m.total_free_pages - 1;
      },
      pfn,
    )
    else none

pub alloc_page : Pmm → Option (Pmm × ℕ)
alloc_page m = alloc_head m.page_freelist m

pub free_page : ℕ → Pmm → Option Pmm
free_page pfn m =
    if not (m.pages pfn).free
    then some (record m {
      pages = update m.pages pfn (record { free = true; mapped_addr = 0 });
      page_freelist = pfn ∷ m.page_freelist;
      total_free_pages = m.total_free_pages + 1;
    })
    else none

-- `page->link.remove()`
pub remove : ℕ → List ℕ → List ℕ
remove pfn [] = []
remove pfn (x ∷ xs) = if x == pfn then xs else x ∷ remove pfn xs

-- The loop that takes `n` pages from frame `pfn` on.
pub take_run : ℕ → ℕ → Pmm → Pmm
take_run pfn zero m = m
take_run pfn (suc n) m = take_run (pfn + 1) n (record m {
  pages = update m.pages pfn (record (m.pages pfn) { free = false });
  page_freelist = remove pfn m.page_freelist;
  total_free_pages = m.total_free_pages - 1;
})

-- The inner loop over `n` pages, `j` before them: the index of the first page that is not free.
pub first_taken : Buffer Page → ℕ → ℕ → ℕ → Option ℕ
first_taken pages pfn j zero = none
first_taken pages pfn j (suc n) =
    let rest = first_taken pages (pfn + 1) (j + 1) n in if (pages pfn).free then rest else some j

-- `i += j`, and the `i++` of the loop, when the window has a page that is taken.
pub after_window : ℕ → Option ℕ → (ℕ → Option ℕ) → Option ℕ
after_window i none next = some i
after_window i (some j) next = next (i + j + 1)

-- The outer loop of one region, on fuel: the index at which a run of free pages begins.
pub find_run : ℕ → Buffer Page → Region → ℕ → ℕ → Option ℕ
find_run zero pages r num_pages i = none
find_run (suc fuel) pages r num_pages i =
    let found =
      after_window i (first_taken pages (frame r i) 0 num_pages)
        (λ k. find_run fuel pages r num_pages k) in
    if leb i (sub64 (num_pages_usable r) num_pages) then found else none

-- The physical address of the run, when the region has one.
pub alloc_at : ℕ → Pmm → Region → Option ℕ → Pmm × ℕ → Pmm × ℕ
alloc_at num_pages m r none others = others
alloc_at num_pages m r (some i) others = (take_run (frame r i) num_pages m, phy (frame r i))

pub alloc_from : List Region → ℕ → Pmm → Pmm × ℕ
alloc_from [] num_pages m = (m, 0)
alloc_from (r ∷ rs) num_pages m =
    alloc_at num_pages m r (find_run (num_pages_usable r + 1) m.pages r num_pages 0)
      (alloc_from rs num_pages m)

pub alloc_contiguous_pages : ℕ → Pmm → Pmm × ℕ
alloc_contiguous_pages num_pages m = alloc_from m.region_list num_pages m

pub free_found : Search → Pmm → Option Pmm
free_found (page pfn) m = free_page pfn m
free_found missing m = some m
free_found asserts m = none

pub free_contiguous_pages : ℕ → ℕ → Pmm → Option Pmm
free_contiguous_pages base zero m = some m
free_contiguous_pages base (suc n) m = elim (free_found (find_page m base) m) [
  | none ↦ none
  | some m' ↦ free_contiguous_pages (base + page_size) n m'
]
