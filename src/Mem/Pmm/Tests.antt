-- ===== src/Mem/Pmm/Tests.antt =====
-- One region of five pages from frame 16 on: its first page holds the structs, and frame 18 is taken.
use saba_os.Base.{ℕ, ◌≡◌, refl, Bool, ◌&&◌, not, leb, ◌==◌, [], ◌∷◌, some, occurrences, arith}
use saba_os.Mem.Pmm.{Pmm, alloc_page, free_page, alloc_contiguous_pages}
use saba_os.Mem.Pmm.Invariant.{IsValid, Allocation, Returned, alloc_page_lem, alloc_page-free_page}
use saba_os.Mem.Pmm.Regions.{HasRoom, IsManaged, RunAllocation, alloc_contiguous_pages_lem}

abbrev managed : ℕ → Bool
managed q = leb 17 q && leb q 20

abbrev sample : Pmm
sample = record {
  pages = λ q. record { free = not (q == 18); mapped_addr = 0 };
  page_freelist = 17 ∷ 19 ∷ 20 ∷ [];
  region_list = record { pfn_start = 16; num_pages = 5 } ∷ [];
  total_pages_usable = 4;
  total_pages_reserved = 1;
  total_free_pages = 3;
}

sample-IsValid : IsValid managed sample
unfolding occurrences
sample-IsValid = record { listed = λ q. ground arith; count = refl }

alloc_page_example : Allocation managed sample (alloc_page sample)
alloc_page_example = alloc_page_lem managed sample sample-IsValid

alloc_page-free_page_example :
    (m' : Pmm) × (free_page 18 sample ≡ some m')
    × Returned managed sample 18 m'
    × ((m'' : Pmm) × (alloc_page m' ≡ some (m'', 18)) × (m''.page_freelist ≡ 17 ∷ 19 ∷ 20 ∷ []))
alloc_page-free_page_example = alloc_page-free_page managed sample 18 sample-IsValid refl refl

region-HasRoom : HasRoom 2 (record { pfn_start = 16; num_pages = 5 })
unfolding HasRoom
region-HasRoom = omega arith

region-IsManaged : IsManaged managed (record { pfn_start = 16; num_pages = 5 })
unfolding IsManaged
region-IsManaged i lt = ground arith

alloc_contiguous_pages_example :
    RunAllocation managed sample 2 sample.region_list (alloc_contiguous_pages 2 sample)
alloc_contiguous_pages_example =
    alloc_contiguous_pages_lem managed sample 2 sample-IsValid (region-HasRoom, tt)
      (region-IsManaged, tt)
