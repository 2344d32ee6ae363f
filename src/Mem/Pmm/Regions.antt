-- ===== src/Mem/Pmm/Regions.antt =====
-- `alloc_contiguous_pages` over all regions.
use saba_os.Base.{
  ℕ, ◌+◌, ◌-◌, ◌^◌, ◌≡◌, ◌<◌, ◌≤◌, subst, Bool, true, false, List, [], ◌∷◌, Option, All, sub64,
  arith,
}
use saba_os.Mem.Pmm.{
  Pmm, Region, alloc_at, alloc_from, alloc_contiguous_pages, num_pages_usable, frame, phy,
}
use saba_os.Mem.Pmm.Invariant.{IsValid}
use saba_os.Mem.Pmm.Contiguous.{
  Within, RunTaken, take_run-RunTaken, RunSearch, found, nowhere, find_run-RunSearch,
}

-- The region can hold `n` pages.
unfoldable pub HasRoom : ℕ → Region → Type 0
HasRoom n r = n ≤ num_pages_usable r

-- Every run of `n` usable pages of the region has a page that is taken.
pub HasNoRun : Pmm → ℕ → Region → Type 0
HasNoRun m n r =
    (k : ℕ)
    → k + n ≤ num_pages_usable r
    → (q : ℕ) × Within (frame r k) n q × ((m.pages q).free ≡ false)

module _ (managed : ℕ → Bool) where
  -- The usable pages of the region have structs.
  unfoldable pub IsManaged : Region → Type 0
  IsManaged r = (i : ℕ) → i < num_pages_usable r → managed (frame r i) ≡ true

  -- What `alloc_contiguous_pages` comes to.
  pub data RunAllocation (m : Pmm) (n : ℕ) (rs : List Region) : Pmm × ℕ → Type 0 where
    got :
        (pfn : ℕ) (m' : Pmm)
        → ((q : ℕ) → Within pfn n q → (m.pages q).free ≡ true)
        → RunTaken managed pfn n m m'
        → RunAllocation m n rs (m', phy pfn)
    none_left : All (HasNoRun m n) rs → RunAllocation m n rs (m, 0)

  exact : (u n : ℕ) → u < 2 ^ 64 → n ≤ u → sub64 u n ≡ u - n
  exact u n lt le = omega arith

  alloc_at-RunAllocation :
      (m : Pmm) (n : ℕ) (r : Region) (rs : List Region) (o : Option ℕ) (others : Pmm × ℕ)
      → IsValid managed m
      → HasRoom n r
      → IsManaged r
      → RunSearch m.pages r n 0 (sub64 (num_pages_usable r) n) o
      → RunAllocation m n rs others
      → RunAllocation m n (r ∷ rs) (alloc_at n m r o others)
  unfolding alloc_at HasRoom IsManaged HasNoRun
  alloc_at-RunAllocation m n r rs _ others v room has (found k l u free) rest =
      let e = exact (num_pages_usable r) n (omega arith) room in
      got (frame r k) _ free (
        take_run-RunTaken managed (frame r k) n m v
          (λ q w.
            let place : frame r (q - frame r k + k) ≡ q = omega (arith, w.0) in
            subst (λ p. managed p ≡ true) place
              (has (q - frame r k + k) (omega (arith, w.0, w.1, u, e, room))))
          free)
  alloc_at-RunAllocation m n r rs _ _ v room has (nowhere f) (got pfn m' free t) = got pfn m' free t
  alloc_at-RunAllocation m n r rs _ _ v room has (nowhere f) (none_left g) =
      let e = exact (num_pages_usable r) n (omega arith) room in
      none_left ((λ k le. f k (omega arith) (omega (arith, e, le))), g)

  alloc_from-RunAllocation :
      (rs : List Region) (m : Pmm) (n : ℕ)
      → IsValid managed m
      → All (HasRoom n) rs
      → All IsManaged rs
      → RunAllocation m n rs (alloc_from rs n m)
  unfolding alloc_from HasRoom
  alloc_from-RunAllocation [] m n v room has = none_left tt
  alloc_from-RunAllocation (r ∷ rs) m n v (room, rooms) (has, hass) =
      let e = exact (num_pages_usable r) n (omega arith) room in
      alloc_at-RunAllocation m n r rs _ _ v room has
        (find_run-RunSearch (num_pages_usable r + 1) m.pages r n 0 (omega (arith, e)))
        (alloc_from-RunAllocation rs m n v rooms hass)

  -- When every region has at least as many usable pages as are asked for, all of them with structs, a
  -- valid state either gives the address of a run of frames that were all free and are all taken now,
  -- counted off, with every other struct as before and the state valid; or it gives 0 and the same state,
  -- and then every run of that length in every region has a page that is taken.
  pub alloc_contiguous_pages_lem :
      (m : Pmm) (n : ℕ)
      → IsValid managed m
      → All (HasRoom n) m.region_list
      → All IsManaged m.region_list
      → RunAllocation m n m.region_list (alloc_contiguous_pages n m)
  unfolding alloc_contiguous_pages
  alloc_contiguous_pages_lem m n v room has = alloc_from-RunAllocation m.region_list m n v room has
