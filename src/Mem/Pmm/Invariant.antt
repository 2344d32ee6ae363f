-- ===== src/Mem/Pmm/Invariant.antt =====
-- The free list and the flags of the page structs agree, and what taking and giving back one page does.
use saba_os.Base.{
  ℕ, suc, ◌+◌, ◌≡◌, ◌≢◌, ◌<◌, inl, inr, refl, sym, ◌∙◌, ap, eq_or_ne, update_self, update_other,
  Bool, true, false, ◌&&◌, List, [], ◌∷◌, Option, none, some, length, arith, bit, occurrences,
  occurrences_self, occurrences_other,
}
use saba_os.Mem.Pmm.{Page, Pmm, alloc_page, alloc_head, free_page}

-- `managed` tells the frames that have a struct.
module _ (managed : ℕ → Bool) where
  -- A frame stands in the free list once if it has a struct that is marked free, and else not at all;
  -- the count of free pages is the length of the list.
  pub record IsValid (m : Pmm) : Type 0 where
    pub listed :
        (pfn : ℕ) → occurrences pfn m.page_freelist ≡ bit (managed pfn && (m.pages pfn).free)
    pub count : m.total_free_pages ≡ length m.page_freelist

  -- The struct of a listed frame exists and is marked free.
  listed-head :
      (m : Pmm) (pfn : ℕ)
      → IsValid m
      → 0 < occurrences pfn m.page_freelist
      → (managed pfn ≡ true) × ((m.pages pfn).free ≡ true)
  listed-head m pfn v h = both (managed pfn) (m.pages pfn).free (v.listed pfn) h
    where
      both : {n : ℕ} (a b : Bool) → n ≡ bit (a && b) → 0 < n → (a ≡ true) × (b ≡ true)
      both true true e h = (refl, refl)
      both true false e h = absurd (omega arith)
      both false b e h = absurd (omega arith)

  -- What a successful `alloc_page` gives: a frame that was free and is taken now, all else as before.
  pub record Taken (m : Pmm) (pfn : ℕ) (m' : Pmm) : Type 0 where
    pub valid : IsValid m'
    pub has_struct : managed pfn ≡ true
    pub was_free : (m.pages pfn).free ≡ true
    pub is_taken : (m'.pages pfn).free ≡ false
    pub others : (q : ℕ) → q ≢ pfn → m'.pages q ≡ m.pages q
    pub fewer : m.total_free_pages ≡ m'.total_free_pages + 1

  -- The result of `alloc_page`: `none`, a panic, only when there is no free page.
  pub data Allocation (m : Pmm) : Option (Pmm × ℕ) → Type 0 where
    exhausted : m.page_freelist ≡ [] → Allocation m none
    taken : (m' : Pmm) (pfn : ℕ) → Taken m pfn m' → Allocation m (some (m', pfn))

  mark_taken :
      (managed? free : Bool) (n : ℕ) → suc n ≡ bit (managed? && free) → n ≡ bit (managed? && false)
  mark_taken true true n e = omega (arith, e)
  mark_taken true false n e = absurd (omega (arith, e))
  mark_taken false free n e = absurd (omega (arith, e))

  alloc_head-Allocation :
      (xs : List ℕ) (m : Pmm) → m.page_freelist ≡ xs → IsValid m → Allocation m (alloc_head xs m)
  unfolding alloc_head occurrences
  alloc_head-Allocation [] m e v = exhausted e
  alloc_head-Allocation (p ∷ rest) m e v =
      let l = sym (occurrences_self p rest) ∙ ap (occurrences p) (sym e) ∙ v.listed p in
      let h = listed-head m p v (rw (e, occurrences_self p rest) (omega arith)) in
      let self = λ (q : Page). update_self m.pages p q in
      simp h.1 (
        taken _ p (record {
          valid = record {
            listed = λ q. elim (eq_or_ne q p) [
              | inl same ↦
                  rw (same, self (record (m.pages p) { free = false }))
                    (mark_taken (managed p) (m.pages p).free (occurrences p rest) l)
              | inr ne ↦
                  rw (update_other m.pages p (record (m.pages p) { free = false }) q ne)
                    (sym (occurrences_other q p rest ne) ∙ ap (occurrences q) (sym e) ∙ v.listed q)
            ];
            count = omega (arith, v.count, ap length e);
          };
          has_struct = h.0;
          was_free = h.1;
          is_taken = ap (λ (q : Page). q.free) (self (record (m.pages p) { free = false }));
          others = λ q ne. update_other m.pages p (record (m.pages p) { free = false }) q ne;
          fewer = omega (arith, v.count, ap length e);
        }))

  -- `alloc_page` on a valid state panics only when no page is free, never at its assertion. Otherwise it
  -- gives a frame with a struct that was marked free and is marked taken now, one free page is counted
  -- less, no other struct changes, and the state is valid again.
  pub alloc_page_lem : (m : Pmm) → IsValid m → Allocation m (alloc_page m)
  unfolding alloc_page
  alloc_page_lem m v = alloc_head-Allocation m.page_freelist m refl v

  mark_free :
      (managed? free : Bool) (n : ℕ)
      → managed? ≡ true
      → free ≡ false
      → n ≡ bit (managed? && free)
      → suc n ≡ bit (managed? && true)
  mark_free true false n h h' e = omega (arith, e)
  mark_free false free n h h' e = absurd (ground (arith, h))
  mark_free true true n h h' e = absurd (ground (arith, h'))

  -- What a page that comes back leaves.
  pub record Returned (m : Pmm) (pfn : ℕ) (m' : Pmm) : Type 0 where
    pub valid : IsValid m'
    pub is_free : (m'.pages pfn).free ≡ true
    pub unmapped : (m'.pages pfn).mapped_addr ≡ 0
    pub others : (q : ℕ) → q ≢ pfn → m'.pages q ≡ m.pages q
    pub next : m'.page_freelist ≡ pfn ∷ m.page_freelist

  -- Giving back a taken frame that has a struct does not fail in a valid state: its struct is free and
  -- unmapped, no other struct changes, the state is valid again, and the next `alloc_page` gives this
  -- frame and the free list from before.
  pub alloc_page-free_page :
      (m : Pmm) (pfn : ℕ)
      → IsValid m
      → managed pfn ≡ true
      → (m.pages pfn).free ≡ false
      → (m' : Pmm) × (free_page pfn m ≡ some m')
        × Returned m pfn m'
        × ((m'' : Pmm) × (alloc_page m' ≡ some (m'', pfn)) × (m''.page_freelist ≡ m.page_freelist))
  unfolding free_page alloc_page alloc_head
  alloc_page-free_page m pfn v h used =
      let self = update_self m.pages pfn in
      let other = update_other m.pages pfn (record { free = true; mapped_addr = 0 }) in
      simp used (
        _,
        refl,
        record {
          valid = record {
            listed = λ q. elim (eq_or_ne q pfn) [
              | inl same ↦
                  rw
                    (
                      same,
                      occurrences_self pfn m.page_freelist,
                      self (record { free = true; mapped_addr = 0 }),
                    )
                    (mark_free (managed pfn) (m.pages pfn).free _ h used (v.listed pfn))
              | inr ne ↦ rw (occurrences_other q pfn m.page_freelist ne, other q ne) (v.listed q)
            ];
            count = omega (arith, v.count);
          };
          is_free = ap (λ (p : Page). p.free) (self (record { free = true; mapped_addr = 0 }));
          unmapped =
              ap (λ (p : Page). p.mapped_addr) (self (record { free = true; mapped_addr = 0 }));
          others = other;
          next = refl;
        },
        rw (self (record { free = true; mapped_addr = 0 })) (_, refl, refl),
      )
