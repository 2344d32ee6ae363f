-- ===== src/Mem/Pmm/Contiguous.antt =====
-- A run of pages: the search in a region, and what taking the run does.
use saba_os.Base.{
  ℕ, zero, suc, ◌+◌, ◌-◌, ◌≡◌, ◌≢◌, ◌<◌, ◌≤◌, ◌⊎◌, inl, inr, refl, subst, ap₂, update, ◌∙◌, ap,
  Bool, true, false, ◌&&◌, leb, sub64, Bool-cases, eq_or_ne, update_self, update_other, ◌==◌, List,
  [], ◌∷◌, Option, none, some, length, Buffer, arith, leb→le, bit, occurrences,
}
use saba_os.Mem.Pmm.{
  Page, Pmm, Region, remove, take_run, first_taken, after_window, find_run, num_pages_usable, frame,
}
use saba_os.Mem.Pmm.Invariant.{IsValid}

occurrences-remove_self : (p : ℕ) (xs : List ℕ) → occurrences p (remove p xs) ≡ occurrences p xs - 1
unfolding occurrences remove
occurrences-remove_self p [] = refl
occurrences-remove_self p (x ∷ xs) = elim (Bool-cases (x == p)) [
  | inl same ↦ rw same (omega arith)
  | inr other ↦ rw (other, occurrences) (rw other (omega (arith, occurrences-remove_self p xs)))
]

occurrences-remove_other :
    (q p : ℕ) (xs : List ℕ) → q ≢ p → occurrences q (remove p xs) ≡ occurrences q xs
unfolding occurrences remove
occurrences-remove_other q p [] ne = refl
occurrences-remove_other q p (x ∷ xs) ne = elim (Bool-cases (x == p)) [
  | inl same ↦ let e : (x == q) ≡ false = grind (arith, same, ne) in rw (same, e) (omega arith)
  | inr other ↦
      rw (other, occurrences) (ap (λ n. bit (x == q) + n) (occurrences-remove_other q p xs ne))
]

length-remove : (p : ℕ) (xs : List ℕ) → 0 < occurrences p xs → length xs ≡ length (remove p xs) + 1
unfolding occurrences remove
length-remove p [] h = absurd (omega arith)
length-remove p (x ∷ xs) h = elim (Bool-cases (x == p)) [
  | inl same ↦ rw same (omega arith)
  | inr other ↦
      let h' = subst (λ b. 0 < bit b + occurrences p xs) other h in
      rw other (omega (arith, length-remove p xs (omega (arith, h'))))
]

-- The frames from `pfn` on, `n` of them.
abbrev pub Within : ℕ → ℕ → ℕ → Type 0
Within pfn n q = (pfn ≤ q) × (q < pfn + n)

module _ (managed : ℕ → Bool) where
  -- What taking a run of `n` frames from `pfn` on does.
  pub record RunTaken (pfn n : ℕ) (m m' : Pmm) : Type 0 where
    pub valid : IsValid managed m'
    pub inside : (q : ℕ) → Within pfn n q → (m'.pages q).free ≡ false
    pub outside : (q : ℕ) → (q < pfn) ⊎ (pfn + n ≤ q) → m'.pages q ≡ m.pages q
    pub fewer : m.total_free_pages ≡ m'.total_free_pages + n

  pub take_run-RunTaken :
      (pfn n : ℕ) (m : Pmm)
      → IsValid managed m
      → ((q : ℕ) → Within pfn n q → managed q ≡ true)
      → ((q : ℕ) → Within pfn n q → (m.pages q).free ≡ true)
      → RunTaken pfn n m (take_run pfn n m)
  unfolding take_run
  take_run-RunTaken pfn zero m v has free = record {
    valid = v;
    inside = λ q w. absurd (omega (arith, w.0, w.1));
    outside = λ q o. refl;
    fewer = omega arith;
  }
  take_run-RunTaken pfn (suc n) m v has free =
      let m1 : Pmm = record m {
        pages = update m.pages pfn (record (m.pages pfn) { free = false });
        page_freelist = remove pfn m.page_freelist;
        total_free_pages = m.total_free_pages - 1;
      } in
      let self = update_self m.pages pfn (record (m.pages pfn) { free = false }) in
      let other = update_other m.pages pfn (record (m.pages pfn) { free = false }) in
      let here =
        v.listed pfn
        ∙ ap₂ (λ a b. bit (a && b)) (has pfn (omega arith, omega arith))
            (free pfn (omega arith, omega arith)) in
      let v1 : IsValid managed m1 = record {
        listed = λ q. elim (eq_or_ne q pfn) [
          | inl same ↦
              rw
                (
                  same,
                  self,
                  occurrences-remove_self pfn m.page_freelist,
                  here,
                  has pfn (omega arith, omega arith),
                )
                refl
          | inr ne ↦ rw (other q ne, occurrences-remove_other q pfn m.page_freelist ne) (v.listed q)
        ];
        count = omega (arith, v.count, length-remove pfn m.page_freelist (omega (arith, here)));
      } in
      let rest =
        take_run-RunTaken (pfn + 1) n m1 v1 (λ q w. has q (omega (arith, w.0), omega (arith, w.1)))
          (λ q w.
            ap (λ (p : Page). p.free) (other q (omega (arith, w.0)))
            ∙ free q (omega (arith, w.0), omega (arith, w.1))) in
      record {
        valid = rest.valid;
        inside = λ q w. elim (eq_or_ne q pfn) [
          | inl same ↦
              rw same (ap (λ (p : Page). p.free) (rest.outside pfn (inl (omega arith)) ∙ self))
          | inr ne ↦ rest.inside q (omega (arith, w.0, ne), omega (arith, w.1))
        ];
        outside = λ q o.
            rest.outside q
              (elim o [ inl before ↦ inl (omega arith) | inr after ↦ inr (omega arith) ])
            ∙ other q (elim o [ inl before ↦ λ e. omega arith | inr after ↦ λ e. omega arith ]);
        fewer =
            omega
              (arith, rest.fewer, v.count, length-remove pfn m.page_freelist (omega (arith, here)));
      }

-- What the search of a region from index `low` on ends with, when windows begin at most at `bound`.
pub data RunSearch (pages : Buffer Page) (r : Region) (n low bound : ℕ) : Option ℕ → Type 0 where
  found :
      (k : ℕ)
      → low ≤ k
      → k ≤ bound
      → ((q : ℕ) → Within (frame r k) n q → (pages q).free ≡ true)
      → RunSearch pages r n low bound (some k)
  nowhere :
      ((k : ℕ) → low ≤ k → k ≤ bound → (q : ℕ) × Within (frame r k) n q × ((pages q).free ≡ false))
      → RunSearch pages r n low bound none

-- What the inner loop finds in the `n` pages from `pfn` on, `j` before them.
data Scan (pages : Buffer Page) (pfn j n : ℕ) : Option ℕ → Type 0 where
  all_free : ((q : ℕ) → Within pfn n q → (pages q).free ≡ true) → Scan pages pfn j n none
  stops : (d : ℕ) → d < n → (pages (pfn + d)).free ≡ false → Scan pages pfn j n (some (j + d))

first_taken-Scan :
    (pages : Buffer Page) (pfn j n : ℕ) → Scan pages pfn j n (first_taken pages pfn j n)
unfolding first_taken
first_taken-Scan pages pfn j zero = all_free (λ q w. absurd (omega (arith, w.0, w.1)))
first_taken-Scan pages pfn j (suc n) = elim (Bool-cases (pages pfn).free) [
  | inl free ↦ rw free (later free (first_taken-Scan pages (pfn + 1) (j + 1) n))
  | inr used ↦
      let e : j + 0 ≡ j = omega arith in
      let e' : pfn + 0 ≡ pfn = omega arith in
      rw used
        (subst (λ k. Scan pages pfn j (suc n) (some k)) e (stops 0 (omega arith) (rw e' used)))
]
  where
    later :
        (pages pfn).free ≡ true
        → {o : Option ℕ} → Scan pages (pfn + 1) (j + 1) n o
        → Scan pages pfn j (suc n) o
    later free (all_free f) = all_free (λ q w. elim (eq_or_ne q pfn) [
      | inl same ↦ rw same free
      | inr ne ↦ f q (omega (arith, w.0, ne), omega (arith, w.1))
    ])
    later free (stops d lt used) =
        let e : j + suc d ≡ j + 1 + d = omega arith in
        let e' : pfn + suc d ≡ pfn + 1 + d = omega arith in
        subst (λ k. Scan pages pfn j (suc n) (some k)) e (stops (suc d) (omega arith) (rw e' used))

-- One window, when what the rest of the search comes to is known.
after_window-RunSearch :
    (pages : Buffer Page) (r : Region) (n i bound : ℕ) (o : Option ℕ) (next : ℕ → Option ℕ)
    → i ≤ bound
    → Scan pages (frame r i) 0 n o
    → ((k : ℕ) → i < k → RunSearch pages r n k bound (next k))
    → RunSearch pages r n i bound (after_window i o next)
unfolding after_window
after_window-RunSearch pages r n i bound _ next le (all_free f) rest = found i (omega arith) le f
after_window-RunSearch pages r n i bound _ next le (stops d lt used) rest =
    lower (rest (i + (0 + d) + 1) (omega arith))
  where
    lower :
        {o : Option ℕ}
        → RunSearch pages r n (i + (0 + d) + 1) bound o
        → RunSearch pages r n i bound o
    lower (found k l u f) = found k (omega arith) u f
    lower (nowhere f) = nowhere (λ k l u. elim (Bool-cases (leb k (i + d))) [
      | inl early ↦ (frame r i + d, (ground (arith, early), ground (arith, early)), used)
      | inr late ↦ f k (ground (arith, late)) u
    ])

pub find_run-RunSearch :
    (fuel : ℕ) (pages : Buffer Page) (r : Region) (n i : ℕ)
    → sub64 (num_pages_usable r) n < i + fuel
    → RunSearch pages r n i (sub64 (num_pages_usable r) n) (find_run fuel pages r n i)
unfolding find_run
find_run-RunSearch zero pages r n i enough = nowhere (λ k l u. absurd (omega arith))
find_run-RunSearch (suc fuel) pages r n i enough =
    elim (Bool-cases (leb i (sub64 (num_pages_usable r) n))) [
      | inl within ↦ rw within (
          after_window-RunSearch pages r n i _ _ _ (leb→le i _ within)
            (first_taken-Scan pages (frame r i) 0 n)
            (λ k lt. find_run-RunSearch fuel pages r n k (omega (arith, enough))))
      | inr past ↦ rw past (nowhere (λ k l u. absurd (ground (arith, past, l, u))))
    ]
