-- ===== src/Mem/Ranges/Cover.antt =====
-- mem/vmm.cpp: which ranges hold an address, and how an insertion changes that.
use saba_os.Base.{
  ℕ, ◌+◌, ◌^◌, ◌<◌, ◌≤◌, ◌≡◌, refl, ◌⊎◌, inl, inr, Bool, true, ◌&&◌, ltb, leb, List, [], ◌∷◌, ◌++◌,
  All, Option, none, bit, sub64, arith, Bool-cases,
}
use saba_os.Mem.Ranges.{
  MappedRange, Kind, direct, anonymous, file_backed, direct_virtual, fits, insert, place,
}

-- What backs the addresses of a range.
pub record Backing : Type 0 where
  pub kind : Kind
  pub page_flags : ℕ
  pub file : Option ℕ
  -- what the addresses of the range have in common: how far the offset in the file, or the physical
  -- address, is ahead of the address
  pub place : ℕ

unfoldable pub place_of : Kind → ℕ → ℕ → ℕ → ℕ
place_of anonymous origin phy_base file_offset = 0
place_of file_backed origin phy_base file_offset = sub64 file_offset origin
place_of direct origin phy_base file_offset = sub64 phy_base origin
place_of direct_virtual origin phy_base file_offset = sub64 phy_base origin

abbrev pub backing : MappedRange → Backing
backing r = record {
  kind = r.kind;
  page_flags = r.page_flags;
  file = r.file;
  place = place_of r.kind r.original_base r.phy_base r.file_offset;
}

abbrev pub holds : MappedRange → ℕ → Bool
holds r a = leb r.base a && ltb a (r.base + r.length)

-- How many ranges hold the address, of those whose backing passes the test.
unfoldable pub covering : (Backing → Bool) → ℕ → List MappedRange → ℕ
covering p a [] = 0
covering p a (r ∷ rs) = bit (p (backing r) && holds r a) + covering p a rs

abbrev pub any_backing : Backing → Bool
any_backing b = true

-- The range does not reach the end of the 64-bit addresses, and only files back it if it is not anonymous.
pub record IsSound (r : MappedRange) : Type 0 where
  pub bounded : r.base + r.length < 2 ^ 64
  pub no_file : r.kind ≡ anonymous → r.file ≡ none

pub covering-append :
    (p : Backing → Bool) (a : ℕ) (xs ys : List MappedRange)
    → covering p a (xs ++ ys) ≡ covering p a xs + covering p a ys
unfolding covering
covering-append p a [] ys = omega arith
covering-append p a (x ∷ xs) ys = omega (arith, covering-append p a xs ys)

pub covering_le :
    (p : Backing → Bool) (a : ℕ) (xs : List MappedRange)
    → covering p a xs ≤ covering any_backing a xs
unfolding covering
covering_le p a [] = omega arith
covering_le p a (x ∷ xs) = ground (arith, covering_le p a xs)

pub All-append :
    (P : MappedRange → Type 0) (xs ys : List MappedRange) → All P xs → All P ys → All P (xs ++ ys)
All-append P [] ys h k = k
All-append P (x ∷ xs) ys h k = (h.0, All-append P xs ys h.1 k)

-- `ys` is `xs` with the range put in somewhere.
pub data Inserted (r : MappedRange) : List MappedRange → List MappedRange → Type 0 where
  here : {xs : List MappedRange} → Inserted r xs (r ∷ xs)
  there :
      {x : MappedRange} {xs ys : List MappedRange} → Inserted r xs ys → Inserted r (x ∷ xs) (x ∷ ys)

pub Inserted-covering :
    (p : Backing → Bool) (a : ℕ) {r : MappedRange} {xs ys : List MappedRange}
    → Inserted r xs ys
    → covering p a ys ≡ bit (p (backing r) && holds r a) + covering p a xs
unfolding covering
Inserted-covering p a here = refl
Inserted-covering p a (there i) = omega (arith, Inserted-covering p a i)

pub Inserted-All :
    (P : MappedRange → Type 0) {r : MappedRange} {xs ys : List MappedRange}
    → P r
    → Inserted r xs ys
    → All P xs
    → All P ys
Inserted-All P h here k = (h, k)
Inserted-All P h (there i) k = (k.0, Inserted-All P h i k.1)

pub insert-Inserted : (r : MappedRange) (xs : List MappedRange) → Inserted r xs (insert r xs)
unfolding insert
insert-Inserted r [] = here
insert-Inserted r (x ∷ xs) = elim (Bool-cases (fits r xs)) [
  | inl e ↦ rw e (there here)
  | inr e ↦ rw e (there (insert-Inserted r xs))
]

-- An insertion before or after the point that a pass has reached.
pub place-Inserted :
    (r : MappedRange) (seen todo : List MappedRange)
    → let (s, t) = place r seen todo in
      ((t ≡ todo) × Inserted r seen s) ⊎ ((s ≡ seen) × Inserted r todo t)
unfolding place
place-Inserted r [] todo = inr (refl, insert-Inserted r todo)
place-Inserted r (x ∷ xs) todo = elim (Bool-cases (fits r (xs ++ todo))) [
  | inl e ↦ rw e (inl (refl, there here))
  | inr e ↦ rw e (step (place-Inserted r xs todo))
]
  where
    step :
        ((place r xs todo).1 ≡ todo) × Inserted r xs (place r xs todo).0
          ⊎ ((place r xs todo).0 ≡ xs) × Inserted r todo (place r xs todo).1
        → ((place r xs todo).1 ≡ todo) × Inserted r (x ∷ xs) (x ∷ (place r xs todo).0)
          ⊎ ((x ∷ (place r xs todo).0 ≡ x ∷ xs) × Inserted r todo (place r xs todo).1)
    step (inl (e, i)) = inl (e, there i)
    step (inr (e, i)) = inr (rw e refl, i)
