-- ===== src/Mem/Ranges/Cuts.antt =====
-- mem/vmm.cpp: the two pieces of a range that `add_range` cuts in two have the backing of the range.
use saba_os.Base.{
  ℕ, ◌^◌, ◌≡◌, ◌<◌, ◌==◌, add64, sub64, refl, ap, Bool, false, List, [], ◌∷◌, All, arith,
}
use saba_os.Mem.Ranges.{
  MappedRange, Request, until, Kind, anonymous, direct, file_backed, direct_virtual, overlap,
  middle, second_piece,
}
use saba_os.Mem.Ranges.Cover.{Backing, backing, place_of, IsSound}
use saba_os.Mem.Ranges.Overlaps.{
  lies, lies_apart, lies_same, lies_covered, lies_front, lies_back, lies_middle, until_lem,
}
use saba_os.Mem.Ranges.Add.{IsProper}

-- The second piece of a range that the call cuts in two passes the test as the range does.
abbrev pub CutsWhole : Request → Bool → (Backing → Bool) → MappedRange → Type 0
CutsWhole q keep p r = overlap q keep r ≡ middle → p (backing (second_piece q r)) ≡ p (backing r)

-- A range with a place of its own is where it was mapped, and has a physical address where its kind wants one.
unfoldable pub IsPlaced : Kind → MappedRange → Type 0
IsPlaced anonymous r = Unit
IsPlaced file_backed r = r.original_base ≡ r.base
IsPlaced direct r = (r.original_base ≡ r.base) × (0 < r.phy_base)
IsPlaced direct_virtual r = (r.original_base ≡ r.base) × (0 < r.phy_base)

-- A range that the call cuts in two has not been cut in front before.
abbrev pub CutsPlaced : Request → Bool → MappedRange → Type 0
CutsPlaced q keep r = overlap q keep r ≡ middle → IsPlaced r.kind r

-- The offset of the second piece is ahead of its addresses as that of the range is.
moved :
    (x base cut : ℕ)
    → base < cut
    → cut < 2 ^ 64
    → sub64 (add64 x (sub64 cut base)) cut ≡ sub64 x base
moved x base cut h b = omega (arith, h, b)

second_piece-place :
    (q : Request) (r : MappedRange) (k : Kind)
    → r.base < until q
    → until q < 2 ^ 64
    → IsPlaced k r
    → let y = second_piece q r in
      place_of k y.original_base y.phy_base y.file_offset
      ≡ place_of k r.original_base r.phy_base r.file_offset
unfolding second_piece place_of IsPlaced
second_piece-place q r anonymous h b l = refl
second_piece-place q r file_backed h b l = rw l (moved r.file_offset r.base (until q) h b)
second_piece-place q r direct h b (l, pos) =
    let some_base : (r.phy_base == 0) ≡ false = ground (arith, pos) in
    rw (l, some_base) (moved r.phy_base r.base (until q) h b)
second_piece-place q r direct_virtual h b (l, pos) =
    let some_base : (r.phy_base == 0) ≡ false = ground (arith, pos) in
    rw (l, some_base) (moved r.phy_base r.base (until q) h b)

placed_piece :
    (q : Request) (keep : Bool) (r : MappedRange)
    → IsProper q
    → IsSound r
    → CutsPlaced q keep r
    → overlap q keep r ≡ middle
    → backing (second_piece q r) ≡ backing r
unfolding second_piece
placed_piece q keep r b s c e = elim (lies q keep r b.bounded s) [
  | lies_middle _ l h ↦
      let eu = until_lem q b.bounded in
      let place =
        second_piece-place q r r.kind (ground (arith, eu, l)) (ground (arith, eu, b.bounded))
          (c e) in
      ap (λ n. record { kind = r.kind; page_flags = r.page_flags; file = r.file; place = n }) place
  | lies_apart e' _ ↦ cc
  | lies_same e' _ _ _ ↦ cc
  | lies_covered e' _ _ ↦ cc
  | lies_front e' _ _ _ ↦ cc
  | lies_back e' _ _ _ ↦ cc
]

pub cuts_placed :
    (q : Request) (keep : Bool) (p : Backing → Bool) (rs : List MappedRange)
    → IsProper q
    → All IsSound rs
    → All (CutsPlaced q keep) rs
    → All (CutsWhole q keep p) rs
cuts_placed q keep p [] b s c = tt
cuts_placed q keep p (r ∷ rs) b s c =
    ((λ e. ap p (placed_piece q keep r b s.0 c.0 e)), cuts_placed q keep p rs b s.1 c.1)
