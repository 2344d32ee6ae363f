-- ===== src/Mem/Ranges/Overlaps.antt =====
-- mem/vmm.cpp: how an existing range lies to a new one, and what is left of it outside the new one.
use saba_os.Base.{
  ℕ, ◌+◌, ◌^◌, ◌<◌, ◌≤◌, ◌≡◌, refl, ◌⊎◌, inl, inr, Bool, true, ◌&&◌, ◌||◌, ◌-◌, leb, ◌==◌,
  Bool-cases, bit, arith,
}
use saba_os.Mem.Ranges.{
  MappedRange, Request, end, until, apart, same, covered, front, back, middle, overlap, is_type,
  behind, before, first_piece, second_piece,
}
use saba_os.Mem.Ranges.Cover.{Backing, backing, holds, IsSound}

module _ (q : Request) where
  -- The range does not meet the new one.
  abbrev pub IsApart : MappedRange → Type 0
  IsApart r = (r.base + r.length ≤ q.base) ⊎ (q.base + q.length ≤ r.base)

  -- What each way to lie to the new range means.
  pub data Lies (keep : Bool) (r : MappedRange) : Type 0 where
    lies_apart : overlap q keep r ≡ apart → IsApart r → Lies keep r
    lies_same :
        overlap q keep r ≡ same
        → q.base ≡ r.base
        → q.base + q.length ≡ r.base + r.length
        → is_type q.type r.kind ≡ true
        → Lies keep r
    lies_covered :
        overlap q keep r ≡ covered
        → q.base ≤ r.base
        → r.base + r.length ≤ q.base + q.length
        → Lies keep r
    lies_front :
        overlap q keep r ≡ front
        → q.base ≤ r.base
        → r.base < q.base + q.length
        → q.base + q.length < r.base + r.length
        → Lies keep r
    lies_back :
        overlap q keep r ≡ back
        → r.base < q.base
        → q.base < r.base + r.length
        → r.base + r.length ≤ q.base + q.length
        → Lies keep r
    lies_middle :
        overlap q keep r ≡ middle
        → r.base < q.base
        → q.base + q.length < r.base + r.length
        → Lies keep r

  abbrev pub IsBounded : Type 0
  IsBounded = q.base + q.length < 2 ^ 64

  pub end_lem : (r : MappedRange) → IsSound r → end r ≡ r.base + r.length
  unfolding end
  end_lem r s = omega (arith, s.bounded)

  pub until_lem : IsBounded → until q ≡ q.base + q.length
  unfolding until
  until_lem b = omega (arith, b)

  pub lies : (keep : Bool) (r : MappedRange) → IsBounded → IsSound r → Lies keep r
  unfolding overlap
  lies keep r b s =
      let er = end_lem r s in
      let eu = until_lem b in
      elim (Bool-cases (leb (end r) q.base || leb (until q) r.base)) [
        | inl e ↦ lies_apart (rw e refl) (ground (arith, er, eu, e))
        | inr e ↦ elim (Bool-cases (leb q.base r.base)) [
          | inl below ↦ elim (Bool-cases (leb (end r) (until q))) [
            | inl within ↦
                elim (Bool-cases
                  (keep && q.base == r.base && until q == end r && is_type q.type r.kind)) [
                    | inl k ↦
                        lies_same (rw (e, below, within, k) refl) (ground (arith, k))
                          (ground (arith, er, eu, k)) (ground (arith, k))
                    | inr k ↦
                        lies_covered (rw (e, below, within, k) refl) (ground (arith, below))
                          (ground (arith, er, eu, within))
                  ]
            | inr over ↦
                lies_front (rw (e, below, over) refl) (ground (arith, below))
                  (ground (arith, er, eu, e)) (ground (arith, er, eu, over))
          ]
          | inr above ↦ elim (Bool-cases (leb (end r) (until q))) [
            | inl within ↦
                lies_back (rw (e, above, within) refl) (ground (arith, above))
                  (ground (arith, er, eu, e)) (ground (arith, er, eu, within))
            | inr over ↦
                lies_middle (rw (e, above, over) refl) (ground (arith, above))
                  (ground (arith, er, eu, over))
          ]
        ]
      ]

  -- What is left of a range, without wrap-around.
  pub behind_lem :
      (r : MappedRange)
      → IsBounded
      → IsSound r
      → r.base < q.base + q.length
      → q.base + q.length < r.base + r.length
      → ((behind q r).base ≡ q.base + q.length)
        × ((behind q r).length ≡ r.base + r.length - (q.base + q.length))
  unfolding behind
  behind_lem r b s l h = rw (until_lem b) (omega (arith, s.bounded), omega (arith, s.bounded))

  pub before_lem :
      (r : MappedRange)
      → IsSound r
      → r.base < q.base
      → q.base < r.base + r.length
      → (before q r).length ≡ q.base - r.base
  unfolding before
  before_lem r s l h = rw (end_lem r s) (omega (arith, s.bounded))

  pub first_lem :
      (r : MappedRange) → IsBounded → r.base < q.base → (first_piece q r).length ≡ q.base - r.base
  unfolding first_piece
  first_lem r b l = omega (arith, b)

  pub second_lem :
      (r : MappedRange)
      → IsBounded
      → IsSound r
      → q.base + q.length < r.base + r.length
      → ((second_piece q r).base ≡ q.base + q.length)
        × ((second_piece q r).length ≡ r.base + r.length - (q.base + q.length))
  unfolding second_piece
  second_lem r b s h = rw (until_lem b, end_lem r s) (refl, omega (arith, s.bounded, b))

  -- The pieces are sound and do not meet the new range.
  abbrev pub IsLeft : MappedRange → Type 0
  IsLeft r = IsSound r × IsApart r

  pub behind-IsLeft :
      (r : MappedRange)
      → IsBounded
      → IsSound r
      → r.base < q.base + q.length
      → q.base + q.length < r.base + r.length
      → IsLeft (behind q r)
  unfolding behind
  behind-IsLeft r b s l h =
      let cut = behind_lem r b s l h in
      (
        record { bounded = omega (arith, cut, s.bounded); no_file = s.no_file },
        inr (omega (arith, cut)),
      )

  pub before-IsLeft :
      (r : MappedRange)
      → IsSound r
      → r.base < q.base
      → q.base < r.base + r.length
      → IsLeft (before q r)
  unfolding before
  before-IsLeft r s l h =
      let cut = before_lem r s l h in
      (
        record { bounded = omega (arith, cut, s.bounded, h); no_file = s.no_file },
        inl (omega (arith, cut, l)),
      )

  pub first-IsLeft :
      (r : MappedRange) → IsBounded → IsSound r → r.base < q.base → IsLeft (first_piece q r)
  unfolding first_piece
  first-IsLeft r b s l =
      let cut = first_lem r b l in
      (
        record { bounded = omega (arith, cut, b, l); no_file = s.no_file },
        inl (omega (arith, cut, l)),
      )

  pub second-IsLeft :
      (r : MappedRange)
      → IsBounded
      → IsSound r
      → q.base + q.length < r.base + r.length
      → IsLeft (second_piece q r)
  unfolding second_piece
  second-IsLeft r b s h =
      let cut = second_lem r b s h in
      (
        record { bounded = omega (arith, cut, s.bounded, h); no_file = s.no_file },
        inr (omega (arith, cut)),
      )

  -- The address is outside the new range.
  abbrev pub IsOutside : ℕ → Type 0
  IsOutside a = (a < q.base) ⊎ (q.base + q.length ≤ a)

  -- Outside the new range the pieces hold the addresses that the range held, with the same backing.
  module _ (p : Backing → Bool) (a : ℕ) where
    abbrev pub shown : MappedRange → ℕ
    shown r = bit (p (backing r) && holds r a)

    pub behind-shown :
        (r : MappedRange)
        → IsBounded
        → IsSound r
        → q.base ≤ r.base
        → r.base < q.base + q.length
        → q.base + q.length < r.base + r.length
        → IsOutside a
        → shown (behind q r) ≡ shown r
    unfolding behind
    behind-shown r b s l m h o = let cut = behind_lem r b s m h in ground (arith, cut)

    pub before-shown :
        (r : MappedRange)
        → IsSound r
        → r.base < q.base
        → q.base < r.base + r.length
        → r.base + r.length ≤ q.base + q.length
        → IsOutside a
        → shown (before q r) ≡ shown r
    unfolding before
    before-shown r s l m h o = let cut = before_lem r s l m in ground (arith, cut)

    pub pieces-shown :
        (r : MappedRange)
        → IsBounded
        → IsSound r
        → r.base < q.base
        → q.base + q.length < r.base + r.length
        → IsOutside a
        → p (backing (second_piece q r)) ≡ p (backing r)
        → shown (first_piece q r) + shown (second_piece q r) ≡ shown r
    unfolding first_piece
    pieces-shown r b s l h o e =
        let first = first_lem r b l in
        let second = second_lem r b s h in rw e (ground (arith, first, second))
