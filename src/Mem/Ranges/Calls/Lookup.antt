-- ===== src/Mem/Ranges/Calls/Lookup.antt =====
-- mem/vmm.cpp: the cached lookup of the range that holds an address finds what a search through the
-- process's ranges and then the kernel's finds.
use saba_os.Base.{
  ℕ, ◌+◌, ◌^◌, ◌%◌, ◌⊎◌, ◌≤◌, ◌≡◌, refl, subst, sym, ◌∙◌, ap, inl, inr, true, false, List, [], ◌∷◌,
  ◌++◌, All, arith, Option, none, some, Bool-cases,
}
use saba_os.Mem.Ranges.{MappedRange, end}
use saba_os.Mem.Ranges.Cover.{covering, any_backing, holds, IsSound}
use saba_os.Mem.Ranges.Add.{IsDisjoint}
use saba_os.Mem.Ranges.Calls.{
  Space, in_range, find_range, remember, from_cache, search_ranges, cache_or, addr_to_range,
}

pub in_range-holds : (a : ℕ) (r : MappedRange) → IsSound r → in_range a r ≡ holds r a
unfolding in_range end
in_range-holds a r s =
    let e : (r.base + r.length) % 2 ^ 64 ≡ r.base + r.length = omega (arith, s.bounded) in rw e refl

pub some-inj : {A : Type 0} {x y : A} → some x ≡ some y → x ≡ y
some-inj {x = x} e = ap (λ o. elim o [ none ↦ x | some z ↦ z ]) e

-- A range that is found is sound and holds the address.
pub find_range-some :
    (rs : List MappedRange) (virt : ℕ) (r : MappedRange)
    → All IsSound rs
    → find_range rs virt ≡ some r
    → IsSound r × (holds r virt ≡ true)
unfolding find_range
find_range-some [] virt r s e = absurd (ground (arith, e))
find_range-some (x ∷ xs) virt r s e = elim (Bool-cases (in_range virt x)) [
  | inl h ↦
      let same : x ≡ r = some-inj (rw h at e) in
      subst (λ y. IsSound y × (holds y virt ≡ true)) same (s.0, sym (in_range-holds virt x s.0) ∙ h)
  | inr h ↦ find_range-some xs virt r s.1 (rw h at e)
]

-- It is counted at every address that it holds.
pub find_range-counted :
    (rs : List MappedRange) (virt a : ℕ) (r : MappedRange)
    → find_range rs virt ≡ some r
    → holds r a ≡ true
    → 1 ≤ covering any_backing a rs
unfolding find_range covering
find_range-counted [] virt a r e h = absurd (ground (arith, e))
find_range-counted (x ∷ xs) virt a r e h = elim (Bool-cases (in_range virt x)) [
  | inl on ↦
      let same : x ≡ r = some-inj (rw on at e) in
      let here : holds x a ≡ true = subst (λ y. holds y a ≡ true) (sym same) h in
      ground (arith, here)
  | inr off ↦ let rest = find_range-counted xs virt a r (rw off at e) h in omega (arith, rest)
]

-- Where no address is held twice, a search for any address of a found range finds that range.
pub find_range-coherent :
    (rs : List MappedRange) (virt a : ℕ) (r : MappedRange)
    → All IsSound rs
    → IsDisjoint rs
    → find_range rs virt ≡ some r
    → in_range a r ≡ true
    → find_range rs a ≡ some r
unfolding find_range covering
find_range-coherent [] virt a r s d e h = absurd (ground (arith, e))
find_range-coherent (x ∷ xs) virt a r s d e h = elim (Bool-cases (in_range virt x)) [
  | inl on ↦
      let same : x ≡ r = some-inj (rw on at e) in
      let here : in_range a x ≡ true = subst (λ y. in_range a y ≡ true) (sym same) h in
      rw here (ap some same)
  | inr off ↦
      let later : find_range xs virt ≡ some r = rw off at e in
      let sr = (find_range-some xs virt r s.1 later).0 in
      let held : holds r a ≡ true = sym (in_range-holds a r sr) ∙ h in
      let few = d a in
      let one = find_range-counted xs virt a r later held in
      let not_here : holds x a ≡ false = ground (arith, few, one) in
      rw (in_range-holds a x s.0 ∙ not_here)
        (find_range-coherent xs virt a r s.1 (λ b. omega (arith, d b)) later h)
]

unfoldable pub or_else : Option MappedRange → Option MappedRange → Option MappedRange
or_else none o = o
or_else (some r) o = some r

pub find_range-append :
    (xs ys : List MappedRange) (a : ℕ)
    → find_range (xs ++ ys) a ≡ or_else (find_range xs a) (find_range ys a)
unfolding find_range or_else
find_range-append [] ys a = refl
find_range-append (x ∷ xs) ys a = elim (Bool-cases (in_range a x)) [
  | inl on ↦ rw on refl
  | inr off ↦ rw off (find_range-append xs ys a)
]

-- The cached range is what a search would find, for every address that it holds.
unfoldable pub Coheres : List MappedRange → Option MappedRange → Type 0
Coheres rs none = Unit {0}
Coheres rs (some r) = (a : ℕ) → (in_range a r ≡ false) ⊎ (find_range rs a ≡ some r)

found-Coheres :
    (rs : List MappedRange) (virt : ℕ) (r : MappedRange)
    → All IsSound rs
    → IsDisjoint rs
    → find_range rs virt ≡ some r
    → Coheres rs (some r)
unfolding Coheres
found-Coheres rs virt r s d e a = elim (Bool-cases (in_range a r)) [
  | inl on ↦ inr (find_range-coherent rs virt a r s d e on)
  | inr off ↦ inl off
]

module _ (kernel : List MappedRange) where
  remember_lem :
      (s : Space) (virt : ℕ) (x y : Option MappedRange)
      → All IsSound (s.ranges ++ kernel)
      → IsDisjoint (s.ranges ++ kernel)
      → Coheres (s.ranges ++ kernel) s.cached
      → find_range (s.ranges ++ kernel) virt ≡ or_else x y
      → let (t, found) = remember s x y in
        (found ≡ find_range (s.ranges ++ kernel) virt)
        × Coheres (s.ranges ++ kernel) t.cached
        × (t.ranges ≡ s.ranges)
  unfolding remember or_else
  remember_lem s virt (some r) y v d c e = (sym e, found-Coheres _ virt r v d e, refl)
  remember_lem s virt none (some r) v d c e = (sym e, found-Coheres _ virt r v d e, refl)
  remember_lem s virt none none v d c e = (sym e, c, refl)

  cache_or_lem :
      (s : Space) (virt : ℕ) (o : Option MappedRange)
      → All IsSound (s.ranges ++ kernel)
      → IsDisjoint (s.ranges ++ kernel)
      → Coheres (s.ranges ++ kernel) s.cached
      → s.cached ≡ o
      → let (t, found) = cache_or kernel s virt (from_cache o virt) in
        (found ≡ find_range (s.ranges ++ kernel) virt)
        × Coheres (s.ranges ++ kernel) t.cached
        × (t.ranges ≡ s.ranges)
  unfolding cache_or from_cache search_ranges Coheres
  cache_or_lem s virt none v d c e =
      remember_lem s virt _ _ v d c (find_range-append s.ranges kernel virt)
  cache_or_lem s virt (some r) v d c e = elim (Bool-cases (in_range virt r)) [
    | inr off ↦ rw off (remember_lem s virt _ _ v d c (find_range-append s.ranges kernel virt))
    | inl on ↦ rw on (sym (hit on (subst (Coheres (s.ranges ++ kernel)) e c virt)), c, refl)
  ]
    where
      hit :
          in_range virt r ≡ true
          → (in_range virt r ≡ false) ⊎ (find_range (s.ranges ++ kernel) virt ≡ some r)
          → find_range (s.ranges ++ kernel) virt ≡ some r
      hit on (inl off) = cc
      hit on (inr found) = found

  -- Where the cache is coherent and the ranges of the process and of the kernel are sound and hold no
  -- address twice, the cached lookup gives what a search through all of them gives, and the cache stays
  -- coherent and the ranges as they are.
  pub addr_to_range_lem :
      (s : Space) (virt : ℕ)
      → All IsSound (s.ranges ++ kernel)
      → IsDisjoint (s.ranges ++ kernel)
      → Coheres (s.ranges ++ kernel) s.cached
      → let (t, found) = addr_to_range kernel s virt in
        (found ≡ find_range (s.ranges ++ kernel) virt)
        × Coheres (s.ranges ++ kernel) t.cached
        × (t.ranges ≡ s.ranges)
  unfolding addr_to_range
  addr_to_range_lem s virt v d c = cache_or_lem s virt s.cached v d c refl
