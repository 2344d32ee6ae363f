-- ===== src/Mem/Ranges/Add.antt =====
-- mem/vmm.cpp: `add_range` gives the new range's interval the new backing, or none, and leaves every
-- other address as it was.
use saba_os.Base.{
  ℕ, ◌+◌, ◌<◌, ◌≤◌, ◌≡◌, refl, sym, ◌∙◌, ap, subst, inl, inr, Bool, true, false, ◌&&◌, ◌==◌, ltb,
  leb, List, [], ◌∷◌, All, bit, arith, Option, none, some, Bool-cases, if◌then◌else◌, add64, sub64,
}
use saba_os.Mem.Ranges.{
  MappedRange, Request, Effect, Kind, direct, anonymous, file_backed, direct_virtual, same_kind,
  is_type, merge, after, new_range, put_type, put_range, end, until,
}
use saba_os.Mem.Ranges.Cover.{
  Backing, backing, place_of, holds, covering, any_backing, IsSound, Inserted-covering,
  Inserted-All, insert-Inserted,
}
use saba_os.Mem.Ranges.Overlaps.{IsApart, IsBounded, end_lem, until_lem, IsOutside, shown}
use saba_os.Mem.Ranges.Pass.{apart-covering}

pub same_kind-eq : (a b : Kind) → same_kind a b ≡ true → a ≡ b
unfolding same_kind
same_kind-eq direct direct h = refl
same_kind-eq anonymous anonymous h = refl
same_kind-eq file_backed file_backed h = refl
same_kind-eq direct_virtual direct_virtual h = refl
same_kind-eq direct anonymous h = absurd (ground (arith, h))
same_kind-eq direct file_backed h = absurd (ground (arith, h))
same_kind-eq direct direct_virtual h = absurd (ground (arith, h))
same_kind-eq anonymous direct h = absurd (ground (arith, h))
same_kind-eq anonymous file_backed h = absurd (ground (arith, h))
same_kind-eq anonymous direct_virtual h = absurd (ground (arith, h))
same_kind-eq file_backed direct h = absurd (ground (arith, h))
same_kind-eq file_backed anonymous h = absurd (ground (arith, h))
same_kind-eq file_backed direct_virtual h = absurd (ground (arith, h))
same_kind-eq direct_virtual direct h = absurd (ground (arith, h))
same_kind-eq direct_virtual anonymous h = absurd (ground (arith, h))
same_kind-eq direct_virtual file_backed h = absurd (ground (arith, h))

pub is_anonymous :
    (t : Option Kind) (k : Kind) → t ≡ some anonymous → is_type t k ≡ true → k ≡ anonymous
unfolding is_type
is_anonymous t k e h = sym (same_kind-eq anonymous k (subst (λ u. is_type u k ≡ true) e h))

is_type_self : (t : Option Kind) → t ≡ some anonymous → is_type t anonymous ≡ true
unfolding is_type same_kind
is_type_self t e = subst (λ u. is_type u anonymous ≡ true) (sym e) refl

-- No address is held twice.
abbrev pub IsDisjoint : List MappedRange → Type 0
IsDisjoint rs = (a : ℕ) → covering any_backing a rs ≤ 1

module _ (q : Request) where
  -- How the backing that the call asks for answers a test; no backing answers no test.
  unfoldable pub asked : Option Kind → (Backing → Bool) → Bool
  asked none p = false
  asked (some k) p = p (record {
    kind = k;
    page_flags = q.page_flags;
    file = q.file;
    place = place_of k q.base q.phy_base q.file_offset;
  })

  abbrev pub asks : (Backing → Bool) → Bool
  asks p = asked q.type p

  -- What a call has to leave, for one test and one address.
  unfoldable pub Result : (Backing → Bool) → ℕ → List MappedRange → List MappedRange → Type 0
  Result p a rs rs' =
      All IsSound rs'
      × (IsOutside q a → covering p a rs' ≡ covering p a rs)
      × (q.base ≤ a → a < q.base + q.length → covering p a rs' ≡ bit (asks p))

  -- A sound request: it does not wrap around, and an anonymous one names no file.
  pub record IsProper : Type 0 where
    pub bounded : IsBounded q
    pub no_file : is_type q.type anonymous ≡ true → q.file ≡ none

  -- A range that the new one may be merged into has the backing that is asked for.
  asks-backing :
      (r : MappedRange) (p : Backing → Bool)
      → IsProper
      → q.type ≡ some anonymous
      → IsSound r
      → (is_type q.type r.kind && q.page_flags == r.page_flags) ≡ true
      → asks p ≡ p (backing r)
  unfolding asked place_of
  asks-backing r p b t s e =
      let kind : is_type q.type r.kind ≡ true = ground (arith, e) in
      let flags : q.page_flags ≡ r.page_flags = ground (arith, e) in
      let k = is_anonymous q.type r.kind t kind in
      let nf = s.no_file k in
      let nq = b.no_file (is_type_self q.type t) in
      subst (λ u. asked u p ≡ p (backing r)) (sym t) (ap p (rw (flags, k, nf, nq) refl))

  module _ (p : Backing → Bool) (a : ℕ) where
    put_type-Result :
        (t : Option Kind) (had : Bool) (rs' : List MappedRange) (es : List Effect)
        → IsBounded q
        → (is_type t anonymous ≡ true → q.file ≡ none)
        → All IsSound rs'
        → All (IsApart q) rs'
        → let ys = (put_type t q had rs' es).0 in
          All IsSound ys
          × (IsOutside q a → covering p a ys ≡ covering p a rs')
          × (q.base ≤ a → a < q.base + q.length → covering p a ys ≡ bit (asked t p))
    unfolding put_type asked new_range is_type same_kind
    put_type-Result none had rs' es b f s h =
        (s, λ o. refl, λ l m. apart-covering q true p a true rs' (l, m) h)
    put_type-Result (some k) had rs' es b f s h =
        let r = new_range q k in
        let i = insert-Inserted r rs' in
        let n = Inserted-covering p a i in
        (
          Inserted-All _ (record { bounded = b; no_file = λ z. f (rw z refl) }) i s,
          λ out. let away : holds r a ≡ false = ground (arith, out) in rw (n, away) (ground arith),
          λ l m.
              let on : holds r a ≡ true = ground (arith, l, m) in
              rw (n, on, apart-covering q true p a true rs' (l, m) h) (ground arith),
        )

    pub put-Result :
        (had : Bool) (rs rs' : List MappedRange) (es : List Effect)
        → IsProper
        → All IsSound rs'
        → All (IsApart q) rs'
        → (IsOutside q a → covering p a rs' ≡ covering p a rs)
        → Result p a rs (put_range q had rs' es).0
    unfolding put_range Result
    put-Result had rs rs' es b s h o =
        let r = put_type-Result q.type had rs' es b.bounded b.no_file s h in
        (r.0, λ out. r.1 out ∙ o out, r.2)

    -- A merge gives the new interval to a range with the backing that is asked for.
    unfoldable pub MergedTo : ℕ → Option (List MappedRange × ℕ) → Type 0
    MergedTo n none = Unit {0}
    MergedTo n (some (rs, flags)) =
        All IsSound rs
        × (covering p a rs ≡ n + bit (asks p && leb q.base a && ltb a (q.base + q.length)))

    after-MergedTo :
        (r : MappedRange) (n : ℕ) (o : Option (List MappedRange × ℕ))
        → IsSound r
        → MergedTo n o
        → MergedTo (shown q p a r + n) (after r o)
    unfolding MergedTo after covering
    after-MergedTo r n none s m = tt
    after-MergedTo r n (some (rs, flags)) s m = ((s, m.0), omega (arith, m.1))

    touch :
        (r : MappedRange) (rs : List MappedRange)
        → IsProper
        → q.type ≡ some anonymous
        → IsSound r
        → All IsSound rs
        → IsApart q r
        → (is_type q.type r.kind && q.page_flags == r.page_flags) ≡ true
        → MergedTo (shown q p a r + covering p a rs) (after r (merge q rs))
        → MergedTo (shown q p a r + covering p a rs) (
            if q.base == end r
            then some (record r { length = add64 r.length q.length } ∷ rs, r.page_flags)
            else if until q == r.base
            then some (
              record r { base = sub64 r.base q.length; length = add64 r.length q.length } ∷ rs,
              r.page_flags,
            )
            else after r (merge q rs))
    unfolding MergedTo covering asked
    touch r rs b t s ss h e rest =
        let like = asks-backing r p b t s e in
        let er = end_lem q r s in
        let eu = until_lem q b.bounded in
        elim (Bool-cases (q.base == end r)) [
          | inl end_touch ↦ rw end_touch (
              let touch : q.base ≡ r.base + r.length = ground (arith, end_touch, er) in
              let more : add64 r.length q.length ≡ r.length + q.length =
                omega (arith, b.bounded, touch) in
              simp more (
                (record { bounded = omega (arith, b.bounded, touch); no_file = s.no_file }, ss),
                rw like (ground (arith, touch)),
              ))
          | inr no_end ↦ rw no_end elim (Bool-cases (until q == r.base)) [
            | inl start_touch ↦ rw start_touch (
                let touch : q.base + q.length ≡ r.base = ground (arith, start_touch, eu) in
                let more : add64 r.length q.length ≡ r.length + q.length =
                  omega (arith, s.bounded, touch) in
                let less : sub64 r.base q.length ≡ q.base = omega (arith, s.bounded, touch) in
                simp (more, less)
                  (
                    (record { bounded = omega (arith, s.bounded, touch); no_file = s.no_file }, ss),
                    rw like (ground (arith, touch)),
                  ))
            | inr no_start ↦ rw no_start rest
          ]
        ]

    pub merge-MergedTo :
        (rs : List MappedRange)
        → IsProper
        → q.type ≡ some anonymous
        → All IsSound rs
        → All (IsApart q) rs
        → MergedTo (covering p a rs) (merge q rs)
    unfolding merge covering MergedTo
    merge-MergedTo [] b t s h = tt
    merge-MergedTo (r ∷ rs) b t s h =
        let rest = after-MergedTo r _ _ s.0 (merge-MergedTo rs b t s.1 h.1) in
        elim (Bool-cases (is_type q.type r.kind && q.page_flags == r.page_flags)) [
          | inr e ↦ rw e rest
          | inl e ↦ rw e (touch r rs b t s.0 s.1 h.0 e rest)
        ]
