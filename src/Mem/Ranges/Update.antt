-- ===== src/Mem/Ranges/Update.antt =====
-- mem/vmm.cpp: `add_range` seen as an update of what backs each address.
use saba_os.Base.{
  ℕ, ◌+◌, ◌*◌, ◌≡◌, refl, ap, inl, inr, Bool, true, false, ◌&&◌, leb, ltb, List, [], ◌∷◌, All,
  length, bit, arith, Option, none, some, Bool-cases, if◌then◌else◌,
}
use saba_os.Mem.Ranges.{
  MappedRange, Request, Effect, Kind, anonymous, is_type, overlap, same, Resolved, stays, resolved,
  stuck, next_pass, resolve, conclude, merge, merged, merge_or_put, add_range,
}
use saba_os.Mem.Ranges.Cover.{Backing, backing, place_of, covering, any_backing, IsSound}
use saba_os.Mem.Ranges.Overlaps.{
  IsApart, lies, lies_apart, lies_same, lies_covered, lies_front, lies_back, lies_middle, IsOutside,
}
use saba_os.Mem.Ranges.Pass.{steps_le, pass_apart, apart-covering, Agrees, Walked, walk}
use saba_os.Mem.Ranges.Add.{
  same_kind-eq, IsDisjoint, asked, asks, Result, IsProper, put-Result, MergedTo, merge-MergedTo,
}
use saba_os.Mem.Ranges.Cuts.{CutsWhole}

some_anonymous : (t : Option Kind) → is_type t anonymous ≡ true → t ≡ some anonymous
unfolding is_type
some_anonymous none h = absurd (ground (arith, h))
some_anonymous (some k) h = ap some (same_kind-eq k anonymous h)

-- A range that the call keeps as it lies names the file that the call names, at the same place.
abbrev pub NamesFile : Request → Bool → MappedRange → Type 0
NamesFile q keep r =
    overlap q keep r ≡ same
    → (r.file ≡ q.file)
      × (place_of r.kind r.original_base r.phy_base r.file_offset
          ≡ place_of r.kind q.base q.phy_base q.file_offset)

module _ (q : Request) (keep : Bool) (p : Backing → Bool) (a : ℕ) where
  -- The loop ends with its second pass at the latest.
  second_pass :
      (n : ℕ) (r : Resolved)
      → IsProper q
      → Walked q keep p a (asks q p) n r
      → Walked q keep p a (asks q p) n (next_pass (resolve 1 q keep) false r)
  unfolding next_pass resolve Walked
  second_pass n (stays rs es) b w = w
  second_pass n (resolved rs false es) b w = w
  second_pass n (resolved rs true es) b w =
      let e = pass_apart q keep (2 * length rs) [] rs false es b.bounded w.0 w.1 (omega arith) in
      rw (e, next_pass) w
  second_pass n stuck b w = w

  agree :
      (r : MappedRange)
      → IsProper q
      → IsSound r
      → NamesFile q keep r
      → overlap q keep r ≡ same
      → p (backing (record r { page_flags = q.page_flags })) ≡ asks q p
  unfolding asked is_type
  agree r b s f e = elim (lies q keep r b.bounded s) [
    | lies_same _ _ _ t ↦ rw ((f e).0, (f e).1) (of_type q.type t)
    | lies_apart e' _ ↦ cc
    | lies_covered e' _ _ ↦ cc
    | lies_front e' _ _ _ ↦ cc
    | lies_back e' _ _ _ ↦ cc
    | lies_middle e' _ _ ↦ cc
  ]
    where
      of_type :
          (t : Option Kind)
          → is_type t r.kind ≡ true
          → p (record {
            kind = r.kind;
            page_flags = q.page_flags;
            file = q.file;
            place = place_of r.kind q.base q.phy_base q.file_offset;
          })
            ≡ asked q t p
      of_type none h = absurd (ground (arith, h))
      of_type (some k) h = rw (same_kind-eq k r.kind h) refl

  all_agree :
      (rs : List MappedRange)
      → IsProper q
      → All IsSound rs
      → All (NamesFile q keep) rs
      → All (CutsWhole q keep p) rs
      → All (Agrees q keep p a (asks q p)) rs
  all_agree [] b s f c = tt
  all_agree (r ∷ rs) b s f c = ((agree r b s.0 f.0, c.0), all_agree rs b s.1 f.1 c.1)

  pub resolve-Walked :
      (rs : List MappedRange)
      → IsProper q
      → All IsSound rs
      → All (NamesFile q keep) rs
      → All (CutsWhole q keep p) rs
      → IsDisjoint rs
      → Walked q keep p a (asks q p) (covering p a rs) (resolve 2 q keep rs false [])
  unfolding resolve covering
  resolve-Walked rs b s f c d = second_pass _ _ b (
      walk q keep p a (asks q p) (2 * length rs) _ [] rs false [] b.bounded record {
        sound_seen = tt;
        apart_seen = tt;
        sound = s;
        agree = all_agree rs b s f c;
        one = λ i. d a;
        out = λ o. omega arith;
        enough = steps_le q keep rs;
      })

  merged-Result :
      (had : Bool) (rs rs' : List MappedRange) (es : List Effect)
      (unmerged : List MappedRange × List Effect) (m : Option (List MappedRange × ℕ))
      → MergedTo q p a (covering p a rs') m
      → Result q p a rs unmerged.0
      → All (IsApart q) rs'
      → (IsOutside q a → covering p a rs' ≡ covering p a rs)
      → Result q p a rs (merged q had es unmerged m).0
  unfolding merged MergedTo Result
  merged-Result had rs rs' es unmerged none m put h o = put
  merged-Result had rs rs' es unmerged (some (ys, flags)) m put h o = (
    m.0,
    λ out. ground (arith, m.1, o out, out),
    λ l r. ground (arith, m.1, apart-covering q keep p a false rs' (l, r) h, l, r),
  )

  merge_or_put-Result :
      (mergeable had : Bool) (rs rs' : List MappedRange) (es : List Effect)
      → IsProper q
      → All IsSound rs'
      → All (IsApart q) rs'
      → (IsOutside q a → covering p a rs' ≡ covering p a rs)
      → Result q p a rs (merge_or_put q mergeable had rs' es).0
  unfolding merge_or_put
  merge_or_put-Result mergeable had rs rs' es b s h o =
      let put = put-Result q p a had rs rs' es b s h o in
      elim (Bool-cases (mergeable && is_type q.type anonymous)) [
        | inl e ↦
            let t = some_anonymous q.type (ground (arith, e)) in
            rw e (
              merged-Result had rs rs' es _ (merge q rs') (merge-MergedTo q p a rs' b t s h) put h
                o)
        | inr e ↦ rw e put
      ]

  pub Concluded : (rs : List MappedRange) → Option (List MappedRange × List Effect) → Type 0
  Concluded rs none = ⊥
  Concluded rs (some (rs', es)) = Result q p a rs rs'

  pub conclude_lem :
      (mergeable : Bool) (rs : List MappedRange) (r : Resolved)
      → IsProper q
      → Walked q keep p a (asks q p) (covering p a rs) r
      → Concluded rs (conclude q mergeable r)
  unfolding conclude Concluded Walked Result
  conclude_lem mergeable rs (stays rs' es) b w = (w.0, w.1, λ l m. w.2 (l, m))
  conclude_lem mergeable rs (resolved rs' had es) b w =
      merge_or_put-Result mergeable had rs rs' es b w.0 w.1 w.2
  conclude_lem mergeable rs stuck b w = w

-- The backing of an address after a call of `add_range`.
abbrev pub Updated : Request → (Backing → Bool) → ℕ → List MappedRange → List MappedRange → Type 0
Updated q p a rs rs' =
    covering p a rs'
    ≡ (if leb q.base a && ltb a (q.base + q.length) then bit (asks q p) else covering p a rs)

module _ (q : Request) (keep : Bool) (rs : List MappedRange) where
  -- The backing of an address afterwards.
  Result-view :
      (p : Backing → Bool) (a : ℕ) (rs' : List MappedRange)
      → Result q p a rs rs'
      → Updated q p a rs rs'
  unfolding Result
  Result-view p a rs' h = elim (Bool-cases (leb q.base a && ltb a (q.base + q.length))) [
    | inl e ↦ rw e (h.2 (ground (arith, e)) (ground (arith, e)))
    | inr e ↦ rw e (h.1 (ground (arith, e)))
  ]

  cuts_any : (xs : List MappedRange) → All (CutsWhole q keep any_backing) xs
  cuts_any [] = tt
  cuts_any (x ∷ xs) = ((λ e. refl), cuts_any xs)

  ended :
      IsDisjoint rs
      → (o : Option (List MappedRange × List Effect))
      → ((p : Backing → Bool) (a : ℕ) → All (CutsWhole q keep p) rs → Concluded q keep p a rs o)
      → (rs' : List MappedRange) × (es : List Effect) × (o ≡ some (rs', es))
        × All IsSound rs'
        × IsDisjoint rs'
        × ((p : Backing → Bool) (a : ℕ) → All (CutsWhole q keep p) rs → Updated q p a rs rs')
  unfolding Concluded Result
  ended d none h = absurd (h any_backing 0 (cuts_any rs))
  ended d (some (rs', es)) h = (
    rs',
    es,
    refl,
    (h any_backing 0 (cuts_any rs)).0,
    λ x. ground (arith, Result-view any_backing x rs' (h any_backing x (cuts_any rs)), d x),
    λ p a c. Result-view p a rs' (h p a c),
  )

-- A proper call ends, and updates every address.
pub add_range_all :
    (q : Request) (mergeable keep : Bool) (rs : List MappedRange)
    → IsProper q
    → All IsSound rs
    → All (NamesFile q keep) rs
    → IsDisjoint rs
    → (rs' : List MappedRange) × (es : List Effect) × (add_range q mergeable keep rs
        ≡ some (rs', es))
      × All IsSound rs'
      × IsDisjoint rs'
      × ((p : Backing → Bool) (a : ℕ) → All (CutsWhole q keep p) rs → Updated q p a rs rs')
unfolding add_range
add_range_all q mergeable keep rs b s f d =
    ended q keep rs d _
      λ p a c. conclude_lem q keep p a mergeable rs _ b (resolve-Walked q keep p a rs b s f c d)
