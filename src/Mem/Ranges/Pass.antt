-- ===== src/Mem/Ranges/Pass.antt =====
-- mem/vmm.cpp: one pass over the existing ranges cuts the new range's interval out of them.
use mathlib.Core.List.{append-nil, append_assoc}
use saba_os.Base.{
  ℕ, zero, suc, ◌+◌, ◌*◌, ◌<◌, ◌≤◌, ◌≡◌, refl, sym, ◌∙◌, ap, ◌⊎◌, inl, inr, Bool, true, false, ◌||◌,
  leb, List, [], ◌∷◌, ◌++◌, All, length, bit, arith,
}
use saba_os.Mem.Ranges.{
  MappedRange, Request, Effect, Overlap, apart, same, covered, front, back, middle, overlap, end,
  until, behind, before, first_piece, second_piece, place, Resolved, stays, resolved, stuck, pass,
}
use saba_os.Mem.Ranges.Cover.{
  Backing, backing, holds, covering, any_backing, IsSound, covering-append, covering_le, All-append,
  Inserted, Inserted-covering, Inserted-All, place-Inserted,
}
use saba_os.Mem.Ranges.Overlaps.{
  IsApart, IsLeft, behind-IsLeft, before-IsLeft, first-IsLeft, second-IsLeft, lies, lies_apart,
  lies_same, lies_covered, lies_front, lies_back, lies_middle, IsBounded, end_lem, until_lem,
  IsOutside, shown, second_lem, behind-shown, before-shown, pieces-shown,
}

module _ (q : Request) (keep : Bool) where
  abbrev pub cost : Overlap → ℕ
  cost apart = 1
  cost _ = 2

  -- The fuel that a pass needs: a range that is cut in two is counted with its second piece.
  unfoldable pub steps : List MappedRange → ℕ
  steps [] = 0
  steps (r ∷ rs) = cost (overlap q keep r) + steps rs

  pub cost_le : (o : Overlap) → cost o ≤ 2
  cost_le apart = omega arith
  cost_le same = omega arith
  cost_le covered = omega arith
  cost_le front = omega arith
  cost_le back = omega arith
  cost_le middle = omega arith

  cost_pos : (o : Overlap) → 1 ≤ cost o
  cost_pos apart = omega arith
  cost_pos same = omega arith
  cost_pos covered = omega arith
  cost_pos front = omega arith
  cost_pos back = omega arith
  cost_pos middle = omega arith

  pub steps_le : (rs : List MappedRange) → steps rs ≤ 2 * length rs
  unfolding steps
  steps_le [] = omega arith
  steps_le (r ∷ rs) = omega (arith, steps_le rs, cost_le (overlap q keep r))

  Inserted-steps :
      {r : MappedRange} {xs ys : List MappedRange}
      → Inserted r xs ys
      → steps ys ≡ cost (overlap q keep r) + steps xs
  unfolding steps
  Inserted-steps Inserted.here = refl
  Inserted-steps (Inserted.there i) = omega (arith, Inserted-steps i)

  -- A range that does not meet the new one is passed by.
  pub overlap_apart :
      (r : MappedRange) → IsBounded q → IsSound r → IsApart q r → overlap q keep r ≡ apart
  unfolding overlap
  overlap_apart r b s h =
      let er = end_lem q r s in
      let eu = until_lem q b in
      let off : (leb (end r) q.base || leb (until q) r.base) ≡ true = ground (arith, er, eu, h) in
      rw off refl

  -- A pass over ranges that do not meet the new one changes nothing.
  pub pass_apart :
      (fuel : ℕ) (seen todo : List MappedRange) (had : Bool) (es : List Effect)
      → IsBounded q
      → All IsSound todo
      → All (IsApart q) todo
      → length todo ≤ fuel
      → pass fuel q keep seen todo had es ≡ resolved (seen ++ todo) had es
  unfolding pass
  pass_apart fuel seen [] had es b s h le = ap (λ xs. resolved xs had es) (sym (append-nil seen))
  pass_apart zero seen (r ∷ todo) had es b s h le = absurd (omega (arith, le))
  pass_apart (suc fuel) seen (r ∷ todo) had es b s h le =
      rw (overlap_apart r b s.0 h.0, pass)
        (pass_apart fuel (seen ++ (r ∷ [])) todo had es b s.1 h.1 (omega (arith, le))
          ∙ ap (λ xs. resolved xs had es) (append_assoc seen (r ∷ []) todo))

  module _ (p : Backing → Bool) (a : ℕ) (new : Bool) where
    -- A range that stays because it is the new one's passes the test as the new one does.
    -- The second piece of one that is cut in two passes the test as the whole does.
    abbrev pub Agrees : MappedRange → Type 0
    Agrees r =
        (overlap q keep r ≡ same → p (backing (record r { page_flags = q.page_flags })) ≡ new)
        × (overlap q keep r ≡ middle → p (backing (second_piece q r)) ≡ p (backing r))

    abbrev IsInside : Type 0
    IsInside = (q.base ≤ a) × (a < q.base + q.length)

    -- What a pass leaves, of ranges that hold the address `n` times.
    unfoldable pub Walked : ℕ → Resolved → Type 0
    Walked n (stays rs es) =
        All IsSound rs
        × (IsOutside q a → covering p a rs ≡ n)
        × (IsInside → covering p a rs ≡ bit new)
    Walked n (resolved rs had es) =
        All IsSound rs × All (IsApart q) rs × (IsOutside q a → covering p a rs ≡ n)
    Walked n stuck = ⊥

    -- Ranges that do not meet the new one hold none of its addresses.
    pub apart-covering :
        (rs : List MappedRange) → IsInside → All (IsApart q) rs → covering p a rs ≡ 0
    unfolding covering
    apart-covering [] i h = refl
    apart-covering (r ∷ rs) i h = ground (arith, apart-covering rs i h.1, h.0, i)

    -- What a pass may meet on its way: the ranges that it has gone through and those before it.
    pub record Ready (fuel n : ℕ) (seen todo : List MappedRange) : Type 0 where
      pub sound_seen : All IsSound seen
      pub apart_seen : All (IsApart q) seen
      pub sound : All IsSound todo
      pub agree : All Agrees todo
      pub one : IsInside → covering any_backing a todo ≤ 1
      pub out : IsOutside q a → covering p a seen + covering p a todo ≡ n
      pub enough : steps todo ≤ fuel

    -- The next range, or what is left of it, is gone through.
    Ready-seen :
        {fuel n : ℕ} {seen todo : List MappedRange} (r y : MappedRange)
        → Ready (suc fuel) n seen (r ∷ todo)
        → IsSound y
        → IsApart q y
        → (IsOutside q a → shown q p a y ≡ shown q p a r)
        → Ready fuel n (seen ++ (y ∷ [])) todo
    unfolding covering steps
    Ready-seen {seen = seen} r y w s h e = record {
      sound_seen = All-append _ seen _ w.sound_seen (s, tt);
      apart_seen = All-append _ seen _ w.apart_seen (h, tt);
      sound = w.sound.1;
      agree = w.agree.1;
      one = λ i. omega (arith, w.one i);
      out = λ o. rw (covering-append p a seen (y ∷ [])) (omega (arith, w.out o, e o));
      enough = omega (arith, w.enough, cost_pos (overlap q keep r));
    }

    Ready-dropped :
        {fuel n : ℕ} {seen todo : List MappedRange} (r : MappedRange)
        → Ready (suc fuel) n seen (r ∷ todo)
        → (IsOutside q a → shown q p a r ≡ 0)
        → Ready fuel n seen todo
    unfolding covering steps
    Ready-dropped {seen = seen} r w e = record {
      sound_seen = w.sound_seen;
      apart_seen = w.apart_seen;
      sound = w.sound.1;
      agree = w.agree.1;
      one = λ i. omega (arith, w.one i);
      out = λ o. omega (arith, w.out o, e o);
      enough = omega (arith, w.enough, cost_pos (overlap q keep r));
    }

    -- The range is cut in two; the second piece goes before or after the point of the pass.
    Ready-cut :
        {fuel n : ℕ} {seen todo s t : List MappedRange} (r x y : MappedRange)
        → Ready (suc fuel) n seen (r ∷ todo)
        → cost (overlap q keep r) ≡ 2
        → overlap q keep y ≡ apart
        → IsLeft q x
        → IsLeft q y
        → (IsOutside q a → shown q p a x + shown q p a y ≡ shown q p a r)
        → (IsInside → holds y a ≡ false)
        → ((t ≡ todo) × Inserted y (seen ++ (x ∷ [])) s)
          ⊎ ((s ≡ seen ++ (x ∷ [])) × Inserted y todo t)
        → Ready fuel n s t
    unfolding covering steps
    Ready-cut {seen = seen} r x y w two off (sx, hx) (sy, hy) e away (inl (same_todo, i)) = record {
      sound_seen = Inserted-All _ sy i (All-append _ seen _ w.sound_seen (sx, tt));
      apart_seen = Inserted-All _ hy i (All-append _ seen _ w.apart_seen (hx, tt));
      sound = rw same_todo w.sound.1;
      agree = rw same_todo w.agree.1;
      one = λ j. rw same_todo (omega (arith, w.one j));
      out = λ o.
          rw (same_todo, Inserted-covering p a i, covering-append p a seen (x ∷ []))
            (omega (arith, w.out o, e o));
      enough = rw same_todo (omega (arith, w.enough, two));
    }
    Ready-cut {seen = seen} r x y w two off (sx, hx) (sy, hy) e away (inr (same_seen, i)) = record {
      sound_seen = rw same_seen (All-append _ seen _ w.sound_seen (sx, tt));
      apart_seen = rw same_seen (All-append _ seen _ w.apart_seen (hx, tt));
      sound = Inserted-All _ sy i w.sound.1;
      agree = Inserted-All _ ((λ k. cc), (λ k. cc)) i w.agree.1;
      one = λ j. rw (Inserted-covering any_backing a i, away j) (omega (arith, w.one j));
      out = λ o.
          rw (same_seen, Inserted-covering p a i, covering-append p a seen (x ∷ []))
            (omega (arith, w.out o, e o));
      enough = rw (Inserted-steps i, off) (omega (arith, w.enough, two));
    }

    -- The existing range stays where it has the interval and the type of the new one.
    kept :
        {fuel n : ℕ} {seen todo : List MappedRange} (r : MappedRange)
        → Ready fuel n seen (r ∷ todo)
        → IsSound r
        → overlap q keep r ≡ same
        → q.base ≡ r.base
        → q.base + q.length ≡ r.base + r.length
        → let r' = record r { page_flags = q.page_flags } in
          All IsSound (seen ++ (r' ∷ todo))
          × (IsOutside q a → covering p a (seen ++ (r' ∷ todo)) ≡ n)
          × (IsInside → covering p a (seen ++ (r' ∷ todo)) ≡ bit new)
    unfolding covering
    kept {seen = seen} {todo} r w s e l m =
        let r' = record r { page_flags = q.page_flags } in
        let split = covering-append p a seen (r' ∷ todo) in
        (
          All-append _ seen _ w.sound_seen
              (record { bounded = s.bounded; no_file = s.no_file }, w.sound.1),
          λ o.
              let z : shown q p a r' ≡ 0 = ground (arith, o, l, m) in
              let z' : shown q p a r ≡ 0 = ground (arith, o, l, m) in
              omega (arith, split, z, z', w.out o),
          λ i.
              let on : holds r a ≡ true = ground (arith, i, l, m) in
              let none_seen = apart-covering seen i w.apart_seen in
              let few = w.one i in
              let rest = covering_le p a todo in
              let self : shown q p a r' ≡ bit new = rw (w.agree.0.0 e, on) (ground arith) in
              let alone : covering any_backing a todo ≡ 0 = ground (arith, few, on) in
              omega (arith, split, none_seen, rest, self, alone),
        )

    pub walk :
        (fuel n : ℕ) (seen todo : List MappedRange) (had : Bool) (es : List Effect)
        → IsBounded q
        → Ready fuel n seen todo
        → Walked n (pass fuel q keep seen todo had es)
    unfolding pass Walked covering steps
    walk fuel n seen [] had es b w = (w.sound_seen, w.apart_seen, λ o. omega (arith, w.out o))
    walk zero n seen (r ∷ todo) had es b w =
        absurd (omega (arith, w.enough, cost_pos (overlap q keep r)))
    walk (suc fuel) n seen (r ∷ todo) had es b w =
        let s = w.sound.0 in
        elim (lies q keep r b s) [
          | lies_apart e h ↦
              rw (e, pass) (walk fuel n _ todo _ _ b (Ready-seen r r w s h (λ o. refl)))
          | lies_same e l m _ ↦ rw (e, pass) (kept r w s e l m)
          | lies_covered e l m ↦
              rw (e, pass)
                (walk fuel n _ todo _ _ b (Ready-dropped r w (λ o. ground (arith, o, l, m))))
          | lies_front e l m h ↦
              let left = behind-IsLeft q r b s m h in
              rw (e, pass)
                (walk fuel n _ todo _ _ b
                  (Ready-seen r (behind q r) w left.0 left.1 (behind-shown q p a r b s l m h)))
          | lies_back e l m h ↦
              let left = before-IsLeft q r s l m in
              rw (e, pass)
                (walk fuel n _ todo _ _ b
                  (Ready-seen r (before q r) w left.0 left.1 (before-shown q p a r s l m h)))
          | lies_middle e l h ↦
              let y = second_piece q r in
              let right = second-IsLeft q r b s h in
              let parts = place y (seen ++ (first_piece q r ∷ [])) todo in
              rw (e, pass)
                (walk fuel n parts.0 parts.1 _ _ b (
                  Ready-cut r (first_piece q r) y w (rw e refl) (overlap_apart y b right.0 right.1)
                    (first-IsLeft q r b s l) right
                    (λ o. pieces-shown q p a r b s l h o (w.agree.0.1 e))
                    (λ i. ground (arith, second_lem q r b s h, i)) (place-Inserted y _ todo)))
        ]
