-- ===== src/Mem/Ranges.antt =====
-- mem/vmm.hpp and mem/vmm.cpp: the mapped ranges of an address space and `add_range`, which maps, unmaps
-- and changes them. A file is named by the description that backs the range. What a call does beyond the
-- list of ranges is the list of its effects, in order: pages that are invalidated, and references to
-- descriptions that are taken and given back.
pub mod Cover
pub mod Overlaps
pub mod Pass
pub mod Add
pub mod Cuts
pub mod Update
pub mod Position
pub mod Calls
mod Tests
use saba_os.Base.{
  ℕ, zero, suc, ◌+◌, ◌*◌, Bool, true, false, ◌&&◌, ◌||◌, if◌then◌else◌, ltb, leb, ◌==◌, List, [],
  ◌∷◌, ◌++◌, length, Option, none, some, add64, sub64,
}

-- `MappedRange::Type`. NONE is only an argument of `add_range`, and `none` there.
pub data Kind : Type 0 where
  direct anonymous file_backed direct_virtual : Kind

pub record MappedRange : Type 0 where
  pub base : ℕ
  pub original_base : ℕ
  pub length : ℕ
  pub page_flags : ℕ
  pub kind : Kind
  pub phy_base : ℕ
  pub file : Option ℕ
  pub file_offset : ℕ

unfoldable pub end : MappedRange → ℕ
end r = add64 r.base r.length

-- invalidate_pages(base, length, range) with the range's flags, or with a null pointer;
-- increment_ref_count and decrement_ref_count of a description
pub data Effect : Type 0 where
  invalidate : ℕ → ℕ → Option ℕ → Effect
  hold release : ℕ → Effect

-- The arguments of `add_range`, less its flags; `original_base` is the new range's.
pub record Request : Type 0 where
  pub base : ℕ
  pub length : ℕ
  pub page_flags : ℕ
  pub type : Option Kind
  pub phy_base : ℕ
  pub file : Option ℕ
  pub file_offset : ℕ

pub until : Request → ℕ
until q = add64 q.base q.length

pub same_kind : Kind → Kind → Bool
same_kind direct direct = true
same_kind anonymous anonymous = true
same_kind file_backed file_backed = true
same_kind direct_virtual direct_virtual = true
same_kind _ _ = false

pub is_type : Option Kind → Kind → Bool
is_type none k = false
is_type (some t) k = same_kind t k

pub holding : Option ℕ → List Effect
holding none = []
holding (some f) = hold f ∷ []

pub releasing : Option ℕ → List Effect
releasing none = []
releasing (some f) = release f ∷ []

-- How an existing range lies to the new one.
pub data Overlap : Type 0 where
  apart same covered front back middle : Overlap

unfoldable pub overlap : Request → Bool → MappedRange → Overlap
overlap q keep_pages r =
    if leb (end r) q.base || leb (until q) r.base
    then apart
    else if leb q.base r.base
    then (if leb (end r) (until q)
        then (if keep_pages && q.base == r.base && until q == end r && is_type q.type r.kind
            then same
            else covered)
        else front)
    else if leb (end r) (until q)
    then back
    else middle

-- What remains of a range that the new one overlaps in front, behind and in the middle, and the second
-- piece in the last case, which `add_range` makes as a new range.
pub behind : Request → MappedRange → MappedRange
behind q r =
    let over = sub64 (until q) r.base in
    record r { base = add64 r.base over; length = sub64 r.length over }

pub before : Request → MappedRange → MappedRange
before q r = record r { length = sub64 r.length (sub64 (end r) q.base) }

pub first_piece : Request → MappedRange → MappedRange
first_piece q r = record r { length = sub64 q.base r.base }

pub second_piece : Request → MappedRange → MappedRange
second_piece q r =
    let offset = sub64 (until q) r.base in
    record {
      base = until q;
      original_base = until q;
      length = sub64 (end r) (until q);
      page_flags = r.page_flags;
      kind = r.kind;
      phy_base = if r.phy_base == 0 then 0 else add64 r.phy_base offset;
      file = r.file;
      file_offset = add64 r.file_offset offset;
    }

-- A new range goes behind the first one that is the last or has a successor with a higher base.
pub fits : MappedRange → List MappedRange → Bool
fits r [] = true
fits r (next ∷ _) = ltb r.base next.base

pub insert : MappedRange → List MappedRange → List MappedRange
insert r [] = r ∷ []
insert r (previous ∷ rest) = if fits r rest then previous ∷ r ∷ rest else previous ∷ insert r rest

-- The same for the list that a pass has gone through up to some point: what is before that point
-- and what is after it.
pub place : MappedRange → List MappedRange → List MappedRange → List MappedRange × List MappedRange
place r [] todo = ([], insert r todo)
place r (previous ∷ seen) todo =
    let (s, t) = place r seen todo in
    if fits r (seen ++ todo) then (previous ∷ r ∷ seen, todo) else (previous ∷ s, t)

-- What the loop over the overlaps ends with: the existing range stays, or all overlaps are resolved and
-- whether there was one. `stuck` is a pass that has no fuel left.
pub data Resolved : Type 0 where
  stays : List MappedRange → List Effect → Resolved
  resolved : List MappedRange → Bool → List Effect → Resolved
  stuck : Resolved

-- One pass; the fuel is the number of ranges that it may look at.
pub pass : ℕ → Request → Bool → List MappedRange → List MappedRange → Bool → List Effect → Resolved
pass fuel q keep seen [] had effects = resolved seen had effects
pass zero q keep seen (r ∷ todo) had effects = stuck
pass (suc fuel) q keep seen (r ∷ todo) had effects = elim (overlap q keep r) [
  | apart ↦ pass fuel q keep (seen ++ (r ∷ [])) todo had effects
  | same ↦ stays (seen ++ (record r { page_flags = q.page_flags } ∷ todo)) (
      if r.page_flags == q.page_flags
      then effects
      else effects ++ (invalidate r.base r.length (some q.page_flags) ∷ []))
  | covered ↦
      pass fuel q keep seen todo true
        (effects ++ (invalidate r.base r.length none ∷ releasing r.file))
  | front ↦ pass fuel q keep (seen ++ (behind q r ∷ [])) todo true effects
  | back ↦ pass fuel q keep (seen ++ (before q r ∷ [])) todo true effects
  | middle ↦
      let piece = second_piece q r in
      let (s, t) = place piece (seen ++ (first_piece q r ∷ [])) todo in
      pass fuel q keep s t true (
        effects
        ++ holding r.file
        ++ (invalidate piece.base piece.length (some piece.page_flags) ∷ []))
]

-- `while (need_to_resolve_overlap)`, with what is left to do when a pass found an overlap
pub next_pass : (List MappedRange → Bool → List Effect → Resolved) → Bool → Resolved → Resolved
next_pass continue had (stays ranges effects) = stays ranges effects
next_pass continue had (resolved ranges false effects) = resolved ranges had effects
next_pass continue had (resolved ranges true effects) = continue ranges true effects
next_pass continue had stuck = stuck

-- The passes, until one finds no overlap; the fuel bounds their number.
pub resolve : ℕ → Request → Bool → List MappedRange → Bool → List Effect → Resolved
resolve zero q keep ranges had effects = stuck
resolve (suc fuel) q keep ranges had effects =
    next_pass (resolve fuel q keep) had (pass (2 * length ranges) q keep [] ranges false effects)

-- The range stays before what a merge further on leaves.
pub after : MappedRange → Option (List MappedRange × ℕ) → Option (List MappedRange × ℕ)
after r none = none
after r (some (rs, flags)) = some (r ∷ rs, flags)

-- An anonymous range grows by a new one that it touches.
pub merge : Request → List MappedRange → Option (List MappedRange × ℕ)
merge q [] = none
merge q (r ∷ rs) =
    let rest = after r (merge q rs) in
    if is_type q.type r.kind && q.page_flags == r.page_flags
    then (if q.base == end r
        then some (record r { length = add64 r.length q.length } ∷ rs, r.page_flags)
        else if until q == r.base
        then some (
          record r { base = sub64 r.base q.length; length = add64 r.length q.length } ∷ rs,
          r.page_flags,
        )
        else rest)
    else rest

pub new_range : Request → Kind → MappedRange
new_range q k = record {
  base = q.base;
  original_base = q.base;
  length = q.length;
  page_flags = q.page_flags;
  kind = k;
  phy_base = q.phy_base;
  file = q.file;
  file_offset = q.file_offset;
}

-- `if (had_overlap) invalidate_pages(...)`
pub flush_if : Bool → Request → ℕ → List Effect
flush_if had q flags = if had then invalidate q.base q.length (some flags) ∷ [] else []

-- After the overlaps are resolved.
pub put_type :
    Option Kind → Request → Bool → List MappedRange → List Effect → List MappedRange × List Effect
put_type none q had ranges effects = (ranges, effects ++ (invalidate q.base q.length none ∷ []))
put_type (some k) q had ranges effects =
    (insert (new_range q k) ranges, effects ++ holding q.file ++ flush_if had q q.page_flags)

pub put_range : Request → Bool → List MappedRange → List Effect → List MappedRange × List Effect
put_range q had ranges effects = put_type q.type q had ranges effects

pub merged :
    Request
    → Bool
    → List Effect
    → List MappedRange × List Effect
    → Option (List MappedRange × ℕ)
    → List MappedRange × List Effect
merged q had effects unmerged none = unmerged
merged q had effects unmerged (some (rs, flags)) = (rs, effects ++ flush_if had q flags)

pub merge_or_put :
    Request → Bool → Bool → List MappedRange → List Effect → List MappedRange × List Effect
merge_or_put q mergeable had ranges effects =
    if mergeable && is_type q.type anonymous
    then merged q had effects (put_range q had ranges effects) (merge q ranges)
    else put_range q had ranges effects

-- `add_range` with resolve_overlap set. Two passes are enough; `none` is a third one.
pub conclude : Request → Bool → Resolved → Option (List MappedRange × List Effect)
conclude q mergeable (stays ranges effects) = some (ranges, effects)
conclude q mergeable (resolved ranges had effects) =
    some (merge_or_put q mergeable had ranges effects)
conclude q mergeable stuck = none

pub add_range : Request → Bool → Bool → List MappedRange → Option (List MappedRange × List Effect)
add_range q mergeable keep ranges = conclude q mergeable (resolve 2 q keep ranges false [])
