-- ===== src/Mem/Ranges/Calls/Unmap.antt =====
-- mem/vmm.cpp: what munmap, brk and an anonymous mmap do to what backs each address of a process.
use saba_os.Base.{
  ℕ, ◌+◌, ◌-◌, ◌<◌, ◌≡◌, refl, Bool, ◌&&◌, leb, ltb, ◌++◌, All, arith, Option, none, some,
  if◌then◌else◌,
}
use saba_os.Mem.Ranges.{Request, Kind}
use saba_os.Mem.Ranges.Cover.{Backing, IsSound}
use saba_os.Mem.Ranges.Add.{IsDisjoint, IsProper}
use saba_os.Mem.Ranges.Cuts.{CutsWhole}
use saba_os.Mem.Ranges.Update.{NamesFile, add_range_all, Updated}
use saba_os.Mem.Ranges.Calls.{Space, call_add_range, with_added}

-- The ranges are sound and hold no address twice.
pub record IsSpace (s : Space) : Type 0 where
  pub sound : All IsSound s.ranges
  pub disjoint : IsDisjoint s.ranges

-- The address is in the interval from `base` on.
abbrev pub within : ℕ → ℕ → ℕ → Bool
within base length a = leb base a && ltb a (base + length)

-- A call of `add_range` on a space: its other fields stay, but for the cache and the effects.
pub call_add_range_lem :
    (q : Request) (mergeable keep : Bool) (s : Space)
    → IsProper q
    → All (NamesFile q keep) s.ranges
    → IsSpace s
    → (t : Space) × (call_add_range q mergeable keep s ≡ some t)
      × IsSpace t
      × (t.brk ≡ s.brk)
      × (t.cached ≡ none)
      × ((p : Backing → Bool) (a : ℕ)
          → All (CutsWhole q keep p) s.ranges
          → Updated q p a s.ranges t.ranges)
unfolding call_add_range with_added
call_add_range_lem q mergeable keep s b f v =
    let (rs, es, e, sound, disjoint, view) =
      add_range_all q mergeable keep s.ranges b v.sound f v.disjoint in
    (
      record s { ranges = rs; cached = none; effects = s.effects ++ es },
      simp e refl,
      record { sound = sound; disjoint = disjoint },
      refl,
      refl,
      view,
    )

-- A test that does not look at the place.
abbrev pub placeless : (Kind → ℕ → Option ℕ → Bool) → Backing → Bool
placeless p b = p b.kind b.page_flags b.file

-- The cases of a bound that moves up, down or not at all.
grown :
    (old new a m n : ℕ)
    → old < new
    → (if within old (new - old) a then m else n)
      ≡ (if leb old a && ltb a new then m else if leb new a && ltb a old then 0 else n)
grown old new a m n h = ground arith
