-- ===== src/Mem/Ranges/Tests.antt =====
-- Tests of the mapped ranges on a process with a file mapping and two anonymous ones, and the theorems at
-- concrete calls.
use saba_os.Base.{
  ℕ, ◌≡◌, refl, Bool, true, false, List, [], ◌∷◌, ◌++◌, Option, none, some, arith, All,
}
use saba_os.Mem.Ranges.{MappedRange, Kind, direct, anonymous, file_backed, end}
use saba_os.Mem.Ranges.Cover.{covering, IsSound}
use saba_os.Mem.Ranges.Add.{IsDisjoint}
use saba_os.Mem.Ranges.Calls.{Space, Prot, addr_to_range, find_range, in_range}
use saba_os.Mem.Ranges.Calls.Lookup.{Coheres, addr_to_range_lem}
use saba_os.Mem.Ranges.Calls.Unmap.{IsSpace}

abbrev range : ℕ → ℕ → ℕ → Kind → Option ℕ → MappedRange
range base length flags kind file = record {
  base = base;
  original_base = base;
  length = length;
  page_flags = flags;
  kind = kind;
  phy_base = 0;
  file = file;
  file_offset = 0;
}

abbrev library : MappedRange
library = range 0x10000 0x4000 5 file_backed (some 3)

abbrev heap : MappedRange
heap = range 0x20000 0x2000 7 anonymous none

abbrev process : Space
process = record {
  ranges = library ∷ heap ∷ [];
  cached = some heap;
  mmap_anon_base = 0x30000;
  brk = 0x21800;
  effects = [];
}

abbrev read_only : Prot
read_only = record { write = false; exec = false }

abbrev kernel_half : List MappedRange
kernel_half = range 0xffff0000 0x10000 3 direct none ∷ []

process-IsSpace : IsSpace process
unfolding covering
process-IsSpace = record {
  sound = (
    record { bounded = omega arith; no_file = λ e. absurd (ground (arith, e)) },
    (record { bounded = omega arith; no_file = λ e. refl }, tt),
  );
  disjoint = λ a. ground arith;
}

abbrev any_kind : Kind → ℕ → Option ℕ → Bool
any_kind kind flags file = true

kernel_half-IsSound : All IsSound kernel_half
kernel_half-IsSound =
    (record { bounded = omega arith; no_file = λ e. absurd (ground (arith, e)) }, tt)

all-IsDisjoint : IsDisjoint (process.ranges ++ kernel_half)
unfolding covering
all-IsDisjoint a = ground arith

process-Coheres : Coheres (process.ranges ++ kernel_half) process.cached
unfolding Coheres find_range in_range end
process-Coheres a = ground arith

addr_to_range_example :
    let (t, found) = addr_to_range kernel_half process 0x11111 in
    (found ≡ find_range (process.ranges ++ kernel_half) 0x11111)
    × Coheres (process.ranges ++ kernel_half) t.cached
    × (t.ranges ≡ process.ranges)
addr_to_range_example =
    addr_to_range_lem kernel_half process 0x11111
      (process-IsSpace.sound.0, (process-IsSpace.sound.1.0, kernel_half-IsSound)) all-IsDisjoint
      process-Coheres

abbrev trimmed : MappedRange
trimmed = record library { base = 0x11000; length = 0x3000 }
