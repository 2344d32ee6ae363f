-- ===== src/Mem/Ranges/Position.antt =====
-- mem/vmm.cpp: the place in the file that backs an address, before and after a range is cut in two.
use saba_os.Base.{ℕ, ◌+◌, ◌-◌, ◌^◌, ◌≤◌, ◌<◌, ◌≡◌, arith, add64, sub64}
use saba_os.Mem.Ranges.{MappedRange, Request, second_piece}
use saba_os.Mem.Ranges.Cover.{IsSound}
use saba_os.Mem.Ranges.Overlaps.{IsBounded, until_lem}

-- The offset that `handle_page_fault` reads a page of a file mapping from.
pub file_position : MappedRange → ℕ → ℕ
file_position r page = add64 (sub64 page r.original_base) r.file_offset

-- When a sound range that starts at or after the place where it was made is cut in two by an interval that
-- ends below 2 ^ 64, the second piece reads each of its pages from a place that lies before the one that
-- the whole range read it from, by as much as the front of the range was cut off earlier, for positions
-- below 2 ^ 63.
pub second_piece-position :
    (q : Request) (r : MappedRange) (page : ℕ)
    → IsBounded q
    → IsSound r
    → r.original_base ≤ r.base
    → r.base < q.base
    → q.base + q.length < r.base + r.length
    → q.base + q.length ≤ page
    → page < r.base + r.length
    → r.file_offset + r.base + r.length < 2 ^ 63
    → file_position (second_piece q r) page + (r.base - r.original_base) ≡ file_position r page
unfolding file_position second_piece
second_piece-position q r page b s o l h lo hi small =
    rw (until_lem q b) (omega (arith, s.bounded, o, l, h, lo, hi, small))
