-- ===== src/Klib/Algorithm.antt =====
-- klib/algorithm.hpp: rounding and clamping. What overflows 64 bits is left out: the callers' sizes are
-- below that.
pub mod Rounding
use saba_os.Base.{ℕ, zero, suc, ◌+◌, ◌*◌, ◌/◌, ◌%◌, if◌then◌else◌, ltb, ◌==◌}

pub min_of : ℕ → ℕ → ℕ
min_of a b = if ltb b a then b else a

pub max_of : ℕ → ℕ → ℕ
max_of a b = if ltb a b then b else a

pub clamp : ℕ → ℕ → ℕ → ℕ
clamp v low high = min_of (max_of v low) high

unfoldable pub align_up : ℕ → ℕ → ℕ
align_up i alignment = if i % alignment == 0 then i else (i / alignment + 1) * alignment

unfoldable pub align_down : ℕ → ℕ → ℕ
align_down i alignment = if i % alignment == 0 then i else i / alignment * alignment

-- `bits_to<T>(i)`, with the bits of T
pub bits_to : ℕ → ℕ → ℕ
bits_to bits i = align_up i bits / bits

-- `num_digits(x, base)` on fuel; a number below 2 ^ 64 has at most 64 digits.
pub num_digits : ℕ → ℕ → ℕ → ℕ
num_digits zero x base = 0
num_digits (suc fuel) x base =
    let rest = num_digits fuel (x / base) base in if x / base == 0 then 0 else 1 + rest
