-- ===== src/Klib/Hash.antt =====
-- klib/common.hpp: the hash functions. Words are 64 bits wide, and 32 bits in the hash of a string.
use Prim.Native.Nat.{bit_xor}
use saba_os.Base.{ℕ, ◌+◌, ◌-◌, ◌*◌, ◌/◌, ◌%◌, ◌^◌, if◌then◌else◌, ltb, List, [], ◌∷◌, add64}

-- A signed `char` as the u32 that it is converted to.
unfoldable pub extend_char : ℕ → ℕ
extend_char c = if ltb c 128 then c else c + 2 ^ 32 - 256

-- `hash(const char*)`, from the hash of what is already read.
unfoldable pub hash_string : ℕ → List ℕ → ℕ
hash_string h [] = h
hash_string h (c ∷ cs) = hash_string (bit_xor ((h * 2 ^ 5 + h) % 2 ^ 32) (extend_char c)) cs

-- `h ^= h >> 33`
abbrev pub fold33 : ℕ → ℕ
fold33 h = bit_xor h (h / 2 ^ 33)

pub hash : ℕ → ℕ
hash h = fold33 (fold33 (fold33 h * 0xff51afd7ed558ccd % 2 ^ 64) * 0xc4ceb9fe1a85ec53 % 2 ^ 64)

pub hash_combine : ℕ → ℕ → ℕ
hash_combine old_hash new_hash =
    let mixed = add64 (add64 new_hash 0x9e3779b97f4a7c15) (old_hash * 2 ^ 6 % 2 ^ 64) in
    bit_xor old_hash (add64 mixed (old_hash / 2 ^ 2))
