-- ===== src/Mem/Bump.antt =====
-- mem/bump.hpp and mem/bump.cpp: memory that is given out from one end and never taken back. A failed
-- ASSERT is `none`; a null pointer is the address 0. The lock is held throughout.
pub mod Disjoint
use saba_os.Base.{
  ℕ, ◌+◌, ◌-◌, ◌%◌, ◌^◌, Bool, if◌then◌else◌, ltb, ◌==◌, Option, none, some, List, [], ◌∷◌, add64,
  sub64, Buffer, memcpy,
}
use saba_os.Klib.Algorithm.{align_up}

pub record Bump : Type 0 where
  pub alloc_base : ℕ
  pub total_size : ℕ
  pub alloc_ptr : ℕ

pub init : ℕ → ℕ → Bump → Bump
init base size b = record b { alloc_base = base; total_size = size }

abbrev pub default_alignment : ℕ
default_alignment = 16

pub allocate : ℕ → ℕ → Bump → Option (Bump × ℕ)
allocate size alignment b =
    let ret = align_up (add64 b.alloc_base b.alloc_ptr) alignment % 2 ^ 64 in
    let end = add64 (sub64 ret b.alloc_base) size in
    if size == 0
    then some (b, 0)
    else if ltb end b.total_size
    then some (record b { alloc_ptr = end }, ret)
    else none

-- `free` does nothing.
pub free : ℕ → Bump → Bump
free ptr b = b

-- The memory that is copied is as long as the new allocation.
pub reallocated : ℕ → ℕ → Buffer ℕ → Option (Bump × ℕ) → Option (Bump × ℕ × Buffer ℕ)
reallocated ptr size memory none = none
reallocated ptr size memory (some (b, newptr)) =
    some (free ptr b, newptr, memcpy memory newptr memory ptr size)

pub reallocate : ℕ → ℕ → Buffer ℕ → Bump → Option (Bump × ℕ × Buffer ℕ)
reallocate ptr size memory b =
    let fresh = allocate size default_alignment b in
    if ptr == 0
    then (elim fresh [ none ↦ none | some r ↦ some (r.0, r.1, memory) ])
    else if size == 0
    then some (free ptr b, 0, memory)
    else reallocated ptr size memory fresh
