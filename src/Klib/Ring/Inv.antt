-- ===== src/Klib/Ring/Inv.antt =====
-- The representation invariant of the ring and the counts.
use native.Mathlib.Nat.{mod-mod_of_dvd, mod-add-mod, mod-eq_of_lt, mod-eq-sub-mod}
use saba_os.Base.{
  ℕ, ◌+◌, ◌-◌, ◌%◌, ◌^◌, ◌≤◌, ◌<◌, ◌∣◌, ◌≡◌, ◌∙◌, sym, ap, ltb, if◌then◌else◌, Bool-cases, inl, inr,
  arith, add64, sub64,
}
use saba_os.Klib.Ring.{Ring, data_count, free_count}

-- The capacity divides 2 ^ 64, so that an index that wraps keeps its place in the storage.
pub record IsValid {ℓ} {T : Type ℓ} (size : ℕ) (r : Ring T) : Type 0 where
  pub nonzero : 0 < size
  pub divides : size ∣ 2 ^ 64
  pub small : size < 2 ^ 64
  pub read_in : r.read_index < 2 ^ 64
  pub write_in : r.write_index < 2 ^ 64
  pub fits : sub64 r.write_index r.read_index ≤ size

-- The place of the cell that is `i` behind a base: either no wrap, or one.
pub place :
    (size base i : ℕ)
    → 0 < size
    → i ≤ size
    → (base + i) % size
      ≡ (if ltb (base % size + i) size then base % size + i else base % size + i - size)
place size base i pos le = elim (Bool-cases (ltb (base % size + i) size)) [
  | inl lt ↦ rw (lt, ← mod-add-mod base size i) (mod-eq_of_lt (ground arith))
  | inr ge ↦
      rw (ge, ← mod-add-mod base size i)
        (mod-eq-sub-mod (ground arith) ∙ mod-eq_of_lt (ground arith))
]

-- An index advanced modulo 2 ^ 64 reaches the same cell as one that does not wrap.
pub place-add64 :
    (size base n i : ℕ) → size ∣ 2 ^ 64 → (add64 base n + i) % size ≡ (base + (n + i)) % size
place-add64 size base n i d =
    sym (mod-add-mod (add64 base n) size i)
    ∙ ap (λ k. (k + i) % size) (mod-mod_of_dvd size (base + n) d)
    ∙ mod-add-mod (base + n) size i
    ∙ ap (λ k. k % size) (omega arith)

module _ {ℓ} {T : Type ℓ} {size : ℕ} {r : Ring T} (v : IsValid size r) where
  pub data-add-free : data_count size r + free_count size r ≡ size
  unfolding free_count
  data-add-free = omega (arith, v.fits, v.small)

  pub data_count-le : data_count size r ≤ size
  unfolding data_count
  data_count-le = v.fits
