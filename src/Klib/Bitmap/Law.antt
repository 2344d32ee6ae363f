-- ===== src/Klib/Bitmap/Law.antt =====
-- A bitmap is a function from its indices to bits.
use saba_os.Base.{
  ℕ, ◌/◌, ◌%◌, ◌≡◌, ◌≢◌, refl, inl, inr, Bool, update_self, update_other, eq_or_ne, arith, ap, sym,
}
use saba_os.Klib.Bitmap.{Bitmap, get, set_bit}

-- The bit that is set reads as the value, and every other bit as before.
pub get-set_bit :
    (b : Bitmap) (i : ℕ) (v : Bool)
    → (get (set_bit b i v) i ≡ v) × ((j : ℕ) → j ≢ i → get (set_bit b i v) j ≡ get b j)
unfolding get set_bit
get-set_bit b i v = (
  rw (update_self b.data_words (i / 64) _, update_self (b.data_words (i / 64)) (i % 64) v) refl,
  λ j ne. elim (eq_or_ne (j / 64) (i / 64)) [
    | inl word ↦
        let bit : j % 64 ≢ i % 64 = omega (arith, word, ne) in
        rw
          (
            word,
            update_self b.data_words (i / 64) _,
            update_other (b.data_words (i / 64)) (i % 64) v (j % 64) bit,
          )
          (ap (λ d. b.data_words d (j % 64)) (sym word))
    | inr other ↦ rw (update_other b.data_words (i / 64) _ (j / 64) other) refl
  ],
)
