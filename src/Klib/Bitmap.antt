-- ===== src/Klib/Bitmap.antt =====
-- klib/bitmap.hpp: a word of 64 bits is the function from bit numbers to bits.
pub mod Law
use saba_os.Base.{ℕ, ◌+◌, ◌-◌, ◌/◌, ◌%◌, Bool, ◌&&◌, if◌then◌else◌, ◌==◌, Buffer, update}

pub record Bitmap : Type 0 where
  pub data_words : Buffer (Buffer Bool)

pub get : Bitmap → ℕ → Bool
get b index = b.data_words (index / 64) (index % 64)

pub set_bit : Bitmap → ℕ → Bool → Bitmap
set_bit b index value =
    let d = index / 64 in
    record { data_words = update b.data_words d (update (b.data_words d) (index % 64) value) }
