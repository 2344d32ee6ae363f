-- ===== src/Userland/Futex/Decode.antt =====
-- What the decoding gives for a word that is put together in the documented order: the operation in the
-- highest four bits, then four bits of comparison, then the two arguments of twelve bits.
use saba_os.Base.{ℕ, ◌+◌, ◌*◌, ◌^◌, ◌≡◌, ◌<◌, arith}
use saba_os.Userland.Futex.{decode}

-- The fields of the comparison and of the first argument come out in each other's place.
pub decode_swaps :
    (op cmp op_arg cmp_arg : ℕ)
    → op < 2 ^ 4
    → cmp < 2 ^ 4
    → op_arg < 2 ^ 12
    → cmp_arg < 2 ^ 12
    → let w = decode (op * 2 ^ 28 + cmp * 2 ^ 24 + op_arg * 2 ^ 12 + cmp_arg) in
      (w.op ≡ op) × (w.op_arg ≡ cmp) × (w.cmp ≡ op_arg) × (w.cmp_arg ≡ cmp_arg)
unfolding decode
decode_swaps op cmp op_arg cmp_arg a b c d = (omega arith, omega arith, omega arith, omega arith)
