-- ===== src/Fs/Tmpfs/Tests.antt =====
-- A file of six bytes in an allocation of eight.
use saba_os.Base.{ℕ, ◌+◌, ◌≡◌, refl, false, Buffer, ok, arith}
use saba_os.Fs.Tmpfs.{Node, write}
use saba_os.Fs.Tmpfs.Content.{IsValid, Written, write_lem}

abbrev old : Buffer ℕ
old i = i + 1

abbrev input : Buffer ℕ
input i = i + 65

abbrev sample : Node
sample = record { is_directory = false; size = 6; capacity = 8; storage = old }

sample-IsValid : IsValid sample
sample-IsValid = record { file = refl; fits = omega arith; small = omega arith }

write_example : let (n', r) = write old sample input 7 4 in (r ≡ ok 7) × Written sample input 7 4 n'
write_example = write_lem old sample input 7 4 sample-IsValid (omega arith) (omega arith)
