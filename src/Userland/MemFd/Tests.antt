-- ===== src/Userland/MemFd/Tests.antt =====
-- A file of six bytes in an allocation of one page.
use saba_os.Base.{ℕ, ◌+◌, ◌≡◌, ◌≤◌, ◌<◌, ◌⊎◌, Buffer, ok, arith}
use saba_os.Userland.MemFd.{MemFd, write}
use saba_os.Userland.MemFd.Loss.{IsValid, grown_byte, write_or_lose}

abbrev old : Buffer ℕ
old i = i + 1

abbrev input : Buffer ℕ
input i = i + 65

abbrev sample : MemFd
sample = record { size = 6; capacity = 0x1000; storage = old }

sample-IsValid : IsValid sample
sample-IsValid = record { fits = omega arith; small = omega arith }

write_or_lose_example :
    let (f', r) = write input sample input 7 5000 in
    (r ≡ ok 7)
    × (f'.size ≡ 5007)
    × IsValid f'
    × ((i : ℕ) → i < 7 → f'.storage (5000 + i) ≡ input i)
    × ((i : ℕ) → (i < 5000) ⊎ (5007 ≤ i) → f'.storage i ≡ grown_byte input sample 5007 i)
write_or_lose_example =
    write_or_lose input sample input 7 5000 sample-IsValid (omega arith) (omega arith)
