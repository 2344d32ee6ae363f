-- ===== src/Mem/Access/Tests.antt =====
-- An interval of two pages, of which the second is not there.
use saba_os.Base.{ℕ, ◌+◌, ◌≡◌, ◌<◌, ◌≤◌, ◌⊎◌, if◌then◌else◌, ◌==◌, none, ok, Buffer, arith}
use saba_os.Mem.Access.{Pagemap, access_memory, stopped_at}
use saba_os.Mem.Access.Bytes.{Copied, byte_addr, access_memory_lem}

abbrev pagemap : Pagemap
pagemap = record { page_table_entry = λ n. if n == 2 then 0x7003 else 0; fault = λ v. none }

abbrev memory : Buffer ℕ
memory a = a + 1

abbrev target : Buffer ℕ
target i = 0

access_memory_example :
    let (after, ret) = access_memory pagemap memory 0x2ff0 target 64 in
    (n : ℕ) × (n ≤ 64)
    × Copied pagemap memory 0x2ff0 0 n target after
    × (((n ≡ 64) × (ret ≡ ok 64))
        ⊎ ((n < 64) × (byte_addr pagemap (0x2ff0 + n) ≡ none) × (ret ≡ stopped_at n)))
access_memory_example = access_memory_lem pagemap memory 0x2ff0 target 64 (omega arith)
