-- ===== src/Klib/HashTable/Tests.antt =====
-- A table of two buckets in which two keys collide.
use saba_os.Base.{ℕ, ◌≡◌, List, [], ◌∷◌, length}
use saba_os.Klib.HashTable.{Call, emplaces, removes, find_entry, lookup, make, run}
use saba_os.Klib.HashTable.Assoc.{run_list, run_lem}

abbrev calls : List (Call ℕ)
calls = emplaces 3 30 ∷ emplaces 5 50 ∷ emplaces 3 31 ∷ removes 3 ∷ []

run_example :
    let t = run (λ k. k) calls (make 2) in
    (lookup (λ k. k) t 3 ≡ find_entry 3 (run_list calls []))
    × (t.num_stored ≡ length (run_list calls []))
run_example = run_lem (λ k. k) 2 calls 3
