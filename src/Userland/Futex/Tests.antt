-- ===== src/Userland/Futex/Tests.antt =====
-- Two words of one page that is present.
use saba_os.Base.{ℕ, ◌≡◌, refl, ap, false, [], ◌∷◌, none, some, ok}
use saba_os.Klib.Hash.{hash}
use saba_os.Klib.HashTable.{make}
use saba_os.Klib.HashTable.Lookup.{lookup-make}
use saba_os.Sched.Event.{fresh_event}
use saba_os.Mem.Access.{Pagemap, get_physical_addr}
use saba_os.Userland.Futex.{Futexes, sleeps, find_event, futex_wait, futex_wake}
use saba_os.Userland.Futex.Wake.{listening}
use saba_os.Userland.Futex.Joined.{IsValid, Joins}
use saba_os.Userland.Futex.Wait.{futex_wait_lem, wakes_other_word}

abbrev pagemap : Pagemap
pagemap = record { page_table_entry = λ n. 0x5003; fault = λ v. none }

abbrev no_futexes : Futexes
no_futexes = record { futex_hash_table = make 256; events = λ i. fresh_event; num_events = 0 }

no_event : (q : ℕ) → find_event no_futexes q ≡ none
unfolding find_event
no_event q = lookup-make ℕ hash 256 q

no_futexes-IsValid : IsValid no_futexes
no_futexes-IsValid = record {
  counts = λ id. refl;
  idle = λ id. refl;
  made = λ q id e. absurd (distinct_options q id (no_event q) e);
  apart = λ q r id e g. absurd (distinct_options q id (no_event q) e);
}
  where
    distinct_options :
        (q id : ℕ) → find_event no_futexes q ≡ none → find_event no_futexes q ≡ some id → ⊥
    distinct_options q id e g = cc

futex_wait_example :
    let (f', s) = futex_wait pagemap 0x8008 1 1 3 false no_futexes in
    IsValid f'
    × ((id : ℕ) × (s ≡ sleeps id))
    × Joins no_futexes 0x5000 (record { thread = 3; which = 0 } ∷ []) f'
unfolding get_physical_addr
futex_wait_example = futex_wait_lem pagemap 0x8008 0x5000 1 3 no_futexes no_futexes-IsValid refl

nobody : listening no_futexes (find_event no_futexes 0x5000) ≡ []
unfolding listening
nobody = ap (listening no_futexes) (no_event 0x5000)

wakes_other_word_example :
    let (f1, s1) = futex_wait pagemap 0x8008 1 1 3 false no_futexes in
    let (f2, s2) = futex_wait pagemap 0x8010 2 2 4 false f1 in
    let (f3, ret, woken) = futex_wake pagemap 0x8010 1 f2 in
    (ret ≡ ok 1) × (woken ≡ record { thread = 3; which = 0 } ∷ [])
unfolding get_physical_addr
wakes_other_word_example =
    wakes_other_word pagemap 0x8008 0x8010 1 2 3 4 0x5000 no_futexes no_futexes-IsValid refl refl
      refl nobody
