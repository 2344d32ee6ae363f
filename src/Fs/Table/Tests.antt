-- ===== src/Fs/Table/Tests.antt =====
-- A process that has opened two descriptions.
use saba_os.Base.{
  ℕ, ◌+◌, ◌≡◌, ◌≢◌, ◌<◌, ◌⊎◌, refl, false, true, none, some, [], ◌∷◌, ◌++◌, ok, length, arith,
}
use saba_os.Fs.Table.{
  Table, slot, install, allocate_fdnum, after_scan, find_free, get_file_description, syscall_close,
  dup3_impl,
}
use saba_os.Fs.Table.Count.{total, holds}
use saba_os.Fs.Table.Refs.{IsValid}
use saba_os.Fs.Table.Calls.{install-IsValid, dup3_impl-IsValid}
use saba_os.Fs.Table.Behaviour.{syscall_close_lem}

-- Nobody else holds a description.
abbrev nobody : ℕ → ℕ
nobody d = 0

abbrev start : Table
start = record {
  file_descriptors = [];
  num_file_descriptors = 0;
  first_free_fdnum = 0;
  ref_count = λ d. 0;
  deleted = [];
}

start-IsValid : IsValid nobody start
unfolding total
start-IsValid = record {
  low = record { within = omega arith; below = λ i l. absurd (omega arith) };
  refs = λ d. omega arith;
}

abbrev one : Table
one = (install 7 false start).1

one-IsValid : IsValid nobody one
one-IsValid = install-IsValid nobody start 7 false start-IsValid refl

one_holds : get_file_description one 0 ≡ some 7
unfolding install allocate_fdnum after_scan find_free
one_holds = refl

one_rest : get_file_description one 5 ≡ none
unfolding install allocate_fdnum after_scan find_free
one_rest = refl

one_length : length one.file_descriptors ≡ 1
unfolding install allocate_fdnum after_scan find_free
one_length = refl

dup3_impl-IsValid_example : IsValid nobody (dup3_impl 0 5 false true one).0
dup3_impl-IsValid_example = dup3_impl-IsValid nobody one 0 5 false true one-IsValid

syscall_close_example :
    let (t', ret) = syscall_close 0 one in
    (ret ≡ ok 0)
    × (get_file_description t' 0 ≡ none)
    × ((i : ℕ) → i ≢ 0 → slot t' i ≡ slot one i)
    × (((t'.deleted ≡ one.deleted ++ (7 ∷ []))
          × (total (holds 7) t'.file_descriptors + nobody 7 ≡ 0))
        ⊎ ((t'.deleted ≡ one.deleted) × (0 < total (holds 7) t'.file_descriptors + nobody 7)))
syscall_close_example = syscall_close_lem nobody one 0 7 one-IsValid one_holds
