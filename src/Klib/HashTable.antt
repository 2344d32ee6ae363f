-- ===== src/Klib/HashTable.antt =====
-- klib/hashtable.hpp: the hash table with chaining, for keys that are numbers. `hash` is `klib::hash`. A table
-- is made with at least one bucket.
pub mod Entries
pub mod Assoc
pub mod Lookup
mod Tests
use saba_os.Base.{
  ℕ, suc, ◌+◌, ◌-◌, ◌%◌, Bool, true, false, if◌then◌else◌, ◌==◌, List, [], ◌∷◌, ◌++◌, Option, none,
  some,
}

pub record Entry (V : Type 0) : Type 0 where
  pub key : ℕ
  pub value : V

pub record HashTable (V : Type 0) : Type 0 where
  pub table : ℕ → List (Entry V)
  pub table_size : ℕ
  pub num_stored : ℕ

module _ {V : Type 0} where
  pub find_entry : ℕ → List (Entry V) → Option V
  find_entry key [] = none
  find_entry key (e ∷ es) =
      let rest = find_entry key es in if e.key == key then some e.value else rest

  pub has_entry : ℕ → List (Entry V) → Bool
  has_entry key [] = false
  has_entry key (e ∷ es) = let rest = has_entry key es in if e.key == key then true else rest

  -- The first entry with the key is unlinked.
  pub unlink_entry : ℕ → List (Entry V) → List (Entry V)
  unlink_entry key [] = []
  unlink_entry key (e ∷ es) =
      let rest = unlink_entry key es in if e.key == key then es else e ∷ rest

  pub make : ℕ → HashTable V
  make size = record { table = λ i. []; table_size = size; num_stored = 0 }

module _ {V : Type 0} (hash : ℕ → ℕ) where
  pub bucket : HashTable V → ℕ → ℕ
  bucket t key = hash key % t.table_size

  -- `operator []`
  pub lookup : HashTable V → ℕ → Option V
  lookup t key = find_entry key (t.table (bucket t key))

  pub with_bucket : HashTable V → ℕ → List (Entry V) → ℕ → List (Entry V)
  with_bucket t i es j = if j == i then es else t.table j

  pub emplace : ℕ → V → HashTable V → HashTable V
  emplace key value t =
      let i = bucket t key in
      record t {
        table = with_bucket t i (record { key = key; value = value } ∷ t.table i);
        num_stored = t.num_stored + 1;
      }

  pub remove : ℕ → HashTable V → HashTable V
  remove key t =
      let i = bucket t key in
      if has_entry key (t.table i)
      then record t {
        table = with_bucket t i (unlink_entry key (t.table i));
        num_stored = t.num_stored - 1;
      }
      else t

-- A call on a table.
pub data Call (V : Type 0) : Type 0 where
  emplaces : ℕ → V → Call V
  removes : ℕ → Call V

pub run : {V : Type 0} → (ℕ → ℕ) → List (Call V) → HashTable V → HashTable V
run hash [] t = t
run hash (emplaces k v ∷ cs) t = run hash cs (emplace hash k v t)
run hash (removes k ∷ cs) t = run hash cs (remove hash k t)
