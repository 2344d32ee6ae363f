-- ===== src/Klib/HashTable/Lookup.antt =====
-- klib/hashtable.hpp: what one call does to every lookup, in a table that has no key twice.
use saba_os.Base.{
  ℕ, ◌≡◌, refl, sym, ◌∙◌, ap, subst, inl, inr, false, if◌then◌else◌, ◌==◌, List, [], ◌∷◌, none,
  some, Bool-cases, arith,
}
use saba_os.Klib.HashTable.Entries.{
  with_key, find-with_key, rest_of, unlink-with_key_self, unlink-with_key_other, no_entry,
}
use saba_os.Klib.HashTable.Assoc.{with_bucket_self, with_bucket_other}
use saba_os.Klib.HashTable.{
  Entry, HashTable, find_entry, has_entry, unlink_entry, make, bucket, lookup, with_bucket, emplace,
  remove,
}

module _ {V : Type 0} where
  not_found : (k : ℕ) (es : List (Entry V)) → find_entry k es ≡ none → with_key k es ≡ []
  unfolding find_entry with_key
  not_found k [] h = refl
  not_found k (e ∷ es) h = elim (Bool-cases (e.key == k)) [
    | inl g ↦ absurd (some_none (rw g at h))
    | inr g ↦ simp g (not_found k es (rw g at h))
  ]
    where
      some_none : {v : V} → some v ≡ none → ⊥
      some_none e = cc

  with_key-push :
      (k j : ℕ) (v : V) (es : List (Entry V))
      → with_key j (record { key = k; value = v } ∷ es)
        ≡ (if k == j then record { key = k; value = v } ∷ with_key j es else with_key j es)
  unfolding with_key
  with_key-push k j v es = refl

  with_key-unlink :
      (k j : ℕ) (es : List (Entry V))
      → with_key j (unlink_entry k es) ≡ (if k == j then rest_of (with_key j es) else with_key j es)
  with_key-unlink k j es = elim (Bool-cases (k == j)) [
    | inl e ↦
        let here : k ≡ j = ground (arith, e) in
        rw e (
          subst (λ i. with_key i (unlink_entry k es) ≡ rest_of (with_key i es)) here
            (unlink-with_key_self k es))
    | inr e ↦ rw e (unlink-with_key_other k j es (ground (arith, e)))
  ]

  module _ (hash : ℕ → ℕ) where
    -- The entries with a key, where a lookup searches for it.
    unfoldable pub rows : HashTable V → ℕ → List (Entry V)
    rows t k = with_key k (t.table (bucket hash t k))

    -- No key stands twice.
    pub OneEach : HashTable V → Type 0
    OneEach t = (k : ℕ) → rest_of (rows t k) ≡ []

    lookup-rows : (t : HashTable V) (k : ℕ) → lookup hash t k ≡ find_entry k (rows t k)
    unfolding lookup rows
    lookup-rows t k = find-with_key k _

    -- The bucket of the key `k` is replaced by `es`.
    rows-with_bucket :
        (t : HashTable V) (k j : ℕ) (es : List (Entry V)) (f : List (Entry V) → List (Entry V))
        → ((j : ℕ)
            → with_key j es ≡ (
                if k == j
                then f (with_key j (t.table (bucket hash t k)))
                else with_key j (t.table (bucket hash t k))))
        → with_key j (with_bucket hash t (bucket hash t k) es (bucket hash t j))
          ≡ (if k == j then f (rows t j) else rows t j)
    unfolding rows
    rows-with_bucket t k j es f h = elim (Bool-cases (bucket hash t j == bucket hash t k)) [
      | inl b ↦
          let e : bucket hash t j ≡ bucket hash t k = ground (arith, b) in
          ap (with_key j) (with_bucket_self hash t _ _ es b)
          ∙ h j
          ∙ ap (λ i. if k == j then f (with_key j (t.table i)) else with_key j (t.table i)) (sym e)
      | inr b ↦
          let other : (k == j) ≡ false = ground (arith, b, ap (bucket hash t) {x = k} {y = j}) in
          ap (with_key j) (with_bucket_other hash t _ _ es b)
          ∙ ap (λ o. if o then f (rows t j) else rows t j) (sym other)
    ]

    rows-emplace :
        (k : ℕ) (v : V) (t : HashTable V) (j : ℕ)
        → rows (emplace hash k v t) j
          ≡ (if k == j then record { key = k; value = v } ∷ rows t j else rows t j)
    unfolding rows emplace bucket
    rows-emplace k v t j =
        rows-with_bucket t k j _ (λ es. record { key = k; value = v } ∷ es)
          (λ j. with_key-push k j v (t.table (bucket hash t k)))

    rows-remove :
        (k : ℕ) (t : HashTable V) (j : ℕ)
        → rows (remove hash k t) j ≡ (if k == j then rest_of (rows t j) else rows t j)
    unfolding rows remove bucket rest_of
    rows-remove k t j = elim (Bool-cases (has_entry k (t.table (bucket hash t k)))) [
      | inl h ↦
          simp h (
            rows-with_bucket t k j _ rest_of (λ j. with_key-unlink k j (t.table (bucket hash t k))))
      | inr h ↦ simp h (elim (Bool-cases (k == j)) [
        | inr e ↦ rw e refl
        | inl e ↦
            let here : k ≡ j = ground (arith, e) in
            rw e (
              subst (λ i. rows t i ≡ rest_of (rows t i)) here
                (no_entry k _ h ∙ sym (ap rest_of (no_entry k _ h))))
      ])
    ]

    pub lookup-emplace :
        (k : ℕ) (v : V) (t : HashTable V) (j : ℕ)
        → lookup hash (emplace hash k v t) j ≡ (if k == j then some v else lookup hash t j)
    unfolding find_entry
    lookup-emplace k v t j =
        lookup-rows _ j ∙ ap (find_entry j) (rows-emplace k v t j) ∙ elim (Bool-cases (k == j)) [
          | inl e ↦ rw e (ap (λ b. if b then some v else find_entry j (rows t j)) e)
          | inr e ↦ rw e (sym (lookup-rows t j))
        ]

    pub lookup-remove :
        (k : ℕ) (t : HashTable V) (j : ℕ)
        → OneEach t
        → lookup hash (remove hash k t) j ≡ (if k == j then none else lookup hash t j)
    unfolding OneEach find_entry
    lookup-remove k t j one =
        lookup-rows _ j ∙ ap (find_entry j) (rows-remove k t j) ∙ elim (Bool-cases (k == j)) [
          | inl e ↦ rw (e, one j) refl
          | inr e ↦ rw e (sym (lookup-rows t j))
        ]

    pub emplace-OneEach :
        (k : ℕ) (v : V) (t : HashTable V)
        → OneEach t
        → lookup hash t k ≡ none
        → OneEach (emplace hash k v t)
    unfolding OneEach rest_of rows lookup
    emplace-OneEach k v t one absent j =
        ap rest_of (rows-emplace k v t j) ∙ elim (Bool-cases (k == j)) [
          | inl e ↦
              let here : k ≡ j = ground (arith, e) in
              rw e (subst (λ i. rows t i ≡ []) here (not_found k _ absent))
          | inr e ↦ rw e (one j)
        ]

    pub remove-OneEach : (k : ℕ) (t : HashTable V) → OneEach t → OneEach (remove hash k t)
    unfolding OneEach rest_of
    remove-OneEach k t one j =
        ap rest_of (rows-remove k t j)
        ∙ elim (Bool-cases (k == j)) [ inl e ↦ rw (e, one j) refl | inr e ↦ rw e (one j) ]

pub make-OneEach : (V : Type 0) (hash : ℕ → ℕ) (size : ℕ) → OneEach hash (make {V = V} size)
unfolding OneEach make with_key rest_of rows
make-OneEach V hash size k = refl

pub lookup-make :
    (V : Type 0) (hash : ℕ → ℕ) (size k : ℕ) → lookup hash (make {V = V} size) k ≡ none
unfolding lookup make find_entry
lookup-make V hash size k = refl
