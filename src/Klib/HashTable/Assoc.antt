-- ===== src/Klib/HashTable/Assoc.antt =====
-- klib/hashtable.hpp: the hash table keeps what one list of entries keeps, the newest first.
use saba_os.Base.{
  ℕ, suc, ◌-◌, ◌%◌, ◌≡◌, ◌≢◌, refl, sym, ◌∙◌, ap, subst, inl, inr, Bool, true, false, if◌then◌else◌,
  ◌==◌, List, [], ◌∷◌, length, Bool-cases, eq_or_ne, arith,
}
use saba_os.Klib.HashTable.Entries.{
  with_key, find-with_key, rest_of, unlink-with_key_self, unlink-with_key_other, no_entry, absent,
  has-with_key, length-unlink_entry,
}
use saba_os.Klib.HashTable.{
  Entry, HashTable, find_entry, has_entry, unlink_entry, make, bucket, lookup, with_bucket, emplace,
  remove, Call, emplaces, removes, run,
}

module _ {V : Type 0} where
  -- The specification: a list of entries.
  pub run_list : List (Call V) → List (Entry V) → List (Entry V)
  run_list [] es = es
  run_list (emplaces k v ∷ cs) es = run_list cs (record { key = k; value = v } ∷ es)
  run_list (removes k ∷ cs) es = run_list cs (unlink_entry k es)

  module _ (hash : ℕ → ℕ) where
    -- The table and the list hold the same entries of each key, in the same order.
    pub Refines : HashTable V → List (Entry V) → Type 0
    Refines t es = (k : ℕ) → with_key k (t.table (bucket hash t k)) ≡ with_key k es

    -- A bucket is replaced.
    pub with_bucket_self :
        (t : HashTable V) (i j : ℕ) (es : List (Entry V))
        → (j == i) ≡ true
        → with_bucket hash t i es j ≡ es
    unfolding with_bucket
    with_bucket_self t i j es h = simp h refl

    pub with_bucket_other :
        (t : HashTable V) (i j : ℕ) (es : List (Entry V))
        → (j == i) ≡ false
        → with_bucket hash t i es j ≡ t.table j
    unfolding with_bucket
    with_bucket_other t i j es h = simp h refl

    -- What a new bucket for the key `k` has to hold: of the other keys what the old one holds.
    replaced :
        (t : HashTable V) (k : ℕ) (es fs bs : List (Entry V))
        → Refines t es
        → with_key k bs ≡ with_key k fs
        → ((j : ℕ) → j ≢ k → with_key j bs ≡ with_key j (t.table (bucket hash t k)))
        → ((j : ℕ) → j ≢ k → with_key j fs ≡ with_key j es)
        → (j : ℕ)
        → with_key j (with_bucket hash t (bucket hash t k) bs (bucket hash t j)) ≡ with_key j fs
    unfolding Refines
    replaced t k es fs bs r own rest same j =
        elim (Bool-cases (bucket hash t j == bucket hash t k)) [
          | inl b ↦
              let e = with_bucket_self t (bucket hash t k) (bucket hash t j) bs b in
              let i : bucket hash t j ≡ bucket hash t k = ground (arith, b) in
              elim (eq_or_ne j k) [
                | inl h ↦ ap (with_key j) e ∙ subst (λ x. with_key x bs ≡ with_key x fs) (sym h) own
                | inr h ↦
                    ap (with_key j) e
                    ∙ rest j h
                    ∙ ap (λ x. with_key j (t.table x)) (sym i)
                    ∙ r j
                    ∙ sym (same j h)
              ]
          | inr b ↦
              let e = with_bucket_other t (bucket hash t k) (bucket hash t j) bs b in
              let ne : j ≢ k = λ h. absurd (ground (arith, b, ap (bucket hash t) h)) in
              ap (with_key j) e ∙ r j ∙ sym (same j ne)
        ]

    push_other :
        (k j : ℕ) (v : V) (es : List (Entry V))
        → j ≢ k
        → with_key j (record { key = k; value = v } ∷ es) ≡ with_key j es
    unfolding with_key
    push_other k j v es ne = let other : (k == j) ≡ false = ground (arith, ne) in rw other refl

    push_self :
        (k : ℕ) (v : V) (es fs : List (Entry V))
        → with_key k es ≡ with_key k fs
        → with_key k (record { key = k; value = v } ∷ es)
          ≡ with_key k (record { key = k; value = v } ∷ fs)
    unfolding with_key
    push_self k v es fs h =
        let self : (k == k) ≡ true = ground arith in
        rw self (ap (λ r. record { key = k; value = v } ∷ r) h)

    emplace-Refines :
        (k : ℕ) (v : V) (t : HashTable V) (es : List (Entry V))
        → Refines t es
        → Refines (emplace hash k v t) (record { key = k; value = v } ∷ es)
    unfolding Refines emplace bucket
    emplace-Refines k v t es r =
        replaced t k es _ _ r (push_self k v _ es (r k)) (λ j ne. push_other k j v _ ne)
          (λ j ne. push_other k j v es ne)

    remove-Refines :
        (k : ℕ) (t : HashTable V) (es : List (Entry V))
        → Refines t es
        → Refines (remove hash k t) (unlink_entry k es)
    unfolding Refines remove bucket
    remove-Refines k t es r = elim (Bool-cases (has_entry k (t.table (hash k % t.table_size)))) [
      | inl h ↦ simp h (
          replaced t k es _ _ r
            (unlink-with_key_self k _ ∙ ap rest_of (r k) ∙ sym (unlink-with_key_self k es))
            (λ j ne. unlink-with_key_other k j _ ne) (λ j ne. unlink-with_key_other k j es ne))
      | inr h ↦ simp h (λ j. r j ∙ sym (absent k j es (sym (r k) ∙ no_entry k _ h)))
    ]

    -- The table holds what the list holds, and counts its entries.
    pub Stores : HashTable V → List (Entry V) → Type 0
    Stores t es = Refines t es × (t.num_stored ≡ length es)

    remove-count :
        (k : ℕ) (t : HashTable V) (es : List (Entry V))
        → Refines t es
        → t.num_stored ≡ length es
        → (remove hash k t).num_stored ≡ length (unlink_entry k es)
    unfolding remove Refines
    remove-count k t es r n =
        let has : has_entry k (t.table (bucket hash t k)) ≡ has_entry k es =
          has-with_key k _ ∙ ap (has_entry k) (r k) ∙ sym (has-with_key k es) in
        elim (Bool-cases (has_entry k es)) [
          | inl h ↦ simp (has ∙ h) (ap (λ m. m - 1) n ∙ sym (length-unlink_entry k es ∙ pick h))
          | inr h ↦ simp (has ∙ h) (n ∙ sym (length-unlink_entry k es ∙ pick h))
        ]
      where
        pick :
            {b : Bool}
            → has_entry k es ≡ b
            → (if has_entry k es then length es - 1 else length es)
              ≡ (if b then length es - 1 else length es)
        pick h = ap (λ x. if x then length es - 1 else length es) h

    emplace-count :
        (k : ℕ) (v : V) (t : HashTable V) (es : List (Entry V))
        → t.num_stored ≡ length es
        → (emplace hash k v t).num_stored ≡ suc (length es)
    unfolding emplace
    emplace-count k v t es n = omega (arith, n)

    run-Stores :
        (cs : List (Call V)) (t : HashTable V) (es : List (Entry V))
        → Stores t es
        → Stores (run hash cs t) (run_list cs es)
    unfolding run run_list Stores
    run-Stores [] t es s = s
    run-Stores (emplaces k v ∷ cs) t es s =
        run-Stores cs _ _ (emplace-Refines k v t es s.0, emplace-count k v t es s.1)
    run-Stores (removes k ∷ cs) t es s =
        run-Stores cs _ _ (remove-Refines k t es s.0, remove-count k t es s.0 s.1)

    -- After any calls on a new table, a lookup gives what a search through the list of the entries gives,
    -- the newest entry of a key first, and the table counts as many entries as the list has.
    pub run_lem :
        (size : ℕ) (cs : List (Call V)) (k : ℕ)
        → let t = run hash cs (make size) in
          (lookup hash t k ≡ find_entry k (run_list cs []))
          × (t.num_stored ≡ length (run_list cs []))
    unfolding lookup Stores Refines make
    run_lem size cs k =
        let s = run-Stores cs (make size) [] ((λ j. refl), refl) in
        (
          find-with_key k _ ∙ ap (find_entry k) (s.0 k) ∙ sym (find-with_key k (run_list cs [])),
          s.1,
        )
