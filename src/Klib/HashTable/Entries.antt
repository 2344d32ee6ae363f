-- ===== src/Klib/HashTable/Entries.antt =====
-- klib/hashtable.hpp: the entries of one bucket that have a key.
use saba_os.Base.{
  ℕ, suc, ◌-◌, ◌≡◌, ◌≢◌, ◌≤◌, refl, sym, ◌∙◌, ap, subst, inl, inr, Bool, true, false, if◌then◌else◌,
  ◌==◌, List, [], ◌∷◌, length, Bool-cases, eq_or_ne, arith,
}
use saba_os.Klib.HashTable.{Entry, find_entry, has_entry, unlink_entry}

shorter : (b : Bool) (m n : ℕ) → b ≡ true → m ≡ (if b then n - 1 else n) → 1 ≤ n → suc m ≡ suc n - 1
shorter b m n e h pos = ground (arith, e, h, pos)

as_long : (b : Bool) (m n : ℕ) → b ≡ false → m ≡ (if b then n - 1 else n) → suc m ≡ suc n
as_long b m n e h = ground (arith, e, h)

module _ {V : Type 0} where
  -- The entries with a key, in order.
  unfoldable pub with_key : ℕ → List (Entry V) → List (Entry V)
  with_key k [] = []
  with_key k (e ∷ es) = if e.key == k then e ∷ with_key k es else with_key k es

  pub find-with_key : (k : ℕ) (es : List (Entry V)) → find_entry k es ≡ find_entry k (with_key k es)
  unfolding with_key find_entry
  find-with_key k [] = refl
  find-with_key k (e ∷ es) = elim (Bool-cases (e.key == k)) [
    | inl h ↦ simp h refl
    | inr h ↦ simp h (find-with_key k es)
  ]

  unfoldable pub rest_of : List (Entry V) → List (Entry V)
  rest_of [] = []
  rest_of (e ∷ es) = es

  -- Unlinking takes the first entry with the key and leaves the other keys alone.
  pub unlink-with_key_self :
      (k : ℕ) (es : List (Entry V)) → with_key k (unlink_entry k es) ≡ rest_of (with_key k es)
  unfolding with_key unlink_entry rest_of
  unlink-with_key_self k [] = refl
  unlink-with_key_self k (e ∷ es) = elim (Bool-cases (e.key == k)) [
    | inl h ↦ simp h refl
    | inr h ↦ simp h (unlink-with_key_self k es)
  ]

  pub unlink-with_key_other :
      (k j : ℕ) (es : List (Entry V)) → j ≢ k → with_key j (unlink_entry k es) ≡ with_key j es
  unfolding with_key unlink_entry
  unlink-with_key_other k j [] ne = refl
  unlink-with_key_other k j (e ∷ es) ne = elim (Bool-cases (e.key == k)) [
    | inl h ↦ let other : (e.key == j) ≡ false = ground (arith, h, ne) in simp (h, other) refl
    | inr h ↦ elim (Bool-cases (e.key == j)) [
      | inl g ↦ simp (h, g) (ap (λ r. e ∷ r) (unlink-with_key_other k j es ne))
      | inr g ↦ simp (h, g) (unlink-with_key_other k j es ne)
    ]
  ]

  pub no_entry : (k : ℕ) (es : List (Entry V)) → has_entry k es ≡ false → with_key k es ≡ []
  unfolding has_entry with_key
  no_entry k [] h = refl
  no_entry k (e ∷ es) h = elim (Bool-cases (e.key == k)) [
    | inl g ↦ absurd (ground (arith, rw g at h))
    | inr g ↦ simp g (no_entry k es (rw g at h))
  ]

  pub absent :
      (k j : ℕ) (es : List (Entry V))
      → with_key k es ≡ []
      → with_key j (unlink_entry k es) ≡ with_key j es
  unfolding rest_of
  absent k j es none_left = elim (eq_or_ne j k) [
    | inl h ↦
        subst (λ x. with_key x (unlink_entry k es) ≡ with_key x es) (sym h)
          (unlink-with_key_self k es ∙ ap rest_of none_left ∙ sym none_left)
    | inr h ↦ unlink-with_key_other k j es h
  ]

  pub has-with_key : (k : ℕ) (es : List (Entry V)) → has_entry k es ≡ has_entry k (with_key k es)
  unfolding with_key has_entry
  has-with_key k [] = refl
  has-with_key k (e ∷ es) = elim (Bool-cases (e.key == k)) [
    | inl h ↦ simp h refl
    | inr h ↦ simp h (has-with_key k es)
  ]

  pub some_entry : (k : ℕ) (es : List (Entry V)) → has_entry k es ≡ true → 1 ≤ length es
  unfolding has_entry
  some_entry k [] h = absurd (ground (arith, h))
  some_entry k (e ∷ es) h = omega arith

  -- Unlinking makes the list shorter by one, where there is an entry with the key.
  pub length-unlink_entry :
      (k : ℕ) (es : List (Entry V))
      → length (unlink_entry k es) ≡ (if has_entry k es then length es - 1 else length es)
  unfolding unlink_entry has_entry
  length-unlink_entry k [] = refl
  length-unlink_entry k (e ∷ es) = elim (Bool-cases (e.key == k)) [
    | inl h ↦ simp h (omega arith)
    | inr h ↦ simp h (elim (Bool-cases (has_entry k es)) [
      | inl g ↦ simp g (
          shorter (has_entry k es) (length (unlink_entry k es)) (length es) g
            (length-unlink_entry k es) (some_entry k es g))
      | inr g ↦ simp g (
          as_long (has_entry k es) (length (unlink_entry k es)) (length es) g
            (length-unlink_entry k es))
    ])
  ]
