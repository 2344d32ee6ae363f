-- ===== src/Fs/Table/Count.antt =====
-- Weights summed over the slots of a table: how many are in use, and how many hold a description.
use saba_os.Base.{
  ℕ, zero, suc, ◌+◌, ◌≡◌, ◌≤◌, ◌<◌, refl, none, some, List, [], ◌∷◌, ◌++◌, length, get_or, set,
  replicate, if◌then◌else◌, ◌==◌, arith,
}
use saba_os.Fs.Table.{Descriptor, empty}

module _ (w : Descriptor → ℕ) where
  unfoldable pub total : List Descriptor → ℕ
  total [] = 0
  total (d ∷ ds) = w d + total ds

  pub total-set :
      (ds : List Descriptor) (i : ℕ) (v : Descriptor)
      → i < length ds
      → total (set ds i v) + w (get_or ds i empty) ≡ total ds + w v
  unfolding total
  total-set [] i v lt = absurd (omega arith)
  total-set (d ∷ ds) zero v lt = omega arith
  total-set (d ∷ ds) (suc i) v lt = omega (arith, total-set ds i v (omega arith))

  pub total-append : (ds es : List Descriptor) → total (ds ++ es) ≡ total ds + total es
  unfolding total
  total-append [] es = omega arith
  total-append (d ∷ ds) es = omega (arith, total-append ds es)

  pub total-replicate : (n : ℕ) → w empty ≡ 0 → total (replicate n empty) ≡ 0
  unfolding total
  total-replicate zero e = refl
  total-replicate (suc n) e = omega (arith, e, total-replicate n e)

  pub w-le-total : (ds : List Descriptor) (i : ℕ) → i < length ds → w (get_or ds i empty) ≤ total ds
  unfolding total
  w-le-total [] i lt = absurd (omega arith)
  w-le-total (d ∷ ds) zero lt = omega arith
  w-le-total (d ∷ ds) (suc i) lt = omega (arith, w-le-total ds i (omega arith))

-- 1 where the slot is in use.
abbrev pub in_use : Descriptor → ℕ
in_use d = elim d.description [ none ↦ 0 | some _ ↦ 1 ]

-- 1 where the slot holds the description `k`.
abbrev pub holds : ℕ → Descriptor → ℕ
holds k d = elim d.description [ none ↦ 0 | some e ↦ if e == k then 1 else 0 ]
