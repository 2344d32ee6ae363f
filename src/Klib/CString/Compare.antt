-- ===== src/Klib/CString/Compare.antt =====
-- What the comparison of strings decides.
use saba_os.Base.{
  ℕ, ◌≡◌, ◌<◌, ◌↔◌, refl, subst, ap₂, inl, inr, Bool-cases, if◌then◌else◌, ◌==◌, ==_iff, List, [],
  ◌∷◌, All, arith, true,
}
use saba_os.Klib.CString.{strcmp}

-- A string has no byte 0.
unfoldable pub IsString : List ℕ → Type 0
IsString = All (λ c. 0 < c)

-- `strcmp` of two strings returns 0, which is the difference of two equal bytes, exactly when they are
-- equal.
pub strcmp_lem :
    (s t : List ℕ) → IsString s → IsString t → ((strcmp s t).0 ≡ (strcmp s t).1) ↔ (s ≡ t)
unfolding strcmp IsString
strcmp_lem s t v w = (to s t v w, λ e. rw e (same t))
  where
    same : (u : List ℕ) → (strcmp u u).0 ≡ (strcmp u u).1
    same [] = refl
    same (c ∷ cs) = let self : (c == c) ≡ true = ground arith in rw self (same cs)

    to : (s t : List ℕ) → IsString s → IsString t → (strcmp s t).0 ≡ (strcmp s t).1 → s ≡ t
    to [] [] v w e = refl
    to [] (d ∷ ds) v (p, w) e = absurd (omega (arith, e, p))
    to (c ∷ cs) [] (p, v) w e = absurd (omega (arith, e, p))
    to (c ∷ cs) (d ∷ ds) (p, v) (q, w) e = elim (Bool-cases (c == d)) [
      | inl equal ↦ ap₂ ◌∷◌ ((==_iff c d).0 equal) (
          to cs ds v w (
            subst
              (λ b. (if b then strcmp cs ds else (c, d)).0 ≡ (if b then strcmp cs ds else (c, d)).1)
              equal e))
      | inr apart ↦ absurd (
          ground (
            arith,
            apart,
            subst
                (λ b.
                  (if b then strcmp cs ds else (c, d)).0 ≡ (if b then strcmp cs ds else (c, d)).1)
                apart e,
          ))
    ]
