-- ===== src/Fs/Path/Names.antt =====
-- fs/vfs.cpp: how the loop of `path_to_entry` cuts a path.
use saba_os.Base.{
  ℕ, zero, suc, ◌+◌, ◌≡◌, ◌<◌, refl, ap, inl, inr, true, false, Bool-cases, ◌==◌, List, [], ◌∷◌,
  ◌++◌, length, take, drop, none, some, arith, length-append,
}
use saba_os.Klib.CString.{strchr}
use saba_os.Fs.Path.{slash, slash_at, segment, middle, last, double_slash}

-- The name of an entry in a path: not empty, and without a slash.
unfoldable pub IsName : List ℕ → Type 0
IsName n = (0 < length n) × (strchr n slash ≡ none)

distinct_options : {A : Type 0} {x : A} → some x ≡ none → ⊥
distinct_options e = cc

strchr-append : (n rest : List ℕ) (c : ℕ) → strchr n c ≡ none → strchr (n ++ rest) c ≡ strchr rest c
unfolding strchr
strchr-append [] rest c h = refl
strchr-append (x ∷ xs) rest c h = elim (Bool-cases (x == c)) [
  | inl here ↦ absurd (distinct_options (rw here at h))
  | inr other ↦ simp other (strchr-append xs rest c (rw other at h))
]

pub slash_at-name : (n : List ℕ) → IsName n → slash_at n ≡ none
unfolding slash_at IsName
slash_at-name n (pos, clean) = rw (clean, slash_at) refl

pub slash_at-between :
    (n rest : List ℕ) → strchr n slash ≡ none → slash_at (n ++ (slash ∷ rest)) ≡ some (length n)
unfolding slash_at strchr
slash_at-between n rest clean =
    rw (strchr-append n (slash ∷ rest) slash clean, slash_at)
      (ap some (omega (arith, length-append n (slash ∷ rest))))

pub take-append : (n rest : List ℕ) → take (length n) (n ++ rest) ≡ n
take-append [] rest = refl
take-append (x ∷ xs) rest = ap (λ l. x ∷ l) (take-append xs rest)

pub take_all : (n : List ℕ) (d : ℕ) → take (length n + d) n ≡ n
take_all [] d = all_of d
  where
    all_of : (d : ℕ) → take {A = ℕ} (0 + d) [] ≡ []
    all_of zero = refl
    all_of (suc d) = ap (λ k. take {A = ℕ} k []) {x = 0 + suc d} {y = suc d} (omega arith)
take_all (x ∷ xs) d =
    let e : suc (length xs) + d ≡ suc (length xs + d) = omega arith in
    rw e (ap (λ l. x ∷ l) (take_all xs d))

pub drop-append : (n rest : List ℕ) (c : ℕ) → drop (length n + 1) (n ++ (c ∷ rest)) ≡ rest
drop-append [] rest c = refl
drop-append (x ∷ xs) rest c =
    let e : suc (length xs) + 1 ≡ suc (length xs + 1) = omega arith in rw e (drop-append xs rest c)

-- What a turn finds: the last name, with `d` more than the length; a name with more behind it; the last name
-- with one slash behind it, where the length is right; and a slash.
pub segment-last : (n : List ℕ) (d : ℕ) → IsName n → segment n (length n + d) ≡ last (length n + d)
unfolding segment
segment-last n d h = rw (slash_at-name n h, segment) refl

pub segment-middle :
    (n rest : List ℕ) (d : ℕ)
    → IsName n
    → 0 < length rest + d
    → segment (n ++ (slash ∷ rest)) (length (n ++ (slash ∷ rest)) + d) ≡ middle (length n)
unfolding segment IsName
segment-middle n rest d (pos, clean) more =
    let at_end : (length n + 1 == length (n ++ (slash ∷ rest)) + d) ≡ false =
      ground (arith, length-append n (slash ∷ rest), more) in
    let at_start : (length n == 0) ≡ false = ground (arith, pos) in
    rw (slash_at-between n rest clean, segment) rw (at_end, at_start) refl

pub segment-trailing :
    (n : List ℕ)
    → IsName n
    → segment (n ++ (slash ∷ [])) (length (n ++ (slash ∷ []))) ≡ last (length n)
unfolding segment IsName
segment-trailing n (pos, clean) =
    let at_end : (length n + 1 == length (n ++ (slash ∷ []))) ≡ true =
      ground (arith, length-append n (slash ∷ [])) in
    rw (slash_at-between n [] clean, segment) rw at_end refl

pub segment-slash : (rest : List ℕ) (len : ℕ) → 1 < len → segment (slash ∷ rest) len ≡ double_slash
unfolding segment strchr
segment-slash rest len more =
    let at_end : (0 + 1 == len) ≡ false = ground (arith, more) in
    rw (slash_at-between [] rest refl, segment) rw at_end refl

-- Behind a slash at the end, where the length is too large, the empty name is the last one.
pub segment-empty : (len : ℕ) → segment [] len ≡ last len
unfolding segment slash_at strchr
segment-empty len = refl

pub take_none : (len : ℕ) → take {A = ℕ} len [] ≡ []
take_none zero = refl
take_none (suc len) = refl
