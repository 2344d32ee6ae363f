-- ===== src/Fs/Path/Slashes.antt =====
-- fs/vfs.cpp: which entry a path with any slashes leads to.
use saba_os.Base.{
  ℕ, zero, suc, ◌+◌, ◌-◌, ◌≡◌, ◌<◌, ◌≤◌, refl, sym, ap, subst, Bool, true, false, if◌then◌else◌,
  ltb, List, [], ◌∷◌, ◌++◌, length, replicate, All, Option, arith, length-append, length-replicate,
}
use mathlib.Core.List.{append-nil}
use saba_os.Fs.Path.{Tree, slash, walk}
use saba_os.Fs.Path.Names.{
  IsName, take-append, take_all, drop-append, segment-last, segment-middle, segment-trailing,
  segment-slash, segment-empty, take_none,
}
use saba_os.Fs.Path.Resolve.{NoLinks, resolve, walk_last, walk_middle, walk_slash}

-- A name, with the number of slashes in front of it beyond the one that parts it from the name before.
pub record Step : Type 0 where
  pub extra : ℕ
  pub name : List ℕ

-- The steps as a text, with a slash at the end or none.
unfoldable pub spell : List Step → Bool → List ℕ
spell [] trailing = if trailing then slash ∷ [] else []
spell (s ∷ ss) trailing =
    let rest = spell ss trailing in
    let behind : List ℕ = elim ss [ [] ↦ rest | _ ∷ _ ↦ slash ∷ rest ] in
    replicate s.extra slash ++ (s.name ++ behind)

unfoldable pub names : List Step → List (List ℕ)
names [] = []
names (s ∷ ss) = s.name ∷ names ss

unfoldable pub extras : List Step → ℕ
extras [] = 0
extras (s ∷ ss) = s.extra + extras ss

unfoldable pub AreNames : List Step → Type 0
AreNames ss = All IsName (names ss)

-- The name that is looked up behind the others: the empty one, when there are both a slash at the end and
-- doubled ones.
unfoldable pub behind_names : Bool → ℕ → List (List ℕ)
behind_names trailing doubled = if trailing then (if ltb 0 doubled then [] ∷ [] else []) else []

-- The text behind a name.
abbrev pub behind : List Step → Bool → List ℕ
behind [] trailing = if trailing then slash ∷ [] else []
behind (s ∷ ss) trailing = slash ∷ spell (s ∷ ss) trailing

-- The turns that the loop takes behind the first name, and `f` more.
unfoldable pub turns : List Step → ℕ → ℕ
turns [] f = suc f
turns (s ∷ ss) f = s.extra + suc (turns ss f)

pub spell-behind :
    (s : Step) (ss : List Step) (trailing : Bool)
    → spell (s ∷ ss) trailing ≡ replicate s.extra slash ++ (s.name ++ behind ss trailing)
unfolding spell
spell-behind s [] trailing = refl
spell-behind s (x ∷ xs) trailing = refl

module _ (fs_lookup : Option ℕ → List ℕ → Option ℕ) (root : ℕ) (follow_last : Bool) where
  -- Slashes in front of a text are passed over one by one; the length that the loop keeps stays.
  pub skip :
      (k fuel : ℕ) (path : List ℕ) (len : ℕ) (n : List ℕ) (ns : List (List ℕ)) (current : ℕ)
      (t : Tree)
      → k + 1 ≤ len
      → walk fs_lookup root follow_last fuel path len current t
        ≡ resolve fs_lookup (n ∷ ns) current t
      → walk fs_lookup root follow_last (k + fuel) (replicate k slash ++ path) len current t
        ≡ resolve fs_lookup (n ∷ ns) current t
  skip zero fuel path len n ns current t room h =
      subst
        (λ f.
          walk fs_lookup root follow_last f path len current t
          ≡ resolve fs_lookup (n ∷ ns) current t)
        {x = fuel} {y = 0 + fuel} (omega arith) h
  skip (suc k) fuel path len n ns current t room h =
      subst
        (λ f.
          walk fs_lookup root follow_last f (slash ∷ (replicate k slash ++ path)) len current t
          ≡ resolve fs_lookup (n ∷ ns) current t)
        {x = suc (k + fuel)} {y = suc k + fuel} (omega arith)
        (walk_slash fs_lookup root follow_last (k + fuel) _ len n ns current t
          (segment-slash _ len (omega (arith, room)))
          (skip k fuel path len n ns current t (omega (arith, room)) h))

  last_name :
      (n : List ℕ) (trailing : Bool) (d f : ℕ) (current : ℕ) (t : Tree)
      → NoLinks t
      → IsName n
      → walk fs_lookup root follow_last
          (suc (suc f))
          (n ++ behind [] trailing)
          (length (n ++ behind [] trailing) + d)
          current
          t
        ≡ resolve fs_lookup (n ∷ behind_names trailing (d + 0)) current t
  unfolding behind_names
  last_name n false d f current t h name = rw (append-nil n) (
      walk_last fs_lookup root follow_last (suc f) n (length n + d) (length n + d) n current t h
        (segment-last n d name) (take_all n d))
  last_name n true zero f current t h name =
      let e : length (n ++ (slash ∷ [])) + 0 ≡ length (n ++ (slash ∷ [])) = omega arith in
      rw e (
        walk_last fs_lookup root follow_last (suc f) (n ++ (slash ∷ []))
          (length (n ++ (slash ∷ []))) (length n) n current t h (segment-trailing n name)
          (take-append n (slash ∷ [])))
  last_name n true (suc d) f current t h name =
      let e : ltb 0 (suc d + 0) ≡ true = ground arith in
      rw e (
        walk_middle fs_lookup root follow_last (suc f) (n ++ (slash ∷ [])) _ (length n) n [] [] []
          current t h (segment-middle n [] (suc d) name (omega arith)) (take-append n (slash ∷ []))
          (drop-append n [] slash)
          (λ c u hu.
            walk_last fs_lookup root follow_last f [] _ _ [] c u hu (segment-empty _)
              (take_none _)))

  pub walk_name :
      (n : List ℕ) (ss : List Step) (trailing : Bool) (d f : ℕ) (current : ℕ) (t : Tree)
      → NoLinks t
      → IsName n
      → AreNames ss
      → walk fs_lookup root follow_last
          (suc (turns ss f))
          (n ++ behind ss trailing)
          (length (n ++ behind ss trailing) + d)
          current
          t
        ≡ resolve fs_lookup (n ∷ (names ss ++ behind_names trailing (d + extras ss))) current t
  unfolding turns names extras AreNames IsName
  walk_name n [] trailing d f current t h name more = last_name n trailing d f current t h name
  walk_name n (s ∷ ss) trailing d f current t h name (first, more) =
      walk_middle fs_lookup root follow_last (turns (s ∷ ss) f) _ _ (length n) n
        (spell (s ∷ ss) trailing) s.name
        (names ss ++ behind_names trailing (d + (s.extra + extras ss))) current t h
        (segment-middle n (spell (s ∷ ss) trailing) d name (omega (arith, inner, room)))
        (take-append n (slash ∷ spell (s ∷ ss) trailing))
        (drop-append n (spell (s ∷ ss) trailing) slash)
        (λ c u hu.
          subst (λ e. walk_from (spell (s ∷ ss) trailing) e c u (d + (s.extra + extras ss))) lens
            (subst (λ p. walk_from p total c u (d + (s.extra + extras ss))) (sym text)
              (subst
                (walk_from (replicate s.extra slash ++ (s.name ++ behind ss trailing)) total c u)
                {x = d + s.extra + extras ss} {y = d + (s.extra + extras ss)} (omega arith)
                (skip s.extra (suc (turns ss f)) (s.name ++ behind ss trailing) total s.name
                  (names ss ++ behind_names trailing (d + s.extra + extras ss)) c u
                  (omega (arith, room))
                  (walk_name s.name ss trailing (d + s.extra) f c u hu first more)))))
    where
      total : ℕ
      total = length (s.name ++ behind ss trailing) + (d + s.extra)

      text : spell (s ∷ ss) trailing ≡ replicate s.extra slash ++ (s.name ++ behind ss trailing)
      text = spell-behind s ss trailing

      inner : length (spell (s ∷ ss) trailing) ≡ s.extra + length (s.name ++ behind ss trailing)
      inner = omega (
        arith,
        ap length text,
        length-append (replicate s.extra slash) (s.name ++ behind ss trailing),
        length-replicate s.extra slash,
      )

      room : 0 < length (s.name ++ behind ss trailing)
      room = omega (arith, first.0, length-append s.name (behind ss trailing))

      lens :
          length (s.name ++ behind ss trailing) + (d + s.extra)
          ≡ length (n ++ (slash ∷ spell (s ∷ ss) trailing)) + d - (length n + 1)
      lens = omega (arith, inner, length-append n (slash ∷ spell (s ∷ ss) trailing))

      walk_from : List ℕ → ℕ → ℕ → Tree → ℕ → Type 0
      walk_from path len c u doubled =
          walk fs_lookup root follow_last (s.extra + suc (turns ss f)) path len c u
          ≡ resolve fs_lookup (s.name ∷ (names ss ++ behind_names trailing doubled)) c u
