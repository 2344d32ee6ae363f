-- ===== src/Fs/Path/Children.antt =====
-- fs/vfs.cpp: what a lookup in a directory gives, and what it leaves behind for the next one.
use saba_os.Base.{
  ℕ, zero, suc, ◌≡◌, ◌<◌, refl, subst, inl, inr, Bool, true, Bool-cases, ◌&&◌, ◌==◌, List, [], ◌∷◌,
  All, none, some, arith,
}
use saba_os.Klib.CString.Compare.{IsString, strcmp_lem}
use saba_os.Fs.Path.{Tree, reduce, same_text, find_among, hash_name}

-- A child is an entry, of the parent that lists it, and its name is a string.
pub record IsChild (t : Tree) (parent child : ℕ) : Type 0 where
  pub made : child < t.num_entries
  pub its_parent : (t.entries child).parent ≡ some parent
  pub its_name : IsString (t.entries child).name

-- The entries make a tree, as far as their lists of children go.
unfoldable pub IsTree : Tree → Type 0
IsTree t = (i : ℕ) → i < t.num_entries → All (IsChild t i) (t.entries i).children_list

pub same_text_self : (name : List ℕ) → IsString name → same_text name name ≡ true
unfolding same_text
same_text_self name s = let e = (strcmp_lem name name s s).1 refl in ground (arith, e)

same_text-eq : (a b : List ℕ) → IsString a → IsString b → same_text a b ≡ true → a ≡ b
unfolding same_text
same_text-eq a b s r h = (strcmp_lem a b s r).0 (ground (arith, h))

-- A child that is found is one of those searched, and has the name.
pub find_among-found :
    (t : Tree) (name : List ℕ) (parent : ℕ) (cs : List ℕ) (c : ℕ)
    → IsString name
    → All (IsChild t parent) cs
    → find_among t name cs ≡ some c
    → IsChild t parent c × ((t.entries c).name ≡ name)
unfolding find_among
find_among-found t name parent [] c s h e = absurd (distinct_options e)
  where
    distinct_options : none ≡ some c → ⊥
    distinct_options e = cc
find_among-found t name parent (x ∷ xs) c s (h, hs) e =
    elim (Bool-cases
      (((t.entries x).name_hash == hash_name name) && same_text (t.entries x).name name)) [
        | inr other ↦ find_among-found t name parent xs c s hs (rw other at e)
        | inl same ↦
            let here : x ≡ c = cc (rw same at e) in
            subst (λ y. IsChild t parent y × ((t.entries y).name ≡ name)) here
              (h, same_text-eq _ _ h.its_name s (and_right _ _ same))
      ]
  where
    and_right : (a b : Bool) → (a && b) ≡ true → b ≡ true
    and_right a b e = ground arith

-- A search looks at the children alone.
pub find_among-same :
    (t u : Tree) (name cs : List ℕ)
    → All (λ c. u.entries c ≡ t.entries c) cs
    → find_among u name cs ≡ find_among t name cs
unfolding find_among
find_among-same t u name [] h = refl
find_among-same t u name (x ∷ xs) (h, hs) = rw (h, find_among-same t u name xs hs) refl

pub All-map : {P Q : ℕ → Type 0} (cs : List ℕ) → ((c : ℕ) → P c → Q c) → All P cs → All Q cs
All-map [] f h = tt
All-map (x ∷ xs) f (h, hs) = (f x h, All-map xs f hs)

pub reduce_plain :
    (fuel : ℕ) (t : Tree) (i : ℕ) → (t.entries i).redirect ≡ none → reduce fuel t i ≡ i
unfolding reduce
reduce_plain zero t i e = refl
reduce_plain (suc fuel) t i e = rw (e, reduce) refl
