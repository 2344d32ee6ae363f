-- ===== src/Fs/Path/Leads.antt =====
-- fs/vfs.cpp: which entry `path_to_entry` gives for a path.
use saba_os.Base.{
  ℕ, suc, ◌+◌, ◌-◌, ◌≡◌, ◌<◌, ◌≤◌, sym, ◌∙◌, ap, subst, inl, inr, ◌⊎◌, Bool, true, false,
  Bool-cases, if◌then◌else◌, ◌==◌, List, [], ◌∷◌, ◌++◌, length, replicate, Option, none, some,
  arith, length-append, length-replicate,
}
use saba_os.Klib.CString.{strchr}
use saba_os.Fs.Path.{Tree, Walked, found, slash, enter, walk, path_to_entry, reduced}
use saba_os.Fs.Path.Names.{IsName}
use saba_os.Fs.Path.Resolve.{NoLinks, resolve}
use saba_os.Fs.Path.Slashes.{
  Step, spell, spell-behind, behind, names, extras, AreNames, behind_names, turns, skip, walk_name,
}

-- The turns that a path takes: one for each slash that is passed over, one for each name, and one for the empty
-- name behind them.
turns_sum : (ss : List Step) (f : ℕ) → turns ss f ≡ extras ss + length ss + 1 + f
unfolding turns extras
turns_sum [] f = omega arith
turns_sum (s ∷ ss) f = omega (arith, turns_sum ss f)

enter_name :
    (go : List ℕ → ℕ → ℕ → Tree → Walked) (root : ℕ) (n rest : List ℕ) (start : ℕ) (t : Tree)
    → IsName n
    → enter go root (n ++ rest) (some start) t
      ≡ go (n ++ rest) (length (n ++ rest)) (reduced t start) t
unfolding enter IsName strchr
enter_name go root [] rest start t (pos, clean) = absurd (omega (arith, pos))
enter_name go root (c ∷ cs) rest start t (pos, clean) = elim (Bool-cases (c == slash)) [
  | inl here ↦ absurd (some_none (rw here at clean))
  | inr other ↦ rw other (ap (λ l. go (c ∷ (cs ++ rest)) l (reduced t start) t) (omega arith))
]
  where
    some_none : {x : List ℕ} → some x ≡ none → ⊥
    some_none e = cc

length-spell :
    (s : Step) (ss : List Step) (trailing : Bool)
    → IsName s.name
    → 0 < length (spell (s ∷ ss) trailing)
unfolding IsName
length-spell s ss trailing (pos, clean) = omega (
  arith,
  pos,
  ap length (spell-behind s ss trailing),
  length-append (replicate s.extra slash) (s.name ++ behind ss trailing),
  length-append s.name (behind ss trailing),
)

module _ (fs_lookup : Option ℕ → List ℕ → Option ℕ) (root : ℕ) (follow_last : Bool) where
  walk-spell :
      (fuel : ℕ) (s : Step) (ss : List Step) (trailing : Bool) (current : ℕ) (t : Tree)
      → NoLinks t
      → AreNames (s ∷ ss)
      → extras (s ∷ ss) + length (s ∷ ss) + 1 ≤ fuel
      → walk fs_lookup root follow_last fuel
          (spell (s ∷ ss) trailing)
          (length (spell (s ∷ ss) trailing))
          current
          t
        ≡ resolve fs_lookup (names (s ∷ ss) ++ behind_names trailing (extras (s ∷ ss))) current t
  unfolding AreNames names extras IsName
  walk-spell fuel s ss trailing current t h (first, more) enough =
      subst (λ p. walked p (length p)) (sym (spell-behind s ss trailing))
        (subst (walked (replicate s.extra slash ++ (s.name ++ behind ss trailing))) lens (
          subst
            (λ g.
              walk fs_lookup root follow_last g
                (replicate s.extra slash ++ (s.name ++ behind ss trailing)) total current t
              ≡ resolve fs_lookup
                  (s.name ∷ (names ss ++ behind_names trailing (s.extra + extras ss))) current t)
            (omega
              (arith, enough, turns_sum ss (fuel - (s.extra + extras ss + suc (length ss) + 1))))
            (skip fs_lookup root follow_last s.extra
              (suc (turns ss (fuel - (s.extra + extras ss + suc (length ss) + 1))))
              (s.name ++ behind ss trailing) total s.name
              (names ss ++ behind_names trailing (s.extra + extras ss)) current t
              (omega (arith, first.0, length-append s.name (behind ss trailing)))
              (walk_name fs_lookup root follow_last s.name ss trailing s.extra _ current t h first
                more))))
    where
      total : ℕ
      total = length (s.name ++ behind ss trailing) + s.extra

      walked : List ℕ → ℕ → Type 0
      walked p len =
          walk fs_lookup root follow_last fuel p len current t
          ≡ resolve fs_lookup (s.name ∷ (names ss ++ behind_names trailing (s.extra + extras ss)))
              current t

      lens : total ≡ length (replicate s.extra slash ++ (s.name ++ behind ss trailing))
      lens = omega (
        arith,
        length-append (replicate s.extra slash) (s.name ++ behind ss trailing),
        length-replicate s.extra slash,
      )

  -- Where no vnode is a symbolic link, a path of names, with any number of slashes between them and with one at
  -- the end or none, leads where looking up its names one after the other leads, from the root or from the
  -- starting point. But with a slash at the end and a doubled one anywhere before it, the
  -- empty name is looked up at the end, in the entry that the path names. Fuel for each slash passed over, each name and
  -- one turn more is enough.
  pub path_to_entry_lem :
      (fuel : ℕ) (s : Step) (ss : List Step) (trailing : Bool) (start : ℕ) (t : Tree)
      → NoLinks t
      → AreNames (s ∷ ss)
      → extras (s ∷ ss) + length (s ∷ ss) + 1 ≤ fuel
      → let path = spell (s ∷ ss) trailing in
        let looked_up = names (s ∷ ss) ++ behind_names trailing (extras (s ∷ ss)) in
        (path_to_entry fs_lookup root follow_last fuel (slash ∷ path) (some start) t
          ≡ resolve fs_lookup looked_up root t)
        × (if s.extra == 0
            then path_to_entry fs_lookup root follow_last fuel path (some start) t
              ≡ resolve fs_lookup looked_up (reduced t start) t
            else Unit)
  unfolding path_to_entry enter AreNames names
  path_to_entry_lem fuel s ss trailing start t h named enough = (
    ap
          (λ b.
            if b
            then found root t
            else walk fs_lookup root follow_last fuel path (length path) root t)
          {x = length path == 0} {y = false} (ground (arith, length-spell s ss trailing named.0))
        ∙ walk-spell fuel s ss trailing root t h named enough,
    relative (Bool-cases (s.extra == 0)),
  )
    where
      path : List ℕ
      path = spell (s ∷ ss) trailing

      plain : s.extra ≡ 0 → path ≡ s.name ++ behind ss trailing
      plain e =
          spell-behind s ss trailing
          ∙ ap (λ k. replicate k slash ++ (s.name ++ behind ss trailing)) e

      relative :
          ((s.extra == 0) ≡ true) ⊎ ((s.extra == 0) ≡ false)
          → if s.extra == 0
            then enter (walk fs_lookup root follow_last fuel) root path (some start) t
              ≡ resolve fs_lookup
                  (names (s ∷ ss) ++ behind_names trailing (extras (s ∷ ss)))
                  (reduced t start)
                  t
            else Unit
      relative (inr some_slash) = rw some_slash tt
      relative (inl none_there) = rw none_there (
          subst
            (λ p.
              enter (walk fs_lookup root follow_last fuel) root p (some start) t
              ≡ walk fs_lookup root follow_last fuel p (length p) (reduced t start) t)
            (sym (plain (ground (arith, none_there))))
            (enter_name (walk fs_lookup root follow_last fuel) root s.name (behind ss trailing)
              start t named.0)
          ∙ walk-spell fuel s ss trailing (reduced t start) t h named enough)
