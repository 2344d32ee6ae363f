-- ===== src/Fs/Path/Resolve.antt =====
-- fs/vfs.cpp: the walk as a walk along a list of names, where there are no symbolic links.
use saba_os.Base.{
  ℕ, suc, ◌+◌, ◌-◌, ◌≡◌, refl, ◌∙◌, ap, inl, inr, Bool, true, false, Bool-cases, if◌then◌else◌,
  ◌&&◌, List, [], ◌∷◌, take, drop, Option, none, some, Option-cases,
}
use saba_os.Fs.Path.{
  Tree, Walked, found, null_entry, reduced, lookup, lookup_entry, fill_entry, add_child, construct,
  find_child, is_directory, is_symlink, follow_link, after_lookup, component, turn, walk, middle,
  last, double_slash, segment,
}

-- No vnode is a symbolic link.
unfoldable pub NoLinks : Tree → Type 0
NoLinks t = (v : ℕ) → is_symlink t v ≡ false

pub has_vnode : Tree → ℕ → Bool
has_vnode t i = elim (t.entries i).vnode [ none ↦ false | some _ ↦ true ]

module _ (fs_lookup : Option ℕ → List ℕ → Option ℕ) where
  lookup_entry-nodes :
      (parent entry : ℕ) (name : List ℕ) (t : Tree)
      → (lookup_entry fs_lookup parent entry name t).nodes ≡ t.nodes
  unfolding lookup_entry fill_entry add_child
  lookup_entry-nodes parent entry name t =
      elim (Option-cases (
        find_child (fill_entry fs_lookup parent entry name t)
          (reduced (fill_entry fs_lookup parent entry name t) parent) name)) [
            | inl e ↦ rw (e, lookup_entry) refl
            | inr (c, e) ↦ rw (e, lookup_entry) refl
          ]

  pub lookup-nodes :
      (parent : ℕ) (name : List ℕ) (t : Tree) → (lookup fs_lookup parent name t).1.nodes ≡ t.nodes
  unfolding lookup construct
  lookup-nodes parent name t = elim (Option-cases (find_child t parent name)) [
    | inl e ↦ rw (e, lookup) (lookup_entry-nodes parent _ name _)
    | inr (c, e) ↦ rw (e, lookup) refl
  ]

  pub lookup-NoLinks :
      (parent : ℕ) (name : List ℕ) (t : Tree)
      → NoLinks t
      → NoLinks (lookup fs_lookup parent name t).1
  unfolding NoLinks is_symlink
  lookup-NoLinks parent name t h v = rw (lookup-nodes parent name t, is_symlink) (h v)

  -- The specification: each name but the last is looked up in a directory and found to have a vnode.
  unfoldable pub resolve : List (List ℕ) → ℕ → Tree → Walked
  resolve [] current t = null_entry t
  resolve (n ∷ ns) current t =
      let (next, t') = lookup fs_lookup current n t in
      let rest = resolve ns (reduced t' next) t' in
      let on : Walked = elim ns [
        | [] ↦ found next t'
        | _ ∷ _ ↦ if has_vnode t' next then rest else null_entry t'
      ] in
      if is_directory t current then on else null_entry t

  module _ (root : ℕ) (follow_last : Bool) where
    after_last :
        (again : List ℕ → Tree → Walked) (go : ℕ → Tree → Walked) (rest : List ℕ) (next : ℕ)
        (t : Tree)
        → NoLinks t
        → after_lookup follow_last true again go rest next t ≡ found next t
    unfolding after_lookup NoLinks
    after_last again go rest next t h = elim (Option-cases (t.entries next).vnode) [
      | inl e ↦ rw (e, after_lookup) refl
      | inr (v, e) ↦
          rw (e, after_lookup) rw (h v)
            (ap (λ b. if b then follow_link again (t.nodes v).target rest t else found next t)
              (and_false follow_last))
    ]
      where
        and_false : (b : Bool) → (b && false) ≡ false
        and_false true = refl
        and_false false = refl

    after_middle :
        (again : List ℕ → Tree → Walked) (go : ℕ → Tree → Walked) (rest : List ℕ) (next : ℕ)
        (t : Tree)
        → NoLinks t
        → after_lookup follow_last false again go rest next t
          ≡ (if has_vnode t next then go (reduced t next) t else null_entry t)
    unfolding after_lookup NoLinks has_vnode
    after_middle again go rest next t h = elim (Option-cases (t.entries next).vnode) [
      | inl e ↦ rw (e, after_lookup, has_vnode) refl
      | inr (v, e) ↦ rw (e, after_lookup, has_vnode) rw (h v) refl
    ]

    pub walk_last :
        (fuel : ℕ) (path : List ℕ) (len i : ℕ) (n : List ℕ) (current : ℕ) (t : Tree)
        → NoLinks t
        → segment path len ≡ last i
        → take i path ≡ n
        → walk fs_lookup root follow_last (suc fuel) path len current t ≡ resolve (n ∷ []) current t
    unfolding walk turn component resolve
    walk_last fuel path len i n current t h seg name = elim (Bool-cases (is_directory t current)) [
      | inr d ↦ simp d refl
      | inl d ↦ simp d (
          rw (seg, turn) rw (name, component) (after_last _ _ _ _ _ (lookup-NoLinks current n t h)))
    ]

    pub walk_middle :
        (fuel : ℕ) (path : List ℕ) (len i : ℕ) (n rest m : List ℕ) (ns : List (List ℕ))
        (current : ℕ) (t : Tree)
        → NoLinks t
        → segment path len ≡ middle i
        → take i path ≡ n
        → drop (i + 1) path ≡ rest
        → ((c : ℕ) (u : Tree)
            → NoLinks u
            → walk fs_lookup root follow_last fuel rest (len - (i + 1)) c u ≡ resolve (m ∷ ns) c u)
        → walk fs_lookup root follow_last (suc fuel) path len current t
          ≡ resolve (n ∷ m ∷ ns) current t
    unfolding walk turn component resolve
    walk_middle fuel path len i n rest m ns current t h seg name behind rec =
        elim (Bool-cases (is_directory t current)) [
          | inr d ↦ simp d refl
          | inl d ↦ simp d (
              rw (seg, turn) rw (name, component) rw behind
                (after_middle _ _ _ _ _ (lookup-NoLinks current n t h)
                  ∙ ap
                      (λ w.
                        if has_vnode (lookup fs_lookup current n t).1
                          (lookup fs_lookup current n t).0
                        then w
                        else null_entry (lookup fs_lookup current n t).1)
                      (rec _ _ (lookup-NoLinks current n t h))))
        ]

    pub walk_slash :
        (fuel : ℕ) (path : List ℕ) (len : ℕ) (n : List ℕ) (ns : List (List ℕ)) (current : ℕ)
        (t : Tree)
        → segment path len ≡ double_slash
        → walk fs_lookup root follow_last fuel (drop 1 path) len current t
          ≡ resolve (n ∷ ns) current t
        → walk fs_lookup root follow_last (suc fuel) path len current t ≡ resolve (n ∷ ns) current t
    unfolding walk turn resolve
    walk_slash fuel path len n ns current t seg rec = elim (Bool-cases (is_directory t current)) [
      | inl d ↦ simp d (rw (seg, turn) (rec ∙ simp d refl))
      | inr d ↦ simp d refl
    ]
