-- ===== src/Fs/Path/Lookup.antt =====
-- fs/vfs.cpp: a lookup in a directory gives a child with the name, and the same one when it is made again.
use saba_os.Base.{
  ℕ, ◌+◌, ◌≡◌, ◌≢◌, ◌<◌, refl, sym, ◌∙◌, ap, subst, inl, inr, true, false, Bool-cases, Option-cases,
  eq_or_ne, if◌then◌else◌, ◌&&◌, ◌==◌, List, [], ◌∷◌, All, Option, none, some, arith,
}
use saba_os.Klib.CString.Compare.{IsString}
use saba_os.Fs.Path.{
  Tree, Entry, construct, add_child, reduced, same_text, find_among, find_child, fill_entry,
  lookup_entry, lookup, hash_name,
}
use saba_os.Fs.Path.Children.{
  IsChild, IsTree, same_text_self, find_among-found, find_among-same, All-map, reduce_plain,
}

-- What a lookup gives, with the tree that it leaves.
Found : (Option ℕ → List ℕ → Option ℕ) → ℕ → List ℕ → ℕ × Tree → Type 0
Found fs_lookup parent name (next, t) =
    IsChild t parent next
    × ((t.entries next).name ≡ name)
    × IsTree t
    × (lookup fs_lookup parent name t ≡ (next, t))

module _ (fs_lookup : Option ℕ → List ℕ → Option ℕ) (parent : ℕ) (name : List ℕ) (t : Tree)
    (s : IsString name) (v : IsTree t) (known : parent < t.num_entries)
    (plain : (t.entries parent).redirect ≡ none) where
  -- The entry that is made when the name is not found.
  new_entry : Entry
  new_entry = record {
    vnode = fs_lookup (t.entries parent).vnode name;
    parent = some parent;
    redirect = none;
    children_list = [];
    name_hash = hash_name name;
    name = name;
  }

  filled : Tree
  unfolding construct
  filled =
      fill_entry fs_lookup parent t.num_entries name (construct none (some parent) name none t).1

  grown : Tree
  grown = add_child parent t.num_entries filled

  filled-entries :
      (j : ℕ) → filled.entries j ≡ (if t.num_entries == j then new_entry else t.entries j)
  unfolding filled fill_entry construct new_entry
  filled-entries j =
      let self : (t.num_entries == t.num_entries) ≡ true = ground arith in
      let other : (t.num_entries == parent) ≡ false = ground (arith, known) in
      elim (Bool-cases (t.num_entries == j)) [
        | inl e ↦ rw (e, self, other) refl
        | inr e ↦ rw e refl
      ]

  filled_parent : filled.entries parent ≡ t.entries parent
  filled_parent =
      let other : (t.num_entries == parent) ≡ false = ground (arith, known) in
      filled-entries parent ∙ ap (λ b. if b then new_entry else t.entries parent) other

  -- An entry made before is as it was.
  filled_old : (c : ℕ) → c < t.num_entries → filled.entries c ≡ t.entries c
  filled_old c lt =
      let other : (t.num_entries == c) ≡ false = ground (arith, lt) in
      filled-entries c ∙ ap (λ b. if b then new_entry else t.entries c) other

  grown-entries :
      (j : ℕ)
      → grown.entries j ≡ (
          if parent == j
          then record (t.entries parent) {
            children_list = t.num_entries ∷ (t.entries parent).children_list;
          }
          else if t.num_entries == j
          then new_entry
          else t.entries j)
  unfolding grown add_child
  grown-entries j = elim (Bool-cases (parent == j)) [
    | inl e ↦ rw e (
        ap (λ (x : Entry). record x { children_list = t.num_entries ∷ x.children_list })
          filled_parent)
    | inr e ↦ rw e (filled-entries j)
  ]

  still_missing :
      find_child t parent name ≡ none → find_child filled (reduced filled parent) name ≡ none
  unfolding find_child IsTree
  still_missing absent =
      ap (λ p. find_among filled name (filled.entries p).children_list)
        (reduce_plain filled.num_entries filled parent
          (ap (λ (x : Entry). x.redirect) filled_parent ∙ plain))
      ∙ ap (λ (x : Entry). find_among filled name x.children_list) filled_parent
      ∙ find_among-same t filled name _
          (All-map (t.entries parent).children_list (λ c h. filled_old c h.made) (v parent known))
      ∙ absent

  lookup_missing :
      find_child t parent name ≡ none → lookup fs_lookup parent name t ≡ (t.num_entries, grown)
  unfolding lookup grown lookup_entry construct filled
  lookup_missing absent = rw (absent, lookup) rw (still_missing absent, lookup_entry) refl

  grown-num : grown.num_entries ≡ t.num_entries + 1
  unfolding grown add_child filled fill_entry construct
  grown-num = refl

  grown_new : grown.entries t.num_entries ≡ new_entry
  grown_new =
      let other : (parent == t.num_entries) ≡ false = ground (arith, known) in
      let self : (t.num_entries == t.num_entries) ≡ true = ground arith in
      grown-entries t.num_entries ∙ rw (other, self) refl

  new-IsChild : IsChild grown parent t.num_entries
  unfolding new_entry
  new-IsChild = record {
    made = omega (arith, grown-num);
    its_parent = ap (λ (x : Entry). x.parent) grown_new;
    its_name = subst (λ (x : Entry). IsString x.name) (sym grown_new) s;
  }

  -- An entry made before keeps its name and its parent.
  kept-IsChild : (i c : ℕ) → IsChild t i c → IsChild grown i c
  kept-IsChild i c h = record {
    made = omega (arith, grown-num, h.made);
    its_parent = ap (λ (x : Entry). x.parent) (grown-entries c) ∙ same_parent;
    its_name = subst (λ (x : Entry). IsString x.name) (sym (grown-entries c)) same_name;
  }
    where
      other : (t.num_entries == c) ≡ false
      other = ground (arith, h.made)

      same_parent :
          (if parent == c
            then record (t.entries parent) {
              children_list = t.num_entries ∷ (t.entries parent).children_list;
            }
            else if t.num_entries == c
            then new_entry
            else t.entries c).parent
          ≡ some i
      same_parent = elim (eq_or_ne parent c) [
        | inl e ↦
            let here : (parent == c) ≡ true = ground (arith, e) in
            rw here (subst (λ x. (t.entries x).parent ≡ some i) (sym e) h.its_parent)
        | inr ne ↦
            let there : (parent == c) ≡ false = grind (arith, ne) in rw (there, other) h.its_parent
      ]

      same_name :
          IsString
            (if parent == c
              then record (t.entries parent) {
                children_list = t.num_entries ∷ (t.entries parent).children_list;
              }
              else if t.num_entries == c
              then new_entry
              else t.entries c).name
      same_name = elim (eq_or_ne parent c) [
        | inl e ↦
            let here : (parent == c) ≡ true = ground (arith, e) in
            rw here (subst (λ x. IsString (t.entries x).name) (sym e) h.its_name)
        | inr ne ↦
            let there : (parent == c) ≡ false = grind (arith, ne) in rw (there, other) h.its_name
      ]

  grown-IsTree : IsTree grown
  unfolding IsTree new_entry
  grown-IsTree i lt =
      subst (λ (x : Entry). All (IsChild grown i) x.children_list) (sym (grown-entries i))
        (elim (eq_or_ne parent i) [
          | inl e ↦
              let here : (parent == i) ≡ true = ground (arith, e) in
              rw here (
                subst
                  (λ k. All (IsChild grown k) (t.num_entries ∷ (t.entries parent).children_list)) e
                  (new-IsChild, All-map _ (kept-IsChild parent) (v parent known)))
          | inr ne ↦
              let there : (parent == i) ≡ false = grind (arith, ne) in
              elim (Bool-cases (t.num_entries == i)) [
                | inl e ↦ rw (there, e) tt
                | inr o ↦
                    rw (there, o)
                      (All-map _ (kept-IsChild i) (v i (omega (arith, lt, grown-num, different o))))
              ]
        ])
    where
      different : {i : ℕ} → (t.num_entries == i) ≡ false → t.num_entries ≢ i
      different {i} o = ground (arith, o)

  grown_parent : grown.entries parent ≡ record (t.entries parent) {
    children_list = t.num_entries ∷ (t.entries parent).children_list;
  }
  grown_parent =
      let here : (parent == parent) ≡ true = ground arith in grown-entries parent ∙ rw here refl

  finds_new : find_child grown parent name ≡ some t.num_entries
  unfolding find_child find_among new_entry
  finds_new =
      let self : (hash_name name == hash_name name) ≡ true = ground arith in
      subst (λ (x : Entry). find_among grown name x.children_list ≡ some t.num_entries)
        (sym grown_parent) (head (grown.entries t.num_entries) grown_new self)
    where
      head :
          (e : Entry)
          → e ≡ new_entry
          → (hash_name name == hash_name name) ≡ true
          → (if (e.name_hash == hash_name name) && same_text e.name name
              then some t.num_entries
              else find_among grown name (t.entries parent).children_list)
            ≡ some t.num_entries
      head e is_new self =
          subst
            (λ (x : Entry).
              (if (x.name_hash == hash_name name) && same_text x.name name
                then some t.num_entries
                else find_among grown name (t.entries parent).children_list)
              ≡ some t.num_entries)
            (sym is_new) (rw (self, same_text_self name s) refl)

  again : lookup fs_lookup parent name grown ≡ (t.num_entries, grown)
  unfolding lookup
  again = rw (finds_new, lookup) refl

-- In a directory of a tree that is no redirection, a lookup of a string gives a child of the directory with
-- that name, keeps the tree well formed, and a second lookup gives the same entry and changes nothing.
pub lookup_lem :
    (fs_lookup : Option ℕ → List ℕ → Option ℕ) (parent : ℕ) (name : List ℕ) (t : Tree)
    → IsString name
    → IsTree t
    → parent < t.num_entries
    → (t.entries parent).redirect ≡ none
    → let (next, t') = lookup fs_lookup parent name t in
      IsChild t' parent next
      × ((t'.entries next).name ≡ name)
      × IsTree t'
      × (lookup fs_lookup parent name t' ≡ (next, t'))
unfolding IsTree find_child new_entry Found lookup
lookup_lem fs_lookup parent name t s v known plain =
    elim (Option-cases (find_child t parent name)) [
      | inl absent ↦
          subst (Found fs_lookup parent name)
            (sym (lookup_missing fs_lookup parent name t s v known plain absent))
            (
              new-IsChild fs_lookup parent name t s v known plain,
              ap (λ (x : Entry). x.name) (grown_new fs_lookup parent name t s v known plain),
              grown-IsTree fs_lookup parent name t s v known plain,
              again fs_lookup parent name t s v known plain,
            )
      | inr (c, e) ↦
          let hit : lookup fs_lookup parent name t ≡ (c, t) = rw (e, lookup) refl in
          let (child, named) = find_among-found t name parent _ c s (v parent known) e in
          subst (Found fs_lookup parent name) (sym hit) (child, named, v, hit)
    ]
