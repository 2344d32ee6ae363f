-- ===== src/Fs/Path/Create/Dots.antt =====
-- fs/vfs.cpp: where the dots of a new directory lead.
use saba_os.Base.{
  ℕ, zero, suc, ◌+◌, ◌≡◌, ◌≢◌, ◌<◌, refl, ◌∙◌, ap, inl, inr, Bool, true, false, Option-cases,
  if◌then◌else◌, ◌==◌, List, [], ◌∷◌, Option, none, some, arith,
}
use saba_os.Fs.Path.{
  Tree, Entry, NodeType, construct, add_child, find_child, find_among, is_directory, hash_name,
  same_text, reduce, reduced,
}
use saba_os.Klib.Hash.{hash_string, extend_char}
use saba_os.Klib.CString.{strcmp}
use saba_os.Fs.Path.Create.{dot, dot_dot, give_node, add_dot, add_dots, create}

-- What an added child is.
added_dot :
    (vnode : Option ℕ) (entry : ℕ) (name : List ℕ) (redirect : ℕ) (t : Tree)
    → entry < t.num_entries
    → let t' = add_dot vnode entry name redirect t in
      ((t'.entries entry).children_list ≡ t.num_entries ∷ (t.entries entry).children_list)
      × (t'.num_entries ≡ t.num_entries + 1)
      × (t'.entries t.num_entries ≡ record {
        vnode = vnode;
        parent = some entry;
        redirect = some redirect;
        children_list = [];
        name_hash = hash_name name;
        name = name;
      })
      × ((j : ℕ) → j < t.num_entries → j ≢ entry → t'.entries j ≡ t.entries j)
      × ((t'.entries entry).redirect ≡ (t.entries entry).redirect)
unfolding add_dot construct add_child
added_dot vnode entry name redirect t lt =
    let self : (entry == entry) ≡ true = ground arith in
    let new : (t.num_entries == entry) ≡ false = ground (arith, lt) in
    let new' : (entry == t.num_entries) ≡ false = ground (arith, lt) in
    let own : (t.num_entries == t.num_entries) ≡ true = ground arith in
    (
      rw (self, new) refl,
      refl,
      rw (new', own) refl,
      λ j below ne.
          let a : (entry == j) ≡ false = grind (arith, ne) in
          let b : (t.num_entries == j) ≡ false = ground (arith, below) in rw (a, b) refl,
      rw (self, new) refl,
    )

-- The name of an entry, with its hash.
Named : Tree → ℕ → List ℕ → Type 0
Named t c name = ((t.entries c).name_hash ≡ hash_name name) × ((t.entries c).name ≡ name)

find_dots :
    (t : Tree) (c d : ℕ) (rest : List ℕ)
    → Named t c dot_dot
    → Named t d dot
    → (find_among t dot (c ∷ d ∷ rest) ≡ some d) × (find_among t dot_dot (c ∷ d ∷ rest) ≡ some c)
unfolding Named find_among hash_name hash_string extend_char same_text strcmp
find_dots t c d rest (hc, nc) (hd, nd) = (rw (hc, hd, nd) refl, rw (hc, nc) refl)

reduce_one :
    (fuel : ℕ) (t : Tree) (i j : ℕ)
    → (t.entries i).redirect ≡ some j
    → (t.entries j).redirect ≡ none
    → 0 < fuel
    → reduce fuel t i ≡ j
unfolding reduce
reduce_one zero t i j e f pos = absurd (omega (arith, pos))
reduce_one (suc zero) t i j e f pos = rw (e, reduce) refl
reduce_one (suc (suc fuel)) t i j e f pos = rw (e, reduce) rw (f, reduce) refl

add_dots_lem :
    (parent entry : ℕ) (t : Tree)
    → parent < t.num_entries
    → entry < t.num_entries
    → parent ≢ entry
    → (t.entries parent).redirect ≡ none
    → (t.entries entry).redirect ≡ none
    → let t' = add_dots parent entry t in
      ((here : ℕ) × (find_child t' entry dot ≡ some here) × (reduced t' here ≡ entry))
      × ((above : ℕ) × (find_child t' entry dot_dot ≡ some above) × (reduced t' above ≡ parent))
unfolding add_dots find_child Named
add_dots_lem parent entry t known here apart plain_parent plain =
    let one = added_dot (t.entries entry).vnode entry dot entry t here in
    let two =
      added_dot (first.entries parent).vnode entry dot_dot parent first
        (omega (arith, one.1, here)) in
    let new_dot =
      two.3 t.num_entries (omega (arith, one.1)) (λ e. absurd (omega (arith, e, here))) ∙ one.2 in
    let finds =
      find_dots both first.num_entries t.num_entries (t.entries entry).children_list
        (ap (λ (e : Entry). e.name_hash) two.2, ap (λ (e : Entry). e.name) two.2)
        (ap (λ (e : Entry). e.name_hash) new_dot, ap (λ (e : Entry). e.name) new_dot) in
    let listed : (both.entries entry).children_list
        ≡ first.num_entries ∷ t.num_entries ∷ (t.entries entry).children_list =
      two.0 ∙ ap (λ l. first.num_entries ∷ l) one.0 in
    let parent_kept = two.3 parent (omega (arith, one.1, known)) apart ∙ one.3 parent known apart in
    let some_left : 0 < both.num_entries = omega (arith, two.1) in
    (
      (
        t.num_entries,
        ap (find_among both dot) listed ∙ finds.0,
        reduce_one both.num_entries both t.num_entries entry
            (ap (λ (e : Entry). e.redirect) new_dot) (two.4 ∙ one.4 ∙ plain) some_left,
      ),
      (
        first.num_entries,
        ap (find_among both dot_dot) listed ∙ finds.1,
        reduce_one both.num_entries both first.num_entries parent
            (ap (λ (e : Entry). e.redirect) two.2)
            (ap (λ (e : Entry). e.redirect) parent_kept ∙ plain_parent) some_left,
      ),
    )
  where
    first : Tree
    first = add_dot (t.entries entry).vnode entry dot entry t

    both : Tree
    both = add_dot (first.entries parent).vnode entry dot_dot parent first

-- A tree in which the entry has its directory, and only its dots are missing.
record Prepared (parent entry node num : ℕ) (u : Tree) : Type 0 where
  number : u.num_entries ≡ num
  has_node : (u.entries entry).vnode ≡ some node
  entry_plain : (u.entries entry).redirect ≡ none
  parent_plain : (u.entries parent).redirect ≡ none
  kind : (u.nodes node).node_type ≡ NodeType.directory

module _ (parent entry node : ℕ) (apart : parent ≢ entry) where
  give_node-Prepared :
      (t : Tree)
      → (t.entries parent).redirect ≡ none
      → (t.entries entry).redirect ≡ none
      → (t.entries entry).vnode ≡ none
      → Prepared parent entry node t.num_entries (give_node NodeType.directory node entry t)
  unfolding give_node
  give_node-Prepared t plain_parent plain absent =
      let self : (entry == entry) ≡ true = ground arith in
      let other : (entry == parent) ≡ false = ground (arith, apart) in
      let same : (node == node) ≡ true = ground arith in
      record {
        number = rw (absent, give_node) refl;
        has_node = rw (absent, give_node) rw self refl;
        entry_plain = rw (absent, give_node) rw self plain;
        parent_plain = rw (absent, give_node) rw other plain_parent;
        kind = rw (absent, give_node) rw same refl;
      }

  add_child-Prepared :
      (num : ℕ) (u : Tree)
      → Prepared parent entry node num u
      → Prepared parent entry node num (add_child parent entry u)
  unfolding add_child
  add_child-Prepared num u h =
      let other : (parent == entry) ≡ false = ground (arith, apart) in
      let self : (parent == parent) ≡ true = ground arith in
      record {
        number = h.number;
        has_node = rw other h.has_node;
        entry_plain = rw other h.entry_plain;
        parent_plain = rw self h.parent_plain;
        kind = h.kind;
      }

Prepared-is_directory :
    (parent entry node num : ℕ) (u : Tree)
    → Prepared parent entry node num u
    → is_directory u entry ≡ true
unfolding is_directory
Prepared-is_directory parent entry node num u h =
    rw (h.has_node, is_directory)
      (ap (λ (k : NodeType). elim k as (λ _. Bool) [ NodeType.directory ↦ true | _ ↦ false ])
        h.kind)

-- What the dots of a directory lead to.
abbrev pub HasDots : ℕ → ℕ → Tree → Type 0
HasDots parent entry t =
    ((here : ℕ) × (find_child t entry dot ≡ some here) × (reduced t here ≡ entry))
    × ((above : ℕ) × (find_child t entry dot_dot ≡ some above) × (reduced t above ≡ parent))

-- When an entry that has no vnode is made a directory below a parent, and neither is a redirection, then "." is
-- found in it and leads to the directory itself, and ".." is found and leads to the parent, whether the
-- entry was already a child of the parent or not.
pub create_lem :
    (node parent entry : ℕ) (t : Tree)
    → parent < t.num_entries
    → entry < t.num_entries
    → parent ≢ entry
    → (t.entries parent).redirect ≡ none
    → (t.entries entry).redirect ≡ none
    → (t.entries entry).vnode ≡ none
    → HasDots parent entry (create NodeType.directory node parent entry t)
unfolding create
create_lem node parent entry t known here apart plain_parent plain absent =
    elim (Option-cases (find_child filled parent (filled.entries entry).name)) [
      | inl missing ↦ rw missing (
          dots (add_child parent entry filled)
            (add_child-Prepared parent entry node apart t.num_entries filled ready))
      | inr (c, is_there) ↦ rw is_there (dots filled ready)
    ]
  where
    filled : Tree
    filled = give_node NodeType.directory node entry t

    ready : Prepared parent entry node t.num_entries filled
    ready = give_node-Prepared parent entry node apart t plain_parent plain absent

    dots :
        (u : Tree)
        → Prepared parent entry node t.num_entries u
        → HasDots parent entry (if is_directory u entry then add_dots parent entry u else u)
    dots u h =
        let is_one : is_directory u entry ≡ true =
          Prepared-is_directory parent entry node t.num_entries u h in
        rw is_one (
          add_dots_lem parent entry u (omega (arith, known, h.number))
            (omega (arith, here, h.number)) apart h.parent_plain h.entry_plain)
