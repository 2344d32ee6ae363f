-- ===== src/Fs/Path/Tests.antt =====
-- A root with one directory, and paths in it.
use saba_os.Base.{
  ℕ, zero, suc, ◌≡◌, refl, true, false, if◌then◌else◌, ◌==◌, List, [], ◌∷◌, ◌++◌, Option, none,
  some, arith,
}
use saba_os.Klib.CString.{strchr}
use saba_os.Klib.CString.Compare.{IsString}
use saba_os.Fs.Path.{
  Tree, Entry, NodeType, hash_name, lookup, path_to_entry, slash, reduced, is_symlink,
}
use saba_os.Fs.Path.Create.{create}
use saba_os.Fs.Path.Create.Dots.{HasDots, create_lem}
use saba_os.Fs.Path.Names.{IsName}
use saba_os.Fs.Path.Resolve.{NoLinks, resolve}
use saba_os.Fs.Path.Slashes.{Step, spell, names, extras, AreNames, behind_names}
use saba_os.Fs.Path.Leads.{path_to_entry_lem}
use saba_os.Fs.Path.Children.{IsChild, IsTree}
use saba_os.Fs.Path.Lookup.{lookup_lem}

abbrev nothing_more : Option ℕ → List ℕ → Option ℕ
nothing_more parent name = none

-- "a"
abbrev name_a : List ℕ
name_a = 97 ∷ []

abbrev root_entry : Entry
root_entry = record {
  vnode = some 0;
  parent = none;
  redirect = none;
  children_list = 1 ∷ [];
  name_hash = 0;
  name = [];
}

abbrev directory_a : Entry
directory_a = record {
  vnode = some 1;
  parent = some 0;
  redirect = none;
  children_list = [];
  name_hash = hash_name name_a;
  name = name_a;
}

abbrev tree : Tree
tree = record {
  entries = λ i. if i == 0 then root_entry else directory_a;
  num_entries = 2;
  nodes = λ v. record { node_type = NodeType.directory; target = none };
}

no_links : NoLinks tree
unfolding NoLinks is_symlink
no_links v = refl

-- "/a//b/"
abbrev step_a : Step
step_a = record { extra = 0; name = name_a }

abbrev step_b : Step
step_b = record { extra = 1; name = 98 ∷ [] }

are_names : AreNames (step_a ∷ step_b ∷ [])
unfolding AreNames names IsName strchr
are_names = ((omega arith, refl), ((omega arith, refl), tt))

path_to_entry_example :
    let path = spell (step_a ∷ step_b ∷ []) true in
    let looked_up =
      names (step_a ∷ step_b ∷ []) ++ behind_names true (extras (step_a ∷ step_b ∷ [])) in
    (path_to_entry nothing_more 0 true 4 (slash ∷ path) (some 1) tree
      ≡ resolve nothing_more looked_up 0 tree)
    × (if step_a.extra == 0
        then path_to_entry nothing_more 0 true 4 path (some 1) tree
          ≡ resolve nothing_more looked_up (reduced tree 1) tree
        else Unit)
unfolding extras
path_to_entry_example =
    path_to_entry_lem nothing_more 0 true 4 step_a (step_b ∷ []) true 1 tree no_links are_names
      (omega arith)

tree-IsTree : IsTree tree
unfolding IsTree IsString
tree-IsTree zero lt =
    (record { made = omega arith; its_parent = refl; its_name = (omega arith, tt) }, tt)
tree-IsTree (suc i) lt = let e : (suc i == 0) ≡ false = ground arith in rw e tt

lookup_example :
    let (next, t') = lookup nothing_more 0 (98 ∷ []) tree in
    IsChild t' 0 next
    × ((t'.entries next).name ≡ 98 ∷ [])
    × IsTree t'
    × (lookup nothing_more 0 (98 ∷ []) t' ≡ (next, t'))
unfolding IsString
lookup_example =
    lookup_lem nothing_more 0 (98 ∷ []) tree (omega arith, tt) tree-IsTree (omega arith) refl

-- The entry of "a" before it has a vnode.
abbrev bare_tree : Tree
bare_tree = record tree {
  entries = λ i. if i == 0 then root_entry else record directory_a { vnode = none };
}

create_example : HasDots 0 1 (create NodeType.directory 5 0 1 bare_tree)
create_example =
    create_lem 5 0 1 bare_tree (omega arith) (omega arith) (λ e. absurd (omega (arith, e))) refl
      refl refl
