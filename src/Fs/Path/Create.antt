-- ===== src/Fs/Path/Create.antt =====
-- fs/vfs.cpp: `Entry::create` as far as the tree goes, with `create` of fs/tmpfs.cpp: ownership and modes are left
-- out. The dots of a directory are in Create/Dots.
pub mod Dots
use saba_os.Base.{
  ℕ, zero, suc, ◌+◌, ◌≡◌, ◌≢◌, ◌<◌, refl, sym, ◌∙◌, ap, subst, inl, inr, Bool, true, false,
  Bool-cases, Option-cases, if◌then◌else◌, ◌&&◌, ◌==◌, List, [], ◌∷◌, Option, none, some, arith,
}
use saba_os.Fs.Path.{
  Tree, Entry, Node, NodeType, with_entry, construct, add_child, find_child, find_among,
  is_directory, hash_name, same_text, reduce, reduced,
}
use saba_os.Klib.Hash.{hash_string, extend_char}
use saba_os.Klib.CString.{strcmp}

-- "." and ".."
abbrev pub dot : List ℕ
dot = 46 ∷ []

abbrev pub dot_dot : List ℕ
dot_dot = 46 ∷ 46 ∷ []

-- `tmpfs::Filesystem::create`, for an entry that has no vnode: `node` is the number of the new one.
pub give_node : NodeType → ℕ → ℕ → Tree → Tree
give_node kind node entry t =
    let made = record t {
      nodes = λ v. if node == v then record { node_type = kind; target = none } else t.nodes v;
    } in
    elim (t.entries entry).vnode [
      | some v ↦ t
      | none ↦ with_entry made entry (record (t.entries entry) { vnode = some node })
    ]

abbrev pub is_hard_link : NodeType → Bool
is_hard_link kind = elim kind [ NodeType.hard_link ↦ true | _ ↦ false ]

-- `add_child(Entry::construct(vnode, this, name, redirect))`
pub add_dot : Option ℕ → ℕ → List ℕ → ℕ → Tree → Tree
add_dot vnode entry name redirect t =
    let (child, made) = construct vnode (some entry) name (some redirect) t in
    add_child entry child made

pub add_dots : ℕ → ℕ → Tree → Tree
add_dots parent entry t =
    let with_dot = add_dot (t.entries entry).vnode entry dot entry t in
    add_dot (with_dot.entries parent).vnode entry dot_dot parent with_dot

-- `Entry::create`
pub create : NodeType → ℕ → ℕ → ℕ → Tree → Tree
create kind node parent entry t =
    let filled = if is_hard_link kind then t else give_node kind node entry t in
    let name = (filled.entries entry).name in
    let listed = elim (find_child filled parent name) as (λ o. Tree) [
      | some child ↦ filled
      | none ↦ add_child parent entry filled
    ] in
    if is_directory listed entry then add_dots parent entry listed else listed
