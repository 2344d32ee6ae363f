-- ===== src/Fs/Path.antt =====
-- fs/vfs.hpp and fs/vfs.cpp: directory entries, their lookup, and the walk along a path. Entries and vnodes are
-- known by numbers; a text is the list of its characters, without the zero at its end. What a filesystem's
-- `lookup` finds for a name that is not in the tree yet is given by `fs_lookup`, of the parent's vnode.
pub mod Names
pub mod Slashes
pub mod Leads
pub mod Resolve
pub mod Create
pub mod Children
pub mod Lookup
mod Tests
use saba_os.Base.{
  ℕ, zero, suc, ◌+◌, ◌-◌, Bool, true, false, ◌&&◌, ◌||◌, not, if◌then◌else◌, ltb, leb, ◌==◌, List,
  [], ◌∷◌, ◌++◌, length, take, drop, Option, none, some,
}
use saba_os.Klib.CString.{strchr, strcmp}
use saba_os.Klib.Hash.{hash_string}

-- The kinds that the walk tells apart; `other` stands for the rest.
pub data NodeType : Type 0 where
  directory symlink hard_link other : NodeType

-- The target is what a read of a symbolic link gives; none is an error of the read.
pub record Node : Type 0 where
  pub node_type : NodeType
  pub target : Option (List ℕ)

pub record Entry : Type 0 where
  pub vnode : Option ℕ
  pub parent : Option ℕ
  pub redirect : Option ℕ
  pub children_list : List ℕ
  pub name_hash : ℕ
  pub name : List ℕ

-- The entries made so far have the numbers below `num_entries`.
pub record Tree : Type 0 where
  pub entries : ℕ → Entry
  pub num_entries : ℕ
  pub nodes : ℕ → Node

abbrev pub with_entry : Tree → ℕ → Entry → Tree
with_entry t i e = record t { entries = λ j. if i == j then e else t.entries j }

pub hash_name : List ℕ → ℕ
hash_name name = hash_string 5381 name

-- `Entry::construct`: the new entry's number, and the tree.
pub construct : Option ℕ → Option ℕ → List ℕ → Option ℕ → Tree → ℕ × Tree
construct vnode parent name redirect t = (
  t.num_entries,
  record t {
    entries = λ j.
        if t.num_entries == j
        then record {
          vnode = vnode;
          parent = parent;
          redirect = redirect;
          children_list = [];
          name_hash = hash_name name;
          name = name;
        }
        else t.entries j;
    num_entries = t.num_entries + 1;
  },
)

-- A new child comes first.
pub add_child : ℕ → ℕ → Tree → Tree
add_child entry child t =
    with_entry t entry
      (record (t.entries entry) { children_list = child ∷ (t.entries entry).children_list })

-- `reduce`, for a chain of at most `fuel` redirections.
pub reduce : ℕ → Tree → ℕ → ℕ
reduce zero t i = i
reduce (suc fuel) t i = elim (t.entries i).redirect [ none ↦ i | some j ↦ reduce fuel t j ]

-- A chain that does not come back has no more redirections than there are entries.
abbrev pub reduced : Tree → ℕ → ℕ
reduced t i = reduce t.num_entries t i

-- `klib::strcmp(a, b) == 0`
pub same_text : List ℕ → List ℕ → Bool
same_text a b = let (x, y) = strcmp a b in x == y

pub find_among : Tree → List ℕ → List ℕ → Option ℕ
find_among t name [] = none
find_among t name (child ∷ rest) =
    let found = find_among t name rest in
    if ((t.entries child).name_hash == hash_name name) && same_text (t.entries child).name name
    then some child
    else found

pub find_child : Tree → ℕ → List ℕ → Option ℕ
find_child t entry name = find_among t name (t.entries entry).children_list

module _ (fs_lookup : Option ℕ → List ℕ → Option ℕ) where
  -- The filesystem's `lookup` on a new entry.
  pub fill_entry : ℕ → ℕ → List ℕ → Tree → Tree
  fill_entry parent entry name t =
      with_entry t entry
        (record (t.entries entry) { vnode = fs_lookup (t.entries parent).vnode name })

  -- `Entry::lookup`
  pub lookup_entry : ℕ → ℕ → List ℕ → Tree → Tree
  lookup_entry parent entry name t =
      let filled = fill_entry parent entry name t in
      elim (find_child filled (reduced filled parent) name) [
        | some child ↦ filled
        | none ↦ add_child parent entry filled
      ]

  pub lookup : ℕ → List ℕ → Tree → ℕ × Tree
  lookup parent name t = elim (find_child t parent name) [
    | some child ↦ (child, t)
    | none ↦
        let (entry, made) = construct none (some parent) name none t in
        (entry, lookup_entry parent entry name made)
  ]

abbrev pub slash : ℕ
slash = 47

-- Where `strchr(path, '/')` points, as an index.
pub slash_at : List ℕ → Option ℕ
slash_at path = elim (strchr path slash) [ none ↦ none | some s ↦ some (length path - length s) ]

-- What one turn of the loop takes `path` for, with `path_len` as the loop has it: a name up to an index, the
-- last one or not, or a slash to pass over.
pub data Segment : Type 0 where
  middle last : ℕ → Segment
  double_slash : Segment

pub segment : List ℕ → ℕ → Segment
segment path path_len = elim (slash_at path) [
  | none ↦ last path_len
  | some i ↦ if i + 1 == path_len then last i else if i == 0 then double_slash else middle i
]

-- An entry, or `null_entry`. `overflow` is a write past the end of `new_path`.
pub data Walked : Type 0 where
  found : ℕ → Tree → Walked
  null_entry : Tree → Walked
  overflow : Tree → Walked
  out_of_fuel : Walked

pub is_directory : Tree → ℕ → Bool
is_directory t i = elim (t.entries i).vnode [
  | none ↦ false
  | some v ↦ elim (t.nodes v).node_type [ NodeType.directory ↦ true | _ ↦ false ]
]

pub is_symlink : Tree → ℕ → Bool
is_symlink t v = elim (t.nodes v).node_type [ NodeType.symlink ↦ true | _ ↦ false ]

-- `path_to_entry` up to its loop, which is `go`.
pub enter : (List ℕ → ℕ → ℕ → Tree → Walked) → ℕ → List ℕ → Option ℕ → Tree → Walked
enter go root [] start t = null_entry t
enter go root (c ∷ path) start t =
    if c == slash
    then if length path == 0 then found root t else go path (length path) root t
    else elim start [
      | none ↦ null_entry t
      | some s ↦ go (c ∷ path) (length path + 1) (reduced t s) t
    ]

-- A symbolic link: its target, with the rest of the path behind it in a buffer of 256 bytes, is a path from the
-- current entry.
pub follow_link : (List ℕ → Tree → Walked) → Option (List ℕ) → List ℕ → Tree → Walked
follow_link again none rest t = null_entry t
follow_link again (some target) rest t =
    if ltb 127 (length target)
    then null_entry t
    else if ltb 255 (length target + length rest)
    then overflow t
    else again (target ++ rest) t

-- The rest of a turn, for the entry that the name was looked up as.
pub after_lookup :
    Bool → Bool → (List ℕ → Tree → Walked) → (ℕ → Tree → Walked) → List ℕ → ℕ → Tree → Walked
after_lookup follow_last is_last again go rest next t = elim (t.entries next).vnode [
  | none ↦ if is_last then found next t else null_entry t
  | some v ↦
      if (not is_last || follow_last) && is_symlink t v
      then follow_link again (t.nodes v).target rest t
      else if is_last
      then found next t
      else go (reduced t next) t
]

module _ (fs_lookup : Option ℕ → List ℕ → Option ℕ) (root : ℕ) (follow_last : Bool) where
  -- One turn of the loop, for a name of `i` characters.
  pub component : (List ℕ → ℕ → ℕ → Tree → Walked) → Bool → List ℕ → ℕ → ℕ → ℕ → Tree → Walked
  component go is_last path path_len i current t =
      let (next, t') = lookup fs_lookup current (take i path) t in
      after_lookup follow_last is_last (λ text. enter go root text (some current))
        (go (drop (i + 1) path) (path_len - (i + 1))) (drop i path) next t'

  pub turn : (List ℕ → ℕ → ℕ → Tree → Walked) → List ℕ → ℕ → ℕ → Tree → Walked
  turn go path path_len current t = elim (segment path path_len) [
    | middle i ↦ component go false path path_len i current t
    | last i ↦ component go true path path_len i current t
    | double_slash ↦ go (drop 1 path) path_len current t
  ]

  pub walk : ℕ → List ℕ → ℕ → ℕ → Tree → Walked
  walk zero path path_len current t = out_of_fuel
  walk (suc fuel) path path_len current t =
      if is_directory t current then turn (walk fuel) path path_len current t else null_entry t

  pub path_to_entry : ℕ → List ℕ → Option ℕ → Tree → Walked
  path_to_entry fuel = enter (walk fuel) root
