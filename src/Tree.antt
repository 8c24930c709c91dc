-- ===== src/Tree.antt =====
-- exos/kernel/tree.c: the tree of named nodes, and paths in it.
-- A node is a number; a name or a path is the list of its bytes, without the NUL that ends it. The locks
-- and the node types of a DEBUG build are left out, and each node has a name; a failed ASSERT and a panic are `none`. The loop over
-- the parts of a path takes fuel; the length of the path is enough.
pub mod Paths
pub mod Tests
use ex_os.Base.{
  ℕ, zero, suc, ◌+◌, Bool, true, false, not, ◌&&◌, ◌||◌, Option, none, some, List, [], ◌∷◌, ◌++◌,
  leb, ◌==◌, if◌then◌else◌, length,
}
use ex_os.LinkedList.Loops.{has}
use ex_os.Thread.{write_at}

-- `exos_tree_node_t` and `exos_tree_group_t`, by their nodes
pub record Tree : Type 0 where
  pub is_group : ℕ → Bool
  pub names : ℕ → List ℕ
  pub children : ℕ → List ℕ
  pub parents : ℕ → ℕ

abbrev pub root : ℕ
root = 0

abbrev pub dev : ℕ
dev = 1

abbrev pub mnt : ℕ
mnt = 2

-- `exos_tree_add_child`
pub add_child : Tree → ℕ → ℕ → Option Tree
add_child t group child =
    if not (t.is_group group) || has child (t.children group)
    then none
    else some (record t {
      children = write_at t.children group (t.children group ++ (child ∷ []));
      parents = write_at t.parents child group;
    })

-- `__tree_initialize`, of a tree with the three groups
pub initialize : Tree → Option Tree
initialize t =
    let cleared = record t {
      children = write_at (write_at (write_at t.children root []) dev []) mnt [];
    } in
    elim (add_child cleared root dev) [ none ↦ none | some t' ↦ add_child t' root mnt ]

-- The end of `_name_eq`: what follows the name in the path
unfoldable pub name_end : List ℕ → Option (List ℕ)
name_end [] = some []
name_end (c ∷ path) = if c == b'/' then some path else none

-- `_name_eq`: what is left of the path, if it begins with the name
unfoldable pub name_eq : List ℕ → List ℕ → Option (List ℕ)
name_eq path [] = name_end path
name_eq [] (c ∷ name) = none
name_eq (d ∷ path) (c ∷ name) = let rest = name_eq path name in if c == d then rest else none

-- The loop over the children of a group
unfoldable pub find_child : (ℕ → List ℕ) → List ℕ → List ℕ → Option (ℕ × List ℕ)
find_child names path [] = none
find_child names path (c ∷ cs) = elim (name_eq path (names c)) [
  | none ↦ find_child names path cs
  | some rest ↦ some (c, rest)
]

-- The child that the loop of `exos_tree_parse_path` goes on with, if there is one
abbrev pub next_child : Tree → ℕ → List ℕ → Option (ℕ × List ℕ)
next_child t found path =
    if t.is_group found then find_child t.names path (t.children found) else none

-- The loop of `exos_tree_parse_path`: the node, and what is left of the path
unfoldable pub walk : ℕ → Tree → ℕ → List ℕ → Option (ℕ × List ℕ)
walk fuel t found [] = some (found, [])
walk zero t found (c ∷ path) = none
walk (suc fuel) t found (c ∷ path) = elim (next_child t found (c ∷ path)) [
  | none ↦ some (found, c ∷ path)
  | some (child, rest) ↦ walk fuel t child rest
]

abbrev pub or_root : Option ℕ → ℕ
or_root none = root
or_root (some parent) = parent

-- Where a path starts.
unfoldable pub start : Option ℕ → List ℕ → ℕ × List ℕ
start parent [] = (or_root parent, [])
start parent (c ∷ path) = if c == b'/' then (root, path) else (or_root parent, c ∷ path)

-- `exos_tree_parse_path`
pub parse_path : Tree → Option ℕ → List ℕ → Option (ℕ × List ℕ)
parse_path t parent path = let (from, sub) = start parent path in walk (length sub) t from sub

abbrev pub keep_group : Tree → Option (ℕ × List ℕ) → Option ℕ
keep_group t none = none
keep_group t (some (node, rest)) = if t.is_group node then some node else none

abbrev pub keep_other : Tree → Option (ℕ × List ℕ) → Option ℕ
keep_other t none = none
keep_other t (some (node, rest)) = if t.is_group node then none else some node

-- `exos_tree_find_group`: the group or NULL. A path that is NULL gives `parent`, which may be NULL.
pub find_group : Tree → Option ℕ → Option (List ℕ) → Option ℕ
find_group t parent none = parent
find_group t parent (some path) = keep_group t (parse_path t parent path)

-- `exos_tree_find_path`: a node that is no group, or NULL
pub find_path : Tree → Option ℕ → List ℕ → Option ℕ
find_path t parent path = keep_other t (parse_path t parent path)

abbrev pub done : Option Tree → Option (Bool × Tree)
done none = none
done (some t) = some (true, t)

-- `exos_tree_add_child_path`
pub add_child_path : Tree → ℕ → Option (List ℕ) → Option (Bool × Tree)
add_child_path t child parent_path = elim (find_group t none parent_path) [
  | none ↦ some (false, t)
  | some parent ↦ done (add_child t parent child)
]

-- `exos_tree_add_group`
pub add_group : Tree → ℕ → Option (List ℕ) → Option (Bool × Tree)
add_group t group parent_path =
    add_child_path
      (record t {
        is_group = write_at t.is_group group true;
        children = write_at t.children group [];
      })
      group parent_path

abbrev pub is_name_char : ℕ → Bool
is_name_char c =
    (leb b'0' c && leb c b'9')
    || (leb b'A' c && leb c b'Z')
    || (leb b'a' c && leb c b'z')
    || (c == b'_')

-- The loop of `exos_tree_valid_name`, and what it returns
unfoldable pub name_length : List ℕ → ℕ → ℕ
name_length [] n = n
name_length (c ∷ name) n = let rest = name_length name (n + 1) in if is_name_char c then rest else 0

-- `exos_tree_valid_name`: the length, or 0 of a name that is not valid
pub valid_name : List ℕ → ℕ
valid_name name = name_length name 0
