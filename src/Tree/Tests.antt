-- ===== src/Tree/Tests.antt =====
-- A tree of the root, the group "dev" and a device "a" in it, and the theorems there.
use ex_os.Base.{ℕ, ◌≡◌, refl, true, none, some, List, [], ◌∷◌, arith, ◌==◌, if◌then◌else◌}
use ex_os.Thread.Ready.{occurs}
use ex_os.Tree.{
  Tree, root, dev, name_end, name_eq, find_child, walk, start, parse_path, find_group, find_path,
  name_length, valid_name,
}
use ex_os.Tree.Paths.{IsChain, path_text, path_before, parse_path-path_text, find_group_missing}

abbrev names : ℕ → List ℕ
names n = if n == 1 then b'd' ∷ b'e' ∷ b'v' ∷ [] else b'a' ∷ []

abbrev tree : Tree
tree = record {
  is_group = λ n. if n == 0 then true else n == 1;
  names = names;
  children = λ n. if n == 0 then 1 ∷ [] else if n == 1 then 2 ∷ [] else [];
  parents = λ n. if n == 2 then 1 else 0;
}

tree-IsChain : IsChain tree root (1 ∷ 2 ∷ [])
unfolding IsChain occurs
tree-IsChain = (
  refl,
  (λ e. ground arith),
  (omega arith, (omega arith, (omega arith, tt))),
  omega arith,
  (((omega arith, (omega arith, (omega arith, tt))), (λ e. refl)), tt),
  (
    refl,
    (λ e. ground arith),
    (omega arith, tt),
    omega arith,
    (((omega arith, tt), (λ e. refl)), tt),
    tt,
  ),
)

dev-IsChain : IsChain tree root (1 ∷ [])
unfolding IsChain tree-IsChain
dev-IsChain = (tree-IsChain.0, tree-IsChain.1, tree-IsChain.2, tree-IsChain.3, tree-IsChain.4, tt)

valid : valid_name (b'd' ∷ b'_' ∷ b'2' ∷ []) ≡ 3
unfolding valid_name name_length
valid = refl

not_valid : valid_name (b'd' ∷ b'/' ∷ []) ≡ 0
unfolding valid_name name_length
not_valid = refl

device : find_path tree (some 1) (b'a' ∷ []) ≡ some 2
unfolding find_path parse_path start walk find_child name_eq name_end
device = refl

parse_path-path_text_example :
    parse_path tree none (b'/' ∷ b'd' ∷ b'e' ∷ b'v' ∷ b'/' ∷ b'a' ∷ []) ≡ some (2, [])
unfolding path_text
parse_path-path_text_example = parse_path-path_text tree none (1 ∷ 2 ∷ []) tree-IsChain

find_group_missing_example :
    find_group tree none (some (b'/' ∷ b'd' ∷ b'e' ∷ b'v' ∷ b'/' ∷ b'z' ∷ [])) ≡ some dev
unfolding path_before find_child name_eq name_end
find_group_missing_example = find_group_missing tree none (1 ∷ []) b'z' [] dev-IsChain refl refl
