-- ===== src/Tree/Paths.antt =====
-- The path of a node leads to it.
use ex_os.Base.{
  ℕ, zero, suc, ◌≤◌, ◌<◌, ◌≡◌, ◌≢◌, ◌∙◌, refl, sym, ap, inl, inr, true, false, Option, none, some,
  List, [], ◌∷◌, ◌++◌, append-nil, arith, ◌==◌, Bool-cases, length, length-append,
}
use ex_os.LinkedList.Links.{All}
use ex_os.Thread.Ready.{occurs}
use ex_os.Tree.{
  root, find_group, keep_group, Tree, name_end, name_eq, find_child, next_child, walk, start,
  parse_path,
}

abbrev pub HasNoSlash : List ℕ → Type 0
HasNoSlash = All (λ c. c ≢ b'/')

name_eq_self : (a tail : List ℕ) → name_eq (a ++ tail) a ≡ name_end tail
unfolding name_eq
name_eq_self [] tail = refl
name_eq_self (c ∷ a) tail =
    let same : (c == c) ≡ true = ground arith in rw same (name_eq_self a tail)

name_eq_other :
    (a b tail rest : List ℕ)
    → HasNoSlash a
    → HasNoSlash b
    → name_end tail ≡ some rest
    → a ≢ b
    → name_eq (a ++ tail) b ≡ none
unfolding name_eq name_end
name_eq_other [] [] tail rest p q e ne = absurd (ne refl)
name_eq_other [] (d ∷ b) [] rest p q e ne = refl
name_eq_other [] (d ∷ b) (c ∷ tail) rest p (q, qs) e ne = elim (Bool-cases (c == b'/')) [
  | inl h ↦ let other : (d == c) ≡ false = ground arith in rw other refl
  | inr h ↦ absurd (let f = rw h at e in grind (arith, f))
]
name_eq_other (c ∷ a) [] tail rest (p, ps) q e ne = ground arith
name_eq_other (c ∷ a) (d ∷ b) tail rest (p, ps) (q, qs) e ne = elim (Bool-cases (d == c)) [
  | inl h ↦
      let same : c ≡ d = ground arith in
      rw h
        (name_eq_other a b tail rest ps qs e (λ eq. ne (ap (λ l. c ∷ l) eq ∙ ap (λ x. x ∷ b) same)))
  | inr h ↦ rw h refl
]

-- The child of a name is found, if its siblings have other names.
find_child_lem :
    (names : ℕ → List ℕ) (c : ℕ) (tail rest : List ℕ) (cs : List ℕ)
    → HasNoSlash (names c)
    → name_end tail ≡ some rest
    → occurs c cs ≢ 0
    → All (λ x. HasNoSlash (names x) × (names c ≡ names x → c ≡ x)) cs
    → find_child names (names c ++ tail) cs ≡ some (c, rest)
unfolding find_child occurs
find_child_lem names c tail rest [] p e o only = absurd (o refl)
find_child_lem names c tail rest (x ∷ xs) p e o ((q, one), only) = elim (Bool-cases (x == c)) [
  | inl h ↦
      let same : c ≡ x = ground arith in
      let found : name_eq (names c ++ tail) (names x) ≡ some rest =
        ap (λ y. name_eq (names c ++ tail) (names y)) (sym same)
        ∙ name_eq_self (names c) tail
        ∙ e in
      rw (found, find_child) (ap (λ y. some (y, rest)) (sym same))
  | inr h ↦
      let other : name_eq (names c ++ tail) (names x) ≡ none =
        name_eq_other (names c) (names x) tail rest p q e (λ s. let f = one s in ground arith) in
      rw (other, find_child)
        (find_child_lem names c tail rest xs p e (λ z. o (ground (arith, z))) only)
]

-- Each node of the list is a child of the one before it, the first one of `g`: it has a name, and no
-- sibling has the same one.
unfoldable pub IsChain : Tree → ℕ → List ℕ → Type 0
IsChain t g [] = Unit
IsChain t g (c ∷ cs) =
    (t.is_group g ≡ true)
    × (occurs c (t.children g) ≢ 0)
    × HasNoSlash (t.names c)
    × (0 < length (t.names c))
    × All (λ x. HasNoSlash (t.names x) × (t.names c ≡ t.names x → c ≡ x)) (t.children g)
    × IsChain t c cs

-- The names of the nodes, with slashes in between.
unfoldable pub path_text : Tree → List ℕ → List ℕ
path_text t [] = []
path_text t (c ∷ []) = t.names c
path_text t (c ∷ d ∷ cs) = t.names c ++ (b'/' ∷ path_text t (d ∷ cs))

abbrev pub last_of : ℕ → List ℕ → ℕ
last_of g [] = g
last_of g (c ∷ cs) = last_of c cs

walk_step :
    (fuel : ℕ) (t : Tree) (g : ℕ) (path : List ℕ) (c : ℕ) (rest : List ℕ)
    → 0 < length path
    → t.is_group g ≡ true
    → find_child t.names path (t.children g) ≡ some (c, rest)
    → walk (suc fuel) t g path ≡ walk fuel t c rest
unfolding walk
walk_step fuel t g [] c rest some_path group found = absurd (omega arith)
walk_step fuel t g (x ∷ path) c rest some_path group found = rw (group, found, walk) refl

walk-path_text :
    (fuel : ℕ) (t : Tree) (g : ℕ) (cs : List ℕ)
    → IsChain t g cs
    → length (path_text t cs) ≤ fuel
    → walk fuel t g (path_text t cs) ≡ some (last_of g cs, [])
unfolding walk path_text IsChain name_end
walk-path_text fuel t g [] chain enough = refl
walk-path_text zero t g (c ∷ []) (_, _, _, size, _, _) enough = absurd (omega arith)
walk-path_text zero t g (c ∷ d ∷ cs) (_, _, _, size, _, _) enough =
    absurd (omega (arith, length-append (t.names c) (b'/' ∷ path_text t (d ∷ cs))))
walk-path_text (suc fuel) t g (c ∷ []) (group, child, clean, size, only, _) enough =
    let found = find_child_lem t.names c [] [] (t.children g) clean refl child only in
    walk_step fuel t g (t.names c) c [] size group (rw (append-nil (t.names c)) at found)
walk-path_text (suc fuel) t g (c ∷ d ∷ cs) (group, child, clean, size, only, chain) enough =
    let rest = path_text t (d ∷ cs) in
    let total = length-append (t.names c) (b'/' ∷ rest) in
    let found = find_child_lem t.names c (b'/' ∷ rest) rest (t.children g) clean refl child only in
    walk_step fuel t g (t.names c ++ (b'/' ∷ rest)) c rest (omega (arith, total)) group found
    ∙ walk-path_text fuel t c (d ∷ cs) chain (omega (arith, total))

-- `exos_tree_parse_path` of a slash and the names of a chain of nodes from the root on, with slashes in
-- between, gives the last of the nodes and leaves nothing of the path.
pub parse_path-path_text :
    (t : Tree) (parent : Option ℕ) (cs : List ℕ)
    → IsChain t root cs
    → parse_path t parent (b'/' ∷ path_text t cs) ≡ some (last_of root cs, [])
unfolding parse_path start
parse_path-path_text t parent cs chain =
    walk-path_text (length (path_text t cs)) t root cs chain (omega arith)

-- The names of the nodes, each with a slash, and what follows.
unfoldable pub path_before : Tree → List ℕ → List ℕ → List ℕ
path_before t [] rest = rest
path_before t (c ∷ cs) rest = t.names c ++ (b'/' ∷ path_before t cs rest)

walk-path_before :
    (fuel : ℕ) (t : Tree) (g : ℕ) (cs rest : List ℕ)
    → IsChain t g cs
    → length (path_before t cs rest) ≤ fuel
    → (left : ℕ) × (length rest ≤ left)
      × (walk fuel t g (path_before t cs rest) ≡ walk left t (last_of g cs) rest)
unfolding path_before IsChain name_end
walk-path_before fuel t g [] rest chain enough = (fuel, enough, refl)
walk-path_before zero t g (c ∷ cs) rest chain enough =
    absurd (omega (arith, length-append (t.names c) (b'/' ∷ path_before t cs rest)))
walk-path_before (suc fuel) t g (c ∷ cs) rest (group, child, clean, size, only, chain) enough =
    let text = path_before t cs rest in
    let total = length-append (t.names c) (b'/' ∷ text) in
    let found = find_child_lem t.names c (b'/' ∷ text) text (t.children g) clean refl child only in
    let (left, enough', walked) = walk-path_before fuel t c cs rest chain (omega (arith, total)) in
    (
      left,
      enough',
      walk_step fuel t g (t.names c ++ (b'/' ∷ text)) c text (omega (arith, total)) group found
          ∙ walked,
    )

walk_stops :
    (fuel : ℕ) (t : Tree) (g x : ℕ) (xs : List ℕ)
    → next_child t g (x ∷ xs) ≡ none
    → 0 < fuel
    → walk fuel t g (x ∷ xs) ≡ some (g, x ∷ xs)
unfolding walk
walk_stops zero t g x xs stop some_fuel = absurd (omega arith)
walk_stops (suc fuel) t g x xs stop some_fuel = rw (stop, walk) refl

-- `exos_tree_find_group` of a path that leads to a group and goes on with a name that none of its
-- children has gives that group, and not NULL.
pub find_group_missing :
    (t : Tree) (parent : Option ℕ) (cs : List ℕ) (x : ℕ) (xs : List ℕ)
    → IsChain t root cs
    → t.is_group (last_of root cs) ≡ true
    → find_child t.names (x ∷ xs) (t.children (last_of root cs)) ≡ none
    → find_group t parent (some (b'/' ∷ path_before t cs (x ∷ xs))) ≡ some (last_of root cs)
unfolding find_group parse_path start
find_group_missing t parent cs x xs chain group missing =
    let text = path_before t cs (x ∷ xs) in
    let (left, enough, walked) =
      walk-path_before (length text) t root cs (x ∷ xs) chain (omega arith) in
    let stop : next_child t (last_of root cs) (x ∷ xs) ≡ none = rw group missing in
    ap (keep_group t) (walked ∙ walk_stops left t (last_of root cs) x xs stop (omega arith))
    ∙ rw group refl
