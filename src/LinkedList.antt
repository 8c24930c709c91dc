-- ===== src/LinkedList.antt =====
-- exos/kernel/list.h and list.c: intrusive doubly linked lists.
-- Memory is a map from addresses to words. A node at `p` has `Succ` in word `p` and `Pred` in word
-- `p + 1`. A `list_t` at `l` has its three words at `l`, `l + 1` and `l + 2`, and LIST_HEAD and
-- LIST_TAIL read it as two nodes that overlap: `l`, whose `Pred` is the word `Tail`, and `l + 1`,
-- whose `Succ` is that same word. NULL is 0. No function here writes `Type` or `Priority`, so the
-- priorities are a map beside the memory.
-- An ASSERT that fails, as in a DEBUG build, is `none`. A FOREACH runs on fuel; `none` is also what
-- it gives when the fuel runs out, and the theorems show that it does not.
pub mod Links
mod Insert
mod Remove
pub mod Loops
pub mod Enqueue
mod Tests
use ex_os.Base.{ℕ, zero, suc, ◌+◌, Bool, true, false, ◌||◌, Option, none, some, ◌==◌, if◌then◌else◌}
use ex_os.Base.Int.{ℤ, ltb_ℤ}

abbrev pub Memory : Type 0
Memory = ℕ → ℕ

abbrev pub store : Memory → ℕ → ℕ → Memory
store m a v w = if w == a then v else m w

abbrev pub succ_of : Memory → ℕ → ℕ
succ_of m p = m p

abbrev pub pred_of : Memory → ℕ → ℕ
pred_of m p = m (p + 1)

abbrev pub set_succ : Memory → ℕ → ℕ → Memory
set_succ m p v = store m p v

abbrev pub set_pred : Memory → ℕ → ℕ → Memory
set_pred m p v = store m (p + 1) v

-- LIST_HEAD and LIST_TAIL
abbrev pub head_of : ℕ → ℕ
head_of l = l

abbrev pub tail_of : ℕ → ℕ
tail_of l = l + 1

-- LIST_ISEMPTY
abbrev pub is_empty : Memory → ℕ → Bool
is_empty m l = m l == tail_of l

-- `list_initialize`
pub initialize : ℕ → Memory → Memory
initialize l m =
    store (set_pred (set_succ m (head_of l) (tail_of l)) (tail_of l) (head_of l)) (l + 1) 0

-- `list_insert`: the four writes in order, each after the one above.
pub insert : ℕ → ℕ → Memory → Memory
insert pred node m =
    let m1 = set_pred m node pred in
    let m2 = set_succ m1 node (succ_of m1 pred) in
    let m3 = set_pred m2 (succ_of m2 node) node in set_succ m3 (pred_of m3 node) node

-- `list_add_head` and `list_add_tail`
pub add_head : ℕ → ℕ → Memory → Memory
add_head l node m = insert (head_of l) node m

pub add_tail : ℕ → ℕ → Memory → Memory
add_tail l node m = insert (pred_of m (tail_of l)) node m

-- The loop of `list_enqueue` from `n` on: the node to insert behind.
pub find_pred : (ℕ → ℤ) → ℕ → ℕ → ℕ → Memory → ℕ → Option ℕ
find_pred prio zero l node m n = none
find_pred prio (suc fuel) l node m n =
    let rest = find_pred prio fuel l node m (succ_of m n) in
    if n == tail_of l
    then some (pred_of m (tail_of l))
    else if ltb_ℤ (prio n) (prio node)
    then some (pred_of m n)
    else rest

-- `list_enqueue`
pub enqueue : (ℕ → ℤ) → ℕ → ℕ → ℕ → Memory → Option Memory
enqueue prio fuel l node m = elim (find_pred prio fuel l node m (succ_of m (head_of l))) [
  | none ↦ none
  | some pred ↦ some (insert pred node m)
]

-- `list_remove`
pub remove : ℕ → Memory → Option Memory
remove node m =
    if node == 0 || pred_of m node == 0 || succ_of m node == 0
    then none
    else let m1 = set_succ m (pred_of m node) (succ_of m node) in
      some (set_pred m1 (succ_of m1 node) (pred_of m1 node))

-- The loop of `list_find_node` from `n` on: whether the node is met.
pub find_from : ℕ → ℕ → ℕ → Memory → ℕ → Option Bool
find_from zero l node m n = none
find_from (suc fuel) l node m n =
    let rest = find_from fuel l node m (succ_of m n) in
    if n == tail_of l
    then some false
    else if n == 0
    then none
    else if n == node
    then some true
    else rest

-- `list_find_node`: whether the result is `node` or NULL.
pub find_node : ℕ → ℕ → ℕ → Memory → Option Bool
unfolding find_from
find_node fuel l node m = find_from fuel l node m (succ_of m (head_of l))

-- The loop of `list_get_count` from `n` on.
pub count_from : ℕ → ℕ → Memory → ℕ → ℕ → Option ℕ
count_from zero l m n count = none
count_from (suc fuel) l m n count =
    let rest = count_from fuel l m (succ_of m n) (count + 1) in
    if n == tail_of l then some count else rest

-- `list_get_count`
pub get_count : ℕ → ℕ → Memory → Option ℕ
unfolding count_from
get_count fuel l m = count_from fuel l m (succ_of m (head_of l)) 0

-- `list_rem_head`: the node, or NULL, and the memory.
pub rem_head : ℕ → Memory → Option (ℕ × Memory)
unfolding remove
rem_head l m =
    if is_empty m l
    then some (0, m)
    else let node = succ_of m (head_of l) in
      elim (remove node m) [ none ↦ none | some m' ↦ some (node, m') ]
