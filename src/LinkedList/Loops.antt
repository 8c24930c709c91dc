-- ===== src/LinkedList/Loops.antt =====
-- `list_get_count` and `list_find_node`: the loops reach the end of the list.
use ex_os.Base.{
  ℕ, zero, suc, ◌+◌, ◌<◌, ◌≡◌, ap, ◌∙◌, Bool, false, ◌||◌, some, List, [], ◌∷◌, ◌++◌, arith, ◌==◌,
  length,
}
use ex_os.LinkedList.{Memory, tail_of, find_from, find_node, count_from, get_count}
use ex_os.LinkedList.Links.{All, Links, IsNode, IsList}

count_from_lem :
    (xs : List ℕ) (fuel l a count : ℕ) (m : Memory)
    → Links m a (xs ++ tail_of l ∷ [])
    → All (IsNode l) xs
    → length xs < fuel
    → count_from fuel l m (m a) count ≡ some (count + length xs)
unfolding count_from
count_from_lem xs zero l a count m h n lt = absurd (omega arith)
count_from_lem [] (suc fuel) l a count m h n lt = ground (arith, h.0)
count_from_lem (x ∷ xs) (suc fuel) l a count m h n lt =
    rw h.0 (ground (arith, n.0, count_from_lem xs fuel l x (count + 1) m h.2 n.1))

-- With more rounds than nodes, `list_get_count` gives the number of nodes.
pub get_count-length :
    (xs : List ℕ) (fuel l : ℕ) (m : Memory)
    → IsList m l xs
    → length xs < fuel
    → get_count fuel l m ≡ some (length xs)
unfolding get_count
get_count-length xs fuel l m is lt =
    count_from_lem xs fuel l l 0 m is.links is.nodes lt ∙ ap some (omega arith)

unfoldable pub has : ℕ → List ℕ → Bool
has n [] = false
has n (x ∷ xs) = (x == n) || has n xs

find_from_lem :
    (xs : List ℕ) (fuel l a node : ℕ) (m : Memory)
    → Links m a (xs ++ tail_of l ∷ [])
    → All (IsNode l) xs
    → length xs < fuel
    → find_from fuel l node m (m a) ≡ some (has node xs)
unfolding find_from has
find_from_lem xs zero l a node m h n lt = absurd (omega arith)
find_from_lem [] (suc fuel) l a node m h n lt = ground (arith, h.0)
find_from_lem (x ∷ xs) (suc fuel) l a node m h n lt =
    rw h.0 (ground (arith, n.0, find_from_lem xs fuel l x node m h.2 n.1))

-- With more rounds than nodes, `list_find_node` finds a node exactly if it is in the list.
pub find_node-has :
    (xs : List ℕ) (fuel l node : ℕ) (m : Memory)
    → IsList m l xs
    → length xs < fuel
    → find_node fuel l node m ≡ some (has node xs)
unfolding find_node
find_node-has xs fuel l node m is lt = find_from_lem xs fuel l l node m is.links is.nodes lt
