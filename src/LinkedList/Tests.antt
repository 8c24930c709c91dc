-- ===== src/LinkedList/Tests.antt =====
-- Runs of the list operations, and their theorems at a list of two nodes.
use ex_os.Base.{ℕ, ◌≡◌, refl, true, some, List, [], ◌∷◌, ◌++◌, arith, ◌==◌, if◌then◌else◌}
use ex_os.Base.Int.{ℤ, pos, negsuc, ltb_ℤ, ◌≤ℤ◌}
use ex_os.LinkedList.{Memory, initialize, insert, add_tail, find_pred, enqueue, remove}
use ex_os.LinkedList.Links.{All, IsList}
use ex_os.LinkedList.Insert.{MayEnter, initialize-IsList, add_tail-IsList}
use ex_os.LinkedList.Remove.{remove-IsList}
use ex_os.LinkedList.Enqueue.{IsOrdered, enqueue-IsOrdered}

abbrev blank : Memory
blank w = 7

-- The list at 100 with the nodes 200 and 300.
abbrev two : Memory
two = add_tail 100 300 (add_tail 100 200 (initialize 100 blank))

MayEnter-first : MayEnter 200 100 []
MayEnter-first = omega arith

MayEnter-second : MayEnter 300 100 (200 ∷ [])
MayEnter-second = omega arith

MayEnter-third : MayEnter 400 100 (200 ∷ 300 ∷ [])
MayEnter-third = omega arith

initialize-IsList_example : IsList (initialize 100 blank) 100 []
initialize-IsList_example = initialize-IsList 100 blank (omega arith)

two-IsList : IsList two 100 (200 ∷ 300 ∷ [])
two-IsList =
    add_tail-IsList (200 ∷ []) _ 100 300
      (add_tail-IsList [] _ 100 200 initialize-IsList_example MayEnter-first) MayEnter-second

-- The priorities of the three nodes.
abbrev prio : ℕ → ℤ
prio n = pos 1

two-IsOrdered : IsOrdered prio (200 ∷ 300 ∷ [])
two-IsOrdered = omega arith

remove-IsList_example : (m' : Memory) × (remove 200 two ≡ some m') × IsList m' 100 (300 ∷ [])
remove-IsList_example = remove-IsList [] (300 ∷ []) two 100 200 two-IsList

enqueue-IsOrdered_example :
    (m' : Memory) × (before : List ℕ) × (behind : List ℕ) × (enqueue prio 3 100 400 two ≡ some m')
    × IsList m' 100 (before ++ 400 ∷ behind)
    × (before ++ behind ≡ 200 ∷ 300 ∷ [])
    × IsOrdered prio (before ++ 400 ∷ behind)
    × All (λ y. prio 400 ≤ℤ prio y) before
    × All (λ y. ltb_ℤ (prio y) (prio 400) ≡ true) behind
enqueue-IsOrdered_example =
    enqueue-IsOrdered prio 400 (200 ∷ 300 ∷ []) 3 100 two two-IsList two-IsOrdered MayEnter-third
      (omega arith)

two_words :
    (two 100 ≡ 200)
    × (two 101 ≡ 0)
    × (two 102 ≡ 300)
    × (two 200 ≡ 300)
    × (two 201 ≡ 100)
    × (two 300 ≡ 101)
    × (two 301 ≡ 200)
unfolding add_tail insert initialize
two_words = (refl, refl, refl, refl, refl, refl, refl)

abbrev urgent : ℕ → ℤ
urgent n = if n == 400 then pos 2 else negsuc 2

urgent_first : enqueue urgent 3 100 400 two ≡ some (insert 100 400 two)
unfolding enqueue find_pred add_tail insert initialize
urgent_first = refl
