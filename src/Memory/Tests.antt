-- ===== src/Memory/Tests.antt =====
-- A region of two blocks: 16 bytes in use, and 16 bytes that are free.
use ex_os.Base.{
  ℕ, ◌+◌, ◌-◌, ◌<◌, ◌≤◌, ◌≡◌, ◌⊎◌, refl, none, some, List, [], ◌∷◌, ◌++◌, arith, ◌==◌,
  if◌then◌else◌,
}
use ex_os.LinkedList.Links.{All}
use ex_os.Thread.Ready.{occurs}
use ex_os.Memory.{Words, Region, size_of, align, alloc, free, add_region}
use ex_os.Memory.Blocks.{Block, free_block, used_block, Row, free_contents, end_of, IsRegion}
use ex_os.Memory.Room.{add_region-IsRegion}
use ex_os.Memory.Join.{Behind, Before}
use ex_os.Memory.Alloc.{taken, alloc-IsRegion, alloc_overflow}
use ex_os.Memory.Free.{free-IsRegion}

abbrev two_blocks : Words
two_blocks a =
    if a == 4
    then 7
    else if a == 8
    then 16
    else if a == 32
    then 7
    else if a == 36
    then 16
    else if a == 56
    then 16
    else 0

abbrev region : Region
region = record { name = 7; flags = 3; start = 0; size = 68; free_list = 40 ∷ [] }

abbrev blocks : List Block
blocks = used_block 16 ∷ free_block 16 ∷ []

two_blocks-IsRegion : IsRegion two_blocks region blocks 60
unfolding Row free_contents occurs
two_blocks-IsRegion = record {
  head = refl;
  row = (refl, refl, refl, omega arith, refl, (refl, refl, refl, omega arith, refl, refl));
  tail = refl;
  ends = refl;
  words = refl;
  frees = λ c. refl;
}

-- 10 bytes take the free block as it is.
alloc-IsRegion_example :
    ((alloc 10 3 two_blocks (region ∷ []) ≡ some (none, two_blocks, region ∷ []))
      × All (λ c. size_of two_blocks (c - 8) < align 10) (40 ∷ []))
    ⊎ ((c : ℕ) × (pre : List Block) × (n : ℕ) × (post : List Block) × (m' : Words) × (r' : Region)
        × (alloc 10 3 two_blocks (region ∷ []) ≡ some (some c, m', r' ∷ []))
        × (blocks ≡ pre ++ free_block n ∷ post)
        × (c ≡ end_of 4 pre + 8)
        × (10 ≤ n)
        × IsRegion m' r' (pre ++ (taken n (align 10) ++ post)) 60)
alloc-IsRegion_example =
    alloc-IsRegion 10 3 two_blocks region blocks 60 two_blocks-IsRegion (omega arith) (omega arith)
      refl

alloc_overflow_example :
    (m' : Words) × (r' : Region) × (alloc 4294967290 3 two_blocks (region ∷ [])
      ≡ some (some 40, m', r' ∷ []))
alloc_overflow_example =
    alloc_overflow 4294967290 3 two_blocks region [] blocks 60 40 [] two_blocks-IsRegion
      (omega arith) (omega arith) refl refl

free-IsRegion_example :
    (m' : Words) × (r' : Region) × (pre' : List Block) × (size : ℕ) × (post' : List Block) × (free
        two_blocks region 12
      ≡ some (m', r'))
    × IsRegion m' r' (pre' ++ (free_block size ∷ post')) 60
    × Before [] pre'
    × Behind (free_block 16 ∷ []) post'
unfolding end_of
free-IsRegion_example =
    free-IsRegion two_blocks region [] 16 (free_block 16 ∷ []) 60 two_blocks-IsRegion

add_region-IsRegion_example :
    (r : Region) × (m' : Words) × (add_region 7 0 68 3 two_blocks ≡ some (r, m'))
    × IsRegion m' r (free_block 44 ∷ []) 60
add_region-IsRegion_example = add_region-IsRegion 7 0 68 3 two_blocks (omega arith) refl refl
