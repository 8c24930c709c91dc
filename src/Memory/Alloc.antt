-- ===== src/Memory/Alloc.antt =====
-- What `exos_mem_alloc` does with the room that it found.
use ex_os.Base.{
  ℕ, ◌+◌, ◌-◌, ◌%◌, ◌^◌, ◌<◌, ◌≤◌, ◌≡◌, ◌≢◌, ◌∙◌, ◌⊎◌, inl, inr, refl, ap, true, false, none, some,
  List, [], ◌∷◌, ◌++◌, arith, leb, ◌==◌, if◌then◌else◌, Bool-cases,
}
use ex_os.LinkedList.Links.{All}
use ex_os.Thread.{without}
use ex_os.Thread.Ready.{occurs, occurs-without}
use ex_os.Memory.{
  Words, Region, store, size_of, replace, init_block, find_room, take_room, align, alloc,
  alloc_loop,
}
use Prim.Native.Nat.{bit_and}
use ex_os.Memory.Blocks.{
  Block, free_block, used_block, Row, free_contents, end_of, occurs_parts, occurs_outside, exchange,
  IsRegion,
}
use ex_os.Memory.Room.{
  IsFreeBlock, IsFreeBlock-occurs, init_block-Row, init_block_elsewhere, find_room_lem,
  free_block-is_sound,
}

occurs-replace :
    (x old new : ℕ) (cs : List ℕ)
    → old ≢ new
    → occurs x (replace old new cs)
      ≡ (if x == old then 0 else if x == new then occurs x cs + occurs old cs else occurs x cs)
unfolding occurs replace
occurs-replace x old new [] ne = ground arith
occurs-replace x old new (c ∷ cs) ne = ground (arith, occurs-replace x old new cs ne)

occurs_first : (c : ℕ) (cs : List ℕ) → occurs c (c ∷ cs) ≢ 0
unfolding occurs
occurs_first c cs e = ground arith

-- The blocks that the room becomes.
abbrev pub taken : ℕ → ℕ → List Block
taken whole size =
    if leb 28 (whole - size)
    then used_block size ∷ free_block (whole - size - 12) ∷ []
    else used_block whole ∷ []

module _ (m : Words) (r : Region) (bs : List Block) (e c size : ℕ) (is : IsRegion m r bs e)
    (b : IsFreeBlock m r bs e c) (fits : size ≤ b.size) (min_size : 16 ≤ size)
    (words : size % 4 ≡ 0) where
  abbrev mid : ℕ
  mid = end_of (r.start + 4) b.before

  abbrev result : Words × Region
  result = take_room m r size c

  -- The contents of the block stand once in the free list.
  once : occurs c r.free_list ≡ 1
  unfolding occurs free_contents end_of
  once =
      let parts = occurs_parts (r.start + 4) c b.before (free_block b.size ∷ []) b.behind in
      let frees = rw b.blocks at (is.frees c) in
      let first = occurs_outside (r.start + 4) c b.before (inr (omega (arith, b.at))) in
      let last = occurs_outside (mid + 12 + b.size) c b.behind (inl (omega (arith, b.at))) in
      ground (arith, parts, frees, first, last, b.at)

  -- Contents that begin within the block do not.
  absent : (x : ℕ) → mid + 8 < x → x < mid + 20 + b.size → occurs x r.free_list ≡ 0
  unfolding occurs free_contents end_of
  absent x lo hi =
      let parts = occurs_parts (r.start + 4) x b.before (free_block b.size ∷ []) b.behind in
      let frees = rw b.blocks at (is.frees x) in
      let first = occurs_outside (r.start + 4) x b.before (inr (omega arith)) in
      let last = occurs_outside (mid + 12 + b.size) x b.behind (inl (omega arith)) in
      ground (arith, parts, frees, first, last)

  region : IsRegion m r (b.before ++ ((free_block b.size ∷ []) ++ b.behind)) e
  region = rw b.blocks at is

  header : c - 8 ≡ mid
  header = omega (arith, b.at)

  split_words : Words
  split_words =
      init_block r.name (mid + 12 + size) (mid + 12 + b.size)
        (store (store m (mid + 4) size) (mid + 8 + size) 0)

  split_result :
      leb 28 (b.size - size) ≡ true
      → result ≡ (split_words, record r { free_list = replace c (mid + 20 + size) r.free_list })
  unfolding take_room split_words
  split_result h =
      let end : c + b.size + 4 ≡ mid + 12 + b.size = omega (arith, b.at) in
      let split : c + size + 4 ≡ mid + 12 + size = omega (arith, b.at) in
      let foot : mid + 12 + size - 4 ≡ mid + 8 + size = omega arith in
      let new : mid + 12 + size + 8 ≡ mid + 20 + size = omega arith in
      rw (b.size_here, h, end, split, foot, new, header) refl

  split_Row :
      leb 28 (b.size - size) ≡ true
      → Row split_words r.name mid
          (used_block size ∷ free_block (b.size - size - 12) ∷ [])
          (mid + 12 + b.size)
  unfolding Row split_words
  split_Row h =
      let room : size + 28 ≤ b.size = ground arith in
      let m2 = store (store m (mid + 4) size) (mid + 8 + size) 0 in
      let old = init_block_elsewhere r.name (mid + 12 + size) (mid + 12 + b.size) m2 in
      let rest =
        init_block-Row r.name (mid + 12 + size) (mid + 12 + b.size) m2 (omega arith)
          (omega (arith, b.here.4)) in
      let left : mid + 12 + b.size - (mid + 12 + size) - 12 ≡ b.size - size - 12 = omega arith in
      (
        old mid (omega arith) (inl (omega arith)) ∙ ground (arith, b.here.0),
        old (mid + 4) (omega arith) (inl (omega arith)) ∙ ground arith,
        old (mid + 8 + size) (omega arith) (inl (omega arith)) ∙ ground arith,
        min_size,
        words,
        rw left at rest,
      )

  split_elsewhere :
      leb 28 (b.size - size) ≡ true
      → (x : ℕ) → (x < mid) ⊎ (mid + 12 + b.size ≤ x)
      → split_words x ≡ m x
  unfolding split_words
  split_elsewhere h x out =
      let room : size + 28 ≤ b.size = ground arith in
      init_block_elsewhere r.name (mid + 12 + size) (mid + 12 + b.size) _ x (omega arith)
        (ground arith)
      ∙ ground arith

  split_room :
      leb 28 (b.size - size) ≡ true
      → IsRegion result.0 result.1
          (b.before ++ ((used_block size ∷ free_block (b.size - size - 12) ∷ []) ++ b.behind))
          e
  unfolding occurs free_contents end_of
  split_room h =
      let room : size + 28 ≤ b.size = ground arith in
      let r' = record r { free_list = replace c (mid + 20 + size) r.free_list } in
      rw (split_result h) (
        exchange m split_words r r' b.before (free_block b.size ∷ [])
          (used_block size ∷ free_block (b.size - size - 12) ∷ []) b.behind e region (split_Row h)
          (split_elsewhere h) refl refl refl
          (λ x.
            rw (occurs-replace x c (mid + 20 + size) r.free_list (omega (arith, b.at)))
              (ground (arith, once, absent (mid + 20 + size) (omega arith) (omega arith), b.at))))

  whole_room :
      leb 28 (b.size - size) ≡ false
      → IsRegion result.0 result.1 (b.before ++ ((used_block b.size ∷ []) ++ b.behind)) e
  unfolding occurs free_contents end_of Row take_room
  whole_room h =
      let foot : c + b.size ≡ mid + 8 + b.size = omega (arith, b.at) in
      let r' = record r { free_list = without c r.free_list } in
      let done : result ≡ (store m (mid + 8 + b.size) 0, r') = rw (b.size_here, h, foot) refl in
      rw done (
        exchange m (store m (mid + 8 + b.size) 0) r r' b.before (free_block b.size ∷ [])
          (used_block b.size ∷ []) b.behind e region
          (
            ground (arith, b.here.0),
            ground (arith, b.here.1),
            ground arith,
            b.here.3,
            b.here.4,
            refl,
          )
          (λ x out. ground arith) refl refl refl
          (λ x. rw (occurs-without x c r.free_list) (ground (arith, once, b.at))))

  -- The room is taken: from the start of the block that was found, and what is left, if it is enough for
  -- a block, is free.
  pub take_room-IsRegion :
      IsRegion result.0 result.1 (b.before ++ (taken b.size size ++ b.behind)) e
  take_room-IsRegion = elim (Bool-cases (leb 28 (b.size - size))) [
    | inl h ↦ rw h (split_room h)
    | inr h ↦ rw h (whole_room h)
  ]

-- `exos_mem_alloc` of `size` bytes, at least one and at most 2^32 - 16, from one region in good order
-- that the flags ask for finds no fault.
-- Either it gives NULL, changes nothing, and every free block is too small for the size rounded up to
-- 16; or it gives the contents of a free block of at least `size` bytes, and the region is in good
-- order with that block taken, and split if it is large enough.
pub alloc-IsRegion :
    (size flags : ℕ) (m : Words) (r : Region) (bs : List Block) (e : ℕ)
    → IsRegion m r bs e
    → 0 < size
    → size + 15 < 2 ^ 32
    → (bit_and r.flags flags == bit_and flags 3) ≡ true
    → ((alloc size flags m (r ∷ []) ≡ some (none, m, r ∷ []))
        × All (λ c. size_of m (c - 8) < align size) r.free_list)
      ⊎ ((c : ℕ) × (pre : List Block) × (n : ℕ) × (post : List Block) × (m' : Words) × (r' : Region)
          × (alloc size flags m (r ∷ []) ≡ some (some c, m', r' ∷ []))
          × (bs ≡ pre ++ free_block n ∷ post)
          × (c ≡ end_of (r.start + 4) pre + 8)
          × (size ≤ n)
          × IsRegion m' r' (pre ++ (taken n (align size) ++ post)) e)
unfolding alloc alloc_loop
alloc-IsRegion size flags m r bs e is pos_size small asked =
    let wanted : (size == 0) ≡ false = ground arith in
    elim (find_room_lem m r bs e (align size) r.free_list is (λ c o. o)) [
      | inl (found, none_fits) ↦ inl (rw (wanted, asked, found) refl, none_fits)
      | inr (c, found, o, fits) ↦
          let b = IsFreeBlock-occurs m r bs e c is o in
          let fits' : align size ≤ b.size = rw b.size_here at fits in
          let (m', r') = take_room m r (align size) c in
          inr (
            c,
            b.before,
            b.size,
            b.behind,
            m',
            r',
            rw (wanted, asked, found) refl,
            b.blocks,
            b.at,
            omega (arith, fits'),
            take_room-IsRegion m r bs e c (align size) is b fits' (omega arith) (omega arith),
          )
    ]

-- A request of nearly 2 ^ 32 bytes is rounded up to 0 and is given the first free block, however small.
pub alloc_overflow :
    (size flags : ℕ) (m : Words) (r : Region) (rs : List Region) (bs : List Block) (e c : ℕ)
    (cs : List ℕ)
    → IsRegion m r bs e
    → 2 ^ 32 < size + 16
    → size < 2 ^ 32
    → (bit_and r.flags flags == bit_and flags 3) ≡ true
    → r.free_list ≡ c ∷ cs
    → (m' : Words) × (r' : Region) × (alloc size flags m (r ∷ rs) ≡ some (some c, m', r' ∷ rs))
unfolding alloc alloc_loop find_room
alloc_overflow size flags m r rs bs e c cs is large word asked first =
    let wanted : (size == 0) ≡ false = ground arith in
    let nothing : align size ≡ 0 = omega arith in
    let there : occurs c r.free_list ≢ 0 = rw first (occurs_first c cs) in
    let sound = free_block-is_sound m r bs e c is (IsFreeBlock-occurs m r bs e c is there) in
    let fits : leb (align size) (size_of m (c - 8)) ≡ true = ground (arith, nothing) in
    let found : find_room m r (align size) r.free_list ≡ some (some c) =
      ap (find_room m r (align size)) first ∙ rw (sound, fits) refl in
    let (m', r') = take_room m r (align size) c in (m', r', rw (wanted, asked, found) refl)
