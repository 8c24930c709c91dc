-- ===== src/Memory/Free.antt =====
-- `exos_mem_free` joins a block with free neighbours and keeps the region in good order.
use ex_os.Base.{
  ℕ, ◌+◌, ◌-◌, ◌≤◌, ◌≡◌, refl, sym, false, none, some, List, [], ◌∷◌, ◌++◌, arith, ltb,
}
use ex_os.Thread.Ready.{occurs}
use ex_os.Memory.{
  Words, Region, Joined, size_of, init_block, insert_after, join_next, join_prev, free,
}
use ex_os.Memory.Blocks.{
  Block, free_block, used_block, Row, Row-append, free_contents, end_of, end_of-words, exchange,
  IsRegion,
}
use ex_os.Memory.Room.{init_block-Row, init_block_elsewhere}
use ex_os.Memory.FreeList.{occurs-insert_after}
use ex_os.Memory.Join.{IsJoined, Behind, Before, join_next_lem, join_prev_lem, free_list-le}

-- The joined blocks become one free block.
module _ (m : Words) (r : Region) (bs : List Block) (e : ℕ) (is : IsRegion m r bs e) (j : Joined)
    (pre olds post : List Block) (is_j : IsJoined r bs j pre olds post) where
  abbrev mid : ℕ
  mid = end_of (r.start + 4) pre

  abbrev written : Words
  written = init_block r.name j.header (j.footer + 4) m

  abbrev inserted : Region
  inserted = record r { free_list = insert_after j.pred (j.header + 8) j.free_list }

  written-Row : Row written r.name mid (free_block (j.footer + 4 - mid - 12) ∷ []) (j.footer + 4)
  written-Row =
      let (left, right) =
        Row-append m r.name (r.start + 4) pre (olds ++ post) e (rw is_j.blocks at is.row) in
      let (here, _) = Row-append m r.name mid olds post e right in
      let begin = end_of-words m r.name (r.start + 4) pre mid left (omega (arith, is.words)) in
      let end = end_of-words m r.name mid olds _ here begin in
      rw is_j.header (
        init_block-Row r.name mid (j.footer + 4) m (omega (arith, is_j.room))
          (omega (arith, begin, end, is_j.footer)))

  pub joined-IsRegion :
      IsRegion written inserted (pre ++ ((free_block (j.footer + 4 - mid - 12) ∷ []) ++ post)) e
  unfolding free_contents occurs
  joined-IsRegion =
      exchange m written r inserted pre olds (free_block (j.footer + 4 - mid - 12) ∷ []) post e
        (rw is_j.blocks at is) (rw (sym is_j.footer) written-Row)
        (λ x out.
          init_block_elsewhere r.name j.header (j.footer + 4) m x
            (omega (arith, is_j.room, is_j.header)) (grind (arith, is_j.header, is_j.footer)))
        refl refl refl
        (λ x.
          rw
            (
              occurs-insert_after j.pred (j.header + 8) x j.free_list
                  (free_list-le m r bs e is j pre olds post is_j) is_j.there,
              is_j.header,
            )
            (omega (arith, is_j.counts x)))

abbrev starting : Region → ℕ → ℕ → Joined
starting r mid n = record {
  header = mid;
  footer = mid + 8 + n;
  free_list = r.free_list;
  pred = none;
}

free_steps :
    (m : Words) (r : Region) (mid n : ℕ) (j1 j2 : Joined)
    → size_of m mid ≡ n
    → 16 ≤ n
    → m (mid + 8 + n) ≡ 0
    → join_next m r (starting r mid n) ≡ some j1
    → join_prev m r j1 ≡ some j2
    → free m r (mid + 8)
      ≡ some (
        init_block r.name j2.header (j2.footer + 4) m,
        record r { free_list = insert_after j2.pred (j2.header + 8) j2.free_list },
      )
unfolding free
free_steps m r mid n j1 j2 size large foot next prev =
    let header : mid + 8 - 8 ≡ mid = omega arith in
    let enough : ltb n 16 ≡ false = ground (arith, large) in
    rw (header, size, enough, foot, next, prev) refl

-- `exos_mem_free` of a used block of a region in good order finds no fault, and keeps the region in
-- good order: the block is free, one with the block before and the block behind where those are free.
pub free-IsRegion :
    (m : Words) (r : Region) (pre : List Block) (n : ℕ) (post : List Block) (e : ℕ)
    → IsRegion m r (pre ++ (used_block n ∷ post)) e
    → (m' : Words) × (r' : Region) × (pre' : List Block) × (size : ℕ) × (post' : List Block) × (free
          m r
          (end_of (r.start + 4) pre + 8)
        ≡ some (m', r'))
      × IsRegion m' r' (pre' ++ (free_block size ∷ post')) e
      × Before pre pre'
      × Behind post post'
unfolding Row free_contents end_of occurs
free-IsRegion m r pre n post e is =
    let mid = end_of (r.start + 4) pre in
    let (_, here) = Row-append m r.name (r.start + 4) pre (used_block n ∷ post) e is.row in
    let (name, size, foot, min_size, _, _) = here in
    let start = starting r mid n in
    let is_start : IsJoined r (pre ++ (used_block n ∷ post)) start pre (used_block n ∷ []) post =
      record {
        blocks = refl;
        header = refl;
        footer = omega arith;
        room = omega (arith, min_size);
        counts = λ x. omega arith;
        there = tt;
      } in
    let (j1, olds1, post', next, is_1, behind) =
      join_next_lem m r (pre ++ (used_block n ∷ post)) e is start pre (used_block n ∷ []) post
        is_start in
    let (j2, pre', olds2, prev, is_2, before) =
      join_prev_lem m r (pre ++ (used_block n ∷ post)) e is j1 pre olds1 post' is_1 in
    (
      written m r (pre ++ (used_block n ∷ post)) e is j2 pre' olds2 post' is_2,
      _,
      pre',
      _,
      post',
      free_steps m r mid n j1 j2 size min_size foot next prev,
      joined-IsRegion m r (pre ++ (used_block n ∷ post)) e is j2 pre' olds2 post' is_2,
      before,
      behind,
    )
