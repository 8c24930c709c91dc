-- ===== src/Memory/Room.antt =====
-- What `_find_room` finds in a region in good order, and what `_init_block` writes.
use ex_os.Base.{
  ℕ, ◌+◌, ◌-◌, ◌%◌, ◌<◌, ◌≤◌, ◌≡◌, ◌≢◌, ◌∙◌, ◌⊎◌, inl, inr, refl, true, none, some, List, [], ◌∷◌,
  ◌++◌, arith, ltb, leb, Bool-cases,
}
use ex_os.LinkedList.Links.{All}
use ex_os.Thread.Ready.{occurs}
use ex_os.Memory.{
  add_region, Words, Region, store, size_of, is_sound, find_room, block_size, init_block,
}
use ex_os.Memory.Blocks.{
  Block, free_block, Row, Row-le, Row-append, free_contents, end_of, le-end_of, end_of-words,
  free_split, IsRegion,
}

-- A free block of the region, between the others.
pub record IsFreeBlock (m : Words) (r : Region) (bs : List Block) (e c : ℕ) : Type 0 where
  pub before : List Block
  pub size : ℕ
  pub behind : List Block
  pub blocks : bs ≡ before ++ free_block size ∷ behind
  pub at : c ≡ end_of (r.start + 4) before + 8
  pub left : Row m r.name (r.start + 4) before (end_of (r.start + 4) before)
  pub here : Row m r.name (end_of (r.start + 4) before) (free_block size ∷ behind) e
  pub size_here : size_of m (c - 8) ≡ size

pub IsFreeBlock-occurs :
    (m : Words) (r : Region) (bs : List Block) (e c : ℕ)
    → IsRegion m r bs e
    → occurs c r.free_list ≢ 0
    → IsFreeBlock m r bs e c
unfolding Row
IsFreeBlock-occurs m r bs e c is there =
    let (pre, n, post, same, place) = free_split (r.start + 4) c bs (λ z. there (is.frees c ∙ z)) in
    let (left, here) =
      Row-append m r.name (r.start + 4) pre (free_block n ∷ post) e (rw same at is.row) in
    let header : c - 8 ≡ end_of (r.start + 4) pre = omega (arith, place) in
    record {
      before = pre;
      size = n;
      behind = post;
      blocks = same;
      at = place;
      left = left;
      here = here;
      size_here = rw header here.1;
    }

pub free_block-is_sound :
    (m : Words) (r : Region) (bs : List Block) (e c : ℕ)
    → IsRegion m r bs e
    → IsFreeBlock m r bs e c
    → is_sound m r c ≡ true
unfolding Row
free_block-is_sound m r bs e c is b =
    let low = le-end_of (r.start + 4) b.before in
    let high = Row-le m r.name _ b.behind e b.here.5 in
    let words = end_of-words m r.name (r.start + 4) b.before _ b.left (omega (arith, is.words)) in
    let header : c - 8 ≡ end_of (r.start + 4) b.before = omega (arith, b.at) in
    let foot : m (c + b.size) ≡ b.size = rw b.at b.here.2 in
    rw (b.size_here, foot, header) (ground (arith, is.ends, low, high, words))

-- In a region in good order `_find_room` finds no fault. It gives a block of the free list that is
-- large enough, or none if no free block is.
pub find_room_lem :
    (m : Words) (r : Region) (bs : List Block) (e size : ℕ) (cs : List ℕ)
    → IsRegion m r bs e
    → ((c : ℕ) → occurs c cs ≢ 0 → occurs c r.free_list ≢ 0)
    → ((find_room m r size cs ≡ some none) × All (λ c. size_of m (c - 8) < size) cs)
      ⊎ ((c : ℕ) × (find_room m r size cs ≡ some (some c))
          × (occurs c cs ≢ 0)
          × (size ≤ size_of m (c - 8)))
unfolding find_room occurs
find_room_lem m r bs e size [] is sub = inl (refl, tt)
find_room_lem m r bs e size (c ∷ cs) is sub =
    let sound =
      free_block-is_sound m r bs e c is (IsFreeBlock-occurs m r bs e c is (sub c (ground arith))) in
    elim (Bool-cases (leb size (size_of m (c - 8)))) [
      | inl h ↦ inr (c, rw (sound, h) refl, ground arith, ground arith)
      | inr h ↦ elim (find_room_lem m r bs e size cs is (λ d o. sub d (omega arith))) [
        | inl (found, small) ↦ inl (rw (sound, h) found, (ground arith, small))
        | inr (d, found, o, fits) ↦ inr (d, rw (sound, h) found, omega arith, fits)
      ]
    ]

block_size_lem : (n : ℕ) → 12 ≤ n → block_size n ≡ n - 12
unfolding block_size
block_size_lem n h = ground arith

-- The words that `_init_block` writes make one free block.
pub init_block-Row :
    (name a e : ℕ) (m : Words)
    → a + 28 ≤ e
    → (e - a) % 4 ≡ 0
    → Row (init_block name a e m) name a (free_block (e - a - 12) ∷ []) e
unfolding Row init_block
init_block-Row name a e m room words =
    let foot : a + 8 + (e - a - 12) ≡ e - 4 = omega arith in
    rw (block_size_lem (e - a) (omega arith))
      (ground arith, ground arith, rw foot (ground arith), omega arith, omega arith, omega arith)

pub init_block_elsewhere :
    (name a e : ℕ) (m : Words) (x : ℕ)
    → a + 12 ≤ e
    → (x < a) ⊎ (e ≤ x)
    → init_block name a e m x ≡ m x
unfolding init_block
init_block_elsewhere name a e m x room out = ground arith

-- `exos_mem_add_region` of enough words gives a region in good order that is one free block.
pub add_region-IsRegion :
    (name start end flags : ℕ) (m : Words)
    → start + 40 ≤ end
    → start % 4 ≡ 0
    → end % 4 ≡ 0
    → (r : Region) × (m' : Words) × (add_region name start end flags m ≡ some (r, m'))
      × IsRegion m' r (free_block (end - start - 24) ∷ []) (end - 8)
unfolding add_region free_contents occurs
add_region-IsRegion name start end flags m room begin words =
    let large : ltb 20 (end - start) ≡ true = ground arith in
    let head = store m start 0 in
    let tail = store (store head (end - 8) name) (end - 8 + 4) 0 in
    let left : end - 8 - (start + 4) - 12 ≡ end - start - 24 = omega arith in
    let old : (x : ℕ)
        → (x < start + 4) ⊎ (end - 8 ≤ x)
        → init_block name (start + 4) (end - 8) tail x ≡ tail x =
      λ x out. init_block_elsewhere name (start + 4) (end - 8) tail x (omega arith) out in
    (
      record {
        name = name;
        flags = flags;
        start = start;
        size = end - start;
        free_list = (start + 4 + 8) ∷ [];
      },
      init_block name (start + 4) (end - 8) tail,
      rw large refl,
      record {
        head = old start (inl (omega arith)) ∙ ground arith;
        row =
            rw left at (init_block-Row name (start + 4) (end - 8) tail (omega arith) (omega arith));
        tail = old (end - 8 + 4) (inr (omega arith)) ∙ ground arith;
        ends = omega arith;
        words = begin;
        frees = λ c. refl;
      },
    )
