-- ===== src/Memory.antt =====
-- exos/kernel/memory.c: the allocator of memory regions.
-- A region is a row of blocks: a header of 8 bytes (its region and the size of its contents), the
-- contents, and a footer of 4 bytes that holds the size if the block is free and else 0. In front of
-- the first block stands a footer of 0, behind the last one a header of size 0. `Words` has these words
-- by their addresses, of 32 bits. The free list is the list of the contents' addresses: its nodes
-- stand in the contents, which are not modelled, and neither are node types and the locks. A panic,
-- the checks of a DEBUG build included, is `none`.
pub mod Blocks
pub mod Room
pub mod Alloc
pub mod FreeList
pub mod Join
pub mod Free
pub mod Tests
use ex_os.Base.{
  ℕ, zero, suc, ◌+◌, ◌-◌, ◌*◌, ◌/◌, ◌%◌, ◌^◌, Bool, true, false, not, ◌&&◌, ◌||◌, Option, none,
  some, List, [], ◌∷◌, ltb, leb, ◌==◌, if◌then◌else◌,
}
use ex_os.Base.Int.{ℤ}
use ex_os.Thread.{without, placed}
use Prim.Native.Nat.{bit_and}

abbrev pub Words : Type 0
Words = ℕ → ℕ

abbrev pub store : Words → ℕ → ℕ → Words
store m a v b = if b == a then v else m b

abbrev pub header_bytes : ℕ
header_bytes = 8

abbrev pub footer_bytes : ℕ
footer_bytes = 4

abbrev pub node_bytes : ℕ
node_bytes = 16

-- `header->Region`, `header->Size` and `header->Contents` of the header at `a`
abbrev pub region_of : Words → ℕ → ℕ
region_of m a = m a

abbrev pub size_of : Words → ℕ → ℕ
size_of m a = m (a + 4)

abbrev pub contents : ℕ → ℕ
contents a = a + header_bytes

-- `EXOS_MEM_REGION`: `name` is its address.
pub record Region : Type 0 where
  pub name : ℕ
  pub flags : ℕ
  pub start : ℕ
  pub size : ℕ
  pub free_list : List ℕ

-- `size - (sizeof(EXOS_MEM_HEADER) + sizeof(EXOS_MEM_FOOTER))`, which wraps around
pub block_size : ℕ → ℕ
block_size size = if ltb size 12 then size + 2 ^ 32 - 12 else size - 12

-- `_init_block`
unfoldable pub init_block : ℕ → ℕ → ℕ → Words → Words
init_block region start end m =
    let size = block_size (end - start) in
    store (store (store m start region) (start + 4) size) (end - footer_bytes) size

-- `exos_mem_add_region`, less the queueing of the region: the region and the memory, or 0
unfoldable pub add_region : ℕ → ℕ → ℕ → ℕ → Words → Option (Region × Words)
add_region name start end flags m =
    let size = end - start in
    let head = store m start 0 in
    let tail = store (store head (end - header_bytes) name) (end - header_bytes + 4) 0 in
    if ltb (footer_bytes + header_bytes + header_bytes) size
    then some (
      record {
        name = name;
        flags = flags;
        start = start;
        size = size;
        free_list = contents (start + footer_bytes) ∷ [];
      },
      init_block name (start + footer_bytes) (end - header_bytes) tail,
    )
    else none

-- The DEBUG checks of `_find_room` on the block with the contents `c`
abbrev pub is_sound : Words → Region → ℕ → Bool
is_sound m r c =
    let header = c - header_bytes in
    (m (c + size_of m header) == size_of m header)
    && (leb r.start header && (ltb header (r.start + r.size) && (header % 4 == 0)))

-- `_find_room`: the contents of the first block that is large enough, if there is one
unfoldable pub find_room : Words → Region → ℕ → List ℕ → Option (Option ℕ)
find_room m r size [] = some none
find_room m r size (c ∷ cs) =
    let rest = find_room m r size cs in
    if not (is_sound m r c)
    then none
    else if leb size (size_of m (c - header_bytes))
    then some (some c)
    else rest

-- `list_insert` of `new` behind `old`, and `list_remove` of `old`
unfoldable pub replace : ℕ → ℕ → List ℕ → List ℕ
replace old new [] = []
replace old new (c ∷ cs) = if c == old then new ∷ replace old new cs else c ∷ replace old new cs

-- What `exos_mem_alloc` does with the room that was found: `c` has the contents.
unfoldable pub take_room : Words → Region → ℕ → ℕ → Words × Region
take_room m r size c =
    let header = c - header_bytes in
    let whole = size_of m header in
    let end = c + whole + footer_bytes in
    let split = c + size + footer_bytes in
    if leb (header_bytes + node_bytes + footer_bytes) (whole - size)
    then (
      init_block r.name split end (store (store m (header + 4) size) (split - footer_bytes) 0),
      record r { free_list = replace c (contents split) r.free_list },
    )
    else (store m (c + whole) 0, record r { free_list = without c r.free_list })

-- `(size + 15) & ~15`
abbrev pub align : ℕ → ℕ
align size = (size + 15) % 2 ^ 32 / 16 * 16

abbrev pub keep :
    Region → Option (Option ℕ × Words × List Region) → Option (Option ℕ × Words × List Region)
keep r none = none
keep r (some (segment, m, rs)) = some (segment, m, r ∷ rs)

-- The loop of `exos_mem_alloc` over the regions: the address or NULL.
pub alloc_loop : ℕ → ℕ → Words → List Region → Option (Option ℕ × Words × List Region)
alloc_loop size flags m [] = some (none, m, [])
alloc_loop size flags m (r ∷ rs) =
    let rest = keep r (alloc_loop size flags m rs) in
    if bit_and r.flags flags == bit_and flags 3
    then elim (find_room m r size r.free_list) [
      | none ↦ none
      | some none ↦ rest
      | some (some c) ↦ let (m', r') = take_room m r size c in some (some c, m', r' ∷ rs)
    ]
    else rest

-- `exos_mem_alloc`, less the clearing of the contents
pub alloc : ℕ → ℕ → Words → List Region → Option (Option ℕ × Words × List Region)
unfolding alloc_loop
alloc size flags m rs = if size == 0 then some (none, m, rs) else alloc_loop (align size) flags m rs

-- `((node_t *)x)->Pred`: the node before `x`, or none for the list's head
unfoldable pub pred_in : ℕ → List ℕ → Option ℕ
pred_in x [] = none
pred_in x (c ∷ []) = none
pred_in x (c ∷ d ∷ ds) = if d == x then some c else pred_in x (d ∷ ds)

-- `list_insert` behind a node, or behind the list's head
unfoldable pub insert_after : Option ℕ → ℕ → List ℕ → List ℕ
insert_after none x cs = x ∷ cs
insert_after (some p) x [] = []
insert_after (some p) x (c ∷ cs) = if c == p then c ∷ x ∷ cs else c ∷ insert_after (some p) x cs

-- Where the block that is being freed ends and begins, the free list without its neighbours, and
-- the node that the block is to be inserted behind.
pub record Joined : Type 0 where
  pub header : ℕ
  pub footer : ℕ
  pub free_list : List ℕ
  pub pred : Option ℕ

-- "coalescence to linear successor"
unfoldable pub join_next : Words → Region → Joined → Option Joined
join_next m r j =
    let next = j.footer + footer_bytes in
    let next_footer = contents next + size_of m next in
    if size_of m next == 0
    then some j
    else if not (region_of m next == r.name)
    then none
    else if m next_footer == size_of m next
    then some (record j {
      footer = next_footer;
      free_list = without (contents next) j.free_list;
      pred = pred_in (contents next) j.free_list;
    })
    else some j

-- "coalescence to linear predecessor"
unfoldable pub join_prev : Words → Region → Joined → Option Joined
join_prev m r j =
    let free_size = m (j.header - footer_bytes) in
    let prev = j.header - footer_bytes - (free_size + header_bytes) in
    if free_size == 0
    then some j
    else if not (region_of m prev == r.name) || not (size_of m prev == free_size)
    then none
    else some (record j {
      header = prev;
      free_list = without (contents prev) j.free_list;
      pred = pred_in (contents prev) j.free_list;
    })

-- `exos_mem_free` of a block of the region
unfoldable pub free : Words → Region → ℕ → Option (Words × Region)
free m r addr =
    let header = addr - header_bytes in
    let size = size_of m header in
    let start : Joined = record {
      header = header;
      footer = addr + size;
      free_list = r.free_list;
      pred = none;
    } in
    if ltb size node_bytes || not (m (addr + size) == 0) then none else elim (join_next m r start) [
      | none ↦ none
      | some j ↦ elim (join_prev m r j) [
        | none ↦ none
        | some j' ↦ some (
          init_block r.name j'.header (j'.footer + footer_bytes) m,
          record r { free_list = insert_after j'.pred (contents j'.header) j'.free_list },
        )
      ]
    ]

-- `EXOS_MEM_STATS`
pub record Stats : Type 0 where
  pub free : ℕ
  pub fragments : ℕ
  pub largest : ℕ

-- The loop of `exos_mem_stats`, without its checks
unfoldable pub stats_loop : Words → List ℕ → Stats → Stats
stats_loop m [] s = s
stats_loop m (c ∷ cs) s =
    let size = size_of m (c - header_bytes) in
    stats_loop m cs (record {
      free = s.free + size;
      fragments = s.fragments + 1;
      largest = if ltb s.largest size then size else s.largest;
    })

-- `exos_mem_stats`
pub stats : Words → Region → Stats
stats m r = stats_loop m r.free_list (record { free = 0; fragments = 0; largest = 0 })

-- `exos_mem_get_region`: the index of the region
pub get_region : ℕ → ℕ → List Region → Option Region
get_region flags index [] = none
get_region flags index (r ∷ rs) =
    let found = get_region flags (index - 1) rs in
    let other = get_region flags index rs in
    if bit_and r.flags flags == bit_and flags 3
    then (if index == 0 then some r else found)
    else other
