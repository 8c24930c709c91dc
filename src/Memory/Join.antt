-- ===== src/Memory/Join.antt =====
-- The block that is being freed is joined with free neighbours.
use ex_os.Base.{
  ℕ, ◌+◌, ◌-◌, ◌≤◌, ◌≡◌, ◌∙◌, ◌⊎◌, inl, inr, refl, sym, ap, true, false, some, List, [], ◌∷◌, ◌++◌,
  append_assoc, arith, ◌==◌, Bool-cases,
}
use ex_os.Thread.{without}
use ex_os.Thread.Ready.{occurs, occurs-append, occurs-without, bit}
use ex_os.Memory.{Words, Region, Joined, pred_in, join_next, join_prev}
use ex_os.Memory.Blocks.{
  Block, free_block, used_block, Row, Row-append, free_contents, free_contents-append, end_of,
  end_of-append, occurs_parts, occurs_outside, IsRegion,
}
use ex_os.Memory.FreeList.{StillThere, occurs-free_contents-le, pred_in_there}

-- The blocks `olds` are to become one: the free list has the others.
pub record IsJoined (r : Region) (bs : List Block) (j : Joined) (pre olds post : List Block)
    : Type 0 where
  pub blocks : bs ≡ pre ++ (olds ++ post)
  pub header : j.header ≡ end_of (r.start + 4) pre
  pub footer : j.footer + 4 ≡ end_of (end_of (r.start + 4) pre) olds
  pub room : end_of (r.start + 4) pre + 28 ≤ j.footer + 4
  pub counts :
      (x : ℕ)
      → occurs x j.free_list + occurs x (free_contents (end_of (r.start + 4) pre) olds)
        ≡ occurs x r.free_list
  pub there : StillThere j.pred j.free_list

-- The blocks behind, before and after joining: a free one is taken.
abbrev pub Behind : List Block → List Block → Type 0
Behind post post' =
    ((n : ℕ) × (post ≡ free_block n ∷ post'))
    ⊎ ((post ≡ post')
        × ((post ≡ []) ⊎ ((n : ℕ) × (rest : List Block) × (post ≡ used_block n ∷ rest))))

abbrev pub Before : List Block → List Block → Type 0
Before pre pre' =
    ((n : ℕ) × (pre ≡ pre' ++ (free_block n ∷ [])))
    ⊎ ((pre ≡ pre')
        × ((pre ≡ []) ⊎ ((n : ℕ) × (rest : List Block) × (pre ≡ rest ++ (used_block n ∷ [])))))

occurs_moved :
    (x c : ℕ) (cs : List ℕ) → occurs c cs ≡ 1 → occurs x (without c cs) + bit (c == x) ≡ occurs x cs
occurs_moved x c cs one = rw (occurs-without x c cs) (ground (arith, one))

last_block :
    (bs : List Block) → (bs ≡ []) ⊎ ((rest : List Block) × (b : Block) × (bs ≡ rest ++ (b ∷ [])))
last_block [] = inl refl
last_block (b ∷ bs) = elim (last_block bs) [
  | inl none_more ↦ inr ([], b, ap (λ l. b ∷ l) none_more)
  | inr (rest, c, split) ↦ inr (b ∷ rest, c, ap (λ l. b ∷ l) split)
]

used_or_free : (b : Block) → ((n : ℕ) × (b ≡ used_block n)) ⊎ ((n : ℕ) × (b ≡ free_block n))
used_or_free b = elim (Bool-cases b.used) [
  | inl e ↦ inl (b.size, ap (λ u. record { size = b.size; used = u }) e)
  | inr e ↦ inr (b.size, ap (λ u. record { size = b.size; used = u }) e)
]

once_free :
    (a : ℕ) (xs : List Block) (n : ℕ) (ys : List Block)
    → occurs (end_of a xs + 8) (free_contents a (xs ++ ((free_block n ∷ []) ++ ys))) ≡ 1
unfolding free_contents end_of occurs
once_free a xs n ys =
    let c = end_of a xs + 8 in
    let first = occurs_outside a c xs (inr (omega arith)) in
    let last = occurs_outside (end_of a xs + 12 + n) c ys (inl (omega arith)) in
    ground (arith, occurs_parts a c xs (free_block n ∷ []) ys, first, last)

module _ (m : Words) (r : Region) (bs : List Block) (e : ℕ) (is : IsRegion m r bs e) where
  pub free_list-le :
      (j : Joined) (pre olds post : List Block)
      → IsJoined r bs j pre olds post
      → (x : ℕ) → occurs x j.free_list ≤ 1
  free_list-le j pre olds post is_j x =
      omega (arith, is_j.counts x, is.frees x, occurs-free_contents-le (r.start + 4) x bs)

  behind :
      (j : Joined) (pre olds post : List Block)
      → IsJoined r bs j pre olds post
      → Row m r.name (j.footer + 4) post e
  behind j pre olds post is_j =
      let (_, right) =
        Row-append m r.name (r.start + 4) pre (olds ++ post) e (rw is_j.blocks at is.row) in
      let (_, here) = Row-append m r.name (end_of (r.start + 4) pre) olds post e right in
      rw is_j.footer here

  -- The block behind is free.
  take_next :
      (j : Joined) (pre olds : List Block) (n : ℕ) (post : List Block)
      → IsJoined r bs j pre olds (free_block n ∷ post)
      → let next = j.footer + 4 in
        let j' = record j {
          footer = next + 8 + n;
          free_list = without (next + 8) j.free_list;
          pred = pred_in (next + 8) j.free_list;
        } in
        (join_next m r j ≡ some j') × IsJoined r bs j' pre (olds ++ (free_block n ∷ [])) post
  unfolding join_next Row free_contents end_of occurs
  take_next j pre olds n post is_j =
      let mid = end_of (r.start + 4) pre in
      let next = j.footer + 4 in
      let here = behind j pre olds (free_block n ∷ post) is_j in
      let (name, size, foot, min_size, _, _) = here in
      let inner = occurs_outside mid (next + 8) olds (inr (omega (arith, is_j.footer))) in
      let split : bs ≡ (pre ++ olds) ++ (free_block n ∷ post) =
        is_j.blocks ∙ sym (append_assoc pre olds (free_block n ∷ post)) in
      let place : end_of (r.start + 4) (pre ++ olds) ≡ next =
        end_of-append (r.start + 4) pre olds ∙ sym is_j.footer in
      let found = rw place at (once_free (r.start + 4) (pre ++ olds) n post) in
      let once : occurs (next + 8) j.free_list ≡ 1 =
        omega (arith, is_j.counts (next + 8), inner, rw split at (is.frees (next + 8)), found) in
      let some_size : (n == 0) ≡ false = ground (arith, min_size) in
      let is_name : (r.name == r.name) ≡ true = ground arith in
      let is_size : (n == n) ≡ true = ground arith in
      (
        rw (size, some_size, name, is_name, foot, is_size) refl,
        record {
          blocks =
              is_j.blocks ∙ ap (λ l. pre ++ l) (sym (append_assoc olds (free_block n ∷ []) post));
          header = is_j.header;
          footer = rw (end_of-append mid olds (free_block n ∷ []), sym is_j.footer) (omega arith);
          room = omega (arith, is_j.room);
          counts = λ x.
              rw (free_contents-append mid olds (free_block n ∷ []), sym is_j.footer)
                (omega (
                  arith,
                  is_j.counts x,
                  occurs-append x (free_contents mid olds) ((next + 8) ∷ []),
                  occurs_moved x (next + 8) j.free_list once,
                ));
          there =
              pred_in_there (next + 8) j.free_list
                (free_list-le j pre olds (free_block n ∷ post) is_j (next + 8));
        },
      )

  -- The block before is free.
  take_prev :
      (j : Joined) (pre : List Block) (n : ℕ) (olds post : List Block)
      → IsJoined r bs j (pre ++ (free_block n ∷ [])) olds post
      → let prev = end_of (r.start + 4) pre in
        let j' = record j {
          header = prev;
          free_list = without (prev + 8) j.free_list;
          pred = pred_in (prev + 8) j.free_list;
        } in
        (join_prev m r j ≡ some j') × IsJoined r bs j' pre (free_block n ∷ olds) post
  unfolding join_prev Row free_contents end_of occurs
  take_prev j pre n olds post is_j =
      let prev = end_of (r.start + 4) pre in
      let mid : end_of (r.start + 4) (pre ++ (free_block n ∷ [])) ≡ prev + 12 + n =
        end_of-append (r.start + 4) pre (free_block n ∷ []) in
      let split : bs ≡ pre ++ ((free_block n ∷ []) ++ (olds ++ post)) =
        is_j.blocks ∙ append_assoc pre (free_block n ∷ []) (olds ++ post) in
      let (_, here) =
        Row-append m r.name (r.start + 4) pre (free_block n ∷ (olds ++ post)) e
          (rw split at is.row) in
      let (name, size, foot, min_size, _, _) = here in
      let header : j.header ≡ prev + 12 + n = is_j.header ∙ mid in
      let foot_at : j.header - 4 ≡ prev + 8 + n = omega (arith, header) in
      let prev_at : prev + 8 + n - (n + 8) ≡ prev = omega arith in
      let inner = occurs_outside (prev + 12 + n) (prev + 8) olds (inl (omega arith)) in
      let counts = rw mid at is_j.counts in
      let found = once_free (r.start + 4) pre n (olds ++ post) in
      let once : occurs (prev + 8) j.free_list ≡ 1 =
        omega (arith, counts (prev + 8), inner, rw split at (is.frees (prev + 8)), found) in
      let some_size : (n == 0) ≡ false = ground (arith, min_size) in
      let is_name : (r.name == r.name) ≡ true = ground arith in
      let is_size : (n == n) ≡ true = ground arith in
      (
        rw (foot_at, foot, some_size, prev_at, name, is_name, size, is_size) refl,
        record {
          blocks = split;
          header = refl;
          footer = is_j.footer ∙ ap (λ a. end_of a olds) mid;
          room = omega (arith, is_j.room, mid);
          counts = λ x. omega (arith, counts x, occurs_moved x (prev + 8) j.free_list once);
          there =
              pred_in_there (prev + 8) j.free_list
                (free_list-le j (pre ++ (free_block n ∷ [])) olds post is_j (prev + 8));
        },
      )

  stay_end :
      (j : Joined) (pre olds : List Block) → IsJoined r bs j pre olds [] → join_next m r j ≡ some j
  unfolding join_next Row
  stay_end j pre olds is_j =
      let last = behind j pre olds [] is_j in
      let none_left : m (j.footer + 4 + 4) ≡ 0 = ap (λ a. m (a + 4)) last ∙ is.tail in
      rw none_left refl

  stay_next :
      (j : Joined) (pre olds : List Block) (n : ℕ) (post : List Block)
      → IsJoined r bs j pre olds (used_block n ∷ post)
      → join_next m r j ≡ some j
  unfolding join_next Row
  stay_next j pre olds n post is_j =
      let (name, size, foot, min_size, _, _) = behind j pre olds (used_block n ∷ post) is_j in
      let some_size : (n == 0) ≡ false = ground (arith, min_size) in
      let is_name : (r.name == r.name) ≡ true = ground arith in
      let is_used : (0 == n) ≡ false = ground (arith, min_size) in
      rw (size, some_size, name, is_name, foot, is_used) refl

  stay_start :
      (j : Joined) (olds post : List Block)
      → IsJoined r bs j [] olds post
      → join_prev m r j ≡ some j
  unfolding join_prev end_of
  stay_start j olds post is_j =
      let first : j.header - 4 ≡ r.start = omega (arith, is_j.header) in rw (first, is.head) refl

  stay_prev :
      (j : Joined) (pre : List Block) (n : ℕ) (olds post : List Block)
      → IsJoined r bs j (pre ++ (used_block n ∷ [])) olds post
      → join_prev m r j ≡ some j
  unfolding join_prev Row end_of
  stay_prev j pre n olds post is_j =
      let split : bs ≡ pre ++ ((used_block n ∷ []) ++ (olds ++ post)) =
        is_j.blocks ∙ append_assoc pre (used_block n ∷ []) (olds ++ post) in
      let (_, here) =
        Row-append m r.name (r.start + 4) pre (used_block n ∷ (olds ++ post)) e
          (rw split at is.row) in
      let foot_at : j.header - 4 ≡ end_of (r.start + 4) pre + 8 + n =
        omega (arith, is_j.header, end_of-append (r.start + 4) pre (used_block n ∷ [])) in
      rw (foot_at, here.2) refl

  -- Joining with what stands behind finds no fault, and takes a free block.
  pub join_next_lem :
      (j : Joined) (pre olds post : List Block)
      → IsJoined r bs j pre olds post
      → (j' : Joined) × (olds' : List Block) × (post' : List Block) × (join_next m r j ≡ some j')
        × IsJoined r bs j' pre olds' post'
        × Behind post post'
  join_next_lem j pre olds [] is_j =
      (j, olds, [], stay_end j pre olds is_j, is_j, inr (refl, inl refl))
  join_next_lem j pre olds (b ∷ post) is_j = elim (used_or_free b) [
    | inl (n, used) ↦
        let is_j' = rw used at is_j in
        (
          j,
          olds,
          b ∷ post,
          stay_next j pre olds n post is_j',
          is_j,
          inr (refl, inr (n, post, ap (λ c. c ∷ post) used)),
        )
    | inr (n, unused) ↦
        let (done, is_j') = take_next j pre olds n post (rw unused at is_j) in
        (_, olds ++ (free_block n ∷ []), post, done, is_j', inl (n, ap (λ c. c ∷ post) unused))
  ]

  -- Joining with what stands before likewise.
  pub join_prev_lem :
      (j : Joined) (pre olds post : List Block)
      → IsJoined r bs j pre olds post
      → (j' : Joined) × (pre' : List Block) × (olds' : List Block) × (join_prev m r j ≡ some j')
        × IsJoined r bs j' pre' olds' post
        × Before pre pre'
  join_prev_lem j pre olds post is_j = elim (last_block pre) [
    | inl first ↦
        let is_j' = rw first at is_j in
        (j, pre, olds, stay_start j olds post is_j', is_j, inr (refl, inl first))
    | inr (rest, b, split) ↦ elim (used_or_free b) [
      | inl (n, used) ↦
          let split' = split ∙ ap (λ c. rest ++ (c ∷ [])) used in
          (
            j,
            pre,
            olds,
            stay_prev j rest n olds post (rw split' at is_j),
            is_j,
            inr (refl, inr (n, rest, split')),
          )
      | inr (n, unused) ↦
          let split' = split ∙ ap (λ c. rest ++ (c ∷ [])) unused in
          let (done, is_j') = take_prev j rest n olds post (rw split' at is_j) in
          (_, rest, free_block n ∷ olds, done, is_j', inl (n, split'))
    ]
  ]
