-- ===== src/Memory/Blocks.antt =====
-- A region as a row of blocks.
use ex_os.Base.{
  ℕ, ◌+◌, ◌%◌, ◌<◌, ◌≤◌, ◌≡◌, ◌≢◌, ◌∙◌, ◌⊎◌, inl, inr, refl, ap, Bool, true, false, not, List, [],
  ◌∷◌, ◌++◌, arith, ◌==◌, if◌then◌else◌, Bool-cases, ◌&&◌,
}
use ex_os.Memory.{Words, Region}
use ex_os.Thread.Ready.{occurs, occurs-append}

pub record Block : Type 0 where
  pub size : ℕ
  pub used : Bool

abbrev pub used_block : ℕ → Block
used_block n = record { size = n; used = true }

abbrev pub free_block : ℕ → Block
free_block n = record { size = n; used = false }

-- From `a` to `e` the blocks of the region `name` follow one another.
unfoldable pub Row : Words → ℕ → ℕ → List Block → ℕ → Type 0
Row m name a [] e = a ≡ e
Row m name a (b ∷ bs) e =
    (m a ≡ name)
    × (m (a + 4) ≡ b.size)
    × (m (a + 8 + b.size) ≡ (if b.used then 0 else b.size))
    × (16 ≤ b.size)
    × (b.size % 4 ≡ 0)
    × Row m name (a + 12 + b.size) bs e

-- The contents of the free blocks.
unfoldable pub free_contents : ℕ → List Block → List ℕ
free_contents a [] = []
free_contents a (b ∷ bs) =
    let rest = free_contents (a + 12 + b.size) bs in if b.used then rest else (a + 8) ∷ rest

unfoldable pub end_of : ℕ → List Block → ℕ
end_of a [] = a
end_of a (b ∷ bs) = end_of (a + 12 + b.size) bs

pub Row-le : (m : Words) (name a : ℕ) (bs : List Block) (e : ℕ) → Row m name a bs e → a ≤ e
unfolding Row
Row-le m name a [] e r = omega arith
Row-le m name a (b ∷ bs) e (_, _, _, _, _, rest) =
    omega (arith, Row-le m name (a + 12 + b.size) bs e rest)

-- The words outside of the row do not matter.
pub Row_frame :
    (m m' : Words) (name a : ℕ) (bs : List Block) (e : ℕ)
    → Row m name a bs e
    → ((x : ℕ) → a ≤ x → x < e → m' x ≡ m x)
    → Row m' name a bs e
unfolding Row
Row_frame m m' name a [] e r same = r
Row_frame m m' name a (b ∷ bs) e (n, s, f, min_size, words, rest) same =
    let le = Row-le m name (a + 12 + b.size) bs e rest in
    (
      same a (omega arith) (omega arith) ∙ n,
      same (a + 4) (omega arith) (omega arith) ∙ s,
      same (a + 8 + b.size) (omega arith) (omega arith) ∙ f,
      min_size,
      words,
      Row_frame m m' name (a + 12 + b.size) bs e rest (λ x lo hi. same x (omega arith) hi),
    )

pub Row-append :
    (m : Words) (name a : ℕ) (xs ys : List Block) (e : ℕ)
    → Row m name a (xs ++ ys) e
    → Row m name a xs (end_of a xs) × Row m name (end_of a xs) ys e
unfolding Row end_of
Row-append m name a [] ys e r = (refl, r)
Row-append m name a (x ∷ xs) ys e (n, s, f, min_size, words, rest) =
    let (left, right) = Row-append m name (a + 12 + x.size) xs ys e rest in
    ((n, s, f, min_size, words, left), right)

pub append-Row :
    (m : Words) (name a : ℕ) (xs ys : List Block) (e : ℕ)
    → Row m name a xs (end_of a xs)
    → Row m name (end_of a xs) ys e
    → Row m name a (xs ++ ys) e
unfolding Row end_of
append-Row m name a [] ys e l r = r
append-Row m name a (x ∷ xs) ys e (n, s, f, min_size, words, rest) r =
    (n, s, f, min_size, words, append-Row m name (a + 12 + x.size) xs ys e rest r)

pub end_of-append : (a : ℕ) (xs ys : List Block) → end_of a (xs ++ ys) ≡ end_of (end_of a xs) ys
unfolding end_of
end_of-append a [] ys = refl
end_of-append a (x ∷ xs) ys = end_of-append (a + 12 + x.size) xs ys

pub free_contents-append :
    (a : ℕ) (xs ys : List Block)
    → free_contents a (xs ++ ys) ≡ free_contents a xs ++ free_contents (end_of a xs) ys
unfolding free_contents end_of
free_contents-append a [] ys = refl
free_contents-append a (x ∷ xs) ys = ground (arith, free_contents-append (a + 12 + x.size) xs ys)

pub le-end_of : (a : ℕ) (xs : List Block) → a ≤ end_of a xs
unfolding end_of
le-end_of a [] = omega arith
le-end_of a (x ∷ xs) = omega (arith, le-end_of (a + 12 + x.size) xs)

-- A free block's contents lie in the row.
pub free_contents_in :
    (a c : ℕ) (bs : List Block)
    → occurs c (free_contents a bs) ≢ 0
    → (a + 8 ≤ c) × (c + 4 ≤ end_of a bs)
unfolding free_contents end_of occurs
free_contents_in a c [] h = absurd (h refl)
free_contents_in a c (b ∷ bs) h =
    grind (arith, le-end_of (a + 12 + b.size) bs, free_contents_in (a + 12 + b.size) c bs)

-- Where a free block stands in the row.
pub free_split :
    (a c : ℕ) (bs : List Block)
    → occurs c (free_contents a bs) ≢ 0
    → (pre : List Block) × (n : ℕ) × (post : List Block) × (bs ≡ pre ++ free_block n ∷ post)
      × (c ≡ end_of a pre + 8)
unfolding free_contents end_of occurs
free_split a c [] h = absurd (h refl)
free_split a c (b ∷ bs) h = elim (Bool-cases (not b.used && (a + 8 == c))) [
  | inl e ↦
      let unused : b.used ≡ false = ground arith in
      ([], b.size, bs, ap (λ u. record { size = b.size; used = u } ∷ bs) unused, ground arith)
  | inr e ↦
      let (pre, n, post, same, place) = free_split (a + 12 + b.size) c bs (grind arith) in
      (b ∷ pre, n, post, ap (λ l. b ∷ l) same, place)
]

pub end_of-words :
    (m : Words) (name a : ℕ) (bs : List Block) (e : ℕ)
    → Row m name a bs e
    → a % 4 ≡ 0
    → end_of a bs % 4 ≡ 0
unfolding Row end_of
end_of-words m name a [] e r h = h
end_of-words m name a (b ∷ bs) e (_, _, _, _, words, rest) h =
    end_of-words m name (a + 12 + b.size) bs e rest (omega arith)

-- A region in good order: its blocks fill it, and the free list has the free ones.
pub record IsRegion (m : Words) (r : Region) (bs : List Block) (e : ℕ) : Type 0 where
  pub head : m r.start ≡ 0
  pub row : Row m r.name (r.start + 4) bs e
  pub tail : m (e + 4) ≡ 0
  pub ends : e + 8 ≡ r.start + r.size
  pub words : r.start % 4 ≡ 0
  pub frees : (c : ℕ) → occurs c r.free_list ≡ occurs c (free_contents (r.start + 4) bs)

pub Row-end :
    (m : Words) (name a : ℕ) (bs : List Block) (e : ℕ) → Row m name a bs e → end_of a bs ≡ e
unfolding Row end_of
Row-end m name a [] e r = r
Row-end m name a (b ∷ bs) e (_, _, _, _, _, rest) = Row-end m name (a + 12 + b.size) bs e rest

-- How often a free block's contents stand in three pieces of a row.
pub occurs_parts :
    (a c : ℕ) (pre here post : List Block)
    → let mid = end_of a pre in
      occurs c (free_contents a (pre ++ (here ++ post)))
      ≡ occurs c (free_contents a pre)
        + occurs c (free_contents mid here)
        + occurs c (free_contents (end_of mid here) post)
occurs_parts a c pre here post =
    let mid = end_of a pre in
    rw (free_contents-append a pre (here ++ post), free_contents-append mid here post)
      (omega (
        arith,
        occurs-append c (free_contents a pre)
            (free_contents mid here ++ free_contents (end_of mid here) post),
        occurs-append c (free_contents mid here) (free_contents (end_of mid here) post),
      ))

pub occurs_outside :
    (a c : ℕ) (bs : List Block)
    → (c < a + 8) ⊎ (end_of a bs < c + 4)
    → occurs c (free_contents a bs) ≡ 0
occurs_outside a c bs out = grind (arith, free_contents_in a c bs)

-- Some blocks in the middle of a region are exchanged for others; only their words change.
module _ (m m' : Words) (r r' : Region) (pre olds news post : List Block) (e : ℕ)
    (is : IsRegion m r (pre ++ (olds ++ post)) e) where
  abbrev mid : ℕ
  mid = end_of (r.start + 4) pre

  abbrev next : ℕ
  next = end_of mid olds

  pub exchange :
      Row m' r.name mid news next
      → ((x : ℕ) → (x < mid) ⊎ (next ≤ x) → m' x ≡ m x)
      → r'.name ≡ r.name
      → r'.start ≡ r.start
      → r'.size ≡ r.size
      → ((c : ℕ)
          → occurs c r'.free_list + occurs c (free_contents mid olds)
            ≡ occurs c r.free_list + occurs c (free_contents mid news))
      → IsRegion m' r' (pre ++ (news ++ post)) e
  exchange new same name start size counts =
      let (left, right) = Row-append m r.name (r.start + 4) pre (olds ++ post) e is.row in
      let (_, behind) = Row-append m r.name mid olds post e right in
      let low = le-end_of (r.start + 4) pre in
      let ends_new = Row-end m' r.name mid news next new in
      let high = Row-le m r.name next post e behind in
      let inner = le-end_of mid olds in
      let left' = Row_frame m m' r.name (r.start + 4) pre mid left (λ x lo hi. same x (inl hi)) in
      let behind' = Row_frame m m' r.name next post e behind (λ x lo hi. same x (inr lo)) in
      let new' : Row m' r.name mid news (end_of mid news) = rw ends_new new in
      let behind'' : Row m' r.name (end_of mid news) post e = rw ends_new behind' in
      record {
        head = rw start (same r.start (inl (omega (arith, low))) ∙ is.head);
        row =
            rw (name, start)
              (append-Row m' r.name (r.start + 4) pre (news ++ post) e left'
                (append-Row m' r.name mid news post e new' behind''));
        tail = same (e + 4) (inr (omega (arith, high))) ∙ is.tail;
        ends = rw (start, size) is.ends;
        words = rw start is.words;
        frees = λ c. rw start (
            omega (
              arith,
              counts c,
              is.frees c,
              occurs_parts (r.start + 4) c pre olds post,
              rw ends_new at (occurs_parts (r.start + 4) c pre news post),
            ));
      }
