-- ===== src/LinkedList/Remove.antt =====
-- `list_remove` takes a node out of a chain, and `list_rem_head` the first one.
use ex_os.Base.{
  ℕ, ◌+◌, ◌≡◌, refl, ◌≢◌, ap₂, false, ◌||◌, some, List, [], ◌∷◌, ◌++◌, append_assoc, arith, ◌==◌,
}
use ex_os.LinkedList.{Memory, store, tail_of, remove, rem_head}
use ex_os.LinkedList.Links.{
  All, All-append, Links, Links-store, Spaced, last, Links-append, All-map, IsNode, IsList,
}
use ex_os.LinkedList.Insert.{
  Unused-of_Apart, All-last, Unused-last, Unused-later, Spaced-left, Spaced-right, last-ne-tail,
  append-ne-nil, Apart-member,
}

All-split {ℓ} :
    {A : Type ℓ} (P : A → Type 0) (xs : List A) (x : A) (ys : List A)
    → All P (xs ++ x ∷ ys)
    → All P xs × P x × All P ys
All-split P xs x ys h =
    let (left, right) = (All-append P xs (x ∷ ys)).0 h in (left, right.0, right.1)

-- The memory after `list_remove` of the node between `p` and `s`.
abbrev pub removed : ℕ → ℕ → Memory → Memory
removed p s m = store (store m p s) (s + 1) p

pub All-remove {ℓ} :
    {A : Type ℓ} (P : A → Type 0) (x : A) (xs ys : List A) → All P (xs ++ x ∷ ys) → All P (xs ++ ys)
All-remove P x [] ys h = h.1
All-remove P x (y ∷ xs) ys h = (h.0, All-remove P x xs ys h.1)

pub Spaced-remove : (a x : ℕ) (xs ys : List ℕ) → Spaced a (xs ++ x ∷ ys) → Spaced a (xs ++ ys)
Spaced-remove a x [] [] sp = tt
Spaced-remove a x [] (y ∷ ys) sp = (sp.0.1, sp.2.1, sp.2.2)
Spaced-remove a x (z ∷ xs) ys sp = (
  (sp.0.0, All-remove (λ b. (a ≢ b) × (a ≢ b + 1)) x xs ys sp.0.1),
  All-remove (λ b. (z + 1 ≢ b) × (z + 1 ≢ b + 1)) x xs ys sp.1,
  Spaced-remove z x xs ys sp.2,
)

module _ (xs ys : List ℕ) (m : Memory) (a x s : ℕ) (links : Links m a (xs ++ x ∷ s ∷ ys))
    (spaced : Spaced a (xs ++ x ∷ s ∷ ys)) where
  abbrev before : ℕ
  before = last a xs

  parts : Links m a xs × (m before ≡ x) × (m (x + 1) ≡ before) × (m x ≡ s) × Links m s ys
  parts =
      let (left, right) = (Links-append xs (x ∷ s ∷ ys) m a).0 links in
      (left, right.0, right.1, right.2.0, right.2.2)

  remove-removed : x ≢ 0 → before ≢ 0 → s ≢ 0 → remove x m ≡ some (removed before s m)
  unfolding remove
  remove-removed hx hp hs =
      let sp = Spaced-right a xs (x ∷ s ∷ ys) spaced in
      let clear : (before ≢ x) × (before ≢ x + 1) = sp.0.0 in
      let (_, _, back, next, _) = parts in
      let alive : ((x == 0) || (before == 0) || (s == 0)) ≡ false = ground arith in
      rw (back, next)
        (rw alive
          (ap₂ (λ u v. some (store (store m before s) (u + 1) v)) (ground arith) (ground arith)))

  removed-Links : Links (removed before s m) a (xs ++ s ∷ ys)
  removed-Links =
      let (left, _, _, _, right) = parts in
      let less = Spaced-remove a x xs (s ∷ ys) spaced in
      let sp = Spaced-right a xs (s ∷ ys) less in
      let m1 = store m before s in
      (Links-append xs (s ∷ ys) (removed before s m) a).1 (
        Links-store xs m1 a (s + 1) before
            (Links-store xs m a before s left (Unused-last a xs (Spaced-left a xs (s ∷ ys) less)))
            (Unused-later a s xs ys less),
        (
          ground arith,
          ground arith,
          Links-store ys m1 s (s + 1) before
              (Links-store ys m s before s right (Unused-of_Apart before s ys sp.0.0.0 sp.0.1))
              (Unused-of_Apart (s + 1) s ys (omega arith) sp.1),
        ),
      )

-- The node behind another is no NULL.
next-ne-null :
    (l : ℕ) (ys rest : List ℕ) (s : ℕ) → ys ++ tail_of l ∷ [] ≡ s ∷ rest → All (IsNode l) ys → s ≢ 0
next-ne-null l [] rest s e h = ground arith
next-ne-null l (y ∷ ys) rest s e h = ground arith

removed-null :
    (l p s : ℕ) (m : Memory) → m (l + 1) ≡ 0 → p ≢ l + 1 → l ≢ s → removed p s m (l + 1) ≡ 0
removed-null l p s m e h k = ground arith

-- `list_remove` of a node of a list passes its ASSERT and takes out just that node.
pub remove-IsList :
    (xs ys : List ℕ) (m : Memory) (l x : ℕ)
    → IsList m l (xs ++ x ∷ ys)
    → (m' : Memory) × (remove x m ≡ some m') × IsList m' l (xs ++ ys)
remove-IsList xs ys m l x is = go (ys ++ tail_of l ∷ []) refl
  where
    go :
        (rest : List ℕ)
        → ys ++ tail_of l ∷ [] ≡ rest
        → (m' : Memory) × (remove x m ≡ some m') × IsList m' l (xs ++ ys)
    go [] e = absurd (append-ne-nil ys (tail_of l) e)
    go (s ∷ rest) e =
        let (left, here, right) = All-split (IsNode l) xs x ys is.nodes in
        let links = rw (append_assoc xs (x ∷ ys) (tail_of l ∷ []), e) at is.links in
        let spaced = rw (append_assoc xs (x ∷ ys) (tail_of l ∷ []), e) at is.spaced in
        (
          removed (last l xs) s m,
          remove-removed xs rest m l x s links spaced here.0
              (All-last (λ b. b ≢ 0) l xs
                (is.here, All-map (IsNode l) (λ b. b ≢ 0) xs (λ b h. h.0) left))
              (next-ne-null l ys rest s e right),
          record {
            links =
                rw (append_assoc xs ys (tail_of l ∷ []), e)
                  (removed-Links xs rest m l x s links spaced);
            null =
                removed-null l (last l xs) s m is.null (last-ne-tail l l xs (omega arith) left)
                  (Apart-member l s xs rest (Spaced-remove l x xs (s ∷ rest) spaced));
            spaced =
                rw (append_assoc xs ys (tail_of l ∷ []), e)
                  (Spaced-remove l x xs (s ∷ rest) spaced);
            nodes = All-remove _ x xs ys is.nodes;
            here = is.here;
          },
        )

-- `list_rem_head` of a list that is not empty gives the first node and takes out just that.
pub rem_head-IsList :
    (m : Memory) (l x : ℕ) (xs : List ℕ)
    → IsList m l (x ∷ xs)
    → (m' : Memory) × (rem_head l m ≡ some (x, m')) × IsList m' l xs
unfolding rem_head
rem_head-IsList m l x xs is =
    let (m', e, rest) = remove-IsList [] xs m l x is in
    let first : m l ≡ x = is.links.0 in (m', ground (arith, e, is.nodes.0), rest)

pub rem_head-empty : (m : Memory) (l : ℕ) → IsList m l [] → rem_head l m ≡ some (0, m)
unfolding rem_head
rem_head-empty m l is = ground (arith, is.links.0)
