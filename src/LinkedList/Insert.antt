-- ===== src/LinkedList/Insert.antt =====
-- `list_insert` puts a node into a chain, behind the node that it is given.
use ex_os.Base.{ℕ, ◌+◌, ◌≡◌, refl, ◌≢◌, sym, List, [], ◌∷◌, ◌++◌, append_assoc, append-nil, arith}
use ex_os.LinkedList.{Memory, store, tail_of, insert, initialize, add_head, add_tail}
use ex_os.LinkedList.Links.{
  All, All-append, Links, Links-store, Unused, Apart, Spaced, Fresh, last, Links-append, IsNode,
  IsList,
}

-- The memory after `list_insert` of `n` between `p` and `s`.
abbrev pub inserted : ℕ → ℕ → ℕ → Memory → Memory
inserted p n s m = store (store (store (store m (n + 1) p) n s) (s + 1) n) p n

pub insert-inserted :
    (p n s : ℕ) (m : Memory) → m p ≡ s → n ≢ p → n + 1 ≢ p → n ≢ s → insert p n m ≡ inserted p n s m
unfolding insert
insert-inserted p n s m e h1 h2 h3 =
    let m1 = store m (n + 1) p in
    let next : m1 p ≡ s = ground arith in
    let m2 = store m1 n s in
    let again : m2 n ≡ s = ground arith in
    let m3 = store m2 (s + 1) n in
    let back : m3 (n + 1) ≡ p = ground arith in rw next (rw again (rw back))

pub Unused-of_Apart : (w a : ℕ) (bs : List ℕ) → w ≢ a → Apart w bs → Unused w a bs
Unused-of_Apart w a [] h f = tt
Unused-of_Apart w a (b ∷ bs) h f = (h, f.0.1, Unused-of_Apart w b bs f.0.0 f.1)

-- Both words of a fresh node are clear of the chain.
Fresh-Apart : (n : ℕ) (bs : List ℕ) → Fresh n bs → Apart n bs × Apart (n + 1) bs
Fresh-Apart n [] f = (tt, tt)
Fresh-Apart n (b ∷ bs) f =
    let ih = Fresh-Apart n bs f.1 in ((omega arith, ih.0), (omega arith, ih.1))

Fresh-Unused : (n a : ℕ) (bs : List ℕ) → Fresh n (a ∷ bs) → Unused n a bs × Unused (n + 1) a bs
Fresh-Unused n a bs f =
    let clear = Fresh-Apart n bs f.1 in
    (Unused-of_Apart n a bs f.0.0 clear.0, Unused-of_Apart (n + 1) a bs f.0.2 clear.1)

pub All-last : (P : ℕ → Type 0) (a : ℕ) (bs : List ℕ) → All P (a ∷ bs) → P (last a bs)
unfolding last
All-last P a [] h = h.0
All-last P a (b ∷ bs) h = All-last P b bs h.1

-- The last node's `Succ` is no word of the chain up to it.
pub Unused-last : (a : ℕ) (xs : List ℕ) → Spaced a xs → Unused (last a xs) a xs
unfolding last
Unused-last a [] s = tt
Unused-last a (x ∷ []) s = (omega arith, omega arith, tt)
Unused-last a (x ∷ y ∷ xs) s =
    let first = All-last (λ b. (a ≢ b) × (a ≢ b + 1)) x (y ∷ xs) s.0 in
    let second = All-last (λ b. (x + 1 ≢ b) × (x + 1 ≢ b + 1)) y xs s.1 in
    (λ e. first.0 (sym e), λ e. second.0 (sym e), Unused-last x (y ∷ xs) s.2)

-- A later node's `Pred` is no word of the chain before it.
pub Unused-later : (a s : ℕ) (xs ys : List ℕ) → Spaced a (xs ++ s ∷ ys) → Unused (s + 1) a xs
Unused-later a s [] ys sp = tt
Unused-later a s (x ∷ xs) ys sp =
    let first = ((All-append (λ b. (a ≢ b) × (a ≢ b + 1)) xs (s ∷ ys)).0 sp.0.1).1.0 in
    let second = ((All-append (λ b. (x + 1 ≢ b) × (x + 1 ≢ b + 1)) xs (s ∷ ys)).0 sp.1).1.0 in
    (λ e. first.1 (sym e), λ e. second.1 (sym e), Unused-later x s xs ys sp.2)

pub Spaced-right : (a : ℕ) (xs ys : List ℕ) → Spaced a (xs ++ ys) → Spaced (last a xs) ys
unfolding last
Spaced-right a [] ys sp = sp
Spaced-right a (x ∷ xs) ys sp = Spaced-right x xs ys sp.2

pub Spaced-left : (a : ℕ) (xs ys : List ℕ) → Spaced a (xs ++ ys) → Spaced a xs
Spaced-left a [] ys sp = tt
Spaced-left a (x ∷ xs) ys sp = (
  (sp.0.0, ((All-append (λ b. (a ≢ b) × (a ≢ b + 1)) xs ys).0 sp.0.1).0),
  ((All-append (λ b. (x + 1 ≢ b) × (x + 1 ≢ b + 1)) xs ys).0 sp.1).0,
  Spaced-left x xs ys sp.2,
)

-- Four writes that all miss a chain.
pub Links-inserted :
    (bs : List ℕ) (m : Memory) (a p n s : ℕ)
    → Links m a bs
    → Fresh n (a ∷ bs)
    → Unused (s + 1) a bs
    → Unused p a bs
    → Links (inserted p n s m) a bs
Links-inserted bs m a p n s h f us up =
    let m1 = store m (n + 1) p in
    let m2 = store m1 n s in
    let m3 = store m2 (s + 1) n in
    let clear = Fresh-Unused n a bs f in
    Links-store bs m3 a p n
      (Links-store bs m2 a (s + 1) n
        (Links-store bs m1 a n s (Links-store bs m a (n + 1) p h clear.1) clear.0) us)
      up

pub insert-Links :
    (xs ys : List ℕ) (m : Memory) (a s n : ℕ)
    → Links m a (xs ++ s ∷ ys)
    → Spaced a (xs ++ s ∷ ys)
    → Fresh n (a ∷ xs ++ s ∷ ys)
    → Links (insert (last a xs) n m) a (xs ++ n ∷ s ∷ ys)
insert-Links xs ys m a s n h sp f =
    let p = last a xs in
    let parts = (Links-append xs (s ∷ ys) m a).0 h in
    let fresh = (All-append (λ b. (n ≢ b) × (n ≢ b + 1) × (n + 1 ≢ b)) (a ∷ xs) (s ∷ ys)).0 f in
    let at_p = All-last (λ b. (n ≢ b) × (n ≢ b + 1) × (n + 1 ≢ b)) a xs fresh.0 in
    let right = Spaced-right a xs (s ∷ ys) sp in
    rw (insert-inserted p n s m parts.1.0 at_p.0 at_p.2 fresh.1.0.0) (
      (Links-append xs (n ∷ s ∷ ys) (inserted p n s m) a).1 (
        Links-inserted xs m a p n s parts.0 fresh.0 (Unused-later a s xs ys sp)
            (Unused-last a xs (Spaced-left a xs (s ∷ ys) sp)),
        (
          ground arith,
          ground arith,
          (
            ground arith,
            ground arith,
            Links-inserted ys m s p n s parts.1.2 fresh.1
                (Unused-of_Apart (s + 1) s ys (omega arith) right.1)
                (Unused-of_Apart p s ys right.0.0.0 right.0.1),
          ),
        ),
      ))

Apart-insert :
    (w n : ℕ) (xs ys : List ℕ) → (w ≢ n) × (w ≢ n + 1) → Apart w (xs ++ ys) → Apart w (xs ++ n ∷ ys)
Apart-insert w n [] ys h a = (h, a)
Apart-insert w n (x ∷ xs) ys h a = (a.0, Apart-insert w n xs ys h a.1)

pub Spaced-insert :
    (a n : ℕ) (xs ys : List ℕ)
    → Spaced a (xs ++ ys)
    → Fresh n (a ∷ xs ++ ys)
    → Spaced a (xs ++ n ∷ ys)
Spaced-insert a n [] [] sp f = ((omega arith, tt), tt, tt)
Spaced-insert a n [] (y ∷ ys) sp f =
    let clear = Fresh-Apart n (y ∷ ys) f.1 in ((omega arith, sp.0), clear.1, (clear.0, sp.1, sp.2))
Spaced-insert a n (x ∷ xs) ys sp f = (
  (sp.0.0, Apart-insert a n xs ys (omega arith) sp.0.1),
  Apart-insert (x + 1) n xs ys (omega arith) sp.1,
  Spaced-insert x n xs ys sp.2 f.1,
)

pub append-ne-nil : (xs : List ℕ) (x : ℕ) → xs ++ x ∷ [] ≢ []
append-ne-nil [] x = λ e. cc e
append-ne-nil (y ∷ xs) x = λ e. cc e

-- The node `n` may go into the list at `l`: it is not NULL, and shares no word with the list.
pub record MayEnter (n l : ℕ) (xs : List ℕ) : Type 0 where
  pub not_null : n ≢ 0
  pub fresh : Fresh n (l ∷ xs ++ tail_of l ∷ [])

pub All-insert {ℓ} :
    {A : Type ℓ} (P : A → Type 0) (x : A) (xs ys : List A)
    → P x
    → All P (xs ++ ys)
    → All P (xs ++ x ∷ ys)
All-insert P x [] ys p h = (p, h)
All-insert P x (y ∷ xs) ys p h = (h.0, All-insert P x xs ys p h.1)

-- The last of a list, or its header, is not the word `Tail`.
pub last-ne-tail : (l a : ℕ) (xs : List ℕ) → a ≢ l + 1 → All (IsNode l) xs → last a xs ≢ l + 1
unfolding last
last-ne-tail l a [] h f = h
last-ne-tail l a (x ∷ xs) h f = last-ne-tail l x xs f.0.1 f.1

pub Apart-member : (a s : ℕ) (xs rest : List ℕ) → Spaced a (xs ++ s ∷ rest) → a ≢ s
Apart-member a s [] rest sp = sp.0.0.0
Apart-member a s (x ∷ xs) rest sp =
    ((All-append (λ b. (a ≢ b) × (a ≢ b + 1)) xs (s ∷ rest)).0 sp.0.1).1.0.0

insert-null :
    (xs rest : List ℕ) (m : Memory) (l s n : ℕ)
    → m (l + 1) ≡ 0
    → m (last l xs) ≡ s
    → Spaced l (xs ++ s ∷ rest)
    → Fresh n (l ∷ xs ++ s ∷ rest)
    → n ≢ l + 1
    → All (IsNode l) xs
    → insert (last l xs) n m (l + 1) ≡ 0
insert-null xs rest m l s n e next sp f h nodes =
    let p = last l xs in
    let fresh = (All-append (λ b. (n ≢ b) × (n ≢ b + 1) × (n + 1 ≢ b)) (l ∷ xs) (s ∷ rest)).0 f in
    let at_p = All-last (λ b. (n ≢ b) × (n ≢ b + 1) × (n + 1 ≢ b)) l xs fresh.0 in
    let not_p = last-ne-tail l l xs (omega arith) nodes in
    let not_s = Apart-member l s xs rest sp in
    rw (insert-inserted p n s m next at_p.0 at_p.2 fresh.1.0.0) (ground arith)

-- `list_insert` behind the last of `xs`, the list itself if there is none, puts the node between
-- `xs` and `ys`.
pub insert-IsList :
    (xs ys : List ℕ) (m : Memory) (l n : ℕ)
    → IsList m l (xs ++ ys)
    → MayEnter n l (xs ++ ys)
    → IsList (insert (last l xs) n m) l (xs ++ n ∷ ys)
insert-IsList xs ys m l n is enter = go (ys ++ tail_of l ∷ []) refl
  where
    go :
        (rest : List ℕ)
        → ys ++ tail_of l ∷ [] ≡ rest
        → IsList (insert (last l xs) n m) l (xs ++ n ∷ ys)
    go [] e = absurd (append-ne-nil ys (tail_of l) e)
    go (s ∷ rest) e =
        let links = rw (append_assoc xs ys (tail_of l ∷ []), e) at is.links in
        let spaced = rw (append_assoc xs ys (tail_of l ∷ []), e) at is.spaced in
        let fresh = rw (append_assoc xs ys (tail_of l ∷ []), e) at enter.fresh in
        record {
          links =
              rw (append_assoc xs (n ∷ ys) (tail_of l ∷ []), e)
                (insert-Links xs rest m l s n links spaced fresh);
          null =
              insert-null xs rest m l s n is.null ((Links-append xs (s ∷ rest) m l).0 links).1.0
                spaced fresh enter.fresh.0.1 ((All-append (IsNode l) xs ys).0 is.nodes).0;
          spaced =
              rw (append_assoc xs (n ∷ ys) (tail_of l ∷ []), e)
                (Spaced-insert l n xs (s ∷ rest) spaced fresh);
          nodes = All-insert _ n xs ys (enter.not_null, enter.fresh.0.1, enter.fresh.0.0) is.nodes;
          here = is.here;
        }

-- `list_initialize` makes an empty list, whatever was in memory.
pub initialize-IsList : (l : ℕ) (m : Memory) → l ≢ 0 → IsList (initialize l m) l []
unfolding initialize
initialize-IsList l m h = record {
  links = (ground arith, ground arith, tt);
  null = ground arith;
  spaced = ((omega arith, tt), tt, tt);
  nodes = tt;
  here = h;
}

-- `list_add_head` puts the node first.
pub add_head-IsList :
    (xs : List ℕ) (m : Memory) (l n : ℕ)
    → IsList m l xs
    → MayEnter n l xs
    → IsList (add_head l n m) l (n ∷ xs)
unfolding add_head last
add_head-IsList xs m l n is enter = insert-IsList [] xs m l n is enter

pub Links-end :
    (xs : List ℕ) (m : Memory) (a t : ℕ) → Links m a (xs ++ t ∷ []) → m (t + 1) ≡ last a xs
unfolding last
Links-end [] m a t h = h.1
Links-end (x ∷ xs) m a t h = Links-end xs m x t h.2

-- `list_add_tail` puts the node last.
pub add_tail-IsList :
    (xs : List ℕ) (m : Memory) (l n : ℕ)
    → IsList m l xs
    → MayEnter n l xs
    → IsList (add_tail l n m) l (xs ++ n ∷ [])
unfolding add_tail
add_tail-IsList xs m l n is enter =
    rw (Links-end xs m l (tail_of l) is.links)
      (insert-IsList xs [] m l n (rw append-nil is) (rw append-nil enter))
