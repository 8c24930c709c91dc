-- ===== src/LinkedList/Enqueue.antt =====
-- `list_enqueue`: a priority queue, first in first out among equal priorities.
use ex_os.Base.{
  ℕ, zero, suc, ◌+◌, ◌<◌, ◌≡◌, refl, inl, inr, ap, true, false, some, List, [], ◌∷◌, ◌++◌, arith,
  ◌==◌, if◌then◌else◌, Bool-cases, length,
}
use ex_os.Base.Int.{ℤ, ltb_ℤ, ◌≤ℤ◌}
use ex_os.LinkedList.{Memory, tail_of, find_pred, enqueue, insert}
use ex_os.LinkedList.Links.{All, All-map, Links, last, IsNode, IsList}
use ex_os.LinkedList.Insert.{MayEnter, insert-IsList, Links-end, All-insert}

-- In order: no node has a lower priority than a node behind it.
abbrev pub IsOrdered : (ℕ → ℤ) → List ℕ → Type 0
IsOrdered prio [] = Unit
IsOrdered prio (x ∷ xs) = All (λ y. prio y ≤ℤ prio x) xs × IsOrdered prio xs

module _ (prio : ℕ → ℤ) (node : ℕ) where
  -- The nodes in front of the first one of lower priority, and the rest.
  unfoldable pub front : List ℕ → List ℕ
  front [] = []
  front (x ∷ xs) = if ltb_ℤ (prio x) (prio node) then [] else x ∷ front xs

  unfoldable pub back : List ℕ → List ℕ
  back [] = []
  back (x ∷ xs) = if ltb_ℤ (prio x) (prio node) then x ∷ xs else back xs

  pub front-append-back : (xs : List ℕ) → front xs ++ back xs ≡ xs
  unfolding front back
  front-append-back [] = refl
  front-append-back (x ∷ xs) = elim (Bool-cases (ltb_ℤ (prio x) (prio node))) [
    | inl low ↦ rw low
    | inr high ↦ rw high (ap (λ l. x ∷ l) (front-append-back xs))
  ]

  find_pred-front :
      (xs : List ℕ) (fuel l a : ℕ) (m : Memory)
      → Links m a (xs ++ tail_of l ∷ [])
      → All (IsNode l) xs
      → length xs < fuel
      → m (l + 1 + 1) ≡ last a xs
      → find_pred prio fuel l node m (m a) ≡ some (last a (front xs))
  unfolding find_pred front last
  find_pred-front xs zero l a m h n lt e = absurd (omega arith)
  find_pred-front [] (suc fuel) l a m h n lt e = rw h.0 (ground (arith, e))
  find_pred-front (x ∷ xs) (suc fuel) l a m h n lt e =
      let inner : (x == tail_of l) ≡ false = ground (arith, n.0) in
      rw h.0 (
        rw inner (elim (Bool-cases (ltb_ℤ (prio x) (prio node))) [
          | inl low ↦ rw low (ap some h.1)
          | inr high ↦ rw high (find_pred-front xs fuel l x m h.2 n.1 (omega arith) e)
        ]))

  -- With more rounds than nodes, `list_enqueue` puts the node behind all that come before the first
  -- one of lower priority.
  pub enqueue-IsList :
      (xs : List ℕ) (fuel l : ℕ) (m : Memory)
      → IsList m l xs
      → MayEnter node l xs
      → length xs < fuel
      → (m' : Memory) × (enqueue prio fuel l node m ≡ some m')
        × IsList m' l (front xs ++ node ∷ back xs)
  unfolding enqueue
  enqueue-IsList xs fuel l m is enter lt =
      let at =
        find_pred-front xs fuel l l m is.links is.nodes lt
          (Links-end xs m l (tail_of l) is.links) in
      let same = front-append-back xs in
      (
        insert (last l (front xs)) node m,
        rw (at, enqueue),
        insert-IsList (front xs) (back xs) m l node (rw same is) (rw same enter),
      )

  back-lower :
      (xs : List ℕ) → IsOrdered prio xs → All (λ y. ltb_ℤ (prio y) (prio node) ≡ true) (back xs)
  unfolding back
  back-lower [] o = tt
  back-lower (x ∷ xs) o = elim (Bool-cases (ltb_ℤ (prio x) (prio node))) [
    | inl low ↦ rw low (low, All-map (λ y. prio y ≤ℤ prio x) _ xs (λ y h. ground arith) o.0)
    | inr high ↦ rw high (back-lower xs o.1)
  ]

  front_high : (xs : List ℕ) → All (λ y. prio node ≤ℤ prio y) (front xs)
  unfolding front
  front_high [] = tt
  front_high (x ∷ xs) = elim (Bool-cases (ltb_ℤ (prio x) (prio node))) [
    | inl low ↦ rw low tt
    | inr high ↦ rw high (ground arith, front_high xs)
  ]

  pub placed-IsOrdered :
      (xs : List ℕ) → IsOrdered prio xs → IsOrdered prio (front xs ++ node ∷ back xs)
  unfolding front back
  placed-IsOrdered [] o = (tt, tt)
  placed-IsOrdered (x ∷ xs) o = elim (Bool-cases (ltb_ℤ (prio x) (prio node))) [
    | inl low ↦
        rw low ((ground arith, All-map (λ y. prio y ≤ℤ prio x) _ xs (λ y h. ground arith) o.0), o)
    | inr high ↦ rw high (
      All-insert (λ y. prio y ≤ℤ prio x) node (front xs) (back xs) (ground arith)
          (rw (front-append-back xs) o.0),
      placed-IsOrdered xs o.1,
    )
  ]

  -- In an ordered list `list_enqueue` keeps the order: the nodes before the new one have its
  -- priority or a higher one, those behind it a lower one, so equals stay first in, first out.
  pub enqueue-IsOrdered :
      (xs : List ℕ) (fuel l : ℕ) (m : Memory)
      → IsList m l xs
      → IsOrdered prio xs
      → MayEnter node l xs
      → length xs < fuel
      → (m' : Memory) × (before : List ℕ) × (behind : List ℕ) × (enqueue prio fuel l node m
          ≡ some m')
        × IsList m' l (before ++ node ∷ behind)
        × (before ++ behind ≡ xs)
        × IsOrdered prio (before ++ node ∷ behind)
        × All (λ y. prio node ≤ℤ prio y) before
        × All (λ y. ltb_ℤ (prio y) (prio node) ≡ true) behind
  enqueue-IsOrdered xs fuel l m is o enter lt =
      let (m', e, is') = enqueue-IsList xs fuel l m is enter lt in
      (
        m',
        front xs,
        back xs,
        e,
        is',
        front-append-back xs,
        placed-IsOrdered xs o,
        front_high xs,
        back-lower xs o,
      )
