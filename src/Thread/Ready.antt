-- ===== src/Thread/Ready.antt =====
-- The ready list: what `list_remove` and `list_enqueue` do to the threads in it and to their order.
use ex_os.Base.{
  ℕ, ◌+◌, ◌≡◌, ◌≢◌, inl, inr, sym, ap, ◌∙◌, Bool, true, false, List, [], ◌∷◌, ◌++◌, arith, ◌==◌,
  if◌then◌else◌, Bool-cases,
}
use ex_os.Base.Int.{ℤ, ◌≤ℤ◌}
use ex_os.LinkedList.Links.{All}
use ex_os.LinkedList.Enqueue.{IsOrdered, front, back, front-append-back, placed-IsOrdered}
use ex_os.LinkedList.Loops.{has}
use ex_os.Thread.{is_ready, is_waiting, Kernel, placed, without, prio}

abbrev pub bit : Bool → ℕ
bit b = if b then 1 else 0

-- How many times a node stands in a list.
unfoldable pub occurs : ℕ → List ℕ → ℕ
occurs n [] = 0
occurs n (x ∷ xs) = bit (x == n) + occurs n xs

pub occurs-append : (n : ℕ) (xs ys : List ℕ) → occurs n (xs ++ ys) ≡ occurs n xs + occurs n ys
unfolding occurs
occurs-append n [] ys = omega arith
occurs-append n (x ∷ xs) ys = omega (arith, occurs-append n xs ys)

-- A member of a list is not a number that the list lacks.
pub occurs_cons :
    (x n : ℕ) (rest : List ℕ) → occurs n rest ≡ 0 → occurs x rest ≢ 0 → (x == n) ≡ false
occurs_cons x n rest apart o = elim (Bool-cases (x == n)) [
  | inl e ↦
      let same : n ≡ x = ground arith in absurd (o (ap (λ y. occurs y rest) (sym same) ∙ apart))
  | inr e ↦ e
]

pub occurs-without :
    (n t : ℕ) (xs : List ℕ) → occurs n (without t xs) ≡ (if t == n then 0 else occurs n xs)
unfolding occurs
occurs-without n t [] = ground arith
occurs-without n t (x ∷ xs) = ground (arith, occurs-without n t xs)

pub occurs-placed :
    (p : ℕ → ℤ) (n t : ℕ) (xs : List ℕ) → occurs n (placed p t xs) ≡ bit (t == n) + occurs n xs
unfolding placed occurs
occurs-placed p n t xs =
    let whole = ap (occurs n) (front-append-back p t xs) in
    let split = occurs-append n (front p t xs) (back p t xs) in
    let split' = occurs-append n (front p t xs) (t ∷ back p t xs) in
    rw split' (omega (arith, whole, split))

pub has-occurs : (n : ℕ) (xs : List ℕ) → occurs n xs ≢ 0 → has n xs ≡ true
unfolding has occurs
has-occurs n [] h = ground arith
has-occurs n (x ∷ xs) h = ground (arith, has-occurs n xs)

pub without-All : (P : ℕ → Type 0) (t : ℕ) (xs : List ℕ) → All P xs → All P (without t xs)
without-All P t [] h = tt
without-All P t (x ∷ xs) h = elim (Bool-cases (x == t)) [
  | inl e ↦ rw e (without-All P t xs h.1)
  | inr e ↦ rw e (h.0, without-All P t xs h.1)
]

pub without-IsOrdered :
    (p : ℕ → ℤ) (t : ℕ) (xs : List ℕ) → IsOrdered p xs → IsOrdered p (without t xs)
without-IsOrdered p t [] o = tt
without-IsOrdered p t (x ∷ xs) o = elim (Bool-cases (x == t)) [
  | inl e ↦ rw e (without-IsOrdered p t xs o.1)
  | inr e ↦ rw e (without-All (λ y. p y ≤ℤ p x) t xs o.0, without-IsOrdered p t xs o.1)
]

lower_of_same :
    (p q : ℕ → ℤ) (x : ℕ) (xs : List ℕ)
    → ((n : ℕ) → occurs n xs ≢ 0 → p n ≡ q n)
    → p x ≡ q x
    → All (λ y. p y ≤ℤ p x) xs
    → All (λ y. q y ≤ℤ q x) xs
unfolding occurs
lower_of_same p q x [] same e h = tt
lower_of_same p q x (y ∷ ys) same e h =
    let here : p y ≡ q y = same y (ground arith) in
    (rw (here, e) at h.0, lower_of_same p q x ys (λ n m. same n (omega arith)) e h.1)

-- The order depends on the priorities of the threads in the list only.
pub order_of_same :
    (p q : ℕ → ℤ) (xs : List ℕ)
    → ((n : ℕ) → occurs n xs ≢ 0 → p n ≡ q n)
    → IsOrdered p xs
    → IsOrdered q xs
unfolding occurs
order_of_same p q [] same o = tt
order_of_same p q (x ∷ xs) same o =
    let tail_same : (n : ℕ) → occurs n xs ≢ 0 → p n ≡ q n = λ n m. same n (omega arith) in
    (
      lower_of_same p q x xs tail_same (same x (ground arith)) o.0,
      order_of_same p q xs tail_same o.1,
    )

pub IsOrdered-placed :
    (p : ℕ → ℤ) (t : ℕ) (xs : List ℕ) → IsOrdered p xs → IsOrdered p (placed p t xs)
unfolding placed
IsOrdered-placed p t xs o = placed-IsOrdered p t xs o

-- Every thread is in the list that its state says, once; the ready list is in order; a thread
-- that waits does so for something.
pub record IsScheduled (k : Kernel) : Type 0 where
  pub ordered : IsOrdered (prio k) k.ready
  pub in_ready : (t : ℕ) → occurs t k.ready ≡ bit (is_ready (k.threads t).state)
  pub in_wait : (t : ℕ) → occurs t k.wait ≡ bit (is_waiting (k.threads t).state)
  pub waits : (t : ℕ) → is_waiting (k.threads t).state ≡ true → (k.threads t).mask_wait ≢ 0
