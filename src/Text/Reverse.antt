-- ===== src/Text/Reverse.antt =====
-- `_reverse_str` reverses.
use ex_os.Base.{
  ℕ, zero, suc, ◌+◌, ◌-◌, ◌≤◌, ◌≡◌, refl, sym, ap, List, [], ◌∷◌, ◌++◌, append_assoc, append-nil,
  arith, true, false, ltb, length, length-append, set, get_or,
}
use ex_os.Text.{reverse_loop, reverse_str}

abbrev pub reverse : List ℕ → List ℕ
reverse [] = []
reverse (x ∷ xs) = reverse xs ++ x ∷ []

-- A list is empty, one element, or two ends with a list between.
pub data Ends : List ℕ → Type 0 where
  none_there : Ends []
  one_there : (x : ℕ) → Ends (x ∷ [])
  two_there : (x y : ℕ) (mid : List ℕ) → Ends (x ∷ mid ++ y ∷ [])

ends : (xs : List ℕ) → Ends xs
ends [] = none_there
ends (x ∷ []) = one_there x
ends (x ∷ y ∷ ys) = elim (ends (y ∷ ys)) as (λ l e. Ends (x ∷ l)) [
  | none_there ↦ one_there x
  | one_there y ↦ two_there x y []
  | two_there y z mid ↦ two_there x z (y ∷ mid)
]

pub reverse-append : (xs ys : List ℕ) → reverse (xs ++ ys) ≡ reverse ys ++ reverse xs
reverse-append [] ys = sym (append-nil (reverse ys))
reverse-append (x ∷ xs) ys =
    rw (reverse-append xs ys) (append_assoc (reverse ys) (reverse xs) (x ∷ []))

get_or-append : (xs ys : List ℕ) (x : ℕ) → get_or (xs ++ x ∷ ys) (length xs) 0 ≡ x
get_or-append [] ys x = refl
get_or-append (z ∷ xs) ys x = get_or-append xs ys x

set-append : (xs ys : List ℕ) (x y : ℕ) → set (xs ++ x ∷ ys) (length xs) y ≡ xs ++ y ∷ ys
set-append [] ys x y = refl
set-append (z ∷ xs) ys x y = ap (λ l. z ∷ l) (set-append xs ys x y)

-- Both ends of a piece of a list, exchanged.
swapped :
    (a mid b : List ℕ) (x y : ℕ)
    → let s = a ++ (x ∷ (mid ++ y ∷ b)) in
      let p = length a in
      let q = length (a ++ x ∷ mid) in
      set (set s p (get_or s q 0)) q (get_or s p 0) ≡ a ++ (y ∷ (mid ++ x ∷ b))
swapped a mid b x y =
    let s = a ++ (x ∷ (mid ++ y ∷ b)) in
    let last : get_or s (length (a ++ x ∷ mid)) 0 ≡ y =
      rw (append_assoc a (x ∷ mid) (y ∷ b)) at (get_or-append (a ++ x ∷ mid) b y) in
    let same : length (a ++ x ∷ mid) ≡ length (a ++ y ∷ mid) =
      omega (arith, length-append a (x ∷ mid), length-append a (y ∷ mid)) in
    let written : set (a ++ (y ∷ (mid ++ y ∷ b))) (length (a ++ y ∷ mid)) x
        ≡ a ++ (y ∷ (mid ++ x ∷ b)) =
      rw (append_assoc a (y ∷ mid) (y ∷ b), append_assoc a (y ∷ mid) (x ∷ b)) at
        (set-append (a ++ y ∷ mid) b y x) in
    rw (last, get_or-append a (mid ++ y ∷ b) x, set-append a (mid ++ y ∷ b) x y, same) written

reverse_loop_lem :
    (fuel : ℕ) (a mid b : List ℕ) (p q : ℕ)
    → length mid ≤ fuel
    → p ≡ length a
    → q ≡ length a + length mid - 1
    → reverse_loop fuel (a ++ (mid ++ b)) p q ≡ a ++ (reverse mid ++ b)
unfolding reverse_loop
reverse_loop_lem zero a [] b p q le e f = refl
reverse_loop_lem zero a (x ∷ mid) b p q le e f = absurd (omega arith)
reverse_loop_lem (suc fuel) a mid b p q le e f =
    elim (ends mid)
        as (λ l w.
          length l ≤ suc fuel
          → q ≡ length a + length l - 1
          → reverse_loop (suc fuel) (a ++ (l ++ b)) p q ≡ a ++ (reverse l ++ b)) [
            | none_there ↦ λ le f. let stop : ltb p q ≡ false = ground (arith, e, f) in rw stop refl
            | one_there x ↦
                λ le f. let stop : ltb p q ≡ false = ground (arith, e, f) in rw stop refl
            | two_there x y mid ↦ λ le f.
                let inner = append_assoc mid (y ∷ []) b in
                let size = length-append mid (y ∷ []) in
                let at_q : q ≡ length (a ++ x ∷ mid) =
                  omega (arith, f, size, length-append a (x ∷ mid)) in
                let more : ltb p q ≡ true = ground (arith, e, f, size) in
                let ih =
                  reverse_loop_lem fuel (a ++ y ∷ []) mid (x ∷ b) (p + 1) (q - 1)
                    (omega (arith, le, size)) (omega (arith, e, length-append a (y ∷ [])))
                    (omega (arith, f, size, length-append a (y ∷ []))) in
                let ih' =
                  rw
                    (
                      append_assoc a (y ∷ []) (mid ++ x ∷ b),
                      append_assoc a (y ∷ []) (reverse mid ++ x ∷ b),
                    )
                    at ih in
                let ends_now : reverse (mid ++ y ∷ []) ≡ y ∷ reverse mid =
                  reverse-append mid (y ∷ []) in
                let step = rw (← e, ← at_q) at (swapped a mid b x y) in
                rw (more, inner, ends_now, append_assoc (reverse mid) (x ∷ []) b) (rw step ih')
          ]
      le f

-- `_reverse_str` of a string gives the same bytes in the opposite order.
pub reverse_str-reverse : (str : List ℕ) → reverse_str str ≡ reverse str
unfolding reverse_str
reverse_str-reverse str =
    let run =
      reverse_loop_lem (length str) [] str [] 0 (length str - 1) (omega arith) refl (omega arith) in
    rw (append-nil str, append-nil (reverse str)) at run
