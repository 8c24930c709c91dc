-- ===== src/Memory/FreeList.antt =====
-- The free list while its nodes are moved.
use ex_os.Base.{
  ℕ, ◌+◌, ◌≤◌, ◌≡◌, ◌≢◌, inl, inr, refl, false, Option, none, some, List, [], ◌∷◌, arith, ◌==◌,
  Bool-cases, Option-cases,
}
use ex_os.Thread.{without}
use ex_os.Thread.Ready.{occurs, occurs-without, bit}
use ex_os.Memory.{pred_in, insert_after}
use ex_os.Memory.Blocks.{Block, free_contents, occurs_outside}

pub occurs-free_contents-le : (a x : ℕ) (bs : List Block) → occurs x (free_contents a bs) ≤ 1
unfolding occurs free_contents
occurs-free_contents-le a x [] = omega arith
occurs-free_contents-le a x (b ∷ bs) =
    let rest = occurs-free_contents-le (a + 12 + b.size) x bs in
    let outside : x ≡ a + 8 → occurs x (free_contents (a + 12 + b.size) bs) ≡ 0 =
      λ e. occurs_outside (a + 12 + b.size) x bs (inl (omega arith)) in
    grind (arith, rest, outside)

-- The node that an insertion goes behind is still in the list.
abbrev pub StillThere : Option ℕ → List ℕ → Type 0
StillThere none cs = Unit
StillThere (some p) cs = occurs p cs ≢ 0

pub occurs-insert_after :
    (p : Option ℕ) (new x : ℕ) (cs : List ℕ)
    → ((y : ℕ) → occurs y cs ≤ 1)
    → StillThere p cs
    → occurs x (insert_after p new cs) ≡ bit (new == x) + occurs x cs
unfolding occurs insert_after
occurs-insert_after none new x cs le h = refl
occurs-insert_after (some p) new x [] le h = absurd (h refl)
occurs-insert_after (some p) new x (c ∷ cs) le h = elim (Bool-cases (c == p)) [
  | inl e ↦ rw e (omega arith)
  | inr e ↦
      let more : occurs p cs ≢ 0 = ground arith in
      rw e (omega (arith, occurs-insert_after (some p) new x cs (λ y. omega (arith, le y)) more))
]

pred_in_found :
    (x p : ℕ) (cs : List ℕ) → occurs x cs ≤ 1 → pred_in x cs ≡ some p → (occurs p cs ≢ 0) × (p ≢ x)
unfolding occurs pred_in
pred_in_found x p [] le found = ground arith
pred_in_found x p (c ∷ []) le found = ground arith
pred_in_found x p (c ∷ d ∷ ds) le found =
    let rest : (d == x) ≡ false → (occurs p (d ∷ ds) ≢ 0) × (p ≢ x) =
      λ e. pred_in_found x p (d ∷ ds) (omega (arith, le)) (rw e at found) in
    elim (Bool-cases (d == x)) [
      | inl e ↦
          let same : c ≡ p = (let f = rw e at found in grind (arith, f)) in
          (ground (arith, same), ground (arith, same))
      | inr e ↦ (λ z. (rest e).0 (omega (arith, z)), (rest e).1)
    ]

-- The node before `x` is still in the list without `x`.
pub pred_in_there :
    (x : ℕ) (cs : List ℕ) → occurs x cs ≤ 1 → StillThere (pred_in x cs) (without x cs)
pred_in_there x cs le = elim (Option-cases (pred_in x cs)) [
  | inl none_found ↦ rw none_found tt
  | inr (p, found) ↦
      let (there, ne) = pred_in_found x p cs le found in
      rw found (λ z. there (ground (arith, occurs-without p x cs)))
]
