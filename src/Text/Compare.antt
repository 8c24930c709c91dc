-- ===== src/Text/Compare.antt =====
-- `__str_comp` tells whether two strings are the same.
use ex_os.Base.{
  ℕ, ◌≡◌, ◌≢◌, ◌↔◌, refl, sym, ◌∙◌, ap, ap₂, inl, inr, List, [], ◌∷◌, arith, ◌==◌, Bool-cases,
}
use ex_os.Base.Int.{pos}
use ex_os.LinkedList.Links.{All}
use ex_os.Text.{str_comp}

abbrev pub IsString : List ℕ → Type 0
IsString = All (λ c. c ≢ 0)

str_comp_self : (xs : List ℕ) → str_comp xs xs ≡ pos 0
unfolding str_comp
str_comp_self [] = refl
str_comp_self (x ∷ xs) = ground (arith, str_comp_self xs)

str_comp_same : (xs ys : List ℕ) → IsString xs → IsString ys → str_comp xs ys ≡ pos 0 → xs ≡ ys
unfolding str_comp
str_comp_same [] [] p q e = refl
str_comp_same [] (y ∷ ys) p q e = absurd (ground (arith, q.0))
str_comp_same (x ∷ xs) [] p q e = absurd (ground (arith, p.0))
str_comp_same (x ∷ xs) (y ∷ ys) p q e = elim (Bool-cases (x == y)) [
  | inl h ↦
      let same : x ≡ y = ground arith in
      ap₂ (λ z zs. z ∷ zs) same (str_comp_same xs ys p.1 q.1 (ground (arith, p.0)))
  | inr h ↦ absurd (ground arith)
]

-- `__str_comp` of two strings is 0 exactly if they are the same.
pub str_comp-eq :
    (xs ys : List ℕ) → IsString xs → IsString ys → (str_comp xs ys ≡ pos 0) ↔ (xs ≡ ys)
str_comp-eq xs ys p q = (str_comp_same xs ys p q, λ e. ap (str_comp xs) (sym e) ∙ str_comp_self xs)
