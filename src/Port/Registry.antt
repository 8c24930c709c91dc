-- ===== src/Port/Registry.antt =====
-- No two ports of the list have the same name.
use ex_os.Base.{
  ℕ, ◌+◌, ◌≤◌, ◌≡◌, ◌≢◌, ◌∙◌, ◌⊎◌, inl, inr, refl, sym, ap, true, false, none, some, List, [], ◌∷◌,
  ◌++◌, arith, ◌==◌, Bool-cases, Option-cases,
}
use ex_os.Base.Int.{ℤ, pos, negsuc}
use ex_os.Thread.{write_at}
use ex_os.Thread.Ready.{occurs_cons, occurs, occurs-append, bit}
use ex_os.Text.{str_comp}
use ex_os.Text.Compare.{IsString, str_comp-eq}
use ex_os.Port.{Ports, is_zero, is_same, find_port, with_fifo, created, create}

is_zero_pos : (z : ℤ) → is_zero z ≡ true → z ≡ pos 0
is_zero_pos (pos n) e = let nothing : n ≡ 0 = ground arith in ap pos nothing
is_zero_pos (negsuc n) e = absurd (ground arith)

is_same-eq : (a b : List ℕ) → IsString a → IsString b → is_same a b ≡ true → a ≡ b
is_same-eq a b p q e = (str_comp-eq a b p q).0 (is_zero_pos (str_comp a b) e)

is_same_self : (a : List ℕ) → IsString a → is_same a a ≡ true
is_same_self a p = ap is_zero ((str_comp-eq a a p p).1 refl)

find_port-some :
    (names : ℕ → List ℕ) (name : List ℕ) (ps : List ℕ) (p : ℕ)
    → find_port names name ps ≡ some p
    → (occurs p ps ≢ 0) × (is_same name (names p) ≡ true)
unfolding find_port occurs
find_port-some names name [] p e = ground arith
find_port-some names name (q ∷ qs) p e = elim (Bool-cases (is_same name (names q))) [
  | inl same ↦
      let here : q ≡ p = (let f = rw same at e in grind (arith, f)) in
      (ground (arith, here), ap (λ x. is_same name (names x)) (sym here) ∙ same)
  | inr other ↦
      let (there, same) = find_port-some names name qs p (rw other at e) in
      ((λ z. there (omega (arith, z))), same)
]

find_port-none :
    (names : ℕ → List ℕ) (name : List ℕ) (ps : List ℕ) (p : ℕ)
    → find_port names name ps ≡ none
    → occurs p ps ≢ 0
    → is_same name (names p) ≡ false
unfolding find_port occurs
find_port-none names name [] p e o = absurd (o refl)
find_port-none names name (q ∷ qs) p e o = elim (Bool-cases (is_same name (names q))) [
  | inl same ↦ absurd (let f = rw same at e in grind (arith, f))
  | inr other ↦ elim (Bool-cases (q == p)) [
    | inl e' ↦
        let here : q ≡ p = ground arith in ap (λ x. is_same name (names x)) (sym here) ∙ other
    | inr e' ↦ find_port-none names name qs p (rw other at e) (λ z. o (ground (arith, z)))
  ]
]

-- The new port is found behind ports of other names.
find_port_new :
    (names us : ℕ → List ℕ) (name : List ℕ) (ps : List ℕ) (p : ℕ)
    → ((x : ℕ) → occurs x ps ≢ 0 → us x ≡ names x)
    → is_same name (us p) ≡ true
    → find_port names name ps ≡ none
    → find_port us name (ps ++ (p ∷ [])) ≡ some p
unfolding find_port occurs
find_port_new names us name [] p agree same e = rw same refl
find_port_new names us name (q ∷ qs) p agree same e =
    let here : us q ≡ names q = agree q (ground arith) in
    let other : is_same name (names q) ≡ false =
      find_port-none names name (q ∷ qs) q e (ground arith) in
    rw (here, other)
      (find_port_new names us name qs p (λ x o. agree x (λ z. o (omega (arith, z)))) same
        (rw other at e))

-- The list of ports: no port is there twice, and no two have the same name.
pub record IsRegistry (names : ℕ → List ℕ) (ps : List ℕ) : Type 0 where
  pub once : (x : ℕ) → occurs x ps ≤ 1
  pub strings : (x : ℕ) → occurs x ps ≢ 0 → IsString (names x)
  pub unique : (x y : ℕ) → occurs x ps ≢ 0 → occurs y ps ≢ 0 → names x ≡ names y → x ≡ y

-- Other names of ports that are not in the list do not matter.
IsRegistry-agree :
    (names us : ℕ → List ℕ) (ps : List ℕ)
    → ((x : ℕ) → occurs x ps ≢ 0 → us x ≡ names x)
    → IsRegistry names ps
    → IsRegistry us ps
IsRegistry-agree names us ps agree is = record {
  once = is.once;
  strings = λ x o. rw (agree x o) (is.strings x o);
  unique = λ x y o o' e. is.unique x y o o' (sym (agree x o) ∙ e ∙ agree y o');
}

-- A port of a new name is added.
IsRegistry-append :
    (names : ℕ → List ℕ) (ps : List ℕ) (p : ℕ)
    → IsRegistry names ps
    → IsString (names p)
    → occurs p ps ≡ 0
    → ((x : ℕ) → occurs x ps ≢ 0 → names p ≢ names x)
    → IsRegistry names (ps ++ (p ∷ []))
unfolding occurs
IsRegistry-append names ps p is string apart new =
    let parts : (x : ℕ) → occurs x (ps ++ (p ∷ [])) ≡ occurs x ps + bit (p == x) =
      λ x. omega (arith, occurs-append x ps (p ∷ [])) in
    let old : (x : ℕ) → (p == x) ≡ false → occurs x (ps ++ (p ∷ [])) ≢ 0 → occurs x ps ≢ 0 =
      λ x e o z. o (parts x ∙ rw (z, e) refl) in
    let itself : (x : ℕ) → (p == x) ≡ true → p ≡ x = λ x e. ground arith in
    record {
      once = λ x. elim (Bool-cases (p == x)) [
        | inl e ↦
            let none_else : occurs x ps ≡ 0 = ap (λ y. occurs y ps) (sym (itself x e)) ∙ apart in
            ground (arith, parts x, none_else)
        | inr e ↦ ground (arith, parts x, is.once x)
      ];
      strings = λ x o. elim (Bool-cases (p == x)) [
        | inl e ↦ rw (sym (itself x e)) string
        | inr e ↦ is.strings x (old x e o)
      ];
      unique = λ x y o o' same. elim (Bool-cases (p == x)) [
        | inl e ↦ elim (Bool-cases (p == y)) [
          | inl e' ↦ sym (itself x e) ∙ itself y e'
          | inr e' ↦ absurd (new y (old y e' o') (ap names (itself x e) ∙ same))
        ]
        | inr e ↦ elim (Bool-cases (p == y)) [
          | inl e' ↦ absurd (new x (old x e o) (ap names (itself y e') ∙ sym same))
          | inr e' ↦ is.unique x y (old x e o) (old y e' o') same
        ]
      ];
    }

-- `exos_port_create` of a new port with a name keeps the names of the ports in the list different.
-- Either it is done, and the name finds the port; or it is not, the list is as it was, and another
-- port in the list has the name.
pub create-IsRegistry :
    (w : Ports) (p : ℕ) (name : List ℕ)
    → IsRegistry w.names w.port_list
    → IsString name
    → occurs p w.port_list ≡ 0
    → (w' : Ports) × IsRegistry w'.names w'.port_list
      × (((create w p name ≡ (true, w')) × (find_port w'.names name w'.port_list ≡ some p))
          ⊎ ((create w p name ≡ (false, w'))
              × (w'.port_list ≡ w.port_list)
              × (other : ℕ) × (occurs other w.port_list ≢ 0)
              × (w.names other ≡ name)))
unfolding create
create-IsRegistry w p name is string apart =
    let names = write_at w.names p name in
    let agree : (x : ℕ) → occurs x w.port_list ≢ 0 → names x ≡ w.names x =
      λ x o. rw (occurs_cons x p w.port_list apart o) refl in
    let w1 = record (with_fifo w p) { names = names } in
    let self : (p == p) ≡ true = ground arith in
    let mine : names p ≡ name = rw self refl in
    let is' = IsRegistry-agree w.names names w.port_list agree is in
    let new_name : find_port names name w.port_list ≡ none
        → (x : ℕ) → occurs x w.port_list ≢ 0
        → names p ≢ names x =
      λ free x o e.
        let other = find_port-none names name w.port_list x free o in
        let itself : is_same name (names x) ≡ true =
          ap (is_same name) (sym e ∙ mine) ∙ is_same_self name string in
        ground (arith, other, itself) in
    elim (Option-cases (find_port names name w.port_list)) [
      | inl free ↦ (
        record w1 { port_list = w.port_list ++ (p ∷ []) },
        IsRegistry-append names w.port_list p is' (rw mine string) apart (new_name free),
        inl (
          ap (created w1 p) free,
          find_port_new names names name w.port_list p (λ x o. refl)
              (rw mine (is_same_self name string)) free,
        ),
      )
      | inr (other, taken) ↦
          let (there, same) = find_port-some names name w.port_list other taken in
          let equal = is_same-eq name (names other) string (is'.strings other there) same in
          (
            w1,
            is',
            inr (ap (created w1 p) taken, refl, other, there, sym (agree other there) ∙ sym equal),
          )
    ]
