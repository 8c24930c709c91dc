-- ===== src/Text/Copy.antt =====
-- `__mem_copy` and `__mem_set`.
use ex_os.Base.{
  ℕ, zero, suc, ◌+◌, ◌-◌, ◌≤◌, ◌≡◌, ◌≢◌, ◌∙◌, refl, inl, inr, ◌⊎◌, Bool, true, false, arith, ltb,
  leb, ◌==◌, ◌&&◌, ◌||◌, some, if◌then◌else◌, Bool-cases,
}
use ex_os.Text.{Memory, store, copy_loop, mem_copy, set_loop, mem_set}

-- Whether `a` is one of the `n` addresses from `start` on.
abbrev pub within : ℕ → ℕ → ℕ → Bool
within a start n = leb start a && ltb a (start + n)

copied :
    (n start source : ℕ) (m : Memory) (a : ℕ)
    → (source + suc n ≤ start) ⊎ (start ≤ source)
    → (if within a (start + 1) n
        then store m start (m source) (source + 1 + (a - (start + 1)))
        else store m start (m source) a)
      ≡ (if within a start (suc n) then m (source + (a - start)) else m a)
copied n start source m a apart = elim (Bool-cases (within a (start + 1) n)) [
  | inl e ↦
      let here : within a start (suc n) ≡ true = ground arith in
      let place : source + 1 + (a - (start + 1)) ≡ source + (a - start) = ground arith in
      let other : (source + (a - start) == start) ≡ false = ground arith in
      rw (e, here, place, other) refl
  | inr e ↦ elim (Bool-cases (a == start)) [
    | inl same ↦
        let here : within a start (suc n) ≡ true = ground arith in
        let place : source + (a - start) ≡ source = ground arith in rw (e, same, here, place) refl
    | inr other ↦
        let gone : within a start (suc n) ≡ false = ground arith in rw (e, other, gone) refl
  ]
]

copy_loop_lem :
    (n start source : ℕ) (m : Memory) (a : ℕ)
    → (source + n ≤ start) ⊎ (start ≤ source)
    → copy_loop n start source m a ≡ (if within a start n then m (source + (a - start)) else m a)
unfolding copy_loop
copy_loop_lem zero start source m a apart = ground arith
copy_loop_lem (suc n) start source m a apart =
    copy_loop_lem n (start + 1) (source + 1) (store m start (m source)) a (ground arith)
    ∙ copied n start source m a apart

copy_same :
    (n start source : ℕ) (m : Memory) (a : ℕ)
    → (source == start) ≡ true
    → m a ≡ (if within a start n then m (source + (a - start)) else m a)
copy_same n start source m a e =
    let same : source ≡ start = ground arith in
    elim (Bool-cases (within a start n)) [
      | inl w ↦ let place : source + (a - start) ≡ a = ground arith in rw (w, place) refl
      | inr w ↦ rw w refl
    ]

-- `__mem_copy` gives each of the `n` bytes its source's value and leaves the others, if no address is
-- NULL and the source does not begin within the `n` bytes before the target.
pub mem_copy_lem :
    (n start source : ℕ) (m : Memory)
    → start ≢ 0
    → source ≢ 0
    → (source + n ≤ start) ⊎ (start ≤ source)
    → (m' : Memory) × (mem_copy n start source m ≡ some m')
      × ((a : ℕ) → m' a ≡ (if within a start n then m (source + (a - start)) else m a))
unfolding mem_copy
mem_copy_lem n start source m here there apart =
    let no_null : ((start == 0) || (source == 0)) ≡ false = ground arith in
    elim (Bool-cases (source == start)) [
      | inl e ↦ (m, rw (no_null, e) refl, λ a. copy_same n start source m a e)
      | inr e ↦ (
        copy_loop n start source m,
        rw (no_null, e) refl,
        λ a. copy_loop_lem n start source m a apart,
      )
    ]

set_loop_lem :
    (n start stuff : ℕ) (m : Memory) (a : ℕ)
    → set_loop n start stuff m a ≡ (if within a start n then stuff else m a)
unfolding set_loop
set_loop_lem zero start stuff m a = ground arith
set_loop_lem (suc n) start stuff m a =
    set_loop_lem n (start + 1) stuff (store m start stuff) a ∙ ground arith

-- `__mem_set` gives each of the `n` bytes the value and leaves the others, if the address is not NULL.
pub mem_set_lem :
    (n start stuff : ℕ) (m : Memory)
    → start ≢ 0
    → (m' : Memory) × (mem_set n start stuff m ≡ some m')
      × ((a : ℕ) → m' a ≡ (if within a start n then stuff else m a))
unfolding mem_set
mem_set_lem n start stuff m here =
    let no_null : (start == 0) ≡ false = ground arith in
    (set_loop n start stuff m, rw no_null refl, λ a. set_loop_lem n start stuff m a)
