-- ===== src/LinkedList/Links.antt =====
-- Chains of nodes in memory: each node's `Succ` and the next one's `Pred` agree.
use ex_os.Base.{ℕ, ◌+◌, ◌≡◌, ◌≢◌, ◌↔◌, List, [], ◌∷◌, ◌++◌, arith}
use ex_os.LinkedList.{Memory, store, tail_of}

abbrev pub All {ℓ} : {A : Type ℓ} → (A → Type 0) → List A → Type 0
All P [] = Unit
All P (x ∷ xs) = P x × All P xs

pub All-append {ℓ} :
    {A : Type ℓ} (P : A → Type 0) (xs ys : List A) → All P (xs ++ ys) ↔ (All P xs × All P ys)
All-append P [] ys = (λ h. (tt, h), λ h. h.1)
All-append P (x ∷ xs) ys =
    let ih = All-append P xs ys in
    (λ h. ((h.0, (ih.0 h.1).0), (ih.0 h.1).1), λ h. (h.0.0, ih.1 (h.0.1, h.1)))

pub All-map {ℓ} :
    {A : Type ℓ} (P Q : A → Type 0) (xs : List A) → ((x : A) → P x → Q x) → All P xs → All Q xs
All-map P Q [] f h = tt
All-map P Q (x ∷ xs) f h = (f x h.0, All-map P Q xs f h.1)

-- From `a` the chain goes through `bs`.
abbrev pub Links : Memory → ℕ → List ℕ → Type 0
Links m a [] = Unit
Links m a (b ∷ bs) = (m a ≡ b) × (m (b + 1) ≡ a) × Links m b bs

-- The word `w` is none of those that the chain is made of.
abbrev pub Unused : ℕ → ℕ → List ℕ → Type 0
Unused w a [] = Unit
Unused w a (b ∷ bs) = (w ≢ a) × (w ≢ b + 1) × Unused w b bs

pub Links-store :
    (bs : List ℕ) (m : Memory) (a w v : ℕ) → Links m a bs → Unused w a bs → Links (store m w v) a bs
Links-store [] m a w v h u = tt
Links-store (b ∷ bs) m a w v h u = (ground arith, ground arith, Links-store bs m b w v h.2 u.2)

-- No two words of the nodes `a ∷ bs` that a chain uses are one.
abbrev pub Apart : ℕ → List ℕ → Type 0
Apart w bs = All (λ b. (w ≢ b) × (w ≢ b + 1)) bs

abbrev pub Spaced : ℕ → List ℕ → Type 0
Spaced a [] = Unit
Spaced a (b ∷ bs) = Apart a (b ∷ bs) × Apart (b + 1) bs × Spaced b bs

-- The node `n` shares no word with the nodes `bs`.
abbrev pub Fresh : ℕ → List ℕ → Type 0
Fresh n bs = All (λ b. (n ≢ b) × (n ≢ b + 1) × (n + 1 ≢ b)) bs

unfoldable pub last : ℕ → List ℕ → ℕ
last a [] = a
last a (b ∷ bs) = last b bs

pub Links-append :
    (xs ys : List ℕ) (m : Memory) (a : ℕ)
    → Links m a (xs ++ ys) ↔ (Links m a xs × Links m (last a xs) ys)
unfolding last
Links-append [] ys m a = (λ h. (tt, h), λ h. h.1)
Links-append (x ∷ xs) ys m a =
    let ih = Links-append xs ys m x in
    (λ h. ((h.0, h.1, (ih.0 h.2).0), (ih.0 h.2).1), λ h. (h.0.0, h.0.1, ih.1 (h.0.2, h.1)))

-- A node of a list at `l` is not NULL and not the list.
abbrev pub IsNode : ℕ → ℕ → Type 0
IsNode l x = (x ≢ 0) × (x ≢ l + 1) × (x ≢ l)

-- What a `list_t` at `l` with the nodes `xs` is.
pub record IsList (m : Memory) (l : ℕ) (xs : List ℕ) : Type 0 where
  pub links : Links m l (xs ++ tail_of l ∷ [])
  pub null : m (l + 1) ≡ 0
  pub spaced : Spaced l (xs ++ tail_of l ∷ [])
  pub nodes : All (IsNode l) xs
  pub here : l ≢ 0
