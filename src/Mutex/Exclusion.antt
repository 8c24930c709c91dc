-- ===== src/Mutex/Exclusion.antt =====
-- Mutual exclusion, over every sequence of locks and unlocks by any threads.
use ex_os.Base.{
  ℕ, ◌+◌, ◌-◌, ◌%◌, ◌^◌, ◌≤◌, ◌≡◌, ◌≢◌, ◌⊎◌, refl, inl, inr, none, some, arith, ◌==◌, if◌then◌else◌,
  Option-cases,
}
use ex_os.Thread.{Kernel, resume_all, write_at}
use ex_os.Mutex.{Mutex, create, is_owner, mutex_cond, unlock}

-- The states of a mutex `q`, with how many of its locks each thread has not yet undone.
pub data Reaches (q : ℕ) : Mutex → (ℕ → ℕ) → Type 0 where
  created : Reaches q create (λ u. 0)
  locked :
      {m m' : Mutex} {held : ℕ → ℕ} (k k' : Kernel)
      → Reaches q m held
      → mutex_cond q k m ≡ some (none, m', k')
      → Reaches q m' (write_at held k.running (held k.running + 1))
  unlocked :
      {m m' : Mutex} {held : ℕ → ℕ} (k k' : Kernel)
      → Reaches q m held
      → unlock q k m ≡ some (m', k')
      → Reaches q m' (write_at held k.running (held k.running - 1))

-- Only the owner holds locks, and the count is theirs, as an `unsigned long`.
pub record IsHeld (m : Mutex) (held : ℕ → ℕ) : Type 0 where
  pub free : m.owner ≡ none → m.count ≡ 0
  pub counted : (t : ℕ) → m.owner ≡ some t → m.count ≡ held t % 2 ^ 32
  pub bounded : (t : ℕ) → m.owner ≡ some t → (held t ≢ 0) × (held t ≤ 2 ^ 32)
  pub others : (u : ℕ) → m.owner ≢ some u → held u ≡ 0

-- A lock that needs no wait is of a free mutex, or one more of the owner.
pub Locks : Kernel → Mutex → Mutex → Type 0
Locks k m m' =
    (m'.owner ≡ some k.running)
    × (((m.owner ≡ none) × (m'.count ≡ 1))
        ⊎ ((m.owner ≡ some k.running) × (m.count ≢ 0) × (m'.count ≡ (m.count + 1) % 2 ^ 32)))

mutex_cond-Locks :
    (q : ℕ) (k k' : Kernel) (m m' : Mutex) → mutex_cond q k m ≡ some (none, m', k') → Locks k m m'
unfolding Locks mutex_cond
mutex_cond-Locks q k k' m m' e = elim (Option-cases m.owner) [
  | inl o ↦ ground arith
  | inr (t, o) ↦ ground arith
]

locked-IsHeld :
    (k : Kernel) (m m' : Mutex) (held : ℕ → ℕ)
    → IsHeld m held
    → Locks k m m'
    → IsHeld m' (write_at held k.running (held k.running + 1))
unfolding Locks
locked-IsHeld k m m' held h (o, inl (free, c)) =
    let none_held : (u : ℕ) → held u ≡ 0 = λ u. h.others u (λ e. ground arith) in
    record {
      free = λ e. ground arith;
      counted = λ t e. ground (arith, none_held k.running);
      bounded = λ t e. ground (arith, none_held k.running);
      others = λ u e. ground (arith, none_held u);
    }
locked-IsHeld k m m' held h (o, inr (own, nz, c)) =
    let count = h.counted k.running own in
    let bound = h.bounded k.running own in
    record {
      free = λ e. ground arith;
      counted = λ t e. ground (arith, count);
      bounded = λ t e. ground (arith, count, bound);
      others = λ u e. ground (arith, h.others u (λ e'. ground arith));
    }

-- An unlock is by the owner, and frees the mutex when the count is down to 0.
pub Unlocks : Kernel → Mutex → Mutex → Type 0
Unlocks k m m' =
    (m.owner ≡ some k.running)
    × (m.count ≢ 0)
    × (m'.count ≡ m.count - 1)
    × (m'.owner ≡ (if m.count == 1 then none else m.owner))

unlock-Unlocks :
    (q : ℕ) (k k' : Kernel) (m m' : Mutex) → unlock q k m ≡ some (m', k') → Unlocks k m m'
unfolding Unlocks unlock is_owner
unlock-Unlocks q k k' m m' e = elim (Option-cases m.owner) [
  | inl o ↦ ground arith
  | inr (t, o) ↦ elim (Option-cases (resume_all k q)) [
    | inl r ↦ ground arith
    | inr (v, r) ↦ ground arith
  ]
]

unlocked-IsHeld :
    (k : Kernel) (m m' : Mutex) (held : ℕ → ℕ)
    → IsHeld m held
    → Unlocks k m m'
    → IsHeld m' (write_at held k.running (held k.running - 1))
unfolding Unlocks
unlocked-IsHeld k m m' held h (own, nz, c, o) =
    let count = h.counted k.running own in
    let bound = h.bounded k.running own in
    record {
      free = λ e. ground arith;
      counted = λ t e. ground (arith, count, bound);
      bounded = λ t e. ground (arith, count, bound);
      others = λ u e. ground (arith, count, bound, h.others u);
    }

-- In every state that a mutex can reach by locks and unlocks of any threads, only the owner holds
-- locks, of a mutex without an owner nobody does, and the count is the number of those locks modulo 2 ^ 32.
pub Reaches-IsHeld : {q : ℕ} (m : Mutex) (held : ℕ → ℕ) → Reaches q m held → IsHeld m held
unfolding create
Reaches-IsHeld m held created = record {
  free = λ e. refl;
  counted = λ t e. ground arith;
  bounded = λ t e. ground arith;
  others = λ u e. refl;
}
Reaches-IsHeld {q} m' held' (locked {m} {held} k k' r e) =
    locked-IsHeld k m m' held (Reaches-IsHeld m held r) (mutex_cond-Locks q k k' m m' e)
Reaches-IsHeld {q} m' held' (unlocked {m} {held} k k' r e) =
    unlocked-IsHeld k m m' held (Reaches-IsHeld m held r) (unlock-Unlocks q k k' m m' e)
