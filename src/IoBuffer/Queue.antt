-- ===== src/IoBuffer/Queue.antt =====
-- The invariant of the ring, and the bytes that it holds as a queue.
use ex_os.Base.{
  ℕ, zero, suc, ◌+◌, ◌-◌, ◌^◌, ◌≤◌, ◌<◌, ◌≡◌, refl, ◌≢◌, ap, ap₂, List, [], ◌∷◌, ◌++◌, arith, ltb,
  if◌then◌else◌, length, get_or, set,
}
use ex_os.IoBuffer.{IoBuffer, step, index16, avail}

pub record IsValid (b : IoBuffer) : Type 0 where
  pub positive : 0 < b.size
  pub short : b.size < 2 ^ 16
  pub storage : b.size ≤ length b.buffer
  pub produce_in : b.produce < b.size
  pub consume_in : b.consume < b.size

-- The index `n` places after `i`, for `n` up to the size.
abbrev pub place : ℕ → ℕ → ℕ → ℕ
place size i n = if ltb (i + n) size then i + n else i + n - size

-- The `n` bytes from index `i` on, going round at the end.
abbrev pub bytes_from : List ℕ → ℕ → ℕ → ℕ → List ℕ
bytes_from buffer size i zero = []
bytes_from buffer size i (suc n) = get_or buffer i 0 ∷ bytes_from buffer size (step size i) n

abbrev pub contents : IoBuffer → List ℕ
contents b = bytes_from b.buffer b.size b.consume (avail b)

pub length-bytes_from : (buffer : List ℕ) (size i n : ℕ) → length (bytes_from buffer size i n) ≡ n
length-bytes_from buffer size i zero = refl
length-bytes_from buffer size i (suc n) = ap suc (length-bytes_from buffer size (step size i) n)

pub get_or-set_self : (xs : List ℕ) (i v : ℕ) → i < length xs → get_or (set xs i v) i 0 ≡ v
get_or-set_self [] i v h = absurd (omega arith)
get_or-set_self (x ∷ xs) zero v h = refl
get_or-set_self (x ∷ xs) (suc i) v h = get_or-set_self xs i v (omega arith)

pub get_or-set_ne : (xs : List ℕ) (i j v : ℕ) → i ≢ j → get_or (set xs i v) j 0 ≡ get_or xs j 0
get_or-set_ne [] i j v h = refl
get_or-set_ne (x ∷ xs) zero zero v h = absurd (h refl)
get_or-set_ne (x ∷ xs) zero (suc j) v h = refl
get_or-set_ne (x ∷ xs) (suc i) zero v h = refl
get_or-set_ne (x ∷ xs) (suc i) (suc j) v h = get_or-set_ne xs i j v (λ e. h (ap suc e))

-- A byte written behind the last one is appended.
pub bytes_from-set :
    (buffer : List ℕ) (size i n p x : ℕ)
    → size ≤ length buffer
    → i < size
    → n < size
    → p ≡ place size i n
    → bytes_from (set buffer p x) size i (suc n) ≡ bytes_from buffer size i n ++ (x ∷ [])
bytes_from-set buffer size i zero p x s h k e =
    let e' : p ≡ i = ground arith in
    rw e' (ap (λ y. y ∷ []) (get_or-set_self buffer i x (omega arith)))
bytes_from-set buffer size i (suc n) p x s h k e =
    let apart : p ≢ i = ground arith in
    ap₂ ◌∷◌ (get_or-set_ne buffer p i x apart)
      (bytes_from-set buffer size (step size i) n p x s (ground arith) (omega arith) (ground arith))

module _ {b : IoBuffer} (v : IsValid b) where
  open v use {positive, short, storage, produce_in, consume_in}

  -- No index is cut off by its conversion to `unsigned short`.
  pub index16-step :
      (i : ℕ) → i < b.size → (index16 (step b.size i) ≡ step b.size i) × (step b.size i < b.size)
  index16-step i h = ground arith

  pub avail-lt : avail b < b.size
  unfolding avail
  avail-lt = ground arith

  -- The producer writes as far behind the consumer as there are bytes.
  pub produce-place : b.produce ≡ place b.size b.consume (avail b)
  unfolding avail
  produce-place = ground arith
