-- ===== src/Mbuf/Seek.antt =====
-- The data of a chain of buffers, and `net_mbuf_seek`.
use ex_os.Base.{
  ℕ, zero, suc, ◌+◌, ◌-◌, ◌≤◌, ◌<◌, ◌≡◌, ◌∙◌, refl, sym, ap, ap₂, Bool-cases, inl, inr, some, List,
  [], ◌∷◌, ◌++◌, arith, ltb, length, length-append, length-take, length-drop, take, drop,
}
use ex_os.LinkedList.Links.{All}
use ex_os.Mbuf.{Mbuf, seek}

-- The data of a buffer
abbrev pub data_of : Mbuf → List ℕ
data_of m = take (m.length - m.offset) (drop m.offset m.bytes)

abbrev pub contents : List Mbuf → List ℕ
contents [] = []
contents (m ∷ ms) = data_of m ++ contents ms

-- The buffer is there up to its length, and has data.
pub record IsFilled (m : Mbuf) : Type 0 where
  pub some_data : m.offset < m.length
  pub storage : m.length ≤ length m.bytes

pub length-data_of : (m : Mbuf) → IsFilled m → length (data_of m) ≡ m.length - m.offset
length-data_of m f = omega (
  arith,
  length-take (m.length - m.offset) (drop m.offset m.bytes),
  length-drop m.offset m.bytes,
  f.some_data,
  f.storage,
)

drop-drop : (a b : ℕ) (xs : List ℕ) → drop a (drop b xs) ≡ drop (b + a) xs
drop-drop a zero xs = ap (λ k. drop k xs) (omega arith)
drop-drop zero (suc b) [] = let e : suc b + 0 ≡ suc b = omega arith in rw e refl
drop-drop (suc a) (suc b) [] = let e : suc b + suc a ≡ suc (b + suc a) = omega arith in rw e refl
drop-drop a (suc b) (x ∷ xs) =
    let e : suc b + a ≡ suc (b + a) = omega arith in rw e (drop-drop a b xs)

drop-take : (k n : ℕ) (xs : List ℕ) → drop k (take n xs) ≡ take (n - k) (drop k xs)
drop-take zero n xs = ap (λ m. take m xs) (omega arith)
drop-take (suc k) zero xs = let e : 0 - suc k ≡ 0 = omega arith in rw e refl
drop-take (suc k) (suc n) [] =
    let e : suc n - suc k ≡ n - k = omega arith in rw e (sym (take_nil (n - k)))
  where
    take_nil : (m : ℕ) → take {A = ℕ} m [] ≡ []
    take_nil zero = refl
    take_nil (suc m) = refl
drop-take (suc k) (suc n) (x ∷ xs) =
    let e : suc n - suc k ≡ n - k = omega arith in rw e (drop-take k n xs)

pub drop-append_less :
    (k : ℕ) (xs ys : List ℕ) → k ≤ length xs → drop k (xs ++ ys) ≡ drop k xs ++ ys
drop-append_less zero xs ys le = refl
drop-append_less (suc k) [] ys le = absurd (omega arith)
drop-append_less (suc k) (x ∷ xs) ys le = drop-append_less k xs ys (omega arith)

drop-append_more :
    (k : ℕ) (xs ys : List ℕ) → length xs ≤ k → drop k (xs ++ ys) ≡ drop (k - length xs) ys
drop-append_more k [] ys le = ap (λ m. drop m ys) (omega arith)
drop-append_more zero (x ∷ xs) ys le = absurd (omega arith)
drop-append_more (suc k) (x ∷ xs) ys le =
    let e : suc k - length (x ∷ xs) ≡ k - length xs = omega arith in
    rw e (drop-append_more k xs ys (omega arith))

-- The data of a buffer from `k` bytes on
pub data_of-drop :
    (m : Mbuf) (k : ℕ) → data_of (record m { offset = m.offset + k }) ≡ drop k (data_of m)
data_of-drop m k =
    ap₂ take (omega arith) (sym (drop-drop k m.offset m.bytes))
    ∙ sym (drop-take k (m.length - m.offset) (drop m.offset m.bytes))

-- `net_mbuf_seek` to an offset below the number of bytes in the chain gives a chain that is filled
-- and has the bytes from there on.
pub seek-drop :
    (chain : List Mbuf) (k : ℕ)
    → All IsFilled chain
    → k < length (contents chain)
    → (rest : List Mbuf) × (seek chain k ≡ some rest)
      × All IsFilled rest
      × (contents rest ≡ drop k (contents chain))
unfolding seek
seek-drop [] k f below = absurd (omega arith)
seek-drop (m ∷ ms) k (f, fs) below =
    let size = length-data_of m f in
    elim (Bool-cases (ltb (m.offset + k) m.length)) [
      | inl here ↦ rw here (
        record m { offset = m.offset + k } ∷ ms,
        refl,
        (record { some_data = ground arith; storage = f.storage }, fs),
        ap (λ l. l ++ contents ms) (data_of-drop m k)
            ∙ sym (drop-append_less k (data_of m) (contents ms) (ground (arith, size))),
      )
      | inr later ↦
          let past : m.length ≤ m.offset + k = ground arith in
          let total = length-append (data_of m) (contents ms) in
          let (rest, found, filled, bytes) =
            seek-drop ms (k + m.offset - m.length) fs
              (omega (arith, below, size, total, past, f.some_data)) in
          let left : k + m.offset - m.length ≡ k - length (data_of m) =
            omega (arith, size, past, f.some_data) in
          rw later (
            rest,
            found,
            filled,
            bytes
                ∙ ap (λ j. drop j (contents ms)) left
                ∙ sym (
                    drop-append_more k (data_of m) (contents ms)
                      (omega (arith, size, past, f.some_data))),
          )
    ]
