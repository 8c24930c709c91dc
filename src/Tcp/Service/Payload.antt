-- ===== src/Tcp/Service/Payload.antt =====
-- What a segment carries: the first bytes of the sender's ring.
use ex_os.Base.{
  ℕ, zero, suc, ◌+◌, ◌-◌, ◌≤◌, ◌<◌, ◌≡◌, ◌∙◌, inl, inr, refl, sym, ap, ap₂, false, none, some, List,
  [], ◌∷◌, ◌++◌, append-nil, arith, ltb, ◌==◌, min, Bool-cases, if◌then◌else◌, length, take, drop,
  get_or, length-drop, length-take,
}
use ex_os.IoBuffer.{IoBuffer, avail, peek}
use ex_os.IoBuffer.Queue.{IsValid, place, bytes_from, avail-lt, contents, length-bytes_from}
use ex_os.IoBuffer.Peek.{Peeked, peek-Peeked, peek_lem, peek_past}
use ex_os.IoBuffer.Peek
use ex_os.Tcp.Service.{payload, payload_count, piece}

take_all : (n : ℕ) (xs : List ℕ) → length xs ≤ n → take n xs ≡ xs
take_all zero [] h = refl
take_all zero (x ∷ xs) h = absurd (omega arith)
take_all (suc n) [] h = refl
take_all (suc n) (x ∷ xs) h = ap (λ l. x ∷ l) (take_all n xs (omega arith))

take-take : (m n : ℕ) (xs : List ℕ) → m ≤ n → take m (take n xs) ≡ take m xs
take-take zero n xs h = refl
take-take (suc m) zero xs h = absurd (omega arith)
take-take (suc m) (suc n) [] h = refl
take-take (suc m) (suc n) (x ∷ xs) h = ap (λ l. x ∷ l) (take-take m n xs (omega arith))

take_nil : (n : ℕ) → take {A = ℕ} n [] ≡ []
take_nil zero = refl
take_nil (suc n) = refl

take_split : (n t : ℕ) (xs : List ℕ) → n ≤ t → take n xs ++ take (t - n) (drop n xs) ≡ take t xs
take_split zero t xs h = ap (λ k. take k xs) (omega arith)
take_split (suc n) zero xs h = absurd (omega arith)
take_split (suc n) (suc t) [] h = take_nil (suc t - suc n)
take_split (suc n) (suc t) (x ∷ xs) h =
    let less : suc t - suc n ≡ t - n = omega arith in
    ap (λ l. x ∷ l) (rw less (take_split n t xs (omega arith)))

piece-take :
    (m n : ℕ) (buffer : List ℕ) (i : ℕ)
    → m ≤ n
    → Peek.piece buffer i m ≡ take m (Peek.piece buffer i n)
piece-take zero n buffer i h = refl
piece-take (suc m) zero buffer i h = absurd (omega arith)
piece-take (suc m) (suc n) buffer i h =
    ap (λ l. get_or buffer i 0 ∷ l) (piece-take m n buffer (i + 1) (omega arith))

-- The pieces of the ring are those of the queue.
module _ (b : IoBuffer) (v : IsValid b) where
  held : length (contents b) ≡ avail b
  held = length-bytes_from b.buffer b.size b.consume (avail b)

  front :
      (count i n : ℕ) (offset : ℕ)
      → Peeked b offset count i
      → n ≤ count
      → piece b n (some i) ≡ take n (drop offset (contents b))
  front count i n offset p le =
      piece-take n count b.buffer i le
      ∙ ap (take n) p.bytes
      ∙ take-take n count (drop offset (contents b)) le

  -- The second piece has all that the first one leaves.
  second_piece :
      (n i : ℕ)
      → peek b 0 ≡ (n, some i)
      → n < avail b
      → (i2 : ℕ) × (peek b n ≡ (avail b - n, some i2)) × Peeked b n (avail b - n) i2
  second_piece n i first more =
      let (count, i2, again, p) = peek-Peeked b n v more in
      let at_0 : n ≡ min (avail b - 0) (b.size - place b.size b.consume 0) =
        ap (λ p. p.0) (sym first ∙ peek_lem b 0 v (omega arith)) in
      let at_n : count ≡ min (avail b - n) (b.size - place b.size b.consume n) =
        ap (λ p. p.0) (sym again ∙ peek_lem b n v more) in
      let all : count ≡ avail b - n = ground (arith, at_0, at_n, avail-lt v, v.consume_in) in
      (i2, again ∙ ap (λ k. (k, some i2)) all, rw all at p)

  one_piece :
      (max n i : ℕ)
      → Peeked b 0 n i
      → n ≤ max
      → avail b ≤ n
      → piece b n (some i) ++ [] ≡ take max (contents b)
  one_piece max n i p fits all =
      append-nil (piece b n (some i))
      ∙ front n i n 0 p (omega arith)
      ∙ take_all n (contents b) (omega (arith, held))
      ∙ sym (take_all max (contents b) (omega (arith, held)))

  -- The length of the second piece, cut to what fits.
  abbrev fitting : ℕ → ℕ → ℕ → ℕ
  fitting max n n2 = if ltb max (n + n2) then n2 - (n + n2 - max) else n2

  rest_fitting :
      (max n : ℕ)
      → n ≤ max
      → n < avail b
      → take (fitting max n (avail b - n)) (drop n (contents b))
        ≡ take (max - n) (drop n (contents b))
  rest_fitting max n fits more = elim (Bool-cases (ltb max (n + (avail b - n)))) [
    | inl cut ↦
        let over : max < n + (avail b - n) = ground arith in
        rw cut (ap (λ k. take k (drop n (contents b))) (omega arith))
    | inr whole ↦
        let size = length-drop n (contents b) in
        let below : avail b ≤ max = ground arith in
        rw whole (
          take_all (avail b - n) (drop n (contents b)) (omega (arith, held, size))
          ∙ sym (take_all (max - n) (drop n (contents b)) (omega (arith, held, size))))
  ]

  two_pieces :
      (max n i i2 : ℕ)
      → Peeked b 0 n i
      → Peeked b n (avail b - n) i2
      → n ≤ max
      → n < avail b
      → piece b n (some i) ++ piece b (fitting max n (avail b - n)) (some i2)
        ≡ take max (contents b)
  two_pieces max n i i2 p p2 fits more =
      ap₂ ◌++◌ (front n i n 0 p (omega arith)) (
        front (avail b - n) i2 (fitting max n (avail b - n)) n p2 (ground arith)
        ∙ rest_fitting max n fits more)
      ∙ take_split n max (contents b) fits

  -- How many bytes stand in the first piece
  abbrev pub first_piece : ℕ
  first_piece = min (avail b) (b.size - b.consume)

  -- How many bytes a segment tells of
  abbrev pub counted : ℕ → ℕ
  counted max = if ltb max first_piece then max else avail b

  some_pieces :
      (max n i : ℕ)
      → peek b 0 ≡ (n, some i)
      → Peeked b 0 n i
      → (payload max b ≡ take max (contents b)) × (payload_count max b ≡ counted max)
  unfolding payload payload_count
  some_pieces max n i first p =
      let at_0 : n ≡ min (avail b - 0) (b.size - place b.size b.consume 0) =
        ap (λ p. p.0) (sym first ∙ peek_lem b 0 v (omega (arith, p.some_there, p.bounded))) in
      let is : n ≡ first_piece = ground (arith, at_0, v.consume_in) in
      elim (Bool-cases (ltb max n)) [
        | inl long ↦ rw (first, long, sym is) (front n i max 0 p (ground arith), rw long refl)
        | inr fits ↦ elim (Bool-cases (ltb n (avail b))) [
          | inr one ↦
              let past = peek_past b n (ground arith) in
              rw (first, fits, past, sym is)
                (
                  one_piece max n i p (ground arith) (ground arith),
                  rw fits (ground (arith, p.bounded)),
                )
          | inl two ↦
              let (i2, second, p2) = second_piece n i first (ground arith) in
              rw (first, fits, second, sym is)
                (two_pieces max n i i2 p p2 (ground arith) (ground arith), rw fits (ground arith))
        ]
      ]

  nothing_there :
      (max : ℕ)
      → peek b 0 ≡ (0, none)
      → ltb max 0 ≡ false
      → (payload max b ≡ []) × (payload_count max b ≡ 0)
  unfolding payload payload_count
  nothing_there max first short = rw (first, first, short) (refl, omega arith)

  -- From a valid ring, the data of a segment are the first `max` bytes of the sender's queue, or all
  -- of them if they are fewer, though they may stand in two pieces of the ring. The length that the
  -- segment tells of is `max` if the first piece is longer than that, and else the number of all
  -- bytes in the queue, even if they are more than `max`.
  pub payload-take :
      (max : ℕ)
      → (payload max b ≡ take max (contents b))
        × (payload_count max b
            ≡ (if ltb max (min (avail b) (b.size - b.consume)) then max else avail b))
  payload-take max = elim (Bool-cases (avail b == 0)) [
    | inl e ↦
        let empty : avail b ≡ 0 = ground arith in
        let first = peek_past b 0 (omega arith) in
        let none_left : contents b ≡ [] = ap (λ k. bytes_from b.buffer b.size b.consume k) empty in
        let short : ltb max 0 ≡ false = ground arith in
        let (no_bytes, no_count) = nothing_there max first short in
        (no_bytes ∙ sym (rw none_left (take_nil max)), no_count ∙ ground (arith, empty))
    | inr e ↦ let (n, i, first, p) = peek-Peeked b 0 v (ground arith) in some_pieces max n i first p
  ]

  -- A ring that fits into a packet: the segment tells of just its data.
  pub payload_count_whole :
      (max : ℕ) → b.size ≤ suc max → payload_count max b ≡ length (payload max b)
  payload_count_whole max fits =
      let (bytes, count) = payload-take max in
      let size : length (payload max b) ≡ min max (avail b) =
        ap length bytes ∙ length-take max (contents b) ∙ ap (min max) held in
      ground (arith, count, size, avail-lt v)
