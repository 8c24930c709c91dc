-- ===== src/Mbuf/Sum.antt =====
-- The sum of the words of a chain, in whatever pieces its data stand.
use ex_os.Base.{
  ℕ, zero, suc, ◌+◌, ◌-◌, ◌*◌, ◌%◌, ◌^◌, ◌≤◌, ◌<◌, ◌≡◌, ◌∙◌, ◌⊎◌, inl, inr, refl, sym, ap, ap₂,
  Bool, true, false, ◌&&◌, some, List, [], ◌∷◌, ◌++◌, arith, ltb, length, length-append, take, drop,
  get_or,
}
use ex_os.LinkedList.Links.{All}
use ex_os.Checksum.{words, add_words}
use ex_os.Mbuf.{Mbuf, next_byte, add_data, one_if, has_next, sum_chain}
use ex_os.Mbuf.Seek.{data_of, contents, IsFilled, length-data_of, data_of-drop, drop-append_less}

-- `next` is the first byte of `rest`, or 0 if there is none.
abbrev pub IsNext : ℕ → List ℕ → Type 0
IsNext next rest = ((rest ≡ []) × (next ≡ 0)) ⊎ ((tail : List ℕ) × (rest ≡ next ∷ tail))

abbrev pub after : Bool → List ℕ → List ℕ
after odd rest = drop (one_if odd) rest

pub add_data-words :
    (d rest : List ℕ) (next sum : ℕ)
    → IsNext next rest
    → add_words (words (d ++ rest)) sum
      ≡ add_words (words (after (add_data d next sum).1 rest)) (add_data d next sum).0
unfolding add_data words add_words
add_data-words [] rest next sum n = refl
add_data-words (a ∷ []) rest next sum (inl (none_left, zero_next)) =
    rw (none_left, zero_next) (omega arith)
add_data-words (a ∷ []) rest next sum (inr (tail, e)) = rw e refl
add_data-words (a ∷ b ∷ d) rest next sum n =
    add_data-words d rest next ((sum + (a * 256 + b)) % 2 ^ 32) n

first_byte :
    (n start : ℕ) (xs : List ℕ)
    → 0 < n
    → start < length xs
    → (tail : List ℕ) × (take n (drop start xs) ≡ get_or xs start 0 ∷ tail)
first_byte n start [] some_bytes inside = absurd (omega arith)
first_byte zero start (x ∷ xs) some_bytes inside = absurd (omega arith)
first_byte (suc n) zero (x ∷ xs) some_bytes inside = (take n xs, refl)
first_byte (suc n) (suc start) (x ∷ xs) some_bytes inside =
    first_byte (suc n) start xs some_bytes (omega arith)

next_byte-IsNext : (ms : List Mbuf) → All IsFilled ms → IsNext (next_byte ms) (contents ms)
next_byte-IsNext [] f = inl (refl, refl)
next_byte-IsNext (m ∷ ms) (f, fs) =
    let (tail, e) =
      first_byte (m.length - m.offset) m.offset m.bytes (omega (arith, f.some_data))
        (omega (arith, f.some_data, f.storage)) in
    inr (tail ++ contents ms, ap (λ l. l ++ contents ms) e)

-- How much the next piece adds, after a byte was taken from it
rest_length :
    (odd : Bool) (ms : List Mbuf)
    → All IsFilled ms
    → one_if (odd && has_next ms) + (length (contents ms) - one_if odd) ≡ length (contents ms)
rest_length false ms f = omega arith
rest_length true [] f = omega arith
rest_length true (m ∷ ms) (f, fs) =
    omega (arith, length-append (data_of m) (contents ms), length-data_of m f, f.some_data)

one_if_small : (b : Bool) → one_if b ≤ 1
one_if_small true = omega arith
one_if_small false = omega arith

-- The `while` of `net_tcp_checksum` adds up the words of the bytes in the chain.
pub sum_chain-words :
    (ms : List Mbuf) (odd : Bool) (sum total : ℕ)
    → All IsFilled ms
    → sum_chain ms (one_if odd) sum total
      ≡ some (
        add_words (words (after odd (contents ms))) sum,
        total + (length (contents ms) - one_if odd),
      )
unfolding sum_chain words add_words
sum_chain-words [] true sum total f = ap (λ t. some (sum, t)) (omega arith)
sum_chain-words [] false sum total f = ap (λ t. some (sum, t)) (omega arith)
sum_chain-words (m ∷ ms) odd sum total (f, fs) =
    let o = one_if odd in
    let small : o ≤ 1 = one_if_small odd in
    let start = m.offset + o in
    let d = take (m.length - start) (drop start m.bytes) in
    let enough : ltb m.length start ≡ false = ground (arith, small, f.some_data) in
    let size = length-data_of m f in
    let whole : after odd (data_of m ++ contents ms) ≡ d ++ contents ms =
      drop-append_less o (data_of m) (contents ms) (omega (arith, size, small, f.some_data))
      ∙ ap (λ l. l ++ contents ms) (sym (data_of-drop m o)) in
    let rest_odd = (add_data d (next_byte ms) sum).1 in
    let rest =
      sum_chain-words ms rest_odd (add_data d (next_byte ms) sum).0
        (total + (m.length - start) + one_if (rest_odd && has_next ms)) fs in
    let words_in = add_data-words d (contents ms) (next_byte ms) sum (next_byte-IsNext ms fs) in
    let lengths = rest_length rest_odd ms fs in
    let all = length-append (data_of m) (contents ms) in
    let totals : total
          + (m.length - start)
          + one_if (rest_odd && has_next ms)
          + (length (contents ms) - one_if rest_odd)
        ≡ total + (length (data_of m ++ contents ms) - o) =
      omega (arith, lengths, all, size, small, f.some_data) in
    rw enough (
      rest
      ∙ ap₂ (λ x y. some (x, y)) (sym words_in ∙ ap (λ l. add_words (words l) sum) (sym whole))
          totals)
