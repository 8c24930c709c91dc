-- ===== src/Mbuf/Verify.antt =====
-- `net_tcp_checksum` of a chain, and the check of a segment that has its checksum.
use ex_os.Base.{
  ℕ, zero, suc, ◌+◌, ◌-◌, ◌*◌, ◌/◌, ◌%◌, ◌≤◌, ◌<◌, ◌≡◌, ◌∙◌, inl, refl, sym, ap, Bool, true, false,
  some, List, [], ◌∷◌, ◌++◌, append-nil, arith, length, length-append, drop,
}
use ex_os.LinkedList.Links.{All, All-append}
use ex_os.Checksum.{words, add_words}
use ex_os.Checksum.Carry.{total, total-append, add_words-total}
use ex_os.Mbuf.{
  Mbuf, seek, add_data, pseudo_bytes, fold_twice, close_sum, from_offset, tcp_checksum,
}
use ex_os.Mbuf.Seek.{contents, IsFilled, seek-drop}
use ex_os.Mbuf.Sum.{after, add_data-words, sum_chain-words}

-- The checksum as a sum of words, those of the data and those of the pseudo header
abbrev pub checksum_of : List ℕ → List ℕ → List ℕ → ℕ
checksum_of source dest bytes =
    fold_twice (add_data (pseudo_bytes source dest (length bytes)) 0 (add_words (words bytes) 0)).0

from_offset-contents :
    (chain : List Mbuf) (k : ℕ)
    → All IsFilled chain
    → k < length (contents chain)
    → All IsFilled (from_offset chain k (seek chain k))
      × (contents (from_offset chain k (seek chain k)) ≡ drop k (contents chain))
from_offset-contents chain zero f below = (f, refl)
from_offset-contents chain (suc k) f below =
    let (rest, found, filled, bytes) = seek-drop chain (suc k) f below in rw found (filled, bytes)

-- In a chain of buffers that have data, from an offset below its number of bytes, `net_tcp_checksum`
-- depends on the bytes only, not on how they are cut into buffers: it is the checksum of the words of
-- the bytes from the offset on and of the pseudo header.
pub tcp_checksum-checksum_of :
    (source dest : List ℕ) (chain : List Mbuf) (k : ℕ)
    → All IsFilled chain
    → k < length (contents chain)
    → tcp_checksum source dest chain k ≡ some (checksum_of source dest (drop k (contents chain)))
unfolding tcp_checksum
tcp_checksum-checksum_of source dest chain k f below =
    let rest = from_offset chain k (seek chain k) in
    let (filled, bytes) = from_offset-contents chain k f below in
    ap (close_sum source dest) (sum_chain-words rest false 0 0 filled)
    ∙ ap
        (λ l. some (
          fold_twice
            (add_data (pseudo_bytes source dest (0 + (length l - 0))) 0 (add_words (words l) 0)).0))
        bytes
    ∙ ap
        (λ t. some (
          fold_twice
            (add_data (pseudo_bytes source dest t) 0
              (add_words (words (drop k (contents chain))) 0)).0))
        (omega arith)

add_data-alone : (d : List ℕ) (sum : ℕ) → (add_data d 0 sum).0 ≡ add_words (words d) sum
unfolding words add_words
add_data-alone d sum =
    nothing_after (add_data d 0 sum).1 (add_data d 0 sum).0
    ∙ sym (add_data-words d [] 0 sum (inl (refl, refl)))
    ∙ ap (λ l. add_words (words l) sum) (append-nil d)
  where
    nothing_after : (odd : Bool) (sum : ℕ) → sum ≡ add_words (words (after odd [])) sum
    nothing_after true sum = refl
    nothing_after false sum = refl

-- The total of the words of some bytes
words_bounded :
    (bytes : List ℕ)
    → All (λ b. b < 256) bytes
    → 2 * total (words bytes) ≤ 65535 * (length bytes + 1)
unfolding words total
words_bounded [] small = omega arith
words_bounded (a ∷ []) (small, _) = omega arith
words_bounded (a ∷ b ∷ rest) (small, (small', smalls)) = omega (arith, words_bounded rest smalls)

-- After an even number of bytes the words go on with those of the rest.
words-append :
    (n : ℕ) (xs ys : List ℕ) → length xs ≡ 2 * n → words (xs ++ ys) ≡ words xs ++ words ys
unfolding words
words-append n [] ys even = refl
words-append n (a ∷ []) ys even = absurd (omega arith)
words-append zero (a ∷ b ∷ xs) ys even = absurd (omega arith)
words-append (suc n) (a ∷ b ∷ xs) ys even =
    ap (λ l. (a * 256 + b) ∷ l) (words-append n xs ys (omega arith))

-- Adding the carry twice is enough.
fold_twice-zero : (s : ℕ) → s < 4294901760 → fold_twice (s + fold_twice s) ≡ 0
fold_twice-zero s room = omega arith

-- Bytes, and few enough for a packet
pub record IsPacket (bytes : List ℕ) : Type 0 where
  pub bytes_small : All (λ b. b < 256) bytes
  pub short : length bytes < 65536

-- An address is four bytes.
pub record IsAddress (bytes : List ℕ) : Type 0 where
  pub small : All (λ b. b < 256) bytes
  pub four : length bytes ≡ 4

All-both :
    (xs ys : List ℕ) → All (λ b. b < 256) xs → All (λ b. b < 256) ys → All (λ b. b < 256) (xs ++ ys)
All-both xs ys small small' = (All-append (λ b. b < 256) xs ys).1 (small, small')

module _ (source dest : List ℕ) (s : IsAddress source) (d : IsAddress dest) where
  pseudo_bounded : (n : ℕ) → total (words (pseudo_bytes source dest n)) < 1000000
  pseudo_bounded n =
      let tail = 0 ∷ 6 ∷ (n / 256 % 256) ∷ (n % 256) ∷ [] in
      let small : All (λ b. b < 256) (source ++ (dest ++ tail)) =
        All-both source (dest ++ tail) s.small (
          All-both dest tail d.small
            (omega arith, (omega arith, (omega arith, (omega arith, tt))))) in
      omega (
        arith,
        words_bounded (source ++ (dest ++ tail)) small,
        length-append source (dest ++ tail),
        length-append dest tail,
        s.four,
        d.four,
      )

  checksum_of-total :
      (bytes : List ℕ)
      → IsPacket bytes
      → checksum_of source dest bytes
        ≡ fold_twice (total (words bytes) + total (words (pseudo_bytes source dest (length bytes))))
  checksum_of-total bytes p =
      let pseudo = pseudo_bytes source dest (length bytes) in
      let bound = words_bounded bytes p.bytes_small in
      let more = pseudo_bounded (length bytes) in
      let inner : add_words (words bytes) 0 ≡ total (words bytes) =
        omega (arith, add_words-total (words bytes) 0 (omega (arith, bound, p.short))) in
      ap fold_twice (
        add_data-alone pseudo (add_words (words bytes) 0)
        ∙ ap (add_words (words pseudo)) inner
        ∙ add_words-total (words pseudo) (total (words bytes))
            (omega (arith, bound, more, p.short)))

  total_about :
      (n x y : ℕ) (before rest : List ℕ)
      → length before ≡ 2 * n
      → total (words (before ++ (x ∷ y ∷ rest)))
        ≡ total (words before) + total (words rest) + (x * 256 + y)
  unfolding words total
  total_about n x y before rest even =
      ap total (words-append n before (x ∷ y ∷ rest) even)
      ∙ omega (arith, total-append (words before) ((x * 256 + y) ∷ words rest))

  -- The packet with another word in the place of the first one
  refilled :
      (x y x' y' : ℕ) (before rest : List ℕ)
      → x' < 256
      → y' < 256
      → IsPacket (before ++ (x ∷ y ∷ rest))
      → IsPacket (before ++ (x' ∷ y' ∷ rest))
        × (length (before ++ (x' ∷ y' ∷ rest)) ≡ length (before ++ (x ∷ y ∷ rest)))
  refilled x y x' y' before rest small small' p =
      let (front, (_, (_, back))) =
        (All-append (λ b. b < 256) before (x ∷ y ∷ rest)).0 p.bytes_small in
      let size = length-append before (x ∷ y ∷ rest) in
      let size' = length-append before (x' ∷ y' ∷ rest) in
      (
        record {
          bytes_small = All-both before (x' ∷ y' ∷ rest) front (small, (small', back));
          short = omega (arith, size, size', p.short);
        },
        omega (arith, size, size'),
      )

  checksum_of-zero :
      (n : ℕ) (before rest : List ℕ) (sum : ℕ)
      → length before ≡ 2 * n
      → IsPacket (before ++ (0 ∷ 0 ∷ rest))
      → sum ≡ checksum_of source dest (before ++ (0 ∷ 0 ∷ rest))
      → checksum_of source dest (before ++ ((sum / 256) ∷ (sum % 256) ∷ rest)) ≡ 0
  checksum_of-zero n before rest sum even p is =
      let word : sum < 65536 = omega (arith, is) in
      let (p', size) =
        refilled 0 0 (sum / 256) (sum % 256) before rest (omega (arith, word)) (omega arith) p in
      let pseudo = total (words (pseudo_bytes source dest (length (before ++ (0 ∷ 0 ∷ rest))))) in
      let same : total (
            words
              (pseudo_bytes source dest (length (before ++ ((sum / 256) ∷ (sum % 256) ∷ rest)))))
          ≡ pseudo =
        ap (λ l. total (words (pseudo_bytes source dest l))) size in
      let s = total (words before) + total (words rest) + pseudo in
      let about : total (words (before ++ (0 ∷ 0 ∷ rest))) + pseudo ≡ s =
        omega (arith, total_about n 0 0 before rest even) in
      let about' : total (words (before ++ ((sum / 256) ∷ (sum % 256) ∷ rest))) + pseudo ≡ s + sum =
        omega (arith, total_about n (sum / 256) (sum % 256) before rest even) in
      let room : s < 4294901760 = omega (
        arith,
        about,
        words_bounded (before ++ (0 ∷ 0 ∷ rest)) p.bytes_small,
        p.short,
        pseudo_bounded (length (before ++ (0 ∷ 0 ∷ rest))),
      ) in
      let filled : sum ≡ fold_twice s =
        is ∙ checksum_of-total (before ++ (0 ∷ 0 ∷ rest)) p ∙ ap fold_twice about in
      checksum_of-total (before ++ ((sum / 256) ∷ (sum % 256) ∷ rest)) p'
      ∙ ap fold_twice (
          ap (λ t. total (words (before ++ ((sum / 256) ∷ (sum % 256) ∷ rest))) + t) same
          ∙ about'
          ∙ ap (λ t. s + t) filled)
      ∙ fold_twice-zero s room

-- The checksum of a segment of at most 65535 bytes whose checksum field, behind an even number of them,
-- is 0 is put into that field. Then `net_tcp_checksum` of the segment is 0, as `net_tcp_input` checks,
-- however the bytes of the segment are cut into buffers at either end.
pub tcp_checksum-zero :
    (source dest : List ℕ) (n k k' : ℕ) (before rest : List ℕ) (chain chain' : List Mbuf) (sum : ℕ)
    → IsAddress source
    → IsAddress dest
    → length before ≡ 2 * n
    → IsPacket (before ++ (0 ∷ 0 ∷ rest))
    → All IsFilled chain
    → All IsFilled chain'
    → k < length (contents chain)
    → k' < length (contents chain')
    → drop k (contents chain) ≡ before ++ (0 ∷ 0 ∷ rest)
    → tcp_checksum source dest chain k ≡ some sum
    → drop k' (contents chain') ≡ before ++ ((sum / 256) ∷ (sum % 256) ∷ rest)
    → tcp_checksum source dest chain' k' ≡ some 0
tcp_checksum-zero source dest n k k' before rest chain chain' sum s d even p f f' below below' sent
      is received =
    let made : some sum ≡ some (checksum_of source dest (before ++ (0 ∷ 0 ∷ rest))) =
      sym is
      ∙ tcp_checksum-checksum_of source dest chain k f below
      ∙ ap (λ l. some (checksum_of source dest l)) sent in
    let same : sum ≡ checksum_of source dest (before ++ (0 ∷ 0 ∷ rest)) = cc in
    tcp_checksum-checksum_of source dest chain' k' f' below'
    ∙ ap (λ l. some (checksum_of source dest l)) received
    ∙ ap some (checksum_of-zero source dest s d n before rest sum even p same)
