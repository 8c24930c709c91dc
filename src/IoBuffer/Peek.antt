-- ===== src/IoBuffer/Peek.antt =====
-- `exos_io_buffer_peek` and `exos_io_buffer_discard`, with which TCP sends from the ring.
use ex_os.Base.{
  ℕ, zero, suc, ◌+◌, ◌-◌, ◌≤◌, ◌<◌, min, ◌≡◌, refl, ◌≢◌, ◌⊎◌, ap, ◌∙◌, sym, true, none, some, List,
  [], ◌∷◌, arith, leb, ◌==◌, take, drop, get_or, not, ◌&&◌,
}
use ex_os.IoBuffer.{IoBuffer, set_not_full, notify, step, avail, discard, peek}
use ex_os.IoBuffer.Queue.{IsValid, contents, bytes_from, place, avail-lt}

drop-bytes_from :
    (k : ℕ) (buffer : List ℕ) (size i n : ℕ)
    → k ≤ n
    → n < size
    → i < size
    → drop k (bytes_from buffer size i n) ≡ bytes_from buffer size (place size i k) (n - k)
drop-bytes_from zero buffer size i n h s l =
    let e : place size i 0 ≡ i = ground arith in rw e (ap (bytes_from buffer size i) (omega arith))
drop-bytes_from (suc k) buffer size i zero h s l = absurd (omega arith)
drop-bytes_from (suc k) buffer size i (suc n) h s l =
    let e : place size (step size i) k ≡ place size i (suc k) = ground arith in
    let m : suc n - suc k ≡ n - k = omega arith in
    rw m (
      drop-bytes_from k buffer size (step size i) n (omega arith) (omega arith) (ground arith)
      ∙ rw e refl)

-- The consumer moved on by `k` bytes.
abbrev skip : IoBuffer → ℕ → IoBuffer
skip b k = record b { consume = place b.size b.consume k }

module _ {b : IoBuffer} (v : IsValid b) (k : ℕ) (h : k ≤ avail b) where
  skip-IsValid : IsValid (skip b k)
  skip-IsValid = ground (arith, avail-lt v)

  avail-skip : avail (skip b k) ≡ avail b - k
  avail-skip = let lt = avail-lt v in unfold avail in ground arith

  contents-skip : contents (skip b k) ≡ drop k (contents b)
  contents-skip =
      rw avail-skip
        (sym (drop-bytes_from k b.buffer b.size b.consume (avail b) h (avail-lt v) v.consume_in))

discard_lem :
    (b : IoBuffer) (n : ℕ)
    → IsValid b
    → n ≢ 0
    → discard b n ≡ (min n (avail b), skip b (min n (avail b)), notify b.has_not_full set_not_full)
unfolding discard
discard_lem b n v h = ground (arith, avail-lt v)

-- `exos_io_buffer_discard` drops the first bytes, as many as are asked for and there, returns their
-- number, and sets NotFull, where it is there, unless it is asked
-- for none; the ring stays valid and keeps its size.
pub discard-drop :
    (b : IoBuffer) (n : ℕ)
    → IsValid b
    → let (k, b', calls) = discard b n in
      (k ≡ min n (avail b))
      × (contents b' ≡ drop k (contents b))
      × IsValid b'
      × (b'.size ≡ b.size)
      × (calls ≡ notify (b.has_not_full && not (n == 0)) set_not_full)
discard-drop b zero v = unfold discard in (omega arith, refl, v, refl, ground arith)
discard-drop b (suc n) v =
    let k = min (suc n) (avail b) in
    rw (discard_lem b (suc n) v (omega arith))
      (refl, contents-skip v k (omega arith), skip-IsValid v k (omega arith), refl, ground arith)

-- A run of consecutive bytes of the buffer.
abbrev pub piece : List ℕ → ℕ → ℕ → List ℕ
piece buffer i zero = []
piece buffer i (suc n) = get_or buffer i 0 ∷ piece buffer (i + 1) n

-- Within the buffer the ring does not go round.
piece_lem :
    (n m : ℕ) (buffer : List ℕ) (size i : ℕ)
    → i + n ≤ size
    → n ≤ m
    → take n (bytes_from buffer size i m) ≡ piece buffer i n
piece_lem zero m buffer size i h k = refl
piece_lem (suc n) zero buffer size i h k = absurd (omega arith)
piece_lem (suc zero) (suc m) buffer size i h k = refl
piece_lem (suc (suc n)) (suc m) buffer size i h k =
    let e : step size i ≡ i + 1 = ground arith in
    rw e (
      ap (λ l. get_or buffer i 0 ∷ l)
        (piece_lem (suc n) m buffer size (i + 1) (omega arith) (omega arith)))

-- What `exos_io_buffer_peek` says of a ring, from an offset.
pub record Peeked (b : IoBuffer) (offset count i : ℕ) : Type 0 where
  pub some_there : 0 < count
  pub inside : i + count ≤ b.size
  pub bounded : offset + count ≤ avail b
  pub bytes : piece b.buffer i count ≡ take count (drop offset (contents b))
  pub to_the_end : (offset + count ≡ avail b) ⊎ (i + count ≡ b.size)

pub peek_past : (b : IoBuffer) (offset : ℕ) → avail b ≤ offset → peek b offset ≡ (0, none)
unfolding peek
peek_past b offset le = let past : leb (avail b) offset ≡ true = ground arith in rw past refl

pub peek_lem :
    (b : IoBuffer) (offset : ℕ)
    → IsValid b
    → offset < avail b
    → let i = place b.size b.consume offset in
      peek b offset ≡ (min (avail b - offset) (b.size - i), some i)
unfolding peek
peek_lem b offset v h = ground (arith, avail-lt v)

-- Below the number of bytes in the ring, the pointer and the count that come back are a piece of
-- the buffer that is not empty and holds the next bytes of the queue from the offset on; it ends
-- where the queue or the buffer ends.
pub peek-Peeked :
    (b : IoBuffer) (offset : ℕ)
    → IsValid b
    → offset < avail b
    → (count : ℕ) × (i : ℕ) × (peek b offset ≡ (count, some i)) × Peeked b offset count i
peek-Peeked b offset v h =
    let i = place b.size b.consume offset in
    let count = min (avail b - offset) (b.size - i) in
    let at : i < b.size = ground (arith, avail-lt v) in
    (
      count,
      i,
      peek_lem b offset v h,
      record {
        some_there = omega arith;
        inside = omega arith;
        bounded = omega arith;
        bytes =
            rw
              (drop-bytes_from offset b.buffer b.size b.consume (avail b) (omega arith) (avail-lt v)
                v.consume_in)
              (sym
                (piece_lem count (avail b - offset) b.buffer b.size i (omega arith) (omega arith)));
        to_the_end = omega arith;
      },
    )
