-- ===== src/IoBuffer.antt =====
-- exos/kernel/iobuffer.c: a byte ring between one producer and one consumer.
-- The two events belong to the caller, and either pointer may be NULL. What an operation does to
-- them is the list of its calls of `exos_event_set` and `exos_event_reset`, in order. The lines
-- under `EXOS_OLD`, which name a third event, are left out.
pub mod Queue
pub mod Write
pub mod Read
pub mod Peek
pub mod Refine
pub mod Tests
use ex_os.Base.{
  ℕ, zero, suc, ◌+◌, ◌-◌, ◌%◌, ◌^◌, Bool, true, false, not, ◌&&◌, Option, none, some, List, [], ◌∷◌,
  ◌++◌, ltb, leb, ◌==◌, if◌then◌else◌, length, get_or, set,
}

pub data Call : Type 0 where
  set_not_empty reset_not_empty set_not_full reset_not_full : Call

-- `io_buffer_t`. A flag says whether the event pointer is there.
pub record IoBuffer : Type 0 where
  pub buffer : List ℕ
  pub size : ℕ
  pub produce : ℕ
  pub consume : ℕ
  pub has_not_empty : Bool
  pub has_not_full : Bool

-- A call on an event, made if the pointer is not NULL.
abbrev pub notify : Bool → Call → List Call
notify present call = if present then call ∷ [] else []

-- `exos_io_buffer_create`, with a buffer that is not NULL and a size that is not 0
unfoldable pub create : List ℕ → ℕ → Bool → Bool → IoBuffer
create buffer size not_empty not_full = record {
  buffer = buffer;
  size = size;
  produce = 0;
  consume = 0;
  has_not_empty = not_empty;
  has_not_full = not_full;
}

-- `index + 1`, or 0 at the end of the buffer
abbrev pub step : ℕ → ℕ → ℕ
step size i = if i + 1 == size then 0 else i + 1

-- Storing an `int` to an `unsigned short` index.
abbrev pub index16 : ℕ → ℕ
index16 i = i % 2 ^ 16

abbrev pub is_full : IoBuffer → Bool
is_full b = step b.size b.produce == b.consume

-- The `for` of `exos_io_buffer_write`. The list is `buffer[done..length)`.
unfoldable pub write_loop : IoBuffer → List ℕ → ℕ → ℕ × IoBuffer × List Call
write_loop b [] done = (done, b, [])
write_loop b (x ∷ xs) done =
    if is_full b
    then (done, b, notify b.has_not_full reset_not_full)
    else write_loop
        (record b { buffer = set b.buffer b.produce x; produce = index16 (step b.size b.produce) })
        xs (done + 1)

-- `exos_io_buffer_write`
unfoldable pub write : IoBuffer → List ℕ → ℕ × IoBuffer × List Call
write b src =
    let (done, b', calls) = write_loop b src 0 in
    let filled = notify (done == length src && b'.has_not_full && is_full b') reset_not_full in
    let woken = notify (not (done == 0) && b'.has_not_empty) set_not_empty in
    (done, b', calls ++ (filled ++ woken))

-- The `for` of `exos_io_buffer_read`, for the bytes still wanted.
unfoldable pub read_loop : ℕ → IoBuffer → List ℕ × IoBuffer × List Call
read_loop zero b = ([], b, [])
read_loop (suc n) b =
    let b' = record b { consume = index16 (step b.size b.consume) } in
    let (bytes, out, calls) = read_loop n b' in
    if b.consume == b.produce
    then ([], b, notify b.has_not_empty reset_not_empty)
    else (get_or b.buffer b.consume 0 ∷ bytes, out, calls)

-- `exos_io_buffer_read`. The bytes are what goes to the caller's buffer, and their number is
-- the value returned.
unfoldable pub read : IoBuffer → ℕ → List ℕ × IoBuffer × List Call
read b n =
    let (bytes, b', calls) = read_loop n b in
    let freed = notify (not (length bytes == 0) && b'.has_not_full) set_not_full in
    (bytes, b', calls ++ freed)

-- `exos_io_buffer_avail`, an `int` converted to `unsigned`
unfoldable pub avail : IoBuffer → ℕ
avail b =
    if ltb b.produce b.consume
    then (b.produce + b.size + 2 ^ 32 - b.consume) % 2 ^ 32
    else b.produce - b.consume

-- `exos_io_buffer_discard`
pub discard : IoBuffer → ℕ → ℕ × IoBuffer × List Call
discard b n =
    if n == 0
    then (0, b, [])
    else let k = if ltb (avail b) n then avail b else n in
      let index = b.consume + k in
      let index' = if leb b.size index then index - b.size else index in
      (k, record b { consume = index16 index' }, notify b.has_not_full set_not_full)

-- `exos_io_buffer_peek`: how many bytes stand in one piece at the offset, and the index that the
-- pointer gets, if it is written.
unfoldable pub peek : IoBuffer → ℕ → ℕ × Option ℕ
peek b offset =
    if leb (avail b) offset
    then (0, none)
    else let index = b.consume + offset in
      if ltb index b.size
      then (
        if ltb (index + avail b - offset) b.size then avail b - offset else b.size - index,
        some index,
      )
      else (avail b - offset, some (index - b.size))
