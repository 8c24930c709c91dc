-- ===== src/IoBuffer/Read.antt =====
-- `exos_io_buffer_read` and `exos_io_buffer_discard`: the queue from its front.
use ex_os.Base.{
  ℕ, zero, suc, ◌≡◌, refl, ◌≢◌, inl, inr, ap, ◌∙◌, not, ◌&&◌, List, [], ◌∷◌, ◌++◌, arith, ltb, ◌==◌,
  Bool-cases, length, take, drop, get_or,
}
use ex_os.IoBuffer.{
  IoBuffer, Call, reset_not_empty, set_not_full, notify, step, index16, avail, read_loop, read,
}
use ex_os.IoBuffer.Queue.{IsValid, contents, index16-step}

-- One round of the loop.
abbrev get : IoBuffer → IoBuffer
get b = record b { consume = index16 (step b.size b.consume) }

module _ {b : IoBuffer} (v : IsValid b) where
  pub get-IsValid : IsValid (get b)
  get-IsValid = ground arith

  pub avail-get : b.consume ≢ b.produce → avail b ≡ suc (avail (get b))
  unfolding avail
  avail-get h = ground arith

  pub contents-get :
      b.consume ≢ b.produce → contents b ≡ get_or b.buffer b.consume 0 ∷ contents (get b)
  contents-get h = rw (avail-get h) (rw ((index16-step v b.consume v.consume_in).0))

  pub avail-empty : b.consume ≡ b.produce → avail b ≡ 0
  unfolding avail
  avail-empty h = ground arith

-- What the loop has done when it stops.
record WasRead (b : IoBuffer) (n : ℕ) (r : List ℕ × IoBuffer × List Call) : Type 0 where
  valid : IsValid r.1
  bytes : r.0 ≡ take n (contents b)
  rest : contents r.1 ≡ drop n (contents b)
  calls : r.2 ≡ notify (b.has_not_empty && ltb (avail b) n) reset_not_empty
  size : r.1.size ≡ b.size
  flag : r.1.has_not_full ≡ b.has_not_full

module _ {b : IoBuffer} (v : IsValid b) (n : ℕ) where
  WasRead-empty :
      b.consume ≡ b.produce → WasRead b (suc n) ([], b, notify b.has_not_empty reset_not_empty)
  WasRead-empty e = record {
    valid = v;
    bytes = rw (avail-empty v e);
    rest = rw (avail-empty v e);
    calls = rw (avail-empty v e) (ground arith);
    size = refl;
    flag = refl;
  }

  WasRead-more :
      {bytes : List ℕ} {out : IoBuffer} {calls : List Call}
      → b.consume ≢ b.produce
      → WasRead (get b) n (bytes, out, calls)
      → WasRead b (suc n) (get_or b.buffer b.consume 0 ∷ bytes, out, calls)
  WasRead-more ne w = record {
    valid = w.valid;
    bytes = rw (contents-get v ne) (ap (λ l. get_or b.buffer b.consume 0 ∷ l) w.bytes);
    rest = rw (contents-get v ne) w.rest;
    calls = w.calls ∙ rw (avail-get v ne) (ground arith);
    size = w.size;
    flag = w.flag;
  }

read_loop-WasRead : (n : ℕ) (b : IoBuffer) → IsValid b → WasRead b n (read_loop n b)
unfolding read_loop
read_loop-WasRead zero b v = record {
  valid = v;
  bytes = refl;
  rest = refl;
  calls = ground arith;
  size = refl;
  flag = refl;
}
read_loop-WasRead (suc n) b v = elim (Bool-cases (b.consume == b.produce)) [
  | inl e ↦ rw e (WasRead-empty v n (ground arith))
  | inr e ↦ rw e (WasRead-more v n (ground arith) (read_loop-WasRead n (get b) (get-IsValid v)))
]

-- `exos_io_buffer_read` delivers the first bytes in order, as many as are asked for and there, and
-- leaves the others in the ring, which stays valid and keeps its size.
pub read-take-drop :
    (b : IoBuffer) (n : ℕ)
    → IsValid b
    → let (bytes, b', _) = read b n in
      (bytes ≡ take n (contents b))
      × (contents b' ≡ drop n (contents b))
      × IsValid b'
      × (b'.size ≡ b.size)
unfolding read
read-take-drop b n v = let w = read_loop-WasRead n b v in (w.bytes, w.rest, w.valid, w.size)

-- The events: NotEmpty is reset exactly when more bytes are asked for than there are, then NotFull
-- is set exactly when a byte came out.
pub read_calls :
    (b : IoBuffer) (n : ℕ)
    → IsValid b
    → let (bytes, _, calls) = read b n in
      calls
      ≡ notify (b.has_not_empty && ltb (avail b) n) reset_not_empty
        ++ notify (b.has_not_full && not (length bytes == 0)) set_not_full
unfolding read
read_calls b n v = let w = read_loop-WasRead n b v in ground (arith, w.calls, w.flag)
