-- ===== src/IoBuffer/Write.antt =====
-- `exos_io_buffer_write`: how much it takes, where it goes, and what it tells the readers.
use ex_os.Base.{
  ℕ, zero, suc, ◌+◌, ◌-◌, ◌<◌, min, ◌≡◌, refl, inl, inr, ap, ◌∙◌, true, false, not, ◌&&◌, List, [],
  ◌∷◌, ◌++◌, append-nil, append_assoc, arith, ltb, ◌==◌, Bool-cases, length, take, set, length-set,
}
use ex_os.IoBuffer.{
  IoBuffer, Call, set_not_empty, reset_not_full, notify, step, index16, is_full, avail, write_loop,
  write,
}
use ex_os.IoBuffer.Queue.{IsValid, contents, bytes_from-set, avail-lt, produce-place}

abbrev pub room : IoBuffer → ℕ
room b = b.size - 1 - avail b

-- The test of the loop is whether there is room.
pub is_full-room : {b : IoBuffer} → IsValid b → (is_full b) ≡ (room b == 0)
unfolding avail
is_full-room v = ground arith

-- One round of the loop.
abbrev put : IoBuffer → ℕ → IoBuffer
put b x = record b { buffer = set b.buffer b.produce x; produce = index16 (step b.size b.produce) }

module _ {b : IoBuffer} (v : IsValid b) (x : ℕ) where
  put-IsValid : IsValid (put b x)
  put-IsValid = ground (arith, length-set b.buffer b.produce x)

  avail-put : is_full b ≡ false → avail (put b x) ≡ avail b + 1
  unfolding avail
  avail-put h = ground arith

  contents-put : is_full b ≡ false → contents (put b x) ≡ contents b ++ (x ∷ [])
  contents-put h =
      let n : avail (put b x) ≡ suc (avail b) = omega (arith, avail-put h) in
      rw n (
        bytes_from-set b.buffer b.size b.consume (avail b) b.produce x v.storage v.consume_in
          (avail-lt v) (produce-place v))

-- What the loop has done when it stops.
record Wrote (b : IoBuffer) (src : List ℕ) (done : ℕ) (r : ℕ × IoBuffer × List Call) : Type 0 where
  valid : IsValid r.1
  count : r.0 ≡ done + min (length src) (room b)
  bytes : contents r.1 ≡ contents b ++ take (room b) src
  calls : r.2 ≡ notify (b.has_not_full && ltb (room b) (length src)) reset_not_full
  flags : (r.1.has_not_full ≡ b.has_not_full) × (r.1.has_not_empty ≡ b.has_not_empty)
  size : r.1.size ≡ b.size
  used : avail r.1 ≡ avail b + min (length src) (room b)

take-nil : (n : ℕ) → take {A = ℕ} n [] ≡ []
take-nil zero = refl
take-nil (suc n) = refl

take-cons : (n x : ℕ) (xs : List ℕ) → 0 < n → take n (x ∷ xs) ≡ x ∷ take (n - 1) xs
take-cons zero x xs h = absurd (omega arith)
take-cons (suc n) x xs h = ap (λ k. x ∷ take k xs) (omega arith)

module _ {b : IoBuffer} (v : IsValid b) (x : ℕ) (xs : List ℕ) (done : ℕ) where
  Wrote-full :
      is_full b ≡ true → Wrote b (x ∷ xs) done (done, b, notify b.has_not_full reset_not_full)
  Wrote-full full =
      let none_left : room b ≡ 0 = ground (arith, is_full-room v) in
      record {
        valid = v;
        count = omega arith;
        bytes = rw none_left (rw append-nil);
        calls = rw none_left (ground arith);
        flags = (refl, refl);
        size = refl;
        used = omega arith;
      }

  Wrote-more :
      {r : ℕ × IoBuffer × List Call}
      → is_full b ≡ false
      → Wrote (put b x) xs (done + 1) r
      → Wrote b (x ∷ xs) done r
  Wrote-more {r} more w =
      let some_left : 0 < room b = ground (arith, is_full-room v) in
      let left : room (put b x) ≡ room b - 1 = omega (arith, avail-put v x more) in
      record {
        valid = w.valid;
        count = omega (arith, w.count);
        bytes =
            w.bytes
            ∙ rw (contents-put v x more, left, take-cons (room b) x xs some_left)
                (append_assoc (contents b) (x ∷ []) (take (room b - 1) xs));
        calls = w.calls ∙ rw left (ground arith);
        flags = w.flags;
        size = w.size;
        used = omega (arith, w.used, avail-put v x more);
      }

write_loop-Wrote :
    (src : List ℕ) (b : IoBuffer) (done : ℕ) → IsValid b → Wrote b src done (write_loop b src done)
unfolding write_loop
write_loop-Wrote [] b done v = record {
  valid = v;
  count = omega arith;
  bytes = rw (take-nil (room b), append-nil);
  calls = ground arith;
  flags = (refl, refl);
  size = refl;
  used = omega arith;
}
write_loop-Wrote (x ∷ xs) b done v = elim (Bool-cases (is_full b)) [
  | inl full ↦ rw full (Wrote-full v x xs done full)
  | inr more ↦
      rw more
        (Wrote-more v x xs done more (write_loop-Wrote xs (put b x) (done + 1) (put-IsValid v x)))
]

-- `exos_io_buffer_write` takes as many bytes as there is room for, returns their number, appends
-- them in order to the bytes that are there, and keeps the ring valid and its size.
pub write-append :
    (b : IoBuffer) (src : List ℕ)
    → IsValid b
    → let (done, b', _) = write b src in
      (done ≡ min (length src) (room b))
      × (contents b' ≡ contents b ++ take (room b) src)
      × IsValid b'
      × (b'.size ≡ b.size)
unfolding write
write-append b src v =
    let w = write_loop-Wrote src b 0 v in (omega (arith, w.count), w.bytes, w.valid, w.size)

Wrote-calls :
    {b : IoBuffer} (v : IsValid b) (src : List ℕ) {r : ℕ × IoBuffer × List Call}
    → Wrote b src 0 r
    → let (done, b', calls) = r in
      calls
        ++ (notify (done == length src && b'.has_not_full && is_full b') reset_not_full
            ++ notify (not (done == 0) && b'.has_not_empty) set_not_empty)
      ≡ notify (b.has_not_full && (room b' == 0)) reset_not_full
        ++ notify (b.has_not_empty && not (done == 0)) set_not_empty
Wrote-calls {b} v src {r} w = ground (arith, w.calls, is_full-room w.valid, w.flags, avail-lt v)

-- The events: NotFull is reset exactly when the write leaves the ring full, then NotEmpty is set
-- exactly when a byte went in; an event that is not there is left alone.
pub write_calls :
    (b : IoBuffer) (src : List ℕ)
    → IsValid b
    → let (done, b', calls) = write b src in
      calls
      ≡ notify (b.has_not_full && (room b' == 0)) reset_not_full
        ++ notify (b.has_not_empty && not (done == 0)) set_not_empty
unfolding write
write_calls b src v = Wrote-calls v src (write_loop-Wrote src b 0 v)
