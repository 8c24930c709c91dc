-- ===== src/Tcp/Service/Joined.antt =====
-- That two ends of a connection stay joined by two flows of bytes, one in each direction.
use ex_os.Base.{
  ℕ, zero, suc, ◌+◌, ◌-◌, ◌%◌, ◌^◌, ◌≤◌, ◌<◌, ◌≡◌, ◌∙◌, ◌⊎◌, inl, inr, refl, sym, ap, ap₂, Bool,
  false, Option, none, some, List, [], ◌∷◌, ◌++◌, arith, min, length, length-append, take,
  take-append-drop,
}
use ex_os.LinkedList.Links.{All}
use ex_os.IoBuffer.{IoBuffer, write, read, discard, avail}
use ex_os.IoBuffer.Queue.{contents, length-bytes_from}
use ex_os.IoBuffer.Write.{room, write-append}
use ex_os.IoBuffer.Read.{read-take-drop}
use ex_os.IoBuffer.Peek.{discard-drop}
use ex_os.Tcp.{Entry, Segment, input}
use ex_os.Tcp.Service.{handle}
use ex_os.Tcp.Service.Payload.{payload-take, payload_count_whole}
use ex_os.Tcp.Service.Flow.{
  Flow, Carried, Acks, write-Flow, read-Flow, send-Flow, send_ack-Flow, ack-Flow, receive-Flow,
}
use ex_os.Tcp.Service.Ends.{IsOpen, Has, Sent, io_write-Has, io_read-Has, handle-Has}
use ex_os.Tcp.Service.Arrivals.{Acked, Taken, Took, input-Took}
use ex_os.Tcp.Service.Link.{
  Side, SideEvent, writes, reads, serves, receives, sent_of, accepted, given, pick, take_in,
  take_in_whole, act, Link, LinkEvent, at_left, at_right, link_step, link_run,
}
use ex_os.Tcp.Io.{io_read, io_write}

take-min : (n : ℕ) (xs : List ℕ) → take (min (length xs) n) xs ≡ take n xs
take-min zero xs = let nothing : min (length xs) 0 ≡ 0 = omega arith in rw nothing refl
take-min (suc n) [] =
    let nothing : min (length {A = ℕ} []) (suc n) ≡ 0 = omega arith in rw nothing refl
take-min (suc n) (x ∷ xs) =
    let inner : min (length (x ∷ xs)) (suc n) ≡ suc (min (length xs) n) = omega arith in
    rw inner (ap (λ l. x ∷ l) (take-min n xs))

-- A segment that neither closes nor resets, and tells of just its data
abbrev pub Plain : Segment → Type 0
Plain seg = (seg.flags.fin ≡ false) × (seg.flags.rst ≡ false) × (seg.told ≡ length seg.bytes)

-- The flow from one end to the other
abbrev pub From : ℕ → Side → Side → Type 0
From start a b =
    Flow start a.written b.read_bytes a.io.snd_buffer a.io.snd_seq b.io.rcv_buffer b.io.rcv_next
      a.sent b.sent

-- Both flows, and both ends open
pub record Joined (max start other : ℕ) (a b : Side) : Type 0 where
  pub out : From start a b
  pub back : From other b a
  pub open_a : IsOpen a.io
  pub open_b : IsOpen b.io
  pub plain_a : All Plain a.sent
  pub plain_b : All Plain b.sent
  pub fits_a : a.io.snd_buffer.size ≤ suc max
  pub fits_b : b.io.snd_buffer.size ≤ suc max

swap : {max start other : ℕ} {a b : Side} → Joined max start other a b → Joined max other start b a
swap j = record {
  out = j.back;
  back = j.out;
  open_a = j.open_b;
  open_b = j.open_a;
  plain_a = j.plain_b;
  plain_b = j.plain_a;
  fits_a = j.fits_b;
  fits_b = j.fits_a;
}

All-pick :
    (P : Segment → Type 0) (segs : List Segment) (i : ℕ) (seg : Segment)
    → pick segs i ≡ some seg
    → All P segs
    → P seg
unfolding pick
All-pick P [] i seg e h = absurd cc
All-pick P (x ∷ segs) zero seg e h = let same : x ≡ seg = cc in rw⁻¹ same h.0
All-pick P (x ∷ segs) (suc i) seg e h = All-pick P segs i seg e h.1

-- The same flow, of a sender or a receiver with the same parts
from_sender :
    {start : ℕ} {w r : List ℕ} {snd snd' : IoBuffer} {seq seq' : ℕ} {rcv : IoBuffer} {next : ℕ}
    {d k : List Segment}
    → snd' ≡ snd
    → seq' ≡ seq
    → Flow start w r snd seq rcv next d k
    → Flow start w r snd' seq' rcv next d k
from_sender e e' f = rw (e, e') f

to_receiver :
    {start : ℕ} {w r : List ℕ} {snd : IoBuffer} {seq : ℕ} {rcv rcv' : IoBuffer} {next next' : ℕ}
    {d k : List Segment}
    → rcv' ≡ rcv
    → next' ≡ next
    → Flow start w r snd seq rcv next d k
    → Flow start w r snd seq rcv' next' d k
to_receiver e e' f = rw (e, e') f

-- What an event at one end does to the two flows
module _ {max start other : ℕ} {a b : Side} (j : Joined max start other a b)
    (small : length a.written < 2 ^ 31) (small_b : length b.written < 2 ^ 31) where
  -- The end after a segment that it takes
  took-Joined :
      (seg : Segment) (io' : Entry)
      → Took a.io seg io'
      → Carried other b.written seg
      → Acks start (length j.out.received) seg
      → Joined max start other (record a { io = io' }) b
  took-Joined seg io' t c k = record {
    out = from_sender t.has.snd_ring t.has.seq (acked_out t.acked);
    back = to_receiver t.has.rcv_ring t.has.next (taken_back t.taken);
    open_a = t.has.is_open;
    open_b = j.open_b;
    plain_a = j.plain_a;
    plain_b = j.plain_b;
    fits_a = omega (arith, ap (λ b. b.size) t.has.snd_ring, size_kept t.acked, j.fits_a);
    fits_b = j.fits_b;
  }
    where
      size_kept :
          {seq : ℕ} {snd : IoBuffer} → Acked a.io seg seq snd → snd.size ≡ a.io.snd_buffer.size
      size_kept (inl (seq, ring)) = ap (λ b. b.size) ring
      size_kept (inr (flag, (ahead, seq, ring))) =
          let offset = (seg.ack_number + 2 ^ 32 - a.io.snd_seq) % 2 ^ 32 in
          let (_, _, _, size, _) = discard-drop a.io.snd_buffer offset j.out.snd_valid in
          ap (λ b. b.size) ring ∙ size

      acked_out :
          {seq : ℕ} {snd : IoBuffer}
          → Acked a.io seg seq snd
          → Flow start a.written b.read_bytes snd seq b.io.rcv_buffer b.io.rcv_next a.sent b.sent
      acked_out (inl (seq, ring)) = from_sender ring seq j.out
      acked_out (inr (flag, (ahead, seq, ring))) =
          let offset = (seg.ack_number + 2 ^ 32 - a.io.snd_seq) % 2 ^ 32 in
          let (count, rest, v, _, _) = discard-drop a.io.snd_buffer offset j.out.snd_valid in
          let held =
            length-bytes_from a.io.snd_buffer.buffer a.io.snd_buffer.size a.io.snd_buffer.consume
              (avail a.io.snd_buffer) in
          from_sender ring seq (
            ack-Flow j.out small seg (discard a.io.snd_buffer offset).0
              (discard a.io.snd_buffer offset).1 k flag ahead (omega (arith, count))
              (omega (arith, count, held)) v rest)

      taken_back :
          {next : ℕ} {rcv : IoBuffer}
          → Taken a.io seg next rcv
          → Flow other b.written a.read_bytes b.io.snd_buffer b.io.snd_seq rcv next b.sent a.sent
      taken_back (inl (next, ring)) = to_receiver ring next j.back
      taken_back (inr (next, ring)) =
          let (count, bytes, v, _) = write-append a.io.rcv_buffer seg.bytes j.back.rcv_valid in
          to_receiver ring next (
            receive-Flow j.back small_b seg (write a.io.rcv_buffer seg.bytes).0
              (write a.io.rcv_buffer seg.bytes).1 c t.number (omega (arith, count)) v
              (bytes
                ∙ ap (λ l. contents a.io.rcv_buffer ++ l)
                    (sym (rw count (take-min (room a.io.rcv_buffer) seg.bytes)))))

  take_in-Joined :
      (now : ℕ) (seg : Segment)
      → Carried other b.written seg
      → Acks start (length j.out.received) seg
      → Plain seg
      → Joined max start other (record a { io = (input now a.io seg).0 }) b
  take_in-Joined now seg c k (fin, rst, _) = elim (input-Took now a.io seg j.open_a fin rst) [
    | inl same ↦ rw same j
    | inr t ↦ took-Joined seg (input now a.io seg).0 t c k
  ]

  receives-Joined :
      (now : ℕ) (i : ℕ) (behind : List ℕ) (passes : Bool) (o : Option Segment)
      → pick b.sent i ≡ o
      → Joined max start other (take_in now a behind passes o) b
  receives-Joined now i behind passes none e = j
  receives-Joined now i behind passes (some seg) e =
      let plain = All-pick Plain b.sent i seg e j.plain_b in
      rw (take_in_whole now a behind passes seg plain.2) (
        take_in-Joined now seg (All-pick (Carried other b.written) b.sent i seg e j.back.carried)
          (All-pick (Acks start (length j.out.received)) b.sent i seg e j.out.acknowledged) plain)

  writes-Joined :
      (now : ℕ) (bytes : List ℕ) → Joined max start other (act max now b.sent a (writes bytes)) b
  unfolding act
  writes-Joined now bytes =
      let ring = a.io.snd_buffer in
      let (count, grown, v, size) = write-append ring bytes j.out.snd_valid in
      let (done, h) = io_write-Has now a.io bytes j.open_a in
      let new : accepted (io_write now a.io bytes).0 bytes ≡ take (room ring) bytes =
        ap (λ d. accepted d bytes) done ∙ rw count (take-min (room ring) bytes) in
      record {
        out = from_sender h.snd_ring h.seq (
            write-Flow j.out (accepted (io_write now a.io bytes).0 bytes) (write ring bytes).1 v
              (grown ∙ ap (λ l. contents ring ++ l) (sym new)));
        back = to_receiver h.rcv_ring h.next j.back;
        open_a = h.is_open;
        open_b = j.open_b;
        plain_a = j.plain_a;
        plain_b = j.plain_b;
        fits_a = omega (arith, ap (λ b. b.size) h.snd_ring, size, j.fits_a);
        fits_b = j.fits_b;
      }

  reads-Joined : (now : ℕ) (n : ℕ) → Joined max start other (act max now b.sent a (reads n)) b
  unfolding act
  reads-Joined now n =
      let ring = a.io.rcv_buffer in
      let (bytes, rest, v, _) = read-take-drop ring n j.back.rcv_valid in
      let (done, h) = io_read-Has a.io n j.open_a in
      let new : given (io_read a.io n).0 ≡ (read ring n).0 = ap given done in
      record {
        out = from_sender h.snd_ring h.seq j.out;
        back = to_receiver h.rcv_ring h.next (
            read-Flow j.back (given (io_read a.io n).0) (read ring n).1 v
              (sym (take-append-drop n (contents ring)) ∙ ap₂ ◌++◌ (sym (new ∙ bytes)) (sym rest)));
        open_a = h.is_open;
        open_b = j.open_b;
        plain_a = j.plain_a;
        plain_b = j.plain_b;
        fits_a = omega (arith, ap (λ b. b.size) h.snd_ring, j.fits_a);
        fits_b = j.fits_b;
      }

  sent-Joined :
      (io' : Entry) (news : List Segment)
      → Has io' a.io.snd_seq a.io.snd_buffer a.io.rcv_next a.io.rcv_buffer
      → ((news ≡ []) ⊎ ((seg : Segment) × (news ≡ seg ∷ []) × Sent max a.io seg))
      → Joined max start other (record a { io = io'; sent = news ++ a.sent }) b
  sent-Joined io' news h (inl none_sent) = rw none_sent record {
    out = from_sender h.snd_ring h.seq j.out;
    back = to_receiver h.rcv_ring h.next j.back;
    open_a = h.is_open;
    open_b = j.open_b;
    plain_a = j.plain_a;
    plain_b = j.plain_b;
    fits_a = omega (arith, ap (λ b. b.size) h.snd_ring, j.fits_a);
    fits_b = j.fits_b;
  }
  sent-Joined io' news h (inr (seg, one, s)) = rw one record {
    out = from_sender h.snd_ring h.seq (
        send-Flow j.out max seg s.sequence
          (s.bytes ∙ (payload-take a.io.snd_buffer j.out.snd_valid max).0));
    back = to_receiver h.rcv_ring h.next (send_ack-Flow j.back seg s.ack);
    open_a = h.is_open;
    open_b = j.open_b;
    plain_a = (
      (
        s.fin,
        s.rst,
        s.told
            ∙ payload_count_whole a.io.snd_buffer j.out.snd_valid max j.fits_a
            ∙ ap length (sym s.bytes),
      ),
      j.plain_a,
    );
    plain_b = j.plain_b;
    fits_a = omega (arith, ap (λ b. b.size) h.snd_ring, j.fits_a);
    fits_b = j.fits_b;
  }

  act-Joined : (now : ℕ) (e : SideEvent) → Joined max start other (act max now b.sent a e) b
  act-Joined now (writes bytes) = writes-Joined now bytes
  act-Joined now (reads n) = reads-Joined now n
  act-Joined now serves =
      let (h, s) = handle-Has max now a.io j.open_a in
      unfold act in sent-Joined (handle max now a.io).0 (sent_of (handle max now a.io).1) h s
  act-Joined now (receives i behind passes) =
      unfold act in receives-Joined now i behind passes (pick b.sent i) refl

-- What is written does not get less.
act-written :
    (max now : ℕ) (segs : List Segment) (a : Side) (e : SideEvent)
    → length a.written ≤ length (act max now segs a e).written
unfolding act
act-written max now segs a (writes bytes) =
    omega (arith, length-append a.written (accepted (io_write now a.io bytes).0 bytes))
act-written max now segs a (reads n) = omega arith
act-written max now segs a serves = omega arith
act-written max now segs a (receives i behind passes) =
    take_in-written now a behind passes (pick segs i)
  where
    take_in-written :
        (now : ℕ) (a : Side) (behind : List ℕ) (passes : Bool) (o : Option Segment)
        → length a.written ≤ length (take_in now a behind passes o).written
    take_in-written now a behind passes none = omega arith
    take_in-written now a behind passes (some seg) = ground arith

run-written :
    (max : ℕ) (l : Link) (es : List LinkEvent)
    → (length l.left.written ≤ length (link_run max l es).left.written)
      × (length l.right.written ≤ length (link_run max l es).right.written)
unfolding link_run link_step
run-written max l [] = (omega arith, omega arith)
run-written max l (at_left now e ∷ es) =
    let (left, right) = run-written max (link_step max l (at_left now e)) es in
    (omega (arith, left, act-written max now l.right.sent l.left e), right)
run-written max l (at_right now e ∷ es) =
    let (left, right) = run-written max (link_step max l (at_right now e)) es in
    (left, omega (arith, right, act-written max now l.left.sent l.right e))

pub run-Joined :
    (max start other : ℕ) (l : Link) (es : List LinkEvent)
    → Joined max start other l.left l.right
    → length (link_run max l es).left.written < 2 ^ 31
    → length (link_run max l es).right.written < 2 ^ 31
    → Joined max start other (link_run max l es).left (link_run max l es).right
unfolding link_run link_step
run-Joined max start other l [] j small small' = j
run-Joined max start other l (at_left now e ∷ es) j small small' =
    let (left, right) = run-written max l (at_left now e ∷ es) in
    run-Joined max start other (link_step max l (at_left now e)) es
      (act-Joined j (omega (arith, left)) (omega (arith, right)) now e) small small'
run-Joined max start other l (at_right now e ∷ es) j small small' =
    let (left, right) = run-written max l (at_right now e ∷ es) in
    run-Joined max start other (link_step max l (at_right now e)) es
      (swap (act-Joined (swap j) (omega (arith, right)) (omega (arith, left)) now e)) small small'
