-- ===== src/Tcp/Service/Progress.antt =====
-- That data get through: a turn of the service at one end, one at the other, and the two segments.
use ex_os.Base.{
  ℕ, zero, suc, ◌+◌, ◌-◌, ◌%◌, ◌^◌, ◌≤◌, ◌<◌, ◌≡◌, ◌≢◌, ◌∙◌, ◌⊎◌, inl, inr, refl, sym, ap, ap₂,
  Bool, Bool-cases, true, false, ◌||◌, List, [], ◌∷◌, ◌++◌, arith, min, ◌==◌, length, length-take,
  take, drop,
}
use ex_os.IoBuffer.{write, discard, avail}
use ex_os.IoBuffer.Queue.{IsValid, contents, length-bytes_from, avail-lt}
use ex_os.IoBuffer.Write.{room, write-append}
use ex_os.IoBuffer.Peek.{discard-drop}
use ex_os.Tcp.{
  Entry, Segment, TcpCall, plus, is_ahead, handle_ack, handle_data, handle_incoming, handle_input,
  input_in, input,
}
use ex_os.Tcp.Service.{handle_in, handle, payload, payload_count, segment_of}
use ex_os.Tcp.Service.Payload.{payload-take, payload_count_whole}
use ex_os.Tcp.Service.Link.{
  pick, sent_of, take_in_whole, act, serves, receives, Link, LinkEvent, at_left, at_right,
  link_step, link_run,
}
use ex_os.Tcp.Service.Ends.{IsOpen, Has, Sent}

-- An open end with something to send or to acknowledge sends one segment, with ACK.
abbrev SendsOne : ℕ → Entry → List TcpCall → Type 0
SendsOne max io calls =
    (seg : Segment) × (sent_of calls ≡ seg ∷ []) × Sent max io seg × (seg.flags.ack ≡ true)

last_true : (a b : Bool) → (a || (b || true)) ≡ true
last_true true b = refl
last_true false true = refl
last_true false false = refl

handle-SendsOne :
    (max now : ℕ) (io : Entry)
    → IsOpen io
    → ((io.snd_flags.psh ≡ true) ⊎ (io.snd_flags.ack ≡ true))
    → let (io', calls) = handle max now io in
      Has io' io.snd_seq io.snd_buffer io.rcv_next io.rcv_buffer × SendsOne max io calls
unfolding handle handle_in segment_of
handle-SendsOne max now io o flag = elim (Bool-cases io.snd_flags.psh) [
  | inl psh ↦
      rw (o.state, psh)
        (
          record {
            is_open = record { state = refl; fin = o.fin; rst = o.rst };
            seq = refl;
            snd_ring = refl;
            next = refl;
            rcv_ring = refl;
          },
          (
            _,
            refl,
            record {
              sequence = refl;
              bytes = refl;
              told = refl;
              ack = λ e. refl;
              fin = o.fin;
              rst = o.rst;
            },
            refl,
          ),
        )
  | inr quiet ↦
      let ack : io.snd_flags.ack ≡ true = acknowledges io quiet flag in
      rw (o.state, quiet, ack, last_true io.snd_flags.syn io.snd_flags.fin)
        (
          record {
            is_open = record { state = refl; fin = o.fin; rst = o.rst };
            seq = refl;
            snd_ring = refl;
            next = refl;
            rcv_ring = refl;
          },
          (
            _,
            refl,
            record {
              sequence = refl;
              bytes = refl;
              told = refl;
              ack = λ e. refl;
              fin = o.fin;
              rst = o.rst;
            },
            refl,
          ),
        )
]
  where
    acknowledges :
        (io : Entry)
        → io.snd_flags.psh ≡ false
        → ((io.snd_flags.psh ≡ true) ⊎ (io.snd_flags.ack ≡ true))
        → io.snd_flags.ack ≡ true
    acknowledges io quiet (inl psh) = absurd cc
    acknowledges io quiet (inr ack) = ack

-- The data of the segment that is expected, if it has some, are written to the ring.
input_takes :
    (now : ℕ) (io : Entry) (seg : Segment)
    → IsOpen io
    → seg.flags.fin ≡ false
    → seg.flags.rst ≡ false
    → seg.sequence ≡ io.rcv_next
    → length seg.bytes ≢ 0
    → seg.flags.ack ≡ true
    → seg.ack_number ≡ io.snd_seq
    → io.snd_seq < 2 ^ 32
    → Has
        (input now io seg).0
        io.snd_seq
        io.snd_buffer
        (plus io.rcv_next (write io.rcv_buffer seg.bytes).0)
        (write io.rcv_buffer seg.bytes).1
      × ((input now io seg).0.snd_flags.ack ≡ true)
unfolding input_in handle_input handle_ack handle_incoming handle_data
input_takes now io seg o fin rst number some_bytes ack acked word =
    let expected : (seg.sequence == io.rcv_next) ≡ true = ground arith in
    let not_ahead : is_ahead ((seg.ack_number + 2 ^ 32 - io.snd_seq) % 2 ^ 32) ≡ false =
      ground arith in
    let some_there : (length seg.bytes == 0) ≡ false = ground arith in
    rw (o.state, expected, ack, not_ahead, fin, rst, some_there)
      (
        record {
          is_open = record { state = refl; fin = o.fin; rst = o.rst };
          seq = refl;
          snd_ring = refl;
          next = refl;
          rcv_ring = refl;
        },
        refl,
      )

-- What the segment that is expected acknowledges is dropped from the ring.
input_drops :
    (now : ℕ) (io : Entry) (seg : Segment)
    → IsOpen io
    → seg.flags.fin ≡ false
    → seg.flags.rst ≡ false
    → seg.sequence ≡ io.rcv_next
    → seg.flags.ack ≡ true
    → let offset = (seg.ack_number + 2 ^ 32 - io.snd_seq) % 2 ^ 32 in
      is_ahead offset ≡ true
      → let io' = (input now io seg).0 in
        (io'.snd_seq ≡ plus io.snd_seq (discard io.snd_buffer offset).0)
        × (io'.snd_buffer ≡ (discard io.snd_buffer offset).1)
unfolding input_in handle_input handle_ack handle_incoming handle_data
input_drops now io seg o fin rst number ack ahead =
    let expected : (seg.sequence == io.rcv_next) ≡ true = ground arith in
    elim (Bool-cases (length seg.bytes == 0)) [
      | inl empty ↦ rw (o.state, expected, ack, ahead, fin, rst, empty) (refl, refl)
      | inr some_there ↦ rw (o.state, expected, ack, ahead, fin, rst, some_there) (refl, refl)
    ]

-- An acknowledgement of `k` more bytes
ahead_by :
    (seq k : ℕ)
    → 0 < k
    → k < 2 ^ 16
    → seq < 2 ^ 32
    → let offset = (plus seq k + 2 ^ 32 - seq) % 2 ^ 32 in (is_ahead offset ≡ true) × (offset ≡ k)
ahead_by seq k some_bytes few word =
    let is : (plus seq k + 2 ^ 32 - seq) % 2 ^ 32 ≡ k = omega arith in rw is (ground arith, refl)

-- Two entries that are open to one another, the numbers of each those that the other expects
pub record InStep (a b : Entry) : Type 0 where
  pub open_a : IsOpen a
  pub open_b : IsOpen b
  pub numbers : a.snd_seq ≡ b.rcv_next
  pub other_numbers : b.snd_seq ≡ a.rcv_next
  pub word : a.snd_seq < 2 ^ 32
  pub other_word : b.snd_seq < 2 ^ 32

-- The left end's service has its turn, the segment arrives, the right end's service has its turn, and
-- its segment arrives. `behind` stands behind both segments, and `passes` is whether the checksum of
-- one that tells of more data than it has comes out right.
abbrev pub exchange : List ℕ → Bool → ℕ → ℕ → ℕ → ℕ → List LinkEvent
exchange behind passes t1 t2 t3 t4 =
    at_left t1 serves
    ∷ at_right t2 (receives 0 behind passes)
    ∷ at_right t3 serves
    ∷ at_left t4 (receives 0 behind passes)
    ∷ []

exchange_lem :
    (max t1 t2 t3 t4 : ℕ) (behind : List ℕ) (passes : Bool) (l : Link) (seg seg2 : Segment)
    → seg.told ≡ length seg.bytes
    → seg2.told ≡ length seg2.bytes
    → sent_of (handle max t1 l.left.io).1 ≡ seg ∷ []
    → sent_of (handle max t3 (input t2 l.right.io seg).0).1 ≡ seg2 ∷ []
    → let l' = link_run max l (exchange behind passes t1 t2 t3 t4) in
      (l'.left.io ≡ (input t4 (handle max t1 l.left.io).0 seg2).0)
      × (l'.right.io ≡ (handle max t3 (input t2 l.right.io seg).0).0)
unfolding link_run link_step act pick
exchange_lem max t1 t2 t3 t4 behind passes l seg seg2 whole whole2 first second =
    let left = record l.left { io = (handle max t1 l.left.io).0; sent = seg ∷ l.left.sent } in
    rw
      (
        first,
        take_in_whole t2 l.right behind passes seg whole,
        second,
        take_in_whole t4 left behind passes seg2 whole2,
      )
      (refl, refl)

take-take_least : (n m : ℕ) (xs : List ℕ) → take n (take m xs) ≡ take (min (min m (length xs)) n) xs
take-take_least zero m xs = let e : min (min m (length xs)) 0 ≡ 0 = omega arith in rw e refl
take-take_least (suc n) zero xs =
    let e : min (min 0 (length xs)) (suc n) ≡ 0 = omega arith in rw e refl
take-take_least (suc n) (suc m) [] =
    let e : min (min (suc m) (length {A = ℕ} [])) (suc n) ≡ 0 = omega arith in rw e refl
take-take_least (suc n) (suc m) (x ∷ xs) =
    let e : min (min (suc m) (length (x ∷ xs))) (suc n) ≡ suc (min (min m (length xs)) n) =
      omega arith in
    rw e (ap (λ l. x ∷ l) (take-take_least n m xs))

-- How many bytes go from one ring to the other
abbrev pub moved : ℕ → Entry → Entry → ℕ
moved max a b = min (min max (avail a.snd_buffer)) (room b.rcv_buffer)

-- The receiver's part
takes_moved :
    (max now : ℕ) (a b : Entry) (seg : Segment)
    → InStep a b
    → IsValid a.snd_buffer
    → IsValid b.rcv_buffer
    → Sent max a seg
    → seg.flags.ack ≡ true
    → 0 < max
    → 0 < avail a.snd_buffer
    → let b' = (input now b seg).0 in
      IsOpen b'
      × (b'.snd_flags.ack ≡ true)
      × (b'.snd_seq ≡ b.snd_seq)
      × (b'.snd_buffer ≡ b.snd_buffer)
      × (b'.rcv_next ≡ plus a.snd_seq (moved max a b))
      × (contents b'.rcv_buffer
          ≡ contents b.rcv_buffer ++ take (moved max a b) (contents a.snd_buffer))
takes_moved max now a b seg i v v' s ack some_max some_there =
    let ring = a.snd_buffer in
    let held : length (contents ring) ≡ avail ring =
      length-bytes_from ring.buffer ring.size ring.consume (avail ring) in
    let bytes : seg.bytes ≡ take max (contents ring) = s.bytes ∙ (payload-take ring v max).0 in
    let size : length seg.bytes ≡ min max (avail ring) =
      ap length bytes ∙ length-take max (contents ring) ∙ ap (min max) held in
    let (h, flag) =
      input_takes now b seg i.open_b s.fin s.rst (s.sequence ∙ i.numbers) (omega (arith, size)) ack
        (s.ack ack ∙ sym i.other_numbers) i.other_word in
    let (count, grown, _, _) = write-append b.rcv_buffer seg.bytes v' in
    let number : (write b.rcv_buffer seg.bytes).0 ≡ moved max a b =
      count ∙ ap (λ n. min n (room b.rcv_buffer)) size in
    let least : take (room b.rcv_buffer) (take max (contents ring))
        ≡ take (moved max a b) (contents ring) =
      take-take_least (room b.rcv_buffer) max (contents ring)
      ∙ ap (λ n. take (min (min max n) (room b.rcv_buffer)) (contents ring)) held in
    (
      h.is_open,
      flag,
      h.seq,
      h.snd_ring,
      h.next ∙ ap₂ plus (sym i.numbers) number,
      ap contents h.rcv_ring
          ∙ grown
          ∙ ap (λ l. contents b.rcv_buffer ++ l) (ap (take (room b.rcv_buffer)) bytes ∙ least),
    )

-- The sender's part
drops_moved :
    (max now k : ℕ) (a a1 b2 : Entry) (seg2 : Segment)
    → Has a1 a.snd_seq a.snd_buffer a.rcv_next a.rcv_buffer
    → IsValid a.snd_buffer
    → Sent max b2 seg2
    → seg2.flags.ack ≡ true
    → b2.snd_seq ≡ a.rcv_next
    → b2.rcv_next ≡ plus a.snd_seq k
    → 0 < k
    → k ≤ avail a.snd_buffer
    → a.snd_seq < 2 ^ 32
    → let a' = (input now a1 seg2).0 in
      (a'.snd_seq ≡ plus a.snd_seq k) × (contents a'.snd_buffer ≡ drop k (contents a.snd_buffer))
drops_moved max now k a a1 b2 seg2 h v s ack number acked some_bytes within word =
    let ring = a.snd_buffer in
    let few : k < 2 ^ 16 = omega (arith, avail-lt v, v.short, within) in
    let (ahead, is) = ahead_by a.snd_seq k some_bytes few word in
    let offset : (seg2.ack_number + 2 ^ 32 - a1.snd_seq) % 2 ^ 32
        ≡ (plus a.snd_seq k + 2 ^ 32 - a.snd_seq) % 2 ^ 32 =
      ap₂ (λ x y. (x + 2 ^ 32 - y) % 2 ^ 32) (s.ack ack ∙ acked) h.seq in
    let (seq, left) =
      input_drops now a1 seg2 h.is_open s.fin s.rst (s.sequence ∙ number ∙ sym h.next) ack
        (ap is_ahead offset ∙ ahead) in
    let (count, rest, _, _, _) = discard-drop ring k v in
    let all : (discard ring k).0 ≡ k = omega (arith, count, within) in
    let same : discard a1.snd_buffer ((seg2.ack_number + 2 ^ 32 - a1.snd_seq) % 2 ^ 32)
        ≡ discard ring k =
      ap₂ discard h.snd_ring (offset ∙ is) in
    (
      seq ∙ ap₂ plus h.seq (ap (λ d. d.0) same ∙ all),
      ap contents (left ∙ ap (λ d. d.1) same) ∙ rest ∙ ap (λ n. drop n (contents ring)) all,
    )

-- Between two open ends, each expecting the other's number, whose send rings and the right receive
-- ring are valid, the send rings with at most one place more than a packet takes bytes: if the left
-- end's program has asked to push, its ring has bytes, the right end's ring has room and a packet
-- takes some bytes, then an exchange of two segments moves bytes: as many as there are, as fit into a
-- packet and as there is room for go from the front of the left ring to the back of the right one,
-- and the right end expects the number that the left one goes on with.
pub exchange-moved :
    (max t1 t2 t3 t4 : ℕ) (behind : List ℕ) (passes : Bool) (l : Link)
    → InStep l.left.io l.right.io
    → IsValid l.left.io.snd_buffer
    → IsValid l.right.io.rcv_buffer
    → IsValid l.right.io.snd_buffer
    → l.left.io.snd_buffer.size ≤ suc max
    → l.right.io.snd_buffer.size ≤ suc max
    → l.left.io.snd_flags.psh ≡ true
    → 0 < max
    → 0 < avail l.left.io.snd_buffer
    → 0 < room l.right.io.rcv_buffer
    → let l' = link_run max l (exchange behind passes t1 t2 t3 t4) in
      let k = moved max l.left.io l.right.io in
      (0 < k)
      × (contents l'.left.io.snd_buffer ≡ drop k (contents l.left.io.snd_buffer))
      × (contents l'.right.io.rcv_buffer
          ≡ contents l.right.io.rcv_buffer ++ take k (contents l.left.io.snd_buffer))
      × (l'.left.io.snd_seq ≡ l'.right.io.rcv_next)
exchange-moved max t1 t2 t3 t4 behind passes l i v v' v2 fits fits2 psh some_max some_there
      some_room =
    let a = l.left.io in
    let b = l.right.io in
    let k = moved max a b in
    let some_bytes : 0 < k = omega arith in
    let (h1, (seg, first, s, ack)) = handle-SendsOne max t1 a i.open_a (inl psh) in
    let (still_open, flag, same_seq, ring2, next, got) =
      takes_moved max t2 a b seg i v v' s ack some_max some_there in
    let b2 = (input t2 b seg).0 in
    let (h3, (seg2, second, s2, ack2)) = handle-SendsOne max t3 b2 still_open (inr flag) in
    let told : seg.told ≡ length seg.bytes =
      s.told ∙ payload_count_whole a.snd_buffer v max fits ∙ ap length (sym s.bytes) in
    let told2 : seg2.told ≡ length seg2.bytes =
      s2.told
      ∙ ap (payload_count max) ring2
      ∙ payload_count_whole b.snd_buffer v2 max fits2
      ∙ ap length (sym (s2.bytes ∙ ap (payload max) ring2)) in
    let (left, right) =
      exchange_lem max t1 t2 t3 t4 behind passes l seg seg2 told told2 first second in
    let (seq, dropped) =
      drops_moved max t4 k a (handle max t1 a).0 b2 seg2 h1 v s2 ack2 (same_seq ∙ i.other_numbers)
        next some_bytes (omega arith) i.word in
    (
      some_bytes,
      ap (λ io. contents io.snd_buffer) left ∙ dropped,
      ap (λ io. contents io.rcv_buffer) right ∙ ap contents h3.rcv_ring ∙ got,
      ap (λ io. io.snd_seq) left
          ∙ seq
          ∙ sym next
          ∙ sym h3.next
          ∙ sym (ap (λ io. io.rcv_next) right),
    )
