-- ===== src/Tcp/Service/Arrivals.antt =====
-- What a segment does to the parts of an open connection's entry.
use ex_os.Base.{
  ℕ, ◌+◌, ◌-◌, ◌%◌, ◌^◌, ◌≡◌, ◌∙◌, ◌⊎◌, inl, inr, refl, sym, ap, Bool, Bool-cases, true, false, [],
  arith, ◌==◌, if◌then◌else◌, length,
}
use ex_os.IoBuffer.{IoBuffer, write, discard}
use ex_os.Tcp.{
  Entry, Segment, plus, is_ahead, handle_ack, handle_data, handle_incoming, handle_input, input_in,
  input,
}
use ex_os.Tcp.Service.Ends.{IsOpen, Has}

-- What is left of the sender's ring, and its number, after a segment's acknowledgement
abbrev pub Acked : Entry → Segment → ℕ → IoBuffer → Type 0
Acked io seg seq snd =
    ((seq ≡ io.snd_seq) × (snd ≡ io.snd_buffer))
    ⊎ ((seg.flags.ack ≡ true)
        × let offset = (seg.ack_number + 2 ^ 32 - io.snd_seq) % 2 ^ 32 in
          (is_ahead offset ≡ true)
          × (seq ≡ plus io.snd_seq (discard io.snd_buffer offset).0)
          × (snd ≡ (discard io.snd_buffer offset).1))

-- The receiver's ring and number after a segment's data
abbrev pub Taken : Entry → Segment → ℕ → IoBuffer → Type 0
Taken io seg next rcv =
    ((next ≡ io.rcv_next) × (rcv ≡ io.rcv_buffer))
    ⊎ ((next ≡ plus io.rcv_next (write io.rcv_buffer seg.bytes).0)
        × (rcv ≡ (write io.rcv_buffer seg.bytes).1))

same_Has : (io : Entry) → IsOpen io → Has io io.snd_seq io.snd_buffer io.rcv_next io.rcv_buffer
same_Has io o = record { is_open = o; seq = refl; snd_ring = refl; next = refl; rcv_ring = refl }

handle_ack-Has :
    (io : Entry) (seg : Segment) (b : Bool)
    → IsOpen io
    → seg.flags.ack ≡ b
    → (seq : ℕ) × (snd : IoBuffer) × Acked io seg seq snd
      × Has
          (if b then handle_ack io seg.ack_number else (io, [])).0
          seq
          snd
          io.rcv_next
          io.rcv_buffer
unfolding handle_ack
handle_ack-Has io seg false o e = (io.snd_seq, io.snd_buffer, inl (refl, refl), same_Has io o)
handle_ack-Has io seg true o e =
    let offset = (seg.ack_number + 2 ^ 32 - io.snd_seq) % 2 ^ 32 in
    elim (Bool-cases (is_ahead offset)) [
      | inr not_ahead ↦ rw not_ahead (io.snd_seq, io.snd_buffer, inl (refl, refl), same_Has io o)
      | inl ahead ↦ rw ahead (
        plus io.snd_seq (discard io.snd_buffer offset).0,
        (discard io.snd_buffer offset).1,
        inr (e, (refl, refl, refl)),
        record {
          is_open = record {
            state = o.state;
            fin = ground (arith, o.fin);
            rst = ground (arith, o.rst);
          };
          seq = refl;
          snd_ring = refl;
          next = refl;
          rcv_ring = refl;
        },
      )
    ]

handle_incoming-Has :
    (now : ℕ) (io : Entry) (seg : Segment)
    → IsOpen io
    → seg.flags.fin ≡ false
    → seg.flags.rst ≡ false
    → (next : ℕ) × (rcv : IoBuffer) × Taken io seg next rcv
      × Has (handle_incoming now io seg).0 io.snd_seq io.snd_buffer next rcv
unfolding handle_incoming handle_data
handle_incoming-Has now io seg o fin rst = elim (Bool-cases (length seg.bytes == 0)) [
  | inl empty ↦
      rw (fin, rst, empty)
        (
          io.rcv_next,
          io.rcv_buffer,
          inl (refl, refl),
          record {
            is_open = record { state = o.state; fin = o.fin; rst = o.rst };
            seq = refl;
            snd_ring = refl;
            next = refl;
            rcv_ring = refl;
          },
        )
  | inr some_data ↦
      rw (fin, rst, some_data)
        (
          plus io.rcv_next (write io.rcv_buffer seg.bytes).0,
          (write io.rcv_buffer seg.bytes).1,
          inr (refl, refl),
          record {
            is_open = record { state = o.state; fin = o.fin; rst = o.rst };
            seq = refl;
            snd_ring = refl;
            next = refl;
            rcv_ring = refl;
          },
        )
]

-- What a segment does to an open end: nothing, or both parts
pub record Took (io : Entry) (seg : Segment) (io' : Entry) : Type 0 where
  pub snd_seq : ℕ
  pub snd : IoBuffer
  pub rcv_next : ℕ
  pub rcv : IoBuffer
  pub number : seg.sequence ≡ io.rcv_next
  pub acked : Acked io seg snd_seq snd
  pub taken : Taken io seg rcv_next rcv
  pub has : Has io' snd_seq snd rcv_next rcv

Taken-Has :
    (io io1 : Entry) (seg : Segment) (seq : ℕ) (snd : IoBuffer) (next : ℕ) (rcv : IoBuffer)
    → Has io1 seq snd io.rcv_next io.rcv_buffer
    → Taken io1 seg next rcv
    → Taken io seg next rcv
Taken-Has io io1 seg seq snd next rcv h t = rw (sym h.next, sym h.rcv_ring) t

-- An open end's first part, then the second
both_parts :
    (io io1 io2 : Entry) (seg : Segment) (seq next : ℕ) (snd rcv : IoBuffer)
    → seg.sequence ≡ io.rcv_next
    → Acked io seg seq snd
    → Has io1 seq snd io.rcv_next io.rcv_buffer
    → Taken io1 seg next rcv
    → Has io2 io1.snd_seq io1.snd_buffer next rcv
    → Took io seg io2
both_parts io io1 io2 seg seq next snd rcv number acked h taken h' = record {
  snd_seq = seq;
  snd = snd;
  rcv_next = next;
  rcv = rcv;
  number = number;
  acked = acked;
  taken = Taken-Has io io1 seg seq snd next rcv h taken;
  has = record {
    is_open = h'.is_open;
    seq = h'.seq ∙ h.seq;
    snd_ring = h'.snd_ring ∙ h.snd_ring;
    next = h'.next;
    rcv_ring = h'.rcv_ring;
  };
}

handle_input-Took :
    (now : ℕ) (io : Entry) (seg : Segment)
    → IsOpen io
    → seg.flags.fin ≡ false
    → seg.flags.rst ≡ false
    → ((handle_input now io seg).0 ≡ io) ⊎ Took io seg (handle_input now io seg).0
unfolding handle_input
handle_input-Took now io seg o fin rst = elim (Bool-cases (seg.sequence == io.rcv_next)) [
  | inr other ↦ inl (rw other refl)
  | inl expected ↦
      let io1 = (if seg.flags.ack then handle_ack io seg.ack_number else (io, [])).0 in
      let (seq, snd, acked, h) = handle_ack-Has io seg seg.flags.ack o refl in
      let (next, rcv, taken, h') = handle_incoming-Has now io1 seg h.is_open fin rst in
      inr (
        rw expected (
          both_parts io io1 (handle_incoming now io1 seg).0 seg seq next snd rcv (ground arith)
            acked h taken h'))
]

pub input-Took :
    (now : ℕ) (io : Entry) (seg : Segment)
    → IsOpen io
    → seg.flags.fin ≡ false
    → seg.flags.rst ≡ false
    → ((input now io seg).0 ≡ io) ⊎ Took io seg (input now io seg).0
unfolding input_in
input-Took now io seg o fin rst =
    let open_input : input now io seg ≡ handle_input now io seg =
      ap (λ s. input_in s now io seg) o.state in
    rw open_input (handle_input-Took now io seg o fin rst)
