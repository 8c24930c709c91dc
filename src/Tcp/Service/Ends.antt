-- ===== src/Tcp/Service/Ends.antt =====
-- What the operations of an end make of the parts of an open connection's entry.
use ex_os.Base.{
  ℕ, ◌≡◌, ◌⊎◌, inl, inr, refl, ap, Bool, Bool-cases, true, false, some, List, [], ◌∷◌, arith,
  if◌then◌else◌,
}
use ex_os.IoBuffer.{IoBuffer, write, read}
use ex_os.Tcp.{established, Entry, Segment, TcpCall, send}
use ex_os.Tcp.Service.{handle_in, handle, payload, payload_count, segment_of}
use ex_os.Tcp.Service.Link.{sent_of}
use ex_os.Tcp.Io.{io_read, io_write}

-- Open, and not about to be closed
pub record IsOpen (io : Entry) : Type 0 where
  pub state : io.state ≡ established
  pub fin : io.snd_flags.fin ≡ false
  pub rst : io.snd_flags.rst ≡ false

-- `io'` has the numbers and rings given.
pub record Has (io : Entry) (snd_seq : ℕ) (snd : IoBuffer) (rcv_next : ℕ) (rcv : IoBuffer)
    : Type 0 where
  pub is_open : IsOpen io
  pub seq : io.snd_seq ≡ snd_seq
  pub snd_ring : io.snd_buffer ≡ snd
  pub next : io.rcv_next ≡ rcv_next
  pub rcv_ring : io.rcv_buffer ≡ rcv

pub io_write-Has :
    (now : ℕ) (io : Entry) (bytes : List ℕ)
    → IsOpen io
    → let (done, io', _) = io_write now io bytes in
      (done ≡ some (write io.snd_buffer bytes).0)
      × Has io' io.snd_seq (write io.snd_buffer bytes).1 io.rcv_next io.rcv_buffer
unfolding io_write
io_write-Has now io bytes o = rw o.state (
  refl,
  record {
    is_open = record { state = refl; fin = o.fin; rst = o.rst };
    seq = refl;
    snd_ring = refl;
    next = refl;
    rcv_ring = refl;
  },
)

pub io_read-Has :
    (io : Entry) (n : ℕ)
    → IsOpen io
    → let (bytes, io', _) = io_read io n in
      (bytes ≡ some (read io.rcv_buffer n).0)
      × Has io' io.snd_seq io.snd_buffer io.rcv_next (read io.rcv_buffer n).1
unfolding io_read
io_read-Has io n o = (
  grind (arith, o.state),
  record {
    is_open = record { state = o.state; fin = o.fin; rst = o.rst };
    seq = refl;
    snd_ring = refl;
    next = refl;
    rcv_ring = refl;
  },
)

-- A segment that `io` sends
pub record Sent (max : ℕ) (io : Entry) (seg : Segment) : Type 0 where
  pub sequence : seg.sequence ≡ io.snd_seq
  pub bytes : seg.bytes ≡ payload max io.snd_buffer
  pub told : seg.told ≡ payload_count max io.snd_buffer
  pub ack : seg.flags.ack ≡ true → seg.ack_number ≡ io.rcv_next
  pub fin : seg.flags.fin ≡ false
  pub rst : seg.flags.rst ≡ false

-- None or one of them
abbrev pub SentBy : ℕ → Entry → List TcpCall → Type 0
SentBy max io calls =
    (sent_of calls ≡ []) ⊎ ((seg : Segment) × (sent_of calls ≡ seg ∷ []) × Sent max io seg)

one_or_none :
    (max : ℕ) (io : Entry) (b : Bool) (seg : Segment)
    → Sent max io seg
    → SentBy max io (if b then send seg ∷ [] else [])
one_or_none max io true seg s = inr (seg, refl, s)
one_or_none max io false seg s = inl refl

pub segment_of-Sent :
    (max : ℕ) (io io' : Entry)
    → io'.snd_seq ≡ io.snd_seq
    → io'.snd_buffer ≡ io.snd_buffer
    → io'.rcv_next ≡ io.rcv_next
    → io'.snd_flags.fin ≡ false
    → io'.snd_flags.rst ≡ false
    → Sent max io (segment_of max io')
unfolding segment_of
segment_of-Sent max io io' seq ring next fin rst = record {
  sequence = seq;
  bytes = ap (payload max) ring;
  told = ap (payload_count max) ring;
  ack = λ flag. rw flag next;
  fin = fin;
  rst = rst;
}

pub handle-Has :
    (max now : ℕ) (io : Entry)
    → IsOpen io
    → let (io', calls) = handle max now io in
      Has io' io.snd_seq io.snd_buffer io.rcv_next io.rcv_buffer × SentBy max io calls
unfolding handle handle_in
handle-Has max now io o = elim (Bool-cases io.snd_flags.psh) [
  | inl psh ↦
      rw (o.state, psh)
        (
          record {
            is_open = record { state = refl; fin = o.fin; rst = o.rst };
            seq = refl;
            snd_ring = refl;
            next = refl;
            rcv_ring = refl;
          },
          inr (_, refl, segment_of-Sent max _ _ refl refl refl o.fin o.rst),
        )
  | inr quiet ↦
      rw (o.state, quiet)
        (
          record {
            is_open = record { state = refl; fin = o.fin; rst = o.rst };
            seq = refl;
            snd_ring = refl;
            next = refl;
            rcv_ring = refl;
          },
          one_or_none max _ _ _ (segment_of-Sent max _ _ refl refl refl o.fin o.rst),
        )
]
