-- ===== src/Tcp.antt =====
-- exos/kernel/driver/net/tcp.c: what a segment does to the connection that it is for.
-- `unsigned long` has 32 bits. A segment is its header's fields in the host's order and its data; the
-- flags URG, ECE and CWR, which nothing reads, and the window are left out. What happens to events, to
-- the rings' events and to the service thread is a list of calls, in order. `now` is `exos_timer_time`.
-- The listening part of the union `TCP_IO_ENTRY`, the accept queue, is a field of its own. Locks are left
-- out: each handler holds the connection's lock.
pub mod Service
pub mod Io
pub mod Tests
use ex_os.Base.{
  ℕ, zero, suc, ◌+◌, ◌-◌, ◌%◌, ◌^◌, Bool, true, false, not, ◌&&◌, Option, none, some, List, [], ◌∷◌,
  ◌++◌, map, ltb, ◌==◌, if◌then◌else◌, length,
}
use ex_os.IoBuffer.{IoBuffer, Call, write, discard, avail}

-- `TCP_STATE`
pub data TcpState : Type 0 where
  closed listen syn_sent syn_received established close_wait last_ack : TcpState
  fin_wait_1 fin_wait_2 closing time_wait : TcpState

-- `TCP_FLAGS`
pub record Flags : Type 0 where
  pub fin : Bool
  pub syn : Bool
  pub rst : Bool
  pub psh : Bool
  pub ack : Bool

abbrev pub no_flags : Flags
no_flags = record { fin = false; syn = false; rst = false; psh = false; ack = false }

abbrev pub ack_flag : Flags
ack_flag = record { fin = false; syn = false; rst = false; psh = false; ack = true }

-- `TCP_INCOMING_CONN`
pub record Conn : Type 0 where
  pub remote_ip : ℕ
  pub remote_port : ℕ
  pub local_port : ℕ
  pub sequence : ℕ

-- `TCP_IO_ENTRY`
pub record Entry : Type 0 where
  pub state : TcpState
  pub local_port : ℕ
  pub remote_port : ℕ
  pub remote_ip : ℕ
  pub rcv_next : ℕ
  pub rcv_buffer : IoBuffer
  pub snd_seq : ℕ
  pub snd_buffer : IoBuffer
  pub snd_flags : Flags
  pub accept_queue : List Conn
  pub service_wait : ℕ
  pub service_retry : ℕ
  pub service_time : ℕ

-- `TCP_HEADER`, the data behind it, and how many they are by the length in the IP header, less the
-- headers
pub record Segment : Type 0 where
  pub sequence : ℕ
  pub ack_number : ℕ
  pub flags : Flags
  pub bytes : List ℕ
  pub told : ℕ

pub data TcpCall : Type 0 where
  on_rcv_buffer : Call → TcpCall
  on_snd_buffer : Call → TcpCall
  set_input set_output set_close reset_close wake_service : TcpCall
  send : Segment → TcpCall

-- Arithmetic of sequence numbers
abbrev pub plus : ℕ → ℕ → ℕ
plus a b = (a + b) % 2 ^ 32

-- `net_tcp_service`
abbrev pub service : ℕ → Entry → ℕ → Entry
service now io wait = record io {
  service_time = now;
  service_wait = wait % 2 ^ 16;
  service_retry = 0;
}

-- `offset > 0` of `_handle_input`, an `int`
abbrev pub is_ahead : ℕ → Bool
is_ahead offset = ltb 0 offset && ltb offset 2147483648

-- "handle ACK" of `_handle_input`
unfoldable pub handle_ack : Entry → ℕ → Entry × List TcpCall
handle_ack io ack_number =
    let offset = (ack_number + 2 ^ 32 - io.snd_seq) % 2 ^ 32 in
    let (k, buffer, calls) = discard io.snd_buffer offset in
    let flags = if avail buffer == 0 then record io.snd_flags { psh = false } else io.snd_flags in
    if is_ahead offset
    then (
      record io { snd_seq = plus io.snd_seq k; snd_buffer = buffer; snd_flags = flags },
      map on_snd_buffer calls,
    )
    else (io, [])

-- "handle incoming" of `_handle_input` without RST: the data
unfoldable pub handle_data : ℕ → Entry → List ℕ → Entry × List TcpCall
handle_data now io bytes =
    let (done, buffer, calls) = write io.rcv_buffer bytes in
    if length bytes == 0
    then (record io { snd_flags = record io.snd_flags { ack = false } }, [])
    else (
      record io {
        rcv_next = plus io.rcv_next done;
        rcv_buffer = buffer;
        snd_flags = record io.snd_flags { ack = true };
      },
      map on_rcv_buffer calls,
    )

-- And FIN
unfoldable pub handle_fin : Entry → Entry
handle_fin io = record io {
  rcv_next = plus io.rcv_next 1;
  snd_flags = record io.snd_flags { ack = true };
  state = close_wait;
}

-- "handle incoming" of `_handle_input`, with the call of the service
unfoldable pub handle_incoming : ℕ → Entry → Segment → Entry × List TcpCall
handle_incoming now io seg =
    let (io', calls) = handle_data now io seg.bytes in
    if seg.flags.rst
    then (service now (record io { state = closed }) 0, wake_service ∷ [])
    else if seg.flags.fin
    then (service now (handle_fin io') 0, calls ++ (wake_service ∷ []))
    else if length seg.bytes == 0
    then (io', calls)
    else (service now io' 10, calls ++ (wake_service ∷ []))

-- `_handle_input`
unfoldable pub handle_input : ℕ → Entry → Segment → Entry × List TcpCall
handle_input now io seg =
    let (io1, calls1) = if seg.flags.ack then handle_ack io seg.ack_number else (io, []) in
    let (io2, calls2) = handle_incoming now io1 seg in
    if seg.sequence == io.rcv_next then (io2, calls1 ++ calls2) else (io, [])

-- The cases of `net_tcp_input`
unfoldable pub on_syn_sent : ℕ → Entry → Segment → Entry × List TcpCall
on_syn_sent now io seg =
    if seg.flags.syn && (seg.flags.ack && (seg.ack_number == plus io.snd_seq 1))
    then (
      service now
          (record io {
            rcv_next = plus seg.sequence 1;
            snd_seq = plus io.snd_seq 1;
            snd_flags = ack_flag;
            state = established;
          })
          0,
      wake_service ∷ set_output ∷ [],
    )
    else (io, [])

unfoldable pub on_syn_received : Entry → Segment → Entry × List TcpCall
on_syn_received io seg =
    if not seg.flags.syn && (seg.flags.ack && (seg.sequence == io.rcv_next))
    then (
      record io { snd_seq = seg.ack_number; snd_flags = no_flags; state = established },
      set_output ∷ [],
    )
    else (io, [])

-- The part of `TCP_STATE_FIN_WAIT_1` under ACK
unfoldable pub fin_acked : Entry → Segment → Entry
fin_acked io seg =
    if seg.flags.fin
    then record io {
      snd_seq = seg.ack_number;
      rcv_next = plus io.rcv_next 1;
      snd_flags = ack_flag;
      state = closing;
    }
    else record io { snd_seq = seg.ack_number; snd_flags = no_flags; state = fin_wait_2 }

unfoldable pub on_fin_wait_1 : ℕ → Entry → Segment → Entry × List TcpCall
on_fin_wait_1 now io seg =
    let io' = if seg.flags.ack then fin_acked io seg else io in
    if seg.sequence == io.rcv_next
    then (
      service now (record io' { rcv_next = plus io'.rcv_next (length seg.bytes) }) 0,
      wake_service ∷ [],
    )
    else (io, [])

unfoldable pub on_fin_wait_2 : ℕ → Entry → Segment → Entry × List TcpCall
on_fin_wait_2 now io seg =
    let io' =
      if seg.flags.fin
      then record io { rcv_next = plus io.rcv_next 1; snd_flags = ack_flag; state = time_wait }
      else io in
    if seg.sequence == io.rcv_next
    then (
      service now (record io' { rcv_next = plus io'.rcv_next (length seg.bytes) }) 0,
      wake_service ∷ [],
    )
    else (io, [])

-- `TCP_STATE_CLOSING` and `TCP_STATE_LAST_ACK`
unfoldable pub on_last : ℕ → TcpState → Entry → Segment → Entry × List TcpCall
on_last now next io seg =
    if seg.flags.ack && (seg.sequence == io.rcv_next)
    then (service now (record io { snd_seq = seg.ack_number; state = next }) 10, wake_service ∷ [])
    else (io, [])

-- The `switch` of `net_tcp_input`, without `TCP_STATE_LISTEN`
unfoldable pub input_in : TcpState → ℕ → Entry → Segment → Entry × List TcpCall
input_in closed now io seg = (io, [])
input_in listen now io seg = (io, [])
input_in syn_sent now io seg = on_syn_sent now io seg
input_in syn_received now io seg = on_syn_received io seg
input_in established now io seg = handle_input now io seg
input_in close_wait now io seg = (io, [])
input_in last_ack now io seg = on_last now closed io seg
input_in fin_wait_1 now io seg = on_fin_wait_1 now io seg
input_in fin_wait_2 now io seg = on_fin_wait_2 now io seg
input_in closing now io seg = on_last now time_wait io seg
input_in time_wait now io seg = (io, [])

abbrev pub input : ℕ → Entry → Segment → Entry × List TcpCall
input now io seg = input_in io.state now io seg

-- `TCP_STATE_LISTEN`: `free` is how many `TCP_INCOMING_CONN` are free, `resolve` is
-- `net_ip_resolve`, whose failure is a panic.
unfoldable pub on_listen :
    (ℕ → Bool) → ℕ → Entry → ℕ → ℕ → Segment → Option (ℕ × Entry × List TcpCall)
on_listen resolve zero io ip port seg = some (zero, io, [])
on_listen resolve (suc free) io ip port seg =
    let conn : Conn = record {
      remote_ip = ip;
      remote_port = port;
      local_port = io.local_port;
      sequence = seg.sequence;
    } in
    if seg.flags.syn && not seg.flags.ack
    then (if resolve ip
        then some
            (free, record io { accept_queue = io.accept_queue ++ (conn ∷ []) }, set_input ∷ [])
        else none)
    else some (suc free, io, [])
