-- ===== src/Tcp/Service.antt =====
-- exos/kernel/driver/net/tcp_service.c: opening and closing connections, and the service thread that
-- sends and times out. What blocks, the waits for events and the thread's loop, is cut at the wait. An
-- entry is a number; `resolve` is `net_ip_get_adapter_and_resolve`, and `max` is how much data a
-- packet takes. Sending has an adapter with an address.
pub mod Graph
pub mod Retries
pub mod Payload
pub mod Flow
pub mod Link
pub mod Ends
pub mod Arrivals
pub mod Joined
pub mod Delivery
pub mod Opening
pub mod Handshake
pub mod Progress
pub mod Entries
use ex_os.Base.{
  ℕ, zero, suc, ◌+◌, ◌-◌, ◌%◌, ◌^◌, Bool, true, false, not, ◌&&◌, ◌||◌, Option, none, some, List,
  [], ◌∷◌, ◌++◌, ltb, leb, ◌==◌, if◌then◌else◌, length, take, drop,
}
use ex_os.IoBuffer.{IoBuffer, peek}
use ex_os.IoBuffer
use ex_os.IoBuffer.Peek
use ex_os.Thread.{without, write_at}
use ex_os.Tcp.{
  TcpState, closed, listen, syn_sent, syn_received, established, close_wait, last_ack, fin_wait_1,
  fin_wait_2, closing, time_wait, Flags, no_flags, ack_flag, Conn, Entry, Segment, TcpCall,
  set_input, set_output, set_close, reset_close, wake_service, send, plus, service,
}

-- `_entries`, the entries, `_free_incoming_connections` by their number, and `_port_hack`
pub record Net : Type 0 where
  pub entries : List ℕ
  pub ios : ℕ → Entry
  pub free_conns : ℕ
  pub port_hack : ℕ

abbrev pub set_io : Net → ℕ → Entry → Net
set_io w n io = record w { ios = write_at w.ios n io }

abbrev pub is_key : Entry → ℕ → ℕ → ℕ → Bool
is_key io local_port remote_ip remote_port =
    (io.local_port == local_port)
    && ((io.remote_ip == remote_ip) && (io.remote_port == remote_port))

-- `__tcp_io_find_io`
unfoldable pub find_io : (ℕ → Entry) → List ℕ → ℕ → ℕ → ℕ → Option ℕ
find_io ios [] local_port remote_ip remote_port = none
find_io ios (n ∷ ns) local_port remote_ip remote_port =
    let rest = find_io ios ns local_port remote_ip remote_port in
    if is_key (ios n) local_port remote_ip remote_port then some n else rest

-- The entry that `net_tcp_input` gives a segment to
abbrev pub first_of : Option ℕ → Option ℕ → Option ℕ
first_of (some n) other = some n
first_of none other = other

unfoldable pub find_handler : Net → ℕ → ℕ → ℕ → Option ℕ
find_handler w local_port remote_ip remote_port =
    first_of (find_io w.ios w.entries local_port remote_ip remote_port)
      (find_io w.ios w.entries local_port 0 0)

-- What `_bind` does with the entry that it found
abbrev pub bind_found : Net → ℕ → TcpState → Option ℕ → Bool × Net
bind_found w n init none = (
  true,
  record (set_io w n (record (w.ios n) { state = init })) { entries = w.entries ++ (n ∷ []) },
)
bind_found w n init (some existing) =
    if existing == n then (true, set_io w n (record (w.ios n) { state = init })) else (false, w)

-- `_bind`, which resets the close event too
unfoldable pub bind : Net → ℕ → TcpState → Bool × Net
bind w n init =
    let io = w.ios n in
    bind_found w n init (find_io w.ios w.entries io.local_port io.remote_ip io.remote_port)

abbrev pub is_closed : TcpState → Bool
is_closed closed = true
is_closed _ = false

abbrev pub is_listen : TcpState → Bool
is_listen listen = true
is_listen _ = false

abbrev pub is_established : TcpState → Bool
is_established established = true
is_established _ = false

-- `net_tcp_listen`
unfoldable pub net_listen : Net → ℕ → ℕ → Bool × Net
net_listen w n local_port =
    let io = record (w.ios n) {
      local_port = local_port;
      remote_port = 0;
      remote_ip = 0;
      accept_queue = [];
    } in
    if is_closed (w.ios n).state then bind (set_io w n io) n listen else (false, w)

-- The rings of a new connection: the receiver's tells of data, the sender's of room.
abbrev pub with_buffers : Entry → List ℕ × ℕ → List ℕ × ℕ → Entry
with_buffers io (rcv, rcv_size) (snd, snd_size) = record io {
  rcv_buffer = IoBuffer.create rcv rcv_size true false;
  snd_buffer = IoBuffer.create snd snd_size false true;
}

-- `(EXOS_IO_BUFFER) { .Buffer = NULL }`
abbrev pub no_buffer : IoBuffer
no_buffer = record {
  buffer = [];
  size = 0;
  produce = 0;
  consume = 0;
  has_not_empty = false;
  has_not_full = false;
}

abbrev pub accepted_io : Entry → List ℕ × ℕ → List ℕ × ℕ → Conn → Entry
accepted_io io rcv snd conn = record (with_buffers io rcv snd) {
  local_port = conn.local_port;
  remote_port = conn.remote_port;
  remote_ip = conn.remote_ip;
  rcv_next = plus conn.sequence 1;
  snd_seq = 0;
  snd_flags = record ack_flag { syn = true };
}

-- `net_tcp_accept` after `_bind`, up to its wait
abbrev pub accept_bound : ℕ → ℕ → Bool × Net → Bool × Net × List TcpCall
accept_bound now n (true, w) = (
  true,
  record (set_io w n (service now (w.ios n) 0)) { free_conns = w.free_conns + 1 },
  reset_close ∷ wake_service ∷ [],
)
accept_bound now n (false, w) =
    (false, record w { free_conns = w.free_conns + 1 }, reset_close ∷ [])

-- `net_tcp_accept` up to its wait
unfoldable pub accept : ℕ → Net → ℕ → List ℕ × ℕ → List ℕ × ℕ → Conn → Bool × Net × List TcpCall
accept now w n rcv snd conn =
    if is_closed (w.ios n).state
    then accept_bound now n (bind (set_io w n (accepted_io (w.ios n) rcv snd conn)) n syn_received)
    else (false, w, [])

-- The end of `net_tcp_connect` when it has not connected
unfoldable pub abandon : Net → ℕ → List TcpCall → Bool × Net × List TcpCall
abandon w n calls = (
  false,
  set_io w n (record (w.ios n) { rcv_buffer = no_buffer; snd_buffer = no_buffer }),
  calls ++ (set_close ∷ []),
)

-- `net_tcp_connect` after its wait
unfoldable pub connected : Net → ℕ → Bool × Net × List TcpCall
connected w n = if is_established (w.ios n).state then (true, w, []) else abandon w n []

abbrev pub connecting_io : Entry → List ℕ × ℕ → List ℕ × ℕ → Entry
connecting_io io rcv snd = record (with_buffers io rcv snd) {
  rcv_next = 0;
  snd_seq = 0;
  snd_flags = record no_flags { syn = true };
}

-- `net_tcp_connect` after `_bind`, up to its wait or to its end
abbrev pub connect_bound : ℕ → ℕ → Bool × Net → Bool × Net × List TcpCall
connect_bound now n (true, w) =
    (true, set_io w n (service now (w.ios n) 0), reset_close ∷ reset_close ∷ wake_service ∷ [])
connect_bound now n (false, w) = abandon w n (reset_close ∷ reset_close ∷ [])

-- `net_tcp_connect` up to its wait, or to its end
unfoldable pub connect :
    (ℕ → Bool) → ℕ → Net → ℕ → List ℕ × ℕ → List ℕ × ℕ → ℕ → ℕ → Bool × Net × List TcpCall
connect resolve now w n rcv snd ip port =
    let hack = (w.port_hack + 1) % 1000 in
    let io = record (w.ios n) { local_port = 10000 + hack; remote_port = port; remote_ip = ip } in
    let w' = record w { port_hack = hack } in
    if is_closed (w.ios n).state
    then (if resolve ip
        then connect_bound now n (bind (set_io w' n (connecting_io io rcv snd)) n syn_sent)
        else abandon (set_io w' n io) n (reset_close ∷ []))
    else abandon w n []

-- The `switch` of `net_tcp_close`
unfoldable pub close_in : TcpState → Entry → Entry
close_in close_wait io = record io { snd_flags = record ack_flag { fin = true }; state = last_ack }
close_in syn_received io = record io {
  snd_flags = record ack_flag { fin = true };
  state = fin_wait_1;
}
close_in established io = record io {
  snd_flags = record ack_flag { fin = true };
  state = fin_wait_1;
}
close_in _ io = io

-- `net_tcp_close` up to its wait for the close event
unfoldable pub close : ℕ → Net → ℕ → Net × List TcpCall
close now w n =
    let io = w.ios n in
    if is_listen io.state
    then (
      record (set_io w n (record io { state = closed; accept_queue = [] })) {
        entries = without n w.entries;
        free_conns = w.free_conns + length io.accept_queue;
      },
      set_close ∷ [],
    )
    else if is_closed io.state
    then (w, [])
    else (set_io w n (service now (close_in io.state io) 0), wake_service ∷ [])

-- `count` bytes of the ring's storage
abbrev pub piece : IoBuffer → ℕ → Option ℕ → List ℕ
piece b count none = []
piece b count (some index) = Peek.piece b.buffer index count

-- The data of `_send`: one or two pieces of the ring, no more than fit
unfoldable pub payload : ℕ → IoBuffer → List ℕ
payload max b =
    let (n, at) = peek b 0 in
    let (n2, at2) = peek b n in
    if ltb max n
    then piece b max at
    else piece b n at ++ piece b (if ltb max (n + n2) then n2 - (n + n2 - max) else n2) at2

-- `payload` of `_send` when it becomes `tcp_length`: that of the second piece is not cut.
unfoldable pub payload_count : ℕ → IoBuffer → ℕ
payload_count max b =
    let (n, at) = peek b 0 in let (n2, at2) = peek b n in if ltb max n then max else n + n2

-- `_send`
unfoldable pub segment_of : ℕ → Entry → Segment
segment_of max io = record {
  sequence = io.snd_seq;
  ack_number = if io.snd_flags.ack then io.rcv_next else 0;
  flags = io.snd_flags;
  bytes = payload max io.snd_buffer;
  told = payload_count max io.snd_buffer;
}

-- A state that waits for so many rounds, and is closed then
abbrev pub retry : ℕ → ℕ → Entry → Entry
retry rounds wait io =
    if ltb io.service_retry rounds
    then record io { service_wait = wait }
    else record io { state = closed }

-- The `switch` of `_handle`. The case of FIN_WAIT runs into the default.
unfoldable pub handle_in : TcpState → Entry → Entry × List TcpCall
handle_in syn_sent io = (retry 3 1000 io, [])
handle_in established io = (
  if io.snd_flags.psh
      then record io { snd_flags = record io.snd_flags { ack = true }; service_wait = 100 }
      else record io { service_wait = 30000 },
  [],
)
handle_in close_wait io = (record io { service_wait = 1000 }, set_input ∷ set_output ∷ [])
handle_in time_wait io = (
  if io.snd_flags.ack && (io.service_retry == 0)
      then record io { service_wait = 2000 }
      else record io { state = closed },
  [],
)
handle_in last_ack io = (retry 3 1000 io, [])
handle_in fin_wait_1 io = (record (retry 1 5000 io) { service_wait = 30000 }, [])
handle_in fin_wait_2 io = (record (retry 1 5000 io) { service_wait = 30000 }, [])
handle_in _ io = (record io { service_wait = 30000 }, [])

abbrev pub has_flag : Flags → Bool
has_flag f = f.psh || (f.syn || (f.fin || f.ack))

-- `_handle`
unfoldable pub handle : ℕ → ℕ → Entry → Entry × List TcpCall
handle max now io =
    let (io1, calls) = handle_in io.state io in
    let io2 = if is_closed io1.state then io1 else record io1 { service_time = now } in
    let sent =
      if not (is_closed io1.state) && has_flag io1.snd_flags
      then send (segment_of max io2) ∷ []
      else [] in
    (record io2 { service_retry = (io2.service_retry + 1) % 2 ^ 16 }, calls ++ sent)

-- `rem` of `_service`, an `int`: whether it is positive, and its value then
abbrev pub remaining : ℕ → Entry → ℕ
remaining now io = (io.service_wait + 2 ^ 32 - (now + 2 ^ 32 - io.service_time) % 2 ^ 32) % 2 ^ 32

abbrev pub is_due : ℕ → Entry → Bool
is_due now io = (remaining now io == 0) || leb 2147483648 (remaining now io)

-- One entry's turn in `_service` that is not listening: the entry, the calls, and `rem`
unfoldable pub serve : ℕ → ℕ → Entry → Entry × List TcpCall × ℕ
serve max now io =
    let (io', calls) = handle max now io in
    if is_closed io.state
    then (io, [], 2147483647)
    else if is_due now io
    then (io', calls, io'.service_wait)
    else (io, [], remaining now io)

-- The loop of `_service` over the entries: the entries, the calls with the entry's number, and `rem_min`
unfoldable pub serve_all : ℕ → ℕ → Net → List ℕ → ℕ → Net × List (ℕ × List TcpCall) × ℕ
serve_all max now w [] rem_min = (w, [], rem_min)
serve_all max now w (n ∷ ns) rem_min =
    let (io, calls, rem) = serve max now (w.ios n) in
    let gone = is_closed io.state in
    let served = set_io w n io in
    let w' = if gone then record served { entries = without n w.entries } else served in
    let events = if gone then set_output ∷ set_close ∷ [] else [] in
    let listening = is_listen (w.ios n).state in
    let (w2, rest, rem_min') =
      serve_all max now (if listening then w else w') ns
        (if listening then rem_min else if ltb rem rem_min then rem else rem_min) in
    (w2, (n, if listening then [] else calls ++ events) ∷ rest, rem_min')
