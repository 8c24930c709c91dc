-- ===== src/Tcp/Service/Handshake.antt =====
-- The three segments between two ends that begin to open, one by `net_tcp_connect` and one by
-- `net_tcp_accept`.
use ex_os.Base.{ℕ, suc, ◌≡◌, refl, sym, ap, Bool, true, some, List, [], ◌∷◌, ◌++◌, arith}
use ex_os.Tcp.{
  established, syn_sent, syn_received, no_flags, ack_flag, Conn, Entry, Segment, set_input, plus,
  service, on_syn_sent, on_syn_received, on_listen, input_in, input,
}
use ex_os.Tcp.Service.{Net, accept, connect, segment_of}
use ex_os.Tcp.Service.Link.{Side}
use ex_os.Tcp.Service.Delivery.{JustOpened}
use ex_os.Tcp.Service.Opening.{IsRoom, Started, syn_flag, syn_ack, accept-Started, connect-Started}

-- The entries after the three segments of the handshake: the other's SYN with ACK arrives at the one
-- that connects, and its ACK at the one that accepts.
abbrev pub answered : ℕ → ℕ → Entry → Entry → Entry
answered max now c s = (input now c (segment_of max s)).0

abbrev pub confirmed : ℕ → ℕ → Entry → Entry → Entry
confirmed max now c s = (input now s (segment_of max (answered max now c s))).0

abbrev pub side_of : Entry → Side
side_of io = record { io = io; written = []; read_bytes = []; sent = [] }

answered_lem :
    (max now : ℕ) (c s : Entry)
    → Started syn_sent syn_flag 0 c
    → Started syn_received syn_ack 1 s
    → answered max now c s
      ≡ service now
          (record c { rcv_next = 1; snd_seq = 1; snd_flags = ack_flag; state = established })
          0
unfolding input_in on_syn_sent segment_of
answered_lem max now c s o p = rw (o.state, p.flags, p.number, o.number, p.next) refl

confirm :
    (max now : ℕ) (c s : Entry)
    → c.snd_seq ≡ 1
    → c.rcv_next ≡ 1
    → c.snd_flags ≡ ack_flag
    → Started syn_received syn_ack 1 s
    → (input now s (segment_of max c)).0
      ≡ record s { snd_seq = 1; snd_flags = no_flags; state = established }
unfolding input_in on_syn_received segment_of
confirm max now c s number next flags p = rw (p.state, p.next, flags, number, next) refl

confirmed_lem :
    (max now : ℕ) (c s : Entry)
    → Started syn_sent syn_flag 0 c
    → Started syn_received syn_ack 1 s
    → confirmed max now c s ≡ record s { snd_seq = 1; snd_flags = no_flags; state = established }
confirmed_lem max now c s o p =
    let answer = answered_lem max now c s o p in
    confirm max now (answered max now c s) s (ap (λ io. io.snd_seq) answer)
      (ap (λ io. io.rcv_next) answer) (ap (λ io. io.snd_flags) answer) p

entries-JustOpened :
    (max now : ℕ) (c s : Entry)
    → Started syn_sent syn_flag 0 c
    → Started syn_received syn_ack 1 s
    → JustOpened
        record { left = side_of (answered max now c s); right = side_of (confirmed max now c s) }
entries-JustOpened max now c s o p =
    let left = answered_lem max now c s o p in
    let right = confirmed_lem max now c s o p in
    rw (left, right)
      record {
        left_fresh = record {
          is_open = record { state = refl; fin = refl; rst = refl };
          word = omega arith;
          snd = o.snd;
          rcv = o.rcv;
          nothing = (refl, refl, refl);
        };
        right_fresh = record {
          is_open = record { state = refl; fin = refl; rst = refl };
          word = omega arith;
          snd = p.snd;
          rcv = p.rcv;
          nothing = (refl, refl, refl);
        };
        numbers = sym p.next;
        other_numbers = refl;
      }

-- The connection that a listening entry queues when a SYN arrives
abbrev pub queued_conn : Entry → ℕ → ℕ → Segment → Conn
queued_conn io ip port seg = record {
  remote_ip = ip;
  remote_port = port;
  local_port = io.local_port;
  sequence = seg.sequence;
}

-- If `net_tcp_connect` at one end and `net_tcp_accept` at the other both get to their wait, with storage for
-- their rings, then: a listening entry that gets the first one's SYN, with a `TCP_INCOMING_CONN` to
-- spare and an address that can be resolved, queues just the connection that the second one accepts; and
-- when the second one's SYN with ACK and the first one's answer have arrived, the two ends have just
-- been opened to one another: both established, each expecting the other's number, their rings empty.
pub opening-JustOpened :
    (max now : ℕ) (client : Net) (n : ℕ) (server : Net) (m : ℕ) (listener : Entry) (free : ℕ)
    (resolve listener_resolve : ℕ → Bool) (rcv snd rcv' snd' : List ℕ × ℕ) (ip port ip' port' : ℕ)
    → IsRoom rcv
    → IsRoom snd
    → IsRoom rcv'
    → IsRoom snd'
    → listener_resolve ip' ≡ true
    → let (connecting, client', _) = connect resolve now client n rcv snd ip port in
      let syn = segment_of max (client'.ios n) in
      let conn = queued_conn listener ip' port' syn in
      let (accepting, server', _) = accept now server m rcv' snd' conn in
      connecting ≡ true
      → accepting ≡ true
      → (on_listen listener_resolve (suc free) listener ip' port' syn
          ≡ some (
            free,
            record listener { accept_queue = listener.accept_queue ++ (conn ∷ []) },
            set_input ∷ [],
          ))
        × JustOpened record {
          left = side_of (answered max now (client'.ios n) (server'.ios m));
          right = side_of (confirmed max now (client'.ios n) (server'.ios m));
        }
unfolding on_listen segment_of
opening-JustOpened max now client n server m listener free resolve listener_resolve rcv snd rcv'
      snd' ip port ip' port' r s r' s' known e e' =
    let o = connect-Started now client n rcv snd r s resolve ip port e in
    let c = (connect resolve now client n rcv snd ip port).1.ios n in
    let conn = queued_conn listener ip' port' (segment_of max c) in
    let p = accept-Started now server m rcv' snd' r' s' conn e' in
    let first : plus conn.sequence 1 ≡ 1 = rw o.number refl in
    (
      rw (known, o.flags) refl,
      entries-JustOpened max now c ((accept now server m rcv' snd' conn).1.ios m) o (rw first at p),
    )
