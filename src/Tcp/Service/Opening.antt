-- ===== src/Tcp/Service/Opening.antt =====
-- How a connection begins to open: `net_tcp_connect` at one end, `net_tcp_accept` at the other.
use ex_os.Base.{
  ℕ, ◌+◌, ◌%◌, ◌^◌, ◌≤◌, ◌<◌, ◌≡◌, inl, inr, refl, Bool, Bool-cases, true, false, Option, none,
  some, List, arith, ◌==◌, length,
}
use ex_os.IoBuffer.{create, avail}
use ex_os.Tcp.{
  TcpState, syn_sent, syn_received, Flags, no_flags, ack_flag, Conn, Entry, plus, service,
}
use ex_os.Tcp.Service.{
  Net, set_io, is_closed, find_io, bind_found, bind, accept, accepted_io, accept_bound, abandon,
  connecting_io, connect_bound, connect,
}
use ex_os.Tcp.Service.Delivery.{Empty}

-- Storage for a ring
pub record IsRoom (room : List ℕ × ℕ) : Type 0 where
  pub positive : 0 < room.1
  pub short : room.1 < 2 ^ 16
  pub storage : room.1 ≤ length room.0

create-Empty :
    (buffer : List ℕ) (size : ℕ) (b b' : Bool)
    → IsRoom (buffer, size)
    → Empty (create buffer size b b')
unfolding create avail
create-Empty buffer size b b' r = (
  record {
    positive = r.positive;
    short = r.short;
    storage = r.storage;
    produce_in = r.positive;
    consume_in = r.positive;
  },
  omega arith,
)

bind_found-ios :
    (w : Net) (n : ℕ) (init : TcpState) (o : Option ℕ)
    → (bind_found w n init o).0 ≡ true
    → (bind_found w n init o).1.ios n ≡ record (w.ios n) { state = init }
bind_found-ios w n init none e = let same : (n == n) ≡ true = ground arith in rw same refl
bind_found-ios w n init (some m) e = elim (Bool-cases (m == n)) [
  | inl is ↦ let same : (n == n) ≡ true = ground arith in rw (is, same) refl
  | inr other ↦ let never : false ≡ true = rw other at e in absurd cc
]

bind-ios :
    (w : Net) (n : ℕ) (init : TcpState)
    → (bind w n init).0 ≡ true
    → (bind w n init).1.ios n ≡ record (w.ios n) { state = init }
unfolding bind
bind-ios w n init e =
    bind_found-ios w n init
      (find_io w.ios w.entries (w.ios n).local_port (w.ios n).remote_ip (w.ios n).remote_port) e

-- An end that has just begun to open
pub record Started (s : TcpState) (f : Flags) (expected : ℕ) (io : Entry) : Type 0 where
  pub state : io.state ≡ s
  pub flags : io.snd_flags ≡ f
  pub number : io.snd_seq ≡ 0
  pub next : io.rcv_next ≡ expected
  pub snd : Empty io.snd_buffer
  pub rcv : Empty io.rcv_buffer

abbrev pub syn_flag : Flags
syn_flag = record no_flags { syn = true }

abbrev pub syn_ack : Flags
syn_ack = record ack_flag { syn = true }

ios-set_io : (w : Net) (n : ℕ) (io : Entry) → (set_io w n io).ios n ≡ io
ios-set_io w n io = let same : (n == n) ≡ true = ground arith in rw same refl

bind-Started :
    (now : ℕ) (w : Net) (n : ℕ) (io : Entry) {s init : TcpState} {f : Flags} {expected : ℕ}
    → Started s f expected io
    → (bind (set_io w n io) n init).0 ≡ true
    → Started init f expected (service now ((bind (set_io w n io) n init).1.ios n) 0)
bind-Started now w n io {s} {init} o e =
    rw (bind-ios (set_io w n io) n init e, ios-set_io w n io)
      record {
        state = refl;
        flags = o.flags;
        number = o.number;
        next = o.next;
        snd = o.snd;
        rcv = o.rcv;
      }

accept_bound-ios :
    (now n : ℕ) (r : Bool × Net)
    → (accept_bound now n r).0 ≡ true
    → (r.0 ≡ true) × ((accept_bound now n r).1.ios n ≡ service now (r.1.ios n) 0)
accept_bound-ios now n (true, w) e = (refl, ios-set_io w n (service now (w.ios n) 0))
accept_bound-ios now n (false, w) e = absurd cc

connect_bound-ios :
    (now n : ℕ) (r : Bool × Net)
    → (connect_bound now n r).0 ≡ true
    → (r.0 ≡ true) × ((connect_bound now n r).1.ios n ≡ service now (r.1.ios n) 0)
unfolding abandon
connect_bound-ios now n (true, w) e = (refl, ios-set_io w n (service now (w.ios n) 0))
connect_bound-ios now n (false, w) e = absurd cc

module _ (now : ℕ) (w : Net) (n : ℕ) (rcv snd : List ℕ × ℕ) (r : IsRoom rcv) (s : IsRoom snd) where
  pub accept-Started :
      (conn : Conn)
      → (accept now w n rcv snd conn).0 ≡ true
      → Started syn_received syn_ack (plus conn.sequence 1) ((accept now w n rcv snd conn).1.ios n)
  unfolding accept
  accept-Started conn e = elim (Bool-cases (is_closed (w.ios n).state)) [
    | inr open_before ↦ let never : false ≡ true = rw open_before at e in absurd cc
    | inl closed_before ↦ rw closed_before (bound (rw closed_before at e))
  ]
    where
      bound :
          let bound_net = bind (set_io w n (accepted_io (w.ios n) rcv snd conn)) n syn_received in
          (accept_bound now n bound_net).0 ≡ true
          → Started syn_received syn_ack
              (plus conn.sequence 1)
              ((accept_bound now n bound_net).1.ios n)
      bound e =
          let io = accepted_io (w.ios n) rcv snd conn in
          let (yes_bound, ios) = accept_bound-ios now n (bind (set_io w n io) n syn_received) e in
          let begun : Started (w.ios n).state syn_ack (plus conn.sequence 1) io = record {
            state = refl;
            flags = refl;
            number = refl;
            next = refl;
            snd = create-Empty snd.0 snd.1 false true s;
            rcv = create-Empty rcv.0 rcv.1 true false r;
          } in
          rw ios (bind-Started now w n io begun yes_bound)

  pub connect-Started :
      (resolve : ℕ → Bool) (ip port : ℕ)
      → (connect resolve now w n rcv snd ip port).0 ≡ true
      → Started syn_sent syn_flag 0 ((connect resolve now w n rcv snd ip port).1.ios n)
  unfolding connect abandon
  connect-Started resolve ip port e = elim (Bool-cases (is_closed (w.ios n).state)) [
    | inr open_before ↦ let never : false ≡ true = rw open_before at e in absurd cc
    | inl closed_before ↦ elim (Bool-cases (resolve ip)) [
      | inr unknown ↦ let never : false ≡ true = rw (closed_before, unknown) at e in absurd cc
      | inl known ↦ rw (closed_before, known) (bound (rw (closed_before, known) at e))
    ]
  ]
    where
      bound :
          let w' = record w { port_hack = (w.port_hack + 1) % 1000 } in
          let io =
            connecting_io
              (record (w.ios n) {
                local_port = 10000 + (w.port_hack + 1) % 1000;
                remote_port = port;
                remote_ip = ip;
              })
              rcv
              snd in
          let bound_net = bind (set_io w' n io) n syn_sent in
          (connect_bound now n bound_net).0 ≡ true
          → Started syn_sent syn_flag 0 ((connect_bound now n bound_net).1.ios n)
      bound e =
          let w' = record w { port_hack = (w.port_hack + 1) % 1000 } in
          let io =
            connecting_io
              (record (w.ios n) {
                local_port = 10000 + (w.port_hack + 1) % 1000;
                remote_port = port;
                remote_ip = ip;
              })
              rcv snd in
          let (yes_bound, ios) = connect_bound-ios now n (bind (set_io w' n io) n syn_sent) e in
          let begun : Started (w.ios n).state syn_flag 0 io = record {
            state = refl;
            flags = refl;
            number = refl;
            next = refl;
            snd = create-Empty snd.0 snd.1 false true s;
            rcv = create-Empty rcv.0 rcv.1 true false r;
          } in
          rw ios (bind-Started now w' n io begun yes_bound)
