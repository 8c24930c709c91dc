-- ===== src/Tcp/Io.antt =====
-- exos/kernel/driver/net/tcp_io.c: what a program does with its end of a connection. The debug checks
-- of the entry's type are left out; -1 is `none`. The address that `_receive` gives back is left out.
use ex_os.Base.{
  ℕ, Bool, true, false, not, ◌&&◌, Option, none, some, List, [], ◌∷◌, ◌++◌, map, ◌==◌,
  if◌then◌else◌, length,
}
use ex_os.IoBuffer.{read, write}
use ex_os.Tcp.{closed, Entry, TcpCall, on_rcv_buffer, on_snd_buffer, wake_service, service, Conn}
use ex_os.Tcp.Service.{
  Net, set_io, no_buffer, is_closed, is_listen, is_established, net_listen, close, accept, connect,
}

-- `net_tcp_io_create`
unfoldable pub create_io : Entry → Entry
create_io io = record io { rcv_buffer = no_buffer; snd_buffer = no_buffer; state = closed }

-- `_close` up to its wait; if the caller wants them, it gives the rings' storage back.
unfoldable pub close_io :
    ℕ → Net → ℕ → Bool → Option ((List ℕ × ℕ) × (List ℕ × ℕ)) × Net × List TcpCall
close_io now w n wanted =
    let rcv = (w.ios n).rcv_buffer in
    let snd = (w.ios n).snd_buffer in
    let (w', calls) = close now w n in
    (if wanted then some ((rcv.buffer, rcv.size), (snd.buffer, snd.size)) else none, w', calls)

-- `_bind`: `done` is not set when the entry is not closed, and the result is `unknown` then.
unfoldable pub bind_port : Bool → Net → ℕ → ℕ → Bool × Net
bind_port unknown w n port =
    if is_closed (w.ios n).state
    then (true, set_io w n (record (w.ios n) { local_port = port }))
    else (unknown, w)

-- `_connect` up to its wait
unfoldable pub connect_io :
    (ℕ → Bool) → ℕ → Net → ℕ → List ℕ × ℕ → List ℕ × ℕ → ℕ → ℕ → Bool × Net × List TcpCall
connect_io resolve now w n rcv snd ip port =
    if is_closed (w.ios n).state then connect resolve now w n rcv snd ip port else (false, w, [])

-- `_listen`
unfoldable pub listen_io : Net → ℕ → Bool × Net
listen_io w n =
    if is_closed (w.ios n).state then net_listen w n (w.ios n).local_port else (false, w)

-- `_accept`, once the wait for a connection has given one or none
unfoldable pub accept_io :
    ℕ → Net → ℕ → ℕ → List ℕ × ℕ → List ℕ × ℕ → Option Conn → Bool × Net × List TcpCall
accept_io now w n m rcv snd none = (false, w, [])
accept_io now w n m rcv snd (some conn) =
    let (w1, calls1) = if is_listen (w.ios m).state then close now w m else (w, []) in
    let (done, w2, calls2) = accept now w1 m rcv snd conn in
    if is_listen (w.ios n).state then (done, w2, calls1 ++ calls2) else (false, w, [])

-- `_read` and `_receive`
unfoldable pub io_read : Entry → ℕ → Option (List ℕ) × Entry × List TcpCall
io_read io n =
    let (bytes, buffer, calls) = read io.rcv_buffer n in
    (
      if (length bytes == 0) && not (is_established io.state) then none else some bytes,
      record io { rcv_buffer = buffer },
      map on_rcv_buffer calls,
    )

-- What `_write` puts into the ring
abbrev put_bytes : Entry → List ℕ → Option ℕ × Entry × List TcpCall
put_bytes io bytes =
    let (done, buffer, calls) = write io.snd_buffer bytes in
    if is_established io.state
    then (some done, record io { snd_buffer = buffer }, map on_snd_buffer calls)
    else (none, io, [])

-- `_write` and `_send`
unfoldable pub io_write : ℕ → Entry → List ℕ → Option ℕ × Entry × List TcpCall
io_write now io bytes =
    let (done, io', calls) = put_bytes io bytes in
    (
      done,
      service now (record io' { snd_flags = record io'.snd_flags { psh = true } }) 0,
      calls ++ (wake_service ∷ []),
    )
