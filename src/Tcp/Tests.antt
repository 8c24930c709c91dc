-- ===== src/Tcp/Tests.antt =====
-- Two connections being opened and used, and the theorems there.
use ex_os.Base.{
  ℕ, ◌<◌, ◌++◌, ◌≡◌, ◌⊎◌, inl, refl, Bool, true, false, none, some, List, [], ◌∷◌, arith, ◌==◌,
  if◌then◌else◌, take, drop, ltb, min, ◌-◌,
}
use ex_os.IoBuffer.{IoBuffer, create, avail, write, write_loop, read, read_loop, peek}
use ex_os.IoBuffer.Queue.{IsValid, contents}
use ex_os.Tcp.{
  closed, listen, syn_sent, established, no_flags, ack_flag, Entry, Segment, set_input, on_listen,
  input_in, handle_input, handle_ack, handle_incoming, handle_data,
}
use ex_os.Tcp.Io.{io_read, io_write}
use ex_os.Tcp.Service.{
  Net, find_io, find_handler, first_of, bind, net_listen, accept, connect, payload, payload_count,
  segment_of, handle, handle_in,
}
use ex_os.Tcp.Service.Graph.{segment, service_due, run, run_unanswered}
use ex_os.Tcp.Service.Retries.{rounds, rounds_closed}
use ex_os.Tcp.Service.Payload.{payload-take}
use ex_os.Tcp.Service.Progress.{exchange, moved, exchange-moved}
use ex_os.Tcp.Service.Entries.{listen-find_handler}
use ex_os.Tcp.Service.Link.{
  pick, act, link_step, LinkEvent, writes, reads, serves, receives, Link, at_left, at_right,
  link_run,
}
use ex_os.Tcp.Service.Delivery.{Fresh, Delivers, JustOpened, link_run-Delivers}
use ex_os.Tcp.Service.Handshake.{side_of, answered, confirmed, queued_conn, opening-JustOpened}

-- A ring of three places that goes round its end
abbrev round : IoBuffer
round = record {
  buffer = 3 ∷ 7 ∷ 1 ∷ 2 ∷ [];
  size = 4;
  produce = 1;
  consume = 2;
  has_not_empty = false;
  has_not_full = true;
}

round-IsValid : IsValid round
round-IsValid = omega arith

payload-take_example :
    (payload 2 round ≡ take 2 (contents round))
    × (payload_count 2 round
        ≡ (if ltb 2 (min (avail round) (round.size - round.consume)) then 2 else avail round))
payload-take_example = payload-take round round-IsValid 2

abbrev bytes_8 : List ℕ
bytes_8 = 0 ∷ 0 ∷ 0 ∷ 0 ∷ 0 ∷ 0 ∷ 0 ∷ 0 ∷ []

-- An entry that was never used
abbrev unused : Entry
unused = record {
  state = closed;
  local_port = 0;
  remote_port = 0;
  remote_ip = 0;
  rcv_next = 0;
  rcv_buffer = create bytes_8 8 true false;
  snd_seq = 0;
  snd_buffer = create bytes_8 8 false true;
  snd_flags = no_flags;
  accept_queue = [];
  service_wait = 0;
  service_retry = 0;
  service_time = 0;
}

abbrev connecting : Entry
connecting = record unused { state = syn_sent; snd_flags = record no_flags { syn = true } }

abbrev answer : Segment
answer = record {
  sequence = 0;
  ack_number = 1;
  flags = record ack_flag { syn = true };
  bytes = [];
  told = 0;
}

abbrev wrong_answer : Segment
wrong_answer = record answer { ack_number = 5 }

run_unanswered_example :
    let end = run 1460 connecting ((1, service_due) ∷ (2, segment wrong_answer) ∷ []) in
    (end.state ≡ syn_sent) ⊎ (end.state ≡ closed)
run_unanswered_example =
    run_unanswered 1460 0 connecting ((1, service_due) ∷ (2, segment wrong_answer) ∷ [])
      (inl (refl, refl)) (refl, (refl, tt))

rounds_closed_example : (rounds 1460 connecting (1 ∷ 1001 ∷ 2001 ∷ 3001 ∷ [])).state ≡ closed
rounds_closed_example =
    rounds_closed 1460 connecting (1 ∷ 1001 ∷ 2001 ∷ 3001 ∷ []) (omega arith) refl (omega arith)

abbrev one_entry : Net
one_entry = record {
  entries = 1 ∷ [];
  ios = λ n. if n == 1 then record unused { state = listen; local_port = 80 } else unused;
  free_conns = 2;
  port_hack = 0;
}

listen-find_handler_example :
    let (done, w') = net_listen one_entry 2 81 in
    (done ≡ true)
    × ((w'.ios 2).state ≡ listen)
    × ((local_port remote_ip remote_port : ℕ)
        → find_handler w' local_port remote_ip remote_port
          ≡ first_of
              (find_handler one_entry local_port remote_ip remote_port)
              (if 81 == local_port then some 2 else none))
unfolding find_io
listen-find_handler_example = listen-find_handler one_entry 2 81 refl (ground arith, tt) refl

abbrev anywhere : ℕ → Bool
anywhere ip = true

-- The entry 2 connects to the port 80, where the entry 1 listens, from the address 9.
abbrev client_net : Net
client_net = record one_entry { entries = [] }

abbrev client : Entry
client = (connect anywhere 5 client_net 2 (bytes_8, 8) (bytes_8, 8) 7 80).1.ios 2

abbrev listener : Entry
listener = one_entry.ios 1

abbrev server : Entry
server =
    (accept 5 one_entry 2 (bytes_8, 8) (bytes_8, 4)
        (queued_conn listener 9 10001 (segment_of 1460 client))).1.ios
      2

opening-JustOpened_example :
    (on_listen anywhere 2 listener 9 10001 (segment_of 1460 client)
      ≡ some (
        1,
        record listener {
          accept_queue =
              listener.accept_queue ++ (queued_conn listener 9 10001 (segment_of 1460 client) ∷ []);
        },
        set_input ∷ [],
      ))
    × JustOpened record {
      left = side_of (answered 1460 5 client server);
      right = side_of (confirmed 1460 5 client server);
    }
unfolding connect accept bind find_io segment_of
opening-JustOpened_example =
    opening-JustOpened 1460 5 client_net 2 one_entry 2 listener 1 anywhere anywhere (bytes_8, 8)
      (bytes_8, 8) (bytes_8, 8) (bytes_8, 4) 7 80 9 10001 (omega arith) (omega arith) (omega arith)
      (omega arith) refl refl refl

abbrev open_end : Entry
open_end = record unused { state = established; snd_seq = 1; rcv_next = 1 }

abbrev joined : Link
joined = record { left = side_of open_end; right = side_of open_end }

open_end-Fresh : Fresh (side_of open_end)
unfolding create avail
open_end-Fresh = record {
  is_open = record { state = refl; fin = refl; rst = refl };
  word = omega arith;
  snd = (omega arith, refl);
  rcv = (omega arith, refl);
  nothing = (refl, refl, refl);
}

joined-JustOpened : JustOpened joined
joined-JustOpened = record {
  left_fresh = open_end-Fresh;
  right_fresh = open_end-Fresh;
  numbers = refl;
  other_numbers = refl;
}

-- The left end's program writes, the segment arrives twice, and the right end's program reads.
abbrev talk : List LinkEvent
talk =
    at_left 10 (writes (5 ∷ 6 ∷ []))
    ∷ at_left 11 serves
    ∷ at_right 12 (receives 0 [] false)
    ∷ at_right 13 (receives 0 (4 ∷ []) true)
    ∷ at_right 14 (reads 1)
    ∷ []

talk_read : (link_run 1460 joined talk).right.read_bytes ≡ 5 ∷ []
unfolding link_run link_step act io_write io_read handle handle_in segment_of payload payload_count
    input_in handle_input handle_ack handle_incoming handle_data pick write write_loop read
    read_loop peek avail create
talk_read = refl

link_run-Delivers_example :
    Delivers (link_run 1460 joined talk).left (link_run 1460 joined talk).right
    × Delivers (link_run 1460 joined talk).right (link_run 1460 joined talk).left
unfolding link_run link_step act io_write write write_loop create pick handle handle_in segment_of
    payload_count peek avail payload
link_run-Delivers_example =
    link_run-Delivers 1460 joined talk joined-JustOpened (omega arith) (omega arith) (omega arith)
      (omega arith)

-- The left end has three bytes to send, and the right end's ring has room for two of them.
abbrev pushing : Link
pushing = record {
  left =
      side_of (record open_end { snd_buffer = round; snd_flags = record no_flags { psh = true } });
  right = side_of (record open_end { rcv_buffer = create (0 ∷ 0 ∷ 0 ∷ []) 3 true false });
}

exchange-moved_example :
    let l' = link_run 1460 pushing (exchange [] false 10 11 12 13) in
    let k = moved 1460 pushing.left.io pushing.right.io in
    (0 < k)
    × (contents l'.left.io.snd_buffer ≡ drop k (contents round))
    × (contents l'.right.io.rcv_buffer
        ≡ contents pushing.right.io.rcv_buffer ++ take k (contents round))
    × (l'.left.io.snd_seq ≡ l'.right.io.rcv_next)
unfolding create avail
exchange-moved_example =
    exchange-moved 1460 10 11 12 13 [] false pushing
      record {
        open_a = record { state = refl; fin = refl; rst = refl };
        open_b = record { state = refl; fin = refl; rst = refl };
        numbers = refl;
        other_numbers = refl;
        word = omega arith;
        other_word = omega arith;
      }
      round-IsValid (omega arith) (omega arith) (omega arith) (omega arith) refl (omega arith)
      (omega arith) (omega arith)
