-- ===== src/Tcp/Service/Graph.antt =====
-- The states of a connection, as a diagram.
use ex_os.Base.{
  true, ℕ, ◌≡◌, ◌∙◌, ◌⊎◌, inl, inr, refl, Bool, false, ◌&&◌, List, [], ◌∷◌, arith, ◌==◌,
  if◌then◌else◌,
}
use ex_os.LinkedList.Links.{All}
use ex_os.Tcp.{
  TcpState, closed, listen, syn_sent, syn_received, established, close_wait, last_ack, fin_wait_1,
  fin_wait_2, closing, time_wait, Entry, Segment, plus, service, handle_ack, handle_data,
  handle_fin, handle_incoming, handle_input, on_syn_sent, on_syn_received, fin_acked, on_fin_wait_1,
  on_fin_wait_2, on_last, input_in, input,
}
use ex_os.Tcp.Service.{handle_in, handle, close_in}

-- What happens to an open connection.
pub data TcpEvent : Type 0 where
  segment : Segment → TcpEvent
  service_due : TcpEvent
  close_call : TcpEvent

-- The edges: segments with the flags that they need, `net_tcp_close`, and time-outs.
pub data Edge : TcpEvent → TcpState → TcpState → Type 0 where
  connected :
      (seg : Segment)
      → seg.flags.syn ≡ true
      → seg.flags.ack ≡ true
      → Edge (segment seg) syn_sent established
  accepted :
      (seg : Segment)
      → seg.flags.syn ≡ false
      → seg.flags.ack ≡ true
      → Edge (segment seg) syn_received established
  reset : (seg : Segment) → seg.flags.rst ≡ true → Edge (segment seg) established closed
  other_closed :
      (seg : Segment)
      → seg.flags.rst ≡ false
      → seg.flags.fin ≡ true
      → Edge (segment seg) established close_wait
  fin_acknowledged :
      (seg : Segment)
      → seg.flags.ack ≡ true
      → seg.flags.fin ≡ false
      → Edge (segment seg) fin_wait_1 fin_wait_2
  both_closed :
      (seg : Segment)
      → seg.flags.ack ≡ true
      → seg.flags.fin ≡ true
      → Edge (segment seg) fin_wait_1 closing
  fin_received : (seg : Segment) → seg.flags.fin ≡ true → Edge (segment seg) fin_wait_2 time_wait
  closing_acknowledged :
      (seg : Segment) → seg.flags.ack ≡ true → Edge (segment seg) closing time_wait
  last_acknowledged : (seg : Segment) → seg.flags.ack ≡ true → Edge (segment seg) last_ack closed
  close_answered : Edge close_call close_wait last_ack
  close_accepted : Edge close_call syn_received fin_wait_1
  close_connection : Edge close_call established fin_wait_1
  connect_timeout : Edge service_due syn_sent closed
  last_timeout : Edge service_due last_ack closed
  fin_timeout : Edge service_due fin_wait_1 closed
  other_fin_timeout : Edge service_due fin_wait_2 closed
  waited : Edge service_due time_wait closed

-- The entry after an event at the time `now`.
pub step : ℕ → ℕ → Entry → TcpEvent → Entry
step max now io (segment seg) = (input now io seg).0
step max now io service_due = (handle max now io).0
step max now io close_call = service now (close_in io.state io) 0

handle_ack-state : (io : Entry) (n : ℕ) → (handle_ack io n).0.state ≡ io.state
unfolding handle_ack
handle_ack-state io n = ground arith

handle_data-state :
    (now : ℕ) (io : Entry) (bytes : List ℕ) → (handle_data now io bytes).0.state ≡ io.state
unfolding handle_data
handle_data-state now io bytes = ground arith

-- What an event makes of the state: it stays, or it goes along an edge for the event.
abbrev pub Follows : TcpEvent → TcpState → Entry → Type 0
Follows ev s io = (io.state ≡ s) ⊎ Edge ev s io.state

on_syn_sent-Follows :
    (now : ℕ) (io : Entry) (seg : Segment)
    → io.state ≡ syn_sent
    → Follows (segment seg) syn_sent (on_syn_sent now io seg).0
unfolding on_syn_sent
on_syn_sent-Follows now io seg e = grind (arith, connected seg)

on_syn_received-Follows :
    (io : Entry) (seg : Segment)
    → io.state ≡ syn_received
    → Follows (segment seg) syn_received (on_syn_received io seg).0
unfolding on_syn_received
on_syn_received-Follows io seg e = grind (arith, accepted seg)

on_fin_wait_1-Follows :
    (now : ℕ) (io : Entry) (seg : Segment)
    → io.state ≡ fin_wait_1
    → Follows (segment seg) fin_wait_1 (on_fin_wait_1 now io seg).0
unfolding on_fin_wait_1 fin_acked
on_fin_wait_1-Follows now io seg e = grind (arith, fin_acknowledged seg, both_closed seg)

on_fin_wait_2-Follows :
    (now : ℕ) (io : Entry) (seg : Segment)
    → io.state ≡ fin_wait_2
    → Follows (segment seg) fin_wait_2 (on_fin_wait_2 now io seg).0
unfolding on_fin_wait_2
on_fin_wait_2-Follows now io seg e = grind (arith, fin_received seg)

on_closing-Follows :
    (now : ℕ) (io : Entry) (seg : Segment)
    → io.state ≡ closing
    → Follows (segment seg) closing (on_last now time_wait io seg).0
unfolding on_last
on_closing-Follows now io seg e = grind (arith, closing_acknowledged seg)

on_last_ack-Follows :
    (now : ℕ) (io : Entry) (seg : Segment)
    → io.state ≡ last_ack
    → Follows (segment seg) last_ack (on_last now closed io seg).0
unfolding on_last
on_last_ack-Follows now io seg e = grind (arith, last_acknowledged seg)

handle_incoming-Follows :
    (now : ℕ) (io : Entry) (seg : Segment)
    → io.state ≡ established
    → Follows (segment seg) established (handle_incoming now io seg).0
unfolding handle_incoming handle_fin
handle_incoming-Follows now io seg e =
    let same : (handle_data now io seg.bytes).0.state ≡ established =
      handle_data-state now io seg.bytes ∙ e in
    grind (arith, same, other_closed seg, reset seg)

handle_input-Follows :
    (now : ℕ) (io : Entry) (seg : Segment)
    → io.state ≡ established
    → Follows (segment seg) established (handle_input now io seg).0
unfolding handle_input
handle_input-Follows now io seg e =
    let io1 = if seg.flags.ack then (handle_ack io seg.ack_number).0 else io in
    let still : io1.state ≡ established = ground (arith, handle_ack-state io seg.ack_number) in
    let next : Follows (segment seg) established (handle_incoming now io1 seg).0 =
      handle_incoming-Follows now io1 seg still in
    grind (arith, next)

input_in-Follows :
    (s : TcpState) (now : ℕ) (io : Entry) (seg : Segment)
    → io.state ≡ s
    → Follows (segment seg) s (input_in s now io seg).0
unfolding input_in
input_in-Follows closed now io seg e = inl e
input_in-Follows listen now io seg e = inl e
input_in-Follows syn_sent now io seg e = on_syn_sent-Follows now io seg e
input_in-Follows syn_received now io seg e = on_syn_received-Follows io seg e
input_in-Follows established now io seg e = handle_input-Follows now io seg e
input_in-Follows close_wait now io seg e = inl e
input_in-Follows last_ack now io seg e = on_last_ack-Follows now io seg e
input_in-Follows fin_wait_1 now io seg e = on_fin_wait_1-Follows now io seg e
input_in-Follows fin_wait_2 now io seg e = on_fin_wait_2-Follows now io seg e
input_in-Follows closing now io seg e = on_closing-Follows now io seg e
input_in-Follows time_wait now io seg e = inl e

handle_in-Follows :
    (s : TcpState) (io : Entry) → io.state ≡ s → Follows service_due s (handle_in s io).0
unfolding handle_in
handle_in-Follows closed io e = inl e
handle_in-Follows listen io e = inl e
handle_in-Follows syn_sent io e = grind (arith, connect_timeout)
handle_in-Follows syn_received io e = inl e
handle_in-Follows established io e = grind (arith)
handle_in-Follows close_wait io e = inl e
handle_in-Follows last_ack io e = grind (arith, last_timeout)
handle_in-Follows fin_wait_1 io e = grind (arith, fin_timeout)
handle_in-Follows fin_wait_2 io e = grind (arith, other_fin_timeout)
handle_in-Follows closing io e = inl e
handle_in-Follows time_wait io e = grind (arith, waited)

handle-state :
    (max now : ℕ) (io : Entry) → (handle max now io).0.state ≡ (handle_in io.state io).0.state
unfolding handle
handle-state max now io = ground arith

close_in-Follows : (s : TcpState) (io : Entry) → io.state ≡ s → Follows close_call s (close_in s io)
unfolding close_in
close_in-Follows closed io e = inl e
close_in-Follows listen io e = inl e
close_in-Follows syn_sent io e = inl e
close_in-Follows syn_received io e = inr close_accepted
close_in-Follows established io e = inr close_connection
close_in-Follows close_wait io e = inr close_answered
close_in-Follows last_ack io e = inl e
close_in-Follows fin_wait_1 io e = inl e
close_in-Follows fin_wait_2 io e = inl e
close_in-Follows closing io e = inl e
close_in-Follows time_wait io e = inl e

pub step-Follows :
    (max now : ℕ) (io : Entry) (ev : TcpEvent) → Follows ev io.state (step max now io ev)
unfolding step
step-Follows max now io (segment seg) = input_in-Follows io.state now io seg refl
step-Follows max now io service_due =
    rw (handle-state max now io) (handle_in-Follows io.state io refl)
step-Follows max now io close_call = close_in-Follows io.state io refl

-- Events at their times.
unfoldable pub run : ℕ → Entry → List (ℕ × TcpEvent) → Entry
run max io [] = io
run max io ((now, ev) ∷ evs) = run max (step max now io ev) evs

-- Each event of a run, from the entry that it finds, follows the diagram.
abbrev pub Walk : ℕ → Entry → List (ℕ × TcpEvent) → Type 0
Walk max io [] = Unit
Walk max io ((now, ev) ∷ evs) =
    Follows ev io.state (step max now io ev) × Walk max (step max now io ev) evs

-- The segment answers the SYN of a connection whose sequence number is `seq`.
abbrev pub answers : ℕ → TcpEvent → Bool
answers seq (segment seg) = seg.flags.syn && (seg.flags.ack && (seg.ack_number == plus seq 1))
answers seq service_due = false
answers seq close_call = false

-- A connection that is not answered yet, or given up.
abbrev IsWaiting : ℕ → Entry → Type 0
IsWaiting seq io = ((io.state ≡ syn_sent) × (io.snd_seq ≡ seq)) ⊎ (io.state ≡ closed)

step_in-IsWaiting :
    (s : TcpState) (max now seq : ℕ) (io : Entry) (ev : TcpEvent)
    → io.state ≡ s
    → IsWaiting seq io
    → answers seq ev ≡ false
    → IsWaiting seq (step max now io ev)
unfolding step input_in handle handle_in close_in on_syn_sent
step_in-IsWaiting syn_sent max now seq io (segment seg) e w never = grind (arith)
step_in-IsWaiting syn_sent max now seq io service_due e w never = grind (arith)
step_in-IsWaiting syn_sent max now seq io close_call e w never = grind (arith)
step_in-IsWaiting closed max now seq io (segment seg) e w never = grind (arith)
step_in-IsWaiting closed max now seq io service_due e w never = grind (arith)
step_in-IsWaiting closed max now seq io close_call e w never = grind (arith)
step_in-IsWaiting _ max now seq io ev e w never = absurd (grind (arith))

-- A connection in SYN_SENT is established by no events but a segment with SYN and ACK that
-- acknowledges its sequence number: until then it is in SYN_SENT or closed.
pub run_unanswered :
    (max seq : ℕ) (io : Entry) (evs : List (ℕ × TcpEvent))
    → ((io.state ≡ syn_sent) × (io.snd_seq ≡ seq)) ⊎ (io.state ≡ closed)
    → All (λ at. answers seq at.1 ≡ false) evs
    → ((run max io evs).state ≡ syn_sent) ⊎ ((run max io evs).state ≡ closed)
unfolding run
run_unanswered max seq io [] (inl (e, _)) never = inl e
run_unanswered max seq io [] (inr e) never = inr e
run_unanswered max seq io ((now, ev) ∷ evs) w (first, rest) =
    run_unanswered max seq (step max now io ev) evs
      (step_in-IsWaiting io.state max now seq io ev refl w first) rest
