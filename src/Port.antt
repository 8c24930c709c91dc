-- ===== src/Port.antt =====
-- exos/kernel/port.c: ports, found by their names, to which threads send messages.
-- A port or a message is a number. A port has a fifo, with an auto-reset event; `queues` has the number
-- of the list of that event's handles. The lock of the list of ports is left out: it is held over the
-- whole of what each operation does to the list. A failed ASSERT and a
-- panic are `none`; a fifo is that of a DEBUG build. Node types are left out.
pub mod Registry
pub mod Tests
use ex_os.Base.{ℕ, Bool, true, false, Option, none, some, List, [], ◌∷◌, ◌++◌, ◌==◌, if◌then◌else◌}
use ex_os.Base.Int.{ℤ, pos, negsuc}
use ex_os.Thread.{Kernel, without, write_at}
use ex_os.Event.{Event}
use ex_os.Event
use ex_os.Fifo.{Fifo, World}
use ex_os.Fifo
use ex_os.Text.{str_comp}

-- `_port_list`, the ports (`EXOS_PORT`), and the threads
pub record Ports : Type 0 where
  pub port_list : List ℕ
  pub names : ℕ → List ℕ
  pub fifos : ℕ → Fifo
  pub events : ℕ → Event
  pub queues : ℕ → ℕ
  pub kernel : Kernel

-- `__str_comp(...) == 0`
abbrev pub is_zero : ℤ → Bool
is_zero (pos n) = n == 0
is_zero (negsuc n) = false

abbrev pub is_same : List ℕ → List ℕ → Bool
is_same a b = is_zero (str_comp a b)

-- `_find_port`
unfoldable pub find_port : (ℕ → List ℕ) → List ℕ → List ℕ → Option ℕ
find_port names name [] = none
find_port names name (p ∷ ps) =
    let rest = find_port names name ps in if is_same name (names p) then some p else rest

-- The event and the fifo of a new port.
abbrev pub with_fifo : Ports → ℕ → Ports
with_fifo w p =
    let (event, kernel) = Event.create true (w.queues p) w.kernel in
    record w {
      fifos = write_at w.fifos p (Fifo.create true);
      events = write_at w.events p event;
      kernel = kernel;
    }

-- The end of `exos_port_create`: the port is added if its name was not found.
abbrev pub created : Ports → ℕ → Option ℕ → Bool × Ports
created w p none = (true, record w { port_list = w.port_list ++ (p ∷ []) })
created w p (some other) = (false, w)

-- `exos_port_create`, of a port with a name: whether it is done, and the ports
unfoldable pub create : Ports → ℕ → List ℕ → Bool × Ports
create w p name =
    let w1 = record (with_fifo w p) { names = write_at w.names p name } in
    created w1 p (find_port w1.names name w.port_list)

-- `exos_port_create`, of a port without a name
pub create_unnamed : Ports → ℕ → Bool × Ports
create_unnamed w p = (true, with_fifo w p)

-- `exos_port_find`: the port that was found is not what it returns.
pub find : Ports → List ℕ → Option ℕ
find w name = none

-- `exos_port_remove`
unfoldable pub remove : Ports → List ℕ → Ports
remove w name = elim (find_port w.names name w.port_list) [
  | none ↦ w
  | some p ↦ record w { port_list = without p w.port_list }
]

abbrev pub world_of : Ports → ℕ → World
world_of w p = record { fifo = w.fifos p; event = w.events p; kernel = w.kernel }

abbrev pub with_world : Ports → ℕ → World → Ports
with_world w p v = record w {
  fifos = write_at w.fifos p v.fifo;
  events = write_at w.events p v.event;
  kernel = v.kernel;
}

-- `exos_port_get_message`: a message or NULL
pub get_message : Ports → ℕ → Option (Option ℕ × Ports)
get_message w p = elim (Fifo.dequeue (w.queues p) (world_of w p)) [
  | none ↦ none
  | some (message, v) ↦ some (message, with_world w p v)
]

-- `exos_port_wait_message`, after the wait for the event
pub wait_message_end : Ports → ℕ → Option (ℕ × Ports)
wait_message_end w p = elim (Fifo.wait_end (w.queues p) (world_of w p)) [
  | none ↦ none
  | some (message, v) ↦ some (message, with_world w p v)
]

-- `exos_port_send_message`: the ASSERT wants the message to be NULL. The fifo is that of a DEBUG build.
-- Without DEBUG there is no count, and a message that is in the fifo already is not refused but spoils
-- the chain of its nodes: then, too, the result here is `none`.
pub send_message : Bool → Ports → ℕ → ℕ → Option Ports
send_message debug w p message =
    let queued : Option Ports = elim (Fifo.queue (w.queues p) (world_of w p) message) [
      | none ↦ none
      | some v ↦ some (with_world w p v)
    ] in
    if debug then none else queued

-- `exos_port_reply_message`: `reply_port` is the message's `ReplyPort`.
pub reply_message : Bool → Ports → (ℕ → ℕ) → ℕ → Option Ports
reply_message debug w reply_port message = send_message debug w (reply_port message) message
