-- ===== src/Lib.antt =====
-- ExOS, a real-time kernel for microcontrollers, written in C.
--
-- Parts and files (paths from the root of the repository):
--   LinkedList  exos/kernel/list.c and list.h. The intrusive doubly linked lists that everything
--               else of the kernel queues its objects in. A node or a list is an address; the memory
--               is a function from the address of a pointer field to its value, so that the aliasing
--               of a list's head and tail with nodes is the source's own. `list_enqueue` is
--               `LinkedList.enqueue`, `list_remove` is `LinkedList.remove`, and so on.
--               LinkedList.Links says which memory holds a list; the other children prove what each
--               operation does.
--   Thread      exos/kernel/thread.c and thread.h. The scheduler: the ready list, and the handles by
--               which threads wait. A list is the list of its nodes here: `Thread.placed` is what
--               LinkedList.Enqueue shows of `list_enqueue`. `___wait` is `wait_mask`, `_resume` is
--               `resume`, `___resume_all` is `resume_all`, `___rem_thread` is `rem_thread`.
--   Event       exos/kernel/event.c and event.h. Events, on the wait handles of Thread.
--   Mutex       exos/kernel/mutex.c and mutex.h. Recursive mutexes, on the wait handles of Thread.
--   IoBuffer    exos/kernel/iobuffer.c and iobuffer.h. The byte ring between a driver and a thread.
--               The events that it sets and resets come back as a list of calls, in order.
--               IoBuffer.Queue has the bytes in a ring as a list; IoBuffer.Refine relates the
--               operations to a queue.
--   ArpTables   exos/kernel/driver/net/arp_tables.c and arp_tables.h. The table of hardware addresses.
--   Checksum    exos/kernel/driver/net/ip.c. The checksum of IP headers.
--   Tcp         exos/kernel/driver/net/tcp.c, tcp_service.c and tcp_io.c. A connection is `Tcp.Entry`, the
--               source's `TCP_IO_ENTRY`. A segment has its data and the length that its IP
--               header tells of, which `_send` does not always cut to the data: a receiver reads
--               as much, and what it finds behind the data is given. `Tcp.input` is the switch of
--               `net_tcp_input`, and has one function for each state; Tcp.Service has `_bind`, `net_tcp_listen`, `net_tcp_connect`,
--               `net_tcp_accept`, `net_tcp_close`, `_send` (`segment_of`), `_handle` and the rounds of
--               `_service`; Tcp.Io has what programs call. Tcp.Service.Graph is the diagram of states,
--               Opening and Handshake the handshake, Payload the data of a segment, Retries the
--               time-outs, Entries the list of entries. Link puts two ends on a network that loses, repeats and reorders
--               segments; Flow, Ends, Arrivals and Joined lead to the theorem of Delivery about it, and
--               Progress follows one exchange.
--   Mbuf        exos/kernel/driver/net/mbuf.c and mbuf.h, and `net_tcp_checksum` of tcp.c. Chains of
--               buffers and the checksum over one.
--   DateTime    exos/kernel/datetime.c and datetime.h. Calendar arithmetic and the wall clock.
--   Fifo        exos/kernel/fifo.c and fifo.h. Queues of nodes with an event, on Event.
--   Port        exos/kernel/port.c and port.h. Ports, by name, to which threads send messages, on Fifo
--               and Text.
--   Timer       exos/kernel/timer.c and timer.h. Timers, the tick and the uptime. Timer.Rounds and
--               Timer.Ticks prove what a tick does, Timer.Skips what a periodic timer does to the others.
--   Tree        exos/kernel/tree.c and tree.h. The tree of named nodes, and paths.
--   Memory      exos/kernel/memory.c and memory.h. The allocator: a region is a row of blocks with a
--               header and a footer each, whose words `Memory.Words` has by their addresses, of 32
--               bits. Memory.Blocks says which memory holds which row; Memory.Alloc and Memory.Free
--               prove what `exos_mem_alloc` and `exos_mem_free` do to it.
--   Text        exos/kernel/machine/hal.c. Copying of memory, strings, numbers as text and back.
--   Base        Names of the standard libraries, Boolean tests, lists, integers, machine words.
--
-- The parts meet in the lists and in the wait handles: Event and Mutex give a condition to
-- `Thread.add_wait_handle`, which puts the handle of the running thread in the list that the condition
-- names, and they call `Thread.resume_all` to wake those that wait. Fifo calls `Event.set` and
-- `Event.reset`. The ring's calls of events are replies of the model. A connection of Tcp has two rings of
-- IoBuffer, and the theorems of Tcp use those of the ring.
--
-- An ASSERT that fails, as in a DEBUG build, and a panic are `none`. The loops of list.c run on fuel
-- and give `none` when it runs out; their theorems ask for more rounds than the list has nodes, which
-- is enough. The loop of `_tick_handler` runs on fuel too: a round for each timer is enough where no
-- periodic timer is due. `exos_tree_parse_path` has a round for each byte of the path. `resume_all` has
-- one round more than the list has handles, and every round takes one out.
-- `int` is ℤ and does not overflow in the calendar; fields of 8 and 16 bits wrap around where the source
-- stores to them; an index of the ring is stored as 16 bits; masks and the count of a mutex have 32 bits.
--
-- Not modelled: waits that block, which need a timer and a switch of threads (exos_thread_sleep,
-- exos_event_wait); dispatchers, thread pools, reading and writing of files, the drivers, the rest of
-- the network stack (UDP, ICMP, DHCP, ARP requests, copies of buffers, adapters) and the USB stack; the
-- code of the processors and boards, which is register access and assembly; the stack of a new thread; the text of dates, which is a call of `sprintf`; the
-- contents of allocated memory, the node types; the locks of the allocator, of the list of ports, of
-- the tree and of connections. Of TCP: the waits of `net_tcp_connect`, `net_tcp_accept` and
-- `net_tcp_close`, where the model stops, the wait of the service thread between its rounds, the
-- layout of the header, the choice of an adapter and the resolution of addresses, which
-- is an argument.
pub mod Base
pub mod DateTime
pub mod IoBuffer
pub mod LinkedList
pub mod Thread
pub mod Event
pub mod Mutex
pub mod ArpTables
pub mod Text
pub mod Fifo
pub mod Memory
pub mod Timer
pub mod Port
pub mod Tree
pub mod Checksum
pub mod Tcp
pub mod Mbuf
