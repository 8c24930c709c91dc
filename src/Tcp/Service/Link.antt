-- ===== src/Tcp/Service/Link.antt =====
-- Two ends of a connection that talk to one another over a network that loses segments, repeats them
-- and delivers them in any order.
use ex_os.Base.{◌≡◌, ◌∙◌, ap, refl, true, length, ◌||◌, ◌==◌, if◌then◌else◌, Bool, arith}
use ex_os.Base.{ℕ, zero, suc, Option, none, some, List, [], ◌∷◌, ◌++◌, take}
use ex_os.Tcp.{Entry, Segment, TcpCall, send, input}
use ex_os.Tcp.Service.{handle}
use ex_os.Tcp.Io.{io_read, io_write}

-- An end: its entry, what its program has written and read, and the segments that it has sent
pub record Side : Type 0 where
  pub io : Entry
  pub written : List ℕ
  pub read_bytes : List ℕ
  pub sent : List Segment

-- What happens at an end: its program writes or reads, the service thread has its turn, or one of the
-- segments that the other end has sent arrives, by its place in the list of them. A segment may tell
-- of more data than it has: then the receiver reads what stands behind it, which is given, as is
-- whether the checksum comes out right all the same.
pub data SideEvent : Type 0 where
  writes : List ℕ → SideEvent
  reads : ℕ → SideEvent
  serves : SideEvent
  receives : ℕ → List ℕ → Bool → SideEvent

abbrev pub sent_of : List TcpCall → List Segment
sent_of [] = []
sent_of (send seg ∷ calls) = seg ∷ sent_of calls
sent_of (_ ∷ calls) = sent_of calls

abbrev pub accepted : Option ℕ → List ℕ → List ℕ
accepted none bytes = []
accepted (some n) bytes = take n bytes

abbrev pub given : Option (List ℕ) → List ℕ
given none = []
given (some bytes) = bytes

unfoldable pub pick : List Segment → ℕ → Option Segment
pick [] i = none
pick (seg ∷ segs) zero = some seg
pick (seg ∷ segs) (suc i) = pick segs i

-- The segment as `net_tcp_input` reads it from memory
abbrev pub arrived : Segment → List ℕ → Segment
arrived seg behind = record seg { bytes = take seg.told (seg.bytes ++ behind) }

abbrev pub take_in : ℕ → Side → List ℕ → Bool → Option Segment → Side
take_in now a behind passes none = a
take_in now a behind passes (some seg) =
    if (seg.told == length seg.bytes) || passes
    then record a { io = (input now a.io (arrived seg behind)).0 }
    else a

take_length : (xs ys : List ℕ) → take (length xs) (xs ++ ys) ≡ xs
take_length [] ys = refl
take_length (x ∷ xs) ys = ap (λ l. x ∷ l) (take_length xs ys)

-- A segment that tells of just its data arrives as it was sent.
pub take_in_whole :
    (now : ℕ) (a : Side) (behind : List ℕ) (passes : Bool) (seg : Segment)
    → seg.told ≡ length seg.bytes
    → take_in now a behind passes (some seg) ≡ record a { io = (input now a.io seg).0 }
take_in_whole now a behind passes seg e =
    let same : (seg.told == length seg.bytes) ≡ true = ground arith in
    let bytes : take seg.told (seg.bytes ++ behind) ≡ seg.bytes =
      ap (λ n. take n (seg.bytes ++ behind)) e ∙ take_length seg.bytes behind in
    rw same (ap (λ l. record a { io = (input now a.io (record seg { bytes = l })).0 }) bytes)

-- The end `a` after an event at the time `now`; the other end has sent `segs`.
unfoldable pub act : ℕ → ℕ → List Segment → Side → SideEvent → Side
act max now segs a (writes bytes) =
    let (done, io, _) = io_write now a.io bytes in
    record a { io = io; written = a.written ++ accepted done bytes }
act max now segs a (reads n) =
    let (bytes, io, _) = io_read a.io n in
    record a { io = io; read_bytes = a.read_bytes ++ given bytes }
act max now segs a serves =
    let (io, calls) = handle max now a.io in record a { io = io; sent = sent_of calls ++ a.sent }
act max now segs a (receives i behind passes) = take_in now a behind passes (pick segs i)

pub record Link : Type 0 where
  pub left : Side
  pub right : Side

pub data LinkEvent : Type 0 where
  at_left at_right : ℕ → SideEvent → LinkEvent

unfoldable pub link_step : ℕ → Link → LinkEvent → Link
link_step max l (at_left now e) = record l { left = act max now l.right.sent l.left e }
link_step max l (at_right now e) = record l { right = act max now l.left.sent l.right e }

unfoldable pub link_run : ℕ → Link → List LinkEvent → Link
link_run max l [] = l
link_run max l (e ∷ es) = link_run max (link_step max l e) es
