-- ===== src/Tcp/Service/Delivery.antt =====
-- That what a program reads at one end of a connection is what the other end's program wrote.
use ex_os.Base.{
  ℕ, suc, ◌+◌, ◌-◌, ◌%◌, ◌^◌, ◌≤◌, ◌<◌, ◌≡◌, ◌∙◌, refl, sym, ap, ap₂, List, [], ◌∷◌, ◌++◌,
  append_assoc, arith, length, length-append, drop,
}
use ex_os.LinkedList.Links.{All}
use ex_os.IoBuffer.{IoBuffer, avail}
use ex_os.IoBuffer.Queue.{IsValid, contents, length-bytes_from}
use ex_os.Tcp.{Segment}
use ex_os.Tcp.Service.Flow.{Flow}
use ex_os.Tcp.Service.Ends.{IsOpen}
use ex_os.Tcp.Service.Link.{Side, Link, LinkEvent, link_run}
use ex_os.Tcp.Service.Joined.{Plain, From, Joined, run-Joined}

-- A ring that is valid and empty, and an end where nothing has happened
abbrev pub Empty : IoBuffer → Type 0
Empty b = IsValid b × (avail b ≡ 0)

pub record Fresh (a : Side) : Type 0 where
  pub is_open : IsOpen a.io
  pub word : a.io.snd_seq < 2 ^ 32
  pub snd : Empty a.io.snd_buffer
  pub rcv : Empty a.io.rcv_buffer
  pub nothing : (a.written ≡ []) × (a.read_bytes ≡ []) × (a.sent ≡ [])

-- Two ends that have just been opened to one another
pub record JustOpened (l : Link) : Type 0 where
  pub left_fresh : Fresh l.left
  pub right_fresh : Fresh l.right
  pub numbers : l.left.io.snd_seq ≡ l.right.io.rcv_next
  pub other_numbers : l.right.io.snd_seq ≡ l.left.io.rcv_next

Empty-Flow :
    (snd rcv : IoBuffer) (seq next : ℕ) (w r : List ℕ) (d k : List Segment)
    → Empty snd
    → Empty rcv
    → seq ≡ next
    → seq < 2 ^ 32
    → w ≡ []
    → r ≡ []
    → d ≡ []
    → k ≡ []
    → Flow seq w r snd seq rcv next d k
Empty-Flow snd rcv seq next w r d k (v, none_queued) (v', none_there) e word e1 e2 e3 e4 =
    let no_bytes : [] ≡ contents snd = rw none_queued refl in
    let none_yet : [] ≡ contents rcv = rw none_there refl in
    let here : (seq + 0) % 2 ^ 32 ≡ seq = omega arith in
    rw (e1, e2, e3, e4)
      record {
        acked = [];
        received = [];
        missing = [];
        snd_valid = v;
        rcv_valid = v';
        queued = no_bytes;
        arrived = refl;
        delivered = none_yet;
        snd_number = sym here;
        rcv_number = sym e ∙ sym here;
        in_order = omega arith;
        carried = tt;
        acknowledged = tt;
      }

fresh-Joined :
    (max : ℕ) (l : Link)
    → JustOpened l
    → l.left.io.snd_buffer.size ≤ suc max
    → l.right.io.snd_buffer.size ≤ suc max
    → Joined max l.left.io.snd_seq l.right.io.snd_seq l.left l.right
fresh-Joined max l o fits fits' =
    let (lw, lr, ls) = o.left_fresh.nothing in
    let (rw', rr, rs) = o.right_fresh.nothing in
    record {
      out =
          Empty-Flow l.left.io.snd_buffer l.right.io.rcv_buffer l.left.io.snd_seq
            l.right.io.rcv_next l.left.written l.right.read_bytes l.left.sent l.right.sent
            o.left_fresh.snd o.right_fresh.rcv o.numbers o.left_fresh.word lw rr ls rs;
      back =
          Empty-Flow l.right.io.snd_buffer l.left.io.rcv_buffer l.right.io.snd_seq
            l.left.io.rcv_next l.right.written l.left.read_bytes l.right.sent l.left.sent
            o.right_fresh.snd o.left_fresh.rcv o.other_numbers o.right_fresh.word rw' lr rs ls;
      open_a = o.left_fresh.is_open;
      open_b = o.right_fresh.is_open;
      plain_a = none_plain l.left.sent ls;
      plain_b = none_plain l.right.sent rs;
      fits_a = fits;
      fits_b = fits';
    }
  where
    none_plain : (segs : List Segment) → segs ≡ [] → All Plain segs
    none_plain [] e = tt
    none_plain (x ∷ segs) e = absurd cc

-- What `a` has written is what `b` has read, what is in `b`'s ring, and a last part of `a`'s ring.
abbrev pub Delivers : Side → Side → Type 0
Delivers a b =
    (n : ℕ) × (n ≤ avail a.io.snd_buffer)
    × (a.written ≡ b.read_bytes ++ (contents b.io.rcv_buffer ++ drop n (contents a.io.snd_buffer)))

drop_behind :
    (xs ys others : List ℕ) (rest : List ℕ)
    → xs ++ ys ≡ others ++ rest
    → length xs ≤ length others
    → drop (length others - length xs) ys ≡ rest
drop_behind [] ys [] rest e le = e
drop_behind [] [] (o ∷ others) rest e le = absurd cc
drop_behind [] (y ∷ ys) (o ∷ others) rest e le =
    let tail : ys ≡ others ++ rest = cc in
    let count : length (o ∷ others) - 0 ≡ suc (length others - 0) = omega arith in
    rw count (drop_behind [] ys others rest tail (omega arith))
drop_behind (x ∷ xs) ys [] rest e le = absurd (omega arith)
drop_behind (x ∷ xs) ys (o ∷ others) rest e le =
    let tail : xs ++ ys ≡ others ++ rest = cc in
    let count : length (o ∷ others) - length (x ∷ xs) ≡ length others - length xs = omega arith in
    rw count (drop_behind xs ys others rest tail (omega arith))

out-Delivers : {start : ℕ} (a b : Side) → From start a b → Delivers a b
out-Delivers a b f =
    let ring = a.io.snd_buffer in
    let held : length (contents ring) ≡ avail ring =
      length-bytes_from ring.buffer ring.size ring.consume (avail ring) in
    let sizes : length f.acked + length (contents ring) ≡ length f.received + length f.missing =
      sym (length-append f.acked (contents ring))
      ∙ ap length (sym f.queued ∙ f.arrived)
      ∙ length-append f.received f.missing in
    (
      length f.received - length f.acked,
      omega (arith, sizes, held),
      f.arrived
          ∙ ap₂ ◌++◌ f.delivered (
              sym (
                drop_behind f.acked (contents ring) f.received f.missing (sym f.queued ∙ f.arrived)
                  f.in_order))
          ∙ append_assoc b.read_bytes (contents b.io.rcv_buffer)
              (drop (length f.received - length f.acked) (contents ring)),
    )

-- Between two ends that have just been opened to one another, whose send rings have at most one
-- place more than a packet takes bytes, whatever their programs write and read, whenever their
-- service threads have their turns and whatever the network loses, repeats or delivers out of order,
-- while no end is closed: as long as less than 2^31 bytes are written at each end, what a program has
-- written at one end is, in order, what the other end's program has read, then what stands in the
-- other end's ring, then a last part of what stands in its own ring.
pub link_run-Delivers :
    (max : ℕ) (l : Link) (events : List LinkEvent)
    → JustOpened l
    → l.left.io.snd_buffer.size ≤ suc max
    → l.right.io.snd_buffer.size ≤ suc max
    → length (link_run max l events).left.written < 2 ^ 31
    → length (link_run max l events).right.written < 2 ^ 31
    → Delivers (link_run max l events).left (link_run max l events).right
      × Delivers (link_run max l events).right (link_run max l events).left
link_run-Delivers max l events o fits fits' small small' =
    let j =
      run-Joined max l.left.io.snd_seq l.right.io.snd_seq l events (fresh-Joined max l o fits fits')
        small small' in
    let final = link_run max l events in
    (out-Delivers final.left final.right j.out, out-Delivers final.right final.left j.back)
