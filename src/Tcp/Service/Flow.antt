-- ===== src/Tcp/Service/Flow.antt =====
-- One direction of a connection, as two lists of bytes: what one side has written and what the other
-- side has read. The bytes between them are acknowledged, received or still missing.
use ex_os.Base.{
  ℕ, ◌+◌, ◌-◌, ◌%◌, ◌^◌, ◌≤◌, ◌<◌, ◌≡◌, ◌∙◌, refl, sym, ap, ap₂, true, List, [], ◌∷◌, ◌++◌,
  append_assoc, arith, length, length-append, length-take, take, drop, take-append-drop,
}
use ex_os.LinkedList.Links.{All, All-map}
use ex_os.IoBuffer.{IoBuffer}
use ex_os.IoBuffer.Queue.{IsValid, contents}
use ex_os.Tcp.{Segment, plus, is_ahead}

-- The data of a segment stand where its number says in what is written.
pub record Carried (start : ℕ) (written : List ℕ) (seg : Segment) : Type 0 where
  pub before : List ℕ
  pub after : List ℕ
  pub there : written ≡ before ++ (seg.bytes ++ after)
  pub numbered : seg.sequence ≡ (start + length before) % 2 ^ 32

-- A segment acknowledges no more than `limit` bytes.
abbrev pub Acks : ℕ → ℕ → Segment → Type 0
Acks start limit seg =
    seg.flags.ack ≡ true → (k : ℕ) × (k ≤ limit) × (seg.ack_number ≡ (start + k) % 2 ^ 32)

-- The sender's ring and number, the receiver's, and the segments that were sent either way
pub record Flow (start : ℕ) (written read : List ℕ) (snd : IoBuffer) (snd_seq : ℕ) (rcv : IoBuffer)
    (rcv_next : ℕ) (data_sent acks_sent : List Segment) : Type 0 where
  pub acked : List ℕ
  pub received : List ℕ
  pub missing : List ℕ
  pub snd_valid : IsValid snd
  pub rcv_valid : IsValid rcv
  pub queued : written ≡ acked ++ contents snd
  pub arrived : written ≡ received ++ missing
  pub delivered : received ≡ read ++ contents rcv
  pub snd_number : snd_seq ≡ (start + length acked) % 2 ^ 32
  pub rcv_number : rcv_next ≡ (start + length received) % 2 ^ 32
  pub in_order : length acked ≤ length received
  pub carried : All (Carried start written) data_sent
  pub acknowledged : All (Acks start (length received)) acks_sent

-- Lists that are equal have equal parts of equal length.
append_cancel :
    (xs ys rest others : List ℕ)
    → length xs ≡ length ys
    → xs ++ rest ≡ ys ++ others
    → (xs ≡ ys) × (rest ≡ others)
append_cancel [] [] rest others l e = (refl, e)
append_cancel [] (y ∷ ys) rest others l e = absurd (omega arith)
append_cancel (x ∷ xs) [] rest others l e = absurd (omega arith)
append_cancel (x ∷ xs) (y ∷ ys) rest others l e =
    let head : x ≡ y = cc in
    let tail : xs ++ rest ≡ ys ++ others = cc in
    let (front, back) = append_cancel xs ys rest others (omega arith) tail in
    (ap₂ ◌∷◌ head front, back)

-- Numbers of positions less than 2^31 apart compare as the positions do.
offset_ahead :
    (start a k : ℕ)
    → a < 2 ^ 31
    → k < 2 ^ 31
    → is_ahead (((start + k) % 2 ^ 32 + 2 ^ 32 - (start + a) % 2 ^ 32) % 2 ^ 32) ≡ true
    → (a < k) × (((start + k) % 2 ^ 32 + 2 ^ 32 - (start + a) % 2 ^ 32) % 2 ^ 32 ≡ k - a)
offset_ahead start a k small_a small_k ahead = ground arith

same_number :
    (start a k : ℕ) → a < 2 ^ 31 → k < 2 ^ 31 → (start + a) % 2 ^ 32 ≡ (start + k) % 2 ^ 32 → a ≡ k
same_number start a k small_a small_k e = omega arith

plus_number : (start a k : ℕ) → plus ((start + a) % 2 ^ 32) k ≡ (start + (a + k)) % 2 ^ 32
plus_number start a k = omega arith

module _ {start : ℕ} {written read : List ℕ} {snd : IoBuffer} {snd_seq : ℕ} {rcv : IoBuffer}
    {rcv_next : ℕ} {data_sent acks_sent : List Segment}
    (f : Flow start written read snd snd_seq rcv rcv_next data_sent acks_sent) where
  -- The sender's program writes.
  pub write-Flow :
      (new : List ℕ) (snd' : IoBuffer)
      → IsValid snd'
      → contents snd' ≡ contents snd ++ new
      → Flow start (written ++ new) read snd' snd_seq rcv rcv_next data_sent acks_sent
  write-Flow new snd' v e = record {
    acked = f.acked;
    received = f.received;
    rcv_valid = f.rcv_valid;
    delivered = f.delivered;
    snd_number = f.snd_number;
    rcv_number = f.rcv_number;
    in_order = f.in_order;
    acknowledged = f.acknowledged;
    missing = f.missing ++ new;
    snd_valid = v;
    queued =
        ap (λ l. l ++ new) f.queued
        ∙ append_assoc f.acked (contents snd) new
        ∙ ap (λ l. f.acked ++ l) (sym e);
    arrived = ap (λ l. l ++ new) f.arrived ∙ append_assoc f.received f.missing new;
    carried =
        All-map (Carried start written) (Carried start (written ++ new)) data_sent
          (λ seg c. extend seg c) f.carried;
  }
    where
      extend : (seg : Segment) → Carried start written seg → Carried start (written ++ new) seg
      extend seg c = record {
        before = c.before;
        numbered = c.numbered;
        after = c.after ++ new;
        there =
            ap (λ l. l ++ new) c.there
            ∙ append_assoc c.before (seg.bytes ++ c.after) new
            ∙ ap (λ l. c.before ++ l) (append_assoc seg.bytes c.after new);
      }

  -- The receiver's program reads.
  pub read-Flow :
      (new : List ℕ) (rcv' : IoBuffer)
      → IsValid rcv'
      → contents rcv ≡ new ++ contents rcv'
      → Flow start written (read ++ new) snd snd_seq rcv' rcv_next data_sent acks_sent
  read-Flow new rcv' v e = record {
    acked = f.acked;
    received = f.received;
    missing = f.missing;
    snd_valid = f.snd_valid;
    queued = f.queued;
    arrived = f.arrived;
    snd_number = f.snd_number;
    rcv_number = f.rcv_number;
    in_order = f.in_order;
    carried = f.carried;
    acknowledged = f.acknowledged;
    rcv_valid = v;
    delivered = f.delivered ∙ ap (λ l. read ++ l) e ∙ sym (append_assoc read new (contents rcv'));
  }

  -- The sender sends the first bytes of its ring.
  pub send-Flow :
      (max : ℕ) (seg : Segment)
      → seg.sequence ≡ snd_seq
      → seg.bytes ≡ take max (contents snd)
      → Flow start written read snd snd_seq rcv rcv_next (seg ∷ data_sent) acks_sent
  send-Flow max seg number bytes = record {
    acked = f.acked;
    received = f.received;
    missing = f.missing;
    snd_valid = f.snd_valid;
    rcv_valid = f.rcv_valid;
    queued = f.queued;
    arrived = f.arrived;
    delivered = f.delivered;
    snd_number = f.snd_number;
    rcv_number = f.rcv_number;
    in_order = f.in_order;
    acknowledged = f.acknowledged;
    carried = (
      record {
        before = f.acked;
        after = drop max (contents snd);
        there =
            f.queued
            ∙ ap (λ l. f.acked ++ l)
                (sym (take-append-drop max (contents snd))
                  ∙ ap (λ l. l ++ drop max (contents snd)) (sym bytes));
        numbered = number ∙ f.snd_number;
      },
      f.carried,
    );
  }

  -- The receiver sends the number that it expects.
  pub send_ack-Flow :
      (seg : Segment)
      → (seg.flags.ack ≡ true → seg.ack_number ≡ rcv_next)
      → Flow start written read snd snd_seq rcv rcv_next data_sent (seg ∷ acks_sent)
  send_ack-Flow seg number = record {
    acked = f.acked;
    received = f.received;
    missing = f.missing;
    snd_valid = f.snd_valid;
    rcv_valid = f.rcv_valid;
    queued = f.queued;
    arrived = f.arrived;
    delivered = f.delivered;
    snd_number = f.snd_number;
    rcv_number = f.rcv_number;
    in_order = f.in_order;
    carried = f.carried;
    acknowledged =
        ((λ e. (length f.received, omega arith, number e ∙ f.rcv_number)), f.acknowledged);
  }

  module _ (small : length written < 2 ^ 31) where
    received_small : length f.received < 2 ^ 31
    received_small =
        let sizes : length written ≡ length f.received + length f.missing =
          ap length f.arrived ∙ length-append f.received f.missing in
        omega (arith, sizes, small)

    -- The sender drops what is acknowledged.
    pub ack-Flow :
        (seg : Segment) (k : ℕ) (snd' : IoBuffer)
        → Acks start (length f.received) seg
        → seg.flags.ack ≡ true
        → let offset = (seg.ack_number + 2 ^ 32 - snd_seq) % 2 ^ 32 in
          is_ahead offset ≡ true
          → k ≤ offset
          → k ≤ length (contents snd)
          → IsValid snd'
          → contents snd' ≡ drop k (contents snd)
          → Flow start written read snd' (plus snd_seq k) rcv rcv_next data_sent acks_sent
    ack-Flow seg k snd' acks flag ahead within held v e =
        let (n, covered, number) = acks flag in
        let numbers : (seg.ack_number + 2 ^ 32 - snd_seq) % 2 ^ 32
            ≡ ((start + n) % 2 ^ 32 + 2 ^ 32 - (start + length f.acked) % 2 ^ 32) % 2 ^ 32 =
          ap₂ (λ x y. (x + 2 ^ 32 - y) % 2 ^ 32) number f.snd_number in
        let (below, offset) =
          offset_ahead start (length f.acked) n (omega (arith, received_small, f.in_order))
            (omega (arith, received_small)) (ap is_ahead (sym numbers) ∙ ahead) in
        let taken : length (f.acked ++ take k (contents snd)) ≡ length f.acked + k =
          omega
            (arith, length-append f.acked (take k (contents snd)), length-take k (contents snd)) in
        record {
          acked = f.acked ++ take k (contents snd);
          received = f.received;
          missing = f.missing;
          snd_valid = v;
          rcv_valid = f.rcv_valid;
          queued =
              f.queued
              ∙ ap (λ l. f.acked ++ l) (sym (take-append-drop k (contents snd)))
              ∙ sym (append_assoc f.acked (take k (contents snd)) (drop k (contents snd)))
              ∙ ap (λ l. (f.acked ++ take k (contents snd)) ++ l) (sym e);
          arrived = f.arrived;
          delivered = f.delivered;
          snd_number =
              ap (λ x. plus x k) f.snd_number
              ∙ plus_number start (length f.acked) k
              ∙ ap (λ x. (start + x) % 2 ^ 32) (sym taken);
          rcv_number = f.rcv_number;
          in_order = omega (arith, taken, offset, covered, within);
          carried = f.carried;
          acknowledged = f.acknowledged;
        }

    -- The receiver takes the first `k` bytes of a segment that has the number it expects.
    pub receive-Flow :
        (seg : Segment) (k : ℕ) (rcv' : IoBuffer)
        → Carried start written seg
        → seg.sequence ≡ rcv_next
        → k ≤ length seg.bytes
        → IsValid rcv'
        → contents rcv' ≡ contents rcv ++ take k seg.bytes
        → Flow start written read snd snd_seq rcv' (plus rcv_next k) data_sent acks_sent
    receive-Flow seg k rcv' c number within v e =
        let sizes : length written ≡ length c.before + length (seg.bytes ++ c.after) =
          ap length c.there ∙ length-append c.before (seg.bytes ++ c.after) in
        let same : length c.before ≡ length f.received =
          same_number start (length c.before) (length f.received) (omega (arith, sizes, small))
            (omega (arith, received_small)) (sym c.numbered ∙ number ∙ f.rcv_number) in
        let (front, back) =
          append_cancel c.before f.received (seg.bytes ++ c.after) f.missing same
            (sym c.there ∙ f.arrived) in
        let taken : length (f.received ++ take k seg.bytes) ≡ length f.received + k =
          omega (arith, length-append f.received (take k seg.bytes), length-take k seg.bytes) in
        record {
          acked = f.acked;
          received = f.received ++ take k seg.bytes;
          missing = drop k seg.bytes ++ c.after;
          snd_valid = f.snd_valid;
          rcv_valid = v;
          queued = f.queued;
          arrived =
              f.arrived
              ∙ ap (λ l. f.received ++ l) (sym back)
              ∙ ap (λ l. f.received ++ (l ++ c.after)) (sym (take-append-drop k seg.bytes))
              ∙ ap (λ l. f.received ++ l)
                  (append_assoc (take k seg.bytes) (drop k seg.bytes) c.after)
              ∙ sym (append_assoc f.received (take k seg.bytes) (drop k seg.bytes ++ c.after));
          delivered =
              ap (λ l. l ++ take k seg.bytes) f.delivered
              ∙ append_assoc read (contents rcv) (take k seg.bytes)
              ∙ ap (λ l. read ++ l) (sym e);
          snd_number = f.snd_number;
          rcv_number =
              ap (λ x. plus x k) f.rcv_number
              ∙ plus_number start (length f.received) k
              ∙ ap (λ x. (start + x) % 2 ^ 32) (sym taken);
          in_order = omega (arith, taken, f.in_order);
          carried = f.carried;
          acknowledged =
              All-map (Acks start (length f.received))
                (Acks start (length (f.received ++ take k seg.bytes))) acks_sent
                (λ seg acks flag. let (n, le, is) = acks flag in (n, omega (arith, taken, le), is))
                f.acknowledged;
        }
