-- ===== src/IoBuffer/Refine.antt =====
-- The ring behaves as a bounded queue of bytes.
use ex_os.Base.{
  ℕ, ◌-◌, ◌≡◌, refl, ap₂, ◌∙◌, min, List, [], ◌∷◌, ◌++◌, length, take, drop, length-take,
}
use ex_os.IoBuffer.{IoBuffer, avail, write, read, discard}
use ex_os.IoBuffer.Queue.{IsValid, contents, length-bytes_from}
use ex_os.IoBuffer.Write.{write-append}
use ex_os.IoBuffer.Read.{read-take-drop}
use ex_os.IoBuffer.Peek.{discard-drop}

pub data Op : Type 0 where
  put : List ℕ → Op
  get : ℕ → Op
  skip : ℕ → Op

-- The number that an operation returns, and the bytes that it delivers.
abbrev pub Reply : Type 0
Reply = ℕ × List ℕ

unfoldable pub run : IoBuffer → List Op → List Reply
run b [] = []
run b (put src ∷ ops) = let (done, b', _) = write b src in (done, []) ∷ run b' ops
run b (get n ∷ ops) = let (bytes, b', _) = read b n in (length bytes, bytes) ∷ run b' ops
run b (skip n ∷ ops) = let (k, b', _) = discard b n in (k, []) ∷ run b' ops

-- The specification: a queue of at most `cap` bytes.
pub queue_run : ℕ → List ℕ → List Op → List Reply
queue_run cap q [] = []
queue_run cap q (put src ∷ ops) =
    let left = cap - length q in
    (min (length src) left, []) ∷ queue_run cap (q ++ take left src) ops
queue_run cap q (get n ∷ ops) = (min n (length q), take n q) ∷ queue_run cap (drop n q) ops
queue_run cap q (skip n ∷ ops) =
    (min n (length q), []) ∷ queue_run cap (drop (min n (length q)) q) ops

length-contents : (b : IoBuffer) → length (contents b) ≡ avail b
length-contents b = length-bytes_from b.buffer b.size b.consume (avail b)

-- No sequence of calls tells the ring from the queue that holds one byte less than its size.
pub run_refines :
    (ops : List Op) (b : IoBuffer) → IsValid b → run b ops ≡ queue_run (b.size - 1) (contents b) ops
unfolding run queue_run
run_refines [] b v = refl
run_refines (put src ∷ ops) b v =
    let (done, held, valid, size) = write-append b src v in
    let len = length-contents b in
    rw len (
      ap₂ (λ k rest. (k, []) ∷ rest) done (run_refines ops (write b src).1 valid ∙ rw (held, size)))
run_refines (get n ∷ ops) b v =
    let (bytes, held, valid, size) = read-take-drop b n v in
    rw bytes (
      ap₂ (λ k rest. (k, take n (contents b)) ∷ rest) (length-take n (contents b))
        (run_refines ops (read b n).1 valid ∙ rw (held, size)))
run_refines (skip n ∷ ops) b v =
    let (k, held, valid, size, _) = discard-drop b n v in
    let len = length-contents b in
    rw len (
      ap₂ (λ k rest. (k, []) ∷ rest) k (run_refines ops (discard b n).1 valid ∙ rw (held, size, k)))
