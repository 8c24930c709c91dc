-- ===== src/IoBuffer/Tests.antt =====
-- Runs of the ring, and its theorems at rings of four bytes.
use ex_os.Base.{
  ◌<◌, min, ◌≡◌, refl, true, false, not, ◌&&◌, List, [], ◌∷◌, ◌++◌, arith, ◌==◌, take, drop,
}
use ex_os.IoBuffer.{
  IoBuffer, set_not_empty, set_not_full, reset_not_full, notify, create, write_loop, write,
  read_loop, read, avail, discard,
}
use ex_os.IoBuffer.Queue.{IsValid, contents}
use ex_os.IoBuffer.Write.{room, write-append}
use ex_os.IoBuffer.Read.{read-take-drop}
use ex_os.IoBuffer.Peek.{discard-drop}
use ex_os.IoBuffer.Refine.{Op, put, get, skip, run, queue_run, run_refines}

-- Holds 8 at its last index and 9 at its first.
abbrev seam : IoBuffer
seam = record {
  buffer = 9 ∷ 6 ∷ 7 ∷ 8 ∷ [];
  size = 4;
  produce = 1;
  consume = 3;
  has_not_empty = true;
  has_not_full = true;
}

seam-IsValid : IsValid seam
seam-IsValid = omega arith

contents-seam : contents seam ≡ 8 ∷ 9 ∷ []
unfolding avail
contents-seam = refl

write_two : (write seam (1 ∷ 2 ∷ [])).2 ≡ reset_not_full ∷ set_not_empty ∷ []
unfolding write write_loop
write_two = refl

write-append_example :
    let (done, b', _) = write seam (1 ∷ 2 ∷ []) in
    (done ≡ min 2 (room seam))
    × (contents b' ≡ contents seam ++ take (room seam) (1 ∷ 2 ∷ []))
    × IsValid b'
    × (b'.size ≡ 4)
write-append_example = write-append seam (1 ∷ 2 ∷ []) seam-IsValid

read-take-drop_example :
    let (bytes, b', _) = read seam 1 in
    (bytes ≡ take 1 (contents seam))
    × (contents b' ≡ drop 1 (contents seam))
    × IsValid b'
    × (b'.size ≡ 4)
read-take-drop_example = read-take-drop seam 1 seam-IsValid

discard-drop_example :
    let (k, b', calls) = discard seam 3 in
    (k ≡ min 3 (avail seam))
    × (contents b' ≡ drop k (contents seam))
    × IsValid b'
    × (b'.size ≡ 4)
    × (calls ≡ notify (true && not (◌==◌ 3 0)) set_not_full)
discard-drop_example = discard-drop seam 3 seam-IsValid

avail-seam : 1 < avail seam
unfolding avail
avail-seam = omega arith

abbrev script : List Op
script = put (1 ∷ 2 ∷ []) ∷ get 2 ∷ skip 5 ∷ get 1 ∷ []

run_refines_example : run seam script ≡ queue_run 3 (contents seam) script
run_refines_example = run_refines script seam seam-IsValid

script_replies : run seam script ≡ (1, []) ∷ (2, 8 ∷ 9 ∷ []) ∷ (1, []) ∷ (0, []) ∷ []
unfolding run write write_loop read read_loop discard avail
script_replies = refl

create_empty : contents (create (0 ∷ 0 ∷ []) 2 true false) ≡ []
unfolding create avail
create_empty = refl
