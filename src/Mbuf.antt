-- ===== src/Mbuf.antt =====
-- exos/kernel/driver/net/mbuf.c: chains of network buffers, and the checksum of tcp.c over one. A chain
-- is the list of its buffers, each with the address that it stands at; `bytes` are those from Buffer on.
-- `Offset` and `Length` are not negative.
pub mod Seek
pub mod Sum
pub mod Verify
pub mod Tests
use ex_os.Base.{
  ℕ, zero, suc, ◌+◌, ◌-◌, ◌*◌, ◌/◌, ◌%◌, ◌^◌, Bool, true, false, ◌&&◌, not, Option, none, some,
  List, [], ◌∷◌, ◌++◌, ltb, ◌==◌, if◌then◌else◌, take, drop, get_or,
}

-- `net_mbuf_t`
pub record Mbuf : Type 0 where
  pub node : ℕ
  pub bytes : List ℕ
  pub offset : ℕ
  pub length : ℕ

-- `net_mbuf_init`
abbrev pub mbuf_init : ℕ → List ℕ → ℕ → ℕ → Mbuf
mbuf_init node bytes offset length = record {
  node = node;
  bytes = bytes;
  offset = offset;
  length = length;
}

-- The loop of `net_mbuf_append`: whether the chain has the buffer
unfoldable pub has_node : ℕ → List Mbuf → Bool
has_node node [] = false
has_node node (m ∷ ms) = if m.node == node then true else has_node node ms

-- `net_mbuf_append`; what is appended is the buffer at `node`, and those behind it.
abbrev pub append : List Mbuf → ℕ → List Mbuf → Bool × List Mbuf
append chain node more = if has_node node chain then (false, chain) else (true, chain ++ more)

-- `net_mbuf_length`
unfoldable pub chain_length : List Mbuf → ℕ
chain_length [] = 0
chain_length (m ∷ ms) = m.length + chain_length ms

-- `net_mbuf_seek`
unfoldable pub seek : List Mbuf → ℕ → Option (List Mbuf)
seek [] k = none
seek (m ∷ ms) k =
    let rest = seek ms (k + m.offset - m.length) in
    if ltb (m.offset + k) m.length then some (record m { offset = m.offset + k } ∷ ms) else rest

-- `*(unsigned char *)(mbuf->Buffer + mbuf->Offset)` of the next buffer, if there is one
abbrev pub next_byte : List Mbuf → ℕ
next_byte [] = 0
next_byte (m ∷ ms) = get_or m.bytes m.offset 0

-- The words of one buffer in `net_tcp_checksum`, the last one filled up with the byte behind it, and
-- whether there was one to be filled up
unfoldable pub add_data : List ℕ → ℕ → ℕ → ℕ × Bool
add_data [] next sum = (sum, false)
add_data (a ∷ []) next sum = ((sum + (a * 256 + next)) % 2 ^ 32, true)
add_data (a ∷ b ∷ rest) next sum = add_data rest next ((sum + (a * 256 + b)) % 2 ^ 32)

abbrev pub one_if : Bool → ℕ
one_if b = if b then 1 else 0

abbrev pub has_next : List Mbuf → Bool
has_next [] = false
has_next (m ∷ ms) = true

-- The `while` of `net_tcp_checksum`: the sum and the total length. A buffer that is shorter than
-- where its data start, whose length would be negative, is `none`.
unfoldable pub sum_chain : List Mbuf → ℕ → ℕ → ℕ → Option (ℕ × ℕ)
sum_chain [] offset sum total = some (sum, total)
sum_chain (m ∷ ms) offset sum total =
    let start = m.offset + offset in
    let (sum', odd) = add_data (take (m.length - start) (drop start m.bytes)) (next_byte ms) sum in
    let rest =
      sum_chain ms (one_if odd) sum' (total + (m.length - start) + one_if (odd && has_next ms)) in
    if ltb m.length start then none else rest

-- The words of the `IP_PSEUDO_HEADER`, with the four bytes of either address
abbrev pub pseudo_bytes : List ℕ → List ℕ → ℕ → List ℕ
pseudo_bytes source dest total =
    source ++ (dest ++ (0 ∷ 6 ∷ (total / 256 % 256) ∷ (total % 256) ∷ []))

-- The end of `net_tcp_checksum`: the carry is added twice.
abbrev pub fold_twice : ℕ → ℕ
fold_twice sum =
    let once = (sum % 65536 + sum / 65536) % 2 ^ 32 in
    65535 - (once + once / 65536) % 2 ^ 32 % 65536

-- What `net_tcp_checksum` makes of the sum and the total length
abbrev pub close_sum : List ℕ → List ℕ → Option (ℕ × ℕ) → Option ℕ
close_sum source dest none = none
close_sum source dest (some (sum, total)) =
    some (fold_twice (add_data (pseudo_bytes source dest total) 0 sum).0)

-- The chain from the offset on
abbrev pub from_offset : List Mbuf → ℕ → Option (List Mbuf) → List Mbuf
from_offset chain zero found = chain
from_offset chain (suc k) none = []
from_offset chain (suc k) (some rest) = rest

-- `net_tcp_checksum`
unfoldable pub tcp_checksum : List ℕ → List ℕ → List Mbuf → ℕ → Option ℕ
tcp_checksum source dest chain offset =
    close_sum source dest (sum_chain (from_offset chain offset (seek chain offset)) 0 0 0)
