-- ===== src/Mbuf/Tests.antt =====
-- A small packet in two pieces, and the theorems there.
use ex_os.Base.{
  ℕ, ◌+◌, ◌/◌, ◌%◌, ◌≡◌, refl, true, false, some, List, [], ◌∷◌, arith, length, take, drop,
}
use ex_os.Mbuf.{Mbuf, append, has_node, chain_length, seek, add_data, sum_chain, tcp_checksum}
use ex_os.Mbuf.Seek.{contents}
use ex_os.Mbuf.Verify.{checksum_of, tcp_checksum-checksum_of, tcp_checksum-zero}

abbrev local_ip : List ℕ
local_ip = 10 ∷ 0 ∷ 0 ∷ 1 ∷ []

abbrev remote_ip : List ℕ
remote_ip = 10 ∷ 0 ∷ 0 ∷ 2 ∷ []

-- Two bytes in front of the data, and a first piece of five bytes
abbrev two_pieces : List Mbuf
two_pieces =
    record { node = 100; bytes = 9 ∷ 9 ∷ 200 ∷ 7 ∷ 0 ∷ 0 ∷ 5 ∷ []; offset = 1; length = 7 }
    ∷ record { node = 200; bytes = 8 ∷ 6 ∷ 4 ∷ []; offset = 1; length = 3 }
    ∷ []

appended : append (take 1 two_pieces) 200 (drop 1 two_pieces) ≡ (true, two_pieces)
unfolding has_node
appended = refl

appended_again : append two_pieces 200 (drop 1 two_pieces) ≡ (false, two_pieces)
unfolding has_node
appended_again = refl

-- The length counts what stands before the offsets too.
length_counts_offsets : chain_length two_pieces ≡ length (contents two_pieces) + 2
unfolding chain_length
length_counts_offsets = refl

sum : tcp_checksum local_ip remote_ip two_pieces 1 ≡ some 6882
unfolding tcp_checksum sum_chain add_data seek
sum = refl

-- The same bytes with the checksum, in one piece
abbrev one_piece : List Mbuf
one_piece =
    record {
      node = 300;
      bytes = 200 ∷ 7 ∷ (6882 / 256) ∷ (6882 % 256) ∷ 5 ∷ 6 ∷ 4 ∷ [];
      offset = 0;
      length = 7;
    }
    ∷ []

tcp_checksum-checksum_of_example :
    tcp_checksum local_ip remote_ip two_pieces 1
    ≡ some (checksum_of local_ip remote_ip (drop 1 (contents two_pieces)))
tcp_checksum-checksum_of_example =
    tcp_checksum-checksum_of local_ip remote_ip two_pieces 1 (omega arith, (omega arith, tt))
      (omega arith)

tcp_checksum-zero_example : tcp_checksum local_ip remote_ip one_piece 0 ≡ some 0
unfolding tcp_checksum sum_chain add_data seek
tcp_checksum-zero_example =
    tcp_checksum-zero local_ip remote_ip 1 1 0 (200 ∷ 7 ∷ []) (5 ∷ 6 ∷ 4 ∷ []) two_pieces one_piece
      6882 (omega arith) (omega arith) (omega arith) (omega arith) (omega arith, (omega arith, tt))
      (omega arith, tt) (omega arith) (omega arith) refl refl refl
