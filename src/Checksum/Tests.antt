-- ===== src/Checksum/Tests.antt =====
-- Short headers, and the theorem there.
use ex_os.Base.{◌+◌, ◌/◌, ◌%◌, ◌<◌, ◌≡◌, ◌↔◌, refl, [], ◌∷◌, ◌++◌, arith}
use ex_os.Checksum.{words, add_words, checksum_words, ip_checksum}
use ex_os.Checksum.Carry.{total, checksum_words-zero}

odd_bytes : ip_checksum (0x45 ∷ 0x00 ∷ 0x01 ∷ []) ≡ 0xb9ff
unfolding ip_checksum words checksum_words add_words
odd_bytes = refl

-- The carry of the carry is lost: the header does not pass.
second_carry :
    checksum_words
      (0xffff ∷ 0xffff ∷ 0x0001 ∷ checksum_words (0xffff ∷ 0xffff ∷ 0x0001 ∷ 0 ∷ []) ∷ [])
    ≡ 0xffff
unfolding checksum_words add_words
second_carry = refl

checksum_words-zero_example :
    (checksum_words
        ((0x4500 ∷ []) ++ (checksum_words ((0x4500 ∷ []) ++ (0 ∷ 0xc0a8 ∷ [])) ∷ 0xc0a8 ∷ []))
      ≡ 0)
    ↔ (66984 % 65536 + 66984 / 65536 < 65536)
unfolding total
checksum_words-zero_example =
    checksum_words-zero (0x4500 ∷ []) (0xc0a8 ∷ []) 66984 refl (omega arith)
