-- ===== src/Checksum.antt =====
-- exos/kernel/driver/net/ip.c: the checksum of an IP header.
-- `unsigned long` has 32 bits. The data is the list of its bytes; the code sets the byte behind an odd
-- number of bytes to 0, in the caller's buffer, which is not in the model.
pub mod Carry
pub mod Tests
use ex_os.Base.{ℕ, ◌+◌, ◌-◌, ◌*◌, ◌/◌, ◌%◌, ◌^◌, List, [], ◌∷◌}

-- `NTOH16` of the words of the data
unfoldable pub words : List ℕ → List ℕ
words [] = []
words (a ∷ []) = (a * 256) ∷ []
words (a ∷ b ∷ rest) = (a * 256 + b) ∷ words rest

-- The loop of `net_ip_checksum`
unfoldable pub add_words : List ℕ → ℕ → ℕ
add_words [] sum = sum
add_words (w ∷ ws) sum = add_words ws ((sum + w) % 2 ^ 32)

-- The end of `net_ip_checksum`: the carry is added once.
abbrev pub fold : ℕ → ℕ
fold sum = 65535 - (sum + sum / 65536) % 2 ^ 32 % 65536

unfoldable pub checksum_words : List ℕ → ℕ
checksum_words ws = fold (add_words ws 0)

-- `net_ip_checksum`
pub ip_checksum : List ℕ → ℕ
ip_checksum bytes = checksum_words (words bytes)
