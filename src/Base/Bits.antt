-- ===== src/Base/Bits.antt =====
-- Bitwise `and` of variables, from the digits that it is defined by.
use ex_os.Base.{ℕ, zero, suc, ◌/◌, ◌≤◌, min, ◌≡◌, refl, sym, ◌∙◌, arith}
use Prim.Native.Nat.{bit_and, digits, bit_and-bitwise}

abbrev both : ℕ → ℕ → ℕ → ℕ
both n a b = digits (λ _. zero) min n a b

both-zero : (n a : ℕ) → both n a 0 ≡ 0
both-zero zero a = refl
both-zero (suc n) zero = refl
both-zero (suc n) (suc a) = omega (arith, both-zero n (suc a / 2))

both_comm : (n m a b : ℕ) → a ≤ n → b ≤ m → both n a b ≡ both m b a
both_comm zero m zero b p q = sym (both-zero m b)
both_comm zero m (suc a) b p q = absurd (omega arith)
both_comm (suc n) m zero b p q = sym (both-zero m b)
both_comm (suc n) zero (suc a) zero p q = both-zero (suc n) (suc a)
both_comm (suc n) zero (suc a) (suc b) p q = absurd (omega arith)
both_comm (suc n) (suc m) (suc a) zero p q = both-zero (suc n) (suc a)
both_comm (suc n) (suc m) (suc a) (suc b) p q =
    omega (arith, both_comm n m (suc a / 2) (suc b / 2) (omega arith) (omega arith))

pub bit_and_comm : (a b : ℕ) → bit_and a b ≡ bit_and b a
bit_and_comm a b =
    bit_and-bitwise a b ∙ both_comm a b a b (omega arith) (omega arith) ∙ sym (bit_and-bitwise b a)

pub zero-bit_and : (b : ℕ) → bit_and 0 b ≡ 0
zero-bit_and b = bit_and-bitwise 0 b
