-- ===== src/Base/Words.antt =====
-- C's integers: conversions to the unsigned types, and `/` and `%` on `int`, which round to zero.
use ex_os.Base.{ℕ, suc, ◌+◌, ◌-◌, ◌/◌, ◌%◌}
use ex_os.Base.Int.{ℤ, pos, negsuc, sub_ℕ}

-- The value of an `int` converted to an unsigned type of `2 ^ w` values.
unfoldable pub wrap : ℕ → ℤ → ℕ
wrap m (pos n) = n % m
wrap m (negsuc n) = m - 1 - n % m

abbrev pub uchar : ℤ → ℕ
uchar z = wrap 256 z

abbrev pub ushort : ℤ → ℕ
ushort z = wrap 65536 z

-- An `int` stored to a `signed char`.
abbrev pub schar : ℤ → ℤ
schar z = sub_ℕ ((wrap 256 z + 128) % 256) 128

-- `z / m` and `z % m` for a positive `m`.
unfoldable pub div_int : ℤ → ℕ → ℤ
div_int (pos n) m = pos (n / m)
div_int (negsuc n) m = sub_ℕ 0 (suc n / m)

unfoldable pub mod_int : ℤ → ℕ → ℤ
mod_int (pos n) m = pos (n % m)
mod_int (negsuc n) m = sub_ℕ 0 (suc n % m)
