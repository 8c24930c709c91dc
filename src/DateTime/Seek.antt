-- ===== src/DateTime/Seek.antt =====
-- `_divrem` and the time of day of `_seek`.
use ex_os.Base.{
  ℕ, suc, ◌+◌, ◌-◌, ◌*◌, ◌/◌, ◌%◌, ◌≤◌, ◌<◌, ◌≡◌, refl, inl, inr, arith, ◌==◌, if◌then◌else◌,
  Bool-cases,
}
use native.Mathlib.Nat.{div-add-mod}
use ex_os.Base.Int.{ℤ, pos, negsuc, pos_part, sub_ℕ, ◌+ℤ◌, ◌-ℤ◌, ◌*ℤ◌}
use ex_os.Base.Words.{div_int, mod_int}
use ex_os.DateTime.{divrem}

-- The quotient of `-(n + 1)`, by whether the division leaves a remainder.
divrem-negsuc :
    (n m : ℕ)
    → 0 < m
    → divrem (negsuc n) m ≡ (
        if suc n % m == 0
        then (sub_ℕ 0 (suc n / m), pos 0)
        else (negsuc (suc n / m), pos (m - suc n % m)))
unfolding divrem div_int mod_int ◌+ℤ◌ ◌-ℤ◌
divrem-negsuc n m h = ground arith

floor_negsuc : (n m k : ℕ) → k * m ≡ suc n → sub_ℕ 0 k *ℤ pos m +ℤ pos 0 ≡ negsuc n
unfolding ◌*ℤ◌ ◌+ℤ◌
floor_negsuc n m k h = grind arith

floor_negsuc_rest :
    (n m k r : ℕ) → k * m + r ≡ suc n → r ≤ m → negsuc k *ℤ pos m +ℤ pos (m - r) ≡ negsuc n
unfolding ◌*ℤ◌ ◌+ℤ◌
floor_negsuc_rest n m k r h l = grind arith

-- Both signs of a positive divisor: `q * m + r = d` with `0 ≤ r < m`.
pub divrem_lem :
    (d : ℤ) (m : ℕ)
    → 0 < m
    → let (q, r) = divrem d m in (r ≡ pos (pos_part r)) × (pos_part r < m) × (q *ℤ pos m +ℤ r ≡ d)
divrem_lem (pos n) m h = unfold divrem div_int mod_int ◌+ℤ◌ ◌*ℤ◌ in grind arith
divrem_lem (negsuc n) m h = rw (divrem-negsuc n m h) (elim (Bool-cases (suc n % m == 0)) [
  | inl e ↦ rw e (refl, h, floor_negsuc n m (suc n / m) (ground (arith, div-add-mod (suc n) m)))
  | inr e ↦ rw e (
    refl,
    ground arith,
    floor_negsuc_rest n m (suc n / m) (suc n % m) (ground (arith, div-add-mod (suc n) m))
        (ground arith),
  )
])
