-- ===== src/Base/Table.antt =====
-- Statements about a small range of numbers, proved by running a test at each of them.
use ex_os.Base.{ℕ, zero, suc, ◌<◌, ◌+◌, ◌≡◌, Bool, true, false, if◌then◌else◌, arith}

-- Whether the test passes from `k` on for `n` numbers.
unfoldable pub passes : (ℕ → Bool) → ℕ → ℕ → Bool
passes test k zero = true
passes test k (suc n) = if test k then passes test (k + 1) n else false

passes-tested : (test : ℕ → Bool) (k n j : ℕ) → passes test k n ≡ true → j < n → test (k + j) ≡ true
unfolding passes
passes-tested test k zero j ok lt = absurd (omega arith)
passes-tested test k (suc n) zero ok lt = ground arith
passes-tested test k (suc n) (suc j) ok lt =
    let next : k + suc j ≡ k + 1 + j = omega arith in
    rw next (ground (arith, passes-tested test (k + 1) n j))

unfoldable pub all_below : ℕ → (ℕ → Bool) → Bool
all_below n test = passes test 0 n

pub all_below-tested : (test : ℕ → Bool) (n j : ℕ) → all_below n test ≡ true → j < n → test j ≡ true
unfolding all_below
all_below-tested test n j ok lt =
    let at_zero : 0 + j ≡ j = omega arith in rw at_zero at (passes-tested test 0 n j ok lt)
