-- ===== src/Text.antt =====
-- exos/kernel/machine/hal.c: memory, strings and numbers as text, for targets without a C library.
-- Memory is a map from addresses to bytes. A string is the list of its bytes, without the NUL that ends
-- it; a pointer into a caller's buffer is the list of what is written there. `char` is unsigned, as on
-- ARM. A failed ASSERT is `none`. A word has `w` bits, 32 for `int`; `-value` of an `int` wraps around.
pub mod Copy
pub mod Compare
pub mod Reverse
pub mod Decimal
pub mod Tests
use ex_os.Base.{
  ℕ, zero, suc, ◌+◌, ◌-◌, ◌*◌, ◌/◌, ◌%◌, ◌^◌, Bool, true, false, not, ◌&&◌, ◌||◌, Option, none,
  some, List, [], ◌∷◌, ◌++◌, ltb, leb, ◌==◌, if◌then◌else◌, length, set, get_or, replicate,
}
use ex_os.Base.Int.{ℤ, pos, negsuc, ◌+ℤ◌, ◌-ℤ◌, ◌*ℤ◌, ltb_ℤ}
use ex_os.Base.Words.{uchar, div_int, mod_int}

abbrev pub Memory : Type 0
Memory = ℕ → ℕ

abbrev pub store : Memory → ℕ → ℕ → Memory
store m a v b = if b == a then v else m b

-- The loop of `__mem_copy`: `n` is `stop - start`.
unfoldable pub copy_loop : ℕ → ℕ → ℕ → Memory → Memory
copy_loop zero start source m = m
copy_loop (suc n) start source m = copy_loop n (start + 1) (source + 1) (store m start (m source))

-- `__mem_copy`, for `stop = start + n`
pub mem_copy : ℕ → ℕ → ℕ → Memory → Option Memory
mem_copy n start source m =
    if (start == 0) || (source == 0)
    then none
    else some (if source == start then m else copy_loop n start source m)

-- The loop of `__mem_set`: `n` is `stop - start`.
unfoldable pub set_loop : ℕ → ℕ → ℕ → Memory → Memory
set_loop zero start stuff m = m
set_loop (suc n) start stuff m = set_loop n (start + 1) stuff (store m start stuff)

-- `__mem_set`, for `stop = start + n`
pub mem_set : ℕ → ℕ → ℕ → Memory → Option Memory
mem_set n start stuff m = if start == 0 then none else some (set_loop n start stuff m)

-- `__str_copy`: the count, and what is written to `dst`. `n` is `max_length - done`.
unfoldable pub str_copy : ℕ → List ℕ → ℕ × List ℕ
str_copy zero src = (0, [])
str_copy (suc n) [] = (0, 0 ∷ [])
str_copy (suc n) (c ∷ src) =
    let (done, dst) = str_copy n src in if c == 0 then (0, 0 ∷ []) else (done + 1, c ∷ dst)

-- `__str_comp`: the bytes behind the end of a string are its NUL.
unfoldable pub str_comp : List ℕ → List ℕ → ℤ
str_comp [] [] = pos 0
str_comp [] (b ∷ bs) = if b == 0 then pos 0 else negsuc 0
str_comp (a ∷ as') [] = if a == 0 then pos 0 else pos 1
str_comp (a ∷ as') (b ∷ bs) =
    let rest = str_comp as' bs in
    if (a == b) && not (a == 0)
    then rest
    else if a == b
    then pos 0
    else if ltb a b
    then negsuc 0
    else pos 1

-- The loop of `_reverse_str`; each round brings `p` and `q` nearer by two.
unfoldable pub reverse_loop : ℕ → List ℕ → ℕ → ℕ → List ℕ
reverse_loop zero str p q = str
reverse_loop (suc fuel) str p q =
    let rest =
      reverse_loop fuel (set (set str p (get_or str q 0)) q (get_or str p 0)) (p + 1) (q - 1) in
    if ltb p q then rest else str

-- `_reverse_str`, of a string that is not empty
pub reverse_str : List ℕ → List ℕ
reverse_str str = reverse_loop (length str) str 0 (length str - 1)

-- The `do` loop of `__uint_declz` on words of `w` bits: a word has no more digits than bits.
unfoldable pub dec_digits : ℕ → ℕ → List ℕ
dec_digits zero value = []
dec_digits (suc fuel) value =
    let rest = dec_digits fuel (value / 10) in
    (value % 10 + b'0') ∷ (if value / 10 == 0 then [] else rest)

abbrev pub hex_digit : ℕ → ℕ
hex_digit digit = if leb 10 digit then digit + b'a' - 10 else digit + b'0'

-- The `do` loop of `__uint_hexlz`.
unfoldable pub hex_digits : ℕ → ℕ → List ℕ
hex_digits zero value = []
hex_digits (suc fuel) value =
    let rest = hex_digits fuel (value / 16) in
    hex_digit (value % 16) ∷ (if value / 16 == 0 then [] else rest)

-- `while(length < tz) dst[length++] = tc;`
abbrev pub pad : List ℕ → ℕ → ℕ → List ℕ
pad dst tz tc = dst ++ replicate (tz - length dst) tc

-- `__uint_hexlz`: the length and the text
pub uint_hexlz : ℕ → ℕ → ℕ → ℕ → ℕ × List ℕ
uint_hexlz w value tz tc = let dst = pad (hex_digits w value) tz tc in (length dst, reverse_str dst)

-- `__uint_hexl`
pub uint_hexl : ℕ → ℕ → ℕ × List ℕ
unfolding uint_hexlz
uint_hexl w value = uint_hexlz w value 0 0

-- `__uint_declz`
pub uint_declz : ℕ → ℕ → ℕ → ℕ → ℕ × List ℕ
uint_declz w value tz tc = let dst = pad (dec_digits w value) tz tc in (length dst, reverse_str dst)

-- `__uint_decl`
pub uint_decl : ℕ → ℕ → ℕ × List ℕ
unfolding uint_declz
uint_decl w value = uint_declz w value 0 0

-- The `do` loop of `__int_declz`: a number that is still negative is the least `int`.
unfoldable pub int_digits : ℕ → ℤ → List ℕ
int_digits zero value = []
int_digits (suc fuel) value =
    let left = div_int value 10 in
    let rest = int_digits fuel left in
    uchar (mod_int value 10 +ℤ pos b'0')
    ∷ (if ltb_ℤ left (pos 0) || ltb_ℤ (pos 0) left then rest else [])

-- `-value` of an `int` of `w` bits
abbrev pub negate : ℕ → ℤ → ℤ
negate w (pos n) = pos 0 -ℤ pos n
negate w (negsuc n) = if suc n == 2 ^ (w - 1) then negsuc n else pos (suc n)

-- `__int_declz`: the length that is returned, and the text with its sign
pub int_declz : ℕ → ℤ → ℕ → ℕ → ℕ × List ℕ
int_declz w value tz tc =
    let minus = ltb_ℤ value (pos 0) in
    let dst = pad (int_digits w (if minus then negate w value else value)) tz tc in
    (length dst, (if minus then b'-' ∷ reverse_str dst else reverse_str dst))

-- `__int_decl`
pub int_decl : ℕ → ℤ → ℕ × List ℕ
unfolding int_declz
int_decl w value = int_declz w value 0 0

abbrev pub is_digit : ℕ → Bool
is_digit c = leb b'0' c && leb c b'9'

-- The second loop of `__decl_uint`, from the value and the count `done` on.
unfoldable pub scan_uint : List ℕ → ℕ → ℕ → ℕ × ℕ
scan_uint [] done value = (done, value)
scan_uint (c ∷ src) done value =
    let rest = scan_uint src (done + 1) ((value * 10 + (c - b'0')) % 2 ^ 32) in
    if is_digit c then rest else (done, value)

-- The loop over leading spaces: the bytes from the first other one on, and the count
unfoldable pub skip_spaces : List ℕ → ℕ → List ℕ × ℕ
skip_spaces [] done = ([], done)
skip_spaces (c ∷ src) done =
    let rest = skip_spaces src (done + 1) in if c == b' ' then rest else (c ∷ src, done)

-- `__decl_uint`: the count of bytes read, and the value
pub decl_uint : List ℕ → ℕ × ℕ
decl_uint src = let (left, done) = skip_spaces src 0 in scan_uint left done 0

-- The second loop of `__decl_int`.
unfoldable pub scan_int : List ℕ → ℕ → ℤ → ℕ × ℤ
scan_int [] done value = (done, value)
scan_int (c ∷ src) done value =
    let rest = scan_int src (done + 1) (value *ℤ pos 10 +ℤ pos (c - b'0')) in
    if is_digit c then rest else (done, value)

-- The sign, behind the spaces.
abbrev pub scan_sign : List ℕ → ℕ → ℕ × ℤ
scan_sign [] done = (done, pos 0)
scan_sign (c ∷ left) done =
    if c == b'-'
    then (let (end, value) = scan_int left (done + 1) (pos 0) in (end, pos 0 -ℤ value))
    else scan_int (c ∷ left) done (pos 0)

-- `__decl_int`, where the value does not overflow
pub decl_int : List ℕ → ℕ × ℤ
decl_int src = let (left, done) = skip_spaces src 0 in scan_sign left done
