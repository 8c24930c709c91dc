-- ===== src/Text/Decimal.antt =====
-- Decimal numbers: what is printed is read back.
use ex_os.Base.{
  ℕ, zero, suc, ◌+◌, ◌-◌, ◌*◌, ◌/◌, ◌%◌, ◌^◌, ◌<◌, ◌≡◌, ◌∙◌, ◌⊎◌, inl, inr, refl, ap, Bool, true,
  false, List, [], ◌∷◌, ◌++◌, append_assoc, append-nil, arith, ◌==◌, if◌then◌else◌, Bool-cases,
  length, length-append, length-replicate, replicate,
}
use ex_os.Base.Int.{ℤ, pos, negsuc, pos_part, neg_part, ltb_ℤ, ◌+ℤ◌, ◌*ℤ◌, ◌-ℤ◌, pos-add, pos-mul}
use ex_os.Base.Words.{wrap, div_int, mod_int}
use ex_os.LinkedList.Links.{All, All-append}
use ex_os.Text.{
  dec_digits, pad, is_digit, reverse_str, uint_declz, int_digits, int_declz, int_decl, negate,
  scan_uint, skip_spaces, decl_uint, scan_int, decl_int, scan_sign,
}
use ex_os.Text.Reverse.{reverse, reverse-append, reverse_str-reverse}

scan_uint_last :
    (v done d : ℕ) (rest : List ℕ)
    → v < 2 ^ 32
    → done + 1 ≡ d
    → scan_uint ((v % 10 + b'0') ∷ rest) done (v / 10) ≡ scan_uint rest d v
unfolding scan_uint
scan_uint_last v done d rest k e =
    let digit : is_digit (v % 10 + b'0') ≡ true = ground arith in
    let value : (v / 10 * 10 + (v % 10 + b'0' - b'0')) % 2 ^ 32 ≡ v = omega arith in
    rw (digit, value, e) refl

scan_uint-dec_digits :
    (fuel v done : ℕ) (rest : List ℕ)
    → v < 2 ^ fuel
    → v < 2 ^ 32
    → scan_uint (reverse (dec_digits fuel v) ++ rest) done 0
      ≡ scan_uint rest (done + length (dec_digits fuel v)) v
unfolding dec_digits
scan_uint-dec_digits zero v done rest h k =
    let none_left : v ≡ 0 = omega arith in rw none_left (ap (λ d. scan_uint rest d 0) (omega arith))
scan_uint-dec_digits (suc fuel) v done rest h k = elim (Bool-cases (v / 10 == 0)) [
  | inl e ↦
      let first : v / 10 ≡ 0 = ground arith in
      rw e (rw first at (scan_uint_last v done (done + 1) rest k refl))
  | inr e ↦
      let ih =
        scan_uint-dec_digits fuel (v / 10) done ((v % 10 + b'0') ∷ rest) (grind arith)
          (omega arith) in
      rw (e, append_assoc (reverse (dec_digits fuel (v / 10))) ((v % 10 + b'0') ∷ []) rest)
        (ih ∙ scan_uint_last v _ _ rest k (omega arith))
]

IsDigits : List ℕ → Type 0
IsDigits xs = All (λ c. is_digit c ≡ true) xs

dec_digits-IsDigits : (fuel v : ℕ) → IsDigits (dec_digits fuel v)
unfolding dec_digits IsDigits
dec_digits-IsDigits zero v = tt
dec_digits-IsDigits (suc fuel) v = elim (Bool-cases (v / 10 == 0)) [
  | inl e ↦ rw e (ground arith, tt)
  | inr e ↦ rw e (ground arith, dec_digits-IsDigits fuel (v / 10))
]

reverse-IsDigits : (xs : List ℕ) → IsDigits xs → IsDigits (reverse xs)
unfolding IsDigits
reverse-IsDigits [] d = tt
reverse-IsDigits (x ∷ xs) d =
    (All-append (λ c. is_digit c ≡ true) (reverse xs) (x ∷ [])).1
      (reverse-IsDigits xs d.1, (d.0, tt))

replicate_zeros-IsDigits : (n : ℕ) → IsDigits (replicate n b'0')
unfolding IsDigits
replicate_zeros-IsDigits zero = tt
replicate_zeros-IsDigits (suc n) = (refl, replicate_zeros-IsDigits n)

replicate-snoc : (n c : ℕ) → replicate n c ++ c ∷ [] ≡ c ∷ replicate n c
replicate-snoc zero c = refl
replicate-snoc (suc n) c = ap (λ l. c ∷ l) (replicate-snoc n c)

reverse-replicate : (n c : ℕ) → reverse (replicate n c) ≡ replicate n c
reverse-replicate zero c = refl
reverse-replicate (suc n) c = rw (reverse-replicate n c) (replicate-snoc n c)

skip_spaces-IsDigits : (xs : List ℕ) (done : ℕ) → IsDigits xs → skip_spaces xs done ≡ (xs, done)
unfolding skip_spaces IsDigits
skip_spaces-IsDigits [] done d = refl
skip_spaces-IsDigits (x ∷ xs) done d =
    let not_space : (x == b' ') ≡ false = ground (arith, d.0) in rw not_space refl

skip_spaces-replicate :
    (n done : ℕ) (xs : List ℕ)
    → skip_spaces (replicate n b' ' ++ xs) done ≡ skip_spaces xs (done + n)
unfolding skip_spaces
skip_spaces-replicate zero done xs = ap (λ d. skip_spaces xs d) (omega arith)
skip_spaces-replicate (suc n) done xs =
    skip_spaces-replicate n (done + 1) xs ∙ ap (λ d. skip_spaces xs d) (omega arith)

scan_uint-replicate :
    (n done : ℕ) (xs : List ℕ)
    → scan_uint (replicate n b'0' ++ xs) done 0 ≡ scan_uint xs (done + n) 0
unfolding scan_uint
scan_uint-replicate zero done xs = ap (λ d. scan_uint xs d 0) (omega arith)
scan_uint-replicate (suc n) done xs =
    scan_uint-replicate n (done + 1) xs ∙ ap (λ d. scan_uint xs d 0) (omega arith)

append-IsDigits : (xs ys : List ℕ) → IsDigits xs → IsDigits ys → IsDigits (xs ++ ys)
unfolding IsDigits
append-IsDigits xs ys d e = (All-append (λ c. is_digit c ≡ true) xs ys).1 (d, e)

-- The text of a padded number: the padding, then the digits.
uint_text :
    (v tz tc : ℕ)
    → reverse_str (pad (dec_digits 32 v) tz tc)
      ≡ replicate (tz - length (dec_digits 32 v)) tc ++ reverse (dec_digits 32 v)
uint_text v tz tc =
    let ds = dec_digits 32 v in
    let n = tz - length ds in
    reverse_str-reverse (ds ++ replicate n tc)
    ∙ reverse-append ds (replicate n tc)
    ∙ ap (λ l. l ++ reverse ds) (reverse-replicate n tc)

length-pad : (ds : List ℕ) (tz tc : ℕ) → length (pad ds tz tc) ≡ (tz - length ds) + length ds
length-pad ds tz tc =
    omega (
      arith,
      length-append ds (replicate (tz - length ds) tc),
      length-replicate (tz - length ds) tc,
    )

scan_digits_only :
    (n v : ℕ)
    → v < 2 ^ 32
    → scan_uint (reverse (dec_digits 32 v)) n 0 ≡ (n + length (dec_digits 32 v), v)
unfolding scan_uint
scan_digits_only n v k =
    rw (append-nil (reverse (dec_digits 32 v))) at (scan_uint-dec_digits 32 v n [] (omega arith) k)

-- `__decl_uint` reads back what `__uint_declz` prints of an `unsigned`, all of the text that the
-- length says, if the padding is zeros or spaces.
pub decl_uint-uint_declz :
    (v tz tc : ℕ)
    → v < 2 ^ 32
    → (tc ≡ b'0') ⊎ (tc ≡ b' ')
    → let (n, text) = uint_declz 32 v tz tc in decl_uint text ≡ (n, v)
unfolding decl_uint uint_declz
decl_uint-uint_declz v tz tc k (inl zeros) =
    let ds = dec_digits 32 v in
    let n = tz - length ds in
    let digits =
      append-IsDigits (replicate n b'0') (reverse ds) (replicate_zeros-IsDigits n)
        (reverse-IsDigits ds (dec_digits-IsDigits 32 v)) in
    rw (uint_text v tz tc, zeros)
      (rw (skip_spaces-IsDigits (replicate n b'0' ++ reverse ds) 0 digits) (
        scan_uint-replicate n 0 (reverse ds)
        ∙ scan_digits_only (0 + n) v k
        ∙ ap (λ d. (d, v)) (omega (arith, length-pad ds tz b'0'))))
decl_uint-uint_declz v tz tc k (inr spaces) =
    let ds = dec_digits 32 v in
    let n = tz - length ds in
    let digits = reverse-IsDigits ds (dec_digits-IsDigits 32 v) in
    rw (uint_text v tz tc, spaces)
      (rw (skip_spaces-replicate n 0 (reverse ds), skip_spaces-IsDigits (reverse ds) (0 + n) digits)
        (scan_digits_only (0 + n) v k ∙ ap (λ d. (d, v)) (omega (arith, length-pad ds tz b' '))))

int_digits-dec_digits : (fuel v : ℕ) → int_digits fuel (pos v) ≡ dec_digits fuel v
unfolding int_digits dec_digits div_int mod_int wrap ◌+ℤ◌
int_digits-dec_digits zero v = refl
int_digits-dec_digits (suc fuel) v = ground (arith, int_digits-dec_digits fuel (v / 10))

scan_int_last :
    (v done d : ℕ) (rest : List ℕ)
    → done + 1 ≡ d
    → scan_int ((v % 10 + b'0') ∷ rest) done (pos (v / 10)) ≡ scan_int rest d (pos v)
unfolding scan_int
scan_int_last v done d rest e =
    let digit : is_digit (v % 10 + b'0') ≡ true = ground arith in
    let value : pos (v / 10) *ℤ pos 10 +ℤ pos (v % 10 + b'0' - b'0') ≡ pos v =
      rw (pos-mul (v / 10) 10, pos-add (v / 10 * 10) (v % 10 + b'0' - b'0'))
        (ap pos (omega arith)) in
    rw (digit, value, e) refl

scan_int-dec_digits :
    (fuel v done : ℕ) (rest : List ℕ)
    → v < 2 ^ fuel
    → scan_int (reverse (dec_digits fuel v) ++ rest) done (pos 0)
      ≡ scan_int rest (done + length (dec_digits fuel v)) (pos v)
unfolding dec_digits
scan_int-dec_digits zero v done rest h =
    let none_left : v ≡ 0 = omega arith in
    rw none_left (ap (λ d. scan_int rest d (pos 0)) (omega arith))
scan_int-dec_digits (suc fuel) v done rest h = elim (Bool-cases (v / 10 == 0)) [
  | inl e ↦
      let first : v / 10 ≡ 0 = ground arith in
      rw e (rw first at (scan_int_last v done (done + 1) rest refl))
  | inr e ↦
      let ih = scan_int-dec_digits fuel (v / 10) done ((v % 10 + b'0') ∷ rest) (grind arith) in
      rw (e, append_assoc (reverse (dec_digits fuel (v / 10))) ((v % 10 + b'0') ∷ []) rest)
        (ih ∙ scan_int_last v _ _ rest (omega arith))
]

scan_int_only :
    (n v : ℕ)
    → v < 2 ^ 32
    → scan_int (reverse (dec_digits 32 v)) n (pos 0) ≡ (n + length (dec_digits 32 v), pos v)
unfolding scan_int
scan_int_only n v k =
    rw (append-nil (reverse (dec_digits 32 v))) at (scan_int-dec_digits 32 v n [] (omega arith))

pad_none : (ds : List ℕ) (tc : ℕ) → pad ds 0 tc ≡ ds
pad_none ds tc = let zero_left : 0 - length ds ≡ 0 = omega arith in rw zero_left (append-nil ds)

length-reverse : (xs : List ℕ) → length (reverse xs) ≡ length xs
length-reverse [] = refl
length-reverse (x ∷ xs) = omega (arith, length-append (reverse xs) (x ∷ []), length-reverse xs)

scan_sign-IsDigits :
    (xs : List ℕ) (done : ℕ) → IsDigits xs → scan_sign xs done ≡ scan_int xs done (pos 0)
unfolding scan_int IsDigits
scan_sign-IsDigits [] done d = refl
scan_sign-IsDigits (x ∷ xs) done d =
    let not_minus : (x == b'-') ≡ false = ground (arith, d.0) in rw not_minus refl

-- The text of an `int` that is not negative.
int_text :
    (v : ℕ)
    → (pad (int_digits 32 (pos v)) 0 0 ≡ dec_digits 32 v)
      × (reverse_str (dec_digits 32 v) ≡ reverse (dec_digits 32 v))
int_text v = (
  pad_none (int_digits 32 (pos v)) 0 ∙ int_digits-dec_digits 32 v,
  reverse_str-reverse (dec_digits 32 v),
)

-- What `__int_decl` prints, for a known sign.
abbrev printed : ℤ → Bool → ℕ × List ℕ
printed z minus =
    let dst = pad (int_digits 32 (if minus then negate 32 z else z)) 0 0 in
    (length dst, (if minus then b'-' ∷ reverse_str dst else reverse_str dst))

int_decl_pos : (v : ℕ) → int_decl 32 (pos v) ≡ (length (dec_digits 32 v), reverse (dec_digits 32 v))
unfolding int_decl int_declz
int_decl_pos v =
    let (padded, turned) = int_text v in
    let plus : ltb_ℤ (pos v) (pos 0) ≡ false = ground arith in
    ap (printed (pos v)) plus
    ∙ ap (λ dst. (length dst, reverse_str dst)) padded
    ∙ ap (λ t. (length (dec_digits 32 v), t)) turned

int_decl_neg :
    (v : ℕ)
    → suc v < 2 ^ 31
    → int_decl 32 (negsuc v)
      ≡ (length (dec_digits 32 (suc v)), b'-' ∷ reverse (dec_digits 32 (suc v)))
unfolding int_decl int_declz
int_decl_neg v h =
    let (padded, turned) = int_text (suc v) in
    let negated : negate 32 (negsuc v) ≡ pos (suc v) = ground arith in
    let minus : ltb_ℤ (negsuc v) (pos 0) ≡ true = ground arith in
    ap (printed (negsuc v)) minus
    ∙ ap (λ z. let dst = pad (int_digits 32 z) 0 0 in (length dst, b'-' ∷ reverse_str dst)) negated
    ∙ ap (λ dst. (length dst, b'-' ∷ reverse_str dst)) padded
    ∙ ap (λ t. (length (dec_digits 32 (suc v)), b'-' ∷ t)) turned

negated : (v : ℕ) → pos 0 -ℤ pos (suc v) ≡ negsuc v
unfolding ◌-ℤ◌
negated v = ground arith

-- `__decl_int` reads back all of the text that `__int_decl` prints of an `int` other than the least
-- one. The length that `__int_decl` returns is that of the text without the sign.
pub decl_int-int_decl :
    (v : ℤ)
    → pos_part v < 2 ^ 31
    → neg_part v < 2 ^ 31
    → let (n, text) = int_decl 32 v in
      (decl_int text ≡ (length text, v)) × (length text ≡ n + (if ltb_ℤ v (pos 0) then 1 else 0))
unfolding decl_int skip_spaces
decl_int-int_decl (pos v) p q =
    let ds = dec_digits 32 v in
    let digits = reverse-IsDigits ds (dec_digits-IsDigits 32 v) in
    rw (int_decl_pos v) (
      rw (skip_spaces-IsDigits (reverse ds) 0 digits, scan_sign-IsDigits (reverse ds) 0 digits)
          (scan_int_only 0 v (omega arith)
            ∙ ap (λ d. (d, pos v)) (omega (arith, length-reverse ds))),
      grind (arith, length-reverse ds),
    )
decl_int-int_decl (negsuc v) p q =
    let ds = dec_digits 32 (suc v) in
    rw (int_decl_neg v q) (
      rw (scan_int_only 1 (suc v) (omega arith), negated v)
          (ap (λ d. (d, negsuc v)) (omega (arith, length-reverse ds))),
      grind (arith, length-reverse ds),
    )
