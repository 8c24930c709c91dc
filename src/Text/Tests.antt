-- ===== src/Text/Tests.antt =====
-- Runs on short texts, and the theorems there.
use ex_os.Base.{ℕ, ◌+◌, ◌≡◌, refl, inr, List, [], ◌∷◌, arith, if◌then◌else◌, length}
use ex_os.Base.Int.{pos, negsuc, ltb_ℤ, ◌+ℤ◌}
use ex_os.Base.Words.{wrap, div_int, mod_int}
use ex_os.Text.{
  str_copy, reverse_loop, reverse_str, dec_digits, hex_digits, int_digits, uint_hexl, uint_hexlz,
  uint_declz, int_decl, int_declz, decl_uint, decl_int,
}
use ex_os.Text.Decimal.{decl_uint-uint_declz, decl_int-int_decl}

hex_text : uint_hexl 32 0x2af ≡ (3, b'2' ∷ b'a' ∷ b'f' ∷ [])
unfolding uint_hexl uint_hexlz hex_digits reverse_str reverse_loop
hex_text = refl

padded_text : uint_declz 32 42 4 b'0' ≡ (4, b'0' ∷ b'0' ∷ b'4' ∷ b'2' ∷ [])
unfolding uint_declz dec_digits reverse_str reverse_loop
padded_text = refl

-- Three bytes are written, and 2 is returned.
negative_text : int_decl 32 (negsuc 11) ≡ (2, b'-' ∷ b'1' ∷ b'2' ∷ [])
unfolding int_decl int_declz int_digits reverse_str reverse_loop div_int mod_int wrap ◌+ℤ◌
negative_text = refl

short_copy : str_copy 2 (b'a' ∷ b'b' ∷ b'c' ∷ []) ≡ (2, b'a' ∷ b'b' ∷ [])
unfolding str_copy
short_copy = refl

decl_uint-uint_declz_example :
    let (n, text) = uint_declz 32 4096 6 b' ' in decl_uint text ≡ (n, 4096)
decl_uint-uint_declz_example = decl_uint-uint_declz 4096 6 b' ' (omega arith) (inr refl)

decl_int-int_decl_example :
    let (n, text) = int_decl 32 (negsuc 11) in
    (decl_int text ≡ (length text, negsuc 11))
    × (length text ≡ n + (if ltb_ℤ (negsuc 11) (pos 0) then 1 else 0))
decl_int-int_decl_example = decl_int-int_decl (negsuc 11) (omega arith) (omega arith)

abbrev one_letter : List ℕ
one_letter = b'a' ∷ []

abbrev two_letters : List ℕ
two_letters = b'a' ∷ b'b' ∷ []
