-- ===== src/Libc/Strings/Tests.antt =====
-- The functions of libc/string.c on concrete strings.
use mathlib.Core.Option
use black_hole_os.Prelude.{
  ◌^◌, ◌-◌, none, ℕ, ◌+◌, ◌≡◌, refl, arith, List, [], ◌∷◌, ◌++◌, length, drop, replicate, some,
}
use black_hole_os.Prelude.Int.{pos, negsuc}
use black_hole_os.Libc.Strings.{
  reverse, reverse_loop, uitoa, uitoa_loop, itoa, itoa_loop, digit, put, put_sign, finish,
}
use black_hole_os.Libc.Strings.CString.{NulFree}
use black_hole_os.Libc.Strings.Numerals.{
  numeral, read_number, uitoa-numeral, uitoa-read_number, itoa-uitoa, itoa-numeral,
}

abbrev ls : List ℕ
ls = b'l' ∷ b's' ∷ []

abbrev lsd : List ℕ
lsd = b'l' ∷ b's' ∷ b'd' ∷ []

ls-NulFree : NulFree ls
ls-NulFree = (omega arith, (omega arith, tt))

lsd-NulFree : NulFree lsd
lsd-NulFree = (omega arith, (omega arith, (omega arith, tt)))

-- The digits of the least `int` come out as other characters, as C's remainders are negative.
least_int :
    itoa (negsuc 2147483647) (replicate 16 7) (pos 10)
    ≡ some (b'-' ∷ 46 ∷ 47 ∷ 44 ∷ 41 ∷ 44 ∷ 40 ∷ 45 ∷ 42 ∷ 44 ∷ 40 ∷ 0 ∷ replicate 4 7)
unfolding itoa itoa_loop digit put put_sign finish reverse reverse_loop
least_int = refl

-- In base -2 the two differ.
negative_base :
    (itoa (pos 5) (replicate 6 7) (negsuc 1) ≡ some (b'1' ∷ b'0' ∷ b'1' ∷ 0 ∷ 7 ∷ 7 ∷ []))
    × (uitoa 5 (replicate 6 7) (2 ^ 32 - 2) ≡ some (b'5' ∷ 0 ∷ 7 ∷ 7 ∷ 7 ∷ 7 ∷ []))
unfolding itoa itoa_loop uitoa uitoa_loop digit put put_sign finish reverse reverse_loop
negative_base = (refl, refl)

base_zero : itoa (pos 5) (replicate 6 7) (pos 0) ≡ none
unfolding itoa itoa_loop put
base_zero = refl

minus_42 : itoa (negsuc 41) (replicate 6 7) (pos 10) ≡ some (b'-' ∷ b'4' ∷ b'2' ∷ 0 ∷ 7 ∷ 7 ∷ [])
unfolding itoa itoa_loop digit put put_sign finish reverse reverse_loop
minus_42 = refl

hex : uitoa 0xB8000 (replicate 6 7) 16 ≡ some (b'b' ∷ b'8' ∷ b'0' ∷ b'0' ∷ b'0' ∷ 0 ∷ [])
unfolding uitoa uitoa_loop digit put finish reverse reverse_loop
hex = refl

uitoa-numeral_example :
    uitoa 753 (replicate 6 7) 16
    ≡ some (numeral 3 753 16 ++ 0 ∷ drop (length (numeral 3 753 16) + 1) (replicate 6 7))
uitoa-numeral_example =
    uitoa-numeral 753 16 3 (replicate 6 7) (omega arith) (omega arith) (omega arith) (omega arith)
      (omega arith)

uitoa-read_number_example : Option.map (read_number 16 0) (uitoa 753 (replicate 6 7) 16) ≡ some 753
uitoa-read_number_example =
    uitoa-read_number 753 16 3 (replicate 6 7) (omega arith) (omega arith) (omega arith)
      (omega arith) (omega arith) (omega arith)

itoa-uitoa_example : itoa (pos 753) (replicate 6 7) (pos 10) ≡ uitoa 753 (replicate 6 7) 10
itoa-uitoa_example = itoa-uitoa 753 10 (replicate 6 7)

itoa-numeral_example :
    itoa (negsuc 41) (replicate 6 7) (pos 10)
    ≡ some (b'-' ∷ numeral 2 42 10 ++ 0 ∷ drop (length (numeral 2 42 10) + 2) (replicate 6 7))
itoa-numeral_example =
    itoa-numeral 41 2 (replicate 6 7) (omega arith) (omega arith) (omega arith) (omega arith)
