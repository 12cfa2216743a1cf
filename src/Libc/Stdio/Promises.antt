-- ===== src/Libc/Stdio/Promises.antt =====
-- The text that each conversion of `printf` of libc/stdio.c stands for.
use mathlib.Core.Option
use black_hole_os.Prelude.{
  ℕ, ◌-◌, ◌%◌, ◌^◌, ◌||◌, Option, none, some, List, [], ◌∷◌, ltb, ◌==◌, if◌then◌else◌,
}
use black_hole_os.Libc.Strings.Numerals.{numeral}
use black_hole_os.Libc.Stdio.{Arg, word, null, string, c_text}

-- The text of a number.
abbrev pub unsigned_text : ℕ → List ℕ
unsigned_text v = numeral 10 v 10

abbrev pub hex_text : ℕ → List ℕ
hex_text v = b'0' ∷ b'x' ∷ numeral 8 v 16

-- The least `int` has no promised text.
abbrev pub int_text : ℕ → Option (List ℕ)
int_text v =
    if ltb v (2 ^ 31)
    then some (numeral 10 v 10)
    else if v == 2 ^ 31
    then none
    else some (b'-' ∷ numeral 10 (2 ^ 32 - v) 10)

-- What a conversion promises, from the character behind the percent sign on: its text, and the
-- arguments that are left.
abbrev pub Promise : Type 0
Promise = Option (List ℕ × List Arg)

abbrev pub string_promise : List Arg → Promise
string_promise [] = none
string_promise (word v ∷ args) = none
string_promise (null ∷ args) = some (b'(' ∷ b'n' ∷ b'u' ∷ b'l' ∷ b'l' ∷ b')' ∷ [], args)
string_promise (string str ∷ args) = Option.map (λ text. (text, args)) (c_text str)

abbrev pub word_promise : (ℕ → Option (List ℕ)) → List Arg → Promise
word_promise text [] = none
word_promise text (word v ∷ args) = Option.map (λ t. (t, args)) (text (v % 2 ^ 32))
word_promise text (null ∷ args) = none
word_promise text (string str ∷ args) = none

unfoldable pub promise : ℕ → List Arg → Promise
promise c args =
    if c == b's'
    then string_promise args
    else if c == b'c'
    then word_promise (λ v. some (v % 2 ^ 8 ∷ [])) args
    else if c == b'd' || c == b'i'
    then word_promise int_text args
    else if c == b'u'
    then word_promise (λ v. some (unsigned_text v)) args
    else if c == b'x' || c == b'X'
    then word_promise (λ v. some (hex_text v)) args
    else if c == b'%'
    then some (b'%' ∷ [], args)
    else if c == 0
    then none
    else some (b'%' ∷ c ∷ [], args)
