-- ===== src/Libc/Stdio.antt =====
-- libc/stdio.c: `putchar`, `puts` and `printf` on the screen of drivers/vga.c. `none` is a read
-- past the end of an object, or a `va_arg` of another kind than the argument.
pub mod Promises
pub mod Conversions
pub mod Printf
mod Tests
use mathlib.Core.Option
use black_hole_os.Prelude.{
  ℕ, zero, suc, ◌+◌, ◌-◌, ◌%◌, ◌^◌, Bool, ◌||◌, ◌>>=◌, Option, none, some, List, [], ◌∷◌, ltb, ◌==◌,
  if◌then◌else◌,
}
use black_hole_os.Prelude.Int.{ℤ, pos, negsuc}
use black_hole_os.Libc.Strings.{strlen, itoa, uitoa}
use black_hole_os.Drivers.Vga.{Screen, vga_putchar, vga_print}

-- The characters before the NUL.
unfoldable pub c_text : List ℕ → Option (List ℕ)
c_text [] = none
c_text (c ∷ str) =
    let rest = c_text str in if c == 0 then some [] else Option.map (λ text. c ∷ text) rest

-- A pointer argument is NULL or a string.
pub data Arg : Type 0 where
  word : ℕ → Arg
  null : Arg
  string : List ℕ → Arg

unfoldable pub putchar : Screen → ℕ → ℕ × Screen
putchar s c = (c, vga_putchar s (c % 2 ^ 8))

-- `vga_print(str)` and `strlen(str)`
unfoldable pub print_string : Screen → List ℕ → Option (ℕ × Screen)
print_string s str = do text ← c_text str; len ← strlen str; some (len, vga_print s text)

unfoldable pub puts : Screen → List ℕ → Option (ℕ × Screen)
puts s str = do text ← c_text str; some (0, vga_putchar (vga_print s text) 10)

-- The value of a word as an `int`.
abbrev pub to_int : ℕ → ℤ
to_int v = if ltb v (2 ^ 31) then pos v else negsuc (2 ^ 32 - 1 - v)

abbrev pub null_string : List ℕ
null_string = b'(' ∷ b'n' ∷ b'u' ∷ b'l' ∷ b'l' ∷ b')' ∷ 0 ∷ []

-- What a case of the `switch` leaves: what it adds to `chars_written`, the screen, and the other
-- arguments.
abbrev pub Converted : Type 0
Converted = ℕ × Screen × List Arg

abbrev pub take_string : Screen → List Arg → Option Converted
take_string s [] = none
take_string s (word v ∷ args) = none
take_string s (null ∷ args) = Option.map (λ out. (out.0, out.1, args)) (print_string s null_string)
take_string s (string str ∷ args) = Option.map (λ out. (out.0, out.1, args)) (print_string s str)

abbrev pub take_word : (ℕ → Option (ℕ × Screen)) → List Arg → Option Converted
take_word print [] = none
take_word print (word v ∷ args) = Option.map (λ out. (out.0, out.1, args)) (print (v % 2 ^ 32))
take_word print (null ∷ args) = none
take_word print (string str ∷ args) = none

unfoldable pub print_char : Screen → ℕ → Option (ℕ × Screen)
print_char s v = some (1, vga_putchar s (v % 2 ^ 8))

-- The cases of `%d`, `%u` and `%x`; `buf` is what stands in the uninitialized array.
unfoldable pub print_int : List ℕ → Screen → ℕ → Option (ℕ × Screen)
print_int buf s v = do str ← itoa (to_int v) buf (pos 10); print_string s str

unfoldable pub print_unsigned : List ℕ → Screen → ℕ → Option (ℕ × Screen)
print_unsigned buf s v = do str ← uitoa v buf 10; print_string s str

unfoldable pub print_hex : List ℕ → Screen → ℕ → Option (ℕ × Screen)
print_hex buf s v = do
  str ← uitoa v buf 16
  out ← print_string (vga_print s (b'0' ∷ b'x' ∷ [])) str
  some (2 + out.0, out.1)

-- The `switch` of `printf`.
unfoldable pub convert : List ℕ → ℕ → List Arg → Screen → Option Converted
convert buf c args s =
    if c == b's'
    then take_string s args
    else if c == b'c'
    then take_word (print_char s) args
    else if c == b'd' || c == b'i'
    then take_word (print_int buf s) args
    else if c == b'u'
    then take_word (print_unsigned buf s) args
    else if c == b'x' || c == b'X'
    then take_word (print_hex buf s) args
    else if c == b'%'
    then some (1, vga_putchar s b'%', args)
    else some (2, vga_putchar (vga_putchar s b'%') c, args)

-- The loop of `printf` from `format[i]` on, with `chars_written` so far.
unfoldable pub printf_loop : List ℕ → List ℕ → List Arg → ℕ → Screen → Option (ℕ × Screen)
printf_loop buf [] args written s = none
printf_loop buf (c ∷ []) args written s = if c == 0 then some (written, s) else none
printf_loop buf (c ∷ d ∷ format) args written s =
    let conversion : Option (ℕ × Screen) = (do
      out ← convert buf d args s
      printf_loop buf format out.2 (written + out.0) out.1) in
    let plain = printf_loop buf (d ∷ format) args (written + 1) (vga_putchar s c) in
    if c == 0 then some (written, s) else if c == b'%' then conversion else plain

unfoldable pub printf : List ℕ → List ℕ → List Arg → Screen → Option (ℕ × Screen)
printf buf format args s = printf_loop buf format args 0 s
