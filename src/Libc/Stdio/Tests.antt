-- ===== src/Libc/Stdio/Tests.antt =====
-- `printf` of libc/stdio.c on a concrete format.
use black_hole_os.Prelude.{ℕ, ◌≡◌, refl, List, [], ◌∷◌, length, replicate, some, none}
use black_hole_os.Libc.Stdio.{Arg, word, string, c_text, printf}
use black_hole_os.Libc.Stdio.Promises.{promise}
use black_hole_os.Libc.Stdio.Printf.{render, printf-render}
use black_hole_os.Libc.Strings.{digit}
use black_hole_os.Libc.Strings.Digits.{digits}
use black_hole_os.Libc.Strings.Numerals.{numeral}
use black_hole_os.Drivers.Vga.{Screen, vga_print}

abbrev screen : Screen
screen = record { vga_buffer = λ q. 0; cursor_row = 0; cursor_col = 0; current_color = 10 }

-- "%s=%d %x%%!"
abbrev format : List ℕ
format = b'%' ∷ b's' ∷ b'=' ∷ b'%' ∷ b'd' ∷ b' ' ∷ b'%' ∷ b'x' ∷ b'%' ∷ b'%' ∷ b'!' ∷ 0 ∷ []

abbrev args : List Arg
args = string (b'k' ∷ 0 ∷ 7 ∷ []) ∷ word 4294967254 ∷ word 255 ∷ []

-- "k=-42 0xff%!"
abbrev text : List ℕ
text = b'k' ∷ b'=' ∷ b'-' ∷ b'4' ∷ b'2' ∷ b' ' ∷ b'0' ∷ b'x' ∷ b'f' ∷ b'f' ∷ b'%' ∷ b'!' ∷ []

rendered : render format args ≡ some text
unfolding render promise c_text numeral digits digit
rendered = refl

no_promise : render (b'%' ∷ 0 ∷ []) [] ≡ none
unfolding render promise
no_promise = refl

printf-render_example :
    printf (replicate 32 7) format args screen ≡ some (length text, vga_print screen text)
printf-render_example = printf-render (replicate 32 7) refl format args screen text rendered
