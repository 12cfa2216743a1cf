-- ===== src/Shell/Texts.antt =====
-- The strings of shell/shell.c.
use black_hole_os.Prelude.{ℕ, List, [], ◌∷◌}

abbrev pub help_word : List ℕ
help_word = b'h' ∷ b'e' ∷ b'l' ∷ b'p' ∷ 0 ∷ []

abbrev pub clear_word : List ℕ
clear_word = b'c' ∷ b'l' ∷ b'e' ∷ b'a' ∷ b'r' ∷ 0 ∷ []

abbrev pub echo_word : List ℕ
echo_word = b'e' ∷ b'c' ∷ b'h' ∷ b'o' ∷ b' ' ∷ 0 ∷ []

abbrev pub alloc_word : List ℕ
alloc_word = b'a' ∷ b'l' ∷ b'l' ∷ b'o' ∷ b'c' ∷ 0 ∷ []

abbrev pub uptime_word : List ℕ
uptime_word = b'u' ∷ b'p' ∷ b't' ∷ b'i' ∷ b'm' ∷ b'e' ∷ 0 ∷ []

abbrev pub sleep_word : List ℕ
sleep_word = b's' ∷ b'l' ∷ b'e' ∷ b'e' ∷ b'p' ∷ 0 ∷ []

abbrev pub pagefault_word : List ℕ
pagefault_word = b'p' ∷ b'a' ∷ b'g' ∷ b'e' ∷ b'f' ∷ b'a' ∷ b'u' ∷ b'l' ∷ b't' ∷ 0 ∷ []

abbrev pub diskwrite_word : List ℕ
diskwrite_word = b'd' ∷ b'i' ∷ b's' ∷ b'k' ∷ b'w' ∷ b'r' ∷ b'i' ∷ b't' ∷ b'e' ∷ 0 ∷ []

abbrev pub diskread_word : List ℕ
diskread_word = b'd' ∷ b'i' ∷ b's' ∷ b'k' ∷ b'r' ∷ b'e' ∷ b'a' ∷ b'd' ∷ 0 ∷ []

abbrev pub ls_word : List ℕ
ls_word = b'l' ∷ b's' ∷ 0 ∷ []

abbrev pub cat_word : List ℕ
cat_word = b'c' ∷ b'a' ∷ b't' ∷ b' ' ∷ 0 ∷ []

abbrev pub write_word : List ℕ
write_word = b'w' ∷ b'r' ∷ b'i' ∷ b't' ∷ b'e' ∷ b' ' ∷ 0 ∷ []

abbrev pub rm_word : List ℕ
rm_word = b'r' ∷ b'm' ∷ b' ' ∷ 0 ∷ []

-- The lines that `help` prints, the first in another colour.
abbrev pub help_title : List ℕ
help_title =
    b'A' ∷ b'v' ∷ b'a' ∷ b'i' ∷ b'l' ∷ b'a' ∷ b'b' ∷ b'l' ∷ b'e' ∷ b' ' ∷ b'c' ∷ b'o' ∷ b'm' ∷ b'm'
    ∷ b'a' ∷ b'n' ∷ b'd' ∷ b's' ∷ b':' ∷ 10 ∷ 0 ∷ []

abbrev pub help_lines : List (List ℕ)
help_lines =
    (b' ' ∷ b' ' ∷ b'h' ∷ b'e' ∷ b'l' ∷ b'p' ∷ b' ' ∷ b' ' ∷ b' ' ∷ b' ' ∷ b' ' ∷ b' ' ∷ b' ' ∷ b' '
      ∷ b'-' ∷ b' ' ∷ b'S' ∷ b'h' ∷ b'o' ∷ b'w' ∷ b' ' ∷ b't' ∷ b'h' ∷ b'i' ∷ b's' ∷ b' ' ∷ b'h'
      ∷ b'e' ∷ b'l' ∷ b'p' ∷ b' ' ∷ b'm' ∷ b'e' ∷ b's' ∷ b's' ∷ b'a' ∷ b'g' ∷ b'e' ∷ 10 ∷ 0 ∷ [])
    ∷ (b' ' ∷ b' ' ∷ b'e' ∷ b'c' ∷ b'h' ∷ b'o' ∷ b' ' ∷ b'<' ∷ b't' ∷ b'e' ∷ b'x' ∷ b't' ∷ b'>'
        ∷ b' ' ∷ b'-' ∷ b' ' ∷ b'P' ∷ b'r' ∷ b'i' ∷ b'n' ∷ b't' ∷ b' ' ∷ b't' ∷ b'e' ∷ b'x' ∷ b't'
        ∷ b' ' ∷ b'b' ∷ b'a' ∷ b'c' ∷ b'k' ∷ b' ' ∷ b't' ∷ b'o' ∷ b' ' ∷ b't' ∷ b'h' ∷ b'e' ∷ b' '
        ∷ b's' ∷ b'c' ∷ b'r' ∷ b'e' ∷ b'e' ∷ b'n' ∷ 10 ∷ 0 ∷ [])
    ∷ (b' ' ∷ b' ' ∷ b'c' ∷ b'l' ∷ b'e' ∷ b'a' ∷ b'r' ∷ b' ' ∷ b' ' ∷ b' ' ∷ b' ' ∷ b' ' ∷ b' '
        ∷ b' ' ∷ b'-' ∷ b' ' ∷ b'C' ∷ b'l' ∷ b'e' ∷ b'a' ∷ b'r' ∷ b' ' ∷ b't' ∷ b'h' ∷ b'e' ∷ b' '
        ∷ b's' ∷ b'c' ∷ b'r' ∷ b'e' ∷ b'e' ∷ b'n' ∷ 10 ∷ 0 ∷ [])
    ∷ (b' ' ∷ b' ' ∷ b'a' ∷ b'l' ∷ b'l' ∷ b'o' ∷ b'c' ∷ b' ' ∷ b' ' ∷ b' ' ∷ b' ' ∷ b' ' ∷ b' '
        ∷ b' ' ∷ b'-' ∷ b' ' ∷ b'T' ∷ b'e' ∷ b's' ∷ b't' ∷ b' ' ∷ b'm' ∷ b'e' ∷ b'm' ∷ b'o' ∷ b'r'
        ∷ b'y' ∷ b' ' ∷ b'a' ∷ b'l' ∷ b'l' ∷ b'o' ∷ b'c' ∷ b'a' ∷ b't' ∷ b'o' ∷ b'r' ∷ 10 ∷ 0 ∷ [])
    ∷ (b' ' ∷ b' ' ∷ b'u' ∷ b'p' ∷ b't' ∷ b'i' ∷ b'm' ∷ b'e' ∷ b' ' ∷ b' ' ∷ b' ' ∷ b' ' ∷ b' '
        ∷ b' ' ∷ b'-' ∷ b' ' ∷ b'S' ∷ b'h' ∷ b'o' ∷ b'w' ∷ b' ' ∷ b's' ∷ b'y' ∷ b's' ∷ b't' ∷ b'e'
        ∷ b'm' ∷ b' ' ∷ b'u' ∷ b'p' ∷ b't' ∷ b'i' ∷ b'm' ∷ b'e' ∷ b' ' ∷ b'i' ∷ b'n' ∷ b' ' ∷ b'c'
        ∷ b'e' ∷ b'n' ∷ b't' ∷ b'i' ∷ b's' ∷ b'e' ∷ b'c' ∷ b'o' ∷ b'n' ∷ b'd' ∷ b's' ∷ 10 ∷ 0 ∷ [])
    ∷ (b' ' ∷ b' ' ∷ b's' ∷ b'l' ∷ b'e' ∷ b'e' ∷ b'p' ∷ b' ' ∷ b' ' ∷ b' ' ∷ b' ' ∷ b' ' ∷ b' '
        ∷ b' ' ∷ b'-' ∷ b' ' ∷ b'S' ∷ b'l' ∷ b'e' ∷ b'e' ∷ b'p' ∷ b' ' ∷ b'f' ∷ b'o' ∷ b'r' ∷ b' '
        ∷ b'1' ∷ b' ' ∷ b's' ∷ b'e' ∷ b'c' ∷ b'o' ∷ b'n' ∷ b'd' ∷ 10 ∷ 0 ∷ [])
    ∷ (b' ' ∷ b' ' ∷ b'p' ∷ b'a' ∷ b'g' ∷ b'e' ∷ b'f' ∷ b'a' ∷ b'u' ∷ b'l' ∷ b't' ∷ b' ' ∷ b' '
        ∷ b' ' ∷ b'-' ∷ b' ' ∷ b'T' ∷ b'r' ∷ b'i' ∷ b'g' ∷ b'g' ∷ b'e' ∷ b'r' ∷ b' ' ∷ b'a' ∷ b' '
        ∷ b'd' ∷ b'e' ∷ b'l' ∷ b'i' ∷ b'b' ∷ b'e' ∷ b'r' ∷ b'a' ∷ b't' ∷ b'e' ∷ b' ' ∷ b'P' ∷ b'a'
        ∷ b'g' ∷ b'e' ∷ b' ' ∷ b'F' ∷ b'a' ∷ b'u' ∷ b'l' ∷ b't' ∷ b' ' ∷ b'(' ∷ b'S' ∷ b'e' ∷ b'c'
        ∷ b'u' ∷ b'r' ∷ b'i' ∷ b't' ∷ b'y' ∷ b' ' ∷ b'T' ∷ b'e' ∷ b's' ∷ b't' ∷ b')' ∷ 10 ∷ 0 ∷ [])
    ∷ (b' ' ∷ b' ' ∷ b'd' ∷ b'i' ∷ b's' ∷ b'k' ∷ b'r' ∷ b'e' ∷ b'a' ∷ b'd' ∷ b' ' ∷ b' ' ∷ b' '
        ∷ b' ' ∷ b'-' ∷ b' ' ∷ b'R' ∷ b'e' ∷ b'a' ∷ b'd' ∷ b' ' ∷ b's' ∷ b'e' ∷ b'c' ∷ b't' ∷ b'o'
        ∷ b'r' ∷ b' ' ∷ b'1' ∷ b'0' ∷ b' ' ∷ b'f' ∷ b'r' ∷ b'o' ∷ b'm' ∷ b' ' ∷ b'H' ∷ b'D' ∷ b'D'
        ∷ 10 ∷ 0 ∷ [])
    ∷ (b' ' ∷ b' ' ∷ b'd' ∷ b'i' ∷ b's' ∷ b'k' ∷ b'w' ∷ b'r' ∷ b'i' ∷ b't' ∷ b'e' ∷ b' ' ∷ b' '
        ∷ b' ' ∷ b'-' ∷ b' ' ∷ b'W' ∷ b'r' ∷ b'i' ∷ b't' ∷ b'e' ∷ b' ' ∷ 39 ∷ b'H' ∷ b'e' ∷ b'l'
        ∷ b'l' ∷ b'o' ∷ b' ' ∷ b'D' ∷ b'i' ∷ b's' ∷ b'k' ∷ b'!' ∷ 39 ∷ b' ' ∷ b't' ∷ b'o' ∷ b' '
        ∷ b's' ∷ b'e' ∷ b'c' ∷ b't' ∷ b'o' ∷ b'r' ∷ b' ' ∷ b'1' ∷ b'0' ∷ b' ' ∷ b'o' ∷ b'f' ∷ b' '
        ∷ b'H' ∷ b'D' ∷ b'D' ∷ 10 ∷ 0 ∷ [])
    ∷ (b' ' ∷ b' ' ∷ b'l' ∷ b's' ∷ b' ' ∷ b' ' ∷ b' ' ∷ b' ' ∷ b' ' ∷ b' ' ∷ b' ' ∷ b' ' ∷ b' '
        ∷ b' ' ∷ b'-' ∷ b' ' ∷ b'L' ∷ b'i' ∷ b's' ∷ b't' ∷ b' ' ∷ b'f' ∷ b'i' ∷ b'l' ∷ b'e' ∷ b's'
        ∷ b' ' ∷ b'i' ∷ b'n' ∷ b' ' ∷ b'r' ∷ b'o' ∷ b'o' ∷ b't' ∷ b' ' ∷ b'd' ∷ b'i' ∷ b'r' ∷ b'e'
        ∷ b'c' ∷ b't' ∷ b'o' ∷ b'r' ∷ b'y' ∷ 10 ∷ 0 ∷ [])
    ∷ (b' ' ∷ b' ' ∷ b'c' ∷ b'a' ∷ b't' ∷ b' ' ∷ b'<' ∷ b'f' ∷ b'i' ∷ b'l' ∷ b'e' ∷ b'>' ∷ b' '
        ∷ b' ' ∷ b'-' ∷ b' ' ∷ b'R' ∷ b'e' ∷ b'a' ∷ b'd' ∷ b' ' ∷ b'a' ∷ b'n' ∷ b'd' ∷ b' ' ∷ b'd'
        ∷ b'i' ∷ b's' ∷ b'p' ∷ b'l' ∷ b'a' ∷ b'y' ∷ b' ' ∷ b'f' ∷ b'i' ∷ b'l' ∷ b'e' ∷ b' ' ∷ b'c'
        ∷ b'o' ∷ b'n' ∷ b't' ∷ b'e' ∷ b'n' ∷ b't' ∷ b's' ∷ 10 ∷ 0 ∷ [])
    ∷ (b' ' ∷ b' ' ∷ b'w' ∷ b'r' ∷ b'i' ∷ b't' ∷ b'e' ∷ b' ' ∷ b'<' ∷ b'f' ∷ b'>' ∷ b' ' ∷ b'<'
        ∷ b't' ∷ b'e' ∷ b'x' ∷ b't' ∷ b'>' ∷ b' ' ∷ b'-' ∷ b' ' ∷ b'C' ∷ b'r' ∷ b'e' ∷ b'a' ∷ b't'
        ∷ b'e' ∷ b'/' ∷ b'o' ∷ b'v' ∷ b'e' ∷ b'r' ∷ b'w' ∷ b'r' ∷ b'i' ∷ b't' ∷ b'e' ∷ b' ' ∷ b'a'
        ∷ b' ' ∷ b'f' ∷ b'i' ∷ b'l' ∷ b'e' ∷ 10 ∷ 0 ∷ [])
    ∷ (b' ' ∷ b' ' ∷ b'r' ∷ b'm' ∷ b' ' ∷ b'<' ∷ b'f' ∷ b'i' ∷ b'l' ∷ b'e' ∷ b'>' ∷ b' ' ∷ b' '
        ∷ b' ' ∷ b'-' ∷ b' ' ∷ b'D' ∷ b'e' ∷ b'l' ∷ b'e' ∷ b't' ∷ b'e' ∷ b' ' ∷ b'a' ∷ b' ' ∷ b'f'
        ∷ b'i' ∷ b'l' ∷ b'e' ∷ 10 ∷ 0 ∷ [])
    ∷ []

abbrev pub line_text : List ℕ
line_text = b'%' ∷ b's' ∷ 10 ∷ 0 ∷ []

abbrev pub allocating_text : List ℕ
allocating_text =
    b'A' ∷ b'l' ∷ b'l' ∷ b'o' ∷ b'c' ∷ b'a' ∷ b't' ∷ b'i' ∷ b'n' ∷ b'g' ∷ b' ' ∷ b'6' ∷ b'4' ∷ b' '
    ∷ b'b' ∷ b'y' ∷ b't' ∷ b'e' ∷ b's' ∷ b'.' ∷ b'.' ∷ b'.' ∷ b' ' ∷ 0 ∷ []

abbrev pub success_text : List ℕ
success_text = b'S' ∷ b'U' ∷ b'C' ∷ b'C' ∷ b'E' ∷ b'S' ∷ b'S' ∷ 10 ∷ 0 ∷ []

abbrev pub freed_text : List ℕ
freed_text =
    b'M' ∷ b'e' ∷ b'm' ∷ b'o' ∷ b'r' ∷ b'y' ∷ b' ' ∷ b'b' ∷ b'l' ∷ b'o' ∷ b'c' ∷ b'k' ∷ b' ' ∷ b'f'
    ∷ b'r' ∷ b'e' ∷ b'e' ∷ b'd' ∷ b'.' ∷ 10 ∷ 0 ∷ []

abbrev pub failed_text : List ℕ
failed_text = b'F' ∷ b'A' ∷ b'I' ∷ b'L' ∷ b'E' ∷ b'D' ∷ 10 ∷ 0 ∷ []

abbrev pub uptime_text : List ℕ
uptime_text =
    b'S' ∷ b'y' ∷ b's' ∷ b't' ∷ b'e' ∷ b'm' ∷ b' ' ∷ b'u' ∷ b'p' ∷ b't' ∷ b'i' ∷ b'm' ∷ b'e' ∷ b':'
    ∷ b' ' ∷ b'%' ∷ b'u' ∷ b' ' ∷ b't' ∷ b'i' ∷ b'c' ∷ b'k' ∷ b's' ∷ b' ' ∷ b'(' ∷ b'e' ∷ b'a'
    ∷ b'c' ∷ b'h' ∷ b' ' ∷ b't' ∷ b'i' ∷ b'c' ∷ b'k' ∷ b' ' ∷ b'=' ∷ b' ' ∷ b'1' ∷ b'0' ∷ b'm'
    ∷ b's' ∷ b')' ∷ 10 ∷ 0 ∷ []

abbrev pub sleeping_text : List ℕ
sleeping_text =
    b'S' ∷ b'l' ∷ b'e' ∷ b'e' ∷ b'p' ∷ b'i' ∷ b'n' ∷ b'g' ∷ b' ' ∷ b'f' ∷ b'o' ∷ b'r' ∷ b' ' ∷ b'1'
    ∷ b'0' ∷ b'0' ∷ b'0' ∷ b'm' ∷ b's' ∷ b'.' ∷ b'.' ∷ b'.' ∷ b' ' ∷ 0 ∷ []

abbrev pub done_text : List ℕ
done_text = b'D' ∷ b'o' ∷ b'n' ∷ b'e' ∷ b'!' ∷ 10 ∷ 0 ∷ []

abbrev pub pagefault_text : List ℕ
pagefault_text =
    b'T' ∷ b'r' ∷ b'i' ∷ b'g' ∷ b'g' ∷ b'e' ∷ b'r' ∷ b'i' ∷ b'n' ∷ b'g' ∷ b' ' ∷ b'P' ∷ b'a' ∷ b'g'
    ∷ b'e' ∷ b' ' ∷ b'F' ∷ b'a' ∷ b'u' ∷ b'l' ∷ b't' ∷ b' ' ∷ b'a' ∷ b't' ∷ b' ' ∷ b'0' ∷ b'x'
    ∷ b'F' ∷ b'F' ∷ b'F' ∷ b'F' ∷ b'F' ∷ b'0' ∷ b'0' ∷ b'0' ∷ b'.' ∷ b'.' ∷ b'.' ∷ 10 ∷ 0 ∷ []

abbrev pub hello_text : List ℕ
hello_text =
    b'H' ∷ b'e' ∷ b'l' ∷ b'l' ∷ b'o' ∷ b' ' ∷ b'D' ∷ b'i' ∷ b's' ∷ b'k' ∷ b'!' ∷ b' ' ∷ b'B' ∷ b'l'
    ∷ b'a' ∷ b'c' ∷ b'k' ∷ b'H' ∷ b'o' ∷ b'l' ∷ b'e' ∷ b' ' ∷ b'O' ∷ b'S' ∷ b' ' ∷ b'w' ∷ b'a'
    ∷ b's' ∷ b' ' ∷ b'h' ∷ b'e' ∷ b'r' ∷ b'e' ∷ b'.' ∷ 0 ∷ []

abbrev pub writing_text : List ℕ
writing_text =
    b'W' ∷ b'r' ∷ b'i' ∷ b't' ∷ b'i' ∷ b'n' ∷ b'g' ∷ b' ' ∷ b't' ∷ b'o' ∷ b' ' ∷ b'L' ∷ b'B' ∷ b'A'
    ∷ b' ' ∷ b'1' ∷ b'0' ∷ b'.' ∷ b'.' ∷ b'.' ∷ 10 ∷ 0 ∷ []

abbrev pub complete_text : List ℕ
complete_text =
    b'W' ∷ b'r' ∷ b'i' ∷ b't' ∷ b'e' ∷ b' ' ∷ b'c' ∷ b'o' ∷ b'm' ∷ b'p' ∷ b'l' ∷ b'e' ∷ b't' ∷ b'e'
    ∷ b'.' ∷ 10 ∷ 0 ∷ []

abbrev pub reading_text : List ℕ
reading_text =
    b'R' ∷ b'e' ∷ b'a' ∷ b'd' ∷ b'i' ∷ b'n' ∷ b'g' ∷ b' ' ∷ b'f' ∷ b'r' ∷ b'o' ∷ b'm' ∷ b' ' ∷ b'L'
    ∷ b'B' ∷ b'A' ∷ b' ' ∷ b'1' ∷ b'0' ∷ b'.' ∷ b'.' ∷ b'.' ∷ 10 ∷ 0 ∷ []

abbrev pub data_text : List ℕ
data_text = b'D' ∷ b'a' ∷ b't' ∷ b'a' ∷ b':' ∷ b' ' ∷ b'%' ∷ b's' ∷ 10 ∷ 0 ∷ []

abbrev pub unknown_command_text : List ℕ
unknown_command_text =
    b'U' ∷ b'n' ∷ b'k' ∷ b'n' ∷ b'o' ∷ b'w' ∷ b'n' ∷ b' ' ∷ b'c' ∷ b'o' ∷ b'm' ∷ b'm' ∷ b'a' ∷ b'n'
    ∷ b'd' ∷ b':' ∷ b' ' ∷ b'%' ∷ b's' ∷ 10 ∷ 0 ∷ []

abbrev pub root_text : List ℕ
root_text =
    b'R' ∷ b'o' ∷ b'o' ∷ b't' ∷ b' ' ∷ b'd' ∷ b'i' ∷ b'r' ∷ b'e' ∷ b'c' ∷ b't' ∷ b'o' ∷ b'r' ∷ b'y'
    ∷ b':' ∷ 10 ∷ 0 ∷ []

abbrev pub not_found_text : List ℕ
not_found_text =
    b'F' ∷ b'i' ∷ b'l' ∷ b'e' ∷ b' ' ∷ b'n' ∷ b'o' ∷ b't' ∷ b' ' ∷ b'f' ∷ b'o' ∷ b'u' ∷ b'n' ∷ b'd'
    ∷ b':' ∷ b' ' ∷ b'%' ∷ b's' ∷ 10 ∷ 0 ∷ []

abbrev pub wrote_text : List ℕ
wrote_text =
    b'W' ∷ b'r' ∷ b'o' ∷ b't' ∷ b'e' ∷ b' ' ∷ b'%' ∷ b'u' ∷ b' ' ∷ b'b' ∷ b'y' ∷ b't' ∷ b'e' ∷ b's'
    ∷ b' ' ∷ b't' ∷ b'o' ∷ b' ' ∷ 39 ∷ b'%' ∷ b's' ∷ 39 ∷ b'.' ∷ 10 ∷ 0 ∷ []

abbrev pub deleted_text : List ℕ
deleted_text =
    b'D' ∷ b'e' ∷ b'l' ∷ b'e' ∷ b't' ∷ b'e' ∷ b'd' ∷ b' ' ∷ 39 ∷ b'%' ∷ b's' ∷ 39 ∷ b'.' ∷ 10 ∷ 0
    ∷ []

abbrev pub rule_text : List ℕ
rule_text =
    10 ∷ b'=' ∷ b'=' ∷ b'=' ∷ b'=' ∷ b'=' ∷ b'=' ∷ b'=' ∷ b'=' ∷ b'=' ∷ b'=' ∷ b'=' ∷ b'=' ∷ b'='
    ∷ b'=' ∷ b'=' ∷ b'=' ∷ b'=' ∷ b'=' ∷ b'=' ∷ b'=' ∷ b'=' ∷ b'=' ∷ b'=' ∷ b'=' ∷ b'=' ∷ b'='
    ∷ b'=' ∷ b'=' ∷ b'=' ∷ b'=' ∷ b'=' ∷ b'=' ∷ b'=' ∷ b'=' ∷ b'=' ∷ b'=' ∷ b'=' ∷ b'=' ∷ b'='
    ∷ b'=' ∷ 10 ∷ 0 ∷ []

abbrev pub welcome_text : List ℕ
welcome_text =
    b' ' ∷ b' ' ∷ b' ' ∷ b'W' ∷ b'e' ∷ b'l' ∷ b'c' ∷ b'o' ∷ b'm' ∷ b'e' ∷ b' ' ∷ b't' ∷ b'o' ∷ b' '
    ∷ b'B' ∷ b'l' ∷ b'a' ∷ b'c' ∷ b'k' ∷ b'H' ∷ b'o' ∷ b'l' ∷ b'e' ∷ b' ' ∷ b'O' ∷ b'S' ∷ b' '
    ∷ b'S' ∷ b'h' ∷ b'e' ∷ b'l' ∷ b'l' ∷ b' ' ∷ b'v' ∷ b'0' ∷ b'.' ∷ b'1' ∷ b' ' ∷ b' ' ∷ b' ' ∷ 10
    ∷ 0 ∷ []

abbrev pub rule_end_text : List ℕ
rule_end_text =
    b'=' ∷ b'=' ∷ b'=' ∷ b'=' ∷ b'=' ∷ b'=' ∷ b'=' ∷ b'=' ∷ b'=' ∷ b'=' ∷ b'=' ∷ b'=' ∷ b'=' ∷ b'='
    ∷ b'=' ∷ b'=' ∷ b'=' ∷ b'=' ∷ b'=' ∷ b'=' ∷ b'=' ∷ b'=' ∷ b'=' ∷ b'=' ∷ b'=' ∷ b'=' ∷ b'='
    ∷ b'=' ∷ b'=' ∷ b'=' ∷ b'=' ∷ b'=' ∷ b'=' ∷ b'=' ∷ b'=' ∷ b'=' ∷ b'=' ∷ b'=' ∷ b'=' ∷ b'=' ∷ 10
    ∷ 10 ∷ 0 ∷ []

abbrev pub type_help_text : List ℕ
type_help_text =
    b'T' ∷ b'y' ∷ b'p' ∷ b'e' ∷ b' ' ∷ 39 ∷ b'h' ∷ b'e' ∷ b'l' ∷ b'p' ∷ 39 ∷ b' ' ∷ b'f' ∷ b'o'
    ∷ b'r' ∷ b' ' ∷ b'a' ∷ b' ' ∷ b'l' ∷ b'i' ∷ b's' ∷ b't' ∷ b' ' ∷ b'o' ∷ b'f' ∷ b' ' ∷ b'c'
    ∷ b'o' ∷ b'm' ∷ b'm' ∷ b'a' ∷ b'n' ∷ b'd' ∷ b's' ∷ b'.' ∷ 10 ∷ 10 ∷ 0 ∷ []

abbrev pub prompt_text : List ℕ
prompt_text = b'B' ∷ b'H' ∷ b'-' ∷ b'O' ∷ b'S' ∷ b'>' ∷ b' ' ∷ 0 ∷ []
