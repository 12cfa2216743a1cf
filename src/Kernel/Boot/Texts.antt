-- ===== src/Kernel/Boot/Texts.antt =====
-- The texts that `kernel_main` of kernel/kernel.c prints.
use black_hole_os.Prelude.{ℕ, List, [], ◌∷◌}

abbrev pub title_text : List ℕ
title_text =
    b'B' ∷ b'l' ∷ b'a' ∷ b'c' ∷ b'k' ∷ b'H' ∷ b'o' ∷ b'l' ∷ b'e' ∷ b' ' ∷ b'O' ∷ b'S' ∷ b' ' ∷ b'v'
    ∷ b'0' ∷ b'.' ∷ b'0' ∷ b'.' ∷ b'3' ∷ 10 ∷ 0 ∷ []

abbrev pub loaded_text : List ℕ
loaded_text =
    b'K' ∷ b'e' ∷ b'r' ∷ b'n' ∷ b'e' ∷ b'l' ∷ b' ' ∷ b'l' ∷ b'o' ∷ b'a' ∷ b'd' ∷ b'e' ∷ b'd' ∷ b' '
    ∷ b's' ∷ b'u' ∷ b'c' ∷ b'c' ∷ b'e' ∷ b's' ∷ b's' ∷ b'f' ∷ b'u' ∷ b'l' ∷ b'l' ∷ b'y' ∷ b'.' ∷ 10
    ∷ 0 ∷ []

abbrev pub gdt_text : List ℕ
gdt_text =
    b'I' ∷ b'n' ∷ b'i' ∷ b't' ∷ b'i' ∷ b'a' ∷ b'l' ∷ b'i' ∷ b'z' ∷ b'i' ∷ b'n' ∷ b'g' ∷ b' ' ∷ b'G'
    ∷ b'l' ∷ b'o' ∷ b'b' ∷ b'a' ∷ b'l' ∷ b' ' ∷ b'D' ∷ b'e' ∷ b's' ∷ b'c' ∷ b'r' ∷ b'i' ∷ b'p'
    ∷ b't' ∷ b'o' ∷ b'r' ∷ b' ' ∷ b'T' ∷ b'a' ∷ b'b' ∷ b'l' ∷ b'e' ∷ b' ' ∷ b'(' ∷ b'G' ∷ b'D'
    ∷ b'T' ∷ b')' ∷ b'.' ∷ b'.' ∷ b'.' ∷ 10 ∷ 0 ∷ []

abbrev pub paging_text : List ℕ
paging_text =
    b'I' ∷ b'n' ∷ b'i' ∷ b't' ∷ b'i' ∷ b'a' ∷ b'l' ∷ b'i' ∷ b'z' ∷ b'i' ∷ b'n' ∷ b'g' ∷ b' ' ∷ b'V'
    ∷ b'i' ∷ b'r' ∷ b't' ∷ b'u' ∷ b'a' ∷ b'l' ∷ b' ' ∷ b'M' ∷ b'e' ∷ b'm' ∷ b'o' ∷ b'r' ∷ b'y'
    ∷ b' ' ∷ b'(' ∷ b'P' ∷ b'a' ∷ b'g' ∷ b'i' ∷ b'n' ∷ b'g' ∷ b')' ∷ b'.' ∷ b'.' ∷ b'.' ∷ 10 ∷ 0
    ∷ []

abbrev pub idt_text : List ℕ
idt_text =
    b'I' ∷ b'n' ∷ b'i' ∷ b't' ∷ b'i' ∷ b'a' ∷ b'l' ∷ b'i' ∷ b'z' ∷ b'i' ∷ b'n' ∷ b'g' ∷ b' ' ∷ b'I'
    ∷ b'D' ∷ b'T' ∷ b' ' ∷ b'&' ∷ b' ' ∷ b'P' ∷ b'I' ∷ b'C' ∷ b'.' ∷ b'.' ∷ b'.' ∷ 10 ∷ 0 ∷ []

abbrev pub timer_text : List ℕ
timer_text =
    b'I' ∷ b'n' ∷ b'i' ∷ b't' ∷ b'i' ∷ b'a' ∷ b'l' ∷ b'i' ∷ b'z' ∷ b'i' ∷ b'n' ∷ b'g' ∷ b' ' ∷ b'T'
    ∷ b'i' ∷ b'm' ∷ b'e' ∷ b'r' ∷ b'.' ∷ b'.' ∷ b'.' ∷ 10 ∷ 0 ∷ []

abbrev pub filesystem_text : List ℕ
filesystem_text =
    b'I' ∷ b'n' ∷ b'i' ∷ b't' ∷ b'i' ∷ b'a' ∷ b'l' ∷ b'i' ∷ b'z' ∷ b'i' ∷ b'n' ∷ b'g' ∷ b' ' ∷ b'F'
    ∷ b'A' ∷ b'T' ∷ b'1' ∷ b'6' ∷ b' ' ∷ b'F' ∷ b'i' ∷ b'l' ∷ b'e' ∷ b's' ∷ b'y' ∷ b's' ∷ b't'
    ∷ b'e' ∷ b'm' ∷ b'.' ∷ b'.' ∷ b'.' ∷ 10 ∷ 0 ∷ []

abbrev pub idt_ready_text : List ℕ
idt_ready_text =
    b'>' ∷ b' ' ∷ b'I' ∷ b'D' ∷ b'T' ∷ b' ' ∷ b'i' ∷ b'n' ∷ b'i' ∷ b't' ∷ b'i' ∷ b'a' ∷ b'l' ∷ b'i'
    ∷ b'z' ∷ b'e' ∷ b'd' ∷ b'.' ∷ 10 ∷ 0 ∷ []

abbrev pub timer_ready_text : List ℕ
timer_ready_text =
    b'>' ∷ b' ' ∷ b'T' ∷ b'i' ∷ b'm' ∷ b'e' ∷ b'r' ∷ b' ' ∷ b'r' ∷ b'u' ∷ b'n' ∷ b'n' ∷ b'i' ∷ b'n'
    ∷ b'g' ∷ b' ' ∷ b'a' ∷ b't' ∷ b' ' ∷ b'1' ∷ b'0' ∷ b'0' ∷ b'H' ∷ b'z' ∷ b'.' ∷ 10 ∷ 0 ∷ []

abbrev pub keyboard_ready_text : List ℕ
keyboard_ready_text =
    b'>' ∷ b' ' ∷ b'K' ∷ b'e' ∷ b'y' ∷ b'b' ∷ b'o' ∷ b'a' ∷ b'r' ∷ b'd' ∷ b' ' ∷ b'd' ∷ b'r' ∷ b'i'
    ∷ b'v' ∷ b'e' ∷ b'r' ∷ b' ' ∷ b'r' ∷ b'e' ∷ b'a' ∷ b'd' ∷ b'y' ∷ b'.' ∷ 10 ∷ 0 ∷ []

abbrev pub memory_ready_text : List ℕ
memory_ready_text =
    b'>' ∷ b' ' ∷ b'M' ∷ b'e' ∷ b'm' ∷ b'o' ∷ b'r' ∷ b'y' ∷ b' ' ∷ b'a' ∷ b'l' ∷ b'l' ∷ b'o' ∷ b'c'
    ∷ b'a' ∷ b't' ∷ b'o' ∷ b'r' ∷ b' ' ∷ b'r' ∷ b'e' ∷ b'a' ∷ b'd' ∷ b'y' ∷ b'.' ∷ 10 ∷ 0 ∷ []

abbrev pub passed_text : List ℕ
passed_text =
    b'>' ∷ b' ' ∷ b'M' ∷ b'e' ∷ b'm' ∷ b'o' ∷ b'r' ∷ b'y' ∷ b' ' ∷ b'a' ∷ b'l' ∷ b'l' ∷ b'o' ∷ b'c'
    ∷ b'a' ∷ b't' ∷ b'i' ∷ b'o' ∷ b'n' ∷ b' ' ∷ b't' ∷ b'e' ∷ b's' ∷ b't' ∷ b' ' ∷ b'P' ∷ b'A'
    ∷ b'S' ∷ b'S' ∷ b'E' ∷ b'D' ∷ b'.' ∷ 10 ∷ 10 ∷ 0 ∷ []

abbrev pub failed_text : List ℕ
failed_text =
    b'>' ∷ b' ' ∷ b'M' ∷ b'e' ∷ b'm' ∷ b'o' ∷ b'r' ∷ b'y' ∷ b' ' ∷ b'a' ∷ b'l' ∷ b'l' ∷ b'o' ∷ b'c'
    ∷ b'a' ∷ b't' ∷ b'i' ∷ b'o' ∷ b'n' ∷ b' ' ∷ b't' ∷ b'e' ∷ b's' ∷ b't' ∷ b' ' ∷ b'F' ∷ b'A'
    ∷ b'I' ∷ b'L' ∷ b'E' ∷ b'D' ∷ b'.' ∷ 10 ∷ 10 ∷ 0 ∷ []

abbrev pub tasking_text : List ℕ
tasking_text =
    b'I' ∷ b'n' ∷ b'i' ∷ b't' ∷ b'i' ∷ b'a' ∷ b'l' ∷ b'i' ∷ b'z' ∷ b'i' ∷ b'n' ∷ b'g' ∷ b' ' ∷ b'M'
    ∷ b'u' ∷ b'l' ∷ b't' ∷ b'i' ∷ b't' ∷ b'a' ∷ b's' ∷ b'k' ∷ b'i' ∷ b'n' ∷ b'g' ∷ b' ' ∷ b'S'
    ∷ b'c' ∷ b'h' ∷ b'e' ∷ b'd' ∷ b'u' ∷ b'l' ∷ b'e' ∷ b'r' ∷ b'.' ∷ b'.' ∷ b'.' ∷ 10 ∷ 0 ∷ []

abbrev pub task_zero_text : List ℕ
task_zero_text =
    b'>' ∷ b' ' ∷ b'T' ∷ b'a' ∷ b's' ∷ b'k' ∷ b' ' ∷ b'z' ∷ b'e' ∷ b'r' ∷ b'o' ∷ b' ' ∷ b'a' ∷ b'c'
    ∷ b't' ∷ b'i' ∷ b'v' ∷ b'e' ∷ b'.' ∷ 10 ∷ 10 ∷ 0 ∷ []

abbrev pub user_text : List ℕ
user_text =
    b'D' ∷ b'r' ∷ b'o' ∷ b'p' ∷ b'p' ∷ b'i' ∷ b'n' ∷ b'g' ∷ b' ' ∷ b't' ∷ b'o' ∷ b' ' ∷ b'U' ∷ b's'
    ∷ b'e' ∷ b'r' ∷ b' ' ∷ b'M' ∷ b'o' ∷ b'd' ∷ b'e' ∷ b' ' ∷ b'(' ∷ b'R' ∷ b'i' ∷ b'n' ∷ b'g'
    ∷ b' ' ∷ b'3' ∷ b')' ∷ b'.' ∷ b'.' ∷ b'.' ∷ 10 ∷ 0 ∷ []
