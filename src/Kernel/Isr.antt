-- ===== src/Kernel/Isr.antt =====
-- kernel/isr.c: the handlers of the interrupts. The byte at port 0x60, the address in CR2 and what
-- the assembly of `task_switch` saves are arguments; `buf` is the uninitialized array of `printf`.
pub mod Syscall
mod Tests
use mathlib.Core.Option
use black_hole_os.Prelude.{ℕ, ◌>>=◌, Option, none, some, List, [], ◌∷◌, ◌++◌, ◌==◌, if◌then◌else◌}
use black_hole_os.Kernel.Ports.{Output, outb}
use black_hole_os.Kernel.Task.{Scheduler}
use black_hole_os.Drivers.Timer.{Timer, timer_callback}
use black_hole_os.Drivers.Keyboard.{Keyboard, keyboard_handle_scancode}
use black_hole_os.Drivers.Vga.{Screen, vga_set_color}
use black_hole_os.Libc.Stdio.{Arg, word, printf}

-- The texts of the handlers, without the conversions.
abbrev pub says_text : List ℕ
says_text =
    b'[' ∷ b'S' ∷ b'y' ∷ b's' ∷ b'c' ∷ b'a' ∷ b'l' ∷ b'l' ∷ b']' ∷ b' ' ∷ b'R' ∷ b'i' ∷ b'n' ∷ b'g'
    ∷ b' ' ∷ b'3' ∷ b' ' ∷ b's' ∷ b'a' ∷ b'y' ∷ b's' ∷ b':' ∷ b' ' ∷ []

abbrev pub unknown_text : List ℕ
unknown_text =
    b'[' ∷ b'S' ∷ b'y' ∷ b's' ∷ b'c' ∷ b'a' ∷ b'l' ∷ b'l' ∷ b']' ∷ b' ' ∷ b'U' ∷ b'n' ∷ b'k' ∷ b'n'
    ∷ b'o' ∷ b'w' ∷ b'n' ∷ b' ' ∷ b's' ∷ b'y' ∷ b's' ∷ b'c' ∷ b'a' ∷ b'l' ∷ b'l' ∷ b' ' ∷ b'r'
    ∷ b'e' ∷ b'q' ∷ b'u' ∷ b'e' ∷ b's' ∷ b't' ∷ b'e' ∷ b'd' ∷ b' ' ∷ b'f' ∷ b'r' ∷ b'o' ∷ b'm'
    ∷ b' ' ∷ b'U' ∷ b's' ∷ b'e' ∷ b'r' ∷ b' ' ∷ b'S' ∷ b'p' ∷ b'a' ∷ b'c' ∷ b'e' ∷ b':' ∷ b' ' ∷ []

abbrev pub panic_text : List ℕ
panic_text =
    10 ∷ b'*' ∷ b'*' ∷ b'*' ∷ b' ' ∷ b'K' ∷ b'E' ∷ b'R' ∷ b'N' ∷ b'E' ∷ b'L' ∷ b' ' ∷ b'P' ∷ b'A'
    ∷ b'N' ∷ b'I' ∷ b'C' ∷ b' ' ∷ b'*' ∷ b'*' ∷ b'*' ∷ 10 ∷ []

abbrev pub fault_text : List ℕ
fault_text =
    b'P' ∷ b'a' ∷ b'g' ∷ b'e' ∷ b' ' ∷ b'F' ∷ b'a' ∷ b'u' ∷ b'l' ∷ b't' ∷ b' ' ∷ b'(' ∷ b'E' ∷ b'x'
    ∷ b'c' ∷ b'e' ∷ b'p' ∷ b't' ∷ b'i' ∷ b'o' ∷ b'n' ∷ b' ' ∷ b'1' ∷ b'4' ∷ b')' ∷ b' ' ∷ b'a'
    ∷ b't' ∷ b' ' ∷ b'V' ∷ b'i' ∷ b'r' ∷ b't' ∷ b'u' ∷ b'a' ∷ b'l' ∷ b' ' ∷ b'A' ∷ b'd' ∷ b'd'
    ∷ b'r' ∷ b'e' ∷ b's' ∷ b's' ∷ b':' ∷ b' ' ∷ b'0' ∷ b'x' ∷ []

abbrev pub halted_text : List ℕ
halted_text =
    b'S' ∷ b'y' ∷ b's' ∷ b't' ∷ b'e' ∷ b'm' ∷ b' ' ∷ b'H' ∷ b'a' ∷ b'l' ∷ b't' ∷ b'e' ∷ b'd' ∷ b'.'
    ∷ 10 ∷ []

-- The screen on which the system halts.
unfoldable pub isr14_handler : List ℕ → ℕ → Screen → Option Screen
isr14_handler buf faulting_address s = do
  panic ← printf buf (panic_text ++ 0 ∷ []) [] (vga_set_color s 0xF 0x4)
  fault ← printf buf (fault_text ++ b'%' ∷ b'x' ∷ 10 ∷ 0 ∷ []) (word faulting_address ∷ []) panic.1
  halted ← printf buf (halted_text ++ 0 ∷ []) [] fault.1
  some halted.1

unfoldable pub irq0_handler :
    ℕ → ℕ → ℕ → Timer × Scheduler → List Output → (Timer × Scheduler) × List Output
irq0_handler eip eax saved s outputs = (timer_callback eip eax saved s, outb 0x20 0x20 outputs)

unfoldable pub irq1_handler : ℕ → Keyboard → List Output → Keyboard × List Output
irq1_handler scancode k outputs = (keyboard_handle_scancode k scancode, outb 0x20 0x20 outputs)

-- `arg1` is an argument of `printf` if it is a pointer. `arg2` is not used.
unfoldable pub isr128_handler : List ℕ → ℕ → Arg → Screen → Option Screen
isr128_handler buf syscall_num arg1 s =
    if syscall_num == 1
    then Option.map (λ out. out.1)
        (printf buf (says_text ++ b'%' ∷ b's' ∷ 10 ∷ 0 ∷ []) (arg1 ∷ []) s)
    else Option.map (λ out. out.1)
        (printf buf (unknown_text ++ b'%' ∷ b'd' ∷ 10 ∷ 0 ∷ []) (word syscall_num ∷ []) s)
