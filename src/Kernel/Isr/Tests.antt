-- ===== src/Kernel/Isr/Tests.antt =====
-- The system call of kernel/isr.c with a string.
use black_hole_os.Prelude.{◌≡◌, ◌++◌, refl, [], ◌∷◌, replicate, some}
use black_hole_os.Drivers.Vga.{Screen, vga_print}
use black_hole_os.Libc.Stdio.{Arg, string, c_text}
use black_hole_os.Kernel.Isr.{says_text, isr128_handler}
use black_hole_os.Kernel.Isr.Syscall.{reply, isr128_handler-reply}

abbrev screen : Screen
screen = record { vga_buffer = λ q. 0; cursor_row = 0; cursor_col = 0; current_color = 10 }

abbrev hi : Arg
hi = string (b'h' ∷ b'i' ∷ 0 ∷ [])

replied : reply 1 hi ≡ some (says_text ++ (b'h' ∷ b'i' ∷ []) ++ 10 ∷ [])
unfolding c_text
replied = refl

isr128_handler-reply_example :
    isr128_handler (replicate 32 7) 1 hi screen
    ≡ some (vga_print screen (says_text ++ (b'h' ∷ b'i' ∷ []) ++ 10 ∷ []))
isr128_handler-reply_example =
    isr128_handler-reply (replicate 32 7) 1 hi screen (says_text ++ (b'h' ∷ b'i' ∷ []) ++ 10 ∷ [])
      refl replied
