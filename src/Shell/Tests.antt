-- ===== src/Shell/Tests.antt =====
-- A session of shell/shell.c.
use black_hole_os.Prelude.{ℕ, ◌≡◌, refl, arith, List, [], ◌∷◌, some, replicate}
use black_hole_os.Prelude.Int.{negsuc}
use black_hole_os.Drivers.Vga.{vga_print}
use black_hole_os.Fs.Fat16.Sample.{
  letter, wide, wide-IsRoomy, empty_disk, empty_disk-Sized, letter-IsStorable, missing, deleting,
  slot_free, all_free,
}
use black_hole_os.Shell.{System, execute_command}
use black_hole_os.Shell.Session.{cat-write}

abbrev greeting : List ℕ
greeting = b'h' ∷ b'i' ∷ []

abbrev system : System
system = record {
  screen = record { vga_buffer = λ offset. 0; cursor_row = 0; cursor_col = 0; current_color = 7 };
  mem = λ address. 0;
  timer = record { tick = 0; current_freq = 100 };
  interrupts = [];
  keys = [];
  volume = wide;
  disk = empty_disk;
}

cat-write_example :
    (z : System) × (execute_command
        (replicate 32 0)
        2
        (b'w' ∷ b'r' ∷ b'i' ∷ b't' ∷ b'e' ∷ b' ' ∷ b'a' ∷ b' ' ∷ b'h' ∷ b'i' ∷ 0 ∷ [])
        system
      ≡ some z)
    × (execute_command (replicate 32 0) 2 (b'c' ∷ b'a' ∷ b't' ∷ b' ' ∷ b'a' ∷ 0 ∷ []) z
        ≡ some (record z { screen = vga_print z.screen (b'h' ∷ b'i' ∷ 10 ∷ []) }))
cat-write_example =
    cat-write (replicate 32 0) refl 2 system letter greeting
      (((λ e. absurd (omega arith)), (λ e. absurd (omega arith))), tt) (omega arith)
      ((λ e. absurd (omega arith)), ((λ e. absurd (omega arith)), tt)) empty_disk (negsuc 0) 0 0 []
      [] (omega arith) wide-IsRoomy letter-IsStorable empty_disk-Sized (deleting 2) missing
      slot_free (omega (arith, all_free 2046)) (omega arith)
