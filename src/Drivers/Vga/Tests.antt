-- ===== src/Drivers/Vga/Tests.antt =====
-- The driver of drivers/vga.c at concrete screens.
use black_hole_os.Prelude.{ℕ, ◌%◌, ◌≡◌, refl, List, [], ◌∷◌, arith, ltb, ◌==◌, if◌then◌else◌}
use black_hole_os.Drivers.Vga.{
  Screen, vga_init, vga_scroll, vga_putchar, vga_set_color, vga_set_cursor, vga_newline, tab_loop,
}
use black_hole_os.Drivers.Vga.Cells.{cell}
use black_hole_os.Drivers.Vga.Scroll.{vga_scroll_lem}
use black_hole_os.Drivers.Vga.Cursor.{IsOnScreen, Keeps, run, print, newline, run-Keeps}

-- The cursor at the end of the last row.
abbrev last_row : Screen
last_row = record {
  vga_buffer = λ q. q % 256;
  cursor_row = 24;
  cursor_col = 79;
  current_color = 15;
}

abbrev blank : Screen
blank = record { vga_buffer = λ q. 0; cursor_row = 3; cursor_col = 5; current_color = 10 }

-- "Hi"
abbrev greeting : List ℕ
greeting = b'H' ∷ b'i' ∷ []

last_row-IsOnScreen : IsOnScreen last_row
last_row-IsOnScreen = omega arith

tab_stops : ((vga_putchar blank 9).cursor_col ≡ 8) × ((vga_putchar last_row 9).cursor_row ≡ 24)
unfolding vga_putchar tab_loop vga_newline vga_scroll
tab_stops = (refl, refl)

colors : (vga_set_color blank 15 4).current_color ≡ 0x4f
unfolding vga_set_color
colors = refl

cursor_limits :
    ((vga_set_cursor blank 25 79).cursor_row ≡ 3) × ((vga_set_cursor blank 25 79).cursor_col ≡ 79)
unfolding vga_set_cursor
cursor_limits = (refl, refl)

run-Keeps_example :
    Keeps (vga_init last_row) (run (vga_init last_row) (print greeting ∷ newline ∷ []))
run-Keeps_example = run-Keeps last_row (print greeting ∷ newline ∷ [])

vga_scroll_lem_example :
    (cell (vga_scroll last_row).vga_buffer 23 7 ≡ (
      if ltb 23 24
      then cell last_row.vga_buffer 24 7
      else if 23 == 24
      then (b' ', 15)
      else cell last_row.vga_buffer 23 7))
    × (vga_scroll last_row ≡ record last_row { vga_buffer = (vga_scroll last_row).vga_buffer })
vga_scroll_lem_example = vga_scroll_lem last_row 23 7 (omega arith)
