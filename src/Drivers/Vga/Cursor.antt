-- ===== src/Drivers/Vga/Cursor.antt =====
-- The cursor of drivers/vga.c stays on the screen, and the driver writes nowhere below it.
use black_hole_os.Prelude.{
  ℕ, zero, suc, ◌+◌, ◌*◌, ◌/◌, ◌^◌, ◌<◌, ◌≤◌, ◌≡◌, inl, inr, refl, ◌∙◌, ap, arith, ltb, leb, ◌==◌,
  ◌&&◌, List, [], ◌∷◌, Bool-cases,
}
use black_hole_os.Drivers.Vga.{
  Screen, vga_scroll, vga_clear, vga_init, vga_set_color, vga_set_cursor, vga_newline, put_here,
  tab_loop, tab, backspace, wrap, vga_putchar, vga_print, vga_print_at,
}
use black_hole_os.Drivers.Vga.Cells.{cell, cell-put_cell}
use black_hole_os.Drivers.Vga.Scroll.{vga_scroll_lem, vga_clear_lem}

pub record IsOnScreen (s : Screen) : Type 0 where
  pub row_in : s.cursor_row < 25
  pub col_in : s.cursor_col < 80
  pub color_in : s.current_color < 2 ^ 8

-- A call keeps the cursor on the screen, and the cells below the screen as they are.
pub record Keeps (s s' : Screen) : Type 0 where
  pub on_screen : IsOnScreen s'
  pub below : (r c : ℕ) → 25 ≤ r → c < 80 → cell s'.vga_buffer r c ≡ cell s.vga_buffer r c

Keeps-trans : {s t u : Screen} → Keeps s t → Keeps t u → Keeps s u
Keeps-trans k l = record {
  on_screen = l.on_screen;
  below = λ r c hr hc. l.below r c hr hc ∙ k.below r c hr hc;
}

Keeps-refl : {s : Screen} → IsOnScreen s → Keeps s s
Keeps-refl v = record { on_screen = v; below = λ r c hr hc. refl }

vga_newline-Keeps :
    (s : Screen) → s.cursor_row < 25 → s.current_color < 2 ^ 8 → Keeps s (vga_newline s)
unfolding vga_newline
vga_newline-Keeps s row_in color_in =
    let s1 = record s { cursor_col = 0; cursor_row = s.cursor_row + 1 } in
    elim (Bool-cases (leb 25 (s.cursor_row + 1))) [
      | inl full ↦
          let color : (vga_scroll s1).current_color ≡ s.current_color =
            ap (λ (t : Screen). t.current_color) (vga_scroll_lem s1 0 0 (omega arith)).1 in
          let col : (vga_scroll s1).cursor_col ≡ 0 =
            ap (λ (t : Screen). t.cursor_col) (vga_scroll_lem s1 0 0 (omega arith)).1 in
          rw full (record {
            on_screen = omega arith;
            below = λ r c hr hc. ground (arith, (vga_scroll_lem s1 r c hc).0);
          })
      | inr room ↦ rw room (record { on_screen = ground arith; below = λ r c hr hc. refl })
    ]

-- One character at the cursor; the column may then be one too large.
put_here-below :
    (s : Screen) (v r c : ℕ)
    → IsOnScreen s
    → 25 ≤ r
    → c < 80
    → cell (put_here s v).vga_buffer r c ≡ cell s.vga_buffer r c
put_here-below s v r c on hr hc =
    ground (arith, cell-put_cell s.vga_buffer s.cursor_row s.cursor_col v s.current_color r c)

wrap-Keeps :
    (s s' : Screen)
    → s'.cursor_row < 25
    → s'.cursor_col ≤ 80
    → s'.current_color < 2 ^ 8
    → ((r c : ℕ) → 25 ≤ r → c < 80 → cell s'.vga_buffer r c ≡ cell s.vga_buffer r c)
    → Keeps s (wrap s')
wrap-Keeps s s' row_in col_in color_in below = elim (Bool-cases (leb 80 s'.cursor_col)) [
  | inl past ↦
      let k = vga_newline-Keeps s' row_in color_in in
      rw past (record {
        on_screen = k.on_screen;
        below = λ r c hr hc. k.below r c hr hc ∙ below r c hr hc;
      })
  | inr inside ↦ rw inside (record { on_screen = ground arith; below = below })
]

record Tabbed (s s' : Screen) : Type 0 where
  row_in : s'.cursor_row < 25
  col_in : s'.cursor_col ≤ 80
  color_in : s'.current_color < 2 ^ 8
  below : (r c : ℕ) → 25 ≤ r → c < 80 → cell s'.vga_buffer r c ≡ cell s.vga_buffer r c

tab_loop-Tabbed :
    (fuel next : ℕ) (s : Screen)
    → s.cursor_row < 25
    → s.cursor_col ≤ 80
    → s.current_color < 2 ^ 8
    → Tabbed s (tab_loop fuel next s)
unfolding tab_loop
tab_loop-Tabbed zero next s row_in col_in color_in = record {
  row_in = row_in;
  col_in = col_in;
  color_in = color_in;
  below = λ r c hr hc. refl;
}
tab_loop-Tabbed (suc fuel) next s row_in col_in color_in =
    elim (Bool-cases (ltb s.cursor_col next && ltb s.cursor_col 80)) [
      | inl more ↦
          let on : IsOnScreen s = ground arith in
          let rest = tab_loop-Tabbed fuel next (put_here s b' ') row_in (ground arith) color_in in
          rw more (record {
            row_in = rest.row_in;
            col_in = rest.col_in;
            color_in = rest.color_in;
            below = λ r c hr hc. rest.below r c hr hc ∙ put_here-below s b' ' r c on hr hc;
          })
      | inr done ↦ rw done (record {
        row_in = row_in;
        col_in = col_in;
        color_in = color_in;
        below = λ r c hr hc. refl;
      })
    ]

tab-Keeps : (s : Screen) → IsOnScreen s → Keeps s (tab s)
unfolding tab
tab-Keeps s on =
    let next = (s.cursor_col + 4) / 4 * 4 in
    let t = tab_loop-Tabbed 4 next s on.row_in (omega arith) on.color_in in
    wrap-Keeps s (tab_loop 4 next s) t.row_in t.col_in t.color_in t.below

backspace-Keeps : (s : Screen) → IsOnScreen s → Keeps s (backspace s)
unfolding backspace
backspace-Keeps s on = ground arith

-- Whatever the character, `vga_putchar` keeps the cursor on the screen and writes nothing below
-- the last row.
pub vga_putchar-Keeps : (s : Screen) (c : ℕ) → IsOnScreen s → Keeps s (vga_putchar s c)
unfolding vga_putchar
vga_putchar-Keeps s c on = elim (Bool-cases (c == 8)) [
  | inl y ↦ rw y (backspace-Keeps s on)
  | inr n8 ↦ elim (Bool-cases (c == 10)) [
    | inl y ↦ rw (n8, y) (vga_newline-Keeps s on.row_in on.color_in)
    | inr n10 ↦ elim (Bool-cases (c == 13)) [
      | inl y ↦ rw (n8, n10, y) (record { on_screen = omega arith; below = λ r c hr hc. refl })
      | inr n13 ↦ elim (Bool-cases (c == 9)) [
        | inl y ↦ rw (n8, n10, n13, y) (tab-Keeps s on)
        | inr n9 ↦
            rw (n8, n10, n13, n9)
              (wrap-Keeps s (put_here s c) on.row_in (omega arith) on.color_in
                (λ r col hr hc. put_here-below s c r col on hr hc))
      ]
    ]
  ]
]

vga_print-Keeps : (s : Screen) (str : List ℕ) → IsOnScreen s → Keeps s (vga_print s str)
unfolding vga_print
vga_print-Keeps s [] on = Keeps-refl on
vga_print-Keeps s (c ∷ str) on =
    let k = vga_putchar-Keeps s c on in
    Keeps-trans k (vga_print-Keeps (vga_putchar s c) str k.on_screen)

-- `vga_init` puts the cursor on the screen, whatever was there before.
pub vga_init-IsOnScreen : (s : Screen) → IsOnScreen (vga_init s)
unfolding vga_init
vga_init-IsOnScreen s = omega arith

-- What a client may ask of the driver.
pub data Op : Type 0 where
  clear : Op
  newline : Op
  set_color : ℕ → ℕ → Op
  set_cursor : ℕ → ℕ → Op
  putchar : ℕ → Op
  print : List ℕ → Op
  print_at : List ℕ → ℕ → ℕ → Op

unfoldable pub run_op : Screen → Op → Screen
run_op s clear = vga_clear s
run_op s newline = vga_newline s
run_op s (set_color fg bg) = vga_set_color s fg bg
run_op s (set_cursor row col) = vga_set_cursor s row col
run_op s (putchar c) = vga_putchar s c
run_op s (print str) = vga_print s str
run_op s (print_at str row col) = vga_print_at s str row col

unfoldable pub run : Screen → List Op → Screen
run s [] = s
run s (op ∷ ops) = run (run_op s op) ops

set_cursor-Keeps : (s : Screen) (row col : ℕ) → IsOnScreen s → Keeps s (vga_set_cursor s row col)
unfolding vga_set_cursor
set_cursor-Keeps s row col on = ground arith

run_op-Keeps : (s : Screen) (op : Op) → IsOnScreen s → Keeps s (run_op s op)
unfolding run_op
run_op-Keeps s clear on = record {
  on_screen = unfold vga_clear in omega arith;
  below = λ r c hr hc. (vga_clear_lem s r c hc).0 ∙ ground arith;
}
run_op-Keeps s newline on = vga_newline-Keeps s on.row_in on.color_in
run_op-Keeps s (set_color fg bg) on =
    unfold vga_set_color in record { on_screen = omega arith; below = λ r c hr hc. refl }
run_op-Keeps s (set_cursor row col) on = set_cursor-Keeps s row col on
run_op-Keeps s (putchar c) on = vga_putchar-Keeps s c on
run_op-Keeps s (print str) on = vga_print-Keeps s str on
run_op-Keeps s (print_at str row col) on =
    let k = set_cursor-Keeps s row col on in
    unfold vga_print_at in
    Keeps-trans k (vga_print-Keeps (vga_set_cursor s row col) str k.on_screen)

run-Keeps_from : (s : Screen) (ops : List Op) → IsOnScreen s → Keeps s (run s ops)
unfolding run
run-Keeps_from s [] on = Keeps-refl on
run-Keeps_from s (op ∷ ops) on =
    let k = run_op-Keeps s op on in Keeps-trans k (run-Keeps_from (run_op s op) ops k.on_screen)

-- From `vga_init` on, after any calls of the driver with any arguments, the cursor is on the screen
-- and no cell below the screen has been written.
pub run-Keeps : (s : Screen) (ops : List Op) → Keeps (vga_init s) (run (vga_init s) ops)
run-Keeps s ops = run-Keeps_from (vga_init s) ops (vga_init-IsOnScreen s)
