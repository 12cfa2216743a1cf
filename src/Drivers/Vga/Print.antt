-- ===== src/Drivers/Vga/Print.antt =====
-- What `vga_print` of drivers/vga.c leaves on the screen.
use black_hole_os.Prelude.{
  ℕ, zero, suc, ◌+◌, ◌-◌, ◌<◌, ◌≡◌, ◌≢◌, inl, inr, refl, ◌∙◌, ap, arith, ltb, leb, ◌==◌,
  if◌then◌else◌, ◌&&◌, List, [], ◌∷◌, Bool-cases, length, get_or, All,
}
use black_hole_os.Drivers.Vga.{Screen, vga_newline, put_here, vga_putchar, vga_print}
use black_hole_os.Drivers.Vga.Cells.{cell, cell-put_cell}
use black_hole_os.Drivers.Vga.Cursor.{IsOnScreen}

-- A byte that `vga_putchar` draws: neither backspace, tab, newline nor carriage return.
abbrev pub IsPlain : ℕ → Type 0
IsPlain c = (c ≢ 8) × (c ≢ 9) × (c ≢ 10) × (c ≢ 13)

plain_inside :
    (s : Screen) (c : ℕ) → IsPlain c → s.cursor_col + 1 < 80 → vga_putchar s c ≡ put_here s c
unfolding vga_putchar
plain_inside s c plain room = ground arith

vga_print-cons :
    (s : Screen) (x : ℕ) (str : List ℕ) → vga_print s (x ∷ str) ≡ vga_print (vga_putchar s x) str
unfolding vga_print
vga_print-cons s x str = refl

get_or-cons :
    (x : ℕ) (xs : List ℕ) (k : ℕ)
    → get_or (x ∷ xs) k 0 ≡ (if k == 0 then x else get_or xs (k - 1) 0)
get_or-cons x xs zero = refl
get_or-cons x xs (suc k) = ground arith

-- A string of plain bytes that ends before the right edge stands on its row from the old cursor
-- on, in the current colour; no other cell changes, and the cursor stands behind it.
vga_print-plain :
    (s : Screen) (str : List ℕ) (r c : ℕ)
    → All IsPlain str
    → s.cursor_col + length str < 80
    → c < 80
    → (cell (vga_print s str).vga_buffer r c ≡ (
        if r == s.cursor_row && (leb s.cursor_col c && ltb c (s.cursor_col + length str))
        then (get_or str (c - s.cursor_col) 0, s.current_color)
        else cell s.vga_buffer r c))
      × ((vga_print s str).cursor_row ≡ s.cursor_row)
      × ((vga_print s str).cursor_col ≡ s.cursor_col + length str)
vga_print-plain s [] r c plain room hc =
    (unfold vga_print in ground arith, unfold vga_print in refl, unfold vga_print in omega arith)
vga_print-plain s (x ∷ str) r c (here, later) room hc =
    let rest = vga_print-plain (put_here s x) str r c later (omega arith) hc in
    let shift : get_or str (c - s.cursor_col - 1) 0 ≡ get_or str (c - (s.cursor_col + 1)) 0 =
      ap (λ (k : ℕ). get_or str k 0) (omega arith) in
    let first = cell-put_cell s.vga_buffer s.cursor_row s.cursor_col x s.current_color r c in
    let step =
      vga_print-cons s x str
      ∙ ap (λ (t : Screen). vga_print t str) (plain_inside s x here (omega arith)) in
    rw step (
      rest.0 ∙ ground (arith, first, get_or-cons x str (c - s.cursor_col)),
      rest.1,
      omega (arith, rest.2),
    )

-- The three bytes that `keyboard_readline` prints for a backspace.
abbrev pub erase : List ℕ
erase = 8 ∷ b' ' ∷ 8 ∷ []

-- The cell before the cursor, also across the left edge.
abbrev pub row_before : Screen → ℕ
row_before s = if ltb 0 s.cursor_col then s.cursor_row else s.cursor_row - 1

abbrev pub col_before : Screen → ℕ
col_before s = if ltb 0 s.cursor_col then s.cursor_col - 1 else 79

-- Printing these anywhere but at the top left corner blanks the cell before the cursor, leaves
-- the cursor there and changes no other cell.
vga_print-erase :
    (s : Screen) (r c : ℕ)
    → IsOnScreen s
    → 0 < s.cursor_row + s.cursor_col
    → c < 80
    → (cell (vga_print s erase).vga_buffer r c ≡ (
        if r == row_before s && c == col_before s
        then (b' ', s.current_color)
        else cell s.vga_buffer r c))
      × ((vga_print s erase).cursor_row ≡ row_before s)
      × ((vga_print s erase).cursor_col ≡ col_before s)
unfolding vga_print vga_putchar vga_newline
vga_print-erase s r c on away hc = elim (Bool-cases (ltb 0 s.cursor_col)) [
  | inl right ↦
      ground
        (arith, cell-put_cell s.vga_buffer s.cursor_row (s.cursor_col - 1) b' ' s.current_color r c)
  | inr left ↦
      ground (arith, cell-put_cell s.vga_buffer (s.cursor_row - 1) 79 b' ' s.current_color r c)
]
