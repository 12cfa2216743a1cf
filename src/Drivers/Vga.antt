-- ===== src/Drivers/Vga.antt =====
-- drivers/vga.c: the 80 x 25 text screen. The driver's static variables are a record; the video
-- memory at 0xB8000 is a function from the offset of a byte, two bytes to a character. A C string
-- is the list of its bytes before the NUL.
pub mod Cells
pub mod Scroll
pub mod Cursor
pub mod Print
mod Tests
use black_hole_os.Prelude.{
  ℕ, zero, suc, ◌+◌, ◌-◌, ◌*◌, ◌/◌, ◌%◌, ◌^◌, Bool, ◌&&◌, List, [], ◌∷◌, ltb, leb, ◌==◌,
  if◌then◌else◌,
}

abbrev pub vga_width : ℕ
vga_width = 80

abbrev pub vga_height : ℕ
vga_height = 25

abbrev pub vga_black : ℕ
vga_black = 0

abbrev pub vga_light_green : ℕ
vga_light_green = 10

abbrev pub Buffer : Type 0
Buffer = ℕ → ℕ

abbrev pub poke : Buffer → ℕ → ℕ → Buffer
poke m p v q = if q == p then v else m q

pub record Screen : Type 0 where
  pub vga_buffer : Buffer
  pub cursor_row : ℕ
  pub cursor_col : ℕ
  pub current_color : ℕ

abbrev pub vga_offset : ℕ → ℕ → ℕ
vga_offset row col = (row * vga_width + col) * 2

-- The two bytes of a character cell at an offset.
abbrev pub put_cell : Buffer → ℕ → ℕ → ℕ → Buffer
put_cell m off c attr = poke (poke m off c) (off + 1) attr

-- The inner loop of `vga_scroll`, with `left` columns to go.
unfoldable pub copy_row : ℕ → ℕ → ℕ → Buffer → Buffer
copy_row row zero col m = m
copy_row row (suc left) col m =
    let src = vga_offset row col in
    let dst = vga_offset (row - 1) col in
    let m1 = poke m dst (m src) in copy_row row left (col + 1) (poke m1 (dst + 1) (m1 (src + 1)))

-- The outer loop, with `left` rows to go.
unfoldable pub copy_rows : ℕ → ℕ → Buffer → Buffer
copy_rows zero row m = m
copy_rows (suc left) row m = copy_rows left (row + 1) (copy_row row vga_width 0 m)

-- The loop that clears the last row.
unfoldable pub clear_row : ℕ → ℕ → ℕ → Buffer → Buffer
clear_row color zero col m = m
clear_row color (suc left) col m =
    clear_row color left (col + 1) (put_cell m (vga_offset (vga_height - 1) col) b' ' color)

unfoldable pub vga_scroll : Screen → Screen
vga_scroll s = record s {
  vga_buffer = clear_row s.current_color vga_width 0 (copy_rows (vga_height - 1) 1 s.vga_buffer);
}

-- The loop of `vga_clear` from offset `i` on, with `left` rounds to go.
unfoldable pub clear_cells : ℕ → ℕ → ℕ → Buffer → Buffer
clear_cells color zero i m = m
clear_cells color (suc left) i m = clear_cells color left (i + 2) (put_cell m i b' ' color)

unfoldable pub vga_clear : Screen → Screen
vga_clear s = record {
  vga_buffer = clear_cells s.current_color (vga_width * vga_height) 0 s.vga_buffer;
  cursor_row = 0;
  cursor_col = 0;
  current_color = s.current_color;
}

unfoldable pub vga_init : Screen → Screen
unfolding vga_clear
vga_init s =
    vga_clear (record s {
      current_color = vga_black * 16 + vga_light_green;
      cursor_row = 0;
      cursor_col = 0;
    })

-- `(bg << 4) | (fg & 0x0F)` in an `unsigned char`.
unfoldable pub vga_set_color : Screen → ℕ → ℕ → Screen
vga_set_color s fg bg = record s { current_color = (bg * 16 + fg % 16) % 2 ^ 8 }

-- An `int` argument is its 32-bit pattern, so that a negative one is above the bounds.
unfoldable pub vga_set_cursor : Screen → ℕ → ℕ → Screen
vga_set_cursor s row col =
    let s1 = if ltb row vga_height then record s { cursor_row = row } else s in
    if ltb col vga_width then record s1 { cursor_col = col } else s1

unfoldable pub vga_newline : Screen → Screen
vga_newline s =
    let s1 = record s { cursor_col = 0; cursor_row = s.cursor_row + 1 } in
    if leb vga_height s1.cursor_row
    then record (vga_scroll s1) { cursor_row = vga_height - 1 }
    else s1

-- A character at the cursor, and the cursor one column on.
abbrev pub put_here : Screen → ℕ → Screen
put_here s c = record s {
  vga_buffer = put_cell s.vga_buffer (vga_offset s.cursor_row s.cursor_col) c s.current_color;
  cursor_col = s.cursor_col + 1;
}

-- The loop of the tab: at most four rounds.
unfoldable pub tab_loop : ℕ → ℕ → Screen → Screen
tab_loop zero next s = s
tab_loop (suc fuel) next s =
    let rest = tab_loop fuel next (put_here s b' ') in
    if ltb s.cursor_col next && ltb s.cursor_col vga_width then rest else s

abbrev pub wrap : Screen → Screen
wrap s = if leb vga_width s.cursor_col then vga_newline s else s

unfoldable pub backspace : Screen → Screen
backspace s =
    if ltb 0 s.cursor_col
    then record s { cursor_col = s.cursor_col - 1 }
    else if ltb 0 s.cursor_row
    then record s { cursor_row = s.cursor_row - 1; cursor_col = vga_width - 1 }
    else s

unfoldable pub tab : Screen → Screen
tab s = wrap (tab_loop 4 ((s.cursor_col + 4) / 4 * 4) s)

unfoldable pub vga_putchar : Screen → ℕ → Screen
unfolding backspace tab
vga_putchar s c =
    if c == 8
    then backspace s
    else if c == 10
    then vga_newline s
    else if c == 13
    then record s { cursor_col = 0 }
    else if c == 9
    then tab s
    else wrap (put_here s c)

unfoldable pub vga_print : Screen → List ℕ → Screen
vga_print s [] = s
vga_print s (c ∷ str) = vga_print (vga_putchar s c) str

unfoldable pub vga_print_at : Screen → List ℕ → ℕ → ℕ → Screen
unfolding vga_set_cursor
vga_print_at s str row col = vga_print (vga_set_cursor s row col) str
