-- ===== src/Drivers/Vga/Scroll.antt =====
-- `vga_scroll` and `vga_clear` of drivers/vga.c, cell by cell.
use black_hole_os.Prelude.{
  ℕ, zero, suc, ◌+◌, ◌-◌, ◌*◌, ◌<◌, ◌≤◌, ◌≡◌, refl, ◌∙◌, ap, arith, ltb, leb, ◌==◌, if◌then◌else◌,
  ◌&&◌,
}
use black_hole_os.Drivers.Vga.{
  Buffer, Screen, vga_offset, poke, put_cell, copy_row, copy_rows, clear_row, clear_cells,
  vga_scroll, vga_clear,
}
use black_hole_os.Drivers.Vga.Cells.{cell, cell-put_cell}

-- The two writes of the inner loop move one cell up.
copy_cell :
    (m : Buffer) (row col : ℕ)
    → 1 ≤ row
    → (let src = vga_offset row col in
        let dst = vga_offset (row - 1) col in
        let m1 = poke m dst (m src) in poke m1 (dst + 1) (m1 (src + 1)))
      ≡ put_cell m (vga_offset (row - 1) col) (cell m row col).0 (cell m row col).1
unfolding cell
copy_cell m row col h =
    let src = vga_offset row col in
    let dst = vga_offset (row - 1) col in
    let kept : (poke m dst (m src)) (src + 1) ≡ m (src + 1) = ground arith in
    ap (λ (v : ℕ). poke (poke m dst (m src)) (dst + 1) v) kept

copy_row_lem :
    (left col row : ℕ) (m : Buffer) (r c : ℕ)
    → 1 ≤ row
    → col + left ≡ 80
    → c < 80
    → cell (copy_row row left col m) r c
      ≡ (if r == row - 1 && leb col c then cell m row c else cell m r c)
unfolding copy_row
copy_row_lem zero col row m r c h e hc = ground arith
copy_row_lem (suc left) col row m r c h e hc =
    let m2 = put_cell m (vga_offset (row - 1) col) (cell m row col).0 (cell m row col).1 in
    rw (copy_cell m row col h) (
      copy_row_lem left (col + 1) row m2 r c h (omega arith) hc
      ∙ ground (
        arith,
        cell-put_cell m (row - 1) col (cell m row col).0 (cell m row col).1 r c,
        cell-put_cell m (row - 1) col (cell m row col).0 (cell m row col).1 row c,
      ))

copy_rows_lem :
    (left row : ℕ) (m : Buffer) (r c : ℕ)
    → 1 ≤ row
    → c < 80
    → cell (copy_rows left row m) r c
      ≡ (if leb row (r + 1) && ltb (r + 1) (row + left) then cell m (r + 1) c else cell m r c)
unfolding copy_rows
copy_rows_lem zero row m r c h hc = ground arith
copy_rows_lem (suc left) row m r c h hc =
    copy_rows_lem left (row + 1) (copy_row row 80 0 m) r c (omega arith) hc
    ∙ ground (arith, copy_row_lem 80 0 row m r c, copy_row_lem 80 0 row m (r + 1) c)

clear_row_lem :
    (color left col : ℕ) (m : Buffer) (r c : ℕ)
    → col + left ≡ 80
    → c < 80
    → cell (clear_row color left col m) r c
      ≡ (if r == 24 && leb col c then (b' ', color) else cell m r c)
unfolding clear_row
clear_row_lem color zero col m r c e hc = ground arith
clear_row_lem color (suc left) col m r c e hc =
    clear_row_lem color left (col + 1) (put_cell m (vga_offset 24 col) b' ' color) r c (omega arith)
      hc
    ∙ ground (arith, cell-put_cell m 24 col b' ' color r c)

-- Scrolling moves every row up by one, leaves the last row blank in the current colour, and
-- changes no cell below the screen, nor the cursor, nor the colour.
pub vga_scroll_lem :
    (s : Screen) (r c : ℕ)
    → c < 80
    → (cell (vga_scroll s).vga_buffer r c ≡ (
        if ltb r 24
        then cell s.vga_buffer (r + 1) c
        else if r == 24
        then (b' ', s.current_color)
        else cell s.vga_buffer r c))
      × (vga_scroll s ≡ record s { vga_buffer = (vga_scroll s).vga_buffer })
unfolding vga_scroll
vga_scroll_lem s r c hc =
    let m1 = copy_rows 24 1 s.vga_buffer in
    (
      clear_row_lem s.current_color 80 0 m1 r c (omega arith) hc
          ∙ ground (arith, copy_rows_lem 24 1 s.vga_buffer r c),
      refl,
    )

clear_cells_lem :
    (color left i k : ℕ) (m : Buffer) (r c : ℕ)
    → i ≡ 2 * k
    → c < 80
    → cell (clear_cells color left i m) r c
      ≡ (if leb k (r * 80 + c) && ltb (r * 80 + c) (k + left) then (b' ', color) else cell m r c)
unfolding clear_cells cell
clear_cells_lem color zero i k m r c e hc = ground arith
clear_cells_lem color (suc left) i k m r c e hc =
    clear_cells_lem color left (i + 2) (k + 1) (put_cell m i b' ' color) r c (omega arith) hc
    ∙ ground arith

-- Clearing blanks all 25 rows in the current colour, touches nothing below them, and brings the
-- cursor home.
pub vga_clear_lem :
    (s : Screen) (r c : ℕ)
    → c < 80
    → (cell (vga_clear s).vga_buffer r c
        ≡ (if ltb r 25 then (b' ', s.current_color) else cell s.vga_buffer r c))
      × ((vga_clear s).cursor_row ≡ 0)
      × ((vga_clear s).cursor_col ≡ 0)
unfolding vga_clear
vga_clear_lem s r c hc = (
  clear_cells_lem s.current_color 2000 0 0 s.vga_buffer r c (omega arith) hc ∙ ground arith,
  refl,
  refl,
)
