-- ===== src/Drivers/Vga/Cells.antt =====
-- The cells of the video memory of drivers/vga.c.
use black_hole_os.Prelude.{ℕ, ◌+◌, ◌*◌, ◌<◌, ◌≡◌, arith, ◌==◌, if◌then◌else◌, Bool, ◌&&◌}
use black_hole_os.Drivers.Vga.{Buffer, vga_offset, put_cell}

-- The character and the attribute at a row and a column.
abbrev pub Cell : Type 0
Cell = ℕ × ℕ

unfoldable pub cell : Buffer → ℕ → ℕ → Cell
cell m row col = (m (vga_offset row col), m (vga_offset row col + 1))

abbrev pub same_place : ℕ → ℕ → ℕ → ℕ → Bool
same_place r c r' c' = r == r' && c == c'

offset_inj : (r c r' c' : ℕ) → c < 80 → c' < 80 → r * 80 + c ≡ r' * 80 + c' → (r ≡ r') × (c ≡ c')
offset_inj r c r' c' h h' e = omega arith

-- A cell behind a write of a cell.
pub cell-put_cell :
    (m : Buffer) (row col v attr r c : ℕ)
    → col < 80
    → c < 80
    → cell (put_cell m (vga_offset row col) v attr) r c
      ≡ (if same_place r c row col then (v, attr) else cell m r c)
unfolding cell
cell-put_cell m row col v attr r c h h' = ground (arith, offset_inj r c row col h' h)
