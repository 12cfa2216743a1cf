-- ===== src/Fs/Fat16/Volume.antt =====
-- fs/fat16.c: the layout that `fat16_init` reads, and the file allocation table.
use mathlib.Core.Option
use black_hole_os.Prelude.{
  ℕ, zero, suc, ◌+◌, ◌-◌, ◌*◌, ◌/◌, ◌%◌, ◌^◌, true, false, Option, List, [], ◌∷◌, get_or, set, ◌==◌,
  if◌then◌else◌,
}
use black_hole_os.Prelude.Int.{ℤ, pos, negsuc}
use black_hole_os.Drivers.Vga.{Screen}
use black_hole_os.Drivers.Ata.Disk.{Disk, read_sector, write_sector}
use black_hole_os.Libc.Stdio.{word, printf}

-- The static variables of the driver.
pub record Volume : Type 0 where
  pub fat_start_lba : ℕ
  pub root_dir_start_lba : ℕ
  pub data_start_lba : ℕ
  pub root_dir_sectors : ℕ
  pub bytes_per_sector : ℕ
  pub sectors_per_cluster : ℕ
  pub root_entry_count : ℕ
  pub fat_size_sectors : ℕ
  pub num_fats : ℕ

-- A `uint16_t` and a `uint32_t` at an offset of a buffer, the low byte first.
abbrev pub word_at : List ℕ → ℕ → ℕ
word_at buf offset = get_or buf offset 0 + get_or buf (offset + 1) 0 * 2 ^ 8

abbrev pub set_word : List ℕ → ℕ → ℕ → List ℕ
set_word buf offset value =
    set (set buf offset (value % 2 ^ 8)) (offset + 1) (value / 2 ^ 8 % 2 ^ 8)

abbrev pub dword_at : List ℕ → ℕ → ℕ
dword_at buf offset = word_at buf offset + word_at buf (offset + 2) * 2 ^ 16

abbrev pub set_dword : List ℕ → ℕ → ℕ → List ℕ
set_dword buf offset value = set_word (set_word buf offset value) (offset + 2) (value / 2 ^ 16)

-- `cluster - 2` is an `int`, and negative below 2.
unfoldable pub cluster_to_lba : Volume → ℕ → ℕ
cluster_to_lba v cluster =
    (v.data_start_lba + (cluster + (2 ^ 32 - 2)) % 2 ^ 32 * v.sectors_per_cluster) % 2 ^ 32

unfoldable pub fat_read_entry : Volume → ℕ → Disk → ℕ
fat_read_entry v cluster disk =
    let fat_offset = cluster * 2 in
    let fat_sector = (v.fat_start_lba + fat_offset / 512) % 2 ^ 32 in
    word_at (read_sector fat_sector disk) (fat_offset % 512)

-- The loop of `fat_write_entry`, with the number of the copy and how many are left.
unfoldable pub fat_write_copies : Volume → ℕ → ℕ → ℕ → ℕ → Disk → Disk
fat_write_copies v cluster value f zero disk = disk
fat_write_copies v cluster value f (suc n) disk =
    let fat_offset = cluster * 2 in
    let sector = (v.fat_start_lba + f * v.fat_size_sectors + fat_offset / 512) % 2 ^ 32 in
    let buf = set_word (read_sector sector disk) (fat_offset % 512) value in
    fat_write_copies v cluster value (suc f) n (write_sector sector buf disk)

unfoldable pub fat_write_entry : Volume → ℕ → ℕ → Disk → Disk
fat_write_entry v cluster value disk = fat_write_copies v cluster value 0 v.num_fats disk

-- The loop of `fat_alloc_cluster`, with how many clusters are left.
unfoldable pub alloc_loop : Volume → ℕ → ℕ → Disk → ℕ
alloc_loop v c zero disk = 0
alloc_loop v c (suc n) disk = elim (fat_read_entry v c disk == 0) [
  | true ↦ c
  | false ↦ alloc_loop v (suc c) n disk
]

unfoldable pub fat_alloc_cluster : Volume → Disk → ℕ
fat_alloc_cluster v disk = alloc_loop v 2 (2048 - 2) disk

-- The variables, from the first sector.
abbrev pub layout : List ℕ → Volume
layout bpb =
    let reserved_sectors = word_at bpb 14 in
    let num_fats = get_or bpb 16 0 in
    let root_entry_count = word_at bpb 17 in
    let fat_size_16 = word_at bpb 22 in
    let root_dir_start_lba = (reserved_sectors + num_fats * fat_size_16) % 2 ^ 32 in
    let root_dir_sectors = (root_entry_count * 32 + 511) % 2 ^ 32 / 512 in
    record {
      fat_start_lba = reserved_sectors;
      root_dir_start_lba = root_dir_start_lba;
      data_start_lba = (root_dir_start_lba + root_dir_sectors) % 2 ^ 32;
      root_dir_sectors = root_dir_sectors;
      bytes_per_sector = word_at bpb 11;
      sectors_per_cluster = get_or bpb 13 0;
      root_entry_count = root_entry_count;
      fat_size_sectors = fat_size_16;
      num_fats = num_fats;
    }

abbrev pub size_text : List ℕ
size_text =
    b'[' ∷ b'F' ∷ b'A' ∷ b'T' ∷ b'1' ∷ b'6' ∷ b']' ∷ b' ' ∷ b'E' ∷ b'R' ∷ b'R' ∷ b'O' ∷ b'R' ∷ b':'
    ∷ b' ' ∷ b'U' ∷ b'n' ∷ b's' ∷ b'u' ∷ b'p' ∷ b'p' ∷ b'o' ∷ b'r' ∷ b't' ∷ b'e' ∷ b'd' ∷ b' '
    ∷ b's' ∷ b'e' ∷ b'c' ∷ b't' ∷ b'o' ∷ b'r' ∷ b' ' ∷ b's' ∷ b'i' ∷ b'z' ∷ b'e' ∷ b' ' ∷ b'%'
    ∷ b'u' ∷ 10 ∷ 0 ∷ []

abbrev pub start_text : List ℕ
start_text =
    b'>' ∷ b' ' ∷ b'F' ∷ b'A' ∷ b'T' ∷ b'1' ∷ b'6' ∷ b' ' ∷ b'i' ∷ b'n' ∷ b'i' ∷ b't' ∷ b'i' ∷ b'a'
    ∷ b'l' ∷ b'i' ∷ b'z' ∷ b'e' ∷ b'd' ∷ b'.' ∷ b' ' ∷ b'D' ∷ b'a' ∷ b't' ∷ b'a' ∷ b' ' ∷ b's'
    ∷ b't' ∷ b'a' ∷ b'r' ∷ b't' ∷ b's' ∷ b' ' ∷ b'a' ∷ b't' ∷ b' ' ∷ b'L' ∷ b'B' ∷ b'A' ∷ b' '
    ∷ b'%' ∷ b'u' ∷ b'.' ∷ 10 ∷ 0 ∷ []

-- `fat16_init` behind its `ata_read_sector`, on the sector that was read. `buf` is the buffer of
-- `printf`.
unfoldable pub use_sector : List ℕ → List ℕ → Volume → Screen → Option (ℤ × Volume × Screen)
use_sector buf sector old s =
    let v = layout sector in
    if v.bytes_per_sector == 512
    then Option.map (λ out. (pos 0, v, out.1))
        (printf buf start_text (word v.data_start_lba ∷ []) s)
    else Option.map (λ out. (negsuc 0, old, out.1))
        (printf buf size_text (word v.bytes_per_sector ∷ []) s)

abbrev pub fat16_init : List ℕ → Volume → Disk → Screen → Option (ℤ × Volume × Screen)
fat16_init buf old disk s = use_sector buf (read_sector 0 disk) old s
