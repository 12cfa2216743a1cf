-- ===== src/Fs/Fat16/Tests.antt =====
-- A small volume, and runs of fs/fat16.c on it.
use black_hole_os.Prelude.{
  ℕ, ◌^◌, ◌%◌, ◌<◌, ◌≤◌, ◌≡◌, ◌≢◌, refl, arith, List, [], ◌∷◌, ◌++◌, some, length-replicate,
  replicate, take, if◌then◌else◌, ◌⊎◌,
}
use black_hole_os.Prelude.Int.{ℤ, pos, negsuc}
use black_hole_os.Fs.Fat16.Sample.{
  letter, wide, wide-IsRoomy, empty_disk, empty_disk-Sized, letter-IsStorable, missing, deleting,
  slot_free, all_free,
}
use black_hole_os.Drivers.Ata.Disk.{Disk, read_sector, write_sector}
use black_hole_os.Fs.Fat16.Volume.{
  Volume, fat_read_entry, fat_write_entry, fat_alloc_cluster, cluster_to_lba, set_word,
}
use black_hole_os.Fs.Fat16.Names.{
  to_fat_name, fat_name_match, base_loop, extension_loop, match_loop,
}
use black_hole_os.Fs.Fat16.Root.{
  find_in_root, find_in_sector, name_byte, entry_at, first_cluster_lo, new_entry, put_entry,
}
use black_hole_os.Fs.Fat16.Files.{fat16_delete_file, fat16_read_file, fat16_write_file, root_lba}
use black_hole_os.Fs.Fat16.ShortName.{to_fat_name-short_name, field_of, before_dot, behind_dot}
use black_hole_os.Fs.Fat16.Sectors.{Sized, write_sector-Sized}
use black_hole_os.Fs.Fat16.Table.{
  HasTable, HasEntry, Found, fat_read_entry-fat_write_entry, fat_alloc_cluster-finds,
}
use black_hole_os.Fs.Fat16.Chain.{Chain, mem}
use black_hole_os.Fs.Fat16.Freeing.{fat16_delete_file-ends}
use black_hole_os.Fs.Fat16.Deleting.{LaidOut, fat16_delete_file-frees}
use black_hole_os.Fs.Fat16.Space.{fat16_read_file-written}
use black_hole_os.Drivers.Vga.{Screen}
use black_hole_os.Fs.Fat16.Reading.{chain_data, sectors_data, fat16_read_file-chain_data}

-- Two copies of a table of one sector, one sector of root directory, and the data behind it.
abbrev small : Volume
small = record {
  fat_start_lba = 1;
  root_dir_start_lba = 3;
  data_start_lba = 4;
  root_dir_sectors = 1;
  bytes_per_sector = 512;
  sectors_per_cluster = 1;
  root_entry_count = 16;
  fat_size_sectors = 1;
  num_fats = 2;
}

-- A file of 600 bytes in the clusters 2 and 3, in sectors that are filled with a byte each.
abbrev table_sector : List ℕ
table_sector = set_word (set_word (replicate 512 0) 4 3) 6 0xFFFF

abbrev root_sector : List ℕ
root_sector = put_entry (replicate 512 0) 0 (new_entry letter 2 600)

abbrev blank : Disk
blank l = replicate 512 (l % 2 ^ 8)

unfoldable small_disk : Disk
small_disk = write_sector 3 root_sector (write_sector 1 table_sector blank)

blank-Sized : Sized blank
blank-Sized l = length-replicate 512 (l % 2 ^ 8)

small_disk-Sized : Sized small_disk
unfolding small_disk to_fat_name base_loop extension_loop
small_disk-Sized =
    write_sector-Sized 3 root_sector (write_sector 1 table_sector blank) refl
      (write_sector-Sized 1 table_sector blank refl blank-Sized)

found : find_in_root small letter 0 1 small_disk ≡ some (0, 0)
unfolding find_in_root find_in_sector fat_name_match match_loop to_fat_name base_loop extension_loop
    read_sector write_sector small_disk
found = refl

chain :
    Chain small small_disk
      (first_cluster_lo (entry_at (read_sector (root_lba small 0) small_disk) 0))
      (2 ∷ 3 ∷ [])
unfolding fat_read_entry read_sector write_sector small_disk to_fat_name base_loop extension_loop
chain = (refl, refl, (refl, refl, refl))

table : HasTable small
table = record { some_copy = omega arith; on_disk = omega arith }

small-LaidOut : LaidOut small
small-LaidOut = record {
  table = table;
  root_behind = omega arith;
  data_behind = omega arith;
  data_on_disk = omega arith;
}

has_entry : (c : ℕ) → c < 256 → HasEntry small c
has_entry c inside = record { inside = omega arith }

fat_read_entry-fat_write_entry_example :
    fat_read_entry small 3 (fat_write_entry small 2 7 small_disk)
    ≡ fat_read_entry small 3 small_disk
fat_read_entry-fat_write_entry_example =
    fat_read_entry-fat_write_entry small 2 3 7 small_disk table (has_entry 2 (omega arith))
      (has_entry 3 (omega arith)) small_disk-Sized

fat_alloc_cluster-finds_example :
    Found small small_disk 2 2046 (fat_alloc_cluster small small_disk)
    ⊎ ((fat_alloc_cluster small small_disk ≡ 0)
        × ((d : ℕ) → 2 ≤ d → d < 2048 → fat_read_entry small d small_disk ≢ 0))
fat_alloc_cluster-finds_example = fat_alloc_cluster-finds small small_disk

fat16_delete_file-ends_example :
    (out : ℤ × Disk) × (fat16_delete_file small 65538 letter small_disk ≡ some out)
fat16_delete_file-ends_example =
    fat16_delete_file-ends small 65538 letter small_disk small_disk-Sized (omega arith)
      (omega arith)

fat16_delete_file-frees_example :
    (after : Disk) × (fat16_delete_file small 3 letter small_disk ≡ some (pos 0, after))
    × ((d : ℕ)
        → HasEntry small d
        → fat_read_entry small d after
          ≡ (if mem d (2 ∷ 3 ∷ []) then 0 else fat_read_entry small d small_disk))
    × (name_byte (entry_at (read_sector (root_lba small 0) after) 0) 0 ≡ 0xE5)
fat16_delete_file-frees_example =
    fat16_delete_file-frees small 3 letter small_disk 0 0 (2 ∷ 3 ∷ []) small-LaidOut
      small_disk-Sized found chain (has_entry 2 (omega arith), (has_entry 3 (omega arith), tt))
      (omega arith)

fat16_read_file-chain_data_example :
    fat16_read_file small 3 letter (replicate 700 0) 700 small_disk
    ≡ some (pos 600, take 600 (chain_data small small_disk (2 ∷ 3 ∷ [])) ++ replicate 100 0)
unfolding read_sector chain_data small_disk sectors_data write_sector to_fat_name base_loop
    cluster_to_lba
fat16_read_file-chain_data_example =
    fat16_read_file-chain_data small 3 letter (replicate 700 0) 700 small_disk 0 0 (2 ∷ 3 ∷ [])
      small_disk-Sized found chain (omega arith) (omega arith)

abbrev greeting : List ℕ
greeting = b'h' ∷ b'i' ∷ []

abbrev screen : Screen
screen = record { vga_buffer = λ offset. 0; cursor_row = 0; cursor_col = 0; current_color = 7 }

fat16_read_file-written_example :
    (after : Disk) × (fat16_write_file wide 1 [] letter greeting 2 empty_disk screen
      ≡ some (pos 0, after, screen))
    × (fat16_read_file wide 2 letter (replicate 5 0) 5 after
        ≡ some (pos 2, b'h' ∷ b'i' ∷ 0 ∷ 0 ∷ 0 ∷ []))
fat16_read_file-written_example =
    fat16_read_file-written wide 1 2 [] letter greeting (replicate 5 0) 2 5 0 0 empty_disk
      empty_disk (negsuc 0) screen wide-IsRoomy letter-IsStorable (omega arith) (omega arith)
      empty_disk-Sized (deleting 1) missing slot_free (omega (arith, all_free 2046)) (omega arith)
      (omega arith) (omega arith)

-- "me.text" in an entry of 32 bytes.
abbrev me_text : List ℕ
me_text = b'm' ∷ b'e' ∷ b'.' ∷ b't' ∷ b'e' ∷ b'x' ∷ b't' ∷ []

to_fat_name-short_name_example :
    to_fat_name me_text (replicate 32 1)
    ≡ (b'M' ∷ b'E' ∷ b' ' ∷ b' ' ∷ b' ' ∷ b' ' ∷ b' ' ∷ b' ' ∷ b'T' ∷ b'E' ∷ b'X' ∷ [])
      ++ replicate 21 1
unfolding field_of before_dot behind_dot
to_fat_name-short_name_example = to_fat_name-short_name me_text (replicate 32 1) (
  omega arith,
  (omega arith, (omega arith, (omega arith, (omega arith, (omega arith, (omega arith, tt)))))),
)
