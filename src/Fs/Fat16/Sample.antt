-- ===== src/Fs/Fat16/Sample.antt =====
-- A sample volume for the tests of fs/fat16.c and of what stands on it.
use black_hole_os.Prelude.{
  ℕ, zero, suc, ◌+◌, ◌*◌, ◌%◌, ◌≡◌, refl, arith, List, [], ◌∷◌, some, none, length-replicate,
  get_or-replicate, replicate,
}
use black_hole_os.Prelude.Int.{negsuc}
use black_hole_os.Drivers.Ata.Disk.{Disk, read_sector}
use black_hole_os.Fs.Fat16.Volume.{Volume, fat_read_entry}
use black_hole_os.Fs.Fat16.Names.{to_fat_name, base_loop, extension_loop}
use black_hole_os.Fs.Fat16.Root.{find_in_root, find_in_sector, free_in_root, free_in_sector}
use black_hole_os.Fs.Fat16.Sectors.{Sized}
use black_hole_os.Fs.Fat16.Regions.{IsRoomy}
use black_hole_os.Fs.Fat16.RoundTrip.{IsStorable}
use black_hole_os.Fs.Fat16.Space.{free_below}
use black_hole_os.Fs.Fat16.Files.{fat16_delete_file}

abbrev pub letter : List ℕ
letter = b'a' ∷ []

-- A volume with room for all the clusters that the allocation looks at, with an empty table and an
-- empty directory.
abbrev pub wide : Volume
wide = record {
  fat_start_lba = 1;
  root_dir_start_lba = 17;
  data_start_lba = 18;
  root_dir_sectors = 1;
  bytes_per_sector = 512;
  sectors_per_cluster = 1;
  root_entry_count = 16;
  fat_size_sectors = 8;
  num_fats = 2;
}

pub wide-IsRoomy : IsRoomy wide
wide-IsRoomy = record {
  laid = record {
    table = record { some_copy = omega arith; on_disk = omega arith };
    root_behind = omega arith;
    data_behind = omega arith;
    data_on_disk = omega arith;
  };
  wide = omega arith;
  some_sectors = omega arith;
  byte_sectors = omega arith;
  data_fits = omega arith;
}

unfoldable pub empty_disk : Disk
empty_disk l = replicate 512 0

pub empty_disk-Sized : Sized empty_disk
unfolding empty_disk
empty_disk-Sized l = length-replicate {A = ℕ} 512 0

pub letter-IsStorable : IsStorable letter
unfolding to_fat_name base_loop extension_loop
letter-IsStorable = record { more = λ e. absurd (omega arith); live = λ e. absurd (omega arith) }

pub missing : find_in_root wide letter 0 1 empty_disk ≡ none
unfolding find_in_root find_in_sector read_sector empty_disk
missing = refl

pub deleting :
    (fuel : ℕ) → fat16_delete_file wide fuel letter empty_disk ≡ some (negsuc 0, empty_disk)
unfolding fat16_delete_file find_in_root find_in_sector read_sector empty_disk
deleting fuel = refl

pub slot_free : free_in_root wide 0 1 empty_disk ≡ some (0, 0)
unfolding free_in_root free_in_sector read_sector empty_disk
slot_free = refl

empty_entry : (d : ℕ) → fat_read_entry wide d empty_disk ≡ 0
unfolding fat_read_entry read_sector empty_disk
empty_entry d =
    let low = get_or-replicate {A = ℕ} 512 (d * 2 % 512) 0 in
    let high = get_or-replicate {A = ℕ} 512 (d * 2 % 512 + 1) 0 in rw (low, high) refl

pub all_free : (k : ℕ) → free_below wide empty_disk k ≡ k
unfolding free_below
all_free zero = refl
all_free (suc k) = rw (empty_entry (k + 2), all_free k) (omega arith)
