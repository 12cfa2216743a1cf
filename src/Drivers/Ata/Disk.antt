-- ===== src/Drivers/Ata/Disk.antt =====
-- What the two transfers of drivers/ata.c mean for their callers: a disk is a function from the
-- number of a sector to its 512 bytes, and a sector is read or written as a whole.
use black_hole_os.Prelude.{ℕ, ◌%◌, ◌^◌, List, take, ◌==◌, if◌then◌else◌}

abbrev pub Disk : Type 0
Disk = ℕ → List ℕ

-- The drive has 28 bits for the number of a sector.
unfoldable pub read_sector : ℕ → Disk → List ℕ
read_sector lba disk = disk (lba % 2 ^ 28)

unfoldable pub write_sector : ℕ → List ℕ → Disk → Disk
write_sector lba buffer disk l = if l == lba % 2 ^ 28 then take 512 buffer else disk l
