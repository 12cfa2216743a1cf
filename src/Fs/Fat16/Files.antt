-- ===== src/Fs/Fat16/Files.antt =====
-- fs/fat16.c: reading, writing and deleting a file. A walk along a chain of clusters takes fuel.
-- `none` is running out of it, an access past the end of an object, or a division by zero.
use mathlib.Core.Option
use black_hole_os.Prelude.{
  ℕ, zero, suc, ◌+◌, ◌-◌, ◌*◌, ◌/◌, ◌%◌, ◌^◌, Bool, true, false, ◌&&◌, ◌||◌, ◌>>=◌, Option, some,
  none, List, [], ◌∷◌, ◌++◌, length, set, take, drop, replicate, ltb, leb, ◌==◌, if◌then◌else◌,
}
use black_hole_os.Prelude.Int.{ℤ, pos, negsuc}
use black_hole_os.Drivers.Vga.{Screen}
use black_hole_os.Drivers.Ata.Disk.{Disk, read_sector, write_sector}
use black_hole_os.Libc.Strings.{memcpy}
use black_hole_os.Libc.Stdio.{printf, to_int}
use black_hole_os.Fs.Fat16.Volume.{
  Volume, cluster_to_lba, fat_read_entry, fat_write_entry, fat_alloc_cluster,
}
use black_hole_os.Fs.Fat16.Root.{
  sizeof_dir_entry, entry_at, first_cluster_lo, file_size, find_in_root, free_in_root, new_entry,
  put_entry,
}

-- `cluster >= 2 && cluster < 0xFFF8`
abbrev pub is_data_cluster : ℕ → Bool
is_data_cluster cluster = leb 2 cluster && ltb cluster 0xFFF8

-- The sector of the root directory that has the entry, and the entry.
abbrev pub root_lba : Volume → ℕ → ℕ
root_lba v s = (v.root_dir_start_lba + s) % 2 ^ 32

abbrev pub root_entry : Volume → ℕ × ℕ → Disk → List ℕ
root_entry v (s, i) disk = entry_at (read_sector (root_lba v s) disk) i

-- The loop of `fat16_delete_file` along the chain.
unfoldable pub free_chain : Volume → ℕ → ℕ → Disk → Option Disk
free_chain v zero cluster disk = none
free_chain v (suc fuel) cluster disk =
    let next = fat_read_entry v cluster disk in
    let freed = free_chain v fuel next (fat_write_entry v cluster 0x0000 disk) in
    if is_data_cluster cluster then freed else some disk

-- The sector goes back as it was read, but for the mark.
abbrev pub delete_entry : Volume → ℕ → ℕ × ℕ → Disk → Option (ℤ × Disk)
delete_entry v fuel (s, i) disk =
    let sector = read_sector (root_lba v s) disk in
    Option.map
      (λ after. (pos 0, write_sector (root_lba v s) (set sector (i * sizeof_dir_entry) 0xE5) after))
      (free_chain v fuel (first_cluster_lo (entry_at sector i)) disk)

unfoldable pub fat16_delete_file : Volume → ℕ → List ℕ → Disk → Option (ℤ × Disk)
fat16_delete_file v fuel name disk = elim (find_in_root v name 0 v.root_dir_sectors disk) [
  | none ↦ some (negsuc 0, disk)
  | some at ↦ delete_entry v fuel at disk
]

-- `memcpy(buffer + offset, src, n)`
abbrev pub memcpy_at : List ℕ → ℕ → List ℕ → ℕ → Option (List ℕ)
memcpy_at buffer offset src n =
    Option.map (λ out. take offset buffer ++ out) (memcpy (drop offset buffer) src n)

-- `to_copy`
abbrev pub amount : ℕ → ℕ → ℕ → ℕ
amount size buf_size bytes_read =
    let left = if ltb 512 (size - bytes_read) then 512 else size - bytes_read in
    if ltb buf_size (bytes_read + left) then buf_size - bytes_read else left

-- The loop of `fat16_read_file` over the sectors of a cluster, with how many are left.
unfoldable pub read_sectors : ℕ → ℕ → ℕ → ℕ → ℕ → ℕ → List ℕ → Disk → Option (ℕ × List ℕ)
read_sectors size buf_size lba sec zero bytes_read buffer disk = some (bytes_read, buffer)
read_sectors size buf_size lba sec (suc n) bytes_read buffer disk =
    let tmp = read_sector ((lba + sec) % 2 ^ 32) disk in
    let to_copy = amount size buf_size bytes_read in
    elim (ltb bytes_read size) [
      | false ↦ some (bytes_read, buffer)
      | true ↦ do
        copied ← memcpy_at buffer bytes_read tmp to_copy
        read_sectors size buf_size lba (suc sec) n (bytes_read + to_copy) copied disk
    ]

-- Its loop along the chain.
unfoldable pub read_chain : Volume → ℕ → ℕ → ℕ → ℕ → ℕ → List ℕ → Disk → Option (ℕ × List ℕ)
read_chain v zero size buf_size cluster bytes_read buffer disk = none
read_chain v (suc fuel) size buf_size cluster bytes_read buffer disk =
    elim (is_data_cluster cluster && ltb bytes_read size) [
      | false ↦ some (bytes_read, buffer)
      | true ↦ do
        out ←
            read_sectors size buf_size (cluster_to_lba v cluster) 0 v.sectors_per_cluster bytes_read
              buffer disk
        read_chain v fuel size buf_size (fat_read_entry v cluster disk) out.0 out.1 disk
    ]

unfoldable pub fat16_read_file : Volume → ℕ → List ℕ → List ℕ → ℕ → Disk → Option (ℤ × List ℕ)
fat16_read_file v fuel name buffer buf_size disk =
    elim (find_in_root v name 0 v.root_dir_sectors disk) [
      | none ↦ some (negsuc 0, buffer)
      | some at ↦
          let entry = root_entry v at disk in
          Option.map (λ out. (to_int out.0, out.1))
            (read_chain v fuel (file_size entry) buf_size (first_cluster_lo entry) 0 buffer disk)
    ]

-- The 512 bytes from an offset of the data, with zeros for what it does not have.
abbrev pub sector_data : List ℕ → ℕ → ℕ → List ℕ
sector_data content size offset =
    let to_copy = if ltb 512 (size - offset) then 512 else size - offset in
    if ltb offset size
    then take to_copy (drop offset content) ++ replicate (512 - to_copy) 0
    else replicate 512 0

-- The loop of `fat16_write_file` over the sectors of a cluster, with how many are left.
unfoldable pub write_sectors : List ℕ → ℕ → ℕ → ℕ → ℕ → ℕ → Disk → Disk
write_sectors content size offset lba sec zero disk = disk
write_sectors content size offset lba sec (suc n) disk =
    write_sectors content size offset lba (suc sec) n (
      write_sector ((lba + sec) % 2 ^ 32) (sector_data content size ((offset + sec * 512) % 2 ^ 32))
        disk)

-- The two writes to the table for a cluster that was allocated.
abbrev pub link_cluster : Volume → ℕ → ℕ → Disk → Disk
link_cluster v prev_cluster cluster disk =
    let marked = fat_write_entry v cluster 0xFFFF disk in
    if prev_cluster == 0 then marked else fat_write_entry v prev_cluster cluster marked

abbrev pub cluster_bytes : Volume → ℕ
cluster_bytes v = v.sectors_per_cluster * 512

-- The loop over the clusters, with how many are left: the first cluster, or `none` when the disk is
-- full, and the disk.
unfoldable pub write_clusters : Volume → List ℕ → ℕ → ℕ → ℕ → ℕ → ℕ → Disk → Option ℕ × Disk
write_clusters v content size c zero first_cluster prev_cluster disk = (some first_cluster, disk)
write_clusters v content size c (suc n) first_cluster prev_cluster disk =
    let cluster = fat_alloc_cluster v disk in
    elim (cluster == 0) [
      | true ↦ (none, disk)
      | false ↦
          write_clusters v content size (suc c) n (if c == 0 then cluster else first_cluster)
            cluster
            (write_sectors content size (c * cluster_bytes v % 2 ^ 32) (cluster_to_lba v cluster) 0
              v.sectors_per_cluster (link_cluster v prev_cluster cluster disk))
    ]

abbrev pub clusters_needed : Volume → ℕ → ℕ
clusters_needed v size =
    let needed = (size + cluster_bytes v - 1) % 2 ^ 32 / cluster_bytes v in
    if needed == 0 then 1 else needed

abbrev pub disk_full_text : List ℕ
disk_full_text =
    b'[' ∷ b'F' ∷ b'A' ∷ b'T' ∷ b'1' ∷ b'6' ∷ b']' ∷ b' ' ∷ b'E' ∷ b'R' ∷ b'R' ∷ b'O' ∷ b'R' ∷ b':'
    ∷ b' ' ∷ b'D' ∷ b'i' ∷ b's' ∷ b'k' ∷ b' ' ∷ b'f' ∷ b'u' ∷ b'l' ∷ b'l' ∷ b'!' ∷ 10 ∷ 0 ∷ []

abbrev pub root_full_text : List ℕ
root_full_text =
    b'[' ∷ b'F' ∷ b'A' ∷ b'T' ∷ b'1' ∷ b'6' ∷ b']' ∷ b' ' ∷ b'E' ∷ b'R' ∷ b'R' ∷ b'O' ∷ b'R' ∷ b':'
    ∷ b' ' ∷ b'R' ∷ b'o' ∷ b'o' ∷ b't' ∷ b' ' ∷ b'd' ∷ b'i' ∷ b'r' ∷ b'e' ∷ b'c' ∷ b't' ∷ b'o'
    ∷ b'r' ∷ b'y' ∷ b' ' ∷ b'f' ∷ b'u' ∷ b'l' ∷ b'l' ∷ b'!' ∷ 10 ∷ 0 ∷ []

-- A message, and the return of -1. `buf` is the buffer of `printf`.
abbrev pub fail : List ℕ → List ℕ → Disk → Screen → Option (ℤ × Disk × Screen)
fail buf text disk s = Option.map (λ out. (negsuc 0, disk, out.1)) (printf buf text [] s)

-- The new entry in a free slot.
abbrev pub enter_file : Volume → List ℕ → ℕ → ℕ → ℕ × ℕ → Disk → Disk
enter_file v name first_cluster size (s, i) disk =
    write_sector (root_lba v s)
      (put_entry (read_sector (root_lba v s) disk) i (new_entry name first_cluster size)) disk

abbrev pub finish_write :
    Volume → List ℕ → List ℕ → ℕ → Option ℕ × Disk → Screen → Option (ℤ × Disk × Screen)
finish_write v buf name size (none, disk) s = fail buf disk_full_text disk s
finish_write v buf name size (some first_cluster, disk) s =
    elim (free_in_root v 0 v.root_dir_sectors disk) [
      | none ↦ fail buf root_full_text disk s
      | some at ↦ some (pos 0, enter_file v name first_cluster size at disk, s)
    ]

-- `content` is the parameter `data`, of `size` bytes at least.
unfoldable pub fat16_write_file :
    Volume → ℕ → List ℕ → List ℕ → List ℕ → ℕ → Disk → Screen → Option (ℤ × Disk × Screen)
fat16_write_file v fuel buf name content size disk s = do
  deleted ← fat16_delete_file v fuel name disk
  if cluster_bytes v == 0 || ltb (length content) size
      then none
      else finish_write v buf name size
          (write_clusters v content size 0 (clusters_needed v size) 0 0 deleted.1) s
