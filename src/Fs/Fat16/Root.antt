-- ===== src/Fs/Fat16/Root.antt =====
-- fs/fat16.c: the loops over the root directory, and its listing.
use mathlib.Core.Option
use black_hole_os.Prelude.{
  ℕ, zero, suc, ◌+◌, ◌*◌, ◌/◌, ◌%◌, ◌^◌, Bool, true, false, ◌||◌, ◌>>=◌, Option, some, none, List,
  [], ◌∷◌, ◌++◌, get_or, set, take, drop, replicate, ◌==◌, if◌then◌else◌, bit_and,
}
use black_hole_os.Drivers.Vga.{Screen}
use black_hole_os.Drivers.Ata.Disk.{Disk, read_sector}
use black_hole_os.Libc.Stdio.{word, string, printf}
use black_hole_os.Fs.Fat16.Volume.{Volume, word_at, set_word, dword_at, set_dword}
use black_hole_os.Fs.Fat16.Names.{to_fat_name, fat_name_match}

-- `sizeof(fat16_dir_entry_t)`, and the fields that the code uses.
abbrev pub sizeof_dir_entry : ℕ
sizeof_dir_entry = 32

abbrev pub entries_per_sector : ℕ
entries_per_sector = 512 / sizeof_dir_entry

-- `entries[i]`
abbrev pub entry_at : List ℕ → ℕ → List ℕ
entry_at sector i = drop (i * sizeof_dir_entry) sector

abbrev pub name_byte : List ℕ → ℕ → ℕ
name_byte entry j = get_or entry j 0

abbrev pub attr : List ℕ → ℕ
attr entry = get_or entry 11 0

abbrev pub first_cluster_lo : List ℕ → ℕ
first_cluster_lo entry = word_at entry 26

abbrev pub file_size : List ℕ → ℕ
file_size entry = dword_at entry 28

-- How a loop over the entries of a sector ends: at the end of the directory, at an entry, or behind
-- the last entry.
pub data Scan : Type 0 where
  stop : Scan
  here : ℕ → Scan
  beyond : Scan

-- The loop over a sector in `fat16_read_file` and in `fat16_delete_file`, with how many entries are
-- left.
unfoldable pub find_in_sector : List ℕ → List ℕ → ℕ → ℕ → Scan
find_in_sector name sector i zero = beyond
find_in_sector name sector i (suc n) =
    let next = find_in_sector name sector (suc i) n in
    let first = name_byte (entry_at sector i) 0 in
    if first == 0x00
    then stop
    else if first == 0xE5
    then next
    else if fat_name_match name (entry_at sector i)
    then here i
    else next

-- The loop over the sectors, and `none` is the return of -1 from either loop or from behind both.
unfoldable pub find_in_root : Volume → List ℕ → ℕ → ℕ → Disk → Option (ℕ × ℕ)
find_in_root v name s zero disk = none
find_in_root v name s (suc n) disk =
    elim (find_in_sector name (read_sector ((v.root_dir_start_lba + s) % 2 ^ 32) disk) 0
      entries_per_sector) [
        | stop ↦ none
        | here i ↦ some (s, i)
        | beyond ↦ find_in_root v name (suc s) n disk
      ]

-- The loop over a sector in `fat16_write_file` that looks for a free slot.
unfoldable pub free_in_sector : List ℕ → ℕ → ℕ → Option ℕ
free_in_sector sector i zero = none
free_in_sector sector i (suc n) =
    let next = free_in_sector sector (suc i) n in
    let first = name_byte (entry_at sector i) 0 in
    if first == 0x00 || first == 0xE5 then some i else next

unfoldable pub free_in_root : Volume → ℕ → ℕ → Disk → Option (ℕ × ℕ)
free_in_root v s zero disk = none
free_in_root v s (suc n) disk =
    elim (free_in_sector (read_sector ((v.root_dir_start_lba + s) % 2 ^ 32) disk) 0
      entries_per_sector) [ some i ↦ some (s, i) | none ↦ free_in_root v (suc s) n disk ]

-- The entry that `fat16_write_file` fills in.
abbrev pub new_entry : List ℕ → ℕ → ℕ → List ℕ
new_entry name first_cluster size =
    let entry = replicate sizeof_dir_entry 0 in
    let entry = to_fat_name name entry in
    let entry = set entry 11 0x20 in
    let entry = set_word entry 26 first_cluster in set_dword entry 28 size

abbrev pub put_entry : List ℕ → ℕ → List ℕ → List ℕ
put_entry sector i entry = take (i * sizeof_dir_entry) sector ++ (entry ++ entry_at sector (suc i))

-- The bytes of a name that are no spaces: `name[n++] = entries[i].name[j]`, for `n` bytes from `j`.
unfoldable pub shown_bytes : List ℕ → ℕ → ℕ → List ℕ
shown_bytes entry j zero = []
shown_bytes entry j (suc n) =
    let next = shown_bytes entry (suc j) n in
    if name_byte entry j == b' ' then next else name_byte entry j ∷ next

unfoldable pub shown_name : List ℕ → List ℕ
shown_name entry =
    if name_byte entry 8 == b' '
    then shown_bytes entry 0 8
    else shown_bytes entry 0 8 ++ b'.' ∷ shown_bytes entry 8 3

abbrev pub entry_text : List ℕ
entry_text =
    b' ' ∷ b' ' ∷ b'%' ∷ b'-' ∷ b'1' ∷ b'3' ∷ b's' ∷ b' ' ∷ b'%' ∷ b'u' ∷ b' ' ∷ b'b' ∷ b'y' ∷ b't'
    ∷ b'e' ∷ b's' ∷ 10 ∷ 0 ∷ []

abbrev pub empty_text : List ℕ
empty_text =
    b' ' ∷ b' ' ∷ b'(' ∷ b'e' ∷ b'm' ∷ b'p' ∷ b't' ∷ b'y' ∷ b' ' ∷ b'd' ∷ b'i' ∷ b'r' ∷ b'e' ∷ b'c'
    ∷ b't' ∷ b'o' ∷ b'r' ∷ b'y' ∷ b')' ∷ 10 ∷ 0 ∷ []

-- `buf` is the buffer of `printf`.
module _ (buf : List ℕ) where
  abbrev pub print_entry : List ℕ → Screen → Option Screen
  print_entry entry s =
      Option.map (λ out. out.1)
        (printf buf entry_text (string (shown_name entry ++ 0 ∷ []) ∷ word (file_size entry) ∷ [])
          s)

  -- The loop of `fat16_list_root` over a sector: whether it met the end of the directory, the
  -- count, and the screen.
  unfoldable pub list_sector : List ℕ → ℕ → ℕ → ℕ → Screen → Option (Bool × ℕ × Screen)
  list_sector sector i zero file_count s = some (false, file_count, s)
  list_sector sector i (suc n) file_count s =
      let entry = entry_at sector i in
      let next = list_sector sector (suc i) n file_count s in
      let printed : Option (Bool × ℕ × Screen) = (do
        s ← print_entry entry s
        list_sector sector (suc i) n (suc file_count) s) in
      if name_byte entry 0 == 0x00
      then some (true, file_count, s)
      else if name_byte entry 0 == 0xE5
      then next
      else if bit_and (attr entry) 0x08 == 0
      then (if bit_and (attr entry) 0x0F == 0 then printed else next)
      else next

  unfoldable pub list_sectors : Volume → ℕ → ℕ → ℕ → Disk → Screen → Option (ℕ × Screen)
  list_sectors v s zero file_count disk screen = some (file_count, screen)
  list_sectors v s (suc n) file_count disk screen = do
    out ←
        list_sector (read_sector ((v.root_dir_start_lba + s) % 2 ^ 32) disk) 0 entries_per_sector
          file_count screen
    if out.0 then some (out.1, out.2) else list_sectors v (suc s) n out.1 disk out.2

  unfoldable pub fat16_list_root : Volume → Disk → Screen → Option Screen
  fat16_list_root v disk screen = do
    out ← list_sectors v 0 v.root_dir_sectors 0 disk screen
    if out.0 == 0
        then Option.map (λ shown. shown.1) (printf buf empty_text [] out.1)
        else some out.1
