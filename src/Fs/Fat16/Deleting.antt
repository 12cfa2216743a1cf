-- ===== src/Fs/Fat16/Deleting.antt =====
-- What `fat16_delete_file` of fs/fat16.c does to the table and to the root directory.
use black_hole_os.Prelude.{
  ℕ, zero, suc, ◌+◌, ◌*◌, ◌/◌, ◌%◌, ◌^◌, ◌<◌, ◌≤◌, ◌≡◌, refl, ◌∙◌, ap, arith, List, [], ◌∷◌, All,
  length, get_or, set, drop, length-set, get_or-set_self, Option, some, none, ◌==◌, if◌then◌else◌,
  Bool-cases, true, false, inl, inr,
}
use native.Mathlib.Nat.{mul-le-mul_right}
use black_hole_os.Prelude.Int.{pos}
use black_hole_os.Drivers.Ata.Disk.{Disk, read_sector, write_sector}
use black_hole_os.Fs.Fat16.Volume.{Volume, word_at, fat_read_entry}
use black_hole_os.Fs.Fat16.Sectors.{Sized, read_sector-write_sector, length-read_sector}
use black_hole_os.Fs.Fat16.Table.{HasTable, HasEntry}
use black_hole_os.Fs.Fat16.Chain.{Chain, mem, free_chain-Chain}
use black_hole_os.Fs.Fat16.Names.{fat_name_match}
use black_hole_os.Fs.Fat16.Root.{
  Scan, stop, here, beyond, find_in_sector, find_in_root, first_cluster_lo, entry_at, name_byte,
}
use black_hole_os.Fs.Fat16.Files.{fat16_delete_file, root_lba}

-- The regions of the disk: the table, the root directory behind it, and the data behind both.
pub record LaidOut (v : Volume) : Type 0 where
  pub table : HasTable v
  pub root_behind : v.fat_start_lba + v.num_fats * v.fat_size_sectors ≤ v.root_dir_start_lba
  pub data_behind : v.root_dir_start_lba + v.root_dir_sectors ≤ v.data_start_lba
  pub data_on_disk : v.data_start_lba ≤ 2 ^ 28

-- A slot of the root directory.
pub record IsSlot (v : Volume) (s i : ℕ) : Type 0 where
  pub sector_inside : s < v.root_dir_sectors
  pub entry_inside : i < 16

pub get_or-drop : (n i d : ℕ) (xs : List ℕ) → get_or (drop n xs) i d ≡ get_or xs (n + i) d
get_or-drop zero i d xs = ap (λ (k : ℕ). get_or xs k d) (omega arith)
get_or-drop (suc n) i d [] = refl
get_or-drop (suc n) i d (x ∷ xs) =
    get_or-drop n i d xs
    ∙ ap (λ (k : ℕ). get_or (x ∷ xs) k d) {x = suc (n + i)} {y = suc n + i} (omega arith)

-- A sector behind the first copy of the table has no entry of it.
pub fat_read_entry-behind :
    (v : Volume) (d l : ℕ) (buf : List ℕ) (disk : Disk)
    → HasTable v
    → HasEntry v d
    → v.fat_start_lba + v.num_fats * v.fat_size_sectors ≤ l
    → l < 2 ^ 28
    → length buf ≡ 512
    → fat_read_entry v d (write_sector l buf disk) ≡ fat_read_entry v d disk
unfolding fat_read_entry
fat_read_entry-behind v d l buf disk table has behind on_disk size =
    let within : 1 * v.fat_size_sectors ≤ v.num_fats * v.fat_size_sectors =
      mul-le-mul_right v.fat_size_sectors table.some_copy in
    let other : ((v.fat_start_lba + d * 2 / 512) % 2 ^ 32 % 2 ^ 28 == l % 2 ^ 28) ≡ false =
      ground (arith, has.inside, within) in
    ap (λ (b : List ℕ). word_at b (d * 2 % 512))
      (read_sector-write_sector ((v.fat_start_lba + d * 2 / 512) % 2 ^ 32) l buf disk size
        ∙ rw other refl)

find_in_sector-inside :
    (name sector : List ℕ) (i n k : ℕ) → find_in_sector name sector i n ≡ here k → k < i + n
unfolding find_in_sector
find_in_sector-inside name sector i zero k e = absurd (cc)
find_in_sector-inside name sector i (suc n) k e =
    let first = name_byte (entry_at sector i) 0 in
    let rest = λ (e' : find_in_sector name sector (suc i) n ≡ here k).
      find_in_sector-inside name sector (suc i) n k e' in
    elim (Bool-cases (first == 0)) [
      | inl end ↦ let e' = rw end at e in absurd (cc)
      | inr more ↦ elim (Bool-cases (first == 0xE5)) [
        | inl gone ↦ let less = rest (rw (more, gone) at e) in omega arith
        | inr live ↦ elim (Bool-cases (fat_name_match name (entry_at sector i))) [
          | inl match ↦
              let e' : here i ≡ here k = rw (more, live, match) at e in
              let same : i ≡ k = ap place e' in omega arith
          | inr differs ↦ let less = rest (rw (more, live, differs) at e) in omega arith
        ]
      ]
    ]
  where
    place : Scan → ℕ
    place stop = 0
    place (here i) = i
    place beyond = 0

find_in_root-inside :
    (v : Volume) (name : List ℕ) (s n s' i : ℕ) (disk : Disk)
    → find_in_root v name s n disk ≡ some (s', i)
    → (s' < s + n) × (i < 16)
unfolding find_in_root
find_in_root-inside v name s zero s' i disk e = absurd (cc)
find_in_root-inside v name s (suc n) s' i disk e =
    go found refl (λ e'. find_in_root-inside v name (suc s) n s' i disk e') e
  where
    sector : List ℕ
    sector = read_sector ((v.root_dir_start_lba + s) % 2 ^ 32) disk

    found : Scan
    found = find_in_sector name sector 0 16

    result : Scan → Option (ℕ × ℕ)
    result stop = none
    result (here k) = some (s, k)
    result beyond = find_in_root v name (suc s) n disk

    go :
        (scan : Scan)
        → found ≡ scan
        → (find_in_root v name (suc s) n disk ≡ some (s', i) → (s' < suc s + n) × (i < 16))
        → result scan ≡ some (s', i)
        → (s' < s + suc n) × (i < 16)
    go stop f rest e = absurd (cc)
    go (here k) f rest e =
        let less = find_in_sector-inside name sector 0 16 k f in
        let s_same : s ≡ s' = cc in let i_same : k ≡ i = cc in (omega arith, omega arith)
    go beyond f rest e = let (low, high) = rest e in (omega arith, high)

pub find_in_root-IsSlot :
    (v : Volume) (name : List ℕ) (s i : ℕ) (disk : Disk)
    → find_in_root v name 0 v.root_dir_sectors disk ≡ some (s, i)
    → IsSlot v s i
find_in_root-IsSlot v name s i disk e =
    let (low, high) = find_in_root-inside v name 0 v.root_dir_sectors s i disk e in
    record { sector_inside = omega arith; entry_inside = high }

-- On a volume whose regions lie behind each other, deleting a file that is found and whose chain
-- ends succeeds, given that the table has an entry for every cluster of the chain, and fuel for one
-- step more than the chain is long: the clusters of the chain are free, every other cluster of the
-- table has the entry that it had, and the slot of the file is marked.
pub fat16_delete_file-frees :
    (v : Volume) (fuel : ℕ) (name : List ℕ) (disk : Disk) (s i : ℕ) (xs : List ℕ)
    → LaidOut v
    → Sized disk
    → find_in_root v name 0 v.root_dir_sectors disk ≡ some (s, i)
    → Chain v disk (first_cluster_lo (entry_at (read_sector (root_lba v s) disk) i)) xs
    → All (HasEntry v) xs
    → length xs < fuel
    → (after : Disk) × (fat16_delete_file v fuel name disk ≡ some (pos 0, after))
      × ((d : ℕ)
          → HasEntry v d
          → fat_read_entry v d after ≡ (if mem d xs then 0 else fat_read_entry v d disk))
      × (name_byte (entry_at (read_sector (root_lba v s) after) i) 0 ≡ 0xE5)
unfolding fat16_delete_file
fat16_delete_file-frees v fuel name disk s i xs laid sized found chain entries enough =
    let slot = find_in_root-IsSlot v name s i disk found in
    let sector = read_sector (root_lba v s) disk in
    let marked = set sector (i * 32) 0xE5 in
    let size : length marked ≡ 512 =
      length-set sector (i * 32) 0xE5 ∙ length-read_sector (root_lba v s) disk sized in
    let (freed, run, sized', frees) =
      free_chain-Chain v fuel (first_cluster_lo (entry_at sector i)) xs disk laid.table entries
        sized chain enough in
    let near : root_lba v s ≡ v.root_dir_start_lba + s =
      omega (arith, slot.sector_inside, laid.data_behind, laid.data_on_disk) in
    let here : (root_lba v s % 2 ^ 28 == root_lba v s % 2 ^ 28) ≡ true = ground arith in
    (
      write_sector (root_lba v s) marked freed,
      rw (found, run, fat16_delete_file) refl,
      (λ d has.
          fat_read_entry-behind v d (root_lba v s) marked freed laid.table has
            (omega (arith, near, laid.root_behind))
            (omega (arith, near, slot.sector_inside, laid.data_behind, laid.data_on_disk)) size
          ∙ frees d has),
      rw (read_sector-write_sector (root_lba v s) (root_lba v s) marked freed size, here)
          (get_or-drop (i * 32) 0 0 marked
            ∙ ap (λ (k : ℕ). get_or marked k 0) {x = i * 32 + 0} {y = i * 32} (omega arith)
            ∙ get_or-set_self sector (i * 32) 0xE5 0
                (omega (arith, slot.entry_inside, length-read_sector (root_lba v s) disk sized))),
    )
