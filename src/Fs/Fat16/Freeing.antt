-- ===== src/Fs/Fat16/Freeing.antt =====
-- `fat16_delete_file` of fs/fat16.c ends on every disk.
use black_hole_os.Prelude.{
  ℕ, zero, suc, ◌+◌, ◌*◌, ◌/◌, ◌%◌, ◌^◌, ◌<◌, ◌≤◌, ◌≡◌, ◌≢◌, refl, sym, ◌∙◌, ap, subst, arith, List,
  set, some, ◌==◌, if◌then◌else◌, Bool-cases, true, inl, inr, Option-cases,
}
use black_hole_os.Prelude.Int.{ℤ, negsuc, pos}
use black_hole_os.Drivers.Ata.Disk.{Disk, read_sector, write_sector}
use black_hole_os.Fs.Fat16.Volume.{
  Volume, word_at, fat_read_entry, fat_write_entry, fat_write_copies,
}
use black_hole_os.Fs.Fat16.Sectors.{Sized}
use black_hole_os.Fs.Fat16.Table.{
  put_word, entry_word, put_word-Sized, entry_word-put_word, first_sector, fat_write_entry-Sized,
}
use black_hole_os.Fs.Fat16.Root.{find_in_root, first_cluster_lo, entry_at}
use black_hole_os.Fs.Fat16.Files.{is_data_cluster, free_chain, fat16_delete_file, root_lba}

entry_word-sector :
    (l sector d : ℕ) (disk : Disk)
    → (l % 2 ^ 28 == sector % 2 ^ 28) ≡ true
    → entry_word l d disk ≡ entry_word sector d disk
unfolding read_sector
entry_word-sector l sector d disk same =
    let e : l % 2 ^ 28 ≡ sector % 2 ^ 28 = ground arith in
    ap (λ (k : ℕ). word_at (disk k) (d * 2 % 512)) e

-- Freeing an entry frees no other and takes none.
put_word-zero :
    (l sector c d : ℕ) (disk : Disk)
    → Sized disk
    → entry_word l d disk ≡ 0
    → entry_word l d (put_word sector c 0 disk) ≡ 0
put_word-zero l sector c d disk sized free =
    let read = entry_word-put_word l sector c d 0 disk sized in
    elim (Bool-cases (l % 2 ^ 28 == sector % 2 ^ 28)) [
      | inl here ↦ elim (Bool-cases (d * 2 % 512 == c * 2 % 512)) [
        | inl same ↦ read ∙ rw (here, same) refl
        | inr apart ↦ read ∙ rw (here, apart) (sym (entry_word-sector l sector d disk here) ∙ free)
      ]
      | inr other ↦ read ∙ rw other free
    ]

copies-zero :
    (v : Volume) (l c d f n : ℕ) (disk : Disk)
    → Sized disk
    → entry_word l d disk ≡ 0
    → entry_word l d (fat_write_copies v c 0 f n disk) ≡ 0
unfolding fat_write_copies
copies-zero v l c d f zero disk sized free = free
copies-zero v l c d f (suc n) disk sized free =
    let sector = (v.fat_start_lba + f * v.fat_size_sectors + c * 2 / 512) % 2 ^ 32 in
    copies-zero v l c d (suc f) n (put_word sector c 0 disk) (put_word-Sized sector c 0 disk sized)
      (put_word-zero l sector c d disk sized free)

fat_write_entry-zero :
    (v : Volume) (c d : ℕ) (disk : Disk)
    → Sized disk
    → fat_read_entry v d disk ≡ 0
    → fat_read_entry v d (fat_write_entry v c 0 disk) ≡ 0
unfolding fat_read_entry fat_write_entry
fat_write_entry-zero v c d disk sized free =
    copies-zero v (first_sector v d) c d 0 v.num_fats disk sized free

fat_write_entry-frees :
    (v : Volume) (c : ℕ) (disk : Disk)
    → Sized disk
    → 0 < v.num_fats
    → fat_read_entry v c (fat_write_entry v c 0 disk) ≡ 0
unfolding fat_read_entry fat_write_entry fat_write_copies
fat_write_entry-frees v c disk sized some_copy = freed v.num_fats some_copy
  where
    freed : (n : ℕ) → 0 < n → entry_word (first_sector v c) c (fat_write_copies v c 0 0 n disk) ≡ 0
    freed zero positive = absurd (omega arith)
    freed (suc n) positive =
        let sector = (v.fat_start_lba + 0 * v.fat_size_sectors + c * 2 / 512) % 2 ^ 32 in
        let here : (first_sector v c % 2 ^ 28 == sector % 2 ^ 28) ≡ true = ground arith in
        let same : (c * 2 % 512 == c * 2 % 512) ≡ true = ground arith in
        copies-zero v (first_sector v c) c c 1 n (put_word sector c 0 disk)
          (put_word-Sized sector c 0 disk sized)
          (entry_word-put_word (first_sector v c) sector c c 0 disk sized ∙ rw (here, same) refl)

-- How many of the first `n` clusters are in use.
abbrev in_use : ℕ → ℕ
in_use entry = if entry == 0 then 0 else 1

unfoldable used : Volume → Disk → ℕ → ℕ
used v disk zero = 0
used v disk (suc n) = used v disk n + in_use (fat_read_entry v n disk)

used-le : (v : Volume) (disk : Disk) (n : ℕ) → used v disk n ≤ n
unfolding used
used-le v disk zero = omega arith
used-le v disk (suc n) = ground (arith, used-le v disk n)

module _ (v : Volume) (old new : Disk)
    (keeps : (d : ℕ) → fat_read_entry v d old ≡ 0 → fat_read_entry v d new ≡ 0) where
  used_mono : (n : ℕ) → used v new n ≤ used v old n
  unfolding used
  used_mono zero = omega arith
  used_mono (suc n) = elim (Bool-cases (fat_read_entry v n old == 0)) [
    | inl free ↦ ground (arith, free, keeps n (ground arith), used_mono n)
    | inr taken ↦ ground (arith, taken, used_mono n)
  ]

  used_less :
      (c n : ℕ)
      → c < n
      → fat_read_entry v c old ≢ 0
      → fat_read_entry v c new ≡ 0
      → used v new n < used v old n
  unfolding used
  used_less c zero inside before after = absurd (omega arith)
  used_less c (suc n) inside before after = elim (Bool-cases (c == n)) [
    | inl same ↦
        let e : c ≡ n = ground arith in
        ground (
          arith,
          subst (λ (k : ℕ). fat_read_entry v k old ≢ 0) e before,
          subst (λ (k : ℕ). fat_read_entry v k new ≡ 0) e after,
          used_mono n,
        )
    | inr apart ↦
        let less = used_less c n (ground arith) before after in
        elim (Bool-cases (fat_read_entry v n old == 0)) [
          | inl free ↦ ground (arith, free, keeps n (ground arith), less)
          | inr taken ↦ ground (arith, taken, less)
        ]
  ]

free_chain_zero :
    (v : Volume) (fuel : ℕ) (disk : Disk) → 0 < fuel → free_chain v fuel 0 disk ≡ some disk
unfolding free_chain
free_chain_zero v zero disk enough = absurd (omega arith)
free_chain_zero v (suc fuel) disk enough = refl

free_chain-ends :
    (v : Volume) (fuel cluster : ℕ) (disk : Disk)
    → Sized disk
    → 0 < v.num_fats
    → used v disk (2 ^ 16) + 2 ≤ fuel
    → (after : Disk) × (free_chain v fuel cluster disk ≡ some after)
unfolding free_chain
free_chain-ends v zero cluster disk sized some_copy enough = absurd (omega arith)
free_chain-ends v (suc fuel) cluster disk sized some_copy enough =
    elim (Bool-cases (is_data_cluster cluster)) [
      | inr done ↦ (disk, rw done refl)
      | inl inside ↦
          let freed = fat_write_entry v cluster 0 disk in
          let next = fat_read_entry v cluster disk in
          let zeros = λ (d : ℕ). fat_write_entry-zero v cluster d disk sized in
          let mono = used_mono v disk freed zeros (2 ^ 16) in
          let sized' = fat_write_entry-Sized v cluster 0 disk sized in
          elim (Bool-cases (next == 0)) [
            | inl last ↦
                let e : next ≡ 0 = ground arith in
                (freed, rw (inside, e) (free_chain_zero v fuel freed (omega arith)))
            | inr more ↦
                let less =
                  used_less v disk freed zeros cluster (2 ^ 16) (ground arith)
                    (λ e. ground (arith, more, e))
                    (fat_write_entry-frees v cluster disk sized some_copy) in
                let (after, run) =
                  free_chain-ends v fuel next freed sized' some_copy (omega arith) in
                (after, rw (inside, run) refl)
          ]
    ]

-- If the volume has a copy of the table at least, then with fuel for every entry that a table can
-- have, deleting a file ends on every disk whose sectors have 512 bytes, also when its chain of
-- clusters runs in a circle.
pub fat16_delete_file-ends :
    (v : Volume) (fuel : ℕ) (name : List ℕ) (disk : Disk)
    → Sized disk
    → 0 < v.num_fats
    → 2 ^ 16 + 2 ≤ fuel
    → (out : ℤ × Disk) × (fat16_delete_file v fuel name disk ≡ some out)
unfolding fat16_delete_file
fat16_delete_file-ends v fuel name disk sized some_copy enough =
    elim (Option-cases (find_in_root v name 0 v.root_dir_sectors disk)) [
      | inl absent ↦ ((negsuc 0, disk), rw (absent, fat16_delete_file) refl)
      | inr ((s, i), at) ↦
          let sector = read_sector (root_lba v s) disk in
          let (after, run) =
            free_chain-ends v fuel (first_cluster_lo (entry_at sector i)) disk sized some_copy
              (omega (arith, used-le v disk (2 ^ 16))) in
          (
            (pos 0, write_sector (root_lba v s) (set sector (i * 32) 0xE5) after),
            rw (at, run, fat16_delete_file) refl,
          )
    ]
