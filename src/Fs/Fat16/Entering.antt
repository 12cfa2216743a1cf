-- ===== src/Fs/Fat16/Entering.antt =====
-- A name that is missing is found after its entry has gone to the first free slot: fs/fat16.c.
use black_hole_os.Prelude.{
  ℕ, zero, suc, ◌+◌, ◌%◌, ◌^◌, ◌<◌, ◌≤◌, ◌≡◌, ◌≢◌, refl, sym, ◌∙◌, ap, arith, List, ◌==◌,
  if◌then◌else◌, true, false, inl, inr, Option, Option-cases, some, none,
}
use black_hole_os.Drivers.Ata.Disk.{Disk, read_sector, write_sector}
use black_hole_os.Fs.Fat16.Volume.{Volume}
use black_hole_os.Fs.Fat16.Root.{
  here, beyond, find_in_sector, find_in_root, free_in_sector, free_in_root, put_entry,
}
use black_hole_os.Fs.Fat16.Sectors.{Sized, length-read_sector, read_sector-write_sector}
use black_hole_os.Fs.Fat16.Slots.{
  IsNamed, free_in_sector-inside, length-put_entry, find-put_entry, find_beyond,
}
use black_hole_os.Fs.Fat16.Files.{root_lba}

module _ (v : Volume) (name : List ℕ) (disk : Disk) (sized : Sized disk)
    (root_fits : v.root_dir_start_lba + v.root_dir_sectors ≤ 2 ^ 28) where
  abbrev sector : ℕ → List ℕ
  sector s = read_sector (root_lba v s) disk

  missing_here :
      (s n j : ℕ)
      → find_in_root v name s (suc n) disk ≡ none
      → find_in_sector name (sector s) 0 16 ≢ here j
  unfolding find_in_root
  missing_here s n j missing e =
      let run : find_in_root v name s (suc n) disk ≡ some (s, j) = rw (e, find_in_root) refl in
      absurd (cc)

  missing_later :
      (s n : ℕ)
      → find_in_root v name s (suc n) disk ≡ none
      → find_in_sector name (sector s) 0 16 ≡ beyond
      → find_in_root v name (suc s) n disk ≡ none
  unfolding find_in_root
  missing_later s n missing e =
      let run : find_in_root v name s (suc n) disk ≡ find_in_root v name (suc s) n disk =
        rw (e, find_in_root) refl in
      sym run ∙ missing

  free_here :
      (s n i s' i' : ℕ)
      → free_in_sector (sector s) 0 16 ≡ some i
      → free_in_root v s (suc n) disk ≡ some (s', i')
      → (s ≡ s') × (i ≡ i')
  unfolding free_in_root
  free_here s n i s' i' e free =
      let run : free_in_root v s (suc n) disk ≡ some (s, i) = rw (e, free_in_root) refl in
      let same : ◌≡◌ {A = Option (ℕ × ℕ)} (some (s, i)) (some (s', i')) = sym run ∙ free in (cc, cc)

  free_later :
      (s n s' i' : ℕ)
      → free_in_sector (sector s) 0 16 ≡ none
      → free_in_root v s (suc n) disk ≡ some (s', i')
      → free_in_root v (suc s) n disk ≡ some (s', i')
  unfolding free_in_root
  free_later s n s' i' e free =
      let run : free_in_root v s (suc n) disk ≡ free_in_root v (suc s) n disk =
        rw (e, free_in_root) refl in
      sym run ∙ free

  -- A free slot lies in the directory.
  pub free_in_root-inside :
      (s n s' i : ℕ) → free_in_root v s n disk ≡ some (s', i) → (s ≤ s') × (s' < s + n) × (i < 16)
  unfolding free_in_root
  free_in_root-inside s zero s' i free = absurd (cc)
  free_in_root-inside s (suc n) s' i free = elim (Option-cases (free_in_sector (sector s) 0 16)) [
    | inl full ↦
        let (low, high, inside) =
          free_in_root-inside (suc s) n s' i (free_later s n s' i full free) in
        (omega arith, omega arith, inside)
    | inr (k, slot) ↦
        let (s_same, i_same) = free_here s n k s' i slot free in
        let (low, high) = free_in_sector-inside (sector s) 0 16 k slot in
        (omega arith, omega arith, omega arith)
  ]

  module _ (entry : List ℕ) (named : IsNamed name entry) (s' i : ℕ) (i_inside : i < 16) where
    abbrev entered : Disk
    entered = write_sector (root_lba v s') (put_entry (sector s') i entry) disk

    pub read_sector-entered :
        (l : ℕ)
        → read_sector l entered ≡ (
            if l % 2 ^ 28 == root_lba v s' % 2 ^ 28
            then put_entry (sector s') i entry
            else read_sector l disk)
    read_sector-entered l =
        read_sector-write_sector l (root_lba v s') (put_entry (sector s') i entry) disk (
          length-put_entry (sector s') i entry (length-read_sector (root_lba v s') disk sized)
            i_inside named.whole)

    pub find-entered :
        (s n : ℕ)
        → s + n ≤ v.root_dir_sectors
        → find_in_root v name s n disk ≡ none
        → free_in_root v s n disk ≡ some (s', i)
        → find_in_root v name s n entered ≡ some (s', i)
    unfolding find_in_root free_in_root
    find-entered s zero room missing free = absurd (cc)
    find-entered s (suc n) room missing free =
        let none_here = λ (j : ℕ). missing_here s n j missing in
        let size = length-read_sector (root_lba v s) disk sized in
        elim (Option-cases (free_in_sector (sector s) 0 16)) [
          | inl full ↦
              let passed = find_beyond name (sector s) size entry named 0 16 full none_here in
              let free' = free_later s n s' i full free in
              let (later, _, _) = free_in_root-inside (suc s) n s' i free' in
              let (_, last, _) = free_in_root-inside s (suc n) s' i free in
              let other : (root_lba v s % 2 ^ 28 == root_lba v s' % 2 ^ 28) ≡ false =
                ground (arith, later, last, root_fits) in
              let kept : read_sector (root_lba v s) entered ≡ sector s =
                read_sector-entered (root_lba v s) ∙ rw other refl in
              let run : find_in_root v name s (suc n) entered
                  ≡ find_in_root v name (suc s) n entered =
                rw (kept, passed, find_in_root) refl in
              run ∙ find-entered (suc s) n (omega arith) (missing_later s n missing passed) free'
          | inr (k, slot) ↦
              let (s_same, i_same) = free_here s n k s' i slot free in
              let here_now : (root_lba v s % 2 ^ 28 == root_lba v s' % 2 ^ 28) ≡ true =
                ground (arith, s_same) in
              let e : put_entry (sector s') i entry ≡ put_entry (sector s) i entry =
                ap (λ (t : ℕ). put_entry (sector t) i entry) (sym s_same) in
              let changed : read_sector (root_lba v s) entered ≡ put_entry (sector s) i entry =
                read_sector-entered (root_lba v s) ∙ rw here_now e in
              let found =
                find-put_entry name (sector s) size entry named 0 16 i (omega arith)
                  (slot ∙ ap some i_same) none_here in
              let run : find_in_root v name s (suc n) entered ≡ some (s, i) =
                rw (changed, found, find_in_root) refl in
              run ∙ ap (λ (t : ℕ). some (t, i)) s_same
        ]
