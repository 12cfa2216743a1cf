-- ===== src/Fs/Fat16/Reading.antt =====
-- `fat16_read_file` of fs/fat16.c against the bytes of a file's clusters.
use black_hole_os.Prelude.{
  ℕ, zero, suc, ◌+◌, ◌-◌, ◌*◌, ◌%◌, ◌^◌, ◌<◌, ◌≤◌, ◌≡◌, refl, sym, ◌∙◌, ap, ap₂, subst, arith, List,
  [], ◌∷◌, ◌++◌, length, length-append, take, drop, min, some, Bool-cases, inl, inr, ltb,
}
use black_hole_os.Drivers.Ata.Disk.{Disk, read_sector}
use black_hole_os.Libc.Stdio.{to_int}
use black_hole_os.Fs.Fat16.Volume.{Volume, cluster_to_lba, fat_read_entry}
use black_hole_os.Fs.Fat16.Sectors.{Sized, length-read_sector}
use black_hole_os.Fs.Fat16.Chain.{Chain}
use black_hole_os.Fs.Fat16.Pouring.{
  fits, poured, HasRoom, take-fits, memcpy_at-fits, poured-append, poured-none, poured-nil,
  HasRoom-poured,
}
use black_hole_os.Fs.Fat16.Root.{find_in_root, first_cluster_lo, file_size}
use black_hole_os.Fs.Fat16.Files.{
  memcpy_at, amount, read_sectors, read_chain, fat16_read_file, root_entry,
}

-- The bytes of `n` sectors, and of the clusters of a chain.
unfoldable pub sectors_data : ℕ → ℕ → ℕ → Disk → List ℕ
sectors_data lba sec zero disk = []
sectors_data lba sec (suc n) disk =
    read_sector ((lba + sec) % 2 ^ 32) disk ++ sectors_data lba (suc sec) n disk

abbrev pub cluster_data : Volume → Disk → ℕ → List ℕ
cluster_data v disk c = sectors_data (cluster_to_lba v c) 0 v.sectors_per_cluster disk

unfoldable pub chain_data : Volume → Disk → List ℕ → List ℕ
chain_data v disk [] = []
chain_data v disk (c ∷ cs) = cluster_data v disk c ++ chain_data v disk cs

length-sectors_data :
    (lba sec n : ℕ) (disk : Disk) → Sized disk → length (sectors_data lba sec n disk) ≡ n * 512
unfolding sectors_data
length-sectors_data lba sec zero disk sized = refl
length-sectors_data lba sec (suc n) disk sized =
    let first = read_sector ((lba + sec) % 2 ^ 32) disk in
    omega (
      arith,
      length-append first (sectors_data lba (suc sec) n disk),
      length-read_sector ((lba + sec) % 2 ^ 32) disk sized,
      length-sectors_data lba (suc sec) n disk sized,
    )

amount-fits :
    (size buf_size b : ℕ) (bytes : List ℕ)
    → length bytes ≡ 512
    → b ≤ min size buf_size
    → amount size buf_size b ≡ fits (min size buf_size - b) bytes
amount-fits size buf_size b bytes full below = ground arith

module _ (size buf_size : ℕ) where
  abbrev limit : ℕ
  limit = min size buf_size

  read_sectors-poured :
      (lba sec n b : ℕ) (front rest : List ℕ) (disk : Disk)
      → Sized disk
      → HasRoom limit b front rest
      → read_sectors size buf_size lba sec n b (front ++ rest) disk
        ≡ some (poured limit b front rest (sectors_data lba sec n disk))
  unfolding read_sectors sectors_data
  read_sectors-poured lba sec zero b front rest disk sized has =
      ap some (sym (poured-nil limit b front rest))
  read_sectors-poured lba sec (suc n) b front rest disk sized has =
      let tmp = read_sector ((lba + sec) % 2 ^ 32) disk in
      let more = sectors_data lba (suc sec) n disk in
      let full = length-read_sector ((lba + sec) % 2 ^ 32) disk sized in
      elim (Bool-cases (ltb b size)) [
        | inr end ↦
            rw (end, read_sectors)
              (ap some (sym (poured-none limit b front rest (tmp ++ more) (ground (arith, end)))))
        | inl inside ↦
            let count = amount-fits size buf_size b tmp full has.not_over in
            let copied : memcpy_at (front ++ rest) b tmp (fits (limit - b) tmp)
                ≡ some ((front ++ take (limit - b) tmp) ++ drop (fits (limit - b) tmp) rest) =
              subst
                (λ (k : ℕ).
                  memcpy_at (front ++ rest) k tmp (fits (limit - b) tmp)
                  ≡ some ((front ++ take (limit - b) tmp) ++ drop (fits (limit - b) tmp) rest))
                has.at_front (memcpy_at-fits front rest tmp (limit - b) has.room) in
            rw (inside, count, copied, read_sectors)
              (read_sectors-poured lba (suc sec) n (b + fits (limit - b) tmp)
                  (front ++ take (limit - b) tmp) (drop (fits (limit - b) tmp) rest) disk sized
                  (HasRoom-poured limit b front rest tmp has)
                ∙ ap some (poured-append limit b front rest tmp more))
      ]

  read_chain-poured :
      (v : Volume) (fuel c b : ℕ) (cs front rest : List ℕ) (disk : Disk)
      → Sized disk
      → Chain v disk c cs
      → length cs < fuel
      → HasRoom limit b front rest
      → read_chain v fuel size buf_size c b (front ++ rest) disk
        ≡ some (poured limit b front rest (chain_data v disk cs))
  unfolding read_chain chain_data
  read_chain-poured v zero c b cs front rest disk sized chain enough has = absurd (omega arith)
  read_chain-poured v (suc fuel) c b [] front rest disk sized chain enough has =
      rw (chain, read_chain) (ap some (sym (poured-nil limit b front rest)))
  read_chain-poured v (suc fuel) c b (x ∷ cs) front rest disk sized (here, inside, chain) enough
        has =
      let bytes = cluster_data v disk c in
      let next = fat_read_entry v c disk in
      elim (Bool-cases (ltb b size)) [
        | inr end ↦
            rw (inside, end, read_chain)
              (ap some (
                sym (
                  poured-none limit b front rest (cluster_data v disk x ++ chain_data v disk cs)
                    (ground (arith, end)))))
        | inl more ↦
            let first =
              read_sectors-poured (cluster_to_lba v c) 0 v.sectors_per_cluster b front rest disk
                sized has in
            rw (inside, more, first, here, read_chain)
              (read_chain-poured v fuel next (b + fits (limit - b) bytes) cs
                  (front ++ take (limit - b) bytes) (drop (fits (limit - b) bytes) rest) disk sized
                  chain (omega arith) (HasRoom-poured limit b front rest bytes has)
                ∙ ap some (poured-append limit b front rest bytes (chain_data v disk cs)))
      ]

-- When a file is found, its chain ends, and there is fuel for one step more than the chain is long,
-- reading it ends: it copies the bytes of the clusters, in the order of the chain, up to the size
-- of the file, the size of the buffer, or the end of the chain, and returns how many they are.
pub fat16_read_file-chain_data :
    (v : Volume) (fuel : ℕ) (name buffer : List ℕ) (buf_size : ℕ) (disk : Disk) (s i : ℕ)
    (cs : List ℕ)
    → Sized disk
    → find_in_root v name 0 v.root_dir_sectors disk ≡ some (s, i)
    → Chain v disk (first_cluster_lo (root_entry v (s, i) disk)) cs
    → length cs < fuel
    → min (file_size (root_entry v (s, i) disk)) buf_size ≤ length buffer
    → let room = min (file_size (root_entry v (s, i) disk)) buf_size in
      let n = min room (length (chain_data v disk cs)) in
      fat16_read_file v fuel name buffer buf_size disk
      ≡ some (to_int n, take n (chain_data v disk cs) ++ drop n buffer)
unfolding fat16_read_file
fat16_read_file-chain_data v fuel name buffer buf_size disk s i cs sized found chain enough long =
    let entry = root_entry v (s, i) disk in
    let room = min (file_size entry) buf_size in
    let bytes = chain_data v disk cs in
    let run =
      read_chain-poured (file_size entry) buf_size v fuel (first_cluster_lo entry) 0 cs [] buffer
        disk sized chain enough
        (record { at_front = refl; not_over = omega arith; room = omega arith }) in
    let count : 0 + fits (room - 0) bytes ≡ fits room bytes = omega arith in
    let whole : room - 0 ≡ room = omega arith in
    rw (found, run, whole, fat16_read_file)
      (ap₂ (λ (n : ℕ) (l : List ℕ). some (to_int n, l ++ drop (fits room bytes) buffer))
        {x = 0 + fits room bytes} {y = fits room bytes} (omega arith) (sym (take-fits room bytes)))
