-- ===== src/Fs/Fat16/Regions.antt =====
-- What the writes of fs/fat16.c keep: the table's behind the table, and the data's on the other
-- clusters.
use black_hole_os.Prelude.{
  ℕ, zero, suc, ◌+◌, ◌-◌, ◌*◌, ◌/◌, ◌%◌, ◌^◌, ◌<◌, ◌≤◌, ◌≡◌, ◌≢◌, refl, ◌∙◌, ap₂, arith, List, [],
  ◌++◌, length, length-append, length-replicate, take, drop, replicate, ltb, ◌==◌, if◌then◌else◌,
  Bool-cases, true, false, inl, inr, ◌⊎◌,
}
use native.Mathlib.Nat.{mul-le-mul_right}
use black_hole_os.Drivers.Ata.Disk.{Disk, read_sector, write_sector}
use black_hole_os.Fs.Fat16.Volume.{
  Volume, cluster_to_lba, fat_read_entry, fat_write_entry, fat_write_copies, set_word,
}
use black_hole_os.Fs.Fat16.Sectors.{
  Sized, length-set_word, read_sector-write_sector, write_sector-Sized, length-read_sector,
}
use black_hole_os.Fs.Fat16.Table.{HasTable, HasEntry, put_word, put_word-Sized}
use black_hole_os.Fs.Fat16.Deleting.{LaidOut, fat_read_entry-behind}
use black_hole_os.Fs.Fat16.Pouring.{length-take, length-drop}
use black_hole_os.Fs.Fat16.Reading.{sectors_data}
use black_hole_os.Fs.Fat16.Files.{sector_data, write_sectors}

-- A volume whose table has the entries, and whose disk has the sectors, of the clusters that the
-- allocation looks at.
pub record IsRoomy (v : Volume) : Type 0 where
  pub laid : LaidOut v
  pub wide : 8 ≤ v.fat_size_sectors
  pub some_sectors : 0 < v.sectors_per_cluster
  pub byte_sectors : v.sectors_per_cluster < 2 ^ 8
  pub data_fits : v.data_start_lba + 2046 * v.sectors_per_cluster ≤ 2 ^ 28

abbrev pub table_end : Volume → ℕ
table_end v = v.fat_start_lba + v.num_fats * v.fat_size_sectors

-- A cluster that the allocation can hand out.
pub record IsCluster (c : ℕ) : Type 0 where
  pub low : 2 ≤ c
  pub high : c < 2048

pub IsCluster-HasEntry : (v : Volume) (c : ℕ) → IsRoomy v → IsCluster c → HasEntry v c
IsCluster-HasEntry v c roomy is = record { inside = omega (arith, roomy.wide, is.high) }

-- Reading behind the table what a write to the table leaves.
read_sector-put_word :
    (l sector c value : ℕ) (disk : Disk)
    → Sized disk
    → l < 2 ^ 28
    → sector < l
    → read_sector l (put_word sector c value disk) ≡ read_sector l disk
read_sector-put_word l sector c value disk sized on_disk before =
    let other : (l % 2 ^ 28 == sector % 2 ^ 28) ≡ false = ground arith in
    read_sector-write_sector l sector (set_word (read_sector sector disk) (c * 2 % 512) value) disk
      (length-set_word (read_sector sector disk) (c * 2 % 512) value
        ∙ length-read_sector sector disk sized)
    ∙ rw other refl

copies-behind :
    (v : Volume) (c value f n l : ℕ) (disk : Disk)
    → HasEntry v c
    → f + n ≤ v.num_fats
    → table_end v ≤ l
    → l < 2 ^ 28
    → Sized disk
    → read_sector l (fat_write_copies v c value f n disk) ≡ read_sector l disk
unfolding fat_write_copies
copies-behind v c value f zero l disk has count behind on_disk sized = refl
copies-behind v c value f (suc n) l disk has count behind on_disk sized =
    let sector = (v.fat_start_lba + f * v.fat_size_sectors + c * 2 / 512) % 2 ^ 32 in
    let step : suc f * v.fat_size_sectors ≡ f * v.fat_size_sectors + v.fat_size_sectors =
      grind arith in
    let within : suc f * v.fat_size_sectors ≤ v.num_fats * v.fat_size_sectors =
      mul-le-mul_right v.fat_size_sectors (omega arith) in
    copies-behind v c value (suc f) n l (put_word sector c value disk) has (omega arith) behind
      on_disk (put_word-Sized sector c value disk sized)
    ∙ read_sector-put_word l sector c value disk sized on_disk
        (omega (arith, step, within, has.inside))

pub fat_write_entry-behind :
    (v : Volume) (c value l : ℕ) (disk : Disk)
    → HasEntry v c
    → table_end v ≤ l
    → l < 2 ^ 28
    → Sized disk
    → read_sector l (fat_write_entry v c value disk) ≡ read_sector l disk
unfolding fat_write_entry
fat_write_entry-behind v c value l disk has behind on_disk sized =
    copies-behind v c value 0 v.num_fats l disk has (omega arith) behind on_disk sized

pub length-sector_data :
    (content : List ℕ) (size offset : ℕ)
    → size ≤ length content
    → length (sector_data content size offset) ≡ 512
length-sector_data content size offset enough =
    let to_copy = if ltb 512 (size - offset) then 512 else size - offset in
    elim (Bool-cases (ltb offset size)) [
      | inr behind ↦ rw behind (length-replicate {A = ℕ} 512 0)
      | inl inside ↦
          let few : to_copy ≤ length (drop offset content) =
            ground (arith, length-drop offset content) in
          let small : to_copy ≤ 512 = ground arith in
          rw inside (
            omega (
              arith,
              length-append (take to_copy (drop offset content)) (replicate (512 - to_copy) 0),
              length-take to_copy (drop offset content) few,
              length-replicate {A = ℕ} (512 - to_copy) 0,
              small,
            ))
    ]

-- The bytes that go to `n` sectors of a cluster.
unfoldable pub chunk : List ℕ → ℕ → ℕ → ℕ → ℕ → List ℕ
chunk content size offset sec zero = []
chunk content size offset sec (suc n) =
    sector_data content size ((offset + sec * 512) % 2 ^ 32)
    ++ chunk content size offset (suc sec) n

module _ (content : List ℕ) (size : ℕ) (enough : size ≤ length content) where
  pub write_sectors-Sized :
      (offset lba sec n : ℕ) (disk : Disk)
      → Sized disk
      → Sized (write_sectors content size offset lba sec n disk)
  unfolding write_sectors
  write_sectors-Sized offset lba sec zero disk sized = sized
  write_sectors-Sized offset lba sec (suc n) disk sized =
      let bytes = sector_data content size ((offset + sec * 512) % 2 ^ 32) in
      write_sectors-Sized offset lba (suc sec) n (write_sector ((lba + sec) % 2 ^ 32) bytes disk) (
        write_sector-Sized ((lba + sec) % 2 ^ 32) bytes disk
          (length-sector_data content size ((offset + sec * 512) % 2 ^ 32) enough) sized)

  -- A sector outside is as before.
  pub write_sectors-outside :
      (offset lba sec n l : ℕ) (disk : Disk)
      → lba + sec + n ≤ 2 ^ 28
      → l < 2 ^ 28
      → (l < lba + sec) ⊎ (lba + sec + n ≤ l)
      → read_sector l (write_sectors content size offset lba sec n disk) ≡ read_sector l disk
  unfolding write_sectors
  write_sectors-outside offset lba sec zero l disk fits on_disk out = refl
  write_sectors-outside offset lba sec (suc n) l disk fits on_disk out =
      let bytes = sector_data content size ((offset + sec * 512) % 2 ^ 32) in
      let other : (l % 2 ^ 28 == (lba + sec) % 2 ^ 32 % 2 ^ 28) ≡ false = ground arith in
      write_sectors-outside offset lba (suc sec) n l
        (write_sector ((lba + sec) % 2 ^ 32) bytes disk) (omega arith) on_disk (omega arith)
      ∙ read_sector-write_sector l ((lba + sec) % 2 ^ 32) bytes disk
          (length-sector_data content size ((offset + sec * 512) % 2 ^ 32) enough)
      ∙ rw other refl

  -- The sectors inside have the bytes.
  pub sectors_data-write_sectors :
      (offset lba sec n : ℕ) (disk : Disk)
      → lba + sec + n ≤ 2 ^ 28
      → sectors_data lba sec n (write_sectors content size offset lba sec n disk)
        ≡ chunk content size offset sec n
  unfolding write_sectors sectors_data chunk
  sectors_data-write_sectors offset lba sec zero disk fits = refl
  sectors_data-write_sectors offset lba sec (suc n) disk fits =
      let bytes = sector_data content size ((offset + sec * 512) % 2 ^ 32) in
      let first = write_sector ((lba + sec) % 2 ^ 32) bytes disk in
      let here : ((lba + sec) % 2 ^ 32 % 2 ^ 28 == (lba + sec) % 2 ^ 32 % 2 ^ 28) ≡ true =
        ground arith in
      ap₂ (λ (l r : List ℕ). l ++ r)
        (write_sectors-outside offset lba (suc sec) n ((lba + sec) % 2 ^ 32) first (omega arith)
            (omega arith) (inl (omega arith))
          ∙ read_sector-write_sector ((lba + sec) % 2 ^ 32) ((lba + sec) % 2 ^ 32) bytes disk
              (length-sector_data content size ((offset + sec * 512) % 2 ^ 32) enough)
          ∙ rw here refl)
        (sectors_data-write_sectors offset lba (suc sec) n first (omega arith))

  -- Writing data writes no entry of the table.
  pub fat_read_entry-write_sectors :
      (v : Volume) (d offset lba sec n : ℕ) (disk : Disk)
      → HasTable v
      → HasEntry v d
      → table_end v ≤ lba + sec
      → lba + sec + n ≤ 2 ^ 28
      → fat_read_entry v d (write_sectors content size offset lba sec n disk)
        ≡ fat_read_entry v d disk
  unfolding write_sectors
  fat_read_entry-write_sectors v d offset lba sec zero disk table has behind fits = refl
  fat_read_entry-write_sectors v d offset lba sec (suc n) disk table has behind fits =
      let bytes = sector_data content size ((offset + sec * 512) % 2 ^ 32) in
      fat_read_entry-write_sectors v d offset lba (suc sec) n
        (write_sector ((lba + sec) % 2 ^ 32) bytes disk) table has (omega arith) (omega arith)
      ∙ fat_read_entry-behind v d ((lba + sec) % 2 ^ 32) bytes disk table has (omega arith)
          (omega arith) (length-sector_data content size ((offset + sec * 512) % 2 ^ 32) enough)

pub sectors_data-agree :
    (lba sec n : ℕ) (old new : Disk)
    → lba + sec + n ≤ 2 ^ 28
    → ((l : ℕ) → lba + sec ≤ l → l < lba + sec + n → read_sector l new ≡ read_sector l old)
    → sectors_data lba sec n new ≡ sectors_data lba sec n old
unfolding sectors_data
sectors_data-agree lba sec zero old new fits same = refl
sectors_data-agree lba sec (suc n) old new fits same =
    ap₂ (λ (l r : List ℕ). l ++ r) (same ((lba + sec) % 2 ^ 32) (omega arith) (omega arith))
      (sectors_data-agree lba (suc sec) n old new (omega arith)
        (λ l low high. same l (omega arith) (omega arith)))

-- Where the sectors of a cluster lie, and that those of two clusters lie apart.
pub record Place (v : Volume) (c : ℕ) : Type 0 where
  pub behind : v.data_start_lba ≤ cluster_to_lba v c
  pub fits : cluster_to_lba v c + v.sectors_per_cluster ≤ 2 ^ 28

module _ (v : Volume) (roomy : IsRoomy v) where
  cluster_to_lba-at :
      (c k : ℕ)
      → c ≡ k + 2
      → k < 2046
      → (cluster_to_lba v c ≡ v.data_start_lba + k * v.sectors_per_cluster)
        × (v.data_start_lba + k * v.sectors_per_cluster + v.sectors_per_cluster ≤ 2 ^ 28)
  unfolding cluster_to_lba
  cluster_to_lba-at c k e small =
      let index : (c + (2 ^ 32 - 2)) % 2 ^ 32 ≡ k = omega arith in
      let step : suc k * v.sectors_per_cluster ≡ k * v.sectors_per_cluster + v.sectors_per_cluster =
        grind arith in
      let within : suc k * v.sectors_per_cluster ≤ 2046 * v.sectors_per_cluster =
        mul-le-mul_right v.sectors_per_cluster small in
      let high = v.data_start_lba + k * v.sectors_per_cluster + v.sectors_per_cluster in
      (
        rw index (omega (arith, roomy.data_fits, step, within)),
        omega (arith, roomy.data_fits, step, within),
      )

  pub IsCluster-Place : (c : ℕ) → IsCluster c → Place v c
  IsCluster-Place c is =
      let (at, end) =
        cluster_to_lba-at c (c - 2) (omega (arith, is.low)) (omega (arith, is.low, is.high)) in
      record { behind = omega (arith, at); fits = omega (arith, at, end) }

  apart_below :
      (c d : ℕ)
      → IsCluster c
      → IsCluster d
      → c < d
      → cluster_to_lba v c + v.sectors_per_cluster ≤ cluster_to_lba v d
  apart_below c d is_c is_d less =
      let (at_c, _) =
        cluster_to_lba-at c (c - 2) (omega (arith, is_c.low))
          (omega (arith, is_c.low, is_c.high)) in
      let (at_d, _) =
        cluster_to_lba-at d (d - 2) (omega (arith, is_d.low))
          (omega (arith, is_d.low, is_d.high)) in
      let step : suc (c - 2) * v.sectors_per_cluster
          ≡ (c - 2) * v.sectors_per_cluster + v.sectors_per_cluster =
        grind arith in
      let within : suc (c - 2) * v.sectors_per_cluster ≤ (d - 2) * v.sectors_per_cluster =
        mul-le-mul_right v.sectors_per_cluster (omega (arith, is_c.low)) in
      omega (arith, at_c, at_d, step, within)

  pub clusters_apart :
      (c d : ℕ)
      → IsCluster c
      → IsCluster d
      → c ≢ d
      → (cluster_to_lba v c + v.sectors_per_cluster ≤ cluster_to_lba v d)
        ⊎ (cluster_to_lba v d + v.sectors_per_cluster ≤ cluster_to_lba v c)
  clusters_apart c d is_c is_d ne = elim (Bool-cases (ltb c d)) [
    | inl less ↦ inl (apart_below c d is_c is_d (ground arith))
    | inr more ↦ inr (apart_below d c is_d is_c (ground (arith, ne)))
  ]
