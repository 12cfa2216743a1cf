-- ===== src/Fs/Fat16/Table.antt =====
-- The file allocation table of fs/fat16.c as a map from clusters to entries.
use black_hole_os.Prelude.{
  ℕ, zero, suc, ◌+◌, ◌*◌, ◌/◌, ◌%◌, ◌^◌, ◌<◌, ◌≤◌, ◌≡◌, ◌≢◌, refl, ◌∙◌, arith, ◌==◌, if◌then◌else◌,
  Bool-cases, true, false, inl, inr, ◌⊎◌, length,
}
use native.Mathlib.Nat.{mul-le-mul_right}
use black_hole_os.Drivers.Ata.Disk.{Disk, read_sector, write_sector}
use black_hole_os.Fs.Fat16.Volume.{
  Volume, word_at, set_word, fat_read_entry, fat_write_entry, fat_write_copies, alloc_loop,
  fat_alloc_cluster,
}
use black_hole_os.Fs.Fat16.Sectors.{
  Sized, length-set_word, word_at-set_word, word_at-set_word_ne, read_sector-write_sector,
  write_sector-Sized, length-read_sector,
}

-- One copy of the table: the word of an entry at a sector, with a value put in.
abbrev pub put_word : ℕ → ℕ → ℕ → Disk → Disk
put_word sector cluster value disk =
    write_sector sector (set_word (read_sector sector disk) (cluster * 2 % 512) value) disk

abbrev pub entry_word : ℕ → ℕ → Disk → ℕ
entry_word sector cluster disk = word_at (read_sector sector disk) (cluster * 2 % 512)

pub put_word-Sized :
    (sector c value : ℕ) (disk : Disk) → Sized disk → Sized (put_word sector c value disk)
put_word-Sized sector c value disk sized =
    write_sector-Sized sector (set_word (read_sector sector disk) (c * 2 % 512) value) disk
      (length-set_word (read_sector sector disk) (c * 2 % 512) value
        ∙ length-read_sector sector disk sized)
      sized

pub entry_word-put_word :
    (l sector c d value : ℕ) (disk : Disk)
    → Sized disk
    → entry_word l d (put_word sector c value disk) ≡ (
        if l % 2 ^ 28 == sector % 2 ^ 28
        then (if d * 2 % 512 == c * 2 % 512 then value % 2 ^ 16 else entry_word sector d disk)
        else entry_word l d disk)
entry_word-put_word l sector c d value disk sized =
    let old = read_sector sector disk in
    let size : length old ≡ 512 = length-read_sector sector disk sized in
    let new = set_word old (c * 2 % 512) value in
    let read =
      read_sector-write_sector l sector new disk (length-set_word old (c * 2 % 512) value ∙ size) in
    elim (Bool-cases (l % 2 ^ 28 == sector % 2 ^ 28)) [
      | inl here ↦ elim (Bool-cases (d * 2 % 512 == c * 2 % 512)) [
        | inl same ↦
            let e : d * 2 % 512 ≡ c * 2 % 512 = ground arith in
            rw (read, here, same, e) (word_at-set_word old (c * 2 % 512) value (omega arith))
        | inr apart ↦
            let ne : d * 2 % 512 ≢ c * 2 % 512 = λ e. ground (arith, apart, e) in
            rw (read, here, apart)
              (word_at-set_word_ne old (c * 2 % 512) value (d * 2 % 512) ne (λ e. omega (arith, ne))
                (λ e. omega (arith, ne)))
      ]
      | inr other ↦ rw (read, other) refl
    ]

-- Where the first copy has an entry.
abbrev pub first_sector : Volume → ℕ → ℕ
first_sector v c = (v.fat_start_lba + c * 2 / 512) % 2 ^ 32

-- The allocation table lies on the disk, and has the entry of the cluster.
pub record HasEntry (v : Volume) (c : ℕ) : Type 0 where
  pub inside : c * 2 / 512 < v.fat_size_sectors

pub record HasTable (v : Volume) : Type 0 where
  pub some_copy : 0 < v.num_fats
  pub on_disk : v.fat_start_lba + v.num_fats * v.fat_size_sectors ≤ 2 ^ 28

copies-Sized :
    (v : Volume) (c value f n : ℕ) (disk : Disk)
    → Sized disk
    → Sized (fat_write_copies v c value f n disk)
unfolding fat_write_copies
copies-Sized v c value f zero disk sized = sized
copies-Sized v c value f (suc n) disk sized =
    let sector = (v.fat_start_lba + f * v.fat_size_sectors + c * 2 / 512) % 2 ^ 32 in
    copies-Sized v c value (suc f) n (put_word sector c value disk)
      (put_word-Sized sector c value disk sized)

pub fat_write_entry-Sized :
    (v : Volume) (c value : ℕ) (disk : Disk) → Sized disk → Sized (fat_write_entry v c value disk)
unfolding fat_write_entry
fat_write_entry-Sized v c value disk sized = copies-Sized v c value 0 v.num_fats disk sized

-- The sectors of the later copies are not those of the first.
later_copy :
    (v : Volume) (c d f n : ℕ)
    → HasTable v
    → HasEntry v c
    → HasEntry v d
    → suc f + suc n ≤ v.num_fats
    → (first_sector v d % 2 ^ 28
        == (v.fat_start_lba + suc f * v.fat_size_sectors + c * 2 / 512) % 2 ^ 32 % 2 ^ 28)
      ≡ false
later_copy v c d f n table has_c has_d count =
    let step : suc f * v.fat_size_sectors ≡ f * v.fat_size_sectors + v.fat_size_sectors =
      grind arith in
    let twice : suc (suc f) * v.fat_size_sectors ≡ f * v.fat_size_sectors + 2 * v.fat_size_sectors =
      grind arith in
    let within : suc (suc f) * v.fat_size_sectors ≤ v.num_fats * v.fat_size_sectors =
      mul-le-mul_right v.fat_size_sectors (omega arith) in
    ground (arith, step, twice, within, table.on_disk, has_c.inside, has_d.inside)

copies-keep :
    (v : Volume) (c d value f n : ℕ) (disk : Disk)
    → HasTable v
    → HasEntry v c
    → HasEntry v d
    → suc f + n ≤ v.num_fats
    → Sized disk
    → fat_read_entry v d (fat_write_copies v c value (suc f) n disk) ≡ fat_read_entry v d disk
unfolding fat_write_copies fat_read_entry
copies-keep v c d value f zero disk table has_c has_d count sized = refl
copies-keep v c d value f (suc n) disk table has_c has_d count sized =
    let sector = (v.fat_start_lba + suc f * v.fat_size_sectors + c * 2 / 512) % 2 ^ 32 in
    copies-keep v c d value (suc f) n (put_word sector c value disk) table has_c has_d (omega arith)
      (put_word-Sized sector c value disk sized)
    ∙ entry_word-put_word (first_sector v d) sector c d value disk sized
    ∙ rw (later_copy v c d f n table has_c has_d (omega arith)) refl

first_copy :
    (v : Volume) (c d value : ℕ) (disk : Disk)
    → HasTable v
    → HasEntry v c
    → HasEntry v d
    → Sized disk
    → entry_word
        (first_sector v d)
        d
        (put_word ((v.fat_start_lba + 0 * v.fat_size_sectors + c * 2 / 512) % 2 ^ 32) c value disk)
      ≡ (if d == c then value % 2 ^ 16 else fat_read_entry v d disk)
unfolding fat_read_entry
first_copy v c d value disk table has_c has_d sized =
    let read =
      entry_word-put_word (first_sector v d)
        ((v.fat_start_lba + 0 * v.fat_size_sectors + c * 2 / 512) % 2 ^ 32) c d value disk sized in
    let within : 1 * v.fat_size_sectors ≤ v.num_fats * v.fat_size_sectors =
      mul-le-mul_right v.fat_size_sectors table.some_copy in
    elim (Bool-cases (d == c)) [
      | inl same ↦
          let e : d ≡ c = ground arith in
          let here : (first_sector v c % 2 ^ 28
                == (v.fat_start_lba + 0 * v.fat_size_sectors + c * 2 / 512) % 2 ^ 32 % 2 ^ 28)
              ≡ true =
            ground arith in
          let there : (c * 2 % 512 == c * 2 % 512) ≡ true = ground arith in
          read ∙ rw (same, e, here, there) refl
      | inr apart ↦ elim (Bool-cases (d * 2 / 512 == c * 2 / 512)) [
        | inl near ↦
            let same : (v.fat_start_lba + 0 * v.fat_size_sectors + c * 2 / 512) % 2 ^ 32
                ≡ first_sector v d =
              ground arith in
            let here : (first_sector v d % 2 ^ 28 == first_sector v d % 2 ^ 28) ≡ true =
              ground arith in
            let words : (d * 2 % 512 == c * 2 % 512) ≡ false = ground arith in
            read ∙ rw (apart, same, here, words) refl
        | inr far ↦
            let other : (first_sector v d % 2 ^ 28
                  == (v.fat_start_lba + 0 * v.fat_size_sectors + c * 2 / 512) % 2 ^ 32 % 2 ^ 28)
                ≡ false =
              ground (arith, table.on_disk, has_c.inside, has_d.inside, within) in
            read ∙ rw (apart, other) refl
      ]
    ]

-- Where the table has both entries, writing an entry changes what is read for its own cluster to
-- the value, and for no other cluster.
pub fat_read_entry-fat_write_entry :
    (v : Volume) (c d value : ℕ) (disk : Disk)
    → HasTable v
    → HasEntry v c
    → HasEntry v d
    → Sized disk
    → fat_read_entry v d (fat_write_entry v c value disk)
      ≡ (if d == c then value % 2 ^ 16 else fat_read_entry v d disk)
unfolding fat_write_copies fat_write_entry fat_read_entry
fat_read_entry-fat_write_entry v c d value disk table has_c has_d sized = written v.num_fats refl
  where
    written :
        (n : ℕ)
        → n ≡ v.num_fats
        → fat_read_entry v d (fat_write_copies v c value 0 n disk)
          ≡ (if d == c then value % 2 ^ 16 else fat_read_entry v d disk)
    written zero e = absurd (omega (arith, table.some_copy))
    written (suc n) e =
        copies-keep v c d value 0 n
          (put_word ((v.fat_start_lba + 0 * v.fat_size_sectors + c * 2 / 512) % 2 ^ 32) c value
            disk)
          table has_c has_d (omega arith)
          (put_word-Sized ((v.fat_start_lba + 0 * v.fat_size_sectors + c * 2 / 512) % 2 ^ 32) c
            value disk sized)
        ∙ first_copy v c d value disk table has_c has_d sized

-- What a search of the table from `c` over `n` clusters finds.
pub record Found (v : Volume) (disk : Disk) (c n r : ℕ) : Type 0 where
  pub from : c ≤ r
  pub below : r < c + n
  pub free : fat_read_entry v r disk ≡ 0
  pub first : (d : ℕ) → c ≤ d → d < r → fat_read_entry v d disk ≢ 0

alloc_loop-finds :
    (v : Volume) (disk : Disk) (c n : ℕ)
    → Found v disk c n (alloc_loop v c n disk)
      ⊎ ((alloc_loop v c n disk ≡ 0) × ((d : ℕ) → c ≤ d → d < c + n → fat_read_entry v d disk ≢ 0))
unfolding alloc_loop
alloc_loop-finds v disk c zero = inr (refl, λ d low high. absurd (omega arith))
alloc_loop-finds v disk c (suc n) = elim (Bool-cases (fat_read_entry v c disk == 0)) [
  | inl free ↦
      let result : alloc_loop v c (suc n) disk ≡ c = rw (free, alloc_loop) refl in
      rw result (
        inl record {
          from = omega arith;
          below = omega arith;
          free = ground arith;
          first = λ d low high. absurd (omega arith);
        })
  | inr used ↦
      let taken : fat_read_entry v c disk ≢ 0 = λ e. ground (arith, used, e) in
      let later : (d : ℕ)
          → ((e : ℕ) → suc c ≤ e → e ≤ d → fat_read_entry v e disk ≢ 0)
          → c ≤ d
          → fat_read_entry v d disk ≢ 0 =
        λ d rest low. elim (Bool-cases (d == c)) [
          | inl same ↦ let e : d ≡ c = ground arith in rw e taken
          | inr apart ↦ rest d (ground (arith, low, apart)) (omega arith)
        ] in
      let result : alloc_loop v c (suc n) disk ≡ alloc_loop v (suc c) n disk =
        rw (used, alloc_loop) refl in
      elim (alloc_loop-finds v disk (suc c) n) [
        | inl found ↦ rw result (
            inl record {
              from = omega (arith, found.from);
              below = omega (arith, found.below);
              free = found.free;
              first = λ d low high. later d (λ e low' high'. found.first e low' (omega arith)) low;
            })
        | inr (none_free, all) ↦
            rw result (
              inr (none_free, λ d low high. later d (λ e low' high'. all e low' (omega arith)) low))
      ]
]

-- The allocation finds the first free cluster from 2 up to 2047, and returns 0 when there is none.
pub fat_alloc_cluster-finds :
    (v : Volume) (disk : Disk)
    → Found v disk 2 2046 (fat_alloc_cluster v disk)
      ⊎ ((fat_alloc_cluster v disk ≡ 0)
          × ((d : ℕ) → 2 ≤ d → d < 2048 → fat_read_entry v d disk ≢ 0))
unfolding fat_alloc_cluster
fat_alloc_cluster-finds v disk = alloc_loop-finds v disk 2 2046
