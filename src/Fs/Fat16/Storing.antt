-- ===== src/Fs/Fat16/Storing.antt =====
-- All the clusters of a file that fs/fat16.c writes, and what the directory needs of the disk.
use black_hole_os.Prelude.{
  ℕ, zero, suc, ◌+◌, ◌-◌, ◌*◌, ◌/◌, ◌%◌, ◌^◌, ◌<◌, ◌≤◌, ◌≡◌, refl, sym, ◌∙◌, ap, ap₂, subst, arith,
  List, [], ◌∷◌, ◌++◌, length, ◌==◌, Bool-cases, true, inl, inr, Option, some, none,
}
use native.Mathlib.Nat.{div-add-mod, mod-lt}
use black_hole_os.Drivers.Ata.Disk.{Disk, read_sector}
use black_hole_os.Fs.Fat16.Volume.{Volume, fat_read_entry, fat_alloc_cluster, cluster_to_lba}
use black_hole_os.Fs.Fat16.Root.{Scan, stop, here, beyond, find_in_sector, find_in_root}
use black_hole_os.Fs.Fat16.Sectors.{Sized}
use black_hole_os.Fs.Fat16.Table.{fat_alloc_cluster-finds}
use black_hole_os.Fs.Fat16.Chain.{Chain, mem}
use black_hole_os.Fs.Fat16.Reading.{chain_data}
use black_hole_os.Fs.Fat16.Regions.{
  IsRoomy, IsCluster, table_end, IsCluster-Place, sectors_data-agree,
}
use black_hole_os.Fs.Fat16.Writing.{chunks, fill, fill-Sized, fill-entry, fill-between, fill-data}
use black_hole_os.Fs.Fat16.Filling.{
  Found-IsCluster, mem-false, write_clusters-next, write_clusters-full, write_clusters-Written,
}
use black_hole_os.Fs.Fat16.Files.{
  write_clusters, is_data_cluster, clusters_needed, cluster_bytes, root_lba,
}

-- A chain from `r` with the bytes of the file, on a disk that is otherwise as before in the root
-- directory.
pub record Stored (v : Volume) (content : List ℕ) (size n r : ℕ) (disk after : Disk) (cs : List ℕ)
    : Type 0 where
  pub count : length cs ≡ n
  pub chain : Chain v after r cs
  pub bytes : chain_data v after cs ≡ chunks v content size 0 n
  pub clusters : (d : ℕ) → mem d cs ≡ true → IsCluster d
  pub starts : IsCluster r
  pub between :
      (l : ℕ) → table_end v ≤ l → l < v.data_start_lba → read_sector l after ≡ read_sector l disk
  pub sized : Sized after

module _ (v : Volume) (roomy : IsRoomy v) (content : List ℕ) (size : ℕ)
    (enough : size ≤ length content) where
  -- When the loop over the clusters returns a first cluster, the file is stored from there.
  pub write_clusters-Stored :
      (m r : ℕ) (disk : Disk)
      → Sized disk
      → (write_clusters v content size 0 (suc m) 0 0 disk).0 ≡ some r
      → (cs : List ℕ) × Stored v content size
          (suc m)
          r
          disk
          (write_clusters v content size 0 (suc m) 0 0 disk).1
          cs
  unfolding chunks chain_data
  write_clusters-Stored m r disk sized e = elim (fat_alloc_cluster-finds v disk) [
    | inr full ↦ absurd (write_clusters-full v roomy content size enough 0 m 0 0 r disk full.0 e)
    | inl found ↦
        let cluster = fat_alloc_cluster v disk in
        let is = Found-IsCluster v disk cluster found in
        let filled = fill v roomy content size enough 0 0 cluster disk in
        let next : write_clusters v content size 0 (suc m) 0 0 disk
            ≡ write_clusters v content size 1 m cluster cluster filled =
          write_clusters-next v roomy content size enough 0 m 0 0 disk found in
        let same_cluster : (cluster == cluster) ≡ true = ground arith in
        let ends : fat_read_entry v cluster filled ≡ 0xFFFF =
          fill-entry v roomy content size enough 0 0 cluster is (inl refl) disk sized cluster is
          ∙ rw same_cluster refl in
        let (r_is, cs, written) =
          write_clusters-Written v roomy content size enough m 0 cluster cluster r filled is ends
            (fill-Sized v roomy content size enough 0 0 cluster is (inl refl) disk sized)
            (sym (ap (λ (out : Option ℕ × Disk). out.0) next) ∙ e) in
        let after = (write_clusters v content size 1 m cluster cluster filled).1 in
        let apart =
          mem-false v filled cs cluster written.were_free (λ z. absurd (omega (arith, z, ends))) in
        let inside : is_data_cluster cluster ≡ true = ground (arith, is.low, is.high) in
        let stored : Stored v content size (suc m) r disk after (cluster ∷ cs) = record {
          count = ap suc written.count;
          chain = (
            sym r_is,
            subst (λ (k : ℕ). is_data_cluster k ≡ true) (sym r_is) inside,
            subst (λ (k : ℕ). Chain v after (fat_read_entry v k after) cs) (sym r_is) written.chain,
          );
          bytes =
              ap₂ (λ (l t : List ℕ). l ++ t)
                (written.others cluster is apart
                  ∙ fill-data v roomy content size enough 0 0 cluster is (inl refl) disk sized)
                written.bytes;
          clusters = λ d m. elim (Bool-cases (d == cluster)) [
            | inl same ↦ let z : cluster ≡ d = ground arith in subst IsCluster z is
            | inr other ↦ (written.were_free d (rw other at m)).0
          ];
          starts = subst IsCluster (sym r_is) is;
          between = λ l behind before.
              written.between l behind before
              ∙ fill-between v roomy content size enough 0 0 cluster is (inl refl) disk sized l
                  behind before;
          sized = written.sized;
        } in
        (
          cluster ∷ cs,
          subst
              (λ (out : Option ℕ × Disk). Stored v content size (suc m) r disk out.1 (cluster ∷ cs))
              (sym next) stored,
        )
  ]

-- The search for a name sees the sectors of the root directory only.
pub find_in_root-agree :
    (v : Volume) (name : List ℕ) (s n : ℕ) (old new : Disk)
    → ((t : ℕ)
        → s ≤ t
        → t < s + n
        → read_sector (root_lba v t) new ≡ read_sector (root_lba v t) old)
    → find_in_root v name s n new ≡ find_in_root v name s n old
unfolding find_in_root
find_in_root-agree v name s zero old new same = refl
find_in_root-agree v name s (suc n) old new same =
    let here_same = same s (omega arith) (omega arith) in
    let later =
      find_in_root-agree v name (suc s) n old new
        (λ t low high. same t (omega arith) (omega arith)) in
    agree later (find_in_sector name (read_sector (root_lba v s) new) 0 16)
    ∙ ap (result old) (ap (λ (b : List ℕ). find_in_sector name b 0 16) here_same)
  where
    result : Disk → Scan → Option (ℕ × ℕ)
    result disk stop = none
    result disk (here i) = some (s, i)
    result disk beyond = find_in_root v name (suc s) n disk

    agree :
        find_in_root v name (suc s) n new ≡ find_in_root v name (suc s) n old
        → (scan : Scan) → result new scan ≡ result old scan
    agree later stop = refl
    agree later (here i) = refl
    agree later beyond = later

-- The bytes of a chain are those of its clusters' sectors.
pub chain_data-agree :
    (v : Volume) (roomy : IsRoomy v) (cs : List ℕ) (old new : Disk)
    → ((d : ℕ) → mem d cs ≡ true → IsCluster d)
    → ((l : ℕ) → v.data_start_lba ≤ l → l < 2 ^ 28 → read_sector l new ≡ read_sector l old)
    → chain_data v new cs ≡ chain_data v old cs
unfolding chain_data
chain_data-agree v roomy [] old new are same = refl
chain_data-agree v roomy (c ∷ cs) old new are same =
    let here_c : (c == c) ≡ true = ground arith in
    let place = IsCluster-Place v roomy c (are c (rw here_c refl)) in
    ap₂ (λ (l t : List ℕ). l ++ t)
      (sectors_data-agree (cluster_to_lba v c) 0 v.sectors_per_cluster old new
        (omega (arith, place.fits))
        (λ l low high. same l (omega (arith, place.behind)) (omega (arith, place.fits))))
      (chain_data-agree v roomy cs old new
        (λ d m. are d (elim (Bool-cases (d == c)) [ inl z ↦ rw z refl | inr z ↦ rw z m ])) same)

-- The clusters that a size needs have room for it.
pub clusters_needed-room :
    (v : Volume) (roomy : IsRoomy v) (size : ℕ)
    → size < 2 ^ 31
    → (m : ℕ) × (clusters_needed v size ≡ suc m)
      × (size ≤ suc m * cluster_bytes v)
      × (suc m * cluster_bytes v < 2 ^ 32)
clusters_needed-room v roomy size small =
    let b = cluster_bytes v in
    let x = size + b - 1 in
    let low : 512 ≤ b = omega (arith, roomy.some_sectors) in
    let high : b < 2 ^ 17 = omega (arith, roomy.byte_sectors) in
    let whole : x % 2 ^ 32 ≡ x = omega arith in
    let split = div-add-mod x b in
    let rest = mod-lt x {m = b} (omega arith) in
    let product : b * (x / b) ≡ x / b * b = grind arith in
    elim (Bool-cases (x / b == 0)) [
      | inl empty ↦
          let nothing : x / b ≡ 0 = ground arith in
          let split' = rw nothing at split in
          let needed : clusters_needed v size ≡ 1 = rw (whole, nothing) refl in
          (0, needed, omega arith, omega arith)
      | inr more ↦
          let some_round : suc (x / b - 1) ≡ x / b = ground arith in
          let needed : clusters_needed v size ≡ x / b = rw (whole, more) refl in
          (
            x / b - 1,
            needed ∙ sym some_round,
            rw some_round (omega arith),
            rw some_round (omega arith),
          )
    ]
