-- ===== src/Fs/Fat16/Writing.antt =====
-- The clusters that `fat16_write_file` of fs/fat16.c fills: they form a chain with the bytes of the
-- file.
use black_hole_os.Prelude.{
  ℕ, zero, suc, ◌*◌, ◌%◌, ◌^◌, ◌<◌, ◌≤◌, ◌≡◌, ◌≢◌, refl, ◌∙◌, arith, List, [], ◌++◌, length, ◌==◌,
  if◌then◌else◌, Bool-cases, true, false, inl, inr, ◌⊎◌,
}
use black_hole_os.Drivers.Ata.Disk.{Disk, read_sector}
use black_hole_os.Fs.Fat16.Volume.{Volume, cluster_to_lba, fat_read_entry, fat_write_entry}
use black_hole_os.Fs.Fat16.Sectors.{Sized}
use black_hole_os.Fs.Fat16.Table.{fat_read_entry-fat_write_entry, fat_write_entry-Sized}
use black_hole_os.Fs.Fat16.Chain.{Chain, mem}
use black_hole_os.Fs.Fat16.Reading.{cluster_data, chain_data}
use black_hole_os.Fs.Fat16.Regions.{
  IsRoomy, IsCluster, IsCluster-HasEntry, IsCluster-Place, clusters_apart, table_end,
  fat_write_entry-behind, chunk, write_sectors-Sized, write_sectors-outside,
  sectors_data-write_sectors, fat_read_entry-write_sectors, sectors_data-agree,
}
use black_hole_os.Fs.Fat16.Files.{link_cluster, write_sectors, cluster_bytes}

-- The bytes that go to `n` clusters from the one with the number `c` in the file.
unfoldable pub chunks : Volume → List ℕ → ℕ → ℕ → ℕ → List ℕ
chunks v content size c zero = []
chunks v content size c (suc n) =
    chunk content size (c * cluster_bytes v % 2 ^ 32) 0 v.sectors_per_cluster
    ++ chunks v content size (suc c) n

module _ (v : Volume) (roomy : IsRoomy v) (content : List ℕ) (size : ℕ)
    (enough : size ≤ length content) where
  -- What filling some clusters behind the cluster `p` of a chain has done.
  pub record Written (p c n : ℕ) (disk after : Disk) (cs : List ℕ) : Type 0 where
    pub count : length cs ≡ n
    pub chain : Chain v after (fat_read_entry v p after) cs
    pub bytes : chain_data v after cs ≡ chunks v content size c n
    pub were_free : (d : ℕ) → mem d cs ≡ true → IsCluster d × (fat_read_entry v d disk ≡ 0)
    pub entries :
        (d : ℕ)
        → IsCluster d
        → mem d cs ≡ false
        → d ≢ p
        → fat_read_entry v d after ≡ fat_read_entry v d disk
    pub others :
        (d : ℕ) → IsCluster d → mem d cs ≡ false → cluster_data v after d ≡ cluster_data v disk d
    pub between :
        (l : ℕ) → table_end v ≤ l → l < v.data_start_lba → read_sector l after ≡ read_sector l disk
    pub sized : Sized after

  -- One round of the loop over the clusters, with the cluster that was allocated.
  abbrev pub fill : ℕ → ℕ → ℕ → Disk → Disk
  fill c p cluster disk =
      write_sectors content size (c * cluster_bytes v % 2 ^ 32) (cluster_to_lba v cluster) 0
        v.sectors_per_cluster (link_cluster v p cluster disk)

  module _ (c p cluster : ℕ) (is : IsCluster cluster) (prev : (p ≡ 0) ⊎ IsCluster p) (disk : Disk)
      (sized : Sized disk) where
    link-Sized : Sized (link_cluster v p cluster disk)
    link-Sized =
        let marked = fat_write_entry-Sized v cluster 0xFFFF disk sized in
        elim (Bool-cases (p == 0)) [
          | inl first ↦ rw first marked
          | inr later ↦
              rw later
                (fat_write_entry-Sized v p cluster (fat_write_entry v cluster 0xFFFF disk) marked)
        ]

    later_IsCluster : (p == 0) ≡ false → IsCluster p
    later_IsCluster later = elim prev [
      | inl e ↦ absurd (ground (arith, e, later))
      | inr is_p ↦ is_p
    ]

    link-behind :
        (l : ℕ)
        → table_end v ≤ l
        → l < 2 ^ 28
        → read_sector l (link_cluster v p cluster disk) ≡ read_sector l disk
    link-behind l behind on_disk =
        let has = IsCluster-HasEntry v cluster roomy is in
        let marked = fat_write_entry-behind v cluster 0xFFFF l disk has behind on_disk sized in
        elim (Bool-cases (p == 0)) [
          | inl first ↦ rw first marked
          | inr later ↦ rw later (
              fat_write_entry-behind v p cluster l (fat_write_entry v cluster 0xFFFF disk)
                (IsCluster-HasEntry v p roomy (later_IsCluster later)) behind on_disk
                (fat_write_entry-Sized v cluster 0xFFFF disk sized)
              ∙ marked)
        ]

    pub fill-Sized : Sized (fill c p cluster disk)
    fill-Sized =
        write_sectors-Sized content size enough (c * cluster_bytes v % 2 ^ 32)
          (cluster_to_lba v cluster) 0 v.sectors_per_cluster (link_cluster v p cluster disk)
          link-Sized

    -- The entries: the new cluster ends the chain, and the one before it goes on to it.
    pub fill-entry :
        (d : ℕ)
        → IsCluster d
        → fat_read_entry v d (fill c p cluster disk) ≡ (
            if p == 0
            then (if d == cluster then 0xFFFF else fat_read_entry v d disk)
            else if d == p
            then cluster
            else if d == cluster
            then 0xFFFF
            else fat_read_entry v d disk)
    fill-entry d is_d =
        let has = IsCluster-HasEntry v cluster roomy is in
        let has_d = IsCluster-HasEntry v d roomy is_d in
        let place = IsCluster-Place v roomy cluster is in
        let table = roomy.laid.table in
        let marked = fat_read_entry-fat_write_entry v cluster d 0xFFFF disk table has has_d sized in
        let small : cluster % 2 ^ 16 ≡ cluster = omega (arith, is.high) in
        fat_read_entry-write_sectors content size enough v d (c * cluster_bytes v % 2 ^ 32)
          (cluster_to_lba v cluster) 0 v.sectors_per_cluster (link_cluster v p cluster disk) table
          has_d (omega (arith, place.behind, roomy.laid.root_behind, roomy.laid.data_behind))
          (omega (arith, place.fits))
        ∙ elim (Bool-cases (p == 0)) [
          | inl first ↦ rw first marked
          | inr later ↦
              let linked =
                fat_read_entry-fat_write_entry v p d cluster (fat_write_entry v cluster 0xFFFF disk)
                  table (IsCluster-HasEntry v p roomy (later_IsCluster later)) has_d
                  (fat_write_entry-Sized v cluster 0xFFFF disk sized) in
              rw later (linked ∙ rw (marked, small) refl)
        ]

    pub fill-between :
        (l : ℕ)
        → table_end v ≤ l
        → l < v.data_start_lba
        → read_sector l (fill c p cluster disk) ≡ read_sector l disk
    fill-between l behind before =
        let place = IsCluster-Place v roomy cluster is in
        write_sectors-outside content size enough (c * cluster_bytes v % 2 ^ 32)
          (cluster_to_lba v cluster) 0 v.sectors_per_cluster l (link_cluster v p cluster disk)
          (omega (arith, place.fits)) (omega (arith, roomy.laid.data_on_disk))
          (inl (omega (arith, place.behind)))
        ∙ link-behind l behind (omega (arith, roomy.laid.data_on_disk))

    pub fill-data :
        cluster_data v (fill c p cluster disk) cluster
        ≡ chunk content size (c * cluster_bytes v % 2 ^ 32) 0 v.sectors_per_cluster
    fill-data =
        let place = IsCluster-Place v roomy cluster is in
        sectors_data-write_sectors content size enough (c * cluster_bytes v % 2 ^ 32)
          (cluster_to_lba v cluster) 0 v.sectors_per_cluster (link_cluster v p cluster disk)
          (omega (arith, place.fits))

    pub fill-others :
        (d : ℕ)
        → IsCluster d
        → d ≢ cluster
        → cluster_data v (fill c p cluster disk) d ≡ cluster_data v disk d
    fill-others d is_d ne =
        let place = IsCluster-Place v roomy cluster is in
        let place_d = IsCluster-Place v roomy d is_d in
        let apart = clusters_apart v roomy d cluster is_d is ne in
        sectors_data-agree (cluster_to_lba v d) 0 v.sectors_per_cluster disk (fill c p cluster disk)
          (omega (arith, place_d.fits))
          (λ l low high.
            write_sectors-outside content size enough (c * cluster_bytes v % 2 ^ 32)
              (cluster_to_lba v cluster) 0 v.sectors_per_cluster l (link_cluster v p cluster disk)
              (omega (arith, place.fits)) (omega (arith, place_d.fits)) (omega (arith, apart))
            ∙ link-behind l
                (omega (arith, place_d.behind, roomy.laid.root_behind, roomy.laid.data_behind))
                (omega (arith, place_d.fits)))
