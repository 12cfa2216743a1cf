-- ===== src/Fs/Fat16/Space.antt =====
-- With enough free clusters and a free slot, `fat16_write_file` of fs/fat16.c succeeds.
use black_hole_os.Prelude.{
  ℕ, zero, suc, ◌+◌, ◌^◌, ◌<◌, ◌≤◌, ◌≡◌, ◌≢◌, refl, ◌∙◌, ap, arith, List, ◌++◌, length, take, drop,
  ltb, ◌==◌, ◌||◌, if◌then◌else◌, Bool-cases, true, false, inl, inr, ◌⊎◌, Option, some, none,
}
use black_hole_os.Prelude.Int.{ℤ, pos}
use black_hole_os.Drivers.Vga.{Screen}
use black_hole_os.Drivers.Ata.Disk.{Disk, read_sector}
use black_hole_os.Fs.Fat16.Volume.{Volume, fat_read_entry, fat_alloc_cluster}
use black_hole_os.Fs.Fat16.Root.{find_in_root, free_in_sector, free_in_root}
use black_hole_os.Fs.Fat16.Sectors.{Sized}
use black_hole_os.Fs.Fat16.Table.{fat_alloc_cluster-finds}
use black_hole_os.Fs.Fat16.Regions.{IsRoomy, IsCluster}
use black_hole_os.Fs.Fat16.Writing.{fill, fill-Sized, fill-entry}
use black_hole_os.Fs.Fat16.Filling.{Found-IsCluster, write_clusters-next}
use black_hole_os.Fs.Fat16.Storing.{write_clusters-Stored, clusters_needed-room}
use black_hole_os.Fs.Fat16.RoundTrip.{IsStorable, fat16_read_file-fat16_write_file}
use black_hole_os.Fs.Fat16.Files.{
  finish_write, enter_file, write_clusters, clusters_needed, cluster_bytes, root_lba,
  fat16_write_file, fat16_read_file, fat16_delete_file,
}

abbrev is_free : ℕ → ℕ
is_free entry = if entry == 0 then 1 else 0

-- How many of the first `k` clusters, from 2 on, are free.
unfoldable pub free_below : Volume → Disk → ℕ → ℕ
free_below v disk zero = 0
free_below v disk (suc k) = free_below v disk k + is_free (fat_read_entry v (k + 2) disk)

-- How many clusters the allocation can hand out.
abbrev pub free_clusters : Volume → Disk → ℕ
free_clusters v disk = free_below v disk 2046

none_free :
    (v : Volume) (disk : Disk) (k : ℕ)
    → ((d : ℕ) → 2 ≤ d → d < k + 2 → fat_read_entry v d disk ≢ 0)
    → free_below v disk k ≡ 0
unfolding free_below
none_free v disk zero all = refl
none_free v disk (suc k) all =
    let taken = all (k + 2) (omega arith) (omega arith) in
    let earlier = none_free v disk k (λ d low high. all d low (omega arith)) in
    ground (arith, taken, earlier)

-- A round that takes one cluster leaves the others.
free_below-step :
    (v : Volume) (old new : Disk) (cluster k : ℕ)
    → k ≤ 2046
    → ((d : ℕ)
        → IsCluster d
        → d ≢ cluster
        → fat_read_entry v d old ≡ 0
        → fat_read_entry v d new ≡ 0)
    → free_below v old k ≤ free_below v new k + (if ltb cluster (k + 2) then 1 else 0)
unfolding free_below
free_below-step v old new cluster zero few keeps = omega arith
free_below-step v old new cluster (suc k) few keeps =
    let rest = free_below-step v old new cluster k (omega arith) keeps in
    elim (Bool-cases (k + 2 == cluster)) [
      | inl same ↦ ground (arith, rest, same)
      | inr other ↦ elim (Bool-cases (fat_read_entry v (k + 2) old == 0)) [
        | inl free ↦
            let still =
              keeps (k + 2) (record { low = omega arith; high = omega arith })
                (λ e. absurd (ground (arith, e, other))) (ground arith) in
            ground (arith, rest, free, still, other)
        | inr taken ↦ ground (arith, rest, taken, other)
      ]
    ]

-- What the loop needs of the cluster before: there is none, or it ends its chain.
abbrev Before : Volume → ℕ → Disk → Type 0
Before v p disk = (p ≡ 0) ⊎ (IsCluster p × (fat_read_entry v p disk ≡ 0xFFFF))

module _ (v : Volume) (roomy : IsRoomy v) (content : List ℕ) (size : ℕ)
    (enough : size ≤ length content) where
  Before-IsCluster : (p : ℕ) (disk : Disk) → Before v p disk → (p ≡ 0) ⊎ IsCluster p
  Before-IsCluster p disk (inl e) = inl e
  Before-IsCluster p disk (inr (is, last)) = inr is

  module _ (c p cluster : ℕ) (is : IsCluster cluster) (disk : Disk) (sized : Sized disk)
      (b : Before v p disk) (free : fat_read_entry v cluster disk ≡ 0) where
    abbrev filled : Disk
    filled = fill v roomy content size enough c p cluster disk

    apart : p ≢ cluster
    apart e = elim b [
      | inl z ↦ absurd (omega (arith, e, z, is.low))
      | inr (is_p, last) ↦
          let same = ap (λ (k : ℕ). fat_read_entry v k disk) e in
          absurd (omega (arith, same, last, free))
    ]

    keeps_free :
        (d : ℕ)
        → IsCluster d
        → d ≢ cluster
        → fat_read_entry v d disk ≡ 0
        → fat_read_entry v d filled ≡ 0
    keeps_free d is_d ne zero_d =
        let e2 : (d == cluster) ≡ false = ground (arith, ne) in
        let entry =
          fill-entry v roomy content size enough c p cluster is (Before-IsCluster p disk b) disk
            sized d is_d in
        elim b [
          | inl z ↦ let first : (p == 0) ≡ true = ground arith in entry ∙ rw (first, e2) zero_d
          | inr (is_p, last) ↦
              let later : (p == 0) ≡ false = ground (arith, is_p.low) in
              let ne_p : d ≢ p = λ e.
                let same = ap (λ (k : ℕ). fat_read_entry v k disk) e in
                absurd (omega (arith, same, zero_d, last)) in
              let e1 : (d == p) ≡ false = ground (arith, ne_p) in entry ∙ rw (later, e1, e2) zero_d
        ]

    ends_chain : fat_read_entry v cluster filled ≡ 0xFFFF
    ends_chain =
        let e1 : (cluster == p) ≡ false = ground (arith, apart) in
        let here : (cluster == cluster) ≡ true = ground arith in
        fill-entry v roomy content size enough c p cluster is (Before-IsCluster p disk b) disk sized
          cluster is
        ∙ elim (Bool-cases (p == 0)) [
          | inl first ↦ rw (first, here) refl
          | inr later ↦ rw (later, e1, here) refl
        ]

  write_clusters-succeeds :
      (n c first p : ℕ) (disk : Disk)
      → Sized disk
      → Before v p disk
      → n ≤ free_clusters v disk
      → (r : ℕ) × ((write_clusters v content size c n first p disk).0 ≡ some r)
  unfolding write_clusters
  write_clusters-succeeds zero c first p disk sized b room = (first, refl)
  write_clusters-succeeds (suc n) c first p disk sized b room =
      elim (fat_alloc_cluster-finds v disk) [
        | inr full ↦
            let nothing = none_free v disk 2046 (λ d low high. full.1 d low high) in
            absurd (omega (arith, nothing))
        | inl found ↦
            let cluster = fat_alloc_cluster v disk in
            let is = Found-IsCluster v disk cluster found in
            let after = fill v roomy content size enough c p cluster disk in
            let step =
              free_below-step v disk after cluster 2046 (omega arith)
                (keeps_free c p cluster is disk sized b found.free) in
            let (r, run) =
              write_clusters-succeeds n (suc c) (if c == 0 then cluster else first) cluster after
                (fill-Sized v roomy content size enough c p cluster is (Before-IsCluster p disk b)
                  disk sized)
                (inr (is, ends_chain c p cluster is disk sized b found.free))
                (ground (arith, step)) in
            (
              r,
              ap (λ (out : Option ℕ × Disk). out.0)
                    (write_clusters-next v roomy content size enough c n first p disk found)
                  ∙ run,
            )
      ]

free_in_root-agree :
    (v : Volume) (s n : ℕ) (old new : Disk)
    → ((t : ℕ)
        → s ≤ t
        → t < s + n
        → read_sector (root_lba v t) new ≡ read_sector (root_lba v t) old)
    → free_in_root v s n new ≡ free_in_root v s n old
unfolding free_in_root
free_in_root-agree v s zero old new same = refl
free_in_root-agree v s (suc n) old new same =
    let here_same = same s (omega arith) (omega arith) in
    let later =
      free_in_root-agree v (suc s) n old new (λ t low high. same t (omega arith) (omega arith)) in
    agree later (free_in_sector (read_sector (root_lba v s) new) 0 16)
    ∙ ap (result old) (ap (λ (b : List ℕ). free_in_sector b 0 16) here_same)
  where
    result : Disk → Option ℕ → Option (ℕ × ℕ)
    result disk (some i) = some (s, i)
    result disk none = free_in_root v (suc s) n disk

    agree :
        free_in_root v (suc s) n new ≡ free_in_root v (suc s) n old
        → (scan : Option ℕ) → result new scan ≡ result old scan
    agree later (some i) = refl
    agree later none = later

finish_write-succeeds :
    (v : Volume) (buf name : List ℕ) (size r t i : ℕ) (disk : Disk) (s : Screen)
    → free_in_root v 0 v.root_dir_sectors disk ≡ some (t, i)
    → finish_write v buf name size (some r, disk) s
      ≡ some (pos 0, enter_file v name r size (t, i) disk, s)
finish_write-succeeds v buf name size r t i disk s slot = rw (slot, finish_write) refl

-- A file that is written is read back. On a volume with room for the clusters that the allocation
-- looks at, let the deletion that a write begins with leave a disk where the name is missing, where
-- a slot of the root directory is free, and where as many clusters are free as the size needs; let
-- the first byte of the name be no mark of the directory, and the size be below 2^31. Then the
-- write returns 0, and reading the name returns the size, with the bytes that were written at the
-- front of a buffer that is large enough: given fuel for one step more than the file has clusters.
pub fat16_read_file-written :
    (v : Volume) (fuel fuel' : ℕ) (buf name content buffer : List ℕ) (size buf_size t i : ℕ)
    (disk deleted : Disk) (ret : ℤ) (s : Screen)
    → IsRoomy v
    → IsStorable name
    → size < 2 ^ 31
    → size ≤ length content
    → Sized deleted
    → fat16_delete_file v fuel name disk ≡ some (ret, deleted)
    → find_in_root v name 0 v.root_dir_sectors deleted ≡ none
    → free_in_root v 0 v.root_dir_sectors deleted ≡ some (t, i)
    → clusters_needed v size ≤ free_clusters v deleted
    → clusters_needed v size < fuel'
    → size ≤ buf_size
    → size ≤ length buffer
    → (after : Disk) × (fat16_write_file v fuel buf name content size disk s
        ≡ some (pos 0, after, s))
      × (fat16_read_file v fuel' name buffer buf_size after
          ≡ some (pos size, take size content ++ drop size buffer))
unfolding fat16_write_file
fat16_read_file-written v fuel fuel' buf name content buffer size buf_size t i disk deleted ret s
      roomy storable small enough sized gone missing slot space rounds fits long =
    let fine : (cluster_bytes v == 0 || ltb (length content) size) ≡ false =
      ground (arith, roomy.some_sectors, enough) in
    let (m, needed, room, wrap) = clusters_needed-room v roomy size small in
    let out = write_clusters v content size 0 (suc m) 0 0 deleted in
    let (r, first) =
      write_clusters-succeeds v roomy content size enough (suc m) 0 0 0 deleted sized (inl refl)
        (omega (arith, needed, space)) in
    let (cs, stored) = write_clusters-Stored v roomy content size enough m r deleted sized first in
    let slot' =
      free_in_root-agree v 0 v.root_dir_sectors deleted out.1 (λ l low high.
        stored.between (root_lba v l)
          (omega (arith, roomy.laid.root_behind, roomy.laid.data_behind, roomy.laid.data_on_disk))
          (omega (arith, roomy.laid.data_behind, roomy.laid.data_on_disk)))
      ∙ slot in
    let after = enter_file v name r size (t, i) out.1 in
    let finished : finish_write v buf name size out s ≡ some (pos 0, after, s) =
      ap (λ (o : Option ℕ). finish_write v buf name size (o, out.1) s) first
      ∙ finish_write-succeeds v buf name size r t i out.1 s slot' in
    let run : fat16_write_file v fuel buf name content size disk s ≡ some (pos 0, after, s) =
      rw (gone, fine, needed) finished in
    (
      after,
      run,
      fat16_read_file-fat16_write_file v roomy name content size enough small storable fuel fuel'
          buf buffer buf_size disk deleted after ret s s sized gone missing run rounds fits long,
    )
