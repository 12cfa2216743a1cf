-- ===== src/Fs/Fat16/RoundTrip.antt =====
-- A file that fs/fat16.c has written is read back.
use black_hole_os.Prelude.{
  ℕ, suc, ◌+◌, ◌-◌, ◌*◌, ◌%◌, ◌^◌, ◌<◌, ◌≤◌, ◌≡◌, ◌≢◌, refl, sym, ◌∙◌, ap, subst, arith, List, [],
  ◌++◌, length, get_or, take, drop, min, ltb, ◌==◌, ◌||◌, true, false, inl, inr, Option,
  Option-cases, some, none,
}
use black_hole_os.Prelude.Int.{ℤ, pos, negsuc}
use black_hole_os.Drivers.Vga.{Screen}
use black_hole_os.Drivers.Ata.Disk.{Disk, read_sector}
use black_hole_os.Libc.Stdio.{printf, to_int}
use black_hole_os.Fs.Fat16.Volume.{Volume, fat_read_entry}
use black_hole_os.Fs.Fat16.Root.{
  find_in_root, free_in_root, entry_at, new_entry, put_entry, first_cluster_lo, file_size,
}
use black_hole_os.Fs.Fat16.Sectors.{Sized, length-read_sector, write_sector-Sized}
use black_hole_os.Fs.Fat16.Chain.{Chain, Chain-agree}
use black_hole_os.Fs.Fat16.Deleting.{fat_read_entry-behind}
use black_hole_os.Fs.Fat16.Reading.{chain_data, fat16_read_file-chain_data}
use black_hole_os.Fs.Fat16.Regions.{IsRoomy, IsCluster, IsCluster-HasEntry}
use black_hole_os.Fs.Fat16.Writing.{chunks}
use black_hole_os.Fs.Fat16.Contents.{take-chunks, length-chunks}
use black_hole_os.Fs.Fat16.Entries.{
  name_of, length-new_entry, name_byte-new_entry, first_cluster_lo-new_entry, file_size-new_entry,
}
use black_hole_os.Fs.Fat16.Slots.{IsNamed, get_or-put_entry, length-put_entry}
use black_hole_os.Fs.Fat16.Entering.{free_in_root-inside, read_sector-entered, find-entered}
use black_hole_os.Fs.Fat16.Storing.{
  Stored, write_clusters-Stored, find_in_root-agree, chain_data-agree, clusters_needed-room,
}
use black_hole_os.Fs.Fat16.Files.{
  fail, disk_full_text, root_full_text, finish_write, enter_file, write_clusters, clusters_needed,
  cluster_bytes, root_lba, root_entry, fat16_write_file, fat16_read_file, fat16_delete_file,
}

-- A name whose first byte marks neither the end of the directory nor a deleted entry.
pub record IsStorable (name : List ℕ) : Type 0 where
  pub more : get_or (name_of name) 0 0 ≢ 0x00
  pub live : get_or (name_of name) 0 0 ≢ 0xE5

fail-ne :
    (buf text : List ℕ) (disk after : Disk) (s s' : Screen)
    → fail buf text disk s ≢ some (pos 0, after, s')
fail-ne buf text disk after s s' e = elim (Option-cases (printf buf text [] s)) [
  | inl fault ↦ absurd (let e' = rw fault at e in cc)
  | inr (out, printed) ↦
      let e' : some (negsuc 0, disk, out.1) ≡ some (pos 0, after, s') = rw printed at e in
      absurd (cc)
]

-- A write that succeeds has stored the clusters, and put the entry in a free slot.
finish_write-inverts :
    (v : Volume) (buf name : List ℕ) (size : ℕ) (o : Option ℕ) (disk after : Disk) (s s' : Screen)
    → finish_write v buf name size (o, disk) s ≡ some (pos 0, after, s')
    → (r : ℕ) × (t : ℕ) × (i : ℕ) × (o ≡ some r)
      × (free_in_root v 0 v.root_dir_sectors disk ≡ some (t, i))
      × (enter_file v name r size (t, i) disk ≡ after)
finish_write-inverts v buf name size none disk after s s' e =
    absurd (fail-ne buf disk_full_text disk after s s' e)
finish_write-inverts v buf name size (some r) disk after s s' e =
    elim (Option-cases (free_in_root v 0 v.root_dir_sectors disk)) [
      | inl full ↦
          absurd (fail-ne buf root_full_text disk after s s' (rw (full, finish_write) at e))
      | inr ((t, i), slot) ↦
          let e' : some (pos 0, enter_file v name r size (t, i) disk, s) ≡ some (pos 0, after, s') =
            rw (slot, finish_write) at e in
          (r, t, i, refl, slot, cc)
    ]

new_entry-IsNamed :
    (name : List ℕ) (cluster size : ℕ)
    → IsStorable name
    → IsNamed name (new_entry name cluster size)
new_entry-IsNamed name cluster size storable =
    let first = name_byte-new_entry name cluster size 0 (omega arith) in
    record {
      whole = length-new_entry name cluster size;
      more = λ e. storable.more (sym first ∙ e);
      live = λ e. storable.live (sym first ∙ e);
      matches = λ j inside. sym (name_byte-new_entry name cluster size j inside);
    }

module _ (v : Volume) (roomy : IsRoomy v) (name content : List ℕ) (size : ℕ)
    (enough : size ≤ length content) (small : size < 2 ^ 31) (storable : IsStorable name) (n r : ℕ)
    (before : Disk) (disk : Disk) (cs : List ℕ) (stored : Stored v content size n r before disk cs)
    (t i : ℕ) (slot : free_in_root v 0 v.root_dir_sectors disk ≡ some (t, i)) where
  root_fits : v.root_dir_start_lba + v.root_dir_sectors ≤ 2 ^ 28
  root_fits = omega (arith, roomy.laid.data_behind, roomy.laid.data_on_disk)

  abbrev entry : List ℕ
  entry = new_entry name r size

  abbrev written : Disk
  written = enter_file v name r size (t, i) disk

  named : IsNamed name entry
  named = new_entry-IsNamed name r size storable

  inside : (0 ≤ t) × (t < 0 + v.root_dir_sectors) × (i < 16)
  inside = free_in_root-inside v name disk stored.sized root_fits 0 v.root_dir_sectors t i slot

  size_root : length (read_sector (root_lba v t) disk) ≡ 512
  size_root = length-read_sector (root_lba v t) disk stored.sized

  slot_lba : root_lba v t ≡ v.root_dir_start_lba + t
  slot_lba = omega (arith, inside.1, root_fits)

  -- The entry is where the search finds it.
  placed : (j : ℕ) → j < 32 → get_or (root_entry v (t, i) written) j 0 ≡ get_or entry j 0
  placed j low =
      let at : (root_lba v t % 2 ^ 28 == root_lba v t % 2 ^ 28) ≡ true = ground arith in
      ap (λ (b : List ℕ). get_or (entry_at b i) j 0)
        (read_sector-entered v name disk stored.sized root_fits entry named t i inside.2
            (root_lba v t)
          ∙ rw at refl)
      ∙ get_or-put_entry (read_sector (root_lba v t) disk) i entry size_root inside.2 named.whole j
          low

  starts_at : first_cluster_lo (root_entry v (t, i) written) ≡ r
  starts_at =
      rw (placed 26 (omega arith), placed 27 (omega arith))
        (first_cluster_lo-new_entry name r size ∙ omega (arith, stored.starts.high))

  size_at : file_size (root_entry v (t, i) written) ≡ size
  size_at =
      rw
        (
          placed 28 (omega arith),
          placed 29 (omega arith),
          placed 30 (omega arith),
          placed 31 (omega arith),
        )
        (file_size-new_entry name r size ∙ omega arith)

  -- The entry went to no sector of the table or of the data.
  keeps_table : (d : ℕ) → IsCluster d → fat_read_entry v d written ≡ fat_read_entry v d disk
  keeps_table d is =
      fat_read_entry-behind v d (root_lba v t) (put_entry (read_sector (root_lba v t) disk) i entry)
        disk roomy.laid.table (IsCluster-HasEntry v d roomy is)
        (omega (arith, slot_lba, roomy.laid.root_behind))
        (omega (arith, slot_lba, inside.1, root_fits))
        (length-put_entry (read_sector (root_lba v t) disk) i entry size_root inside.2 named.whole)

  keeps_data :
      (l : ℕ) → v.data_start_lba ≤ l → l < 2 ^ 28 → read_sector l written ≡ read_sector l disk
  keeps_data l behind on_disk =
      let other : (l % 2 ^ 28 == root_lba v t % 2 ^ 28) ≡ false =
        ground (arith, slot_lba, inside.1, roomy.laid.data_behind) in
      read_sector-entered v name disk stored.sized root_fits entry named t i inside.2 l
      ∙ rw other refl

  written-Sized : Sized written
  written-Sized =
      write_sector-Sized (root_lba v t) (put_entry (read_sector (root_lba v t) disk) i entry) disk
        (length-put_entry (read_sector (root_lba v t) disk) i entry size_root inside.2 named.whole)
        stored.sized

  written-Chain : Chain v written r cs
  written-Chain =
      Chain-agree v disk written r cs (λ d m. keeps_table d (stored.clusters d m)) stored.chain

  written-bytes : chain_data v written cs ≡ chunks v content size 0 n
  written-bytes = chain_data-agree v roomy cs disk written stored.clusters keeps_data ∙ stored.bytes

  read-written :
      (fuel : ℕ) (buffer : List ℕ) (buf_size : ℕ)
      → find_in_root v name 0 v.root_dir_sectors disk ≡ none
      → size ≤ n * cluster_bytes v
      → n * cluster_bytes v < 2 ^ 32
      → n < fuel
      → size ≤ buf_size
      → size ≤ length buffer
      → fat16_read_file v fuel name buffer buf_size written
        ≡ some (pos size, take size content ++ drop size buffer)
  read-written fuel buffer buf_size missing room wrap rounds fits long =
      let found : find_in_root v name 0 v.root_dir_sectors written ≡ some (t, i) =
        find-entered v name disk stored.sized root_fits entry named t i inside.2 0
          v.root_dir_sectors (omega arith) missing slot in
      let chain = subst (λ (k : ℕ). Chain v written k cs) (sym starts_at) written-Chain in
      let read =
        fat16_read_file-chain_data v fuel name buffer buf_size written t i cs written-Sized found
          chain (omega (arith, stored.count)) (omega (arith, size_at)) in
      let all_bytes = length-chunks content size enough v 0 n in
      let count : min (min size buf_size) (length (chunks v content size 0 n)) ≡ size =
        omega (arith, all_bytes) in
      let number : to_int size ≡ pos size = ground arith in
      let none_before : 0 * cluster_bytes v ≡ 0 = grind arith in
      let begin : take size (chunks v content size 0 n) ≡ take size content =
        let sum : (0 + n) * cluster_bytes v ≡ n * cluster_bytes v = grind arith in
        let whole = take-chunks content size enough v 0 n (omega (arith, sum)) in
        let from_first = rw none_before at whole in
        let left : size - 0 ≡ size = omega arith in
        let from_all = rw left at from_first in
        let kept : min (n * cluster_bytes v) size ≡ size = omega arith in rw kept at from_all in
      read ∙ rw (size_at, written-bytes, count, number, begin) refl

module _ (v : Volume) (roomy : IsRoomy v) (name content : List ℕ) (size : ℕ)
    (enough : size ≤ length content) (small : size < 2 ^ 31) (storable : IsStorable name) where
  write_file-inverts :
      (fuel : ℕ) (buf : List ℕ) (disk deleted after : Disk) (ret : ℤ) (s s' : Screen)
      → fat16_delete_file v fuel name disk ≡ some (ret, deleted)
      → fat16_write_file v fuel buf name content size disk s ≡ some (pos 0, after, s')
      → finish_write v buf name size
          (write_clusters v content size 0 (clusters_needed v size) 0 0 deleted)
          s
        ≡ some (pos 0, after, s')
  unfolding fat16_write_file
  write_file-inverts fuel buf disk deleted after ret s s' gone run =
      let fine : (cluster_bytes v == 0 || ltb (length content) size) ≡ false =
        ground (arith, roomy.some_sectors, enough) in
      rw (gone, fine) at run

  -- A file that is written is read back. On a volume with room for the clusters that the allocation
  -- looks at, let the name be missing once the deletion that a write begins with is done, and let
  -- its first byte be no mark of the directory. If the write returns 0, then reading the name
  -- returns the size, and the first bytes of a buffer that is large enough are those that were
  -- written: given fuel for one step more than the file has clusters, and a size below 2^31.
  pub fat16_read_file-fat16_write_file :
      (fuel fuel' : ℕ) (buf buffer : List ℕ) (buf_size : ℕ) (disk deleted after : Disk) (ret : ℤ)
      (s s' : Screen)
      → Sized deleted
      → fat16_delete_file v fuel name disk ≡ some (ret, deleted)
      → find_in_root v name 0 v.root_dir_sectors deleted ≡ none
      → fat16_write_file v fuel buf name content size disk s ≡ some (pos 0, after, s')
      → clusters_needed v size < fuel'
      → size ≤ buf_size
      → size ≤ length buffer
      → fat16_read_file v fuel' name buffer buf_size after
        ≡ some (pos size, take size content ++ drop size buffer)
  fat16_read_file-fat16_write_file fuel fuel' buf buffer buf_size disk deleted after ret s s' sized
        gone missing run rounds fits long =
      let (m, needed, room, wrap) = clusters_needed-room v roomy size small in
      let finished =
        rw needed at (write_file-inverts fuel buf disk deleted after ret s s' gone run) in
      let out = write_clusters v content size 0 (suc m) 0 0 deleted in
      let (r, t, i, first, slot, entered) =
        finish_write-inverts v buf name size out.0 out.1 after s s' finished in
      let (cs, stored) =
        write_clusters-Stored v roomy content size enough m r deleted sized first in
      let same = find_in_root-agree v name 0 v.root_dir_sectors deleted out.1 (λ l low high.
        stored.between (root_lba v l)
          (omega (arith, roomy.laid.root_behind, roomy.laid.data_behind, roomy.laid.data_on_disk))
          (omega (arith, roomy.laid.data_behind, roomy.laid.data_on_disk))) in
      subst
        (λ (d : Disk).
          fat16_read_file v fuel' name buffer buf_size d
          ≡ some (pos size, take size content ++ drop size buffer))
        entered
        (read-written v roomy name content size enough small storable (suc m) r deleted out.1 cs
          stored t i slot fuel' buffer buf_size (same ∙ missing) room wrap
          (omega (arith, needed, rounds)) fits long)
