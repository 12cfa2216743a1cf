-- ===== src/Drivers/Ata/Transfer.antt =====
-- The transfers of drivers/ata.c against a disk that is a function from sectors to bytes.
use black_hole_os.Prelude.{
  ℕ, ◌%◌, ◌^◌, ◌<◌, ◌≤◌, ◌≡◌, refl, sym, ◌∙◌, ap, subst, arith, some, List, [], ◌++◌, length, drop,
  All, ◌==◌, if◌then◌else◌,
}
use black_hole_os.Drivers.Ata.{Ports, ata_read_sector, ata_write_sector, ata_wait_bsy, ata_wait_drq}
use black_hole_os.Drivers.Ata.Device.{
  Drive, IsAta, TakesAtOnce, View, idle, writing, give, Wants, Selects,
}
use black_hole_os.Drivers.Ata.Words.{
  bytes_of, pack, bytes_of-pack, length-pack, give-Wants, length-store, bytes_of-store, during,
  read_words-Ends, write_words-Ends,
}
use black_hole_os.Drivers.Ata.Disk.{Disk, read_sector, write_sector}
use black_hole_os.Drivers.Ata.Polling.{Ready, ata_wait_bsy-Ends, ata_wait_drq-Ends}
use black_hole_os.Drivers.Ata.Setup.{
  selecting, address-selecting, selecting-Selects, ata_pio_setup-Ends,
}

module _ {ports : Ports} where
  -- The bytes of the sectors.
  unfoldable pub disk_of : Drive ports → ports.State → Disk
  disk_of drive s lba = bytes_of ((drive.view s).stored lba)

  -- Between two calls of the driver: no transfer is under way, and every sector has its 256 words.
  pub record AtRest (drive : Drive ports) (s : ports.State) : Type 0 where
    pub no_transfer : (drive.view s).transfer ≡ idle
    pub sized : (lba : ℕ) → length ((drive.view s).stored lba) ≡ 256

module _ {ports : Ports} {drive : Drive ports} {latency : ℕ} (ata : IsAta ports drive latency) where
  -- The two waits behind a command that starts a transfer.
  command-Ends :
      (fuel : ℕ) (s : ports.State) (v : View)
      → latency < fuel
      → drive.view s ≡ v
      → Wants v.transfer
      → (s1 : ports.State) × (s2 : ports.State) × (ata_wait_bsy ports fuel s ≡ some s1)
        × (ata_wait_drq ports fuel s1 ≡ some s2)
        × Ready drive v s2
  command-Ends fuel s v enough e wants =
      let (s1, run1, ready1) = ata_wait_bsy-Ends ata fuel s enough in
      let ready : Ready drive v s1 = record {
        view_is = ready1.view_is ∙ e;
        no_delay = ready1.no_delay;
      } in
      let (s2, run2, ready2) = ata_wait_drq-Ends ata fuel s1 v enough ready wants in
      (s1, s2, run1, run2, ready2)

  selected-Selects :
      (lba : ℕ) (s s1 : ports.State)
      → Ready drive (selecting lba (drive.view s)) s1
      → AtRest drive s
      → Selects (drive.view s1) × ((drive.view s1).transfer ≡ idle)
  selected-Selects lba s s1 ready rest = (
    subst Selects (sym ready.view_is) (selecting-Selects lba (drive.view s)),
    ap (λ (v : View). v.transfer) ready.view_is ∙ rest.no_transfer,
  )

  -- On a drive at rest, and with fuel for one poll more than the drive may stay busy,
  -- `ata_read_sector` ends: the buffer has the bytes of the sector that the low 28 bits of `lba`
  -- number, and behind them what it had, and the drive is at rest with the same disk.
  pub ata_read_sector-disk_of :
      (fuel lba : ℕ) (buffer : List ℕ) (s : ports.State)
      → latency < fuel
      → 512 ≤ length buffer
      → AtRest drive s
      → (s' : ports.State) × (ata_read_sector ports fuel lba buffer s
          ≡ some (read_sector lba (disk_of drive s) ++ drop 512 buffer, s'))
        × AtRest drive s'
        × ((l : ℕ) → disk_of drive s' l ≡ disk_of drive s l)
  unfolding ata_read_sector disk_of read_sector
  ata_read_sector-disk_of fuel lba buffer s enough long rest =
      let (s1, run1, ready1) = ata_pio_setup-Ends ata fuel lba s enough in
      let v = selecting lba (drive.view s) in
      let (selects, free) = selected-Selects lba s s1 ready1 rest in
      let words = v.stored (lba % 2 ^ 28) in
      let started : drive.view (ports.outb 0x1F7 0x20 s1) ≡ during v (give words) =
        rw
          (
            ata.read_command s1 ready1.no_delay free selects,
            ready1.view_is,
            address-selecting lba (drive.view s),
          )
          refl in
      let count : length words ≡ 256 = rest.sized (lba % 2 ^ 28) in
      let (s2, s3, run2, run3, ready3) =
        command-Ends fuel (ports.outb 0x1F7 0x20 s1) (during v (give words)) enough started
          (give-Wants words (omega arith)) in
      let (s4, run4, ready4) = read_words-Ends ata words buffer s3 v (omega arith) ready3 in
      let got = rw count at run4 in
      (
        s4,
        rw (run1, run2, run3, got) refl,
        record {
          no_transfer = ap (λ (v' : View). v'.transfer) ready4.view_is;
          sized = λ l. ap (λ (v' : View). length (v'.stored l)) ready4.view_is ∙ rest.sized l;
        },
        λ l. ap (λ (v' : View). bytes_of (v'.stored l)) ready4.view_is,
      )

  -- On a drive at rest that is not busy when it has got the last word of a sector, and with fuel
  -- for one poll more than the drive may stay busy, `ata_write_sector` ends: the sector that the
  -- low 28 bits of `lba` number has the first 512 bytes of the buffer, every other sector what it
  -- had, and the drive is at rest.
  pub ata_write_sector-disk_of :
      (quick : TakesAtOnce ports drive) (fuel lba : ℕ) (buffer : List ℕ) (s : ports.State)
      → latency < fuel
      → 512 ≤ length buffer
      → All (λ b. b < 2 ^ 8) buffer
      → AtRest drive s
      → (s' : ports.State) × (ata_write_sector ports fuel lba buffer s ≡ some s')
        × AtRest drive s'
        × ((l : ℕ) → disk_of drive s' l ≡ write_sector lba buffer (disk_of drive s) l)
  unfolding ata_write_sector disk_of write_sector
  ata_write_sector-disk_of quick fuel lba buffer s enough long all rest =
      let (s1, run1, ready1) = ata_pio_setup-Ends ata fuel lba s enough in
      let v = selecting lba (drive.view s) in
      let (selects, free) = selected-Selects lba s s1 ready1 rest in
      let here = lba % 2 ^ 28 in
      let words = pack 256 buffer in
      let started : drive.view (ports.outb 0x1F7 0x30 s1) ≡ during v (writing here []) =
        rw
          (
            ata.write_command s1 ready1.no_delay free selects,
            ready1.view_is,
            address-selecting lba (drive.view s),
          )
          refl in
      let (s2, s3, run2, run3, ready3) =
        command-Ends fuel (ports.outb 0x1F7 0x30 s1) (during v (writing here [])) enough started
          tt in
      let (s4, run4, after, on) =
        write_words-Ends ata quick 255 buffer [] here s3 v (omega arith) refl ready3 in
      let flushed = ata.flush_command s4 on (ap (λ (v' : View). v'.transfer) after) in
      let (s5, run5, ready5) = ata_wait_bsy-Ends ata fuel (ports.outb 0x1F7 0xE7 s4) enough in
      let end = ready5.view_is ∙ flushed ∙ after in
      (
        s5,
        rw (run1, run2, run3, run4, run5) refl,
        record {
          no_transfer = ap (λ (v' : View). v'.transfer) end;
          sized = λ l.
              ap (λ (v' : View). length (v'.stored l)) end
              ∙ length-store v.stored here words l (length-pack 256 buffer long) (rest.sized l);
        },
        λ l.
            ap (λ (v' : View). bytes_of (v'.stored l)) end
            ∙ bytes_of-store v.stored here words l
            ∙ ap (λ (b : List ℕ). if l == here then b else bytes_of (v.stored l))
                (bytes_of-pack 256 buffer long all),
      )
