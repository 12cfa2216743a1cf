-- ===== src/Drivers/Ata/Setup.antt =====
-- What `ata_pio_setup` of drivers/ata.c leaves in the registers of the drive.
use mathlib.Core.Option
use black_hole_os.Prelude.{
  ℕ, ◌+◌, ◌/◌, ◌%◌, ◌^◌, ◌<◌, ◌≡◌, refl, ap, arith, bit_or, bit_and-mod, bit_or-add,
}
use black_hole_os.Drivers.Ata.{Ports, ata_pio_setup, select_sector, drive_byte}
use black_hole_os.Drivers.Ata.Device.{Drive, IsAta, View, Selects, address}
use black_hole_os.Drivers.Ata.Polling.{Ready, Ends, ata_wait_bsy-Ends}

-- The registers for a sector of the master.
abbrev pub selecting : ℕ → View → View
selecting lba v = record v {
  drive = 0xE0 + lba / 2 ^ 24 % 2 ^ 4;
  count = 1;
  low = lba % 2 ^ 8;
  mid = lba / 2 ^ 8 % 2 ^ 8;
  high = lba / 2 ^ 16 % 2 ^ 8;
}

pub address-selecting : (lba : ℕ) (v : View) → address (selecting lba v) ≡ lba % 2 ^ 28
address-selecting lba v = omega arith

pub selecting-Selects : (lba : ℕ) (v : View) → Selects (selecting lba v)
selecting-Selects lba v = record { mode = omega arith; single = refl }

module _ {ports : Ports} {drive : Drive ports} {latency : ℕ} (ata : IsAta ports drive latency) where
  drive_byte_lem : (lba : ℕ) → drive_byte ports lba 0 ≡ 0xE0 + lba / 2 ^ 24 % 2 ^ 4
  drive_byte_lem lba =
      let top = bit_and-mod 4 (lba / 2 ^ 24) in
      let small : lba / 2 ^ 24 % 2 ^ 4 < 2 ^ 4 = omega arith in
      let joined : bit_or 0xE0 (lba / 2 ^ 24 % 2 ^ 4) ≡ 0xE0 + lba / 2 ^ 24 % 2 ^ 4 =
        bit_or-add 4 14 (lba / 2 ^ 24 % 2 ^ 4) small in
      rw (top, joined) (omega arith)

  select_sector-Ready :
      (lba : ℕ) (s : ports.State) (v : View)
      → Ready drive v s
      → Ready drive (selecting lba v) (select_sector ports lba 0 s)
  select_sector-Ready lba s v ready =
      let (v1, d1) = ata.put_drive s (drive_byte ports lba 0) ready.no_delay in
      let s1 = ports.outb 0x1F6 (drive_byte ports lba 0) s in
      let (v2, d2) = ata.put_features s1 0 d1 in
      let s2 = ports.outb 0x1F1 0 s1 in
      let (v3, d3) = ata.put_count s2 1 d2 in
      let s3 = ports.outb 0x1F2 1 s2 in
      let (v4, d4) = ata.put_low s3 (lba % 2 ^ 8) d3 in
      let s4 = ports.outb 0x1F3 (lba % 2 ^ 8) s3 in
      let (v5, d5) = ata.put_mid s4 (lba / 2 ^ 8 % 2 ^ 8) d4 in
      let s5 = ports.outb 0x1F4 (lba / 2 ^ 8 % 2 ^ 8) s4 in
      let (v6, d6) = ata.put_high s5 (lba / 2 ^ 16 % 2 ^ 8) d5 in
      record {
        view_is = rw (v6, v5, v4, v3, v2, v1, ready.view_is, drive_byte_lem lba) refl;
        no_delay = d6;
      }

  pub ata_pio_setup-Ends :
      (fuel lba : ℕ) (s : ports.State)
      → latency < fuel
      → Ends drive (ata_pio_setup ports fuel lba 0 s) (selecting lba (drive.view s))
  unfolding ata_pio_setup
  ata_pio_setup-Ends fuel lba s enough =
      let (s', run, ready) = ata_wait_bsy-Ends ata fuel s enough in
      (
        select_sector ports lba 0 s',
        ap (Option.map (select_sector ports lba 0)) run,
        select_sector-Ready lba s' (drive.view s) ready,
      )
