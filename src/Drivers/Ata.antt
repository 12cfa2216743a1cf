-- ===== src/Drivers/Ata.antt =====
-- drivers/ata.c: the disk driver, over the port instructions of kernel/idt.h. The device behind the
-- ports is a parameter. A loop that polls takes fuel, and `none` is running out of it, or an access
-- past the end of the buffer.
pub mod Device
pub mod Disk
pub mod Polling
pub mod Setup
pub mod Words
pub mod Transfer
pub mod Start
pub mod Sample
mod Tests
use mathlib.Core.Option
use black_hole_os.Prelude.{
  ℕ, zero, suc, ◌+◌, ◌*◌, ◌/◌, ◌%◌, ◌^◌, Bool, ◌>>=◌, Option, none, some, List, [], ◌∷◌, bit_and,
  bit_or, ◌==◌, if◌then◌else◌,
}
use black_hole_os.Drivers.Vga.{Screen}
use black_hole_os.Libc.Stdio.{printf}

-- `inb`, `inw`, `outb` and `outw` on the state of what is behind the ports.
pub record Ports : Type 1 where
  pub State : Type 0
  pub inb : ℕ → State → ℕ × State
  pub inw : ℕ → State → ℕ × State
  pub outb : ℕ → ℕ → State → State
  pub outw : ℕ → ℕ → State → State

abbrev pub ata_port_data : ℕ
ata_port_data = 0x1F0

abbrev pub ata_port_features : ℕ
ata_port_features = 0x1F1

abbrev pub ata_port_sector_cnt : ℕ
ata_port_sector_cnt = 0x1F2

abbrev pub ata_port_lba_lo : ℕ
ata_port_lba_lo = 0x1F3

abbrev pub ata_port_lba_mid : ℕ
ata_port_lba_mid = 0x1F4

abbrev pub ata_port_lba_hi : ℕ
ata_port_lba_hi = 0x1F5

abbrev pub ata_port_drive : ℕ
ata_port_drive = 0x1F6

abbrev pub ata_port_command : ℕ
ata_port_command = 0x1F7

abbrev pub ata_port_status : ℕ
ata_port_status = 0x1F7

abbrev pub ata_cmd_read_pio : ℕ
ata_cmd_read_pio = 0x20

abbrev pub ata_cmd_write_pio : ℕ
ata_cmd_write_pio = 0x30

abbrev pub ata_cmd_cache_flush : ℕ
ata_cmd_cache_flush = 0xE7

abbrev pub ata_sr_drq : ℕ
ata_sr_drq = 0x08

abbrev pub ata_sr_bsy : ℕ
ata_sr_bsy = 0x80

abbrev pub no_drive_text : List ℕ
no_drive_text =
    b'[' ∷ b'A' ∷ b'T' ∷ b'A' ∷ b']' ∷ b' ' ∷ b'N' ∷ b'o' ∷ b' ' ∷ b'p' ∷ b'r' ∷ b'i' ∷ b'm' ∷ b'a'
    ∷ b'r' ∷ b'y' ∷ b' ' ∷ b'I' ∷ b'D' ∷ b'E' ∷ b' ' ∷ b'm' ∷ b'a' ∷ b's' ∷ b't' ∷ b'e' ∷ b'r'
    ∷ b' ' ∷ b'd' ∷ b'r' ∷ b'i' ∷ b'v' ∷ b'e' ∷ b' ' ∷ b'f' ∷ b'o' ∷ b'u' ∷ b'n' ∷ b'd' ∷ b'.' ∷ 10
    ∷ 0 ∷ []

abbrev pub initialized_text : List ℕ
initialized_text =
    b'>' ∷ b' ' ∷ b'P' ∷ b'r' ∷ b'i' ∷ b'm' ∷ b'a' ∷ b'r' ∷ b'y' ∷ b' ' ∷ b'A' ∷ b'T' ∷ b'A' ∷ b' '
    ∷ b'D' ∷ b'r' ∷ b'i' ∷ b'v' ∷ b'e' ∷ b' ' ∷ b'i' ∷ b'n' ∷ b'i' ∷ b't' ∷ b'i' ∷ b'a' ∷ b'l'
    ∷ b'i' ∷ b'z' ∷ b'e' ∷ b'd' ∷ b'.' ∷ 10 ∷ 0 ∷ []

module _ (ports : Ports) where
  unfoldable pub ata_wait_bsy : ℕ → ports.State → Option ports.State
  ata_wait_bsy zero s = none
  ata_wait_bsy (suc fuel) s =
      let polled = ports.inb ata_port_status s in
      let again = ata_wait_bsy fuel polled.1 in
      if bit_and polled.0 ata_sr_bsy == 0 then some polled.1 else again

  unfoldable pub ata_wait_drq : ℕ → ports.State → Option ports.State
  ata_wait_drq zero s = none
  ata_wait_drq (suc fuel) s =
      let polled = ports.inb ata_port_status s in
      let again = ata_wait_drq fuel polled.1 in
      if bit_and polled.0 ata_sr_drq == 0 then again else some polled.1

  -- `0xE0 | (drive << 4) | ((lba >> 24) & 0x0F)`
  abbrev pub drive_byte : ℕ → ℕ → ℕ
  drive_byte lba drive = bit_or (bit_or 0xE0 (drive * 2 ^ 4)) (bit_and (lba / 2 ^ 24) 0x0F) % 2 ^ 8

  -- The six writes of `ata_pio_setup` behind its wait.
  abbrev pub select_sector : ℕ → ℕ → ports.State → ports.State
  select_sector lba drive s =
      let s = ports.outb ata_port_drive (drive_byte lba drive) s in
      let s = ports.outb ata_port_features 0 s in
      let s = ports.outb ata_port_sector_cnt 1 s in
      let s = ports.outb ata_port_lba_lo (lba % 2 ^ 8) s in
      let s = ports.outb ata_port_lba_mid (lba / 2 ^ 8 % 2 ^ 8) s in
      ports.outb ata_port_lba_hi (lba / 2 ^ 16 % 2 ^ 8) s

  unfoldable pub ata_pio_setup : ℕ → ℕ → ℕ → ports.State → Option ports.State
  ata_pio_setup fuel lba drive s = Option.map (select_sector lba drive) (ata_wait_bsy fuel s)

  -- The loop of `ata_read_sector`, on the pointer `buffer + i * 2`.
  unfoldable pub read_words : ℕ → List ℕ → ports.State → Option (List ℕ × ports.State)
  read_words zero buffer s = some (buffer, s)
  read_words (suc n) [] s = none
  read_words (suc n) (x ∷ []) s = none
  read_words (suc n) (x ∷ y ∷ buffer) s =
      let w = ports.inw ata_port_data s in
      Option.map (λ out. (bit_and w.0 0xFF % 2 ^ 8 ∷ (w.0 / 2 ^ 8 % 2 ^ 8) ∷ out.0, out.1))
        (read_words n buffer w.1)

  unfoldable pub ata_read_sector : ℕ → ℕ → List ℕ → ports.State → Option (List ℕ × ports.State)
  ata_read_sector fuel lba buffer s = do
    selected ← ata_pio_setup fuel lba 0 s
    idle ← ata_wait_bsy fuel (ports.outb ata_port_command ata_cmd_read_pio selected)
    ready ← ata_wait_drq fuel idle
    read_words 256 buffer ready

  -- The loop of `ata_write_sector`, on the pointer `buffer + i * 2`.
  unfoldable pub write_words : ℕ → List ℕ → ports.State → Option ports.State
  write_words zero buffer s = some s
  write_words (suc n) [] s = none
  write_words (suc n) (x ∷ []) s = none
  write_words (suc n) (x ∷ y ∷ buffer) s =
      write_words n buffer (ports.outw ata_port_data (bit_or x (y * 2 ^ 8) % 2 ^ 16) s)

  unfoldable pub ata_write_sector : ℕ → ℕ → List ℕ → ports.State → Option ports.State
  ata_write_sector fuel lba buffer s = do
    selected ← ata_pio_setup fuel lba 0 s
    idle ← ata_wait_bsy fuel (ports.outb ata_port_command ata_cmd_write_pio selected)
    ready ← ata_wait_drq fuel idle
    written ← write_words 256 buffer ready
    ata_wait_bsy fuel (ports.outb ata_port_command ata_cmd_cache_flush written)

  -- The data of IDENTIFY, that the code drops.
  unfoldable pub drain : ℕ → ports.State → ports.State
  drain zero s = s
  drain (suc n) s = drain n (ports.inw ata_port_data s).1

  -- The port writes of `ata_init`.
  abbrev pub identify : ports.State → ports.State
  identify s =
      let s = ports.outb ata_port_drive 0xA0 s in
      let s = ports.outb ata_port_sector_cnt 0 s in
      let s = ports.outb ata_port_lba_lo 0 s in
      let s = ports.outb ata_port_lba_mid 0 s in
      let s = ports.outb ata_port_lba_hi 0 s in ports.outb ata_port_command 0xEC s

  -- A message and the state that the ports are left in. `buf` is the buffer of `printf`.
  abbrev pub report : List ℕ → List ℕ → ports.State → Screen → Option (ports.State × Screen)
  report buf text s screen = Option.map (λ out. (s, out.1)) (printf buf text [] screen)

  abbrev pub finish_init : List ℕ → ports.State → Screen → Option (ports.State × Screen)
  finish_init buf s screen =
      let polled = ports.inb ata_port_status s in
      report buf initialized_text
        (if bit_and polled.0 ata_sr_drq == 0 then polled.1 else drain 256 polled.1) screen

  unfoldable pub ata_init : ℕ → List ℕ → ports.State → Screen → Option (ports.State × Screen)
  ata_init fuel buf s screen =
      let polled = ports.inb ata_port_status (identify s) in
      let present : Option (ports.State × Screen) = (do
        s ← ata_wait_bsy fuel polled.1
        finish_init buf s screen) in
      if polled.0 == 0 then report buf no_drive_text polled.1 screen else present
