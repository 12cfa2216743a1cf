-- ===== src/Drivers/Ata/Device.antt =====
-- What drivers/ata.c relies on of an ATA drive: its task file, its status register and its data
-- register, as the standard documents them.
use black_hole_os.Prelude.{
  ℕ, ◌+◌, ◌*◌, ◌/◌, ◌%◌, ◌^◌, ◌<◌, ◌≤◌, ◌≡◌, ◌≢◌, List, [], ◌∷◌, ◌++◌, bit_and, ◌==◌, if◌then◌else◌,
  length,
}
use black_hole_os.Drivers.Ata.{Ports}

-- What the drive does with its data register: nothing, or it has the words of a sector left to
-- give, or it has got some words for a sector.
pub data Transfer : Type 0 where
  idle : Transfer
  reading : List ℕ → Transfer
  writing : ℕ → List ℕ → Transfer

-- The registers that a host writes, the transfer, and the words of every sector.
pub record View : Type 0 where
  pub drive : ℕ
  pub count : ℕ
  pub low : ℕ
  pub mid : ℕ
  pub high : ℕ
  pub transfer : Transfer
  pub stored : ℕ → List ℕ

-- The 28-bit address in the registers.
abbrev pub address : View → ℕ
address v = v.drive % 2 ^ 4 * 2 ^ 24 + v.high * 2 ^ 16 + v.mid * 2 ^ 8 + v.low

-- Master, in LBA mode, for one sector.
pub record Selects (v : View) : Type 0 where
  pub mode : v.drive / 2 ^ 4 ≡ 14
  pub single : v.count ≡ 1

abbrev pub give : List ℕ → Transfer
give [] = idle
give (w ∷ words) = reading (w ∷ words)

abbrev pub store : (ℕ → List ℕ) → ℕ → List ℕ → ℕ → List ℕ
store stored lba words l = if l == lba then words else stored l

abbrev pub Wants : Transfer → Type 0
Wants idle = ⊥
Wants (reading words) = Unit
Wants (writing lba words) = Unit

-- How the device looks from its ports, and how many polls it stays busy.
pub record Drive (ports : Ports) : Type 0 where
  pub view : ports.State → View
  pub delay : ports.State → ℕ

-- The documented behaviour: a busy drive becomes ready, one that is ready keeps the registers that
-- the host writes, and a command starts its transfer.
pub record IsAta (ports : Ports) (drive : Drive ports) (latency : ℕ) : Type 0 where
  pub prompt : (s : ports.State) → drive.delay s ≤ latency
  pub poll_view : (s : ports.State) → drive.view (ports.inb 0x1F7 s).1 ≡ drive.view s
  pub poll_busy :
      (s : ports.State)
      → 0 < drive.delay s
      → (bit_and (ports.inb 0x1F7 s).0 0x80 ≢ 0)
        × (drive.delay (ports.inb 0x1F7 s).1 < drive.delay s)
  pub poll_ready :
      (s : ports.State)
      → drive.delay s ≡ 0
      → (bit_and (ports.inb 0x1F7 s).0 0x80 ≡ 0) × (drive.delay (ports.inb 0x1F7 s).1 ≡ 0)
  pub poll_request :
      (s : ports.State)
      → drive.delay s ≡ 0
      → Wants (drive.view s).transfer
      → bit_and (ports.inb 0x1F7 s).0 0x08 ≢ 0
  pub put_drive :
      (s : ports.State) (v : ℕ)
      → drive.delay s ≡ 0
      → (drive.view (ports.outb 0x1F6 v s) ≡ record (drive.view s) { drive = v })
        × (drive.delay (ports.outb 0x1F6 v s) ≡ 0)
  pub put_features :
      (s : ports.State) (v : ℕ)
      → drive.delay s ≡ 0
      → (drive.view (ports.outb 0x1F1 v s) ≡ drive.view s)
        × (drive.delay (ports.outb 0x1F1 v s) ≡ 0)
  pub put_count :
      (s : ports.State) (v : ℕ)
      → drive.delay s ≡ 0
      → (drive.view (ports.outb 0x1F2 v s) ≡ record (drive.view s) { count = v })
        × (drive.delay (ports.outb 0x1F2 v s) ≡ 0)
  pub put_low :
      (s : ports.State) (v : ℕ)
      → drive.delay s ≡ 0
      → (drive.view (ports.outb 0x1F3 v s) ≡ record (drive.view s) { low = v })
        × (drive.delay (ports.outb 0x1F3 v s) ≡ 0)
  pub put_mid :
      (s : ports.State) (v : ℕ)
      → drive.delay s ≡ 0
      → (drive.view (ports.outb 0x1F4 v s) ≡ record (drive.view s) { mid = v })
        × (drive.delay (ports.outb 0x1F4 v s) ≡ 0)
  pub put_high :
      (s : ports.State) (v : ℕ)
      → drive.delay s ≡ 0
      → (drive.view (ports.outb 0x1F5 v s) ≡ record (drive.view s) { high = v })
        × (drive.delay (ports.outb 0x1F5 v s) ≡ 0)
  pub read_command :
      (s : ports.State)
      → drive.delay s ≡ 0
      → (drive.view s).transfer ≡ idle
      → Selects (drive.view s)
      → drive.view (ports.outb 0x1F7 0x20 s)
        ≡ record (drive.view s) { transfer = give ((drive.view s).stored (address (drive.view s))) }
  pub write_command :
      (s : ports.State)
      → drive.delay s ≡ 0
      → (drive.view s).transfer ≡ idle
      → Selects (drive.view s)
      → drive.view (ports.outb 0x1F7 0x30 s)
        ≡ record (drive.view s) { transfer = writing (address (drive.view s)) [] }
  pub flush_command :
      (s : ports.State)
      → drive.delay s ≡ 0
      → (drive.view s).transfer ≡ idle
      → drive.view (ports.outb 0x1F7 0xE7 s) ≡ drive.view s
  pub get_data :
      (s : ports.State) (w : ℕ) (words : List ℕ)
      → drive.delay s ≡ 0
      → (drive.view s).transfer ≡ reading (w ∷ words)
      → ((ports.inw 0x1F0 s).0 ≡ w)
        × (drive.view (ports.inw 0x1F0 s).1 ≡ record (drive.view s) { transfer = give words })
        × (drive.delay (ports.inw 0x1F0 s).1 ≡ 0)
  pub put_data :
      (s : ports.State) (w lba : ℕ) (words : List ℕ)
      → drive.delay s ≡ 0
      → (drive.view s).transfer ≡ writing lba words
      → length words < 255
      → (drive.view (ports.outw 0x1F0 w s)
          ≡ record (drive.view s) { transfer = writing lba (words ++ w ∷ []) })
        × (drive.delay (ports.outw 0x1F0 w s) ≡ 0)
  pub put_last :
      (s : ports.State) (w lba : ℕ) (words : List ℕ)
      → drive.delay s ≡ 0
      → (drive.view s).transfer ≡ writing lba words
      → length words ≡ 255
      → drive.view (ports.outw 0x1F0 w s) ≡ record (drive.view s) {
        transfer = idle;
        stored = store (drive.view s).stored lba (words ++ w ∷ []);
      }

-- A drive that takes the last word of a sector into its cache, and is not busy then.
abbrev pub TakesAtOnce : (ports : Ports) → Drive ports → Type 0
TakesAtOnce ports drive =
    (s : ports.State) (w lba : ℕ) (words : List ℕ)
    → drive.delay s ≡ 0
    → (drive.view s).transfer ≡ writing lba words
    → drive.delay (ports.outw 0x1F0 w s) ≡ 0

-- The command IDENTIFY DEVICE has the drive give 256 words about itself.
pub record Identifies (ports : Ports) (drive : Drive ports) : Type 0 where
  pub answer : List ℕ
  pub answer_size : length answer ≡ 256
  pub identify_command :
      (s : ports.State)
      → drive.delay s ≡ 0
      → (drive.view s).transfer ≡ idle
      → drive.view (ports.outb 0x1F7 0xEC s) ≡ record (drive.view s) { transfer = give answer }
