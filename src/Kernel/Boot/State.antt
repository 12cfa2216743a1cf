-- ===== src/Kernel/Boot/State.antt =====
-- What is said of the machine while `kernel_main` of kernel/kernel.c runs.
use black_hole_os.Prelude.{
  arith, zero, suc, ◌/◌, if◌then◌else◌, ℕ, ◌+◌, ◌<◌, ◌≡◌, refl, true, false, Option, none, some,
  List, [], ◌∷◌, length, take, drop, ◌++◌, ◌%◌, ◌^◌, ◌-◌, ◌==◌,
}
use black_hole_os.Kernel.Memory.Blocks.{block, IsHeap}
use black_hole_os.Kernel.Paging.{Paging}
use black_hole_os.Kernel.Task.{cr3_of}
use black_hole_os.Kernel.Task.Circle.{Circle}
use black_hole_os.Kernel.Ports.{Output, outb}
use black_hole_os.Drivers.Keyboard.{buf_empty}
use black_hole_os.Drivers.Ata.{Ports}
use black_hole_os.Drivers.Ata.Disk.{Disk}
use black_hole_os.Libc.Stdio.Promises.{unsigned_text}
use black_hole_os.Fs.Fat16.Volume.{Volume, layout}
use black_hole_os.Kernel.Boot.{Machine}
use black_hole_os.Kernel.Paging.Translation.{translate}
use black_hole_os.Drivers.Ata.Device.{Drive}
use black_hole_os.Drivers.Ata.Transfer.{AtRest, disk_of}

-- The memory as the processor sees it.
abbrev pub running : {ports : Ports} → Machine ports → Paging
running m = record m.paging { memory = m.scheduler.memory }

-- The heap has the two blocks of the test, the task that runs, and the rest. The kernel sees the
-- first 4 MB where they are, and code of ring 3 sees nothing.
pub record InUserMode {ports : Ports} (m : Machine ports) : Type 0 where
  pub heap :
      IsHeap m.scheduler.memory
        (block 128 false ∷ block 256 false ∷ block 24 false ∷ block 1048120 true ∷ [])
  pub alone : Circle m.scheduler.memory m.scheduler.current_task []
  pub ready : m.scheduler.ready_queue ≡ m.scheduler.current_task
  pub paged : cr3_of m.scheduler.memory m.scheduler.current_task ≡ m.paging.cr3
  pub mapped :
      (va : ℕ)
      → va < 2 ^ 32
      → translate (running m) false va ≡ (if va / 2 ^ 22 == 0 then some va else none)
  pub closed : (va : ℕ) → va < 2 ^ 32 → translate (running m) true va ≡ none
  pub no_key : buf_empty m.keyboard ≡ true
  pub hundred : m.timer.current_freq ≡ 100
  pub interruptible : m.idt.interrupts_on ≡ true

-- The outputs of `timer_init(100)`.
abbrev pub ticking : List Output → List Output
ticking outputs = outb 0x40 46 (outb 0x40 155 (outb 0x43 0x36 outputs))

-- A text without its NUL.
abbrev pub shown : List ℕ → List ℕ
shown text = take (length text - 1) text

-- The text with a number for the `%u` at `i`.
abbrev pub shown_number : List ℕ → ℕ → ℕ → List ℕ
shown_number text i n = take i text ++ (unsigned_text (n % 2 ^ 32) ++ shown (drop (i + 2) text))

abbrev pub Holds : {ports : Ports} → (Machine ports → Type 0) → Option (Machine ports) → Type 0
Holds P none = ⊥
Holds P (some m) = P m

pub Holds-some :
    {ports : Ports} (P : Machine ports → Type 0) (run : Option (Machine ports))
    → Holds P run
    → (m : Machine ports) × (run ≡ some m) × P m
Holds-some P none h = absurd h
Holds-some P (some m) h = (m, refl, h)

pub drop-all : (n : ℕ) (xs : List ℕ) → length xs ≡ n → drop n xs ≡ []
drop-all zero [] e = refl
drop-all zero (x ∷ xs) e = absurd (omega arith)
drop-all (suc n) [] e = absurd (omega arith)
drop-all (suc n) (x ∷ xs) e = drop-all n xs (omega arith)

-- The layout of the volume that a boot sector describes, where its sectors have 512 bytes.
abbrev pub volume_of : List ℕ → Volume → Volume
volume_of boot old = let found = layout boot in if found.bytes_per_sector == 512 then found else old

-- The drive is at rest, and its disk is `disk`.
pub record HasDisk {ports : Ports} (drive : Drive ports) (disk : Disk) (a : ports.State)
    : Type 0 where
  pub at_rest : AtRest drive a
  pub same_disk : (l : ℕ) → disk_of drive a l ≡ disk l
