-- ===== src/Kernel/Boot.antt =====
-- kernel/kernel.c: what `kernel_main` starts, in its order, up to `switch_to_user_mode`. No
-- interrupt arrives on the way. `none` is a run that does not come back: a fault, or a lack of
-- fuel.
pub mod Texts
pub mod Tables
pub mod Heap
pub mod State
pub mod Order
mod Tests
use mathlib.Core.Option
use black_hole_os.Prelude.{
  ℕ, ◌+◌, ◌>>=◌, Bool, not, ◌&&◌, Option, some, none, List, [], ◌∷◌, ◌==◌, if◌then◌else◌,
}
use black_hole_os.Prelude.Int.{ℤ}
use black_hole_os.Kernel.Memory.{Mem, Ptr, memory_init, memory_alloc}
use black_hole_os.Kernel.Gdt.{Gdt, gdt_init}
use black_hole_os.Kernel.Paging.{Paging, paging_init}
use black_hole_os.Kernel.Idt.{Idt, Stubs, idt_init}
use black_hole_os.Kernel.Ports.{Output}
use black_hole_os.Kernel.Task.{Scheduler, tasking_init}
use black_hole_os.Drivers.Vga.{Screen, vga_init, vga_set_color, vga_black, vga_light_green}
use black_hole_os.Drivers.Timer.{Timer, timer_init}
use black_hole_os.Drivers.Keyboard.{Keyboard, keyboard_init}
use black_hole_os.Drivers.Ata.{Ports, ata_init, ata_read_sector}
use black_hole_os.Libc.Stdio.{printf}
use black_hole_os.Fs.Fat16.Volume.{Volume, use_sector}
use black_hole_os.Kernel.Boot.Texts

abbrev pub vga_light_grey : ℕ
vga_light_grey = 7

abbrev pub vga_white : ℕ
vga_white = 15

-- The addresses that the linker gives.
pub record Addresses : Type 0 where
  pub gdt_entries : Ptr
  pub tss_entry : Ptr
  pub page_directory_raw : Ptr
  pub first_page_table_raw : Ptr
  pub idt : Ptr
  pub stubs : Stubs

-- The variables of the parts, and the state of what is behind the ports of the disk. The memory of
-- the machine is the one in the scheduler.
pub record Machine (ports : Ports) : Type 0 where
  pub screen : Screen
  pub gdt : Gdt
  pub paging : Paging
  pub idt : Idt
  pub timer : Timer
  pub keyboard : Keyboard
  pub ata : ports.State
  pub volume : Volume
  pub scheduler : Scheduler

-- The two blocks of the test of the allocator, and the memory then.
abbrev pub two_blocks : Mem → Option (Ptr × Ptr × Mem)
two_blocks memory = do
  ptr1 ← memory_alloc memory 128
  ptr2 ← memory_alloc ptr1.1 256
  some (ptr1.0, ptr2.0, ptr2.1)

-- `buf` is the buffer of `printf`, `sector` that of `fat16_init`, and `fuel` that of the disk
-- driver.
module _ {ports : Ports} (at : Addresses) (buf sector : List ℕ) (fuel : ℕ) where
  abbrev pub paint : ℕ → Machine ports → Machine ports
  paint fg m = record m { screen = vga_set_color m.screen fg vga_black }

  abbrev pub say : List ℕ → Machine ports → Option (Machine ports)
  say text m = Option.map (λ out. record m { screen = out.1 }) (printf buf text [] m.screen)

  abbrev pub start_screen : Machine ports → Machine ports
  start_screen m = record m { screen = vga_init m.screen }

  abbrev pub start_gdt : Machine ports → Machine ports
  start_gdt m = record m { gdt = gdt_init at.gdt_entries at.tss_entry m.gdt }

  -- `paging_init` works on the machine's memory, and sets CR3.
  abbrev pub start_paging : Machine ports → Machine ports
  start_paging m =
      let before = record m.paging { memory = m.scheduler.memory } in
      let paging = paging_init at.page_directory_raw at.first_page_table_raw before in
      record m {
        paging = paging;
        scheduler = record m.scheduler { memory = paging.memory; cr3 = paging.cr3 };
      }

  abbrev pub start_idt : Machine ports → Machine ports
  start_idt m = record m { idt = idt_init at.idt at.stubs m.idt }

  abbrev pub start_timer : Machine ports → Option (Machine ports)
  start_timer m =
      Option.map (λ out. record m { timer = out.0; idt = record m.idt { outputs = out.1 } })
        (timer_init 100 m.idt.outputs m.timer)

  abbrev pub start_keyboard : Machine ports → Machine ports
  start_keyboard m = record m { keyboard = keyboard_init m.keyboard }

  abbrev pub start_ata : Machine ports → Option (Machine ports)
  start_ata m =
      Option.map (λ out. record m { ata = out.0; screen = out.1 })
        (ata_init ports fuel buf m.ata m.screen)

  -- `fat16_init`, on the ports.
  abbrev pub start_filesystem : Machine ports → Option (Machine ports)
  start_filesystem m = do
    read ← ata_read_sector ports fuel 0 sector m.ata
    out ← use_sector buf read.0 m.volume m.screen
    some (record m { ata = read.1; volume = out.1; screen = out.2 })

  abbrev pub with_memory : Machine ports → Mem → Machine ports
  with_memory m memory = record m { scheduler = record m.scheduler { memory = memory } }

  abbrev pub start_memory : Machine ports → Machine ports
  start_memory m = with_memory m (memory_init m.scheduler.memory)

  -- `if (ptr1 && ptr2)`
  abbrev pub verdict : Machine ports → Ptr × Ptr × Mem → Option (Machine ports)
  verdict m (ptr1, ptr2, memory) =
      say (if not (ptr1 == 0) && not (ptr2 == 0) then Texts.passed_text else Texts.failed_text)
        (with_memory m memory)

  abbrev pub test_memory : Machine ports → Option (Machine ports)
  test_memory m = do blocks ← two_blocks m.scheduler.memory; verdict m blocks

  abbrev pub start_tasking : Machine ports → Option (Machine ports)
  start_tasking m = Option.map (λ s. record m { scheduler = s }) (tasking_init m.scheduler)

  unfoldable pub start_drivers : Machine ports → Option (Machine ports)
  start_drivers m = do
    m ← say Texts.title_text (paint vga_light_green (start_screen m))
    m ← say Texts.loaded_text (paint vga_light_grey m)
    m ← say Texts.gdt_text m
    m ← say Texts.paging_text (start_gdt m)
    m ← say Texts.idt_text (start_paging m)
    m ← say Texts.timer_text (start_idt m)
    m ← start_timer m
    m ← start_ata (start_keyboard m)
    m ← say Texts.filesystem_text m
    start_filesystem m

  unfoldable pub start_services : Machine ports → Option (Machine ports)
  start_services m = do
    m ← say Texts.idt_ready_text (paint vga_white m)
    m ← say Texts.timer_ready_text m
    m ← say Texts.keyboard_ready_text m
    m ← say Texts.memory_ready_text (start_memory m)
    m ← test_memory m
    m ← say Texts.tasking_text m
    m ← start_tasking m
    m ← say Texts.task_zero_text m
    say Texts.user_text m

  unfoldable pub kernel_main : Machine ports → Option (Machine ports)
  kernel_main m = do m ← start_drivers m; start_services m
