-- ===== src/Kernel/Boot/Order.antt =====
-- What holds when `kernel_main` of kernel/kernel.c enters user mode.
use black_hole_os.Prelude.{
  arith, ◌∙◌, ℕ, ◌<◌, ◌≡◌, refl, sym, subst, ◌>>=◌, Option, some, List, [], ◌∷◌, length, drop, ◌++◌,
  ◌^◌, Bool-cases, inl, inr, ◌==◌,
}
use black_hole_os.Kernel.Paging.{paging_init, load_page_directory, enable_paging}
use black_hole_os.Kernel.Gdt.{gdt_init}
use black_hole_os.Kernel.Idt.{idt_init}
use black_hole_os.Drivers.Vga.{Screen}
use black_hole_os.Drivers.Timer.{timer_init}
use black_hole_os.Drivers.Keyboard.{keyboard_init}
use black_hole_os.Drivers.Ata.{Ports}
use black_hole_os.Drivers.Ata.Disk.{Disk, read_sector}
use black_hole_os.Libc.Stdio.{word}
use black_hole_os.Libc.Stdio.Promises.{promise}
use black_hole_os.Libc.Stdio.Printf.{render, printf-render}
use black_hole_os.Fs.Fat16.Volume.{Volume, use_sector, layout, start_text, size_text}
use black_hole_os.Kernel.Boot.{
  Addresses, Machine, say, kernel_main, start_drivers, start_services, start_ata, start_filesystem,
  start_paging,
}
use mathlib.Core.List.{append-nil}
use black_hole_os.Prelude.Int.{ℤ}
use black_hole_os.Drivers.Ata.Device.{Drive, IsAta, Identifies}
use black_hole_os.Drivers.Ata.Transfer.{AtRest, disk_of, ata_read_sector-disk_of}
use black_hole_os.Drivers.Ata.Start.{ata_init-AtRest}
use black_hole_os.Kernel.Boot.State.{
  InUserMode, ticking, shown, shown_number, Holds, Holds-some, drop-all, volume_of, HasDisk,
}
use black_hole_os.Kernel.Boot.Heap.{
  two_blocks-tested, tasking_init-tasked, last, tasked-IsHeap, tasked-Circle, tasked-below,
  tasked-ready, tasked-cr3,
}
use black_hole_os.Kernel.Boot.Tables.{Below, later-identity, later-user}
use black_hole_os.Kernel.Boot.Texts

module _ {ports : Ports} {drive : Drive ports} {latency : ℕ} (ata : IsAta ports drive latency)
    (ident : Identifies ports drive) (at : Addresses) (buf sector : List ℕ) (fuel : ℕ)
    (size : length buf ≡ 32) (room : length sector ≡ 512) (enough : latency < fuel)
    (below : Below at.page_directory_raw at.first_page_table_raw) where
  say-then :
      (P : Machine ports → Type 0) (text : List ℕ) (m : Machine ports)
      (k : Machine ports → Option (Machine ports))
      → render text [] ≡ some (shown text)
      → ((s : Screen) → Holds P (k (record m { screen = s })))
      → Holds P (say at buf sector fuel text m >>= k)
  say-then P text m k e h = rw (printf-render buf size text [] m.screen (shown text) e) (h _)

  say-Holds :
      (P : Machine ports → Type 0) (text : List ℕ) (m : Machine ports)
      → render text [] ≡ some (shown text)
      → ((s : Screen) → P (record m { screen = s }))
      → Holds P (say at buf sector fuel text m)
  say-Holds P text m e h = rw (printf-render buf size text [] m.screen (shown text) e) (h _)

  start_ata-then :
      (P : Machine ports → Type 0) (m : Machine ports) (k : Machine ports → Option (Machine ports))
      → drive.delay m.ata ≡ 0
      → AtRest drive m.ata
      → ((a : ports.State) (s : Screen)
          → HasDisk drive (disk_of drive m.ata) a
          → Holds P (k (record m { ata = a; screen = s })))
      → Holds P (start_ata at buf sector fuel m >>= k)
  start_ata-then P m k on rest h =
      let (a, s, run, rest', same) =
        ata_init-AtRest ata ident fuel buf m.ata m.screen size enough on rest in
      rw run (h a s (record { at_rest = rest'; same_disk = same }))

  use_sector-volume_of :
      (boot : List ℕ) (old : Volume) (screen : Screen)
      → (n : ℤ) × (s : Screen) × (use_sector buf boot old screen ≡ some (n, volume_of boot old, s))
  unfolding use_sector render promise
  use_sector-volume_of boot old screen =
      let found = layout boot in
      elim (Bool-cases (found.bytes_per_sector == 512)) [
        | inl right ↦
            rw
              (
                right,
                printf-render buf size start_text (word found.data_start_lba ∷ []) screen
                    (shown_number start_text 40 found.data_start_lba) refl,
              )
              (_, _, refl)
        | inr wrong ↦
            rw
              (
                wrong,
                printf-render buf size size_text (word found.bytes_per_sector ∷ []) screen
                    (shown_number size_text 39 found.bytes_per_sector) refl,
              )
              (_, _, refl)
      ]

  start_filesystem-then :
      (P : Machine ports → Type 0) (m : Machine ports) (disk : Disk)
      → HasDisk drive disk m.ata
      → ((a : ports.State) (s : Screen)
          → HasDisk drive disk a
          → P (record m { ata = a; volume = volume_of (read_sector 0 disk) m.volume; screen = s }))
      → Holds P (start_filesystem at buf sector fuel m)
  unfolding read_sector
  start_filesystem-then P m disk has h =
      let (a, run, rest, same) =
        ata_read_sector-disk_of ata fuel 0 sector m.ata enough (omega (arith, room)) has.at_rest in
      let (n, s, used) = use_sector-volume_of (read_sector 0 disk) m.volume m.screen in
      let boot : read_sector 0 (disk_of drive m.ata) ++ drop 512 sector ≡ read_sector 0 disk =
        rw (drop-all 512 sector room) (append-nil (read_sector 0 (disk_of drive m.ata)))
        ∙ has.same_disk 0 in
      rw (run, boot, used)
        (h a s (record { at_rest = rest; same_disk = λ l. same l ∙ has.same_disk l }))

  -- What `start_drivers` leaves, but for the screen and the disk.
  abbrev driven : Machine ports → ports.State → Screen → Volume → Machine ports
  driven m a s v =
      let paged = start_paging at buf sector fuel m in
      record m {
        screen = s;
        ata = a;
        volume = v;
        gdt = gdt_init at.gdt_entries at.tss_entry m.gdt;
        paging = paged.paging;
        scheduler = paged.scheduler;
        timer = record m.timer { current_freq = 100 };
        keyboard = keyboard_init m.keyboard;
        idt = record (idt_init at.idt at.stubs m.idt) {
          outputs = ticking (idt_init at.idt at.stubs m.idt).outputs;
        };
      }

  record Driven (m m' : Machine ports) : Type 0 where
    is_driven :
        m' ≡ driven m m'.ata m'.screen (volume_of (read_sector 0 (disk_of drive m.ata)) m.volume)
    has_disk : HasDisk drive (disk_of drive m.ata) m'.ata

  start_drivers-Driven :
      (m : Machine ports)
      → drive.delay m.ata ≡ 0
      → AtRest drive m.ata
      → Holds (Driven m) (start_drivers at buf sector fuel m)
  unfolding start_drivers timer_init idt_init render
  start_drivers-Driven m on rest = say-then (Driven m) Texts.title_text _ _ refl (λ s1.
      say-then (Driven m) Texts.loaded_text _ _ refl (λ s2.
        say-then (Driven m) Texts.gdt_text _ _ refl (λ s3.
          say-then (Driven m) Texts.paging_text _ _ refl (λ s4.
            say-then (Driven m) Texts.idt_text _ _ refl (λ s5.
              say-then (Driven m) Texts.timer_text _ _ refl (λ s6.
                start_ata-then (Driven m) _ _ on rest (λ a s7 has.
                  say-then (Driven m) Texts.filesystem_text _ _ refl (λ s8.
                    start_filesystem-then (Driven m) _ (disk_of drive m.ata) has
                      (λ a' s9 has'. record { is_driven = refl; has_disk = has' })))))))))

  -- In user mode, with the layout of the volume, and the disk as `m` has it.
  abbrev Booted : Machine ports → Volume → Machine ports → Type 0
  Booted m v m' = InUserMode m' × (m'.volume ≡ v) × HasDisk drive (disk_of drive m.ata) m'.ata

  start_services-Booted :
      (m : Machine ports)
      → m.paging.cr0 < 2 ^ 32
      → (a : ports.State) (s : Screen) (v : Volume) → HasDisk drive (disk_of drive m.ata) a
      → Holds (Booted m v) (start_services at buf sector fuel (driven m a s v))
  unfolding start_services render keyboard_init idt_init paging_init load_page_directory
      enable_paging
  start_services-Booted m cr0_word a s v has =
      let sched = (start_paging at buf sector fuel m).scheduler in
      let memory = (start_paging at buf sector fuel m).paging.memory in
      let before = record m.paging { memory = m.scheduler.memory } in
      say-then (Booted m v) Texts.idt_ready_text _ _ refl (λ s1.
        say-then (Booted m v) Texts.timer_ready_text _ _ refl (λ s2.
          say-then (Booted m v) Texts.keyboard_ready_text _ _ refl (λ s3.
            say-then (Booted m v) Texts.memory_ready_text _ _ refl (λ s4.
              rw (two_blocks-tested memory) (
                say-then (Booted m v) Texts.passed_text _ _ refl (λ s5.
                  say-then (Booted m v) Texts.tasking_text _ _ refl (λ s6.
                    rw (tasking_init-tasked sched memory) (
                      say-then (Booted m v) Texts.task_zero_text _ _ refl (λ s7.
                        say-Holds (Booted m v) Texts.user_text _ refl (λ s8. (
                          record {
                            heap = tasked-IsHeap sched memory;
                            alone = tasked-Circle sched memory;
                            ready = tasked-ready sched memory;
                            paged = tasked-cr3 sched memory;
                            mapped =
                                later-identity at.page_directory_raw at.first_page_table_raw before
                                  below cr0_word (last sched memory).memory
                                  (tasked-below sched memory);
                            closed =
                                later-user at.page_directory_raw at.first_page_table_raw before
                                  below cr0_word (last sched memory).memory
                                  (tasked-below sched memory);
                            no_key = refl;
                            hundred = refl;
                            interruptible = refl;
                          },
                          refl,
                          has,
                        )))))))))))

  -- Let an ATA drive that answers IDENTIFY be there, at rest and not busy, and let there be fuel
  -- for one poll more than it may stay busy. If `printf` has its buffer of 32 bytes and
  -- `fat16_init` its sector of 512, and the linker puts the two raw arrays below the heap and
  -- apart, then `kernel_main` gets to user mode, whatever the disk holds. Then the heap consists of
  -- the two blocks of its test, the block of the one task, and the free rest; the task is alone in
  -- its circle, is the ready queue, and has the page directory in use; the kernel's accesses below
  -- 4 MB reach their own address, those from 4 MB on are page faults, and so is every access of
  -- ring 3; no key waits, the timer has 100 Hz, and interrupts are on. The volume has the layout
  -- that the first sector describes, or the one it had if the sector size there is not 512; the
  -- drive is at rest, and the disk is as it was.
  pub kernel_main-InUserMode :
      (m : Machine ports)
      → m.paging.cr0 < 2 ^ 32
      → drive.delay m.ata ≡ 0
      → AtRest drive m.ata
      → (m' : Machine ports) × (kernel_main at buf sector fuel m ≡ some m')
        × InUserMode m'
        × (m'.volume ≡ volume_of (read_sector 0 (disk_of drive m.ata)) m.volume)
        × HasDisk drive (disk_of drive m.ata) m'.ata
  unfolding kernel_main
  kernel_main-InUserMode m cr0_word on rest =
      let (driven_to, ran, driving) = Holds-some (Driven m) _ (start_drivers-Driven m on rest) in
      let v = volume_of (read_sector 0 (disk_of drive m.ata)) m.volume in
      let served =
        start_services-Booted m cr0_word driven_to.ata driven_to.screen v driving.has_disk in
      let (m', run, (reached, layout_is, has)) = Holds-some (Booted m v) _ (
        subst (λ (n : Machine ports). Holds (Booted m v) (start_services at buf sector fuel n))
          (sym driving.is_driven) served) in
      rw ran (m', run, reached, layout_is, has)
