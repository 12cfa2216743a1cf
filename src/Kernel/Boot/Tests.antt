-- ===== src/Kernel/Boot/Tests.antt =====
-- A boot of kernel/kernel.c with the drive of Drivers.Ata.Sample.
use black_hole_os.Prelude.{
  ◌%◌, ◌^◌, length-replicate, ◌≡◌, refl, arith, replicate, [], some, inl, false,
}
use black_hole_os.Kernel.Gdt.{no_entry, zero_tss}
use black_hole_os.Kernel.Idt.{gate}
use black_hole_os.Drivers.Ata.Disk.{read_sector}
use black_hole_os.Drivers.Ata.Transfer.{AtRest, disk_of}
use black_hole_os.Drivers.Ata.Sample.{
  AtaUnit, unit_ports, unit_drive, unit_IsAta, unit_Identifies, first_state,
}
use black_hole_os.Fs.Fat16.Volume.{Volume}
use black_hole_os.Kernel.Boot.{Addresses, Machine, kernel_main}
use black_hole_os.Kernel.Boot.State.{InUserMode, volume_of, HasDisk}
use black_hole_os.Kernel.Boot.Order.{kernel_main-InUserMode}

abbrev addresses : Addresses
addresses = record {
  gdt_entries = 0x8000;
  tss_entry = 0x8040;
  page_directory_raw = 0x9010;
  first_page_table_raw = 0xb010;
  idt = 0xd100;
  stubs = record { isr_14 = 0x2000; isr_irq0 = 0x2040; isr_irq1 = 0x2080; isr_128 = 0x20C0 };
}

abbrev no_volume : Volume
no_volume = record {
  fat_start_lba = 0;
  root_dir_start_lba = 0;
  data_start_lba = 0;
  root_dir_sectors = 0;
  bytes_per_sector = 0;
  sectors_per_cluster = 0;
  root_entry_count = 0;
  fat_size_sectors = 0;
  num_fats = 0;
}

-- The drive has done what it did before.
abbrev quiet_state : AtaUnit
quiet_state = record first_state { busy = false }

-- Everything is 0 when the boot loader jumps to the kernel, in protected mode.
abbrev machine : Machine unit_ports
machine = record {
  screen = record { vga_buffer = λ offset. 0; cursor_row = 0; cursor_col = 0; current_color = 0 };
  gdt = record {
    gdt_entries = replicate 6 no_entry;
    gdt_ptr = record { limit = 0; base = 0 };
    tss_entry = zero_tss;
  };
  paging = record {
    memory = λ q. 0;
    page_directory = 0;
    first_page_table = 0;
    cr0 = 0x11;
    cr3 = 0;
  };
  idt = record {
    idt = replicate 256 (gate 0 0 0);
    idtp = record { limit = 0; base = 0 };
    outputs = [];
    loaded = record { limit = 0; base = 0 };
    interrupts_on = false;
  };
  timer = record { tick = 0; current_freq = 100 };
  keyboard = record {
    key_buffer = replicate 256 0;
    buf_head = 0;
    buf_tail = 0;
    shift_held = false;
  };
  ata = quiet_state;
  volume = no_volume;
  scheduler = record {
    memory = λ q. 0;
    current_task = 0;
    ready_queue = 0;
    next_pid = 1;
    cr3 = 0;
    esp = 0;
  };
}

quiet_state-AtRest : AtRest unit_drive quiet_state
quiet_state-AtRest = record {
  no_transfer = refl;
  sized = λ lba. length-replicate 256 (lba % 2 ^ 16);
}

kernel_main-InUserMode_example :
    (m : Machine unit_ports) × (kernel_main addresses (replicate 32 0) (replicate 512 0) 2 machine
      ≡ some m)
    × InUserMode m
    × (m.volume ≡ volume_of (read_sector 0 (disk_of unit_drive quiet_state)) no_volume)
    × HasDisk unit_drive (disk_of unit_drive quiet_state) m.ata
kernel_main-InUserMode_example =
    kernel_main-InUserMode unit_IsAta unit_Identifies addresses (replicate 32 0) (replicate 512 0) 2
      refl refl (omega arith) (omega arith, omega arith, inl (omega arith)) machine (omega arith)
      refl quiet_state-AtRest
