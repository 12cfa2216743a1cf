-- ===== src/Kernel/Gdt/Tests.antt =====
-- kernel/gdt.c with its objects at concrete addresses.
use black_hole_os.Prelude.{refl, arith, replicate}
use black_hole_os.Kernel.Gdt.{Gdt, gdt_init, no_entry, zero_tss}
use black_hole_os.Kernel.Gdt.Init.{Installed, gdt_init-Installed}

abbrev blank : Gdt
blank = record {
  gdt_entries = replicate 6 no_entry;
  gdt_ptr = record { limit = 0; base = 0 };
  tss_entry = zero_tss;
}

gdt_init-Installed_example : Installed 0x8000 0x8040 (gdt_init 0x8000 0x8040 blank)
gdt_init-Installed_example = gdt_init-Installed 0x8000 0x8040 blank refl (omega arith)
