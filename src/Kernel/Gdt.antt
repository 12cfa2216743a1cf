-- ===== src/Kernel/Gdt.antt =====
-- kernel/gdt.c and kernel/gdt.h: the global descriptor table, its pointer and the task state
-- segment. The linker's addresses of `gdt_entries` and `tss_entry` are arguments. The instructions
-- of kernel/gdt_flush.S, which load the registers, are not modelled.
pub mod Descriptors
pub mod Init
mod Tests
use black_hole_os.Prelude.{ℕ, ◌+◌, ◌-◌, ◌*◌, ◌/◌, ◌%◌, ◌^◌, bit_and, bit_or, List, get_or, set}
use black_hole_os.Kernel.Memory.{Ptr}

pub record GdtEntry : Type 0 where
  pub limit_low : ℕ
  pub base_low : ℕ
  pub base_middle : ℕ
  pub access : ℕ
  pub granularity : ℕ
  pub base_high : ℕ

abbrev pub sizeof_gdt_entry : ℕ
sizeof_gdt_entry = 8

pub record GdtPtr : Type 0 where
  pub limit : ℕ
  pub base : Ptr

pub record TssEntry : Type 0 where
  pub prev_tss : ℕ
  pub esp0 : ℕ
  pub ss0 : ℕ
  pub esp1 : ℕ
  pub ss1 : ℕ
  pub esp2 : ℕ
  pub ss2 : ℕ
  pub cr3 : ℕ
  pub eip : ℕ
  pub eflags : ℕ
  pub eax : ℕ
  pub ecx : ℕ
  pub edx : ℕ
  pub ebx : ℕ
  pub esp : ℕ
  pub ebp : ℕ
  pub esi : ℕ
  pub edi : ℕ
  pub es : ℕ
  pub cs : ℕ
  pub ss : ℕ
  pub ds : ℕ
  pub fs : ℕ
  pub gs : ℕ
  pub ldt : ℕ
  pub trap : ℕ
  pub iomap_base : ℕ

-- 25 words and 2 half-words
abbrev pub sizeof_tss_entry : ℕ
sizeof_tss_entry = 104

pub record Gdt : Type 0 where
  pub gdt_entries : List GdtEntry
  pub gdt_ptr : GdtPtr
  pub tss_entry : TssEntry

abbrev pub no_entry : GdtEntry
no_entry = record {
  limit_low = 0;
  base_low = 0;
  base_middle = 0;
  access = 0;
  granularity = 0;
  base_high = 0;
}

-- The descriptor that `gdt_set_gate` builds in `gdt_entries[num]`, all of whose fields it sets.
unfoldable pub gate : ℕ → ℕ → ℕ → ℕ → GdtEntry
gate base limit access gran = record {
  base_low = bit_and base 0xFFFF;
  base_middle = bit_and (base / 2 ^ 16) 0xFF;
  base_high = bit_and (base / 2 ^ 24) 0xFF;
  limit_low = bit_and limit 0xFFFF;
  granularity = bit_or (bit_and (limit / 2 ^ 16) 0x0F) (bit_and gran 0xF0);
  access = access;
}

unfoldable pub gdt_set_gate : ℕ → ℕ → ℕ → ℕ → ℕ → Gdt → Gdt
gdt_set_gate num base limit access gran s = record s {
  gdt_entries = set s.gdt_entries num (gate base limit access gran);
}

-- `memset(&tss_entry, 0, sizeof(tss_entry))`
abbrev pub zero_tss : TssEntry
zero_tss = record {
  prev_tss = 0;
  esp0 = 0;
  ss0 = 0;
  esp1 = 0;
  ss1 = 0;
  esp2 = 0;
  ss2 = 0;
  cr3 = 0;
  eip = 0;
  eflags = 0;
  eax = 0;
  ecx = 0;
  edx = 0;
  ebx = 0;
  esp = 0;
  ebp = 0;
  esi = 0;
  edi = 0;
  es = 0;
  cs = 0;
  ss = 0;
  ds = 0;
  fs = 0;
  gs = 0;
  ldt = 0;
  trap = 0;
  iomap_base = 0;
}

unfoldable pub write_tss : Ptr → ℕ → ℕ → ℕ → Gdt → Gdt
write_tss tss_address num ss0 esp0 s =
    let gated = gdt_set_gate num tss_address (sizeof_tss_entry - 1) 0xE9 0x00 s in
    record gated {
      tss_entry = record zero_tss {
        ss0 = ss0;
        esp0 = esp0;
        cs = 0x08;
        ss = 0x10;
        ds = 0x10;
        es = 0x10;
        fs = 0x10;
        gs = 0x10;
      };
    }

unfoldable pub tss_set_stack : ℕ → Gdt → Gdt
tss_set_stack esp s = record s { tss_entry = record s.tss_entry { esp0 = esp } }

unfoldable pub gdt_init : Ptr → Ptr → Gdt → Gdt
gdt_init entries_address tss_address s =
    let s0 = record s {
      gdt_ptr = record { limit = sizeof_gdt_entry * 6 - 1; base = entries_address };
    } in
    let s1 = gdt_set_gate 0 0 0 0 0 s0 in
    let s2 = gdt_set_gate 1 0 0xFFFFFFFF 0x9A 0xCF s1 in
    let s3 = gdt_set_gate 2 0 0xFFFFFFFF 0x92 0xCF s2 in
    let s4 = gdt_set_gate 3 0 0xFFFFFFFF 0xFA 0xCF s3 in
    let s5 = gdt_set_gate 4 0 0xFFFFFFFF 0xF2 0xCF s4 in write_tss tss_address 5 0x10 0x0 s5
