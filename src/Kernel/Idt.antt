-- ===== src/Kernel/Idt.antt =====
-- kernel/idt.c and kernel/idt.h: the interrupt descriptor table and the programming of the two
-- interrupt controllers. The addresses of the table and of the assembly stubs are arguments.
pub mod Gates
pub mod Pic
mod Tests
use black_hole_os.Prelude.{ℕ, zero, suc, ◌+◌, ◌-◌, ◌*◌, ◌/◌, ◌^◌, bit_and, Bool, true, List, set}
use black_hole_os.Kernel.Memory.{Ptr}
use black_hole_os.Kernel.Ports.{Output, outb}

pub record IdtEntry : Type 0 where
  pub offset_low : ℕ
  pub selector : ℕ
  pub zeroed : ℕ
  pub type_attr : ℕ
  pub offset_high : ℕ

abbrev pub sizeof_idt_entry : ℕ
sizeof_idt_entry = 8

abbrev pub idt_entries : ℕ
idt_entries = 256

pub record IdtPtr : Type 0 where
  pub limit : ℕ
  pub base : Ptr

-- The table, its pointer, the port writes, and what `lidt` and `sti` have done.
pub record Idt : Type 0 where
  pub idt : List IdtEntry
  pub idtp : IdtPtr
  pub outputs : List Output
  pub loaded : IdtPtr
  pub interrupts_on : Bool

-- The stubs of kernel/isr_stub.S.
pub record Stubs : Type 0 where
  pub isr_14 : Ptr
  pub isr_irq0 : Ptr
  pub isr_irq1 : Ptr
  pub isr_128 : Ptr

unfoldable pub gate : Ptr → ℕ → ℕ → IdtEntry
gate handler sel flags = record {
  offset_low = bit_and handler 0xFFFF;
  selector = sel;
  zeroed = 0;
  type_attr = flags;
  offset_high = bit_and (handler / 2 ^ 16) 0xFFFF;
}

unfoldable pub idt_set_gate : ℕ → Ptr → ℕ → ℕ → List IdtEntry → List IdtEntry
idt_set_gate n handler sel flags idt = set idt n (gate handler sel flags)

-- The loop that zeroes the table, from entry `i` on.
unfoldable pub zero_idt : ℕ → ℕ → List IdtEntry → List IdtEntry
zero_idt i zero idt = idt
zero_idt i (suc left) idt = zero_idt (i + 1) left (idt_set_gate i 0 0 0 idt)

unfoldable pub pic_remap : List Output → List Output
pic_remap outputs =
    let icw1 = outb 0xA0 0x11 (outb 0x20 0x11 outputs) in
    let icw2 = outb 0xA1 0x28 (outb 0x21 0x20 icw1) in
    let icw3 = outb 0xA1 0x02 (outb 0x21 0x04 icw2) in
    let icw4 = outb 0xA1 0x01 (outb 0x21 0x01 icw3) in outb 0xA1 0xFF (outb 0x21 0xFC icw4)

-- The calls of `idt_set_gate` behind the loop.
unfoldable pub install : Stubs → List IdtEntry → List IdtEntry
install stubs idt =
    let t14 = idt_set_gate 14 stubs.isr_14 0x08 0x8E idt in
    let t32 = idt_set_gate 32 stubs.isr_irq0 0x08 0x8E t14 in
    let t33 = idt_set_gate 33 stubs.isr_irq1 0x08 0x8E t32 in
    idt_set_gate 128 stubs.isr_128 0x08 0xEE t33

unfoldable pub idt_init : Ptr → Stubs → Idt → Idt
idt_init idt_address stubs s =
    let pointer : IdtPtr = record {
      limit = sizeof_idt_entry * idt_entries - 1;
      base = idt_address;
    } in
    record {
      idt = install stubs (zero_idt 0 idt_entries s.idt);
      idtp = pointer;
      outputs = pic_remap s.outputs;
      loaded = pointer;
      interrupts_on = true;
    }
