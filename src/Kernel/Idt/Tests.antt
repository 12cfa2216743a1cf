-- ===== src/Kernel/Idt/Tests.antt =====
-- kernel/idt.c with its stubs at concrete addresses.
use black_hole_os.Prelude.{
  ◌≡◌, ◌+◌, refl, arith, replicate, true, false, some, none, [], leb, if◌then◌else◌,
}
use black_hole_os.Kernel.Idt.{Idt, Stubs, idt_init}
use black_hole_os.Kernel.Idt.Gates.{dispatch, intended, blank, AreWords, idt_init-dispatch}
use black_hole_os.Kernel.Idt.Pic.{IsChained, raises, replay, remapped, idt_init-raises}

abbrev stubs : Stubs
stubs = record { isr_14 = 0x2000; isr_irq0 = 0x12040; isr_irq1 = 0x2080; isr_128 = 0x20C0 }

abbrev before : Idt
before = record {
  idt = replicate 256 blank;
  idtp = record { limit = 0; base = 0 };
  outputs = [];
  loaded = record { limit = 0; base = 0 };
  interrupts_on = false;
}

stubs-AreWords : AreWords stubs
stubs-AreWords = record {
  word_14 = omega arith;
  word_irq0 = omega arith;
  word_irq1 = omega arith;
  word_128 = omega arith;
}

idt_init-dispatch_example :
    (dispatch 0x9000 (idt_init 0x9000 stubs before) false 32 ≡ intended stubs false 32)
    × ((idt_init 0x9000 stubs before).interrupts_on ≡ true)
idt_init-dispatch_example =
    idt_init-dispatch 0x9000 stubs before false 32 refl stubs-AreWords (omega arith)

idt_init-raises_example :
    IsChained (replay (idt_init 0x9000 stubs before).outputs remapped)
    × (raises (replay (idt_init 0x9000 stubs before).outputs remapped) 1
        ≡ (if leb 1 1 then some (32 + 1) else none))
idt_init-raises_example = idt_init-raises 0x9000 stubs before remapped 1 (omega arith)
