-- ===== src/Kernel/Idt/Pic.antt =====
-- The two interrupt controllers under the port writes of `pic_remap` of kernel/idt.c.
use black_hole_os.Prelude.{
  ℕ, ◌+◌, ◌-◌, ◌*◌, ◌/◌, ◌%◌, ◌^◌, ◌<◌, ◌≡◌, refl, arith, leb, ltb, ◌==◌, if◌then◌else◌, true,
  false, every_below, every_below-true, ap, not, ◌&&◌, Bool, List, [], ◌∷◌, Option, some, none,
}
use black_hole_os.Kernel.Ports.{Output}
use black_hole_os.Kernel.Idt.{Idt, Stubs, idt_init, pic_remap}
use black_hole_os.Kernel.Memory.{Ptr}

-- What an 8259 expects on its data port.
pub data Phase : Type 0 where
  ready : Phase
  vector_word : Phase
  cascade_word : Phase
  mode_word : Phase

-- `first` is ICW1, whose bit 0 announces ICW4 and whose bit 1 says that there is no ICW3; `mode` is
-- ICW4, whose bit 0 is the 8086 mode.
pub record Controller : Type 0 where
  pub phase : Phase
  pub first : ℕ
  pub vectors : ℕ
  pub cascade : ℕ
  pub mode : ℕ
  pub mask : ℕ

-- A command with bit 4 set begins the initialization, which clears the mask and the mode.
abbrev pub command : ℕ → Controller → Controller
command v p =
    if v / 16 % 2 == 1 then record p { phase = vector_word; first = v; mode = 0; mask = 0 } else p

abbrev pub last_phase : ℕ → Phase
last_phase first = if first % 2 == 1 then mode_word else ready

abbrev pub data_word : ℕ → Controller → Controller
data_word v p = elim p.phase [
  | ready ↦ record p { mask = v }
  | vector_word ↦ record p {
    phase = if p.first / 2 % 2 == 1 then last_phase p.first else cascade_word;
    vectors = v / 8 * 8;
  }
  | cascade_word ↦ record p { phase = last_phase p.first; cascade = v }
  | mode_word ↦ record p { phase = ready; mode = v }
]

-- Ready for interrupts of an 8086, edge triggered, with the vectors 8 apart, in a cascade of two,
-- with the end of an interrupt told by a command.
pub record IsReady (p : Controller) : Type 0 where
  pub is_ready : p.phase ≡ ready
  pub cascaded : p.first % 16 ≡ 1
  pub mode_8086 : p.mode ≡ 1

pub record Pair : Type 0 where
  pub master : Controller
  pub slave : Controller

unfoldable pub drive : Output → Pair → Pair
drive o p =
    if o.port == 0x20
    then record p { master = command o.value p.master }
    else if o.port == 0x21
    then record p { master = data_word o.value p.master }
    else if o.port == 0xA0
    then record p { slave = command o.value p.slave }
    else if o.port == 0xA1
    then record p { slave = data_word o.value p.slave }
    else p

-- The controllers after some port writes, the latest first.
unfoldable pub replay : List Output → Pair → Pair
replay [] p = p
replay (o ∷ outputs) p = drive o (replay outputs p)

-- The line of the master that the slave asks on.
abbrev pub slave_line : ℕ
slave_line = 2

abbrev pub is_open : ℕ → ℕ → Bool
is_open mask line = mask / 2 ^ line % 2 == 0

-- The master takes a line with its bit in ICW3 for a slave; of the PC the slave is on line 2.
abbrev pub is_slave : Pair → ℕ → Bool
is_slave p line = not (p.master.cascade / 2 ^ line % 2 == 0)

-- The vector that an interrupt request line of a device raises, in 8086 mode, unless it is masked.
abbrev pub raises : Pair → ℕ → Option ℕ
raises p line =
    if ltb line 8
    then (if is_open p.master.mask line && not (is_slave p line)
        then some (p.master.vectors + line)
        else none)
    else if is_open p.slave.mask (line - 8)
        && is_open p.master.mask slave_line
        && is_slave p slave_line
        && p.slave.cascade == slave_line
    then some (p.slave.vectors + (line - 8))
    else none

-- Both controllers are ready, and the slave is where the board has it.
pub record IsChained (p : Pair) : Type 0 where
  pub master_ready : IsReady p.master
  pub slave_ready : IsReady p.slave
  pub slave_known : p.master.cascade ≡ 2 ^ slave_line
  pub slave_named : p.slave.cascade ≡ slave_line

abbrev pub remapped : Pair
remapped = record {
  master = record { phase = ready; first = 0x11; vectors = 32; cascade = 4; mode = 1; mask = 0xFC };
  slave = record { phase = ready; first = 0x11; vectors = 40; cascade = 2; mode = 1; mask = 0xFF };
}

replay-pic_remap : (outputs : List Output) (p : Pair) → replay (pic_remap outputs) p ≡ remapped
unfolding pic_remap replay drive
replay-pic_remap outputs p = refl

remapped-IsChained : IsChained remapped
remapped-IsChained = record {
  master_ready = record { is_ready = refl; cascaded = refl; mode_8086 = refl };
  slave_ready = record { is_ready = refl; cascaded = refl; mode_8086 = refl };
  slave_known = refl;
  slave_named = refl;
}

abbrev plan : ℕ → Option ℕ → Bool
plan line none = not (leb line 1)
plan line (some v) = leb line 1 && v == 32 + line

abbrev as_planned : ℕ → Bool
as_planned line = plan line (raises remapped line)

every_line : every_below as_planned 16 ≡ true
unfolding every_below
every_line = refl

planned :
    (line : ℕ) (got : Option ℕ)
    → plan line got ≡ true
    → got ≡ (if leb line 1 then some (32 + line) else none)
planned line none e = let far : leb line 1 ≡ false = ground (arith, e) in rw far refl
planned line (some v) e =
    let near : leb line 1 ≡ true = ground (arith, e) in
    let same : v ≡ 32 + line = ground (arith, e) in rw near (ap some same)

-- Whatever was written before and whatever state the controllers started in, after `idt_init` both
-- are ready, in the 8086 mode and chained over line 2; the timer's line 0 raises vector 32, the
-- keyboard's line 1 vector 33, and the other lines of the 16 raise none.
pub idt_init-raises :
    (idt_address : Ptr) (stubs : Stubs) (s : Idt) (p : Pair) (line : ℕ)
    → line < 16
    → IsChained (replay (idt_init idt_address stubs s).outputs p)
      × (raises (replay (idt_init idt_address stubs s).outputs p) line
          ≡ (if leb line 1 then some (32 + line) else none))
unfolding idt_init
idt_init-raises idt_address stubs s p line bound = rw (replay-pic_remap s.outputs p) (
  remapped-IsChained,
  planned line (raises remapped line) (every_below-true as_planned 16 every_line line bound),
)
