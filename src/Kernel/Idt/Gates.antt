-- ===== src/Kernel/Idt/Gates.antt =====
-- The gates that `idt_init` of kernel/idt.c installs.
use black_hole_os.Prelude.{
  ℕ, zero, suc, ◌+◌, ◌*◌, ◌/◌, ◌%◌, ◌^◌, ◌<◌, ◌≤◌, ◌≡◌, inl, inr, refl, ap, sym, ◌∙◌, arith,
  bit_and-mod, leb, ltb, ◌==◌, if◌then◌else◌, Bool, Bool-cases, true, false, ◌&&◌, ◌||◌, not,
  Option, some, none, List, get_or, length, length-set, get_or-set_self, get_or-set_ne,
}
use black_hole_os.Kernel.Memory.{Ptr}
use black_hole_os.Kernel.Idt.{IdtEntry, Idt, Stubs, gate, idt_set_gate, zero_idt, install, idt_init}

abbrev pub blank : IdtEntry
blank = record { offset_low = 0; selector = 0; zeroed = 0; type_attr = 0; offset_high = 0 }

-- The processor's reading of an entry: present is bit 7 of the attributes, the privilege bits 5 and
-- 6.
abbrev pub is_present : IdtEntry → Bool
is_present e = not (e.type_attr / 128 % 2 == 0)

abbrev pub privilege : IdtEntry → ℕ
privilege e = e.type_attr / 32 % 4

abbrev pub handler_of : IdtEntry → Ptr
handler_of e = e.offset_low + e.offset_high * 2 ^ 16

-- A 32-bit interrupt gate, in the bits 0 to 4 of the attributes.
abbrev pub is_interrupt_gate : IdtEntry → Bool
is_interrupt_gate e = e.type_attr % 32 == 14

-- The code segment and the address that an entry sends the processor to, for an `int` instruction
-- of ring 3 (`user`) or for a device, an exception or the kernel; `none` is a fault.
unfoldable pub read_gate : Bool → IdtEntry → Option (ℕ × Ptr)
read_gate user e =
    if is_present e && is_interrupt_gate e && (not user || leb 3 (privilege e))
    then some (e.selector, handler_of e)
    else none

-- What the processor does at vector `n`, when the table lies at `idt_address`: it goes by the
-- pointer that `lidt` has loaded.
abbrev pub dispatch : Ptr → Idt → Bool → ℕ → Option (ℕ × Ptr)
dispatch idt_address s user n =
    if s.loaded.base == idt_address && leb (8 * n + 7) s.loaded.limit
    then read_gate user (get_or s.idt n blank)
    else none

-- What the table of the kernel is to do: the stubs lie in the kernel's code segment.
abbrev pub intended : Stubs → Bool → ℕ → Option (ℕ × Ptr)
intended stubs user n =
    if n == 128
    then some (0x08, stubs.isr_128)
    else if user
    then none
    else if n == 33
    then some (0x08, stubs.isr_irq1)
    else if n == 32
    then some (0x08, stubs.isr_irq0)
    else if n == 14
    then some (0x08, stubs.isr_14)
    else none

pub record AreWords (stubs : Stubs) : Type 0 where
  pub word_14 : stubs.isr_14 < 2 ^ 32
  pub word_irq0 : stubs.isr_irq0 < 2 ^ 32
  pub word_irq1 : stubs.isr_irq1 < 2 ^ 32
  pub word_128 : stubs.isr_128 < 2 ^ 32

handler_of-gate :
    (handler : Ptr) (sel flags : ℕ)
    → handler < 2 ^ 32
    → handler_of (gate handler sel flags) ≡ handler
unfolding gate
handler_of-gate handler sel flags word =
    omega (arith, bit_and-mod 16 handler, bit_and-mod 16 (handler / 2 ^ 16))

get_or-idt_set_gate :
    (n : ℕ) (handler : Ptr) (sel flags : ℕ) (idt : List IdtEntry) (i : ℕ)
    → n < length idt
    → get_or (idt_set_gate n handler sel flags idt) i blank
      ≡ (if i == n then gate handler sel flags else get_or idt i blank)
unfolding idt_set_gate
get_or-idt_set_gate n handler sel flags idt i inside = elim (Bool-cases (i == n)) [
  | inl same ↦
      let e : i ≡ n = ground arith in
      rw (same, e) (get_or-set_self idt n (gate handler sel flags) blank inside)
  | inr other ↦ rw other (get_or-set_ne idt n i (gate handler sel flags) blank (ground arith))
]

zero_gate : gate 0 0 0 ≡ blank
unfolding gate
zero_gate = refl

length-idt_set_gate :
    (n : ℕ) (handler : Ptr) (sel flags : ℕ) (idt : List IdtEntry)
    → length (idt_set_gate n handler sel flags idt) ≡ length idt
unfolding idt_set_gate
length-idt_set_gate n handler sel flags idt = length-set idt n (gate handler sel flags)

length-zero_idt : (i left : ℕ) (idt : List IdtEntry) → length (zero_idt i left idt) ≡ length idt
unfolding zero_idt idt_set_gate
length-zero_idt i zero idt = refl
length-zero_idt i (suc left) idt =
    length-zero_idt (i + 1) left (idt_set_gate i 0 0 0 idt) ∙ length-set idt i (gate 0 0 0)

get_or-zero_idt :
    (i left : ℕ) (idt : List IdtEntry) (n : ℕ)
    → i + left ≤ length idt
    → get_or (zero_idt i left idt) n blank
      ≡ (if leb i n && ltb n (i + left) then blank else get_or idt n blank)
unfolding zero_idt
get_or-zero_idt i zero idt n fits =
    let outside : (leb i n && ltb n (i + 0)) ≡ false = ground arith in rw outside
get_or-zero_idt i (suc left) idt n fits =
    get_or-zero_idt (i + 1) left (idt_set_gate i 0 0 0 idt) n
      (omega (arith, length-idt_set_gate i 0 0 0 idt))
    ∙ elim (Bool-cases (n == i)) [
      | inl here ↦
          let now : (leb i n && ltb n (i + suc left)) ≡ true = ground arith in
          let before : (leb (i + 1) n && ltb n (i + 1 + left)) ≡ false = ground arith in
          rw (now, before, get_or-idt_set_gate i 0 0 0 idt n (omega arith), here) zero_gate
      | inr elsewhere ↦
          let same : (leb (i + 1) n && ltb n (i + 1 + left)) ≡ (leb i n && ltb n (i + suc left)) =
            ground arith in
          rw (same, get_or-idt_set_gate i 0 0 0 idt n (omega arith), elsewhere)
    ]

get_or-install :
    (stubs : Stubs) (idt : List IdtEntry) (n : ℕ)
    → length idt ≡ 256
    → get_or (install stubs idt) n blank ≡ (
        if n == 128
        then gate stubs.isr_128 0x08 0xEE
        else if n == 33
        then gate stubs.isr_irq1 0x08 0x8E
        else if n == 32
        then gate stubs.isr_irq0 0x08 0x8E
        else if n == 14
        then gate stubs.isr_14 0x08 0x8E
        else get_or idt n blank)
unfolding install
get_or-install stubs idt n size =
    let t14 = idt_set_gate 14 stubs.isr_14 0x08 0x8E idt in
    let t32 = idt_set_gate 32 stubs.isr_irq0 0x08 0x8E t14 in
    let t33 = idt_set_gate 33 stubs.isr_irq1 0x08 0x8E t32 in
    let size14 = length-idt_set_gate 14 stubs.isr_14 0x08 0x8E idt in
    let size32 = length-idt_set_gate 32 stubs.isr_irq0 0x08 0x8E t14 in
    let size33 = length-idt_set_gate 33 stubs.isr_irq1 0x08 0x8E t32 in
    rw (
      get_or-idt_set_gate 128 stubs.isr_128 0x08 0xEE t33 n (omega (arith, size14, size32, size33)),
      get_or-idt_set_gate 33 stubs.isr_irq1 0x08 0x8E t32 n (omega (arith, size14, size32)),
      get_or-idt_set_gate 32 stubs.isr_irq0 0x08 0x8E t14 n (omega (arith, size14)),
      get_or-idt_set_gate 14 stubs.isr_14 0x08 0x8E idt n (omega arith),
    )

read_gate-kernel :
    (user : Bool) (handler : Ptr)
    → handler < 2 ^ 32
    → read_gate user (gate handler 0x08 0x8E) ≡ (if user then none else some (0x08, handler))
unfolding read_gate gate
read_gate-kernel true handler word = refl
read_gate-kernel false handler word =
    ap (λ (h : Ptr). some (0x08, h)) (handler_of-gate handler 0x08 0x8E word)

read_gate-user :
    (user : Bool) (handler : Ptr)
    → handler < 2 ^ 32
    → read_gate user (gate handler 0x08 0xEE) ≡ some (0x08, handler)
unfolding read_gate gate
read_gate-user true handler word =
    ap (λ (h : Ptr). some (0x08, h)) (handler_of-gate handler 0x08 0xEE word)
read_gate-user false handler word =
    ap (λ (h : Ptr). some (0x08, h)) (handler_of-gate handler 0x08 0xEE word)

read_gate-blank : (user : Bool) → read_gate user blank ≡ none
unfolding read_gate
read_gate-blank user = refl

user_first : (user : Bool) (x : Option (ℕ × Ptr)) → x ≡ none → (if user then none else x) ≡ none
user_first true x e = refl
user_first false x e = e

-- After `idt_init`, by the table that the processor has loaded, a device or the kernel reaches the
-- stubs of vectors 14, 32, 33 and 128 in the kernel's code segment and no other handler, and code
-- of ring 3 only that of 128; and interrupts are on.
pub idt_init-dispatch :
    (idt_address : Ptr) (stubs : Stubs) (s : Idt) (user : Bool) (n : ℕ)
    → length s.idt ≡ 256
    → AreWords stubs
    → n < 256
    → (dispatch idt_address (idt_init idt_address stubs s) user n ≡ intended stubs user n)
      × ((idt_init idt_address stubs s).interrupts_on ≡ true)
unfolding idt_init
idt_init-dispatch idt_address stubs s user n size words vector =
    let zeroed = zero_idt 0 256 s.idt in
    let cleared : get_or zeroed n blank ≡ blank =
      get_or-zero_idt 0 256 s.idt n (omega arith) ∙ ground arith in
    let entry = get_or-install stubs zeroed n (length-zero_idt 0 256 s.idt ∙ size) in
    let covered : (idt_address == idt_address && leb (8 * n + 7) 2047) ≡ true = ground arith in
    (
      rw covered (
          ap (read_gate user) entry ∙ elim (Bool-cases (n == 128)) [
            | inl e ↦ rw e (read_gate-user user stubs.isr_128 words.word_128)
            | inr e ↦ elim (Bool-cases (n == 33)) [
              | inl f ↦ rw (e, f) (read_gate-kernel user stubs.isr_irq1 words.word_irq1)
              | inr f ↦ elim (Bool-cases (n == 32)) [
                | inl g ↦ rw (e, f, g) (read_gate-kernel user stubs.isr_irq0 words.word_irq0)
                | inr g ↦ elim (Bool-cases (n == 14)) [
                  | inl h ↦ rw (e, f, g, h) (read_gate-kernel user stubs.isr_14 words.word_14)
                  | inr h ↦
                      rw (e, f, g, h, cleared)
                        (read_gate-blank user ∙ sym (user_first user none refl))
                ]
              ]
            ]
          ]),
      refl,
    )
