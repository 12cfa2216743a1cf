-- ===== src/Kernel/Gdt/Descriptors.antt =====
-- How the processor reads the descriptors that kernel/gdt.c writes.
use black_hole_os.Prelude.{
  ℕ, ◌+◌, ◌*◌, ◌/◌, ◌%◌, ◌^◌, ◌<◌, ◌≡◌, ◌≢◌, refl, ap, sym, subst, ◌∙◌, arith, bit_and, bit_or,
  bit_and-mod, bit_and-high, bit_or-add_low, ◌==◌, if◌then◌else◌, get_or, length, get_or-set_self,
  get_or-set_ne,
}
use black_hole_os.Kernel.Gdt.{GdtEntry, Gdt, gate, gdt_set_gate, no_entry}

-- The parts of a descriptor, put together again.
abbrev pub base_of : GdtEntry → ℕ
base_of e = e.base_low + e.base_middle * 2 ^ 16 + e.base_high * 2 ^ 24

abbrev pub raw_limit : GdtEntry → ℕ
raw_limit e = e.limit_low + e.granularity % 16 * 2 ^ 16

abbrev pub flags_of : GdtEntry → ℕ
flags_of e = e.granularity / 16

-- The last byte of the segment: the flag of value 8 counts the limit in pages.
abbrev pub limit_of : GdtEntry → ℕ
limit_of e = if flags_of e / 8 == 0 then raw_limit e else raw_limit e * 4096 + 4095

abbrev pub privilege_of : GdtEntry → ℕ
privilege_of e = e.access / 32 % 4

nibbles :
    (low gran : ℕ) → low < 16 → gran < 256 → bit_or low (bit_and gran 0xF0) ≡ gran / 16 * 16 + low
nibbles low gran small byte =
    let high : bit_and gran 0xF0 ≡ gran / 16 * 16 =
      bit_and-high 4 gran 15 ∙ ap (λ (n : ℕ). n * 16) (bit_and-mod 4 (gran / 16) ∙ omega arith) in
    rw high (bit_or-add_low 4 (gran / 16) low small)

-- What an entry says of the segment.
pub record Describes (e : GdtEntry) (base limit access gran : ℕ) : Type 0 where
  pub same_base : base_of e ≡ base
  pub low_limit : raw_limit e ≡ limit % 2 ^ 20
  pub same_flags : flags_of e ≡ gran / 16
  pub same_access : e.access ≡ access

pub gate-Describes :
    (base limit access gran : ℕ)
    → base < 2 ^ 32
    → gran < 256
    → Describes (gate base limit access gran) base limit access gran
unfolding gate
gate-Describes base limit access gran word byte =
    let low = bit_and-mod 16 base in
    let middle = bit_and-mod 8 (base / 2 ^ 16) in
    let high = bit_and-mod 8 (base / 2 ^ 24) in
    let limit_low = bit_and-mod 16 limit in
    let limit_high = bit_and-mod 4 (limit / 2 ^ 16) in
    let both = nibbles (bit_and (limit / 2 ^ 16) 0x0F) gran (omega (arith, limit_high)) byte in
    record {
      same_base = omega (arith, low, middle, high);
      low_limit = omega (arith, limit_low, limit_high, both);
      same_flags = omega (arith, limit_high, both);
      same_access = refl;
    }

-- `gdt_set_gate` writes a descriptor from which the processor reads the base, the low 20 bits of
-- the limit, the flags and the access byte that it was given, and changes no other entry.
gdt_set_gate-Describes :
    (num base limit access gran : ℕ) (s : Gdt)
    → num < length s.gdt_entries
    → base < 2 ^ 32
    → gran < 256
    → Describes
        (get_or (gdt_set_gate num base limit access gran s).gdt_entries num no_entry)
        base
        limit
        access
        gran
      × ((i : ℕ)
          → i ≢ num
          → get_or (gdt_set_gate num base limit access gran s).gdt_entries i no_entry
            ≡ get_or s.gdt_entries i no_entry)
unfolding gdt_set_gate
gdt_set_gate-Describes num base limit access gran s inside word byte = (
  subst (λ (e : GdtEntry). Describes e base limit access gran)
      (sym (get_or-set_self s.gdt_entries num (gate base limit access gran) no_entry inside))
      (gate-Describes base limit access gran word byte),
  λ i other.
      get_or-set_ne s.gdt_entries num i (gate base limit access gran) no_entry (λ e. other (sym e)),
)
