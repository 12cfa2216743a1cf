-- ===== src/Kernel/Gdt/Init.antt =====
-- The table that `gdt_init` of kernel/gdt.c sets up.
use black_hole_os.Prelude.{
  ℕ, ◌+◌, ◌-◌, ◌*◌, ◌^◌, ◌<◌, ◌≡◌, refl, ◌∙◌, arith, List, [], ◌∷◌, get_or, set, length,
}
use black_hole_os.Kernel.Memory.{Ptr}
use black_hole_os.Kernel.Gdt.{GdtEntry, Gdt, gate, gdt_set_gate, gdt_init, write_tss, no_entry}
use black_hole_os.Kernel.Gdt.Descriptors.{
  Describes, gate-Describes, base_of, limit_of, raw_limit, flags_of, privilege_of,
}

six_sets :
    (xs : List GdtEntry) (a b c d e f : GdtEntry)
    → length xs ≡ 6
    → set (set (set (set (set (set xs 0 a) 1 b) 2 c) 3 d) 4 e) 5 f ≡ a ∷ b ∷ c ∷ d ∷ e ∷ f ∷ []
six_sets [] a b c d e f h = absurd (omega arith)
six_sets (_ ∷ []) a b c d e f h = absurd (omega arith)
six_sets (_ ∷ _ ∷ []) a b c d e f h = absurd (omega arith)
six_sets (_ ∷ _ ∷ _ ∷ []) a b c d e f h = absurd (omega arith)
six_sets (_ ∷ _ ∷ _ ∷ _ ∷ []) a b c d e f h = absurd (omega arith)
six_sets (_ ∷ _ ∷ _ ∷ _ ∷ _ ∷ []) a b c d e f h = absurd (omega arith)
six_sets (_ ∷ _ ∷ _ ∷ _ ∷ _ ∷ _ ∷ []) a b c d e f h = refl
six_sets (_ ∷ _ ∷ _ ∷ _ ∷ _ ∷ _ ∷ _ ∷ xs) a b c d e f h = absurd (omega arith)

-- A code or data segment of the whole address space.
abbrev pub IsFlat : GdtEntry → ℕ → ℕ → Type 0
IsFlat e access privilege =
    (base_of e ≡ 0) × (limit_of e ≡ 2 ^ 32 - 1) × (e.access ≡ access) × (privilege_of e ≡ privilege)

pub record Installed (entries_address tss_address : Ptr) (g : Gdt) : Type 0 where
  pub null_segment : get_or g.gdt_entries 0 no_entry ≡ no_entry
  pub kernel_code : IsFlat (get_or g.gdt_entries 1 no_entry) 0x9A 0
  pub kernel_data : IsFlat (get_or g.gdt_entries 2 no_entry) 0x92 0
  pub user_code : IsFlat (get_or g.gdt_entries 3 no_entry) 0xFA 3
  pub user_data : IsFlat (get_or g.gdt_entries 4 no_entry) 0xF2 3
  pub task_base : base_of (get_or g.gdt_entries 5 no_entry) ≡ tss_address
  pub task_access : (get_or g.gdt_entries 5 no_entry).access ≡ 0xE9
  pub task_limit : limit_of (get_or g.gdt_entries 5 no_entry) ≡ 103
  pub whole_table : g.gdt_ptr.limit + 1 ≡ 8 * length g.gdt_entries
  pub table_address : g.gdt_ptr.base ≡ entries_address
  pub kernel_stack : (g.tss_entry.ss0 ≡ 0x10) × (g.tss_entry.cs ≡ 0x08) × (g.tss_entry.esp0 ≡ 0)

byte_limit : (e : GdtEntry) (limit : ℕ) → flags_of e ≡ 0 → raw_limit e ≡ limit → limit_of e ≡ limit
byte_limit e limit bytes raw = ground arith

-- `gdt_init` leaves a table of the null segment, flat code and data segments for rings 0 and 3, and
-- the descriptor of the task state segment, which is present, is of the type that `ltr` takes and
-- may be used from ring 3, with the segment's address and last byte; the table's pointer covers it;
-- the segment has the kernel's stack and code selectors, and 0 as the kernel's stack pointer.
pub gdt_init-Installed :
    (entries_address tss_address : Ptr) (s : Gdt)
    → length s.gdt_entries ≡ 6
    → tss_address < 2 ^ 32
    → Installed entries_address tss_address (gdt_init entries_address tss_address s)
unfolding gdt_init gdt_set_gate write_tss gate
gdt_init-Installed entries_address tss_address s six word =
    let table =
      six_sets s.gdt_entries (gate 0 0 0 0) (gate 0 0xFFFFFFFF 0x9A 0xCF)
        (gate 0 0xFFFFFFFF 0x92 0xCF) (gate 0 0xFFFFFFFF 0xFA 0xCF) (gate 0 0xFFFFFFFF 0xF2 0xCF)
        (gate tss_address 103 0xE9 0) six in
    let task : Describes (gate tss_address 103 0xE9 0) tss_address 103 0xE9 0 =
      gate-Describes tss_address 103 0xE9 0 word (omega arith) in
    record {
      null_segment = rw table refl;
      kernel_code = rw table (refl, refl, refl, refl);
      kernel_data = rw table (refl, refl, refl, refl);
      user_code = rw table (refl, refl, refl, refl);
      user_data = rw table (refl, refl, refl, refl);
      task_base = rw table task.same_base;
      task_access = rw table refl;
      task_limit = rw table (
          byte_limit (gate tss_address 103 0xE9 0) 103 (omega (arith, task.same_flags))
            (task.low_limit ∙ omega arith));
      whole_table = rw table refl;
      table_address = refl;
      kernel_stack = (refl, refl, refl);
    }
