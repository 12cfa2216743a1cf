-- ===== src/Kernel/Paging/Translation.antt =====
-- Which address an access reaches after `paging_init` of kernel/paging.c.
use black_hole_os.Prelude.{
  ℕ, ◌+◌, ◌*◌, ◌/◌, ◌%◌, ◌^◌, ◌<◌, ◌≤◌, ◌≡◌, ◌⊎◌, inl, inr, refl, ◌∙◌, arith, bit_or, bit_or-high,
  ◌==◌, if◌then◌else◌, Bool, Bool-cases, true, false, Option, some, none, not, ◌&&◌, ◌||◌,
}
use black_hole_os.Kernel.Memory.{Mem, Ptr}
use black_hole_os.Kernel.Paging.{
  Paging, align_page, write_tables, paging_init, enable_paging, load_page_directory,
}
use black_hole_os.Kernel.Paging.Entries.{
  align_page_lem, Apart, first_directory_entry, directory_entry, table_entry, write_tables-other,
}

-- Whether an entry admits an access: the page is present, and user code needs the bit of value 4.
abbrev pub admits : Bool → ℕ → Bool
admits user entry = not (entry % 2 == 0) && (not user || not (entry / 4 % 2 == 0))

-- The translation of a 32-bit address by the processor, from ring 3 or not; `none` is a page fault.
abbrev pub page_walk : Mem → Ptr → Bool → ℕ → Option ℕ
page_walk m cr3 user va =
    let pde = m (cr3 / 4096 * 4096 + 4 * (va / 2 ^ 22)) in
    let pte = m (pde / 4096 * 4096 + 4 * (va / 2 ^ 12 % 2 ^ 10)) in
    if admits user pde && admits user pte then some (pte / 4096 * 4096 + va % 4096) else none

-- Bit 31 of CR0 turns the translation on.
unfoldable pub translate : Paging → Bool → ℕ → Option ℕ
translate s user va = if s.cr0 / 2 ^ 31 % 2 == 0 then some va else page_walk s.memory s.cr3 user va

page_walk_of :
    (m : Mem) (cr3 : Ptr) (user : Bool) (va pde pte : ℕ)
    → m (cr3 / 4096 * 4096 + 4 * (va / 2 ^ 22)) ≡ pde
    → m (pde / 4096 * 4096 + 4 * (va / 2 ^ 12 % 2 ^ 10)) ≡ pte
    → page_walk m cr3 user va
      ≡ (if admits user pde && admits user pte then some (pte / 4096 * 4096 + va % 4096) else none)
page_walk_of m cr3 user va pde pte directory table = rw (directory, table)

supervisor_only :
    (user : Bool) (pa : ℕ)
    → (if (not user || false) && (not user || false) then some pa else none)
      ≡ (if user then none else some pa)
supervisor_only true pa = refl
supervisor_only false pa = refl

-- Where the linker may put the two raw arrays.
abbrev pub Placed : Ptr → Ptr → Type 0
Placed directory_raw table_raw =
    (directory_raw + 8192 ≤ 2 ^ 32)
    × (table_raw + 8192 ≤ 2 ^ 32)
    × ((directory_raw + 8192 ≤ table_raw) ⊎ (table_raw + 8192 ≤ directory_raw))

module _ (directory_raw table_raw : Ptr) (s : Paging) (placed : Placed directory_raw table_raw)
    (cr0_word : s.cr0 < 2 ^ 32) where
  apart : Apart (align_page directory_raw) (align_page table_raw)
  apart =
      let (a, b, c) = placed in
      let (d, e, f) = align_page_lem directory_raw a in
      let (d', e', f') = align_page_lem table_raw b in ground arith

  paging_on : (bit_or s.cr0 0x80000000 / 2 ^ 31 % 2 == 0) ≡ false
  paging_on =
      let high = bit_or-high 31 s.cr0 1 in
      let bit : bit_or (s.cr0 / 2 ^ 31) 1 ≡ 1 = elim (Bool-cases (s.cr0 / 2 ^ 31 == 0)) [
        | inl clear ↦ let e : s.cr0 / 2 ^ 31 ≡ 0 = ground arith in rw e
        | inr on ↦ let e : s.cr0 / 2 ^ 31 ≡ 1 = ground arith in rw e
      ] in
      ground (arith, high, bit)

  -- The walk through the tables that `paging_init` writes.
  walk_low :
      (user : Bool) (va : ℕ)
      → va < 2 ^ 22
      → page_walk
          (write_tables (align_page directory_raw) (align_page table_raw) s.memory)
          (align_page directory_raw)
          user
          va
        ≡ (if user then none else some va)
  walk_low user va low =
      let directory = align_page directory_raw in
      let table = align_page table_raw in
      let (a, b, c) = placed in
      let (d, e, f) = align_page_lem directory_raw a in
      let (d', e', f') = align_page_lem table_raw b in
      let i = va / 2 ^ 12 % 2 ^ 10 in
      let at : directory / 4096 * 4096 + 4 * (va / 2 ^ 22) ≡ directory = omega arith in
      let base : (table + 3) / 4096 * 4096 ≡ table = omega arith in
      let user_bit : (i * 4096 + 3) / 4 % 2 ≡ 0 = omega arith in
      let bits : ((table + 3) % 2 ≡ 1)
          × ((table + 3) / 4 % 2 ≡ 0)
          × ((i * 4096 + 3) % 2 ≡ 1)
          × ((i * 4096 + 3) / 4096 * 4096 + va % 4096 ≡ va) =
        (omega arith, omega arith, omega arith, omega arith) in
      page_walk_of (write_tables directory table s.memory) directory user va (table + 3)
        (i * 4096 + 3) (rw at (first_directory_entry directory table s.memory apart f'))
        (rw base (table_entry directory table s.memory apart i (omega arith)))
      ∙ (let (p, q, r, t) = bits in rw (p, q, r, user_bit, t) (supervisor_only user va))

  walk_high :
      (user : Bool) (va : ℕ)
      → 2 ^ 22 ≤ va
      → va < 2 ^ 32
      → page_walk
          (write_tables (align_page directory_raw) (align_page table_raw) s.memory)
          (align_page directory_raw)
          user
          va
        ≡ none
  walk_high user va high word =
      let directory = align_page directory_raw in
      let table = align_page table_raw in
      let (a, b, c) = placed in
      let (d, e, f) = align_page_lem directory_raw a in
      let base : directory / 4096 * 4096 ≡ directory = omega arith in
      page_walk_of (write_tables directory table s.memory) directory user va 2 _
        (rw base (
          directory_entry directory table s.memory apart (va / 2 ^ 22) (omega arith) (omega arith)))
        refl

  -- After `paging_init` the kernel's access to an address below 4 MB reaches that same address, and
  -- every access from 4 MB on is a page fault.
  pub paging_init-identity :
      (va : ℕ)
      → va < 2 ^ 32
      → translate (paging_init directory_raw table_raw s) false va
        ≡ (if va / 2 ^ 22 == 0 then some va else none)
  unfolding paging_init enable_paging load_page_directory translate
  paging_init-identity va word = rw paging_on (elim (Bool-cases (va / 2 ^ 22 == 0)) [
    | inl low ↦ rw low (walk_low false va (ground arith))
    | inr high ↦ rw high (walk_high false va (ground arith) word)
  ])

  -- From ring 3 every access is a page fault: no entry has the user bit.
  pub paging_init-user :
      (va : ℕ) → va < 2 ^ 32 → translate (paging_init directory_raw table_raw s) true va ≡ none
  unfolding paging_init enable_paging load_page_directory translate
  paging_init-user va word = rw paging_on (elim (Bool-cases (va / 2 ^ 22 == 0)) [
    | inl low ↦ walk_low true va (ground arith)
    | inr high ↦ walk_high true va (ground arith) word
  ])

  -- `paging_init` writes only into the two raw arrays.
  pub paging_init-other :
      (q : Ptr)
      → (q < directory_raw) ⊎ (directory_raw + 8192 ≤ q)
      → (q < table_raw) ⊎ (table_raw + 8192 ≤ q)
      → (paging_init directory_raw table_raw s).memory q ≡ s.memory q
  unfolding paging_init enable_paging load_page_directory
  paging_init-other q out out' =
      let (a, b, c) = placed in
      let (d, e, f) = align_page_lem directory_raw a in
      let (d', e', f') = align_page_lem table_raw b in
      write_tables-other (align_page directory_raw) (align_page table_raw) s.memory apart q
        (ground arith) (ground arith)
