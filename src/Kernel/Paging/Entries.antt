-- ===== src/Kernel/Paging/Entries.antt =====
-- The stores of `paging_init` of kernel/paging.c.
use black_hole_os.Prelude.{
  ℕ, zero, suc, ◌+◌, ◌*◌, ◌/◌, ◌%◌, ◌^◌, ◌<◌, ◌≤◌, ◌≡◌, ◌⊎◌, inl, inr, refl, ap, sym, ◌∙◌, arith,
  bit_and, bit_or, bit_and-mod, bit_and-high, bit_or-add, ◌==◌, Bool-cases,
}
use black_hole_os.Kernel.Memory.{Mem, Ptr, store}
use black_hole_os.Kernel.Memory.Store.{store_self, store_ne}
use black_hole_os.Kernel.Paging.{align_page, fill, identity_entry, absent_entry, write_tables}

-- `fill` leaves every other word.
pub fill-other :
    (entry : ℕ → ℕ) (table i count : ℕ) (m : Mem) (q : Ptr)
    → (q < table + 4 * i) ⊎ (table + 4 * (i + count) ≤ q)
    → fill entry table i count m q ≡ m q
unfolding fill
fill-other entry table i zero m q h = refl
fill-other entry table i (suc count) m q h =
    fill-other entry table (i + 1) count (store m (table + 4 * i) (entry i)) q (ground arith)
    ∙ store_ne m (table + 4 * i) (entry i) q (ground arith)

pub fill-entry :
    (entry : ℕ → ℕ) (table i count : ℕ) (m : Mem) (j : ℕ)
    → i ≤ j
    → j < i + count
    → fill entry table i count m (table + 4 * j) ≡ entry j
unfolding fill
fill-entry entry table i zero m j low high = absurd (omega arith)
fill-entry entry table i (suc count) m j low high = elim (Bool-cases (j == i)) [
  | inl here ↦
      let e : j ≡ i = ground arith in
      fill-other entry table (i + 1) count (store m (table + 4 * i) (entry i)) (table + 4 * j)
        (inl (omega arith))
      ∙ rw e (store_self m (table + 4 * i) (entry i))
  | inr later ↦
      fill-entry entry table (i + 1) count (store m (table + 4 * i) (entry i)) j (ground arith)
        (omega arith)
]

pub align_page_lem :
    (raw : Ptr)
    → raw + 8192 ≤ 2 ^ 32
    → (raw ≤ align_page raw) × (align_page raw + 4096 ≤ raw + 8192) × (align_page raw % 4096 ≡ 0)
unfolding align_page
align_page_lem raw h =
    let x = (raw + 4095) % 2 ^ 32 in
    let mask : bit_and x 0xFFFFF000 ≡ bit_and (x / 4096) 0xFFFFF * 4096 =
      bit_and-high 12 x 0xFFFFF in
    let low : bit_and (x / 4096) 0xFFFFF ≡ x / 4096 % 2 ^ 20 = bit_and-mod 20 (x / 4096) in
    rw (mask, low) (omega arith, omega arith, omega arith)

pub identity_entry_lem : (i : ℕ) → identity_entry i ≡ i * 4096 + 3
unfolding identity_entry
identity_entry_lem i = bit_or-add 12 i 3 (omega arith)

pub table_entry_lem : (table : Ptr) → table % 4096 ≡ 0 → bit_or table 3 ≡ table + 3
table_entry_lem table h =
    let e : table / 4096 * 4096 ≡ table = omega arith in
    ap (λ (t : ℕ). bit_or t 3) (sym e) ∙ bit_or-add 12 (table / 4096) 3 (omega arith) ∙ omega arith

-- Two page-sized tables that do not overlap.
abbrev pub Apart : Ptr → Ptr → Type 0
Apart directory table = (directory + 4096 ≤ table) ⊎ (table + 4096 ≤ directory)

module _ (directory table : Ptr) (m : Mem) (apart : Apart directory table) where
  pub first_directory_entry :
      table % 4096 ≡ 0 → write_tables directory table m directory ≡ table + 3
  unfolding write_tables
  first_directory_entry aligned =
      store_self _ directory (bit_or table 3) ∙ table_entry_lem table aligned

  pub directory_entry :
      (i : ℕ) → 0 < i → i < 1024 → write_tables directory table m (directory + 4 * i) ≡ 2
  unfolding write_tables
  directory_entry i positive bound =
      let cleared = fill absent_entry directory 0 1024 m in
      store_ne _ directory (bit_or table 3) (directory + 4 * i) (omega arith)
      ∙ fill-other identity_entry table 0 1024 cleared (directory + 4 * i) (ground arith)
      ∙ fill-entry absent_entry directory 0 1024 m i (omega arith) (omega arith)

  pub table_entry :
      (i : ℕ) → i < 1024 → write_tables directory table m (table + 4 * i) ≡ i * 4096 + 3
  unfolding write_tables
  table_entry i bound =
      store_ne _ directory (bit_or table 3) (table + 4 * i) (ground arith)
      ∙ fill-entry identity_entry table 0 1024 _ i (omega arith) (omega arith)
      ∙ identity_entry_lem i

  -- `paging_init` writes nothing outside the two tables.
  pub write_tables-other :
      (q : Ptr)
      → (q < directory) ⊎ (directory + 4096 ≤ q)
      → (q < table) ⊎ (table + 4096 ≤ q)
      → write_tables directory table m q ≡ m q
  unfolding write_tables
  write_tables-other q out out' =
      let cleared = fill absent_entry directory 0 1024 m in
      store_ne _ directory (bit_or table 3) q (ground arith)
      ∙ fill-other identity_entry table 0 1024 cleared q (ground arith)
      ∙ fill-other absent_entry directory 0 1024 m q (ground arith)
