-- ===== src/Kernel/Boot/Tables.antt =====
-- The tables that `paging_init` of kernel/paging.c writes, when the heap behind them is written.
use black_hole_os.Prelude.{
  ℕ, zero, suc, ◌+◌, ◌*◌, ◌/◌, ◌^◌, ◌<◌, ◌≤◌, ◌≡◌, ◌⊎◌, inl, inr, refl, sym, ap, ◌∙◌, arith, ltb,
  ◌==◌, if◌then◌else◌, Bool-cases, true, false, some, none, bit_or,
}
use black_hole_os.Kernel.Memory.{Mem, Ptr, store, heap_start}
use black_hole_os.Kernel.Paging.{
  Paging, align_page, write_tables, fill, paging_init, enable_paging, load_page_directory,
  absent_entry, identity_entry,
}
use black_hole_os.Kernel.Paging.Entries.{write_tables-other, align_page_lem}
use black_hole_os.Kernel.Paging.Translation.{
  Placed, translate, paging_init-identity, paging_init-user,
}

store-at : (m m' : Mem) (p v q : ℕ) → m q ≡ m' q → store m p v q ≡ store m' p v q
unfolding store
store-at m m' p v q e = ground (arith, e)

fill-at :
    (entry : ℕ → ℕ) (table : Ptr) (i n : ℕ) (m m' : Mem) (q : Ptr)
    → m q ≡ m' q
    → fill entry table i n m q ≡ fill entry table i n m' q
unfolding fill
fill-at entry table i zero m m' q e = e
fill-at entry table i (suc n) m m' q e =
    fill-at entry table (i + 1) n (store m (table + 4 * i) (entry i))
      (store m' (table + 4 * i) (entry i)) q (store-at m m' (table + 4 * i) (entry i) q e)

write_tables-at :
    (directory table : Ptr) (m m' : Mem) (q : Ptr)
    → m q ≡ m' q
    → write_tables directory table m q ≡ write_tables directory table m' q
unfolding write_tables
write_tables-at directory table m m' q e =
    store-at _ _ directory (bit_or table 3) q
      (fill-at identity_entry table 0 1024 _ _ q (fill-at absent_entry directory 0 1024 m m' q e))

-- The two raw arrays stand below the heap.
abbrev pub Below : Ptr → Ptr → Type 0
Below directory_raw table_raw =
    (directory_raw + 8192 ≤ heap_start)
    × (table_raw + 8192 ≤ heap_start)
    × ((directory_raw + 8192 ≤ table_raw) ⊎ (table_raw + 8192 ≤ directory_raw))

module _ (directory_raw table_raw : Ptr) (s : Paging) (below : Below directory_raw table_raw)
    (cr0_word : s.cr0 < 2 ^ 32) (m : Mem)
    (kept : (q : Ptr)
      → q < heap_start
      → m q ≡ (paging_init directory_raw table_raw s).memory q) where
  placed : Placed directory_raw table_raw
  placed = let (a, b, c) = below in (omega arith, omega arith, c)

  abbrev base : Mem
  base q = if ltb q heap_start then s.memory q else m q

  abbrev later : Paging
  later = record (paging_init directory_raw table_raw s) { memory = m }

  memory_is :
      (q : Ptr) → m q ≡ write_tables (align_page directory_raw) (align_page table_raw) base q
  unfolding paging_init enable_paging load_page_directory
  memory_is q =
      let (a, b, c) = below in
      let (d, e, f) = align_page_lem directory_raw (omega arith) in
      let (d', e', f') = align_page_lem table_raw (omega arith) in
      elim (Bool-cases (ltb q heap_start)) [
        | inl low ↦
            let same : s.memory q ≡ base q = rw low refl in
            kept q (ground arith)
            ∙ write_tables-at (align_page directory_raw) (align_page table_raw) s.memory base q same
        | inr high ↦
            let same : base q ≡ m q = rw high refl in
            sym (
              write_tables-other (align_page directory_raw) (align_page table_raw) base
                (ground arith) q (ground arith) (ground arith)
              ∙ same)
      ]

  later_is : later ≡ paging_init directory_raw table_raw (record s { memory = base })
  unfolding paging_init enable_paging load_page_directory
  later_is = ap (λ (n : Mem). record later { memory = n }) (λ i q. memory_is q i)

  pub later-identity :
      (va : ℕ)
      → va < 2 ^ 32
      → translate later false va ≡ (if va / 2 ^ 22 == 0 then some va else none)
  later-identity va word =
      ap (λ (p : Paging). translate p false va) later_is
      ∙ paging_init-identity directory_raw table_raw (record s { memory = base }) placed cr0_word va
          word

  pub later-user : (va : ℕ) → va < 2 ^ 32 → translate later true va ≡ none
  later-user va word =
      ap (λ (p : Paging). translate p true va) later_is
      ∙ paging_init-user directory_raw table_raw (record s { memory = base }) placed cr0_word va
          word
