-- ===== src/Kernel/Paging.antt =====
-- kernel/paging.c: the page directory and the one page table that `paging_init` writes, and the
-- control registers it loads. The linker's addresses of the two raw arrays are arguments. An entry
-- is a word of the memory of `Kernel.Memory`.
pub mod Entries
pub mod Translation
mod Tests
use black_hole_os.Prelude.{ℕ, zero, suc, ◌+◌, ◌*◌, ◌%◌, ◌^◌, bit_and, bit_or}
use black_hole_os.Kernel.Memory.{Mem, Ptr, store}

pub record Paging : Type 0 where
  pub memory : Mem
  pub page_directory : Ptr
  pub first_page_table : Ptr
  pub cr0 : ℕ
  pub cr3 : Ptr

-- `(raw + 4095) & ~4095` in 32 bits
unfoldable pub align_page : Ptr → Ptr
align_page raw = bit_and ((raw + 4095) % 2 ^ 32) 0xFFFFF000

-- `for (int i = ...; i < i + count; i++) table[i] = entry(i)`
unfoldable pub fill : (ℕ → ℕ) → Ptr → ℕ → ℕ → Mem → Mem
fill entry table i zero m = m
fill entry table i (suc count) m =
    fill entry table (i + 1) count (store m (table + 4 * i) (entry i))

-- Not present, writable.
abbrev pub absent_entry : ℕ → ℕ
absent_entry i = 0x00000002

unfoldable pub identity_entry : ℕ → ℕ
identity_entry i = bit_or (i * 4096) 3

unfoldable pub load_page_directory : Ptr → Paging → Paging
load_page_directory pd s = record s { cr3 = pd }

unfoldable pub enable_paging : Paging → Paging
enable_paging s = record s { cr0 = bit_or s.cr0 0x80000000 }

-- The stores of `paging_init`.
unfoldable pub write_tables : Ptr → Ptr → Mem → Mem
write_tables directory table m =
    let cleared = fill absent_entry directory 0 1024 m in
    let mapped = fill identity_entry table 0 1024 cleared in store mapped directory (bit_or table 3)

unfoldable pub paging_init : Ptr → Ptr → Paging → Paging
paging_init page_directory_raw first_page_table_raw s =
    let directory = align_page page_directory_raw in
    let table = align_page first_page_table_raw in
    let written = record s {
      page_directory = directory;
      first_page_table = table;
      memory = write_tables directory table s.memory;
    } in
    enable_paging (load_page_directory directory written)
