-- ===== src/Kernel/Memory.antt =====
-- kernel/memory.c: the free-list allocator, over a memory of 32-bit words. A `block_header_t` is
-- the three words `size`, `is_free` and `next` at its address. A loop runs on fuel, and `none`
-- means that the fuel ran out.
pub mod Store
pub mod Blocks
pub mod Alloc
pub mod FirstFit
pub mod Free
pub mod Release
pub mod Tidy
pub mod AllocCall
pub mod FreeCall
pub mod History
mod Tests
use black_hole_os.Prelude.{
  ℕ, zero, suc, ◌+◌, ◌-◌, ◌*◌, ◌/◌, ◌%◌, ◌^◌, Bool, ◌&&◌, not, Option, none, some, leb, ◌==◌,
  if◌then◌else◌,
}

-- An address, as a number of bytes; 0 is NULL.
abbrev pub Ptr : Type 0
Ptr = ℕ

-- The word at each address. Every access here is of a whole word.
abbrev pub Mem : Type 0
Mem = Ptr → ℕ

unfoldable pub store : Mem → Ptr → ℕ → Mem
store m p v q = if q == p then v else m q

abbrev pub heap_start : ℕ
heap_start = 0x100000

abbrev pub heap_size : ℕ
heap_size = 0x100000

abbrev pub sizeof_header : ℕ
sizeof_header = 12

-- The fields of `block_header_t` behind a pointer.
abbrev pub size_of : Mem → Ptr → ℕ
size_of m p = m p

abbrev pub is_free : Mem → Ptr → ℕ
is_free m p = m (p + 4)

abbrev pub next : Mem → Ptr → Ptr
next m p = m (p + 8)

abbrev pub set_size : Mem → Ptr → ℕ → Mem
set_size m p v = store m p v

abbrev pub set_is_free : Mem → Ptr → ℕ → Mem
set_is_free m p v = store m (p + 4) v

abbrev pub set_next : Mem → Ptr → Ptr → Mem
set_next m p v = store m (p + 8) v

-- An `int` as a condition.
abbrev pub truth : ℕ → Bool
truth n = not (n == 0)

-- `static block_header_t *free_list`, which nothing assigns.
abbrev pub free_list : Ptr
free_list = heap_start

unfoldable pub memory_init : Mem → Mem
memory_init m =
    let m1 = set_size m free_list (heap_size - sizeof_header) in
    let m2 = set_is_free m1 free_list 1 in set_next m2 free_list 0

-- `(size + 3) & ~3`
unfoldable pub align : ℕ → ℕ
align size = (size + 3) % 2 ^ 32 / 4 * 4

-- Where the block is large enough, the rest of it becomes a block of its own.
unfoldable pub split : Mem → Ptr → ℕ → Mem
split m current n =
    if leb ((n + sizeof_header + 4) % 2 ^ 32) (size_of m current)
    then (let new_block = current + sizeof_header + n in
        let m1 = set_size m new_block (size_of m current - n - sizeof_header) in
        let m2 = set_is_free m1 new_block 1 in
        let m3 = set_next m2 new_block (next m2 current) in
        let m4 = set_size m3 current n in set_next m4 current new_block)
    else m

-- The body of the `if` in the loop of `memory_alloc`: the block is taken.
unfoldable pub occupy : Mem → Ptr → ℕ → Ptr × Mem
unfolding split
occupy m current n = (current + sizeof_header, set_is_free (split m current n) current 0)

-- The loop of `memory_alloc`.
unfoldable pub alloc_loop : ℕ → Mem → Ptr → ℕ → Option (Ptr × Mem)
unfolding occupy
alloc_loop zero m current n = none
alloc_loop (suc fuel) m current n =
    let rest = alloc_loop fuel m (next m current) n in
    if current == 0
    then some (0, m)
    else if truth (is_free m current) && leb n (size_of m current)
    then some (occupy m current n)
    else rest

-- Rounds enough for both loops: every header takes 12 bytes, which bounds the number of blocks.
abbrev pub max_rounds : ℕ
max_rounds = heap_size / sizeof_header + 2

unfoldable pub memory_alloc : Mem → ℕ → Option (Ptr × Mem)
unfolding align
memory_alloc m size =
    if size == 0 then some (0, m) else alloc_loop max_rounds m free_list (align size)

-- The loop of `memory_free`.
unfoldable pub coalesce : ℕ → Mem → Ptr → Option Mem
coalesce zero m current = none
coalesce (suc fuel) m current =
    let m1 =
      set_size m current
        ((size_of m current + (sizeof_header + size_of m (next m current))) % 2 ^ 32) in
    let merged = coalesce fuel (set_next m1 current (next m1 (next m1 current))) current in
    let moved = coalesce fuel m (next m current) in
    if current == 0
    then some m
    else if truth (is_free m current)
        && (not (next m current == 0) && truth (is_free m (next m current)))
    then merged
    else moved

-- `ptr - sizeof(block_header_t)` wraps in C; `ptr` is at least 12 wherever a theorem uses it.
unfoldable pub memory_free : Mem → Ptr → Option Mem
memory_free m ptr =
    if ptr == 0
    then some m
    else coalesce max_rounds (set_is_free m ((ptr + 2 ^ 32 - sizeof_header) % 2 ^ 32) 1) free_list
