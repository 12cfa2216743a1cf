-- ===== src/Kernel/Memory/Store.antt =====
-- Reads of a word behind a write to memory.
use black_hole_os.Prelude.{ℕ, ◌≡◌, ◌≢◌, arith}
use black_hole_os.Kernel.Memory.{Ptr, Mem, store}

pub store_self : (m : Mem) (p : Ptr) (v : ℕ) → store m p v p ≡ v
unfolding store
store_self m p v = ground arith

pub store_ne : (m : Mem) (p : Ptr) (v : ℕ) (q : Ptr) → q ≢ p → store m p v q ≡ m q
unfolding store
store_ne m p v q ne = ground arith
