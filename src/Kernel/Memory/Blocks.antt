-- ===== src/Kernel/Memory/Blocks.antt =====
-- The heap of kernel/memory.c as a sequence of blocks: what the words in memory stand for.
use black_hole_os.Prelude.{
  ℕ, ◌+◌, ◌*◌, ◌%◌, ◌≤◌, ◌<◌, ◌≡◌, ◌⊎◌, inl, inr, Bool, true, false, List, [], ◌∷◌, arith, length,
  ◌∙◌,
}
use black_hole_os.Kernel.Memory.{
  Ptr, Mem, heap_start, heap_size, sizeof_header, size_of, is_free, next,
}

pub record Block : Type 0 where
  pub size : ℕ
  pub free : Bool

abbrev pub block : ℕ → Bool → Block
block n f = record { size = n; free = f }

abbrev pub flag : Bool → ℕ
flag true = 1
flag false = 0

abbrev pub heap_end : Ptr
heap_end = heap_start + heap_size

-- Where the block behind one at `p` begins.
abbrev pub after : Ptr → Block → Ptr
after p b = p + sizeof_header + b.size

-- The pointer to the blocks `bs`, which begin at `p` if there are any.
abbrev pub link : Ptr → List Block → Ptr
link p [] = 0
link p (b ∷ bs) = p

-- From `p` to the end of the heap the blocks `bs` lie one behind the other, with their headers in
-- memory, their sizes multiples of 4, and each `next` at the block that follows.
abbrev pub Chain : Mem → Ptr → List Block → Type 0
Chain m p [] = p ≡ heap_end
Chain m p (b ∷ bs) =
    (size_of m p ≡ b.size)
    × (is_free m p ≡ flag b.free)
    × (next m p ≡ link (after p b) bs)
    × (b.size % 4 ≡ 0)
    × Chain m (after p b) bs

-- The heap of the kernel holds the blocks `bs`.
pub record IsHeap (m : Mem) (bs : List Block) : Type 0 where
  pub chain : Chain m heap_start bs
  pub some_block : 0 < length bs

-- Two memories agree from `p` on.
abbrev pub SameFrom : Ptr → Mem → Mem → Type 0
SameFrom p m m' = (q : Ptr) → p ≤ q → m' q ≡ m q

-- A chain reads no word below its first block.
pub Chain-same :
    {m : Mem} (m' : Mem) (p : Ptr) (bs : List Block)
    → SameFrom p m m'
    → Chain m p bs
    → Chain m' p bs
Chain-same m' p [] same c = c
Chain-same m' p (b ∷ bs) same c = (
  same p (omega arith) ∙ c.0,
  same (p + 4) (omega arith) ∙ c.1,
  same (p + 8) (omega arith) ∙ c.2,
  c.3,
  Chain-same m' (after p b) bs (λ q h. same q (omega arith)) c.4,
)

-- The blocks with their headers fill the heap from `p` on.
pub Chain-bound :
    (m : Mem) (p : Ptr) (bs : List Block) → Chain m p bs → p + sizeof_header * length bs ≤ heap_end
Chain-bound m p [] c = omega arith
Chain-bound m p (b ∷ bs) c = omega (arith, Chain-bound m (after p b) bs c.4)

-- The bytes of the blocks, headers included.
unfoldable pub total : List Block → ℕ
total [] = 0
total (b ∷ bs) = sizeof_header + b.size + total bs

pub Chain-total : (m : Mem) (p : Ptr) (bs : List Block) → Chain m p bs → p + total bs ≡ heap_end
unfolding total
Chain-total m p [] c = omega (arith, c)
Chain-total m p (b ∷ bs) c = omega (arith, Chain-total m (after p b) bs c.4)

-- The word at `q` belongs to the client of a block in use.
abbrev pub InUse : Ptr → Ptr → List Block → Type 0
InUse q p [] = ⊥
InUse q p (b ∷ bs) =
    ((b.free ≡ false) × (p + sizeof_header ≤ q) × (q < after p b)) ⊎ InUse q (after p b) bs

pub InUse-bound : (q p : Ptr) (bs : List Block) → InUse q p bs → p ≤ q
InUse-bound q p [] h = absurd h
InUse-bound q p (b ∷ bs) (inl h) = omega arith
InUse-bound q p (b ∷ bs) (inr h) = omega (arith, InUse-bound q (after p b) bs h)
