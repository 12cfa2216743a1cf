-- ===== src/Kernel/Memory/AllocCall.antt =====
-- `memory_init` and `memory_alloc` of kernel/memory.c on the heap of the kernel.
use black_hole_os.Prelude.{
  ℕ, ◌+◌, ◌-◌, ◌%◌, ◌^◌, ◌≤◌, ◌<◌, ◌≡◌, ◌≢◌, ◌↔◌, inl, inr, subst, refl, sym, ◌∙◌, ap, true, false,
  some, List, [], ◌∷◌, arith, length, All, ◌==◌,
}
use black_hole_os.Kernel.Memory.{
  Ptr, Mem, store, heap_start, heap_size, max_rounds, align, memory_init, memory_alloc, alloc_loop,
}
use black_hole_os.Kernel.Memory.Blocks.{
  Block, block, after, link, Chain, heap_end, IsHeap, Chain-bound, InUse,
}
use black_hole_os.Kernel.Memory.Alloc.{first_fit, alloc_loop-Found, link-first_fit}
use black_hole_os.Kernel.Memory.FirstFit.{
  align_lem, TooSmall, first_fit-null, null-TooSmall, first_fit-keeps, first_fit-fresh,
}

-- The heap after `memory_init` is one free block.
pub memory_init-IsHeap : (m : Mem) → IsHeap (memory_init m) (block (heap_size - 12) true ∷ [])
unfolding memory_init store
memory_init-IsHeap m = record { chain = (refl, refl, refl, refl, refl); some_block = omega arith }

link-start : {m : Mem} (bs : List Block) → IsHeap m bs → link heap_start bs ≡ heap_start
link-start [] h = let no_block = h.some_block in absurd (omega arith)
link-start (b ∷ bs) h = refl

pub nonempty_of_link : (p : Ptr) (bs : List Block) → 0 < p → link p bs ≡ p → 0 < length bs
nonempty_of_link p [] pos e = absurd (omega arith)
nonempty_of_link p (b ∷ bs) pos e = omega arith

-- The words of the blocks in use are the same.
abbrev pub SameInUse : List Block → Mem → Mem → Type 0
SameInUse bs m m' = (q : Ptr) → InUse q heap_start bs → m' q ≡ m q

-- The blocks after a request for `size` bytes.
abbrev pub served : ℕ → List Block → List Block
served size bs = (first_fit (align size) heap_start bs).1

-- What a call that asks for `n` bytes, a multiple of 4, does to a heap.
abbrev pub Serves : ℕ → Mem → List Block → Ptr × Mem → Type 0
Serves n m bs (r, m') =
    (r ≡ (first_fit n heap_start bs).0)
    × IsHeap m' (first_fit n heap_start bs).1
    × SameInUse bs m m'

search_heap :
    (n : ℕ) (m : Mem) (bs : List Block) (fuel : ℕ)
    → IsHeap m bs
    → n % 4 ≡ 0
    → length bs < fuel
    → (out : Ptr × Mem) × (alloc_loop fuel m heap_start n ≡ some out) × Serves n m bs out
search_heap n m bs fuel h whole enough =
    let (m', e, chain, same) =
      alloc_loop-Found n whole fuel m heap_start bs h.chain (omega arith) enough in
    let start = link-start bs h in
    (
      ((first_fit n heap_start bs).0, m'),
      ap (λ (a : Ptr). alloc_loop fuel m a n) (sym start) ∙ e,
      (
        refl,
        record {
          chain = chain;
          some_block =
              nonempty_of_link heap_start _ (omega arith)
                (link-first_fit n heap_start heap_start bs ∙ start);
        },
        λ q used. same q (inr used),
      ),
    )

pub fuel_enough :
    (m : Mem) (bs : List Block) (fuel : ℕ) → IsHeap m bs → fuel ≡ max_rounds → length bs + 1 < fuel
fuel_enough m bs fuel h e = omega (arith, Chain-bound m heap_start bs h.chain)

-- For any size that is not 0, `memory_alloc` ends on a heap; it returns the data of the first free
-- block that holds the aligned size, or NULL; the heap after it is whole, with that block taken,
-- and the words of the blocks in use are the same.
pub memory_alloc-Serves :
    (m : Mem) (bs : List Block) (size : ℕ)
    → IsHeap m bs
    → size ≢ 0
    → (out : Ptr × Mem) × (memory_alloc m size ≡ some out) × Serves (align size) m bs out
unfolding memory_alloc
memory_alloc-Serves m bs size h ne =
    let asked : (size == 0) ≡ false = ground arith in
    rw asked (
      search_heap (align size) m bs max_rounds h (unfold align in omega arith)
        (omega (arith, fuel_enough m bs max_rounds h refl)))

none_fits : (bs : List Block) → All (TooSmall 0) bs → All (λ b. b.free ≡ false) bs
none_fits [] h = tt
none_fits (b ∷ bs) (inl used, hs) = (used, none_fits bs hs)
none_fits (b ∷ bs) (inr small, hs) = absurd (omega arith)

sizes_bound :
    (m : Mem) (p : Ptr) (bs : List Block) (n : ℕ)
    → heap_end < n
    → Chain m p bs
    → All (λ b. b.size < n) bs
sizes_bound m p [] n far c = tt
sizes_bound m p (b ∷ bs) n far c =
    (omega (arith, Chain-bound m (after p b) bs c.4), sizes_bound m (after p b) bs n far c.4)

module _ (m : Mem) (bs : List Block) (size : ℕ) (r : Ptr) (m' : Mem) (h : IsHeap m bs)
    (ne : size ≢ 0) (e : memory_alloc m size ≡ some (r, m')) where
  pub returned : Serves (align size) m bs (r, m')
  returned =
      let (out, e', s) = memory_alloc-Serves m bs size h ne in
      let same : out ≡ (r, m') = cc in subst (Serves (align size) m bs) same s

  -- For a size that is not 0, `memory_alloc` returns NULL exactly if every block is in use or
  -- smaller than the aligned size.
  pub memory_alloc-null : (r ≡ 0) ↔ All (TooSmall (align size)) bs
  memory_alloc-null =
      let (at, heap, same) = returned in
      (
        λ z. null-TooSmall (align size) heap_start bs (sym at ∙ z),
        λ small.
            at
            ∙ ap (λ (o : Ptr × List Block). o.0) (first_fit-null (align size) heap_start bs small),
      )

  -- If the aligned size does not wrap and the result is not NULL, every byte that was asked for,
  -- from the returned address on, was in no block in use before the call and is in one after it.
  pub memory_alloc-fresh :
      (q : Ptr)
      → size + 3 < 2 ^ 32
      → r ≢ 0
      → r ≤ q
      → q < r + size
      → (¬ InUse q heap_start bs) × InUse q heap_start (served size bs) × IsHeap m' (served size bs)
  memory_alloc-fresh q small got lo hi =
      let (at, heap, same) = returned in
      let enough = align_lem size small in
      let (unused, used) =
        first_fit-fresh (align size) q heap_start bs (λ z. got (at ∙ z)) (omega arith)
          (omega arith) in
      (unused, used, heap)

  -- Blocks in use stay in use, with their words.
  pub memory_alloc-keeps :
      (q : Ptr) → InUse q heap_start bs → InUse q heap_start (served size bs) × (m' q ≡ m q)
  memory_alloc-keeps q used =
      let (at, heap, same) = returned in
      (first_fit-keeps (align size) q heap_start bs used, same q used)

  -- A size within 3 of 2 ^ 32 is rounded up to 0: if any block is free the call succeeds, though
  -- no block of the heap holds that many bytes.
  pub memory_alloc-wrapped :
      2 ^ 32 ≤ size + 3
      → size < 2 ^ 32
      → ¬ All (λ b. b.free ≡ false) bs
      → (r ≢ 0) × All (λ b. b.size < size) bs
  memory_alloc-wrapped wraps word some_free =
      let zero_size : align size ≡ 0 = unfold align in omega arith in
      (
        λ z.
            some_free
              (none_fits bs (subst (λ n. All (TooSmall n) bs) zero_size (memory_alloc-null.0 z))),
        sizes_bound m heap_start bs size (omega arith) h.chain,
      )
