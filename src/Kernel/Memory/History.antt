-- ===== src/Kernel/Memory/History.antt =====
-- Any history of calls of kernel/memory.c, and of its clients' writes, keeps the heap whole.
use black_hole_os.Prelude.{
  ℕ, zero, suc, ◌+◌, ◌<◌, ◌≡◌, inl, inr, refl, sym, ◌∙◌, ap, ap₂, Bool, subst, true, some, List, [],
  ◌∷◌, arith, false,
}
use black_hole_os.Kernel.Memory.{
  Ptr, Mem, store, heap_start, heap_size, memory_init, memory_alloc, memory_free, align,
}
use black_hole_os.Kernel.Memory.Store.{store_ne}
use black_hole_os.Kernel.Memory.Blocks.{
  Block, after, flag, Chain-bound, IsHeap, Chain, Chain-same, Chain-total, total, InUse,
  InUse-bound,
}
use black_hole_os.Kernel.Memory.Release.{Owns}
use black_hole_os.Kernel.Memory.Tidy.{IsTidy, first_fit-IsTidy}
use black_hole_os.Kernel.Memory.AllocCall.{memory_init-IsHeap, memory_alloc-Serves}
use black_hole_os.Kernel.Memory.FreeCall.{memory_free-Gives}

-- What the kernel and its clients may do: call the allocator, with any size; give back a block in
-- use; write a word of a block in use.
pub data Step (m : Mem) (m' : Mem) : Type 0 where
  alloc : (size : ℕ) (r : Ptr) → memory_alloc m size ≡ some (r, m') → Step m m'
  free :
      (bs : List Block) (ptr : Ptr)
      → IsHeap m bs
      → Owns ptr heap_start bs
      → memory_free m ptr ≡ some m'
      → Step m m'
  write :
      (bs : List Block) (q : Ptr) (v : ℕ)
      → IsHeap m bs
      → InUse q heap_start bs
      → m' ≡ store m q v
      → Step m m'

pub data Reach (m : Mem) : Mem → Type 0 where
  here : Reach m m
  then_ : {m' m'' : Mem} → Reach m m' → Step m' m'' → Reach m m''

-- Memory holds a heap, in which no two free blocks touch.
abbrev pub IsSound : Mem → Type 0
IsSound m = (bs : List Block) × IsHeap m bs × IsTidy bs × (total bs ≡ heap_size)

sound : (m : Mem) (bs : List Block) → IsHeap m bs → IsTidy bs → IsSound m
sound m bs h tidy = (bs, h, tidy, omega (arith, Chain-total m heap_start bs h.chain))

-- A client's write reaches no header.
write-Chain :
    (m : Mem) (q : Ptr) (v : ℕ) (p : Ptr) (bs : List Block)
    → InUse q p bs
    → Chain m p bs
    → Chain (store m q v) p bs
write-Chain m q v p [] used c = absurd used
write-Chain m q v p (b ∷ bs) (inl inside) c = (
  store_ne m q v p (omega arith) ∙ c.0,
  store_ne m q v (p + 4) (omega arith) ∙ c.1,
  store_ne m q v (p + 8) (omega arith) ∙ c.2,
  c.3,
  Chain-same (store m q v) (after p b) bs (λ a far. store_ne m q v a (omega arith)) c.4,
)
write-Chain m q v p (b ∷ bs) (inr later) c =
    let far = InUse-bound q (after p b) bs later in
    (
      store_ne m q v p (omega arith) ∙ c.0,
      store_ne m q v (p + 4) (omega arith) ∙ c.1,
      store_ne m q v (p + 8) (omega arith) ∙ c.2,
      c.3,
      write-Chain m q v (after p b) bs later c.4,
    )

flag_inj : (f g : Bool) → flag f ≡ flag g → f ≡ g
flag_inj true true e = refl
flag_inj true false e = absurd (omega arith)
flag_inj false true e = absurd (omega arith)
flag_inj false false e = refl

-- The blocks that memory holds are determined by it.
Chain-unique :
    (m : Mem) (p : Ptr) (bs cs : List Block) → 0 < p → Chain m p bs → Chain m p cs → bs ≡ cs
Chain-unique m p [] [] pos c d = refl
Chain-unique m p [] (x ∷ cs) pos c d = absurd (omega (arith, Chain-bound m p (x ∷ cs) d))
Chain-unique m p (b ∷ bs) [] pos c d = absurd (omega (arith, Chain-bound m p (b ∷ bs) c))
Chain-unique m p (b ∷ bs) (x ∷ cs) pos c d =
    let one : b ≡ x = ground (arith, sym c.0 ∙ d.0, flag_inj b.free x.free (sym c.1 ∙ d.1)) in
    let end : after p x ≡ after p b = ap (λ (y : Block). after p y) (sym one) in
    ap₂ ◌∷◌ one (Chain-unique m (after p b) bs cs (omega arith) c.4 (rw end at d.4))

alloc-IsSound :
    (m m' : Mem) (size : ℕ) (r : Ptr) → IsSound m → memory_alloc m size ≡ some (r, m') → IsSound m'
alloc-IsSound m m' zero r s e =
    let same : m ≡ m' = unfold memory_alloc in cc e in subst IsSound same s
alloc-IsSound m m' (suc size) r (bs, h, tidy, whole) e =
    let (out, e', (at, heap, same)) = memory_alloc-Serves m bs (suc size) h (omega arith) in
    let m'_eq : out.1 ≡ m' = cc in
    subst IsSound m'_eq
      (sound out.1 _ heap (first_fit-IsTidy (align (suc size)) false heap_start bs tidy))

free-IsSound :
    (m m' : Mem) (bs : List Block) (ptr : Ptr)
    → IsHeap m bs
    → Owns ptr heap_start bs
    → memory_free m ptr ≡ some m'
    → IsSound m'
free-IsSound m m' bs ptr h own e =
    let (out, e', (heap, tidy, kept, lost)) = memory_free-Gives m bs ptr h own in
    let m'_eq : out ≡ m' = cc in subst IsSound m'_eq (sound out _ heap tidy)

-- A client's write to a block in use leaves the heap as it is.
pub write-IsHeap :
    (m : Mem) (bs : List Block) (q : Ptr) (v : ℕ)
    → IsHeap m bs
    → InUse q heap_start bs
    → IsHeap (store m q v) bs
write-IsHeap m bs q v h used = record {
  chain = write-Chain m q v heap_start bs used h.chain;
  some_block = h.some_block;
}

write-IsSound :
    (m m' : Mem) (bs : List Block) (q : Ptr) (v : ℕ)
    → IsSound m
    → IsHeap m bs
    → InUse q heap_start bs
    → m' ≡ store m q v
    → IsSound m'
write-IsSound m m' bs q v (cs, h', tidy, whole) h used e =
    let same : cs ≡ bs = Chain-unique m heap_start cs bs (omega arith) h'.chain h.chain in
    subst IsSound (sym e)
      (sound (store m q v) bs (write-IsHeap m bs q v h used) (subst IsTidy same tidy))

Step-IsSound : (m m' : Mem) → Step m m' → IsSound m → IsSound m'
Step-IsSound m m' (alloc size r e) s = alloc-IsSound m m' size r s e
Step-IsSound m m' (free bs ptr h own e) s = free-IsSound m m' bs ptr h own e
Step-IsSound m m' (write bs q v h used e) s = write-IsSound m m' bs q v s h used e

Reach-IsSound_from : {m m' : Mem} → Reach m m' → IsSound m → IsSound m'
Reach-IsSound_from here s = s
Reach-IsSound_from (then_ {m'} {m''} r st) s = Step-IsSound m' m'' st (Reach-IsSound_from r s)

-- From `memory_init` on, whatever was in memory, after any sequence of calls and of writes by the
-- clients to their own blocks, the blocks fill the 1 MB of the heap exactly, their headers are
-- intact, and no two free blocks touch.
pub Reach-IsSound : (m m' : Mem) → Reach (memory_init m) m' → IsSound m'
Reach-IsSound m m' r =
    Reach-IsSound_from r (sound (memory_init m) _ (memory_init-IsHeap m) (refl, tt))
