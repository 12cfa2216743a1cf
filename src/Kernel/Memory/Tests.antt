-- ===== src/Kernel/Memory/Tests.antt =====
-- The calls of kernel/memory.c at the sizes that kernel/kernel.c and the shell ask for.
use black_hole_os.Prelude.{
  ◌<◌, ◌≡◌, ◌≢◌, ◌↔◌, inl, refl, true, false, some, List, [], ◌∷◌, arith, All,
}
use black_hole_os.Kernel.Memory.{
  Ptr, Mem, store, heap_start, memory_init, align, occupy, alloc_loop, memory_alloc, coalesce,
  memory_free,
}
use black_hole_os.Kernel.Memory.Blocks.{Block, block, IsHeap, InUse}
use black_hole_os.Kernel.Memory.Alloc.{first_fit, carve}
use black_hole_os.Kernel.Memory.FirstFit.{TooSmall}
use black_hole_os.Kernel.Memory.AllocCall.{
  memory_init-IsHeap, Serves, served, SameInUse, memory_alloc-Serves, memory_alloc-null,
  memory_alloc-fresh, memory_alloc-wrapped,
}
use black_hole_os.Kernel.Memory.FreeCall.{Gives, memory_free-Gives, memory_free-memory_alloc}
use black_hole_os.Kernel.Memory.History.{IsSound, here, then_, alloc, Reach-IsSound}

-- Memory after `memory_init`, and after `memory_alloc(128)`.
abbrev booted : Mem
booted = memory_init (λ q. 0)

abbrev whole : List Block
whole = block 0xffff4 true ∷ []

abbrev one_used : Mem
one_used = (occupy booted heap_start 128).1

abbrev two_blocks : List Block
two_blocks = block 128 false ∷ block 0xfff68 true ∷ []

-- What the call returns.
abbrev given : Ptr
given = 0x10000c

first_call : memory_alloc booted 128 ≡ some (0x10000c, one_used)
unfolding memory_alloc alloc_loop memory_init store
first_call = refl

served_first : served 128 whole ≡ two_blocks
unfolding first_fit align carve
served_first = refl

huge_call : (m : Mem) × (memory_alloc booted 0xfffffffe ≡ some (0x10000c, m))
unfolding memory_alloc alloc_loop memory_init store
huge_call = ((occupy booted heap_start 0).1, refl)

booted-IsHeap : IsHeap booted whole
booted-IsHeap = memory_init-IsHeap (λ q. 0)

one_used-IsHeap : IsHeap one_used two_blocks
unfolding occupy memory_init store
one_used-IsHeap = record {
  chain = (refl, refl, refl, refl, (refl, refl, refl, refl, refl));
  some_block = omega arith;
}

freed_again : (m : Mem) × (memory_free one_used 0x10000c ≡ some m)
unfolding memory_free coalesce occupy memory_init store
freed_again = (_, refl)

memory_alloc-Serves_example :
    (out : Ptr × Mem) × (memory_alloc booted 128 ≡ some out) × Serves (align 128) booted whole out
memory_alloc-Serves_example = memory_alloc-Serves booted whole 128 booted-IsHeap (omega arith)

memory_alloc-null_example : (given ≡ 0) ↔ All (TooSmall (align 128)) whole
memory_alloc-null_example =
    memory_alloc-null booted whole 128 0x10000c one_used booted-IsHeap (omega arith) first_call

memory_alloc-fresh_example :
    (¬ InUse 0x100010 heap_start whole)
    × InUse 0x100010 heap_start (served 128 whole)
    × IsHeap one_used (served 128 whole)
memory_alloc-fresh_example =
    memory_alloc-fresh booted whole 128 0x10000c one_used booted-IsHeap (omega arith) first_call
      0x100010 (omega arith) (omega arith) (omega arith) (omega arith)

second_call : (m : Mem) × (memory_alloc one_used 256 ≡ some (0x100098, m))
unfolding memory_alloc alloc_loop memory_init store
second_call = ((occupy one_used 0x10008c 256).1, refl)

memory_alloc-wrapped_example : (given ≢ 0) × All (λ b. b.size < 0xfffffffe) whole
memory_alloc-wrapped_example =
    memory_alloc-wrapped booted whole 0xfffffffe 0x10000c huge_call.0 booted-IsHeap (omega arith)
      huge_call.1 (omega arith) (omega arith) (λ h. cc h.0)

memory_free-Gives_example :
    (m : Mem) × (memory_free one_used 0x10000c ≡ some m) × Gives 0x10000c one_used two_blocks m
memory_free-Gives_example =
    memory_free-Gives one_used two_blocks 0x10000c one_used-IsHeap (inl (refl, refl))

memory_free-memory_alloc_example :
    (m : Mem) × (memory_free one_used 0x10000c ≡ some m) × IsHeap m whole × SameInUse whole booted m
memory_free-memory_alloc_example =
    memory_free-memory_alloc booted whole 128 0x10000c one_used booted-IsHeap (refl, tt)
      (omega arith) first_call (omega arith)

Reach-IsSound_example : IsSound one_used
Reach-IsSound_example = Reach-IsSound (λ q. 0) one_used (then_ here (alloc 128 0x10000c first_call))
