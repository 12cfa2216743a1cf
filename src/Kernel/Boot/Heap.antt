-- ===== src/Kernel/Boot/Heap.antt =====
-- The heap when `kernel_main` of kernel/kernel.c has tested the allocator and made the first task.
use black_hole_os.Prelude.{◌+◌, ◌<◌, ◌≡◌, refl, arith, true, false, some, [], ◌∷◌}
use black_hole_os.Kernel.Memory.{
  Mem, Ptr, heap_start, store, memory_init, memory_alloc, alloc_loop, occupy, split,
}
use black_hole_os.Kernel.Memory.Blocks.{block, IsHeap}
use black_hole_os.Kernel.Task.{Scheduler, tasking_init, first_task, cr3_of}
use black_hole_os.Kernel.Task.Circle.{Circle}
use black_hole_os.Kernel.Boot.{two_blocks}

-- The heap behind the test of the allocator, and behind `tasking_init`.
abbrev pub tested : Mem → Mem
tested memory = (occupy (occupy (memory_init memory) heap_start 128).1 (heap_start + 140) 256).1

abbrev pub tasked : Scheduler → Scheduler
tasked s = first_task s (heap_start + 420, (occupy s.memory (heap_start + 408) 24).1)

pub two_blocks-tested :
    (memory : Mem)
    → two_blocks (memory_init memory) ≡ some (heap_start + 12, heap_start + 152, tested memory)
unfolding memory_alloc alloc_loop memory_init store
two_blocks-tested memory = refl

pub tasking_init-tasked :
    (s : Scheduler) (memory : Mem)
    → tasking_init (record s { memory = tested memory })
      ≡ some (tasked (record s { memory = tested memory }))
unfolding tasking_init memory_alloc alloc_loop memory_init store occupy
tasking_init-tasked s memory = refl

module _ (s : Scheduler) (memory : Mem) where
  abbrev pub last : Scheduler
  last = tasked (record s { memory = tested memory })

  pub tasked-IsHeap :
      IsHeap last.memory
        (block 128 false ∷ block 256 false ∷ block 24 false ∷ block 1048120 true ∷ [])
  unfolding first_task occupy memory_init store
  tasked-IsHeap = record {
    chain = (
      refl,
      refl,
      refl,
      refl,
      (refl, refl, refl, refl, (refl, refl, refl, refl, (refl, refl, refl, refl, refl))),
    );
    some_block = omega arith;
  }

  pub tasked-Circle : Circle last.memory last.current_task []
  unfolding first_task store
  tasked-Circle = refl

  pub tasked-below : (q : Ptr) → q < heap_start → last.memory q ≡ memory q
  unfolding first_task occupy split memory_init store
  tasked-below q low = ground arith

  pub tasked-ready : last.ready_queue ≡ last.current_task
  unfolding first_task
  tasked-ready = refl

  pub tasked-cr3 : cr3_of last.memory last.current_task ≡ s.cr3
  unfolding first_task store
  tasked-cr3 = refl
