-- ===== src/Kernel/Task/Tests.antt =====
-- kernel/task.c on a few tasks.
use black_hole_os.Prelude.{
  ◌+◌, ◌%◌, ◌^◌, ◌≡◌, ◌==◌, ◌++◌, refl, arith, inl, inr, true, false, List, [], ◌∷◌, some,
  if◌then◌else◌,
}
use black_hole_os.Kernel.Memory.{
  Mem, Ptr, store, heap_start, memory_init, memory_alloc, alloc_loop, occupy,
}
use black_hole_os.Kernel.Memory.Blocks.{Block, block, IsHeap}
use black_hole_os.Kernel.Task.{
  Scheduler, task_switch, first_task, tasking_init, name_task, create_kernel_thread,
}
use black_hole_os.Kernel.Task.Circle.{Circle, Spread}
use black_hole_os.Kernel.Task.Create.{Owned, create_kernel_thread-Circle}
use black_hole_os.Kernel.Task.Switch.{Rotated, task_switch-Rotated}

-- Tasks at 0x1000 and 0x2000.
abbrev two_tasks : Mem
two_tasks q = if q == 0x1014 then 0x2000 else if q == 0x2014 then 0x1000 else 0

abbrev scheduler : Scheduler
scheduler = record {
  memory = two_tasks;
  current_task = 0x1000;
  ready_queue = 0x1000;
  next_pid = 3;
  cr3 = 0;
  esp = 0x9000;
}

two_tasks-Circle : Circle two_tasks 0x1000 (0x2000 ∷ [])
two_tasks-Circle = (refl, refl)

two_tasks-Spread : Spread (0x1000 ∷ 0x2000 ∷ [])
two_tasks-Spread = ((inl (omega arith), tt), ((tt), tt))

with_third-Spread : Spread (0x3000 ∷ 0x1000 ∷ 0x2000 ∷ [])
with_third-Spread = ((inr (omega arith), (inr (omega arith), tt)), two_tasks-Spread)

task_switch-Rotated_example :
    Rotated 0x500 0x8fe0 scheduler 0x2000 [] (task_switch 0x500 0 0x8fe0 scheduler)
task_switch-Rotated_example =
    task_switch-Rotated 0x500 0 0x8fe0 scheduler 0x2000 [] two_tasks-Circle two_tasks-Spread
      (omega arith) (omega arith)

-- After `memory_init` and `tasking_init` there is one task, in the first block of the heap.
abbrev booted : Scheduler
booted = record scheduler {
  memory = memory_init (λ q. 0);
  current_task = 0;
  ready_queue = 0;
  next_pid = 1;
}

abbrev first_block : Ptr × Mem
first_block = (0x10000c, (occupy booted.memory heap_start 24).1)

abbrev one_task : Scheduler
one_task = first_task booted first_block

init_runs : tasking_init booted ≡ some one_task
unfolding tasking_init memory_alloc alloc_loop memory_init store
init_runs = refl

abbrev two_blocks : List Block
two_blocks = block 24 false ∷ block 1048528 true ∷ []

one_task-IsHeap : IsHeap one_task.memory two_blocks
unfolding first_task occupy memory_init store
one_task-IsHeap = record {
  chain = (refl, refl, refl, refl, (refl, refl, refl, refl, refl));
  some_block = omega arith;
}

abbrev task_block : Ptr × Mem
task_block = (0x100030, (occupy one_task.memory 0x100024 24).1)

task_call : memory_alloc one_task.memory 24 ≡ some task_block
unfolding memory_alloc alloc_loop occupy first_task memory_init store
task_call = refl

abbrev stack_block : Ptr × Mem
stack_block = (0x100054, (occupy (name_task one_task task_block) 0x100048 4096).1)

stack_call : memory_alloc (name_task one_task task_block) 4096 ≡ some stack_block
unfolding memory_alloc alloc_loop name_task occupy first_task memory_init store
stack_call = refl

first-Owned : Owned two_blocks one_task.ready_queue
unfolding first_task
first-Owned q low high = inl (refl, omega arith, omega arith)

alone-Circle : Circle one_task.memory one_task.ready_queue []
unfolding first_task store
alone-Circle = refl

create_kernel_thread-Circle_example :
    (s' : Scheduler) × (create_kernel_thread 0x4000 one_task ≡ some s')
    × Circle s'.memory one_task.ready_queue ([] ++ 0x100030 ∷ [])
    × Spread (0x100030 ∷ one_task.ready_queue ∷ [])
    × (s'.current_task ≡ one_task.current_task)
    × (s'.memory 0x100030 ≡ one_task.next_pid)
    × (s'.next_pid ≡ (one_task.next_pid + 1) % 2 ^ 32)
create_kernel_thread-Circle_example =
    create_kernel_thread-Circle 0x4000 one_task two_blocks 0x100030 0x100054 task_block.1
      stack_block.1 one_task-IsHeap task_call (omega arith) stack_call (omega arith) [] first-Owned
      tt alone-Circle (tt, tt) (omega arith)
