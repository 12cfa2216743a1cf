-- ===== src/Kernel/Task.antt =====
-- kernel/task.c: the tasks are words of the memory of `Kernel.Memory`, which `memory_alloc` hands
-- out. What the assembly reads or saves is an argument: the instruction pointer, EAX, CR3, and the
-- stack pointer that `switch_task` of kernel/switch.S stores. `none` means that fuel ran out.
pub mod Circle
pub mod Switch
pub mod Create
mod Tests
use mathlib.Core.Option
use black_hole_os.Prelude.{
  ℕ, zero, suc, ◌+◌, ◌-◌, ◌%◌, ◌^◌, Bool, ◌||◌, ◌>>=◌, Option, none, some, ◌==◌, if◌then◌else◌,
}
use black_hole_os.Kernel.Memory.{Mem, Ptr, store, memory_alloc, max_rounds}

abbrev pub sizeof_task : ℕ
sizeof_task = 24

-- The fields of `task_t` behind a pointer.
abbrev pub set_id : Mem → Ptr → ℕ → Mem
set_id m t v = store m t v

abbrev pub esp_of : Mem → Ptr → ℕ
esp_of m t = m (t + 4)

abbrev pub set_esp : Mem → Ptr → ℕ → Mem
set_esp m t v = store m (t + 4) v

abbrev pub set_ebp : Mem → Ptr → ℕ → Mem
set_ebp m t v = store m (t + 8) v

abbrev pub set_eip : Mem → Ptr → ℕ → Mem
set_eip m t v = store m (t + 12) v

abbrev pub cr3_of : Mem → Ptr → ℕ
cr3_of m t = m (t + 16)

abbrev pub set_cr3 : Mem → Ptr → ℕ → Mem
set_cr3 m t v = store m (t + 16) v

abbrev pub next_of : Mem → Ptr → Ptr
next_of m t = m (t + 20)

abbrev pub set_next_task : Mem → Ptr → Ptr → Mem
set_next_task m t v = store m (t + 20) v

-- The variables of the scheduler, and the registers CR3 and ESP.
pub record Scheduler : Type 0 where
  pub memory : Mem
  pub current_task : Ptr
  pub ready_queue : Ptr
  pub next_pid : ℕ
  pub cr3 : ℕ
  pub esp : ℕ

-- The first task, in its new block.
unfoldable pub first_task : Scheduler → Ptr × Mem → Scheduler
first_task s (t, m) =
    let m1 = set_id m t s.next_pid in
    let m2 = set_eip (set_ebp (set_esp m1 t 0) t 0) t 0 in
    let m3 = set_next_task (set_cr3 m2 t s.cr3) t t in
    record s {
      memory = m3;
      current_task = t;
      ready_queue = t;
      next_pid = (s.next_pid + 1) % 2 ^ 32;
    }

unfoldable pub tasking_init : Scheduler → Option Scheduler
tasking_init s = Option.map (first_task s) (memory_alloc s.memory sizeof_task)

-- `saved` is the stack pointer that `switch_task` stores for the task that goes to sleep.
unfoldable pub task_switch : ℕ → ℕ → ℕ → Scheduler → Scheduler
task_switch eip eax saved s =
    let old_task = s.current_task in
    let m1 = set_eip s.memory old_task eip in
    let next_task = next_of m1 old_task in
    let switched : Scheduler = record s {
      memory = set_esp m1 old_task saved;
      current_task = next_task;
      cr3 = if cr3_of m1 old_task == cr3_of m1 next_task then s.cr3 else cr3_of m1 next_task;
      esp = esp_of m1 next_task;
    } in
    if old_task == 0 || next_of s.memory old_task == old_task
    then s
    else if eax == 0x12345678
    then s
    else switched

-- The loop that finds the tail.
unfoldable pub find_tail : ℕ → Mem → Ptr → Ptr → Option Ptr
find_tail zero m ready tail = none
find_tail (suc fuel) m ready tail =
    let later = find_tail fuel m ready (next_of m tail) in
    if next_of m tail == ready then some tail else later

-- The new task goes behind the tail of the list.
unfoldable pub link_task : Mem → Ptr → Ptr → Option Mem
link_task m ready new_task = do
  tail ← find_tail max_rounds (set_next_task m new_task ready) ready ready
  some (set_next_task (set_next_task m new_task ready) tail new_task)

-- The words that `switch_task` pops: EDI, ESI, EBX, EBP and the return address.
unfoldable pub push_frame : Mem → Ptr → ℕ → Mem
push_frame m top entry_point =
    let m1 = store m (top - 4) entry_point in
    let m2 = store m1 (top - 8) 0 in
    let m3 = store m2 (top - 12) 0 in let m4 = store m3 (top - 16) 0 in store m4 (top - 20) 0

-- The first fields of the new task.
unfoldable pub name_task : Scheduler → Ptr × Mem → Mem
name_task s (t, m) = let m1 = set_id m t s.next_pid in set_cr3 m1 t (cr3_of m1 s.current_task)

-- Its stack and the fields for it.
unfoldable pub prepare_task : ℕ → Ptr → Ptr × Mem → Mem
prepare_task entry_point t (stack, m) =
    let top = stack + 4096 in
    let m1 = push_frame m top entry_point in
    set_eip (set_ebp (set_esp m1 t (top - 20)) t 0) t entry_point

unfoldable pub create_kernel_thread : ℕ → Scheduler → Option Scheduler
create_kernel_thread entry_point s = do
  block ← memory_alloc s.memory sizeof_task
  stack ← memory_alloc (name_task s block) 4096
  linked ← link_task (prepare_task entry_point block.0 stack) s.ready_queue block.0
  some (record s { memory = linked; next_pid = (s.next_pid + 1) % 2 ^ 32 })
