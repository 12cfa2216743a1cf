-- ===== src/Kernel/Task/Switch.antt =====
-- `task_switch` of kernel/task.c goes round the circle of tasks.
use black_hole_os.Prelude.{
  ℕ, ◌+◌, ◌<◌, ◌≡◌, ◌≢◌, refl, sym, ◌∙◌, arith, false, ◌||◌, List, [], ◌∷◌, ◌++◌, All, ◌==◌,
  if◌then◌else◌,
}
use black_hole_os.Kernel.Memory.{Mem, Ptr}
use black_hole_os.Kernel.Memory.Store.{store_self, store_ne}
use black_hole_os.Kernel.Task.{Scheduler, next_of, esp_of, cr3_of, set_eip, set_esp, task_switch}
use black_hole_os.Kernel.Task.Circle.{Links, Circle, Apart, Spread, Links-store}

-- A circle can be read from its second task on.
Links-turn :
    (m : Mem) (t u : Ptr) (us : List Ptr) (end : Ptr)
    → Links m u us t
    → next_of m t ≡ end
    → Links m u (us ++ t ∷ []) end
Links-turn m t u [] end l e = (l, e)
Links-turn m t u (v ∷ us) end (e0, l) e = (e0, Links-turn m t v us end l e)

no_next :
    (t : Ptr) (k : ℕ) (us : List Ptr) → k < 20 → All (Apart t) us → All (λ u. t + k ≢ u + 20) us
no_next t k [] h hs = tt
no_next t k (u ∷ us) h (apart, hs) = (ground arith, no_next t k us h hs)

pick :
    (loaded own next wanted : ℕ)
    → next ≡ wanted
    → own ≡ loaded
    → (if own == next then loaded else next) ≡ wanted
pick loaded own next wanted e f = ground arith

-- What a switch does: the next task runs from the stack pointer that it was left with, the old one
-- keeps the stack pointer and the instruction pointer that were saved, and it is now the last of
-- the circle.
pub record Rotated (eip saved : ℕ) (s : Scheduler) (u : Ptr) (us : List Ptr) (s' : Scheduler)
    : Type 0 where
  pub runs_next : s'.current_task ≡ u
  pub turned : Circle s'.memory u (us ++ s.current_task ∷ [])
  pub resumed : s'.esp ≡ esp_of s.memory u
  pub saved_esp : esp_of s'.memory s.current_task ≡ saved
  pub saved_eip : s'.memory (s.current_task + 12) ≡ eip
  pub same_space : s.cr3 ≡ cr3_of s.memory s.current_task → s'.cr3 ≡ cr3_of s.memory u

-- With two tasks or more that do not overlap, a switch of a task that goes to sleep (EAX is not the
-- magic value of a task that wakes up) runs the next task of the circle, and puts the old one last.
pub task_switch-Rotated :
    (eip eax saved : ℕ) (s : Scheduler) (u : Ptr) (us : List Ptr)
    → Circle s.memory s.current_task (u ∷ us)
    → Spread (s.current_task ∷ u ∷ us)
    → s.current_task ≢ 0
    → eax ≢ 0x12345678
    → Rotated eip saved s u us (task_switch eip eax saved s)
unfolding task_switch
task_switch-Rotated eip eax saved s u us (e, l) ((apart, hs), spread) some_task asleep =
    let t = s.current_task in
    let m1 = set_eip s.memory t eip in
    let goes : (t == 0 || next_of s.memory t == t) ≡ false = ground arith in
    let sleeps : (eax == 0x12345678) ≡ false = ground arith in
    let next : next_of m1 t ≡ u = store_ne s.memory (t + 12) eip (t + 20) (omega arith) ∙ e in
    let kept1 : Links m1 u us t =
      Links-store s.memory (t + 12) eip u us t (ground arith) (no_next t 12 us (omega arith) hs)
        l in
    let m2 = set_esp m1 t saved in
    let kept2 : Links m2 u us t =
      Links-store m1 (t + 4) saved u us t (ground arith) (no_next t 4 us (omega arith) hs) kept1 in
    let next2 : next_of m2 t ≡ u = store_ne m1 (t + 4) saved (t + 20) (omega arith) ∙ next in
    let own_space : cr3_of m1 t ≡ cr3_of s.memory t =
      store_ne s.memory (t + 12) eip (t + 16) (omega arith) in
    let next_space : cr3_of m1 u ≡ cr3_of s.memory u =
      store_ne s.memory (t + 12) eip (u + 16) (ground arith) in
    rw (goes, sleeps, next)
      (record {
        runs_next = refl;
        turned = Links-turn m2 t u us u kept2 next2;
        resumed = store_ne s.memory (t + 12) eip (u + 4) (ground arith);
        saved_esp = store_self m1 (t + 4) saved;
        saved_eip =
            store_ne m1 (t + 4) saved (t + 12) (omega arith) ∙ store_self s.memory (t + 12) eip;
        same_space = λ loaded.
            pick s.cr3 (cr3_of m1 t) (cr3_of m1 u) (cr3_of s.memory u) next_space
              (own_space ∙ sym loaded);
      })
