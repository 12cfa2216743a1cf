-- ===== src/Drivers/Timer.antt =====
-- drivers/timer.c: the driver of the interval timer.
pub mod Divisor
pub mod Sleep
mod Tests
use black_hole_os.Prelude.{
  ℕ, zero, suc, ◌+◌, ◌*◌, ◌/◌, ◌%◌, ◌^◌, bit_and, Bool, true, false, ◌||◌, List, [], ◌∷◌, Option,
  some, none, ltb, ◌==◌, if◌then◌else◌,
}
use black_hole_os.Kernel.Ports.{Output, outb}
use black_hole_os.Kernel.Task.{Scheduler, task_switch}

pub record Timer : Type 0 where
  pub tick : ℕ
  pub current_freq : ℕ

-- The values before `timer_init`.
abbrev pub start : Timer
start = record { tick = 0; current_freq = 100 }

-- `tick++`
unfoldable pub count_tick : Timer → Timer
count_tick t = record t { tick = (t.tick + 1) % 2 ^ 32 }

-- The arguments are those of `task_switch`.
unfoldable pub timer_callback : ℕ → ℕ → ℕ → Timer × Scheduler → Timer × Scheduler
timer_callback eip eax saved (t, s) = (count_tick t, task_switch eip eax saved s)

-- `none` is the division fault.
unfoldable pub timer_init : ℕ → List Output → Timer → Option (Timer × List Output)
timer_init frequency outputs t =
    let divisor = 1193182 / frequency in
    let commanded = outb 0x43 0x36 outputs in
    let low = outb 0x40 (bit_and divisor 0xFF) commanded in
    let high = outb 0x40 (bit_and (divisor / 2 ^ 8) 0xFF) low in
    if frequency == 0 then none else some (record t { current_freq = frequency }, high)

unfoldable pub timer_get_ticks : Timer → ℕ
timer_get_ticks t = t.tick

-- The wait of `sleep`, while no other task runs. The list says of each interrupt that ends a `hlt`
-- whether it is the timer's; the result is the timer and the interrupts still to come, and `none`
-- waits for more of them.
unfoldable pub wait : ℕ → List Bool → Timer → Option (Timer × List Bool)
wait end [] t = if ltb t.tick end then none else some (t, [])
wait end (is_timer ∷ interrupts) t =
    let next = wait end interrupts (if is_timer then count_tick t else t) in
    if ltb t.tick end then next else some (t, is_timer ∷ interrupts)

pub data Outcome (A : Type 0) : Type 0 where
  returned : A → Outcome A
  waiting : Outcome A
  fault : Outcome A

abbrev pub outcome : {A : Type 0} → Option A → Outcome A
outcome (some a) = returned a
outcome none = waiting

-- A `fault` is a division by 0.
unfoldable pub sleep : ℕ → List Bool → Timer → Outcome (Timer × List Bool)
sleep ms interrupts t =
    let ticks_to_wait = ms / (1000 / t.current_freq) in
    let end = (t.tick + ticks_to_wait) % 2 ^ 32 in
    let waited = outcome (wait end interrupts t) in
    if t.current_freq == 0 || 1000 / t.current_freq == 0 then fault else waited
