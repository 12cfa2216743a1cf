-- ===== src/Drivers/Timer/Sleep.antt =====
-- How long `sleep` of drivers/timer.c waits.
use black_hole_os.Prelude.{
  ℕ, zero, suc, ◌+◌, ◌/◌, ◌%◌, ◌^◌, ◌<◌, ◌≤◌, ◌≡◌, ap, arith, ltb, ◌==◌, Bool, ◌||◌, true, false,
  List, [], ◌∷◌, Option, some, none,
}
use mathlib.Core.Option
use native.Mathlib.Nat.{div-le_self, le-div_iff_mul-le}
use black_hole_os.Drivers.Timer.{Timer, wait, sleep, outcome, returned}

-- The timer's interrupts among some.
abbrev pub timer_count : List Bool → ℕ
timer_count [] = 0
timer_count (true ∷ interrupts) = suc (timer_count interrupts)
timer_count (false ∷ interrupts) = timer_count interrupts

-- The interrupts that `n` interrupts of the timer end, the last of them the timer's, and those
-- behind them.
unfoldable pub after : ℕ → List Bool → Option (List Bool)
after zero interrupts = some interrupts
after (suc n) [] = none
after (suc n) (true ∷ interrupts) = after n interrupts
after (suc n) (false ∷ interrupts) = after (suc n) interrupts

-- `ms / (1000 / current_freq)`
abbrev pub ticks_of : ℕ → ℕ → ℕ
ticks_of ms frequency = ms / (1000 / frequency)

period_positive : (frequency : ℕ) → 0 < frequency → frequency ≤ 1000 → 0 < 1000 / frequency
period_positive frequency positive high = (le-div_iff_mul-le positive).1 (omega arith)

wait_past :
    (interrupts : List Bool) (t : Timer) (end : ℕ)
    → end ≤ t.tick
    → wait end interrupts t ≡ some (t, interrupts)
unfolding wait
wait_past [] t end past = let done : ltb t.tick end ≡ false = ground arith in rw done
wait_past (is_timer ∷ interrupts) t end past =
    let done : ltb t.tick end ≡ false = ground arith in rw done

-- When the end of the sleep lies past the wrap of the tick counter, `sleep` does not wait at all.
pub sleep_wrapped :
    (ms : ℕ) (interrupts : List Bool) (t : Timer)
    → 0 < t.current_freq
    → t.current_freq ≤ 1000
    → ms < 2 ^ 32
    → t.tick < 2 ^ 32
    → 2 ^ 32 ≤ t.tick + ticks_of ms t.current_freq
    → sleep ms interrupts t ≡ returned (t, interrupts)
unfolding sleep
sleep_wrapped ms interrupts t positive high word tick_word wraps =
    let period = period_positive t.current_freq positive high in
    let fine : (t.current_freq == 0 || 1000 / t.current_freq == 0) ≡ false =
      ground (arith, period) in
    let fewer : ticks_of ms t.current_freq ≤ ms = div-le_self ms (1000 / t.current_freq) in
    rw fine (
      ap outcome
        (wait_past interrupts t ((t.tick + ticks_of ms t.current_freq) % 2 ^ 32) (omega arith)))
