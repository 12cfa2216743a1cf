-- ===== src/Drivers/Timer/Tests.antt =====
-- drivers/timer.c at 100 Hz.
use mathlib.Core.Option
use black_hole_os.Prelude.{
  ◌+◌, ◌*◌, ◌<◌, ◌≤◌, ◌≡◌, refl, arith, Bool, true, false, List, [], ◌∷◌, some,
}
use black_hole_os.Kernel.Ports.{Output}
use black_hole_os.Drivers.Timer.{Timer, start, timer_init, sleep, wait, count_tick, returned}
use black_hole_os.Drivers.Timer.Divisor.{Channel, replay, timer_init-count}
use black_hole_os.Drivers.Timer.Sleep.{sleep_wrapped}

abbrev interrupts : List Bool
interrupts = true ∷ false ∷ true ∷ true ∷ true ∷ []

abbrev late : Timer
late = record { tick = 4294967295; current_freq = 100 }

abbrev idle : Channel
idle = record { high_next = true; low_byte = 7; count = 65536; mode = 0 }

two_ticks :
    sleep 25 interrupts start ≡ returned (record { tick = 2; current_freq = 100 }, true ∷ true ∷ [])
unfolding sleep wait count_tick
two_ticks = refl

timer_init-count_example :
    (result : Timer × List Output) × (timer_init 100 [] start ≡ some result)
    × (result.0.current_freq ≡ 100)
    × ((replay result.1 idle).mode ≡ 0x36)
    × (100 * (replay result.1 idle).count ≤ 1193182)
    × (1193182 < 100 * ((replay result.1 idle).count + 1))
timer_init-count_example = timer_init-count 100 [] start idle (omega arith) (omega arith)

sleep_wrapped_example : sleep 25 interrupts late ≡ returned (late, interrupts)
sleep_wrapped_example =
    sleep_wrapped 25 interrupts late (omega arith) (omega arith) (omega arith) (omega arith)
      (omega arith)
