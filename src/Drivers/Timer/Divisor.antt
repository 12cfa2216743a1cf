-- ===== src/Drivers/Timer/Divisor.antt =====
-- What `timer_init` of drivers/timer.c programs into the interval timer.
use black_hole_os.Prelude.{
  ℕ, ◌+◌, ◌*◌, ◌/◌, ◌^◌, ◌<◌, ◌≤◌, ◌≡◌, refl, arith, bit_and, bit_and-mod, ◌==◌, if◌then◌else◌,
  Bool, true, false, List, [], ◌∷◌, some,
}
use native.Mathlib.Nat.{div-lt_iff_lt-mul, le-div_iff_mul-le, div-add-mod, mod-lt}
use black_hole_os.Kernel.Ports.{Output, outb}
use black_hole_os.Drivers.Timer.{Timer, timer_init}

-- Channel 0 of the 8254 in the access mode of two bytes: which byte comes next, and the count.
pub record Channel : Type 0 where
  pub high_next : Bool
  pub low_byte : ℕ
  pub count : ℕ
  pub mode : ℕ

-- A count of 0 stands for 65536.
abbrev pub reload : ℕ → ℕ
reload c = if c == 0 then 65536 else c

unfoldable pub drive : Output → Channel → Channel
drive o c =
    if o.port == 0x43
    then record c { high_next = false; mode = o.value }
    else if o.port == 0x40
    then (if c.high_next
        then record c { high_next = false; count = reload (c.low_byte + o.value * 256) }
        else record c { high_next = true; low_byte = o.value })
    else c

unfoldable pub replay : List Output → Channel → Channel
replay [] c = c
replay (o ∷ outputs) c = drive o (replay outputs c)

quotient_low : (frequency : ℕ) → 19 ≤ frequency → 1193182 / frequency < 2 ^ 16
quotient_low frequency low = (div-lt_iff_lt-mul (omega arith)).1 (omega arith)

quotient_positive : (frequency : ℕ) → 19 ≤ frequency → frequency ≤ 1193182 → 0 < 1193182 / frequency
quotient_positive frequency low high = (le-div_iff_mul-le (omega arith)).1 (omega arith)

whole_count :
    (d : ℕ) → d < 2 ^ 16 → 0 < d → reload (bit_and d 0xFF + bit_and (d / 2 ^ 8) 0xFF * 256) ≡ d
whole_count d small positive = ground (arith, bit_and-mod 8 d, bit_and-mod 8 (d / 2 ^ 8))

next_count : (frequency : ℕ) → 0 < frequency → 1193182 < frequency * (1193182 / frequency + 1)
next_count frequency positive =
    let product : frequency * (1193182 / frequency + 1)
        ≡ frequency * (1193182 / frequency) + frequency =
      grind arith in
    omega (arith, div-add-mod 1193182 frequency, mod-lt 1193182 {m = frequency} positive, product)

-- For a frequency from 19 to 1193182 Hz, `timer_init` leaves the channel in mode 3 with the
-- quotient of the 1193182 Hz clock as its count, whatever its state before, so that the rate is at
-- least the frequency, and one more count would make it less.
pub timer_init-count :
    (frequency : ℕ) (outputs : List Output) (t : Timer) (c : Channel)
    → 19 ≤ frequency
    → frequency ≤ 1193182
    → (result : Timer × List Output) × (timer_init frequency outputs t ≡ some result)
      × (result.0.current_freq ≡ frequency)
      × ((replay result.1 c).mode ≡ 0x36)
      × (frequency * (replay result.1 c).count ≤ 1193182)
      × (1193182 < frequency * ((replay result.1 c).count + 1))
unfolding timer_init replay drive
timer_init-count frequency outputs t c low high =
    let d = 1193182 / frequency in
    let nonzero : (frequency == 0) ≡ false = ground arith in
    let bytes : reload (bit_and d 0xFF + bit_and (d / 2 ^ 8) 0xFF * 256) ≡ d =
      whole_count d (quotient_low frequency low) (quotient_positive frequency low high) in
    let result : Timer × List Output = (
      record t { current_freq = frequency },
      outb 0x40 (bit_and (d / 2 ^ 8) 0xFF) (outb 0x40 (bit_and d 0xFF) (outb 0x43 0x36 outputs)),
    ) in
    (
      result,
      rw nonzero,
      refl,
      refl,
      rw bytes (omega (arith, div-add-mod 1193182 frequency)),
      rw bytes (next_count frequency (omega arith)),
    )
