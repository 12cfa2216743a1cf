-- ===== src/Drivers/Keyboard/Tests.antt =====
-- The driver of drivers/keyboard.c at concrete keys.
use black_hole_os.Prelude.{ℕ, ◌≡◌, refl, some, false, List, [], ◌∷◌, arith, ◌++◌, replicate}
use black_hole_os.Drivers.Vga.{Screen}
use black_hole_os.Drivers.Keyboard.{
  Keyboard, translate, buf_push, buf_pop, buf_empty, keyboard_init, keyboard_handle_scancode,
  keyboard_read, handle_all, Round, woken, sleeps_on, returns, asleep, keyboard_readline,
}
use black_hole_os.Drivers.Keyboard.Ring.{IsValid, keys_of}
use black_hole_os.Drivers.Keyboard.Handler.{typed_of}
use black_hole_os.Drivers.Keyboard.Session.{Event, interrupt, pop, run, run_typed, run-run_typed}
use black_hole_os.Drivers.Keyboard.Read.{Waits, after_all, keyboard_read-first_key}
use black_hole_os.Drivers.Keyboard.Readline.{init, edit, Edits, keyboard_readline-edit}

-- Two keys wait, round the end of the ring.
abbrev two_wait : Keyboard
two_wait = record {
  key_buffer = b'k' ∷ b'e' ∷ replicate 253 0 ++ b'o' ∷ [];
  buf_head = 1;
  buf_tail = 255;
  shift_held = false;
}

abbrev quiet : Keyboard
quiet = record { key_buffer = replicate 256 7; buf_head = 0; buf_tail = 0; shift_held = false }

-- Left shift down, `a`, left shift up, `a`.
abbrev presses : List ℕ
presses = 0x2a ∷ 0x1e ∷ 0xaa ∷ 0x1e ∷ []

abbrev screen : Screen
screen = record { vga_buffer = λ q. 0; cursor_row = 0; cursor_col = 0; current_color = 15 }

-- `ab`, backspace, `c`, Enter
abbrev typed_line : List ℕ
typed_line = b'a' ∷ b'b' ∷ 8 ∷ b'c' ∷ 10 ∷ b'x' ∷ []

abbrev events : List Event
events = interrupt 0x2a ∷ interrupt 0x1e ∷ pop ∷ pop ∷ []

two_wait-IsValid : IsValid two_wait
two_wait-IsValid = record { storage = refl; head_in = omega arith; tail_in = omega arith }

quiet-IsValid : IsValid quiet
quiet-IsValid = record { storage = refl; head_in = omega arith; tail_in = omega arith }

keys_of-two_wait : keys_of two_wait ≡ b'o' ∷ b'k' ∷ []
keys_of-two_wait = refl

typed_shift : (run quiet events).0 ≡ b'A' ∷ 0 ∷ []
unfolding run keyboard_handle_scancode buf_push buf_pop translate
typed_shift = refl

-- Interrupts of the timer, and shift, come before two keys.
abbrev rounds : List Round
rounds = woken [] [] ∷ woken (0x2a ∷ []) [] ∷ woken [] [] ∷ woken [] (0x1e ∷ 0x30 ∷ []) ∷ []

-- A key that comes between the test and `hlt` waits until the next interrupt.
lost_wakeup :
    (k : Keyboard) × (keyboard_read (sleeps_on (0x1e ∷ []) ∷ []) quiet ≡ asleep k)
    × (buf_empty k ≡ false)
unfolding keyboard_read handle_all keyboard_handle_scancode buf_push translate
lost_wakeup = (_, refl, refl)

edit_runs : edit 127 [] typed_line ≡ some (b'a' ∷ b'c' ∷ [], b'x' ∷ [])
unfolding edit init
edit_runs = refl

run-run_typed_example :
    ((run (keyboard_init quiet) events).0, typed_of (run (keyboard_init quiet) events).1)
    ≡ run_typed (record { queue = []; shift = false }) events
run-run_typed_example = run-run_typed quiet events refl (omega arith)

rounds-Waits : Waits quiet rounds
unfolding handle_all keyboard_handle_scancode buf_push translate
rounds-Waits = (refl, tt, (refl, tt, (refl, tt, (refl, tt, tt))))

key_waits : keys_of (after_all quiet rounds) ≡ b'A' ∷ b'B' ∷ []
unfolding handle_all keyboard_handle_scancode buf_push translate
key_waits = refl

keyboard_read-first_key_example :
    (k' : Keyboard) × (keyboard_read (rounds ++ sleeps_on [] ∷ []) quiet
      ≡ returns b'A' k' (sleeps_on [] ∷ []))
    × (keys_of k' ≡ b'B' ∷ [])
    × IsValid k'
keyboard_read-first_key_example =
    keyboard_read-first_key rounds (sleeps_on [] ∷ []) quiet b'A' (b'B' ∷ []) quiet-IsValid
      (
        (tt, tt),
        (((omega arith, tt), tt), ((tt, tt), ((tt, (omega arith, (omega arith, tt))), tt))),
      )
      rounds-Waits key_waits

keyboard_readline-edit_example :
    Edits 128
      (edit 127 [] typed_line)
      (replicate 128 0)
      (keyboard_readline 128 typed_line (replicate 128 0) screen)
keyboard_readline-edit_example =
    keyboard_readline-edit 128 typed_line (replicate 128 0) screen (omega arith) (omega arith)
