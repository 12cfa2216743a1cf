-- ===== src/Drivers/Keyboard/Session.antt =====
-- Keyboard interrupts and reads of drivers/keyboard.c in any order.
use black_hole_os.Prelude.{
  ℕ, ◌<◌, ◌≡◌, refl, ◌∙◌, ap, ap₂, arith, List, [], ◌∷◌, length, All, false,
}
use black_hole_os.Drivers.Keyboard.{Keyboard, buf_pop, keyboard_init, keyboard_handle_scancode}
use black_hole_os.Drivers.Keyboard.Ring.{
  IsValid, keys_of, Queue, dequeue, buf_pop-IsValid, buf_pop-dequeue,
}
use black_hole_os.Drivers.Keyboard.Handler.{
  Typed, type_key, typed_of, handle-IsValid, handle-type_key,
}

-- An interrupt with its scancode, or a call of `buf_pop`.
pub data Event : Type 0 where
  interrupt : ℕ → Event
  pop : Event

abbrev pub IsByteEvent : Event → Type 0
IsByteEvent (interrupt x) = x < 256
IsByteEvent pop = Unit

-- The keys that the calls of `buf_pop` return, and the state at the end.
unfoldable pub run : Keyboard → List Event → List ℕ × Keyboard
run k [] = ([], k)
run k (interrupt x ∷ es) = run (keyboard_handle_scancode k x) es
run k (pop ∷ es) = let (c, k') = buf_pop k in let (cs, k'') = run k' es in (c ∷ cs, k'')

-- The same on the queue.
unfoldable pub run_typed : Typed → List Event → List ℕ × Typed
run_typed t [] = ([], t)
run_typed t (interrupt x ∷ es) = run_typed (type_key t x) es
run_typed t (pop ∷ es) =
    let (c, q) = dequeue t.queue in
    let (cs, t') = run_typed (record t { queue = q }) es in (c ∷ cs, t')

shift-pop : (k : Keyboard) → (buf_pop k).1.shift_held ≡ k.shift_held
unfolding buf_pop
shift-pop k = ground arith

pub pop_key : (k : Keyboard) → IsValid k → (buf_pop k).0 ≡ (dequeue (keys_of k)).0
pop_key k v = ap (λ (o : ℕ × Queue). o.0) (buf_pop-dequeue k v)

pub pop_typed :
    (k : Keyboard)
    → IsValid k
    → typed_of (buf_pop k).1 ≡ record (typed_of k) { queue = (dequeue (keys_of k)).1 }
pop_typed k v =
    let rest : keys_of (buf_pop k).1 ≡ (dequeue (keys_of k)).1 =
      ap (λ (o : ℕ × Queue). o.1) (buf_pop-dequeue k v) in
    ground (arith, rest, shift-pop k)

abbrev after_pop : ℕ → List ℕ × Typed → List ℕ × Typed
after_pop c o = (c ∷ o.0, o.1)

run-run_typed_from :
    (k : Keyboard) (es : List Event)
    → IsValid k
    → All IsByteEvent es
    → ((run k es).0, typed_of (run k es).1) ≡ run_typed (typed_of k) es
unfolding run run_typed
run-run_typed_from k [] v bytes = refl
run-run_typed_from k (interrupt x ∷ es) v (byte, bytes) =
    rw (← handle-type_key k v x byte)
      (run-run_typed_from (keyboard_handle_scancode k x) es (handle-IsValid k v x byte) bytes)
run-run_typed_from k (pop ∷ es) v (byte, bytes) =
    let rest = run-run_typed_from (buf_pop k).1 es (buf_pop-IsValid k v) bytes in
    ap (after_pop (buf_pop k).0) rest
    ∙ ap₂ (λ (c : ℕ) (t : Typed). after_pop c (run_typed t es)) (pop_key k v) (pop_typed k v)

-- After `keyboard_init`, whatever was in the variables, no sequence of interrupts and reads tells
-- the ring from a queue of at most 255 keys: the reads return the same keys, and the same wait.
pub run-run_typed :
    (k : Keyboard) (es : List Event)
    → length k.key_buffer ≡ 256
    → All IsByteEvent es
    → ((run (keyboard_init k) es).0, typed_of (run (keyboard_init k) es).1)
      ≡ run_typed (record { queue = []; shift = false }) es
run-run_typed k es size bytes =
    let start : typed_of (keyboard_init k) ≡ record { queue = []; shift = false } =
      unfold keyboard_init in refl in
    run-run_typed_from (keyboard_init k) es (unfold keyboard_init in omega arith) bytes
    ∙ ap (λ (t : Typed). run_typed t es) start
