-- ===== src/Drivers/Keyboard/Read.antt =====
-- `keyboard_read` of drivers/keyboard.c waits for a key.
use black_hole_os.Prelude.{
  ℕ, suc, ◌<◌, ◌≡◌, refl, ◌∙◌, ap, arith, List, [], ◌∷◌, ◌++◌, length, All, true, false,
}
use black_hole_os.Drivers.Keyboard.{
  Keyboard, Round, woken, sleeps_on, returns, handle_all, keyboard_read, keyboard_handle_scancode,
  buf_pop, buf_empty,
}
use black_hole_os.Drivers.Keyboard.Ring.{
  IsValid, count, length-slots, keys_of, dequeue, buf_pop-IsValid,
}
use black_hole_os.Drivers.Keyboard.Handler.{Typed, handle-IsValid}
use black_hole_os.Drivers.Keyboard.Session.{pop_key, pop_typed}

abbrev pub AreBytes : Round → Type 0
AreBytes (woken between behind) = All (λ y. y < 256) between × All (λ y. y < 256) behind
AreBytes (sleeps_on between) = All (λ y. y < 256) between

-- The driver at the end of a round.
abbrev pub after : Keyboard → Round → Keyboard
after k (woken between behind) = handle_all (handle_all k between) behind
after k (sleeps_on between) = handle_all k between

abbrev pub after_all : Keyboard → List Round → Keyboard
after_all k [] = k
after_all k (r ∷ rounds) = after_all (after k r) rounds

abbrev pub Wakes : Round → Type 0
Wakes (woken between behind) = Unit
Wakes (sleeps_on between) = ⊥

-- Every one of the rounds begins with no key that waits, and ends.
abbrev pub Waits : Keyboard → List Round → Type 0
Waits k [] = Unit
Waits k (r ∷ rounds) = (keys_of k ≡ []) × Wakes r × Waits (after k r) rounds

handle_all-IsValid :
    (k : Keyboard) (later : List ℕ)
    → IsValid k
    → All (λ y. y < 256) later
    → IsValid (handle_all k later)
unfolding handle_all
handle_all-IsValid k [] v bytes = v
handle_all-IsValid k (x ∷ later) v (byte, bytes) =
    handle_all-IsValid (keyboard_handle_scancode k x) later (handle-IsValid k v x byte) bytes

after-IsValid : (k : Keyboard) (r : Round) → IsValid k → AreBytes r → IsValid (after k r)
after-IsValid k (woken between behind) v (bytes, bytes') =
    handle_all-IsValid (handle_all k between) behind (handle_all-IsValid k between v bytes) bytes'
after-IsValid k (sleeps_on between) v bytes = handle_all-IsValid k between v bytes

buf_empty-nil : (k : Keyboard) → IsValid k → keys_of k ≡ [] → buf_empty k ≡ true
buf_empty-nil k v e =
    let size = length-slots k.key_buffer k.buf_tail (count k) in
    let none_left : length (keys_of k) ≡ 0 = ap length e in
    let head_in = v.head_in in let tail_in = v.tail_in in ground (arith, size, none_left)

buf_empty-cons :
    (k : Keyboard) (c : ℕ) (q : List ℕ) → IsValid k → keys_of k ≡ c ∷ q → buf_empty k ≡ false
buf_empty-cons k c q v e =
    let size = length-slots k.key_buffer k.buf_tail (count k) in
    let some_left : length (keys_of k) ≡ suc (length q) = ap length e in
    ground (arith, size, some_left)

read-waits :
    (k : Keyboard) (r : Round) (rounds : List Round)
    → Wakes r
    → buf_empty k ≡ true
    → keyboard_read (r ∷ rounds) k ≡ keyboard_read rounds (after k r)
unfolding keyboard_read
read-waits k (woken between behind) rounds wakes empty = rw empty refl
read-waits k (sleeps_on between) rounds wakes empty = absurd wakes

read-now :
    (rounds : List Round) (k : Keyboard)
    → buf_empty k ≡ false
    → keyboard_read rounds k ≡ returns (buf_pop k).0 (buf_pop k).1 rounds
unfolding keyboard_read
read-now [] k waits = rw waits refl
read-now (woken between behind ∷ rounds) k waits = rw waits refl
read-now (sleeps_on between ∷ rounds) k waits = rw waits refl

-- On a driver in order, and with scancodes that are bytes: however many interrupts wake it while no
-- key waits, `keyboard_read` goes on waiting, and once a key waits at the end of a round that some
-- interrupt ends, it returns the oldest key, leaves the others in their order, and takes no further
-- round.
pub keyboard_read-first_key :
    (before later : List Round) (k : Keyboard) (c : ℕ) (q : List ℕ)
    → IsValid k
    → All AreBytes before
    → Waits k before
    → keys_of (after_all k before) ≡ c ∷ q
    → (k' : Keyboard) × (keyboard_read (before ++ later) k ≡ returns c k' later)
      × (keys_of k' ≡ q)
      × IsValid k'
unfolding dequeue
keyboard_read-first_key [] later k c q v bytes waits e =
    let first : (buf_pop k).0 ≡ c = pop_key k v ∙ ap (λ (l : List ℕ). (dequeue l).0) e in
    let rest : keys_of (buf_pop k).1 ≡ q =
      ap (λ (t : Typed). t.queue) (pop_typed k v) ∙ ap (λ (l : List ℕ). (dequeue l).1) e in
    (
      (buf_pop k).1,
      read-now later k (buf_empty-cons k c q v e)
          ∙ ap (λ (x : ℕ). returns x (buf_pop k).1 later) first,
      rest,
      buf_pop-IsValid k v,
    )
keyboard_read-first_key (r ∷ before) later k c q v (byte, bytes) (empty, wakes, waits) e =
    let (k', run, rest, valid) =
      keyboard_read-first_key before later (after k r) c q (after-IsValid k r v byte) bytes waits
        e in
    (k', read-waits k r (before ++ later) wakes (buf_empty-nil k v empty) ∙ run, rest, valid)
