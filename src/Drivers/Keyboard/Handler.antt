-- ===== src/Drivers/Keyboard/Handler.antt =====
-- `keyboard_handle_scancode` of drivers/keyboard.c against a queue of keys and a shift state.
use black_hole_os.Prelude.{
  ℕ, ◌+◌, ◌%◌, ◌<◌, ◌≡◌, ◌↔◌, ◌⊎◌, refl, ◌∙◌, arith, not, ◌&&◌, ◌||◌, bit_and, leb, ltb, ◌==◌,
  if◌then◌else◌, Bool, Bool-cases, inl, inr, true, false, ap, ◌*◌, ◌/◌, every_below,
  every_below-true, bit_and-mod, bit_and-high,
}
use black_hole_os.Drivers.Keyboard.{Keyboard, translate, buf_push, keyboard_handle_scancode}
use black_hole_os.Drivers.Keyboard.Ring.{
  IsValid, keys_of, Queue, enqueue, buf_push-IsValid, buf_push-enqueue,
}

high_bit : (x : ℕ) → x < 256 → bit_and x 0x80 ≡ (if ltb x 128 then 0 else 128)
high_bit x h = bit_and-high 7 x 1 ∙ ap (λ (n : ℕ). n * 128) (bit_and-mod 1 (x / 128)) ∙ ground arith

low_bits : (x : ℕ) → x < 256 → bit_and x 0x7f ≡ x % 128
low_bits x h = bit_and-mod 7 x

-- What a user of the keyboard sees: the keys that wait, and whether a shift key is down.
pub record Typed : Type 0 where
  pub queue : Queue
  pub shift : Bool

-- A key going down is a scancode below 128; 128 more is the same key going up. The shift keys are
-- 42 and 54.
unfoldable pub type_key : Typed → ℕ → Typed
type_key t x =
    if x == 42 || x == 54
    then record t { shift = true }
    else if x == 170 || x == 182
    then record t { shift = false }
    else if leb 128 x || translate t.shift x == 0
    then t
    else record t { queue = enqueue t.queue (translate t.shift x) }

abbrev pub typed_of : Keyboard → Typed
typed_of k = record { queue = keys_of k; shift = k.shift_held }

shift_push : (k : Keyboard) (c : ℕ) → (buf_push k c).shift_held ≡ k.shift_held
unfolding buf_push
shift_push k c = ground arith

module _ (k : Keyboard) (v : IsValid k) (x : ℕ) (byte : x < 256) where
  pub handle-IsValid : IsValid (keyboard_handle_scancode k x)
  unfolding keyboard_handle_scancode
  handle-IsValid = ground (arith, high_bit x byte, buf_push-IsValid k v (translate k.shift_held x))

  -- The handler of the keyboard interrupt does to the ring what the key does to the queue.
  pub handle-type_key : typed_of (keyboard_handle_scancode k x) ≡ type_key (typed_of k) x
  unfolding keyboard_handle_scancode type_key
  handle-type_key = elim (Bool-cases (ltb x 128)) [
    | inl down ↦
        let no_high : bit_and x 0x80 ≡ 0 = high_bit x byte ∙ rw down in
        rw no_high (
          ground (
            arith,
            buf_push-enqueue k v (translate k.shift_held x),
            shift_push k (translate k.shift_held x),
          ))
    | inr up ↦
        let high : bit_and x 0x80 ≡ 128 = high_bit x byte ∙ rw up in
        rw (high, low_bits x byte) (ground arith)
  ]

-- A letter key types the letter, and with shift the letter 32 below it.
abbrev pub is_lower : ℕ → Bool
is_lower c = leb b'a' c && leb c b'z'

letter_table :
    every_below
      (λ x. not (is_lower (translate false x)) || (translate true x + 32 == translate false x))
      128
    ≡ true
unfolding every_below translate
letter_table = refl

same_keys_table :
    every_below
      (λ x. if translate false x == 0 then translate true x == 0 else not (translate true x == 0))
      128
    ≡ true
unfolding every_below translate
same_keys_table = refl

-- The two tables give a character for the same keys, and upper case for lower case.
translate_shift :
    (x : ℕ)
    → x < 128
    → ((translate false x ≡ 0) ↔ (translate true x ≡ 0))
      × ((is_lower (translate false x) ≡ false) ⊎ (translate true x + 32 ≡ translate false x))
translate_shift x h = (
  ground (arith, every_below-true _ 128 same_keys_table x h),
  ground (arith, every_below-true _ 128 letter_table x h),
)
