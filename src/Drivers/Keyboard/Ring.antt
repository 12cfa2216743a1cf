-- ===== src/Drivers/Keyboard/Ring.antt =====
-- The ring buffer of drivers/keyboard.c is a queue of at most 255 keys.
use black_hole_os.Prelude.{
  ℕ, zero, suc, ◌+◌, ◌-◌, ◌%◌, ◌<◌, ◌≡◌, refl, ap, ap₂, arith, List, [], ◌∷◌, ◌++◌, length, get_or,
  set, length-set, get_or-set_self, get_or-set_ne, ◌==◌, ltb, if◌then◌else◌, Bool-cases, inl, inr,
  true, false,
}
use black_hole_os.Drivers.Keyboard.{Keyboard, buf_push, buf_pop}

pub record IsValid (k : Keyboard) : Type 0 where
  pub storage : length k.key_buffer ≡ 256
  pub head_in : k.buf_head < 256
  pub tail_in : k.buf_tail < 256

-- The `n` entries from position `t` on, round the ring.
abbrev pub slots : List ℕ → ℕ → ℕ → List ℕ
slots buf t zero = []
slots buf t (suc n) = get_or buf (t % 256) 0 ∷ slots buf (t + 1) n

abbrev pub count : Keyboard → ℕ
count k = (k.buf_head + 256 - k.buf_tail) % 256

-- The keys that wait, the oldest first.
abbrev pub keys_of : Keyboard → List ℕ
keys_of k = slots k.key_buffer k.buf_tail (count k)

pub length-slots : (buf : List ℕ) (t n : ℕ) → length (slots buf t n) ≡ n
length-slots buf t zero = refl
length-slots buf t (suc n) = ap suc (length-slots buf (t + 1) n)

slots_congr : (buf : List ℕ) (t u n : ℕ) → t % 256 ≡ u % 256 → slots buf t n ≡ slots buf u n
slots_congr buf t u zero e = refl
slots_congr buf t u (suc n) e =
    ap₂ ◌∷◌ (ap (λ (i : ℕ). get_or buf i 0) e) (slots_congr buf (t + 1) (u + 1) n (omega arith))

-- A write at the position behind a window extends it.
slots-set :
    (buf : List ℕ) (c t n i : ℕ)
    → length buf ≡ 256
    → n < 256
    → i ≡ (t + n) % 256
    → slots (set buf i c) t (suc n) ≡ slots buf t n ++ c ∷ []
slots-set buf c t zero i size small e =
    let at : t % 256 ≡ i = omega arith in rw (at, get_or-set_self buf i c 0 (omega arith))
slots-set buf c t (suc n) i size small e =
    ap₂ ◌∷◌ (get_or-set_ne buf i (t % 256) c 0 (omega arith))
      (slots-set buf c (t + 1) n i size (omega arith) (omega arith))

-- A bounded queue of keys.
abbrev pub Queue : Type 0
Queue = List ℕ

unfoldable pub enqueue : Queue → ℕ → Queue
enqueue q c = if ltb (length q) 255 then q ++ c ∷ [] else q

unfoldable pub dequeue : Queue → ℕ × Queue
dequeue [] = (0, [])
dequeue (c ∷ q) = (c, q)

module _ (k : Keyboard) (v : IsValid k) where
  pub buf_push-IsValid : (c : ℕ) → IsValid (buf_push k c)
  unfolding buf_push
  buf_push-IsValid c = ground (arith, length-set k.key_buffer k.buf_head c)

  pub buf_pop-IsValid : IsValid (buf_pop k).1
  unfolding buf_pop
  buf_pop-IsValid = ground arith

  -- `buf_push` puts the key behind the waiting ones, or drops it if 255 keys wait.
  pub buf_push-enqueue : (c : ℕ) → keys_of (buf_push k c) ≡ enqueue (keys_of k) c
  unfolding buf_push enqueue
  buf_push-enqueue c =
      let size = length-slots k.key_buffer k.buf_tail (count k) in
      elim (Bool-cases ((k.buf_head + 1) % 256 == k.buf_tail)) [
        | inl full ↦
            let no_room : ltb (length (keys_of k)) 255 ≡ false = ground arith in rw (full, no_room)
        | inr room ↦
            let has_room : ltb (length (keys_of k)) 255 ≡ true = ground arith in
            let more : ((k.buf_head + 1) % 256 + 256 - k.buf_tail) % 256 ≡ suc (count k) =
              ground arith in
            rw (room, has_room, more)
              (slots-set k.key_buffer c k.buf_tail (count k) k.buf_head v.storage (omega arith)
                (omega arith))
      ]

  -- `buf_pop` takes the oldest key, or returns 0 if none waits.
  pub buf_pop-dequeue : let (c, k') = buf_pop k in (c, keys_of k') ≡ dequeue (keys_of k)
  unfolding buf_pop dequeue
  buf_pop-dequeue = elim (Bool-cases (k.buf_tail == k.buf_head)) [
    | inl none_waits ↦ let nothing : count k ≡ 0 = ground arith in rw (none_waits, nothing)
    | inr some_wait ↦
        let fewer = (k.buf_head + 256 - (k.buf_tail + 1) % 256) % 256 in
        let some_left : count k ≡ suc fewer = ground arith in
        let here : k.buf_tail % 256 ≡ k.buf_tail = omega arith in
        rw (some_wait, some_left, here)
          (ap (λ (q : Queue). (get_or k.key_buffer k.buf_tail 0, q))
            (slots_congr k.key_buffer ((k.buf_tail + 1) % 256) (k.buf_tail + 1) fewer
              (omega arith)))
  ]
