-- ===== src/Drivers/Keyboard/Readline.antt =====
-- `keyboard_readline` of drivers/keyboard.c edits a line.
use black_hole_os.Prelude.{
  ℕ, zero, suc, ◌+◌, ◌-◌, ◌<◌, ◌≤◌, ◌≡◌, refl, ◌∙◌, sym, arith, List, [], ◌∷◌, ◌++◌, length,
  length-append, length-set, get_or, get_or-set_self, get_or-set_ne, set, not, ◌==◌, ltb,
  if◌then◌else◌, Bool-cases, true, inl, inr, Option, some, none,
}
use black_hole_os.Drivers.Vga.{Screen, vga_putchar}
use black_hole_os.Drivers.Keyboard.{Line, readline_loop, keyboard_readline, end_line}
use black_hole_os.Libc.Strings.{put}

-- A line without its last byte.
unfoldable pub init : List ℕ → List ℕ
init [] = []
init (x ∷ []) = []
init (x ∷ y ∷ xs) = x ∷ init (y ∷ xs)

-- The line that the keys make, up to Enter or to `room` bytes, and the keys behind it; `none` if
-- the keys end before that.
unfoldable pub edit : ℕ → List ℕ → List ℕ → Option (List ℕ × List ℕ)
edit room line [] = if ltb (length line) room then none else some (line, [])
edit room line (c ∷ keys) =
    let erased = edit room (init line) keys in
    let typed = edit room (line ++ c ∷ []) keys in
    if not (ltb (length line) room)
    then some (line, c ∷ keys)
    else if c == 10
    then some (line, keys)
    else if c == 8
    then erased
    else typed

-- The buffer holds the line, with a NUL behind it.
pub record Holds (buf line : List ℕ) : Type 0 where
  pub bytes : (i : ℕ) → i < length line → get_or buf i 0 ≡ get_or line i 0
  pub nul : get_or buf (length line) 0 ≡ 0

length-init : (xs : List ℕ) → length (init xs) ≡ length xs - 1
unfolding init
length-init [] = omega arith
length-init (x ∷ []) = omega arith
length-init (x ∷ y ∷ xs) = omega (arith, length-init (y ∷ xs))

get_or-init : (xs : List ℕ) (i : ℕ) → i < length xs - 1 → get_or (init xs) i 0 ≡ get_or xs i 0
unfolding init
get_or-init [] i h = absurd (omega arith)
get_or-init (x ∷ []) i h = absurd (omega arith)
get_or-init (x ∷ y ∷ xs) zero h = refl
get_or-init (x ∷ y ∷ xs) (suc i) h = get_or-init (y ∷ xs) i (omega arith)

get_or-snoc :
    (xs : List ℕ) (c i : ℕ)
    → get_or (xs ++ c ∷ []) i 0 ≡ (if i == length xs then c else get_or xs i 0)
get_or-snoc [] c zero = refl
get_or-snoc [] c (suc i) = ground arith
get_or-snoc (x ∷ xs) c zero = ground arith
get_or-snoc (x ∷ xs) c (suc i) = get_or-snoc xs c i ∙ ground arith

Prefix : List ℕ → List ℕ → Type 0
Prefix buf line = (i : ℕ) → i < length line → get_or buf i 0 ≡ get_or line i 0

-- The loop returns the edited line in the buffer, whose bytes from `max` on stay, whatever it
-- draws.
abbrev pub Edits : ℕ → Option (List ℕ × List ℕ) → List ℕ → Option Line → Type 0
Edits max (some (line, keys)) buf r =
    (buf' : List ℕ) × (s' : Screen) × (r ≡ some (buf', s', keys))
    × Holds buf' line
    × (length buf' ≡ length buf)
    × ((i : ℕ) → max ≤ i → get_or buf' i 0 ≡ get_or buf i 0)
Edits max none buf r = r ≡ none

finish :
    (max : ℕ) (line keys buf : List ℕ) (s : Screen)
    → Prefix buf line
    → length line < length buf
    → length line < max
    → Edits max (some (line, keys)) buf (end_line buf (length line) s keys)
unfolding Prefix put
finish max line keys buf s pre fits low =
    let inside : ltb (length line) (length buf) ≡ true = ground arith in
    (
      set buf (length line) 0,
      s,
      rw inside refl,
      record {
        bytes = λ i h. get_or-set_ne buf (length line) i 0 0 (omega arith) ∙ pre i h;
        nul = get_or-set_self buf (length line) 0 0 fits;
      },
      length-set buf (length line) 0,
      λ i behind. get_or-set_ne buf (length line) i 0 0 (omega arith),
    )

Edits-set :
    (max : ℕ) (o : Option (List ℕ × List ℕ)) (buf : List ℕ) (k c : ℕ) (r : Option Line)
    → k < max
    → Edits max o (set buf k c) r
    → Edits max o buf r
Edits-set max none buf k c r low h = h
Edits-set max (some (line, keys)) buf k c r low (buf', s', eq, holds, len, behind) = (
  buf',
  s',
  eq,
  holds,
  len ∙ length-set buf k c,
  λ i far. behind i far ∙ get_or-set_ne buf k i c 0 (omega arith),
)

Prefix-init : (buf line : List ℕ) → Prefix buf line → Prefix buf (init line)
unfolding Prefix
Prefix-init buf line pre i h =
    pre i (omega (arith, length-init line))
    ∙ sym (get_or-init line i (omega (arith, length-init line)))

init_empty : (line : List ℕ) → length line ≡ 0 → init line ≡ line
unfolding init
init_empty [] e = refl
init_empty (x ∷ xs) e = absurd (omega arith)

Prefix-snoc :
    (buf line : List ℕ) (c : ℕ)
    → Prefix buf line
    → length line < length buf
    → Prefix (set buf (length line) c) (line ++ c ∷ [])
unfolding Prefix
Prefix-snoc buf line c pre room i h = elim (Bool-cases (i == length line)) [
  | inl last ↦
      let at : i ≡ length line = ground arith in
      rw (get_or-snoc line c i, last, at) (get_or-set_self buf (length line) c 0 room)
  | inr before ↦
      rw (get_or-snoc line c i, before)
        (get_or-set_ne buf (length line) i c 0 (ground arith)
          ∙ pre i (ground (arith, length-append line (c ∷ []))))
]

readline_loop-Edits :
    (max : ℕ) (keys line buf : List ℕ) (i : ℕ) (s : Screen)
    → i ≡ length line
    → length line ≤ max - 1
    → max ≤ length buf
    → 0 < max
    → Prefix buf line
    → Edits max (edit (max - 1) line keys) buf (readline_loop max keys i buf s)
unfolding edit readline_loop put
readline_loop-Edits max [] line buf i s e small fits pos pre =
    rw e (elim (Bool-cases (ltb (length line) (max - 1))) [
      | inl room ↦ rw room refl
      | inr full ↦ rw full (finish max line [] buf s pre (omega arith) (omega arith))
    ])
readline_loop-Edits max (c ∷ keys) line buf i s e small fits pos pre =
    elim (Bool-cases (ltb (length line) (max - 1))) [
      | inr full ↦ rw (e, full) (finish max line (c ∷ keys) buf s pre (omega arith) (omega arith))
      | inl room ↦ elim (Bool-cases (c == 10)) [
        | inl enter ↦
            rw (e, room, enter)
              (finish max line keys buf (vga_putchar s 10) pre (omega arith) (omega arith))
        | inr other ↦ elim (Bool-cases (c == 8)) [
          | inl back ↦ elim (Bool-cases (ltb 0 (length line))) [
            | inl more ↦
                rw (e, room, other, back, more)
                  (readline_loop-Edits max keys (init line) buf (length line - 1) _
                    (sym (length-init line)) (omega (arith, length-init line)) fits pos
                    (Prefix-init buf line pre))
            | inr empty ↦
                rw (e, room, other, back, empty, init_empty line (ground arith))
                  (readline_loop-Edits max keys line buf (length line) s refl small fits pos pre)
          ]
          | inr drawn ↦
              let inside : ltb (length line) (length buf) ≡ true = ground arith in
              rw (e, room, other, drawn, inside)
                (Edits-set max (edit (max - 1) (line ++ c ∷ []) keys) buf (length line) c _
                  (ground arith)
                  (readline_loop-Edits max keys (line ++ c ∷ []) (set buf (length line) c)
                    (length line + 1) _ (sym (length-append line (c ∷ [])))
                    (ground (arith, length-append line (c ∷ [])))
                    (omega (arith, length-set buf (length line) c)) pos
                    (Prefix-snoc buf line c pre (omega arith))))
        ]
      ]
    ]

-- With a buffer of `max` bytes or more, `max` not 0, `keyboard_readline` returns the line that the
-- keys make, cut at `max - 1` bytes, with a NUL behind it, and leaves the keys behind the line; it
-- does not come back exactly if the keys do not finish a line. The bytes of the buffer from `max`
-- on stay as they were.
pub keyboard_readline-edit :
    (max : ℕ) (keys buf : List ℕ) (s : Screen)
    → 0 < max
    → max ≤ length buf
    → Edits max (edit (max - 1) [] keys) buf (keyboard_readline max keys buf s)
unfolding keyboard_readline
keyboard_readline-edit max keys buf s pos fits =
    readline_loop-Edits max keys [] buf 0 s refl (omega arith) fits pos
      (unfold Prefix in λ i h. absurd (omega arith))
