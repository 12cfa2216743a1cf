-- ===== src/Libc/Stdio/Printf.antt =====
-- `printf` of libc/stdio.c prints the text that its format and arguments stand for.
use mathlib.Core.Option
use black_hole_os.Prelude.{
  ℕ, ◌+◌, ◌≡◌, refl, ap, ap₂, sym, ◌∙◌, arith, Bool-cases, inl, inr, ◌>>=◌, Option, Option-cases,
  none, some, List, [], ◌∷◌, ◌++◌, length, length-append, ◌==◌, if◌then◌else◌,
}
use black_hole_os.Libc.Stdio.{Arg, printf, printf_loop}
use black_hole_os.Libc.Stdio.Conversions.{convert-promise}
use black_hole_os.Libc.Stdio.Promises.{promise}
use black_hole_os.Drivers.Vga.{Screen, vga_putchar, vga_print}

-- The text that a format and arguments stand for, if every conversion has its argument, no `%d` has
-- the least `int`, and no percent sign ends the format.
unfoldable pub render : List ℕ → List Arg → Option (List ℕ)
render [] args = none
render (c ∷ []) args = if c == 0 then some [] else none
render (c ∷ d ∷ format) args =
    let conversion : Option (List ℕ) = (do
      p ← promise d args
      t ← render format p.1
      some (p.0 ++ t)) in
    let plain = Option.map (λ t. c ∷ t) (render (d ∷ format) args) in
    if c == 0 then some [] else if c == b'%' then conversion else plain

vga_print-append :
    (s : Screen) (xs ys : List ℕ) → vga_print s (xs ++ ys) ≡ vga_print (vga_print s xs) ys
unfolding vga_print
vga_print-append s [] ys = refl
vga_print-append s (x ∷ xs) ys = vga_print-append (vga_putchar s x) xs ys

abbrev printed : ℕ → Screen → List ℕ → ℕ × Screen
printed written s t = (written + length t, vga_print s t)

module _ (buf : List ℕ) (size : length buf ≡ 32) where
  printf_loop-render :
      (format : List ℕ) (args : List Arg) (written : ℕ) (s : Screen) (text : List ℕ)
      → render format args ≡ some text
      → printf_loop buf format args written s ≡ some (written + length text, vga_print s text)
  unfolding printf_loop render vga_print
  printf_loop-render [] args written s text e = absurd (cc)
  printf_loop-render (c ∷ []) args written s text e = elim (Bool-cases (c == 0)) [
    | inl end ↦ rw end (
        ap (λ (n : ℕ). some (n, s)) (omega arith)
        ∙ ap (Option.map (printed written s)) (rw end at e))
    | inr more ↦ let e' = rw more at e in absurd (cc)
  ]
  printf_loop-render (c ∷ d ∷ format) args written s text e = elim (Bool-cases (c == 0)) [
    | inl end ↦ rw end (
        ap (λ (n : ℕ). some (n, s)) (omega arith)
        ∙ ap (Option.map (printed written s)) (rw end at e))
    | inr more ↦ elim (Bool-cases (c == b'%')) [
      | inl percent ↦ elim (Option-cases (promise d args)) [
        | inl fails ↦ let e' = rw (more, percent, fails) at e in absurd (cc)
        | inr (p, kept) ↦ elim (Option-cases (render format p.1)) [
          | inl fails ↦ let e' = rw (more, percent, kept, fails) at e in absurd (cc)
          | inr (t, rest) ↦
              rw (more, percent, convert-promise s buf d args p size kept)
                (printf_loop-render format p.1 (written + length p.0) (vga_print s p.0) t rest
                  ∙ ap₂ (λ (n : ℕ) (s' : Screen). some (n, s')) (omega (arith, length-append p.0 t))
                      (sym (vga_print-append s p.0 t))
                  ∙ ap (Option.map (printed written s)) (rw (more, percent, kept, rest) at e))
        ]
      ]
      | inr plain ↦ elim (Option-cases (render (d ∷ format) args)) [
        | inl fails ↦ let e' = rw (more, plain, fails) at e in absurd (cc)
        | inr (t, rest) ↦
            rw (more, plain)
              (printf_loop-render (d ∷ format) args (written + 1) (vga_putchar s c) t rest
                ∙ ap (λ (n : ℕ). some (n, vga_print (vga_putchar s c) t)) (omega arith)
                ∙ ap (Option.map (printed written s)) (rw (more, plain, rest) at e))
      ]
    ]
  ]

  -- `printf` prints the text that its format and arguments stand for, whatever stands in its
  -- uninitialized buffer of 32 bytes, and returns the number of its characters.
  pub printf-render :
      (format : List ℕ) (args : List Arg) (s : Screen) (text : List ℕ)
      → render format args ≡ some text
      → printf buf format args s ≡ some (length text, vga_print s text)
  unfolding printf
  printf-render format args s text e =
      printf_loop-render format args 0 s text e
      ∙ ap (λ (n : ℕ). some (n, vga_print s text)) (omega arith)
