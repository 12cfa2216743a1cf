-- ===== src/Kernel/Isr/Syscall.antt =====
-- What the system call of kernel/isr.c prints.
use mathlib.Core.Option
use black_hole_os.Prelude.{
  ℕ, ◌%◌, ◌^◌, ◌≡◌, refl, ap, ◌∙◌, Bool-cases, Option, Option-cases, inl, inr, some, List, [], ◌∷◌,
  ◌++◌, length, ◌==◌, if◌then◌else◌,
}
use black_hole_os.Drivers.Vga.{Screen, vga_print}
use black_hole_os.Libc.Stdio.{Arg, word}
use black_hole_os.Libc.Stdio.Promises.{promise, string_promise, int_text}
use black_hole_os.Libc.Stdio.Printf.{render, printf-render}
use black_hole_os.Kernel.Isr.{says_text, unknown_text, isr128_handler}

-- What a system call promises to print.
abbrev pub reply : ℕ → Arg → Option (List ℕ)
reply num arg1 =
    if num == 1
    then Option.map (λ p. says_text ++ p.0 ++ 10 ∷ []) (string_promise (arg1 ∷ []))
    else Option.map (λ t. unknown_text ++ t ++ 10 ∷ []) (int_text (num % 2 ^ 32))

render-says :
    (arg1 : Arg)
    → render (says_text ++ b'%' ∷ b's' ∷ 10 ∷ 0 ∷ []) (arg1 ∷ [])
      ≡ Option.map (λ p. says_text ++ p.0 ++ 10 ∷ []) (string_promise (arg1 ∷ []))
unfolding render promise
render-says arg1 = elim (Option-cases (string_promise (arg1 ∷ []))) [
  | inl e ↦ rw e refl
  | inr (p, e) ↦ rw e refl
]

render-unknown :
    (num : ℕ)
    → render (unknown_text ++ b'%' ∷ b'd' ∷ 10 ∷ 0 ∷ []) (word num ∷ [])
      ≡ Option.map (λ t. unknown_text ++ t ++ 10 ∷ []) (int_text (num % 2 ^ 32))
unfolding render promise
render-unknown num = elim (Option-cases (int_text (num % 2 ^ 32))) [
  | inl e ↦ rw e refl
  | inr (t, e) ↦ rw e refl
]

-- Where a system call promises a text (the string of call 1, the number of any other call, behind
-- the words for it), that text is what `isr128_handler` prints.
pub isr128_handler-reply :
    (buf : List ℕ) (num : ℕ) (arg1 : Arg) (s : Screen) (text : List ℕ)
    → length buf ≡ 32
    → reply num arg1 ≡ some text
    → isr128_handler buf num arg1 s ≡ some (vga_print s text)
unfolding isr128_handler
isr128_handler-reply buf num arg1 s text size e = elim (Bool-cases (num == 1)) [
  | inl t ↦ rw t (
      ap (Option.map (λ out. out.1))
        (printf-render buf size _ _ s text (render-says arg1 ∙ rw t at e)))
  | inr f ↦ rw f (
      ap (Option.map (λ out. out.1))
        (printf-render buf size _ _ s text (render-unknown num ∙ rw f at e)))
]
