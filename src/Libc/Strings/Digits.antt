-- ===== src/Libc/Strings/Digits.antt =====
-- The loops of `uitoa` and `itoa` of libc/string.c, which write the digits of a number from the
-- least significant one on.
use mathlib.Core.List.{append-nil, append_assoc}
use native.Mathlib.Nat.{div-lt_iff_lt-mul, pow-zero, pow-suc}
use black_hole_os.Prelude.{
  ℕ, zero, suc, ◌+◌, ◌/◌, ◌%◌, ◌^◌, ◌<◌, ◌≤◌, ◌≡◌, refl, ap, ap₂, sym, subst, fun_ext, ◌∙◌, arith,
  List, [], ◌∷◌, ◌++◌, length, length-append, set, drop, ltb, ◌==◌, if◌then◌else◌, Bool-cases,
  false, inl, inr, true, Option, some, ◌>>=◌,
}
use black_hole_os.Prelude.Int.{pos}
use black_hole_os.Libc.Strings.{digit, put, uitoa_loop, itoa_loop}

-- The digits of a number of at most `places` digits, the least significant one first.
unfoldable pub digits : ℕ → ℕ → ℕ → List ℕ
digits zero value base = []
digits (suc places) value base =
    let rest = digits places (value / base) base in
    if value == 0 then [] else digit (value % base) ∷ rest

pub quotient_bound :
    (value base places : ℕ) → 2 ≤ base → value < base ^ suc places → value / base < base ^ places
quotient_bound value base places two bound =
    (div-lt_iff_lt-mul (omega arith)).1 (subst (λ (n : ℕ). value < n) (pow-suc base places) bound)

pub length-digits : (places value base : ℕ) → length (digits places value base) ≤ places
unfolding digits
length-digits zero value base = omega arith
length-digits (suc places) value base = elim (Bool-cases (value == 0)) [
  | inl nil ↦ rw nil (omega arith)
  | inr more ↦ rw more (omega (arith, length-digits places (value / base) base))
]

set-append :
    (done : List ℕ) (x : ℕ) (room : List ℕ) (c : ℕ)
    → set (done ++ x ∷ room) (length done) c ≡ done ++ c ∷ room
set-append [] x room c = refl
set-append (d ∷ done) x room c = ap (λ (l : List ℕ). d ∷ l) (set-append done x room c)

pub put_end :
    (done : List ℕ) (x : ℕ) (room : List ℕ) (c : ℕ)
    → put (done ++ x ∷ room) (length done) c ≡ some (done ++ c ∷ room)
unfolding put
put_end done x room c =
    let inside : ltb (length done) (length (done ++ x ∷ room)) ≡ true =
      ground (arith, length-append done (x ∷ room)) in
    rw inside (ap some (set-append done x room c))

pub uitoa_loop-digits :
    (fuel places value base : ℕ) (done room : List ℕ)
    → 2 ≤ base
    → value < base ^ places
    → places < fuel
    → places ≤ length room
    → uitoa_loop fuel value base (length done) (done ++ room)
      ≡ some (
        length (done ++ digits places value base),
        (done ++ digits places value base) ++ drop (length (digits places value base)) room,
      )
unfolding uitoa_loop digits
uitoa_loop-digits zero places value base done room two bound enough fits = absurd (omega arith)
uitoa_loop-digits (suc fuel) zero value base done room two bound enough fits =
    let nil : (value == 0) ≡ true = ground (arith, pow-zero base) in
    rw nil (ap (λ (l : List ℕ). some (length l, l ++ room)) (sym (append-nil done)))
uitoa_loop-digits (suc fuel) (suc places) value base done [] two bound enough fits =
    absurd (omega arith)
uitoa_loop-digits (suc fuel) (suc places) value base done (x ∷ room) two bound enough fits =
    elim (Bool-cases (value == 0)) [
      | inl nil ↦
          rw nil (ap (λ (l : List ℕ). some (length l, l ++ x ∷ room)) (sym (append-nil done)))
      | inr more ↦
          let step =
            uitoa_loop-digits fuel places (value / base) base (done ++ digit (value % base) ∷ [])
              room two (quotient_bound value base places two bound) (omega arith) (omega arith) in
          let divisor : (base == 0) ≡ false = ground arith in
          rw (more, divisor, put_end done x room (digit (value % base)))
            (ap₂ (λ (i : ℕ) (str : List ℕ). uitoa_loop fuel (value / base) base i str)
                (omega (arith, length-append done (digit (value % base) ∷ [])))
                (sym (append_assoc done (digit (value % base) ∷ []) room))
              ∙ step
              ∙ ap
                  (λ (l : List ℕ).
                    some (length l, l ++ drop (length (digits places (value / base) base)) room))
                  (append_assoc done (digit (value % base) ∷ [])
                    (digits places (value / base) base)))
    ]

-- Where value and base are not negative, `itoa` runs the loop of `uitoa`.
pub itoa_loop-pos :
    (fuel value base i : ℕ) (str : List ℕ)
    → itoa_loop fuel (pos value) (pos base) i str ≡ uitoa_loop fuel value base i str
unfolding itoa_loop uitoa_loop
itoa_loop-pos zero value base i str = refl
itoa_loop-pos (suc fuel) value base i str = elim (Bool-cases (value == 0)) [
  | inl nil ↦ rw nil
  | inr more ↦ elim (Bool-cases (base == 0)) [
    | inl by_zero ↦ rw (more, by_zero) refl
    | inr divisor ↦
        rw (more, divisor)
          (ap (λ (f : List ℕ → Option (ℕ × List ℕ)). put str i (digit (value % base)) >>= f)
            (fun_ext (λ str1. itoa_loop-pos fuel (value / base) base (i + 1) str1)))
  ]
]
