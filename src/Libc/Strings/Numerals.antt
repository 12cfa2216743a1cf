-- ===== src/Libc/Strings/Numerals.antt =====
-- `uitoa` and `itoa` of libc/string.c write the numeral of a number.
use mathlib.Core.Option
use mathlib.Core.List
use mathlib.Core.List.{append_assoc, reverse-append}
use native.Mathlib.Nat.{pow-zero, mod-add-div', mod-lt}
use black_hole_os.Prelude.{
  ℕ, zero, suc, ◌+◌, ◌-◌, ◌*◌, ◌/◌, ◌%◌, ◌^◌, ◌<◌, ◌≤◌, ◌≡◌, ◌≢◌, refl, ap, ap₂, sym, ◌∙◌, arith,
  List, [], ◌∷◌, ◌++◌, length, length-append, drop, ltb, leb, ◌==◌, if◌then◌else◌, Bool-cases, inl,
  inr, true, false, some,
}
use black_hole_os.Prelude.Int.{pos, negsuc}
use black_hole_os.Libc.Strings.{digit, put, uitoa, itoa, max_rounds, finish, put_zero, put_sign}
use black_hole_os.Libc.Strings.Digits.{
  digits, length-digits, quotient_bound, uitoa_loop-digits, put_end, itoa_loop-pos,
}
use black_hole_os.Libc.Strings.Reverse.{reverse_lem, length-reverse}

-- The number that a digit stands for.
abbrev pub digit_value : ℕ → ℕ
digit_value c = if leb b'a' c then c - b'a' + 10 else c - b'0'

-- Reads a number up to the NUL, behind the digits of `acc`.
unfoldable pub read_number : ℕ → ℕ → List ℕ → ℕ
read_number base acc [] = acc
read_number base acc (c ∷ str) =
    let rest = read_number base (acc * base + digit_value c) str in if c == 0 then acc else rest

-- The numeral of a number of at most `places` digits, the most significant one first.
unfoldable pub numeral : ℕ → ℕ → ℕ → List ℕ
numeral places value base =
    if value == 0 then b'0' ∷ [] else List.reverse (digits places value base)

digit_value-digit : (d : ℕ) → d < 36 → (digit_value (digit d) ≡ d) × (digit d ≢ 0)
unfolding digit
digit_value-digit d h = ground arith

read_number-digit :
    (acc base d : ℕ) (tail : List ℕ)
    → d < 36
    → read_number base acc (digit d ∷ tail) ≡ read_number base (acc * base + d) tail
unfolding read_number
read_number-digit acc base d tail h =
    let (same, more) = digit_value-digit d h in
    let other : (digit d == 0) ≡ false = ground (arith, more) in rw (other, same)

read_number-digits :
    (places value base : ℕ) (tail : List ℕ)
    → 2 ≤ base
    → base ≤ 36
    → value < base ^ places
    → read_number base 0 (List.reverse (digits places value base) ++ tail)
      ≡ read_number base value tail
unfolding digits
read_number-digits zero value base tail two small bound =
    let nil : value ≡ 0 = ground (arith, pow-zero base) in rw nil
read_number-digits (suc places) value base tail two small bound = elim (Bool-cases (value == 0)) [
  | inl nil ↦ let e : value ≡ 0 = ground arith in rw e
  | inr more ↦
      rw
        (
          more,
          reverse-append (digit (value % base) ∷ []) (digits places (value / base) base),
          append_assoc (List.reverse (digits places (value / base) base))
              (digit (value % base) ∷ []) tail,
          read_number-digits places (value / base) base (digit (value % base) ∷ tail) two small
              (quotient_bound value base places two bound),
        )
        (read_number-digit (value / base) base (value % base) tail
            (omega (arith, mod-lt value {m = base} (omega arith)))
          ∙ ap (λ (acc : ℕ). read_number base acc tail) (omega (arith, mod-add-div' value base)))
]

drop-nil : (n : ℕ) → drop {A = ℕ} n [] ≡ []
drop-nil zero = refl
drop-nil (suc n) = refl

drop-drop : (n k : ℕ) (str : List ℕ) → drop k (drop n str) ≡ drop (n + k) str
drop-drop zero k str = ap (λ (m : ℕ). drop m str) (omega arith)
drop-drop (suc n) k [] = drop-nil k ∙ sym (drop-nil (suc n + k))
drop-drop (suc n) k (x ∷ str) =
    let next : suc (n + k) ≡ suc n + k = omega arith in
    drop-drop n k str ∙ ap (λ (m : ℕ). drop m (x ∷ str)) next

length-drop : (n : ℕ) (str : List ℕ) → length (drop n str) ≡ length str - n
length-drop zero str = omega arith
length-drop (suc n) [] = omega arith
length-drop (suc n) (x ∷ str) = omega (arith, length-drop n str)

finish_lem :
    (done room : List ℕ)
    → 0 < length done
    → length done < 2 ^ 32
    → 0 < length room
    → finish (length done, done ++ room) ≡ some (List.reverse done ++ 0 ∷ drop 1 room)
unfolding finish
finish_lem done [] some_digit small fits = absurd (omega arith)
finish_lem done (x ∷ room) some_digit small fits =
    rw (put_end done x room 0) (ap some (reverse_lem done (0 ∷ room) some_digit small))

length-digits_pos :
    (places value base : ℕ)
    → 0 < places
    → (value == 0) ≡ false
    → 0 < length (digits places value base)
unfolding digits
length-digits_pos zero value base h more = absurd (omega arith)
length-digits_pos (suc places) value base h more = rw more (omega arith)

put_zero_lem : (str : List ℕ) → 1 < length str → put_zero str ≡ some (b'0' ∷ 0 ∷ drop 2 str)
unfolding put_zero put
put_zero_lem [] h = absurd (omega arith)
put_zero_lem (x ∷ []) h = absurd (omega arith)
put_zero_lem (x ∷ y ∷ str) h =
    let s0 : ltb 0 (suc (suc (length str))) ≡ true = ground arith in
    let s1 : ltb 1 (suc (suc (length str))) ≡ true = ground arith in rw (s0, s1)

-- `uitoa` writes the numeral of the value and a NUL at the start of the object, and leaves the
-- bytes behind the NUL: for a base from 2 to 36, where the value has at most `places` digits, 32 at
-- most, and the object has room for them and the NUL.
pub uitoa-numeral :
    (value base places : ℕ) (str : List ℕ)
    → 2 ≤ base
    → value < base ^ places
    → 0 < places
    → places ≤ 32
    → places < length str
    → uitoa value str base
      ≡ some (numeral places value base ++ 0 ∷ drop (length (numeral places value base) + 1) str)
unfolding uitoa numeral
uitoa-numeral value base places str two bound positive most fits = elim (Bool-cases (value == 0)) [
  | inl nil ↦ rw nil (put_zero_lem str (omega arith))
  | inr more ↦
      let len = length-digits places value base in
      rw
        (
          more,
          uitoa_loop-digits max_rounds places value base [] str two bound (omega arith)
              (omega arith),
          length-reverse (digits places value base),
        )
        (finish_lem (digits places value base) (drop (length (digits places value base)) str)
            (length-digits_pos places value base positive more) (omega (arith, len))
            (omega (arith, len, length-drop (length (digits places value base)) str))
          ∙ ap (λ (tail : List ℕ). some (List.reverse (digits places value base) ++ 0 ∷ tail))
              (drop-drop (length (digits places value base)) 1 str))
]

-- Reading what `uitoa` wrote gives the value back, under the same conditions and a base of at most
-- 36.
pub uitoa-read_number :
    (value base places : ℕ) (str : List ℕ)
    → 2 ≤ base
    → base ≤ 36
    → value < base ^ places
    → 0 < places
    → places ≤ 32
    → places < length str
    → Option.map (read_number base 0) (uitoa value str base) ≡ some value
unfolding numeral read_number
uitoa-read_number value base places str two small bound positive most fits =
    rw (uitoa-numeral value base places str two bound positive most fits)
      (elim (Bool-cases (value == 0)) [
        | inl nil ↦ let e : value ≡ 0 = ground arith in rw e (ap some (omega arith))
        | inr more ↦ rw (
          more,
          read_number-digits places value base
              (0 ∷ drop (length (List.reverse (digits places value base)) + 1) str) two small bound,
        )
      ])

-- For a value and a base of 0 or more `itoa` does what `uitoa` does, whatever the object, and so
-- also where the base is 0: both fault then, unless the value is 0.
pub itoa-uitoa :
    (value base : ℕ) (str : List ℕ) → itoa (pos value) str (pos base) ≡ uitoa value str base
unfolding itoa uitoa
itoa-uitoa value base str = rw (itoa_loop-pos max_rounds value base 0 str)

put_sign_lem :
    (done room : List ℕ)
    → 0 < length room
    → put_sign (length done, done ++ room)
      ≡ some (length (done ++ b'-' ∷ []), (done ++ b'-' ∷ []) ++ drop 1 room)
unfolding put_sign
put_sign_lem done [] fits = absurd (omega arith)
put_sign_lem done (x ∷ room) fits = rw (put_end done x room b'-') (
    ap₂ (λ (i : ℕ) (str : List ℕ). some (i, str)) (omega (arith, length-append done (b'-' ∷ [])))
      (sym (append_assoc done (b'-' ∷ []) room)))

-- `itoa` in base 10 of a value below 0, the least `int` excepted, writes the sign, the numeral of
-- the magnitude and a NUL.
pub itoa-numeral :
    (n places : ℕ) (str : List ℕ)
    → n + 1 < 2 ^ 31
    → n + 1 < 10 ^ places
    → places ≤ 32
    → places + 1 < length str
    → itoa (negsuc n) str (pos 10)
      ≡ some (
          b'-' ∷ numeral places (n + 1) 10 ++ 0 ∷ drop (length (numeral places (n + 1) 10) + 2) str)
unfolding itoa numeral
itoa-numeral n places str not_least bound most fits =
    let cs = digits places (n + 1) 10 in
    let len = length-digits places (n + 1) 10 in
    let more : (n + 1 == 0) ≡ false = ground arith in
    let fine : (n + 1 == 2 ^ 31) ≡ false = ground arith in
    let room : 1 < length (drop (length cs) str) =
      omega (arith, len, length-drop (length cs) str) in
    let signed : length (cs ++ b'-' ∷ []) ≡ length cs + 1 = length-append cs (b'-' ∷ []) in
    rw
      (
        more,
        fine,
        itoa_loop-pos max_rounds (n + 1) 10 0 str,
        uitoa_loop-digits max_rounds places (n + 1) 10 [] str (omega arith) bound (omega arith)
            (omega arith),
        put_sign_lem cs (drop (length cs) str) (omega arith),
        length-reverse cs,
      )
      (finish_lem (cs ++ b'-' ∷ []) (drop 1 (drop (length cs) str)) (omega arith) (omega arith)
          (omega (arith, length-drop 1 (drop (length cs) str)))
        ∙ ap₂ (λ (text tail : List ℕ). some (text ++ 0 ∷ tail)) (reverse-append cs (b'-' ∷ []))
            (drop-drop 1 1 (drop (length cs) str) ∙ drop-drop (length cs) 2 str))
