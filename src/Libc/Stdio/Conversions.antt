-- ===== src/Libc/Stdio/Conversions.antt =====
-- The conversions of `printf` of libc/stdio.c, and the text that each promises.
use mathlib.Core.Option
use mathlib.Core.List
use mathlib.Core.List.{reverse-append}
use black_hole_os.Prelude.{
  ℕ, zero, suc, ◌+◌, ◌-◌, ◌/◌, ◌%◌, ◌^◌, ◌<◌, ◌≡◌, ◌≢◌, refl, ap, sym, subst, ◌∙◌, arith,
  Bool-cases, inl, inr, false, ◌||◌, Option, Option-cases, none, some, List, [], ◌∷◌, ◌++◌, length,
  drop, ltb, ◌==◌, All,
}
use black_hole_os.Libc.Strings.{strlen, digit}
use black_hole_os.Libc.Strings.CString.{NulFree, strlen_lem}
use black_hole_os.Libc.Strings.Digits.{digits}
use black_hole_os.Libc.Strings.Numerals.{numeral, uitoa-numeral, itoa-uitoa, itoa-numeral}
use black_hole_os.Libc.Stdio.{
  Arg, word, null, string, c_text, print_string, print_char, print_int, print_unsigned, print_hex,
  Converted, null_string, take_string, take_word, convert,
}
use black_hole_os.Libc.Stdio.Promises.{
  unsigned_text, hex_text, int_text, string_promise, word_promise, promise,
}
use black_hole_os.Drivers.Vga.{Screen, vga_print}

All-append : (P : ℕ → Type 0) (xs ys : List ℕ) → All P xs → All P ys → All P (xs ++ ys)
All-append P [] ys hx hy = hy
All-append P (x ∷ xs) ys (h, hx) hy = (h, All-append P xs ys hx hy)

NulFree-reverse : (xs : List ℕ) → NulFree xs → NulFree (List.reverse xs)
NulFree-reverse [] h = tt
NulFree-reverse (x ∷ xs) (h, hs) =
    subst NulFree (sym (reverse-append (x ∷ []) xs))
      (All-append (λ c. c ≢ 0) (List.reverse xs) (x ∷ []) (NulFree-reverse xs hs) (h, tt))

digit-nonzero : (d : ℕ) → digit d ≢ 0
unfolding digit
digit-nonzero d = ground arith

digits-NulFree : (places value base : ℕ) → NulFree (digits places value base)
unfolding digits
digits-NulFree zero value base = tt
digits-NulFree (suc places) value base = elim (Bool-cases (value == 0)) [
  | inl nil ↦ rw nil tt
  | inr more ↦ rw more (digit-nonzero (value % base), digits-NulFree places (value / base) base)
]

numeral-NulFree : (places value base : ℕ) → NulFree (numeral places value base)
unfolding numeral
numeral-NulFree places value base = elim (Bool-cases (value == 0)) [
  | inl nil ↦ rw nil (omega arith, tt)
  | inr more ↦
      rw more (NulFree-reverse (digits places value base) (digits-NulFree places value base))
]

c_text_lem : (text rest : List ℕ) → NulFree text → c_text (text ++ 0 ∷ rest) ≡ some text
unfolding c_text
c_text_lem [] rest h = refl
c_text_lem (c ∷ text) rest (h, hs) =
    let more : (c == 0) ≡ false = ground arith in rw (more, c_text_lem text rest hs)

print_string_lem :
    (s : Screen) (text rest : List ℕ)
    → NulFree text
    → print_string s (text ++ 0 ∷ rest) ≡ some (length text, vga_print s text)
unfolding print_string
print_string_lem s text rest h = rw (c_text_lem text rest h, strlen_lem text rest h)

map_twice :
    (c : ℕ) (o : Option (List ℕ))
    → Option.map suc (Option.map length o) ≡ Option.map length (Option.map (λ text. c ∷ text) o)
map_twice c none = refl
map_twice c (some text) = refl

-- `strlen` counts what `c_text` reads.
strlen-c_text : (str : List ℕ) → strlen str ≡ Option.map length (c_text str)
unfolding strlen c_text
strlen-c_text [] = refl
strlen-c_text (c ∷ str) = elim (Bool-cases (c == 0)) [
  | inl end ↦ rw end
  | inr more ↦ rw (more, strlen-c_text str) (map_twice c (c_text str))
]

c_text-null_string : c_text null_string ≡ some (b'(' ∷ b'n' ∷ b'u' ∷ b'l' ∷ b'l' ∷ b')' ∷ [])
unfolding c_text
c_text-null_string = refl

module _ (s : Screen) where
  -- What `printf` does for a text.
  abbrev pub done : List ℕ × List Arg → Converted
  done p = (length p.0, vga_print s p.0, p.1)

  print_string-c_text :
      (str : List ℕ)
      → print_string s str ≡ Option.map (λ text. (length text, vga_print s text)) (c_text str)
  unfolding print_string
  print_string-c_text str =
      rw (strlen-c_text str)
        (elim (Option-cases (c_text str)) [ inl e ↦ rw e | inr (text, e) ↦ rw e ])

  take_string-promise :
      (args : List Arg) → take_string s args ≡ Option.map done (string_promise args)
  take_string-promise [] = refl
  take_string-promise (word v ∷ args) = refl
  take_string-promise (null ∷ args) = rw (print_string-c_text null_string, c_text-null_string) refl
  take_string-promise (string str ∷ args) =
      rw (print_string-c_text str)
        (elim (Option-cases (c_text str)) [ inl e ↦ rw e | inr (text, e) ↦ rw e ])

  -- A way to print a word keeps the promise of a text.
  abbrev Keeps : (ℕ → Option (ℕ × Screen)) → (ℕ → Option (List ℕ)) → Type 0
  Keeps print text_of =
      (v : ℕ) (text : List ℕ)
      → v < 2 ^ 32
      → text_of v ≡ some text
      → print v ≡ some (length text, vga_print s text)

  take_word-promise :
      (print : ℕ → Option (ℕ × Screen)) (text_of : ℕ → Option (List ℕ)) (args : List Arg)
      (p : List ℕ × List Arg)
      → Keeps print text_of
      → word_promise text_of args ≡ some p
      → take_word print args ≡ some (done p)
  take_word-promise print text_of [] p keeps e = absurd (cc)
  take_word-promise print text_of (null ∷ args) p keeps e = absurd (cc)
  take_word-promise print text_of (string str ∷ args) p keeps e = absurd (cc)
  take_word-promise print text_of (word v ∷ args) p keeps e =
      elim (Option-cases (text_of (v % 2 ^ 32))) [
        | inl fails ↦ let e' = rw fails at e in absurd (cc)
        | inr (text, found) ↦
            rw (keeps (v % 2 ^ 32) text (omega arith) found) (ap (Option.map done) (rw found at e))
      ]

  module _ (buf : List ℕ) (size : length buf ≡ 32) where
    print_unsigned-Keeps : Keeps (print_unsigned buf s) (λ v. some (unsigned_text v))
    unfolding print_unsigned
    print_unsigned-Keeps v text small e =
        rw
          (uitoa-numeral v 10 10 buf (omega arith) (omega arith) (omega arith) (omega arith)
            (omega arith))
          (print_string_lem s (numeral 10 v 10) _ (numeral-NulFree 10 v 10)
            ∙ ap (Option.map (λ t. (length t, vga_print s t))) e)

    print_hex-Keeps : Keeps (print_hex buf s) (λ v. some (hex_text v))
    unfolding print_hex vga_print
    print_hex-Keeps v text small e =
        rw
          (
            uitoa-numeral v 16 8 buf (omega arith) (omega arith) (omega arith) (omega arith)
                (omega arith),
            print_string_lem (vga_print s (b'0' ∷ b'x' ∷ [])) (numeral 8 v 16)
                (drop (length (numeral 8 v 16) + 1) buf) (numeral-NulFree 8 v 16),
          )
          (ap (λ (n : ℕ). some (n, vga_print s (hex_text v))) (omega arith)
            ∙ ap (Option.map (λ t. (length t, vga_print s t))) e)

    print_int-Keeps : Keeps (print_int buf s) int_text
    unfolding print_int
    print_int-Keeps v text small e = elim (Bool-cases (ltb v (2 ^ 31))) [
      | inl low ↦
          rw
            (
              low,
              itoa-uitoa v 10 buf,
              uitoa-numeral v 10 10 buf (omega arith) (omega arith) (omega arith) (omega arith)
                  (omega arith),
            )
            (print_string_lem s (numeral 10 v 10) _ (numeral-NulFree 10 v 10)
              ∙ ap (Option.map (λ t. (length t, vga_print s t))) (rw low at e))
      | inr high ↦ elim (Bool-cases (v == 2 ^ 31)) [
        | inl least ↦ let e' = rw (high, least) at e in absurd (cc)
        | inr other ↦
            let n = 2 ^ 32 - 1 - v in
            let magnitude : n + 1 ≡ 2 ^ 32 - v = omega arith in
            let below : n + 1 < 2 ^ 31 = ground arith in
            rw (high, itoa-numeral n 10 buf below (omega arith) (omega arith) (omega arith))
              (print_string_lem s (b'-' ∷ numeral 10 (n + 1) 10) _
                  (omega arith, numeral-NulFree 10 (n + 1) 10)
                ∙ ap (Option.map (λ t. (length t, vga_print s t))) (
                    ap (λ (k : ℕ). some (b'-' ∷ numeral 10 k 10)) magnitude
                    ∙ rw (high, other) at e))
      ]
    ]

  print_char-Keeps : Keeps (print_char s) (λ v. some (v % 2 ^ 8 ∷ []))
  unfolding print_char vga_print
  print_char-Keeps v text small e = ap (Option.map (λ t. (length t, vga_print s t))) e

  -- Whatever a conversion promises, `printf` prints, counts and takes from the arguments.
  pub convert-promise :
      (buf : List ℕ) (c : ℕ) (args : List Arg) (p : List ℕ × List Arg)
      → length buf ≡ 32
      → promise c args ≡ some p
      → convert buf c args s ≡ some (done p)
  unfolding convert promise vga_print
  convert-promise buf c args p size e = elim (Bool-cases (c == b's')) [
    | inl t ↦ rw t (take_string-promise args ∙ ap (Option.map done) (rw t at e))
    | inr f0 ↦ elim (Bool-cases (c == b'c')) [
      | inl t ↦
          rw (f0, t) (take_word-promise (print_char s) _ args p print_char-Keeps (rw (f0, t) at e))
      | inr f1 ↦ elim (Bool-cases (c == b'd' || c == b'i')) [
        | inl t ↦
            rw (f0, f1, t)
              (take_word-promise (print_int buf s) _ args p (print_int-Keeps buf size)
                (rw (f0, f1, t) at e))
        | inr f2 ↦ elim (Bool-cases (c == b'u')) [
          | inl t ↦
              rw (f0, f1, f2, t)
                (take_word-promise (print_unsigned buf s) _ args p (print_unsigned-Keeps buf size)
                  (rw (f0, f1, f2, t) at e))
          | inr f3 ↦ elim (Bool-cases (c == b'x' || c == b'X')) [
            | inl t ↦
                rw (f0, f1, f2, f3, t)
                  (take_word-promise (print_hex buf s) _ args p (print_hex-Keeps buf size)
                    (rw (f0, f1, f2, f3, t) at e))
            | inr f4 ↦ elim (Bool-cases (c == b'%')) [
              | inl t ↦
                  rw (f0, f1, f2, f3, f4, t)
                    (ap (Option.map done) (rw (f0, f1, f2, f3, f4, t) at e))
              | inr f5 ↦ elim (Bool-cases (c == 0)) [
                | inl t ↦ let e' = rw (f0, f1, f2, f3, f4, f5, t) at e in absurd (cc)
                | inr f6 ↦
                    rw (f0, f1, f2, f3, f4, f5)
                      (ap (Option.map done) (rw (f0, f1, f2, f3, f4, f5, f6) at e))
              ]
            ]
          ]
        ]
      ]
    ]
  ]
