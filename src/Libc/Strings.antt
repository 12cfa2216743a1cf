-- ===== src/Libc/Strings.antt =====
-- libc/string.c. A pointer is the list of the bytes from it to the end of its object, and `none` is
-- an access past that end. A function that writes through a pointer returns the bytes afterwards.
-- Two pointers point into different objects.
pub mod Memory
pub mod CString
pub mod Reverse
pub mod Digits
pub mod Numerals
mod Tests
use mathlib.Core.Option
use black_hole_os.Prelude.{
  ℕ, zero, suc, ◌+◌, ◌-◌, ◌*◌, ◌/◌, ◌%◌, ◌^◌, Bool, true, false, not, ◌&&◌, ◌>>=◌, Option, none,
  some, List, [], ◌∷◌, ltb, ◌==◌, if◌then◌else◌, get_or, set, length,
}
use black_hole_os.Prelude.Int.{ℤ, pos, negsuc, sub_ℕ}

unfoldable pub memset : List ℕ → ℕ → ℕ → Option (List ℕ)
memset dst c zero = some dst
memset [] c (suc n) = none
memset (x ∷ dst) c (suc n) = Option.map (λ out. (c % 2 ^ 8) ∷ out) (memset dst c n)

unfoldable pub memcpy : List ℕ → List ℕ → ℕ → Option (List ℕ)
memcpy dst src zero = some dst
memcpy [] src (suc n) = none
memcpy (x ∷ dst) [] (suc n) = none
memcpy (x ∷ dst) (y ∷ src) (suc n) = Option.map (λ out. y ∷ out) (memcpy dst src n)

unfoldable pub strlen : List ℕ → Option ℕ
strlen [] = none
strlen (c ∷ str) = let rest = strlen str in if c == 0 then some 0 else Option.map suc rest

unfoldable pub strcmp : List ℕ → List ℕ → Option ℤ
strcmp [] s2 = none
strcmp (a ∷ s1) [] = none
strcmp (a ∷ s1) (b ∷ s2) =
    let rest = strcmp s1 s2 in if not (a == 0) && a == b then rest else some (sub_ℕ a b)

unfoldable pub strncmp : List ℕ → List ℕ → ℕ → Option ℤ
strncmp s1 s2 zero = some (pos 0)
strncmp [] s2 (suc n) = none
strncmp (a ∷ s1) [] (suc n) = none
strncmp (a ∷ s1) (b ∷ s2) (suc n) =
    let rest = strncmp s1 s2 n in if not (a == 0) && a == b then rest else some (sub_ℕ a b)

unfoldable pub strcpy : List ℕ → List ℕ → Option (List ℕ)
strcpy [] src = none
strcpy (x ∷ dest) [] = none
strcpy (x ∷ dest) (c ∷ src) =
    let rest = strcpy dest src in
    if c == 0 then some (0 ∷ dest) else Option.map (λ out. c ∷ out) rest

-- The loop of `reverse`, from `start` and `end` inwards.
unfoldable pub reverse_loop : ℕ → ℕ → ℕ → List ℕ → List ℕ
reverse_loop zero start end str = str
reverse_loop (suc fuel) start end str =
    let temp = get_or str start 0 in
    let str1 = set str start (get_or str end 0) in
    let rest = reverse_loop fuel (start + 1) (end - 1) (set str1 end temp) in
    if ltb start end then rest else str

-- `len - 1` wraps for a length of 0, with which no caller calls.
unfoldable pub reverse : List ℕ → ℕ → List ℕ
reverse str len = reverse_loop len 0 ((len + 2 ^ 32 - 1) % 2 ^ 32) str

-- `str[i] = c`
unfoldable pub put : List ℕ → ℕ → ℕ → Option (List ℕ)
put str i c = if ltb i (length str) then some (set str i c) else none

-- The character of a remainder.
unfoldable pub digit : ℕ → ℕ
digit rem = if ltb 9 rem then rem - 10 + b'a' else rem + b'0'

-- The loop of `uitoa`, which has at most 32 rounds on a 32-bit value; it returns `i` and the bytes.
-- The base is the word that the `int` is converted to; a division by 0 is a fault.
unfoldable pub uitoa_loop : ℕ → ℕ → ℕ → ℕ → List ℕ → Option (ℕ × List ℕ)
uitoa_loop zero value base i str = none
uitoa_loop (suc fuel) value base i str =
    let step : Option (ℕ × List ℕ) = (do
      str1 ← put str i (digit (value % base))
      uitoa_loop fuel (value / base) base (i + 1) str1) in
    if value == 0 then some (i, str) else if base == 0 then none else step

abbrev pub max_rounds : ℕ
max_rounds = 33

-- `str[i] = '\0'; reverse(str, i);`
unfoldable pub finish : ℕ × List ℕ → Option (List ℕ)
finish (i, str) = do str1 ← put str i 0; some (reverse str1 i)

-- The string "0".
unfoldable pub put_zero : List ℕ → Option (List ℕ)
put_zero str = do str1 ← put str 0 b'0'; put str1 1 0

unfoldable pub uitoa : ℕ → List ℕ → ℕ → Option (List ℕ)
uitoa value str base =
    if value == 0
    then put_zero str
    else (do out ← uitoa_loop max_rounds value base 0 str; finish out)

abbrev pub negate : ℕ → ℤ
negate zero = pos 0
negate (suc n) = negsuc n

-- Quotient and remainder of two `int`s in C, which truncate towards 0. `none` is the fault of a
-- division by 0, or of the least `int` by -1.
abbrev pub divide : ℤ → ℤ → Option (ℤ × ℤ)
divide (pos n) (pos base) = if base == 0 then none else some (pos (n / base), pos (n % base))
divide (pos n) (negsuc b) = some (negate (n / (b + 1)), pos (n % (b + 1)))
divide (negsuc n) (pos base) =
    if base == 0 then none else some (negate ((n + 1) / base), negate ((n + 1) % base))
divide (negsuc n) (negsuc b) =
    if n + 1 == 2 ^ 31 && b == 0
    then none
    else some (pos ((n + 1) / (b + 1)), negate ((n + 1) % (b + 1)))

-- The `char` that `itoa` stores for a remainder.
abbrev pub rem_char : ℤ → ℕ
rem_char (pos r) = digit r
rem_char (negsuc r) = (b'0' + 2 ^ 8 - (r + 1)) % 2 ^ 8

abbrev pub is_zero : ℤ → Bool
is_zero (pos n) = n == 0
is_zero (negsuc n) = false

abbrev pub is_below_zero : ℤ → Bool
is_below_zero (pos n) = false
is_below_zero (negsuc n) = true

-- `-value` in 32 bits. The least `int` has no negation: C leaves it undefined, and the machine
-- gives the same value back.
abbrev pub negate_int : ℤ → ℤ
negate_int (pos n) = negate n
negate_int (negsuc n) = if n + 1 == 2 ^ 31 then negsuc n else pos (n + 1)

abbrev pub is_ten : ℤ → Bool
is_ten (pos n) = n == 10
is_ten (negsuc n) = false

unfoldable pub itoa_loop : ℕ → ℤ → ℤ → ℕ → List ℕ → Option (ℕ × List ℕ)
itoa_loop zero value base i str = none
itoa_loop (suc fuel) value base i str =
    let step : Option (ℕ × List ℕ) = (do
      parts ← divide value base
      str1 ← put str i (rem_char parts.1)
      itoa_loop fuel parts.0 base (i + 1) str1) in
    if is_zero value then some (i, str) else step

-- `str[i++] = '-'`
unfoldable pub put_sign : ℕ × List ℕ → Option (ℕ × List ℕ)
put_sign (i, str) = do str1 ← put str i b'-'; some (i + 1, str1)

unfoldable pub itoa : ℤ → List ℕ → ℤ → Option (List ℕ)
itoa value str base =
    if is_zero value
    then put_zero str
    else if is_below_zero value && is_ten base
    then (do
      digits ← itoa_loop max_rounds (negate_int value) base 0 str
      signed ← put_sign digits
      finish signed)
    else (do digits ← itoa_loop max_rounds value base 0 str; finish digits)
