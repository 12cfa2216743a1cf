-- ===== src/Fs/Fat16/Pouring.antt =====
-- Copying bytes to a buffer piece by piece, as `fat16_read_file` of fs/fat16.c does.
use mathlib.Core.List.{append_assoc, append-nil}
use black_hole_os.Prelude.{
  ℕ, zero, suc, ◌+◌, ◌-◌, ◌≤◌, ◌≡◌, refl, sym, ◌∙◌, ap, ap₂, arith, List, [], ◌∷◌, ◌++◌, length,
  length-append, take, drop, min, some,
}
use black_hole_os.Libc.Strings.Memory.{memcpy_lem}
use black_hole_os.Fs.Fat16.Files.{memcpy_at}

-- How much of some bytes fits in the room that is left.
abbrev pub fits : ℕ → List ℕ → ℕ
fits room bytes = min room (length bytes)

drop-nil : (n : ℕ) → drop {A = ℕ} n [] ≡ []
drop-nil zero = refl
drop-nil (suc n) = refl

pub drop-drop : (m n : ℕ) (xs : List ℕ) → drop n (drop m xs) ≡ drop (m + n) xs
drop-drop zero n xs = ap (λ (k : ℕ). drop k xs) {x = n} {y = 0 + n} (omega arith)
drop-drop (suc m) n [] = drop-nil n ∙ sym (drop-nil (suc m + n))
drop-drop (suc m) n (x ∷ xs) =
    drop-drop m n xs
    ∙ ap (λ (k : ℕ). drop k (x ∷ xs)) {x = suc (m + n)} {y = suc m + n} (omega arith)

pub length-drop : (n : ℕ) (xs : List ℕ) → length (drop n xs) ≡ length xs - n
length-drop zero xs = omega arith
length-drop (suc n) [] = omega arith
length-drop (suc n) (x ∷ xs) = omega (arith, length-drop n xs)

pub length-take : (n : ℕ) (xs : List ℕ) → n ≤ length xs → length (take n xs) ≡ n
length-take zero xs few = refl
length-take (suc n) [] few = absurd (omega arith)
length-take (suc n) (x ∷ xs) few = ap suc (length-take n xs (omega arith))

pub take-append :
    (room : ℕ) (xs ys : List ℕ) → take room (xs ++ ys) ≡ take room xs ++ take (room - length xs) ys
take-append zero [] ys = refl
take-append zero (x ∷ xs) ys =
    ap (λ (k : ℕ). take k ys) {x = 0} {y = 0 - suc (length xs)} (omega arith)
take-append (suc room) [] ys =
    ap (λ (k : ℕ). take k ys) {x = suc room} {y = suc room - 0} (omega arith)
take-append (suc room) (x ∷ xs) ys =
    ap (λ (l : List ℕ). x ∷ l)
      (take-append room xs ys
        ∙ ap (λ (k : ℕ). take room xs ++ take k ys) {x = room - length xs}
            {y = suc room - suc (length xs)} (omega arith))

pub take-nil : (n : ℕ) → take {A = ℕ} n [] ≡ []
take-nil zero = refl
take-nil (suc n) = refl

pub take-fits : (room : ℕ) (xs : List ℕ) → take (fits room xs) xs ≡ take room xs
take-fits room [] = take-nil (min room 0) ∙ sym (take-nil room)
take-fits zero (x ∷ xs) =
    ap (λ (k : ℕ). take k (x ∷ xs)) {x = fits 0 (x ∷ xs)} {y = 0} (omega arith)
take-fits (suc room) (x ∷ xs) =
    ap (λ (k : ℕ). take k (x ∷ xs)) {x = fits (suc room) (x ∷ xs)} {y = suc (fits room xs)}
      (omega arith)
    ∙ ap (λ (l : List ℕ). x ∷ l) (take-fits room xs)

-- Filling a room with some bytes and then with more is filling it with both.
pub fits-append :
    (room : ℕ) (xs ys : List ℕ)
    → fits room (xs ++ ys) ≡ fits room xs + fits (room - fits room xs) ys
fits-append room xs ys = omega (arith, length-append xs ys)

pub memcpy_at-fits :
    (front rest src : List ℕ) (room : ℕ)
    → room ≤ length rest
    → memcpy_at (front ++ rest) (length front) src (fits room src)
      ≡ some ((front ++ take room src) ++ drop (fits room src) rest)
memcpy_at-fits front rest src room enough =
    rw
      (
        take-front front rest,
        drop-front front rest,
        memcpy_lem rest src (fits room src) (omega arith) (omega arith),
      )
      (ap some (
        ap (λ (l : List ℕ). front ++ (l ++ drop (fits room src) rest)) (take-fits room src)
        ∙ sym (append_assoc front (take room src) (drop (fits room src) rest))))
  where
    take-front : (xs ys : List ℕ) → take (length xs) (xs ++ ys) ≡ xs
    take-front [] ys = refl
    take-front (x ∷ xs) ys = ap (λ (l : List ℕ). x ∷ l) (take-front xs ys)

    drop-front : (xs ys : List ℕ) → drop (length xs) (xs ++ ys) ≡ ys
    drop-front [] ys = refl
    drop-front (x ∷ xs) ys = drop-front xs ys

-- What a loop has done when some bytes have gone to the buffer at `b`, with room up to `limit`.
abbrev pub poured : ℕ → ℕ → List ℕ → List ℕ → List ℕ → ℕ × List ℕ
poured limit b front rest bytes = (
  b + fits (limit - b) bytes,
  (front ++ take (limit - b) bytes) ++ drop (fits (limit - b) bytes) rest,
)

pub poured-append :
    (limit b : ℕ) (front rest xs ys : List ℕ)
    → poured limit
        (b + fits (limit - b) xs)
        (front ++ take (limit - b) xs)
        (drop (fits (limit - b) xs) rest)
        ys
      ≡ poured limit b front rest (xs ++ ys)
poured-append limit b front rest xs ys =
    let room = limit - b in
    let k = fits room xs in
    let left : limit - (b + k) ≡ room - k = omega arith in
    let both : b + k + fits (room - k) ys ≡ b + fits room (xs ++ ys) =
      omega (arith, fits-append room xs ys) in
    let over : take (room - k) ys ≡ take (room - length xs) ys =
      ap (λ (n : ℕ). take n ys) {x = room - k} {y = room - length xs} (omega arith) in
    rw left (
      ap₂ (λ (n : ℕ) (l : List ℕ). (n, l)) both
        (ap₂ (λ (l r : List ℕ). l ++ r)
          (append_assoc front (take room xs) (take (room - k) ys)
            ∙ ap (λ (l : List ℕ). front ++ l)
                (ap (λ (l : List ℕ). take room xs ++ l) over ∙ sym (take-append room xs ys)))
          (drop-drop k (fits (room - k) ys) rest
            ∙ ap (λ (n : ℕ). drop n rest) {x = k + fits (room - k) ys} {y = fits room (xs ++ ys)}
                (omega (arith, fits-append room xs ys)))))

pub poured-none :
    (limit b : ℕ) (front rest bytes : List ℕ)
    → limit ≤ b
    → poured limit b front rest bytes ≡ (b, front ++ rest)
poured-none limit b front rest bytes full =
    let none_left : limit - b ≡ 0 = omega arith in
    let no_bytes : min 0 (length bytes) ≡ 0 = omega arith in
    rw (none_left, no_bytes)
      (ap₂ (λ (n : ℕ) (l : List ℕ). (n, l ++ rest)) {x = b + 0} {y = b} (omega arith)
        (append-nil front))

pub poured-nil :
    (limit b : ℕ) (front rest : List ℕ) → poured limit b front rest [] ≡ (b, front ++ rest)
poured-nil limit b front rest =
    let no_bytes : min (limit - b) 0 ≡ 0 = omega arith in
    rw (no_bytes, take-nil (limit - b))
      (ap₂ (λ (n : ℕ) (l : List ℕ). (n, l ++ rest)) {x = b + 0} {y = b} (omega arith)
        (append-nil front))

-- The room that a buffer has, and what is left of it behind some bytes.
pub record HasRoom (limit b : ℕ) (front rest : List ℕ) : Type 0 where
  pub at_front : length front ≡ b
  pub not_over : b ≤ limit
  pub room : limit - b ≤ length rest

pub HasRoom-poured :
    (limit b : ℕ) (front rest bytes : List ℕ)
    → HasRoom limit b front rest
    → HasRoom limit
        (b + fits (limit - b) bytes)
        (front ++ take (limit - b) bytes)
        (drop (fits (limit - b) bytes) rest)
HasRoom-poured limit b front rest bytes has =
    let k = fits (limit - b) bytes in
    let taken : length (take (limit - b) bytes) ≡ k =
      ap length (sym (take-fits (limit - b) bytes)) ∙ length-take k bytes (omega arith) in
    record {
      at_front = omega (arith, length-append front (take (limit - b) bytes), taken, has.at_front);
      not_over = omega (arith, has.not_over);
      room = omega (arith, length-drop k rest, has.room);
    }
