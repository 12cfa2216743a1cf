-- ===== src/Libc/Strings/Reverse.antt =====
-- `reverse` of libc/string.c turns the first bytes of an object round in place.
use mathlib.Core.List
use mathlib.Core.List.{reverse-append}
use black_hole_os.Prelude.{
  ℕ, zero, suc, ◌+◌, ◌-◌, ◌*◌, ◌%◌, ◌^◌, ◌<◌, ◌≡◌, refl, ap, sym, ◌∙◌, arith, List, [], ◌∷◌, ◌++◌,
  length, length-append, length-set, set, get_or, get_or-set_self, get_or-set_ne, get_or_ext, ltb,
  leb, ◌==◌, ◌&&◌, if◌then◌else◌, Bool-cases, inl, inr, true, false,
}
use black_hole_os.Libc.Strings.{reverse_loop, reverse}

get_or-set :
    (xs : List ℕ) (i j v : ℕ)
    → i < length xs
    → get_or (set xs i v) j 0 ≡ (if j == i then v else get_or xs j 0)
get_or-set xs i j v h = elim (Bool-cases (j == i)) [
  | inl same ↦ let e : j ≡ i = ground arith in rw (same, e) (get_or-set_self xs i v 0 h)
  | inr other ↦ rw other (get_or-set_ne xs i j v 0 (ground arith))
]

module _ (start end : ℕ) (str : List ℕ) (fits : end < length str) (inwards : start < end) where
  -- One round of the loop.
  abbrev swapped : List ℕ
  swapped = set (set str start (get_or str end 0)) end (get_or str start 0)

  get_or-swapped :
      (i : ℕ)
      → get_or swapped i 0 ≡ (
          if i == end
          then get_or str start 0
          else if i == start
          then get_or str end 0
          else get_or str i 0)
  get_or-swapped i =
      get_or-set (set str start (get_or str end 0)) end i (get_or str start 0)
        (omega (arith, length-set str start (get_or str end 0)))
      ∙ ap (λ (v : ℕ). if i == end then get_or str start 0 else v)
          (get_or-set str start i (get_or str end 0) (omega arith))

  length-swapped : length swapped ≡ length str
  length-swapped =
      length-set (set str start (get_or str end 0)) end (get_or str start 0)
      ∙ length-set str start (get_or str end 0)

  -- Turning the inner bytes of the swapped object round turns the outer ones round too.
  mirror_swapped :
      (i : ℕ)
      → (if leb (start + 1) i && leb i (end - 1)
          then get_or swapped (start + 1 + (end - 1) - i) 0
          else get_or swapped i 0)
        ≡ (if leb start i && leb i end then get_or str (start + end - i) 0 else get_or str i 0)
  mirror_swapped i =
      let j = start + end - i in
      let inner : start + 1 + (end - 1) - i ≡ j = omega arith in
      rw inner (elim (Bool-cases (i == start)) [
        | inl first ↦
            let at : j ≡ end = ground arith in
            ground (arith, get_or-swapped i, ap (λ (k : ℕ). get_or str k 0) at)
        | inr not_first ↦ elim (Bool-cases (i == end)) [
          | inl last ↦
              let at : j ≡ start = ground arith in
              ground (arith, get_or-swapped i, ap (λ (k : ℕ). get_or str k 0) at)
          | inr not_last ↦ ground (arith, get_or-swapped i, get_or-swapped j)
        ]
      ])

-- The loop turns the bytes from `start` to `end` round, if the fuel allows half of their number.
get_or-reverse_loop :
    (fuel start end : ℕ) (str : List ℕ) (i : ℕ)
    → end < length str
    → end < start + 2 * fuel
    → get_or (reverse_loop fuel start end str) i 0
      ≡ (if leb start i && leb i end then get_or str (start + end - i) 0 else get_or str i 0)
unfolding reverse_loop
get_or-reverse_loop zero start end str i fits enough = ground arith
get_or-reverse_loop (suc fuel) start end str i fits enough = elim (Bool-cases (ltb start end)) [
  | inl more ↦ rw more (
      get_or-reverse_loop fuel (start + 1) (end - 1) (swapped start end str fits (ground arith)) i
        (omega (arith, length-swapped start end str fits (ground arith))) (omega arith)
      ∙ mirror_swapped start end str fits (ground arith) i)
  | inr done ↦ elim (Bool-cases (leb start i && leb i end)) [
    | inl inside ↦ rw (done, inside) (ap (λ (k : ℕ). get_or str k 0) (ground arith))
    | inr outside ↦ rw (done, outside)
  ]
]

length-reverse_loop :
    (fuel start end : ℕ) (str : List ℕ)
    → end < length str
    → length (reverse_loop fuel start end str) ≡ length str
unfolding reverse_loop
length-reverse_loop zero start end str fits = refl
length-reverse_loop (suc fuel) start end str fits = elim (Bool-cases (ltb start end)) [
  | inl more ↦ rw more (
      length-reverse_loop fuel (start + 1) (end - 1) (swapped start end str fits (ground arith))
        (omega (arith, length-swapped start end str fits (ground arith)))
      ∙ length-swapped start end str fits (ground arith))
  | inr done ↦ rw done
]

get_or-append :
    (xs ys : List ℕ) (i : ℕ)
    → get_or (xs ++ ys) i 0
      ≡ (if ltb i (length xs) then get_or xs i 0 else get_or ys (i - length xs) 0)
get_or-append [] ys i = ground arith
get_or-append (x ∷ xs) ys zero = ground arith
get_or-append (x ∷ xs) ys (suc i) = get_or-append xs ys i ∙ ground arith

pub length-reverse : (xs : List ℕ) → length (List.reverse xs) ≡ length xs
length-reverse [] = refl
length-reverse (x ∷ xs) =
    ap length (reverse-append (x ∷ []) xs)
    ∙ length-append (List.reverse xs) (x ∷ [])
    ∙ omega (arith, length-reverse xs)

get_or-reverse :
    (xs : List ℕ) (i : ℕ)
    → i < length xs
    → get_or (List.reverse xs) i 0 ≡ get_or xs (length xs - 1 - i) 0
get_or-reverse [] i h = absurd (omega arith)
get_or-reverse (x ∷ xs) i h =
    ap (λ (l : List ℕ). get_or l i 0) (reverse-append (x ∷ []) xs)
    ∙ get_or-append (List.reverse xs) (x ∷ []) i
    ∙ elim (Bool-cases (ltb i (length (List.reverse xs)))) [
      | inl before ↦
          let inside : i < length xs = ground (arith, length-reverse xs) in
          let at : suc (length xs) - 1 - i ≡ suc (length xs - 1 - i) = omega arith in
          rw (before, at) (get_or-reverse xs i inside)
      | inr last ↦
          let start : i - length (List.reverse xs) ≡ 0 = ground (arith, length-reverse xs) in
          let at : suc (length xs) - 1 - i ≡ 0 = ground (arith, length-reverse xs) in
          rw (last, start, at)
    ]

mirror :
    (text rest : List ℕ) (i : ℕ)
    → 0 < length text
    → (if leb 0 i && leb i (length text - 1)
        then get_or (text ++ rest) (0 + (length text - 1) - i) 0
        else get_or (text ++ rest) i 0)
      ≡ get_or (List.reverse text ++ rest) i 0
mirror text rest i pos =
    let len = length-reverse text in
    elim (Bool-cases (ltb i (length text))) [
      | inl inside ↦
          let index : 0 + (length text - 1) - i ≡ length text - 1 - i = omega arith in
          let there : ltb (length text - 1 - i) (length text) ≡ true = ground arith in
          let here : ltb i (length (List.reverse text)) ≡ true = ground arith in
          let test : (leb 0 i && leb i (length text - 1)) ≡ true = ground arith in
          rw
            (
              test,
              index,
              get_or-append text rest (length text - 1 - i),
              there,
              get_or-append (List.reverse text) rest i,
              here,
            )
            (sym (get_or-reverse text i (ground arith)))
      | inr outside ↦
          let test : (leb 0 i && leb i (length text - 1)) ≡ false = ground arith in
          let here : ltb i (length (List.reverse text)) ≡ false = ground arith in
          rw (
            test,
            get_or-append text rest i,
            outside,
            get_or-append (List.reverse text) rest i,
            here,
            len,
          )
    ]

-- `reverse` turns the first `len` bytes of an object round, and leaves the others.
pub reverse_lem :
    (text rest : List ℕ)
    → 0 < length text
    → length text < 2 ^ 32
    → reverse (text ++ rest) (length text) ≡ List.reverse text ++ rest
unfolding reverse
reverse_lem text rest pos small =
    let n = length text in
    let end : (n + 2 ^ 32 - 1) % 2 ^ 32 ≡ n - 1 = omega arith in
    let fits : n - 1 < length (text ++ rest) = omega (arith, length-append text rest) in
    rw end (
      get_or_ext 0 _ _
        (length-reverse_loop n 0 (n - 1) (text ++ rest) fits
          ∙ length-append text rest
          ∙ omega (arith, length-reverse text, length-append (List.reverse text) rest))
        (λ i h.
          get_or-reverse_loop n 0 (n - 1) (text ++ rest) i fits (omega arith)
          ∙ mirror text rest i pos))
