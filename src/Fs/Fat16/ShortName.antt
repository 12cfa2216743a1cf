-- ===== src/Fs/Fat16/ShortName.antt =====
-- `to_fat_name` of fs/fat16.c against the 8.3 form of a name.
use mathlib.Core.List.{append_assoc, append-nil}
use black_hole_os.Prelude.{
  ℕ, zero, suc, ◌+◌, ◌≡◌, ◌≢◌, refl, sym, ◌∙◌, ap, arith, List, [], ◌∷◌, ◌++◌, length,
  length-append, All, map, replicate, set, drop, ltb, ◌==◌, not, ◌&&◌, if◌then◌else◌, Bool-cases,
  true, false, inl, inr,
}
use black_hole_os.Fs.Fat16.Entries.{base_loop-append, extension-append, length-base_loop}
use black_hole_os.Fs.Fat16.Names.{upper, base_loop, extension_loop, extension, to_fat_name}

-- The characters before the first dot.
unfoldable pub before_dot : List ℕ → List ℕ
before_dot [] = []
before_dot (c ∷ name) = let rest = before_dot name in if c == b'.' then [] else c ∷ rest

-- The characters behind a dot, if one is among the first `n + 1`.
unfoldable pub behind_dot : ℕ → List ℕ → List ℕ
behind_dot n [] = []
behind_dot zero (c ∷ name) = if c == b'.' then name else []
behind_dot (suc n) (c ∷ name) = let rest = behind_dot n name in if c == b'.' then name else rest

-- A field of `n` bytes: cut there, and filled up with spaces.
unfoldable pub field_of : ℕ → List ℕ → List ℕ
field_of zero text = []
field_of (suc n) [] = b' ' ∷ field_of n []
field_of (suc n) (c ∷ text) = c ∷ field_of n text

-- The 8.3 form.
abbrev pub short_name : List ℕ → List ℕ
short_name name =
    field_of 8 (map upper (before_dot name)) ++ field_of 3 (map upper (behind_dot 8 name))

field_of-nil : (n : ℕ) → field_of n [] ≡ replicate n b' '
unfolding field_of
field_of-nil zero = refl
field_of-nil (suc n) = ap (λ (l : List ℕ). b' ' ∷ l) (field_of-nil n)

set-middle :
    (done rest : List ℕ) (x v : ℕ)
    → set (done ++ x ∷ rest) (length done) v ≡ (done ++ v ∷ []) ++ rest
set-middle [] rest x v = refl
set-middle (d ∷ done) rest x v = ap (λ (l : List ℕ). d ∷ l) (set-middle done rest x v)

extension_loop_lem :
    (name done : List ℕ) (n : ℕ)
    → All (λ c. c ≢ 0) name
    → length done + n ≡ 11
    → extension_loop name (length done) (done ++ replicate n b' ')
      ≡ done ++ field_of n (map upper name)
unfolding extension_loop field_of
extension_loop_lem [] done n h size = ap (λ (l : List ℕ). done ++ l) (sym (field_of-nil n))
extension_loop_lem (c ∷ name) done zero h size =
    let full : (not (c == 0) && ltb (length done) 11) ≡ false = ground (arith, h.0) in rw full refl
extension_loop_lem (c ∷ name) done (suc n) (hc, h) size =
    let more : (not (c == 0) && ltb (length done) 11) ≡ true = ground (arith, hc) in
    let longer : length (done ++ upper c ∷ []) ≡ suc (length done) =
      omega (arith, length-append done (upper c ∷ [])) in
    let next = extension_loop_lem name (done ++ upper c ∷ []) n h (omega (arith, longer)) in
    rw (more, set-middle done (replicate n b' ') b' ' (upper c))
      (rw longer at next ∙ append_assoc done (upper c ∷ []) (field_of n (map upper name)))

replicate-add :
    (n : ℕ) → replicate {A = ℕ} (n + 3) b' ' ≡ replicate {A = ℕ} n b' ' ++ replicate {A = ℕ} 3 b' '
replicate-add zero = refl
replicate-add (suc n) =
    let step : suc n + 3 ≡ suc (n + 3) = omega arith in
    rw step (ap (λ (l : List ℕ). b' ' ∷ l) (replicate-add n))

length-replicate_spaces : (n : ℕ) → length {A = ℕ} (replicate {A = ℕ} n b' ') ≡ n
length-replicate_spaces zero = refl
length-replicate_spaces (suc n) = ap suc (length-replicate_spaces n)

-- At a dot, the spaces of the first field stay.
at_dot :
    (name done : List ℕ) (n : ℕ)
    → All (λ c. c ≢ 0) name
    → length done + n ≡ 8
    → extension_loop name 8 (done ++ replicate {A = ℕ} (n + 3) b' ')
      ≡ (done ++ field_of n []) ++ field_of 3 (map upper name)
at_dot name done n h size =
    let padded = done ++ replicate {A = ℕ} n b' ' in
    let eight : length padded ≡ 8 =
      omega (arith, length-append done (replicate {A = ℕ} n b' '), length-replicate_spaces n) in
    let run = extension_loop_lem name padded 3 h (omega (arith, eight)) in
    ap (λ (l : List ℕ). extension_loop name 8 (done ++ l)) (replicate-add n)
    ∙ ap (extension_loop name 8)
        (sym (append_assoc done (replicate {A = ℕ} n b' ') (replicate {A = ℕ} 3 b' ')))
    ∙ rw eight at run
    ∙ ap (λ (l : List ℕ). (done ++ l) ++ field_of 3 (map upper name)) (sym (field_of-nil n))

base_loop_lem :
    (name done : List ℕ) (n : ℕ)
    → All (λ c. c ≢ 0) name
    → length done + n ≡ 8
    → extension (base_loop name (length done) (done ++ replicate {A = ℕ} (n + 3) b' '))
      ≡ (done ++ field_of n (map upper (before_dot name)))
        ++ field_of 3 (map upper (behind_dot n name))
unfolding base_loop field_of before_dot behind_dot
base_loop_lem [] done n h size =
    ap (λ (l : List ℕ). done ++ l) (replicate-add n)
    ∙ sym (append_assoc done (replicate {A = ℕ} n b' ') (replicate {A = ℕ} 3 b' '))
    ∙ ap (λ (l : List ℕ). (done ++ l) ++ replicate {A = ℕ} 3 b' ') (sym (field_of-nil n))
base_loop_lem (c ∷ name) done zero (hc, h) size =
    let full : (not (c == 0) && not (c == b'.') && ltb (length done) 8) ≡ false = ground arith in
    elim (Bool-cases (c == b'.')) [
      | inl dot ↦ rw (full, dot) (at_dot name done 0 h size)
      | inr other ↦
          rw (full, other)
            (ap (λ (l : List ℕ). l ++ replicate {A = ℕ} 3 b' ') (sym (append-nil done)))
    ]
base_loop_lem (c ∷ name) done (suc n) (hc, h) size = elim (Bool-cases (c == b'.')) [
  | inl dot ↦
      let ends : (not (c == 0) && not (c == b'.') && ltb (length done) 8) ≡ false =
        rw dot (ground arith) in
      rw (ends, dot) (at_dot name done (suc n) h size)
  | inr other ↦
      let more : (not (c == 0) && not (c == b'.') && ltb (length done) 8) ≡ true =
        ground (arith, hc, other) in
      let step : suc n + 3 ≡ suc (n + 3) = omega arith in
      let longer : length (done ++ upper c ∷ []) ≡ suc (length done) =
        omega (arith, length-append done (upper c ∷ [])) in
      let next = base_loop_lem name (done ++ upper c ∷ []) n h (omega (arith, longer)) in
      rw (step, more, other, set-middle done (replicate {A = ℕ} (n + 3) b' ') b' ' (upper c))
        (rw longer at next
          ∙ ap (λ (l : List ℕ). l ++ field_of 3 (map upper (behind_dot n name)))
              (append_assoc done (upper c ∷ []) (field_of n (map upper (before_dot name)))))
]

-- A name without a NUL becomes its 8.3 form in upper case: the first eight characters before the
-- first dot, filled up with spaces, and three characters behind the dot, likewise; but if the first
-- nine characters have no dot, there are three spaces. The bytes behind the eleven stay as they
-- were.
pub to_fat_name-short_name :
    (name fat_name : List ℕ)
    → All (λ c. c ≢ 0) name
    → to_fat_name name fat_name ≡ short_name name ++ drop 11 fat_name
unfolding to_fat_name
to_fat_name-short_name name fat_name h =
    let blank = replicate {A = ℕ} 11 b' ' in
    let based = base_loop name 0 blank in
    ap extension (base_loop-append name blank (drop 11 fat_name) 0 refl)
    ∙ extension-append based.0 based.1 (drop 11 fat_name) (length-base_loop name blank 0)
    ∙ ap (λ (l : List ℕ). l ++ drop 11 fat_name) (base_loop_lem name [] 8 h refl)
