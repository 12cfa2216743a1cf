-- ===== src/Fs/Fat16/Entries.antt =====
-- The directory entry that fs/fat16.c writes, read back.
use black_hole_os.Prelude.{
  ℕ, zero, suc, ◌+◌, ◌/◌, ◌%◌, ◌^◌, ◌<◌, ◌≡◌, refl, ◌∙◌, ap, arith, List, [], ◌∷◌, ◌++◌, length,
  length-append, length-set, get_or, set, get_or-set_ne, replicate, ltb, ◌==◌, not, ◌&&◌,
  Bool-cases, inl, inr,
}
use black_hole_os.Fs.Fat16.Volume.{word_at, set_word, dword_at, set_dword}
use black_hole_os.Fs.Fat16.Names.{upper, base_loop, extension_loop, extension, to_fat_name}
use black_hole_os.Fs.Fat16.Root.{new_entry, name_byte, first_cluster_lo, file_size}
use black_hole_os.Fs.Fat16.Sectors.{
  length-set_word, get_or-set_word, word_at-set_word, word_at-set_word_ne,
}

set-append : (xs ys : List ℕ) (i v : ℕ) → i < length xs → set (xs ++ ys) i v ≡ set xs i v ++ ys
set-append [] ys i v inside = absurd (omega arith)
set-append (x ∷ xs) ys zero v inside = refl
set-append (x ∷ xs) ys (suc i) v inside =
    ap (λ (l : List ℕ). x ∷ l) (set-append xs ys i v (omega arith))

pub get_or-append :
    (xs ys : List ℕ) (i d : ℕ) → i < length xs → get_or (xs ++ ys) i d ≡ get_or xs i d
get_or-append [] ys i d inside = absurd (omega arith)
get_or-append (x ∷ xs) ys zero d inside = refl
get_or-append (x ∷ xs) ys (suc i) d inside = get_or-append xs ys i d (omega arith)

-- The loops write to the eleven bytes only.
pub base_loop-append :
    (input name rest : List ℕ) (j : ℕ)
    → length name ≡ 11
    → base_loop input j (name ++ rest)
      ≡ ((base_loop input j name).0, (base_loop input j name).1 ++ rest)
unfolding base_loop
base_loop-append [] name rest j size = refl
base_loop-append (c ∷ input) name rest j size =
    elim (Bool-cases (not (c == 0) && not (c == b'.') && ltb j 8)) [
      | inr done ↦ rw done refl
      | inl more ↦
          let low : j < 8 = ground arith in
          rw (more, set-append name rest j (upper c) (omega arith))
            (base_loop-append input (set name j (upper c)) rest (suc j)
              (length-set name j (upper c) ∙ size))
    ]

extension_loop-append :
    (input name rest : List ℕ) (j : ℕ)
    → length name ≡ 11
    → extension_loop input j (name ++ rest) ≡ extension_loop input j name ++ rest
unfolding extension_loop
extension_loop-append [] name rest j size = refl
extension_loop-append (c ∷ input) name rest j size = elim (Bool-cases (not (c == 0) && ltb j 11)) [
  | inr done ↦ rw done refl
  | inl more ↦
      let low : j < 11 = ground arith in
      rw (more, set-append name rest j (upper c) (omega arith))
        (extension_loop-append input (set name j (upper c)) rest (suc j)
          (length-set name j (upper c) ∙ size))
]

pub length-base_loop :
    (input name : List ℕ) (j : ℕ) → length (base_loop input j name).1 ≡ length name
unfolding base_loop
length-base_loop [] name j = refl
length-base_loop (c ∷ input) name j =
    elim (Bool-cases (not (c == 0) && not (c == b'.') && ltb j 8)) [
      | inr done ↦ rw done refl
      | inl more ↦
          rw more
            (length-base_loop input (set name j (upper c)) (suc j) ∙ length-set name j (upper c))
    ]

length-extension_loop :
    (input name : List ℕ) (j : ℕ) → length (extension_loop input j name) ≡ length name
unfolding extension_loop
length-extension_loop [] name j = refl
length-extension_loop (c ∷ input) name j = elim (Bool-cases (not (c == 0) && ltb j 11)) [
  | inr done ↦ rw done refl
  | inl more ↦
      rw more
        (length-extension_loop input (set name j (upper c)) (suc j) ∙ length-set name j (upper c))
]

pub extension-append :
    (input name rest : List ℕ)
    → length name ≡ 11
    → extension (input, name ++ rest) ≡ extension (input, name) ++ rest
extension-append [] name rest size = refl
extension-append (c ∷ input) name rest size = elim (Bool-cases (c == b'.')) [
  | inl dot ↦ rw dot (extension_loop-append input name rest 8 size)
  | inr other ↦ rw other refl
]

length-extension : (input name : List ℕ) → length (extension (input, name)) ≡ length name
length-extension [] name = refl
length-extension (c ∷ input) name = elim (Bool-cases (c == b'.')) [
  | inl dot ↦ rw dot (length-extension_loop input name 8)
  | inr other ↦ rw other refl
]

-- The eleven bytes of a name.
abbrev pub name_of : List ℕ → List ℕ
name_of input = to_fat_name input (replicate 11 0)

pub length-name_of : (input : List ℕ) → length (name_of input) ≡ 11
unfolding to_fat_name
length-name_of input =
    length-extension (base_loop input 0 (replicate 11 b' ')).0
      (base_loop input 0 (replicate 11 b' ')).1
    ∙ length-base_loop input (replicate 11 b' ') 0

to_fat_name-entry :
    (input : List ℕ) → to_fat_name input (replicate 32 0) ≡ name_of input ++ replicate 21 0
unfolding to_fat_name
to_fat_name-entry input =
    let blank = replicate 11 b' ' in
    let based = base_loop input 0 blank in
    ap extension (base_loop-append input blank (replicate 21 0) 0 refl)
    ∙ extension-append based.0 based.1 (replicate 21 0) (length-base_loop input blank 0)

module _ (input : List ℕ) (cluster size : ℕ) where
  abbrev started : List ℕ
  started = set (name_of input ++ replicate 21 0) 11 0x20

  abbrev linked : List ℕ
  linked = set_word started 26 cluster

  length-started : length started ≡ 32
  length-started =
      length-set (name_of input ++ replicate 21 0) 11 0x20
      ∙ length-append (name_of input) (replicate 21 0)
      ∙ ap (λ (k : ℕ). k + 21) (length-name_of input)

  new_entry-linked : new_entry input cluster size ≡ set_dword linked 28 size
  new_entry-linked =
      ap (λ (l : List ℕ). set_dword (set_word (set l 11 0x20) 26 cluster) 28 size)
        (to_fat_name-entry input)

  length-linked : length linked ≡ 32
  length-linked = length-set_word started 26 cluster ∙ length-started

  pub length-new_entry : length (new_entry input cluster size) ≡ 32
  length-new_entry =
      ap length new_entry-linked
      ∙ length-set_word (set_word linked 28 size) 30 (size / 2 ^ 16)
      ∙ length-set_word linked 28 size
      ∙ length-linked

  pub name_byte-new_entry :
      (j : ℕ) → j < 11 → name_byte (new_entry input cluster size) j ≡ get_or (name_of input) j 0
  name_byte-new_entry j inside =
      ap (λ (l : List ℕ). get_or l j 0) new_entry-linked
      ∙ get_or-set_word (set_word linked 28 size) 30 (size / 2 ^ 16) j (λ e. omega arith)
          (λ e. omega arith)
      ∙ get_or-set_word linked 28 size j (λ e. omega arith) (λ e. omega arith)
      ∙ get_or-set_word started 26 cluster j (λ e. omega arith) (λ e. omega arith)
      ∙ get_or-set_ne (name_of input ++ replicate 21 0) 11 j 0x20 0 (λ e. omega arith)
      ∙ get_or-append (name_of input) (replicate 21 0) j 0 (omega (arith, length-name_of input))

  pub first_cluster_lo-new_entry :
      first_cluster_lo (new_entry input cluster size) ≡ cluster % 2 ^ 16
  first_cluster_lo-new_entry =
      ap (λ (l : List ℕ). word_at l 26) new_entry-linked
      ∙ word_at-set_word_ne (set_word linked 28 size) 30 (size / 2 ^ 16) 26 (λ e. omega arith)
          (λ e. omega arith) (λ e. omega arith)
      ∙ word_at-set_word_ne linked 28 size 26 (λ e. omega arith) (λ e. omega arith)
          (λ e. omega arith)
      ∙ word_at-set_word started 26 cluster (omega (arith, length-started))

  pub file_size-new_entry : file_size (new_entry input cluster size) ≡ size % 2 ^ 32
  file_size-new_entry =
      let low : word_at (set_dword linked 28 size) 28 ≡ size % 2 ^ 16 =
        word_at-set_word_ne (set_word linked 28 size) 30 (size / 2 ^ 16) 28 (λ e. omega arith)
          (λ e. omega arith) (λ e. omega arith)
        ∙ word_at-set_word linked 28 size (omega (arith, length-linked)) in
      let high : word_at (set_dword linked 28 size) 30 ≡ size / 2 ^ 16 % 2 ^ 16 =
        word_at-set_word (set_word linked 28 size) 30 (size / 2 ^ 16)
          (omega (arith, length-set_word linked 28 size, length-linked)) in
      ap (λ (l : List ℕ). dword_at l 28) new_entry-linked ∙ rw (low, high) (omega arith)
