-- ===== src/Fs/Fat16/Slots.antt =====
-- A new entry in the first free slot of the root directory is found by its name: fs/fat16.c.
use black_hole_os.Prelude.{
  ℕ, zero, suc, ◌+◌, ◌*◌, ◌<◌, ◌≤◌, ◌≡◌, ◌≢◌, refl, sym, ◌∙◌, ap, arith, List, [], ◌∷◌, ◌++◌,
  length, length-append, get_or, take, drop, ◌==◌, ◌||◌, Bool-cases, true, false, inl, inr, some,
  none,
}
use black_hole_os.Fs.Fat16.Names.{match_loop, fat_name_match}
use black_hole_os.Fs.Fat16.Root.{
  here, beyond, entry_at, name_byte, find_in_sector, free_in_sector, put_entry,
}
use black_hole_os.Fs.Fat16.Pouring.{length-take, length-drop}
use black_hole_os.Fs.Fat16.Deleting.{get_or-drop}
use black_hole_os.Fs.Fat16.Entries.{name_of, get_or-append}

-- The comparison sees the first eleven bytes.
match_loop-agree :
    (name a b : List ℕ) (i n : ℕ)
    → ((j : ℕ) → i ≤ j → j < i + n → get_or a j 0 ≡ get_or b j 0)
    → match_loop name a i n ≡ match_loop name b i n
unfolding match_loop
match_loop-agree name a b i zero same = refl
match_loop-agree name a b i (suc n) same =
    rw
      (
        same i (omega arith) (omega arith),
        match_loop-agree name a b (suc i) n (λ j low high. same j (omega arith) (omega arith)),
      )
      refl

match_loop-true :
    (name a : List ℕ) (i n : ℕ)
    → ((j : ℕ) → i ≤ j → j < i + n → get_or name j 0 ≡ get_or a j 0)
    → match_loop name a i n ≡ true
unfolding match_loop
match_loop-true name a i zero same = refl
match_loop-true name a i (suc n) same =
    let e = same i (omega arith) (omega arith) in
    let here : (get_or name i 0 == get_or a i 0) ≡ true = ground arith in
    rw here (match_loop-true name a (suc i) n (λ j low high. same j (omega arith) (omega arith)))

fat_name_match-agree :
    (name a b : List ℕ)
    → ((j : ℕ) → j < 32 → get_or a j 0 ≡ get_or b j 0)
    → fat_name_match name a ≡ fat_name_match name b
unfolding fat_name_match
fat_name_match-agree name a b same =
    match_loop-agree (name_of name) a b 0 11 (λ j low high. same j (omega arith))

get_or-take : (n : ℕ) (xs : List ℕ) (i : ℕ) → i < n → get_or (take n xs) i 0 ≡ get_or xs i 0
get_or-take zero xs i inside = absurd (omega arith)
get_or-take (suc n) [] i inside = refl
get_or-take (suc n) (x ∷ xs) zero inside = refl
get_or-take (suc n) (x ∷ xs) (suc i) inside = get_or-take n xs i (omega arith)

get_or-behind : (xs ys : List ℕ) (i : ℕ) → get_or (xs ++ ys) (length xs + i) 0 ≡ get_or ys i 0
get_or-behind [] ys i = ap (λ (k : ℕ). get_or ys k 0) {x = 0 + i} {y = i} (omega arith)
get_or-behind (x ∷ xs) ys i =
    ap (λ (k : ℕ). get_or (x ∷ (xs ++ ys)) k 0) {x = suc (length xs) + i} {y = suc (length xs + i)}
      (omega arith)
    ∙ get_or-behind xs ys i

module _ (sector : List ℕ) (i : ℕ) (entry : List ℕ) (size : length sector ≡ 512) (inside : i < 16)
    (whole : length entry ≡ 32) where
  front : length (take (i * 32) sector) ≡ i * 32
  front = length-take (i * 32) sector (omega arith)

  pub length-put_entry : length (put_entry sector i entry) ≡ 512
  length-put_entry = omega (
    arith,
    length-append (take (i * 32) sector) (entry ++ drop (suc i * 32) sector),
    front,
    length-append entry (drop (suc i * 32) sector),
    length-drop (suc i * 32) sector,
  )

  -- The entries before the slot are as they were, and the slot has the entry.
  before :
      (k j : ℕ)
      → k < i
      → j < 32
      → get_or (entry_at (put_entry sector i entry) k) j 0 ≡ get_or (entry_at sector k) j 0
  before k j earlier low =
      get_or-drop (k * 32) j 0 (put_entry sector i entry)
      ∙ get_or-append (take (i * 32) sector) (entry ++ drop (suc i * 32) sector) (k * 32 + j) 0
          (omega (arith, front))
      ∙ get_or-take (i * 32) sector (k * 32 + j) (omega arith)
      ∙ sym (get_or-drop (k * 32) j 0 sector)

  pub get_or-put_entry :
      (j : ℕ) → j < 32 → get_or (entry_at (put_entry sector i entry) i) j 0 ≡ get_or entry j 0
  get_or-put_entry j low =
      get_or-drop (i * 32) j 0 (put_entry sector i entry)
      ∙ ap (λ (k : ℕ). get_or (put_entry sector i entry) (k + j) 0) (sym front)
      ∙ get_or-behind (take (i * 32) sector) (entry ++ drop (suc i * 32) sector) j
      ∙ get_or-append entry (drop (suc i * 32) sector) j 0 (omega arith)

pub free_in_sector-inside :
    (sector : List ℕ) (k n i : ℕ) → free_in_sector sector k n ≡ some i → (k ≤ i) × (i < k + n)
unfolding free_in_sector
free_in_sector-inside sector k zero i e = absurd (cc)
free_in_sector-inside sector k (suc n) i e =
    let first = name_byte (entry_at sector k) 0 in
    elim (Bool-cases (first == 0x00 || first == 0xE5)) [
      | inl free ↦
          let e' : some k ≡ some i = rw free at e in
          let same : k ≡ i = cc in (omega arith, omega arith)
      | inr live ↦
          let (low, high) = free_in_sector-inside sector (suc k) n i (rw live at e) in
          (omega arith, omega arith)
    ]

-- An entry that the name finds, and that is in use.
pub record IsNamed (name entry : List ℕ) : Type 0 where
  pub whole : length entry ≡ 32
  pub more : name_byte entry 0 ≢ 0x00
  pub live : name_byte entry 0 ≢ 0xE5
  pub matches : (j : ℕ) → j < 11 → get_or (name_of name) j 0 ≡ get_or entry j 0

IsNamed-match : (name entry : List ℕ) → IsNamed name entry → fat_name_match name entry ≡ true
unfolding fat_name_match
IsNamed-match name entry named =
    match_loop-true (name_of name) entry 0 11 (λ j low high. named.matches j (omega arith))

module _ (name sector : List ℕ) (size : length sector ≡ 512) (entry : List ℕ)
    (named : IsNamed name entry) where
  pub find-put_entry :
      (k n i : ℕ)
      → k + n ≤ 16
      → free_in_sector sector k n ≡ some i
      → ((j : ℕ) → find_in_sector name sector k n ≢ here j)
      → find_in_sector name (put_entry sector i entry) k n ≡ here i
  unfolding free_in_sector find_in_sector
  find-put_entry k zero i room e missing = absurd (cc)
  find-put_entry k (suc n) i room e missing =
      let first = name_byte (entry_at sector k) 0 in
      let (low, high) = free_in_sector-inside sector k (suc n) i e in
      let i_inside : i < 16 = omega arith in
      elim (Bool-cases (first == 0x00 || first == 0xE5)) [
        | inl free ↦
            let e' : some k ≡ some i = rw free at e in
            let same : k ≡ i = cc in
            let placed = λ (j : ℕ) (inside : j < 32).
              ap (λ (m : ℕ). get_or (entry_at (put_entry sector i entry) m) j 0) same
              ∙ get_or-put_entry sector i entry size i_inside named.whole j inside in
            let now = entry_at (put_entry sector i entry) k in
            let e1 : (name_byte now 0 == 0x00) ≡ false =
              ground (arith, placed 0 (omega arith), named.more) in
            let e2 : (name_byte now 0 == 0xE5) ≡ false =
              ground (arith, placed 0 (omega arith), named.live) in
            let e3 : fat_name_match name now ≡ true =
              fat_name_match-agree name now entry placed ∙ IsNamed-match name entry named in
            rw (e1, e2, e3) (ap here same)
        | inr live ↦
            let more : (first == 0x00) ≡ false = ground arith in
            let used : (first == 0xE5) ≡ false = ground arith in
            let later = rw live at e in
            let after = free_in_sector-inside sector (suc k) n i later in
            let kept = λ (j : ℕ) (inside : j < 32).
              before sector i entry size i_inside named.whole k j (omega (arith, after.0)) inside in
            let first_kept = kept 0 (omega arith) in
            let match_kept =
              fat_name_match-agree name (entry_at (put_entry sector i entry) k) (entry_at sector k)
                kept in
            elim (Bool-cases (fat_name_match name (entry_at sector k))) [
              | inl found ↦ absurd (missing k (rw (more, used, found) refl))
              | inr differs ↦
                  rw (first_kept, match_kept, more, used, differs)
                    (find-put_entry (suc k) n i (omega arith) later
                      (λ j at. missing j (rw (more, used, differs) at)))
            ]
      ]

  -- A sector without a free slot and without the name is passed.
  pub find_beyond :
      (k n : ℕ)
      → free_in_sector sector k n ≡ none
      → ((j : ℕ) → find_in_sector name sector k n ≢ here j)
      → find_in_sector name sector k n ≡ beyond
  unfolding free_in_sector find_in_sector
  find_beyond k zero e missing = refl
  find_beyond k (suc n) e missing =
      let first = name_byte (entry_at sector k) 0 in
      elim (Bool-cases (first == 0x00 || first == 0xE5)) [
        | inl free ↦ let e' : some k ≡ none = rw free at e in absurd (cc)
        | inr live ↦
            let more : (first == 0x00) ≡ false = ground arith in
            let used : (first == 0xE5) ≡ false = ground arith in
            elim (Bool-cases (fat_name_match name (entry_at sector k))) [
              | inl found ↦ absurd (missing k (rw (more, used, found) refl))
              | inr differs ↦
                  rw (more, used, differs)
                    (find_beyond (suc k) n (rw live at e)
                      (λ j at. missing j (rw (more, used, differs) at)))
            ]
      ]
