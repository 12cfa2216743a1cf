-- ===== src/Libc/Strings/CString.antt =====
-- The functions of libc/string.c on C strings.
use black_hole_os.Prelude.{
  ℕ, zero, suc, ◌<◌, ◌≡◌, ◌≢◌, ◌↔◌, inl, inr, refl, sym, arith, List, [], ◌∷◌, ◌++◌, length, take,
  drop, All, some, ◌==◌, Bool-cases, not, ◌&&◌, true, false,
}
use black_hole_os.Prelude.Int.{ℤ, pos, sub_ℕ, sub_ℕ-zero_iff}
use black_hole_os.Libc.Strings.{strlen, strcmp, strncmp, strcpy}

-- No byte of the text is the NUL that ends a string.
abbrev pub NulFree : List ℕ → Type 0
NulFree = All (λ c. c ≢ 0)

-- An object that begins with the text as a C string.
abbrev pub c_string : List ℕ → List ℕ → List ℕ
c_string text rest = text ++ 0 ∷ rest

cons_eq : {a b : ℕ} {s t : List ℕ} → a ≡ b → s ≡ t → a ∷ s ≡ b ∷ t
cons_eq e f = cc

cons_tail : {a b : ℕ} {s t : List ℕ} → a ∷ s ≡ b ∷ t → s ≡ t
cons_tail e = cc

-- `strlen` counts the bytes before the NUL.
pub strlen_lem :
    (text rest : List ℕ) → NulFree text → strlen (c_string text rest) ≡ some (length text)
unfolding strlen
strlen_lem [] rest h = refl
strlen_lem (c ∷ text) rest (hc, h) =
    let more : (c == 0) ≡ false = ground arith in rw (more, strlen_lem text rest h)

-- `strcmp` returns 0 exactly on equal texts, and never reads past a NUL.
strcmp-zero_iff :
    (s t rest rest' : List ℕ)
    → NulFree s
    → NulFree t
    → (z : ℤ) × (strcmp (c_string s rest) (c_string t rest') ≡ some z) × ((z ≡ pos 0) ↔ (s ≡ t))
unfolding strcmp
strcmp-zero_iff [] [] rest rest' hs ht = (pos 0, refl, (λ e. refl, λ e. refl))
strcmp-zero_iff [] (b ∷ t) rest rest' hs (hb, ht) =
    (sub_ℕ 0 b, ground arith, (λ e. absurd (hb (sym ((sub_ℕ-zero_iff 0 b).0 e))), λ e. cc))
strcmp-zero_iff (a ∷ s) [] rest rest' (ha, hs) ht =
    (sub_ℕ a 0, ground arith, (λ e. absurd (ha ((sub_ℕ-zero_iff a 0).0 e)), λ e. cc))
strcmp-zero_iff (a ∷ s) (b ∷ t) rest rest' (ha, hs) (hb, ht) = elim (Bool-cases (a == b)) [
  | inl same ↦
      let (z, e, iff) = strcmp-zero_iff s t rest rest' hs ht in
      let eq : a ≡ b = ground arith in
      let go_on : (not (a == 0) && a == b) ≡ true = ground arith in
      (z, rw go_on e, (λ at. cons_eq eq (iff.0 at), λ at. iff.1 (cons_tail at)))
  | inr other ↦
      let stop : (not (a == 0) && a == b) ≡ false = ground arith in
      (
        sub_ℕ a b,
        rw stop,
        (λ e. absurd (ground (arith, (sub_ℕ-zero_iff a b).0 e)), λ e. absurd (ground arith)),
      )
]

-- `strncmp` returns 0 exactly if the texts agree on their first `n` bytes.
strncmp-zero_iff :
    (n : ℕ) (s t rest rest' : List ℕ)
    → NulFree s
    → NulFree t
    → (z : ℤ) × (strncmp (c_string s rest) (c_string t rest') n ≡ some z)
      × ((z ≡ pos 0) ↔ (take n s ≡ take n t))
unfolding strncmp
strncmp-zero_iff zero s t rest rest' hs ht = (pos 0, refl, (λ e. refl, λ e. refl))
strncmp-zero_iff (suc n) [] [] rest rest' hs ht = (pos 0, refl, (λ e. refl, λ e. refl))
strncmp-zero_iff (suc n) [] (b ∷ t) rest rest' hs (hb, ht) =
    (sub_ℕ 0 b, ground arith, (λ e. absurd (hb (sym ((sub_ℕ-zero_iff 0 b).0 e))), λ e. cc))
strncmp-zero_iff (suc n) (a ∷ s) [] rest rest' (ha, hs) ht =
    (sub_ℕ a 0, ground arith, (λ e. absurd (ha ((sub_ℕ-zero_iff a 0).0 e)), λ e. cc))
strncmp-zero_iff (suc n) (a ∷ s) (b ∷ t) rest rest' (ha, hs) (hb, ht) = elim (Bool-cases (a == b)) [
  | inl same ↦
      let (z, e, iff) = strncmp-zero_iff n s t rest rest' hs ht in
      let eq : a ≡ b = ground arith in
      let go_on : (not (a == 0) && a == b) ≡ true = ground arith in
      (z, rw go_on e, (λ at. cons_eq eq (iff.0 at), λ at. iff.1 (cons_tail at)))
  | inr other ↦
      let stop : (not (a == 0) && a == b) ≡ false = ground arith in
      (
        sub_ℕ a b,
        rw stop,
        (λ e. absurd (ground (arith, (sub_ℕ-zero_iff a b).0 e)), λ e. absurd (ground arith)),
      )
]

-- `strcpy` copies the text and a NUL, if they fit, and leaves what is behind them.
strcpy_lem :
    (text rest dest : List ℕ)
    → NulFree text
    → length text < length dest
    → strcpy dest (c_string text rest) ≡ some (c_string text (drop (suc (length text)) dest))
unfolding strcpy
strcpy_lem [] rest [] h fits = absurd (omega arith)
strcpy_lem [] rest (x ∷ dest) h fits = refl
strcpy_lem (c ∷ text) rest [] h fits = absurd (omega arith)
strcpy_lem (c ∷ text) rest (x ∷ dest) (hc, h) fits =
    let more : (c == 0) ≡ false = ground arith in
    rw (more, strcpy_lem text rest dest h (omega arith))
