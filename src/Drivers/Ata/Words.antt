-- ===== src/Drivers/Ata/Words.antt =====
-- The loops of drivers/ata.c that move the words of a sector.
use mathlib.Core.List.{append_assoc}
use black_hole_os.Prelude.{
  ℕ, zero, suc, ◌+◌, ◌*◌, ◌/◌, ◌%◌, ◌^◌, ◌<◌, ◌≤◌, ◌≡◌, refl, ◌∙◌, ap, arith, some, List, [], ◌∷◌,
  ◌++◌, length, length-append, drop, take, All, bit_and, bit_or, bit_and-mod, bit_or-add_low, ◌==◌,
  if◌then◌else◌, Bool-cases, inl, inr,
}
use black_hole_os.Drivers.Ata.{Ports, read_words, write_words}
use black_hole_os.Drivers.Ata.Device.{
  Drive, IsAta, TakesAtOnce, View, Transfer, idle, writing, give, store, Wants,
}
use black_hole_os.Drivers.Ata.Polling.{Ready}

-- The bytes of a sector's words, the low byte first.
unfoldable pub bytes_of : List ℕ → List ℕ
bytes_of [] = []
bytes_of (w ∷ words) = w % 2 ^ 8 ∷ (w / 2 ^ 8 % 2 ^ 8) ∷ bytes_of words

unfoldable pub pack : ℕ → List ℕ → List ℕ
pack zero bytes = []
pack (suc n) [] = []
pack (suc n) (x ∷ []) = []
pack (suc n) (x ∷ y ∷ bytes) = (bit_or x (y * 2 ^ 8) % 2 ^ 16) ∷ pack n bytes

pub bytes_of-pack :
    (n : ℕ) (bytes : List ℕ)
    → n * 2 ≤ length bytes
    → All (λ b. b < 2 ^ 8) bytes
    → bytes_of (pack n bytes) ≡ take (n * 2) bytes
unfolding bytes_of pack
bytes_of-pack zero bytes long all = refl
bytes_of-pack (suc n) [] long all = absurd (omega arith)
bytes_of-pack (suc n) (x ∷ []) long all = absurd (omega arith)
bytes_of-pack (suc n) (x ∷ y ∷ bytes) long (small, high_all) =
    let even : suc n * 2 ≡ suc (suc (n * 2)) = omega arith in
    let rest = bytes_of-pack n bytes (omega arith) high_all.1 in
    let joined : bit_or x (y * 2 ^ 8) ≡ y * 2 ^ 8 + x = bit_or-add_low 8 y x small in
    let low : (y * 2 ^ 8 + x) % 2 ^ 16 % 2 ^ 8 ≡ x = omega arith in
    let top : (y * 2 ^ 8 + x) % 2 ^ 16 / 2 ^ 8 % 2 ^ 8 ≡ y = omega (arith, high_all.0) in
    rw (even, joined, low, top, rest) refl

pub length-pack : (n : ℕ) (bytes : List ℕ) → n * 2 ≤ length bytes → length (pack n bytes) ≡ n
unfolding pack
length-pack zero bytes long = refl
length-pack (suc n) [] long = absurd (omega arith)
length-pack (suc n) (x ∷ []) long = absurd (omega arith)
length-pack (suc n) (x ∷ y ∷ bytes) long = ap suc (length-pack n bytes (omega arith))

pub give-Wants : (words : List ℕ) → 0 < length words → Wants (give words)
give-Wants [] some_word = absurd (omega arith)
give-Wants (w ∷ words) some_word = tt

pub length-store :
    (stored : ℕ → List ℕ) (lba : ℕ) (words : List ℕ) (l : ℕ)
    → length words ≡ 256
    → length (stored l) ≡ 256
    → length (store stored lba words l) ≡ 256
length-store stored lba words l new old = elim (Bool-cases (l == lba)) [
  | inl here ↦ rw here new
  | inr other ↦ rw other old
]

pub bytes_of-store :
    (stored : ℕ → List ℕ) (lba : ℕ) (words : List ℕ) (l : ℕ)
    → bytes_of (store stored lba words l)
      ≡ (if l == lba then bytes_of words else bytes_of (stored l))
bytes_of-store stored lba words l = elim (Bool-cases (l == lba)) [
  | inl here ↦ rw here refl
  | inr other ↦ rw other refl
]

-- The view with another transfer.
abbrev pub during : View → Transfer → View
during v transfer = record v { transfer = transfer }

module _ {ports : Ports} {drive : Drive ports} {latency : ℕ} (ata : IsAta ports drive latency) where
  pub read_words-Ends :
      (words buffer : List ℕ) (s : ports.State) (v : View)
      → length words * 2 ≤ length buffer
      → Ready drive (during v (give words)) s
      → (s' : ports.State) × (read_words ports (length words) buffer s
          ≡ some (bytes_of words ++ drop (length words * 2) buffer, s'))
        × Ready drive (during v idle) s'
  unfolding read_words bytes_of
  read_words-Ends [] buffer s v long ready = (s, refl, ready)
  read_words-Ends (w ∷ words) [] s v long ready = absurd (omega arith)
  read_words-Ends (w ∷ words) (x ∷ []) s v long ready = absurd (omega arith)
  read_words-Ends (w ∷ words) (x ∷ y ∷ buffer) s v long ready =
      let (got, view, on) =
        ata.get_data s w words ready.no_delay (ap (λ (v' : View). v'.transfer) ready.view_is) in
      let next : Ready drive (during v (give words)) (ports.inw 0x1F0 s).1 = record {
        view_is = view ∙ ap (λ (v' : View). during v' (give words)) ready.view_is;
        no_delay = on;
      } in
      let (s', run, end) =
        read_words-Ends words buffer (ports.inw 0x1F0 s).1 v (omega arith) next in
      let low : bit_and w 0xFF % 2 ^ 8 ≡ w % 2 ^ 8 = rw (bit_and-mod 8 w) (omega arith) in
      let even : suc (length words) * 2 ≡ suc (suc (length words * 2)) = omega arith in
      (s', rw (even, got, run, low) refl, end)

  pub write_words-Ends :
      (quick : TakesAtOnce ports drive) (n : ℕ) (buffer words : List ℕ) (lba : ℕ) (s : ports.State)
      (v : View)
      → suc n * 2 ≤ length buffer
      → length words + suc n ≡ 256
      → Ready drive (during v (writing lba words)) s
      → (s' : ports.State) × (write_words ports (suc n) buffer s ≡ some s')
        × (drive.view s'
            ≡ record (during v idle) { stored = store v.stored lba (words ++ pack (suc n) buffer) })
        × (drive.delay s' ≡ 0)
  unfolding write_words pack
  write_words-Ends quick n [] words lba s v long count ready = absurd (omega arith)
  write_words-Ends quick n (x ∷ []) words lba s v long count ready = absurd (omega arith)
  write_words-Ends quick zero (x ∷ y ∷ buffer) words lba s v long count ready =
      let w = bit_or x (y * 2 ^ 8) % 2 ^ 16 in
      let last =
        ata.put_last s w lba words ready.no_delay (ap (λ (v' : View). v'.transfer) ready.view_is)
          (omega arith) in
      (
        ports.outw 0x1F0 w s,
        refl,
        rw (last, ready.view_is) refl,
        quick s w lba words ready.no_delay (ap (λ (v' : View). v'.transfer) ready.view_is),
      )
  write_words-Ends quick (suc n) (x ∷ y ∷ buffer) words lba s v long count ready =
      let w = bit_or x (y * 2 ^ 8) % 2 ^ 16 in
      let (view, on) =
        ata.put_data s w lba words ready.no_delay (ap (λ (v' : View). v'.transfer) ready.view_is)
          (omega arith) in
      let next : Ready drive (during v (writing lba (words ++ w ∷ []))) (ports.outw 0x1F0 w s) =
        record {
          view_is =
              view ∙ ap (λ (v' : View). during v' (writing lba (words ++ w ∷ []))) ready.view_is;
          no_delay = on;
        } in
      let (s', run, end, on') =
        write_words-Ends quick n buffer (words ++ w ∷ []) lba (ports.outw 0x1F0 w s) v (omega arith)
          (omega (arith, length-append words (w ∷ []))) next in
      (
        s',
        run,
        end
            ∙ ap (λ (l : List ℕ). record (during v idle) { stored = store v.stored lba l })
                (append_assoc words (w ∷ []) (pack (suc n) buffer)),
        on',
      )
