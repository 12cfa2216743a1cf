-- ===== src/Fs/Fat16/Sectors.antt =====
-- Words in buffers, and sectors on a disk, for fs/fat16.c.
use black_hole_os.Prelude.{
  ℕ, zero, suc, ◌+◌, ◌*◌, ◌/◌, ◌%◌, ◌^◌, ◌<◌, ◌≡◌, ◌≢◌, refl, sym, ◌∙◌, ap, ap₂, arith, List, [],
  ◌∷◌, get_or, set, take, length, length-set, get_or-set_self, get_or-set_ne, ◌==◌, if◌then◌else◌,
  Bool-cases, inl, inr,
}
use black_hole_os.Drivers.Ata.Disk.{Disk, read_sector, write_sector}
use black_hole_os.Fs.Fat16.Volume.{word_at, set_word}

-- The buffers of the driver have 512 bytes.
abbrev pub Sized : Disk → Type 0
Sized disk = (l : ℕ) → length (disk l) ≡ 512

pub length-set_word :
    (buf : List ℕ) (offset value : ℕ) → length (set_word buf offset value) ≡ length buf
length-set_word buf offset value =
    length-set (set buf offset (value % 2 ^ 8)) (offset + 1) (value / 2 ^ 8 % 2 ^ 8)
    ∙ length-set buf offset (value % 2 ^ 8)

pub get_or-set_word :
    (buf : List ℕ) (offset value i : ℕ)
    → i ≢ offset
    → i ≢ offset + 1
    → get_or (set_word buf offset value) i 0 ≡ get_or buf i 0
get_or-set_word buf offset value i first second =
    get_or-set_ne (set buf offset (value % 2 ^ 8)) (offset + 1) i (value / 2 ^ 8 % 2 ^ 8) 0
      (λ e. second (sym e))
    ∙ get_or-set_ne buf offset i (value % 2 ^ 8) 0 (λ e. first (sym e))

pub word_at-set_word :
    (buf : List ℕ) (offset value : ℕ)
    → offset + 1 < length buf
    → word_at (set_word buf offset value) offset ≡ value % 2 ^ 16
word_at-set_word buf offset value inside =
    let once = set buf offset (value % 2 ^ 8) in
    let low : get_or (set_word buf offset value) offset 0 ≡ value % 2 ^ 8 =
      get_or-set_ne once (offset + 1) offset (value / 2 ^ 8 % 2 ^ 8) 0 (λ e. absurd (omega arith))
      ∙ get_or-set_self buf offset (value % 2 ^ 8) 0 (omega arith) in
    let high : get_or (set_word buf offset value) (offset + 1) 0 ≡ value / 2 ^ 8 % 2 ^ 8 =
      get_or-set_self once (offset + 1) (value / 2 ^ 8 % 2 ^ 8) 0
        (omega (arith, length-set buf offset (value % 2 ^ 8))) in
    rw (low, high) (omega arith)

-- Words that do not overlap.
pub word_at-set_word_ne :
    (buf : List ℕ) (offset value i : ℕ)
    → i ≢ offset
    → i + 1 ≢ offset
    → i ≢ offset + 1
    → word_at (set_word buf offset value) i ≡ word_at buf i
word_at-set_word_ne buf offset value i same before behind =
    ap₂ (λ (low high : ℕ). low + high * 2 ^ 8) (get_or-set_word buf offset value i same behind)
      (get_or-set_word buf offset value (i + 1) before (λ e. same (omega arith)))

take_all : (n : ℕ) (xs : List ℕ) → length xs ≡ n → take n xs ≡ xs
take_all zero [] e = refl
take_all zero (x ∷ xs) e = absurd (omega arith)
take_all (suc n) [] e = absurd (omega arith)
take_all (suc n) (x ∷ xs) e = ap (λ (ys : List ℕ). x ∷ ys) (take_all n xs (omega arith))

-- A sector that was written is read back, and the others are as before.
pub read_sector-write_sector :
    (l l' : ℕ) (buf : List ℕ) (disk : Disk)
    → length buf ≡ 512
    → read_sector l (write_sector l' buf disk)
      ≡ (if l % 2 ^ 28 == l' % 2 ^ 28 then buf else read_sector l disk)
unfolding read_sector write_sector
read_sector-write_sector l l' buf disk size =
    ap (λ (b : List ℕ). if l % 2 ^ 28 == l' % 2 ^ 28 then b else disk (l % 2 ^ 28))
      (take_all 512 buf size)

pub write_sector-Sized :
    (l : ℕ) (buf : List ℕ) (disk : Disk)
    → length buf ≡ 512
    → Sized disk
    → Sized (write_sector l buf disk)
unfolding write_sector
write_sector-Sized l buf disk size sized l' = elim (Bool-cases (l' == l % 2 ^ 28)) [
  | inl here ↦ rw (here, take_all 512 buf size) size
  | inr other ↦ rw other (sized l')
]

pub length-read_sector : (l : ℕ) (disk : Disk) → Sized disk → length (read_sector l disk) ≡ 512
unfolding read_sector
length-read_sector l disk sized = sized (l % 2 ^ 28)
