-- ===== src/Libc/Strings/Memory.antt =====
-- `memset` and `memcpy` of libc/string.c.
use mathlib.Core.Option
use black_hole_os.Prelude.{
  ℕ, zero, suc, ◌%◌, ◌^◌, ◌<◌, ◌≤◌, ◌≡◌, ◌⊎◌, refl, ap, arith, List, [], ◌∷◌, ◌++◌, length, take,
  drop, replicate, some, none,
}
use black_hole_os.Libc.Strings.{memset, memcpy}

-- `memset` fills the first `n` bytes with the low byte of `c`, if the object has so many.
pub memset_lem :
    (dst : List ℕ) (c n : ℕ)
    → n ≤ length dst
    → memset dst c n ≡ some (replicate n (c % 2 ^ 8) ++ drop n dst)
unfolding memset
memset_lem dst c zero h = refl
memset_lem [] c (suc n) h = absurd (omega arith)
memset_lem (x ∷ dst) c (suc n) h =
    ap (Option.map (λ out. (c % 2 ^ 8) ∷ out)) (memset_lem dst c n (omega arith))

-- `memcpy` copies the first `n` bytes, if both objects have so many, and no others.
pub memcpy_lem :
    (dst src : List ℕ) (n : ℕ)
    → n ≤ length dst
    → n ≤ length src
    → memcpy dst src n ≡ some (take n src ++ drop n dst)
unfolding memcpy
memcpy_lem dst src zero h k = refl
memcpy_lem [] src (suc n) h k = absurd (omega arith)
memcpy_lem (x ∷ dst) [] (suc n) h k = absurd (omega arith)
memcpy_lem (x ∷ dst) (y ∷ src) (suc n) h k =
    ap (Option.map (λ out. y ∷ out)) (memcpy_lem dst src n (omega arith) (omega arith))

-- Past the end of either object it is a fault.
pub memcpy-none :
    (dst src : List ℕ) (n : ℕ) → (length dst < n) ⊎ (length src < n) → memcpy dst src n ≡ none
unfolding memcpy
memcpy-none dst src zero h = absurd (omega arith)
memcpy-none [] src (suc n) h = refl
memcpy-none (x ∷ dst) [] (suc n) h = refl
memcpy-none (x ∷ dst) (y ∷ src) (suc n) h =
    ap (Option.map (λ out. y ∷ out)) (memcpy-none dst src n (omega arith))
