-- ===== src/Kernel/Memory/FirstFit.antt =====
-- First fit on the blocks of a heap: what the caller of `memory_alloc` in kernel/memory.c gets.
use black_hole_os.Prelude.{
  ℕ, ◌+◌, ◌%◌, ◌≤◌, ◌<◌, ◌≡◌, ◌≢◌, ◌⊎◌, inl, inr, true, false, ◌&&◌, List, [], ◌∷◌, arith, All, leb,
  Bool-cases, refl, ◌-◌, ◌^◌,
}
use black_hole_os.Kernel.Memory.{Ptr, align}
use black_hole_os.Kernel.Memory.Blocks.{Block, after, InUse, InUse-bound}
use black_hole_os.Kernel.Memory.Alloc.{carve, first_fit}

-- Alignment rounds up to a multiple of 4, where the sum does not wrap.
pub align_lem : (n : ℕ) → n + 3 < 2 ^ 32 → (n ≤ align n) × (align n < n + 4) × (align n % 4 ≡ 0)
unfolding align
align_lem n h = omega arith

-- A block that cannot serve a request for `n` bytes.
abbrev pub TooSmall : ℕ → Block → Type 0
TooSmall n b = (b.free ≡ false) ⊎ (b.size < n)

module _ (n : ℕ) where
  pub first_fit-null :
      (p : Ptr) (bs : List Block) → All (TooSmall n) bs → first_fit n p bs ≡ (0, bs)
  unfolding first_fit
  first_fit-null p [] h = refl
  first_fit-null p (b ∷ bs) (h, hs) = ground (arith, first_fit-null (after p b) bs hs)

  pub null-TooSmall : (p : Ptr) (bs : List Block) → (first_fit n p bs).0 ≡ 0 → All (TooSmall n) bs
  unfolding first_fit
  null-TooSmall p [] e = tt
  null-TooSmall p (b ∷ bs) e = elim (Bool-cases (b.free && leb n b.size)) [
    | inl hit ↦ absurd (ground arith)
    | inr miss ↦ (ground arith, null-TooSmall (after p b) bs (ground arith))
  ]

  module _ (q p : Ptr) (b : Block) (bs : List Block) where
    carve-keeps : n ≤ b.size → InUse q (after p b) bs → InUse q p (carve b n bs)
    unfolding carve
    carve-keeps fits h = elim (Bool-cases (leb (n + 16) b.size)) [
      | inl roomy ↦
          let e : p + 12 + n + 12 + (b.size - (n + 12)) ≡ after p b = ground arith in
          rw (roomy, e) (inr (inr h))
      | inr tight ↦ rw tight (inr h)
    ]

    carve-fresh : n ≤ b.size → p + 12 ≤ q → q < p + 12 + n → InUse q p (carve b n bs)
    unfolding carve
    carve-fresh fits lo hi = elim (Bool-cases (leb (n + 16) b.size)) [
      | inl roomy ↦ rw roomy (inl (refl, lo, hi))
      | inr tight ↦ rw tight (inl (refl, lo, omega arith))
    ]

    keeps_hit : (b.free && leb n b.size) ≡ true → InUse q p (b ∷ bs) → InUse q p (carve b n bs)
    keeps_hit hit (inl here) = absurd (ground arith)
    keeps_hit hit (inr later) = carve-keeps (ground arith) later

    fresh_hit :
        (b.free && leb n b.size) ≡ true
        → p + 12 ≤ q
        → q < p + 12 + n
        → (¬ InUse q p (b ∷ bs)) × InUse q p (carve b n bs)
    fresh_hit hit lo hi = (unused, carve-fresh (ground arith) lo hi)
      where
        unused : ¬ InUse q p (b ∷ bs)
        unused (inl here) = ground arith
        unused (inr later) = let far = InUse-bound q (after p b) bs later in ground arith

  -- A block in use stays so.
  pub first_fit-keeps :
      (q p : Ptr) (bs : List Block) → InUse q p bs → InUse q p (first_fit n p bs).1
  unfolding first_fit carve
  first_fit-keeps q p [] h = absurd h
  first_fit-keeps q p (b ∷ bs) h = elim (Bool-cases (b.free && leb n b.size)) [
    | inl hit ↦ rw hit (keeps_hit q p b bs hit h)
    | inr miss ↦
        rw miss (elim h [
          | inl here ↦ inl here
          | inr later ↦ inr (first_fit-keeps q (after p b) bs later)
        ])
  ]

  pub first_fit-bound :
      (p : Ptr) (bs : List Block) → (first_fit n p bs).0 ≢ 0 → p + 12 ≤ (first_fit n p bs).0
  unfolding first_fit
  first_fit-bound p [] ne = absurd (ne refl)
  first_fit-bound p (b ∷ bs) ne = ground (arith, first_fit-bound (after p b) bs)

  fresh_miss :
      (q p : Ptr) (b : Block) (bs bs' : List Block)
      → after p b ≤ q
      → (¬ InUse q (after p b) bs) × InUse q (after p b) bs'
      → (¬ InUse q p (b ∷ bs)) × InUse q p (b ∷ bs')
  fresh_miss q p b bs bs' far (out, new) = (unused, inr new)
    where
      unused : ¬ InUse q p (b ∷ bs)
      unused (inl here) = omega arith
      unused (inr later) = out later

  -- The bytes handed out belonged to nobody, and belong to the caller afterwards.
  pub first_fit-fresh :
      (q p : Ptr) (bs : List Block)
      → (first_fit n p bs).0 ≢ 0
      → (first_fit n p bs).0 ≤ q
      → q < (first_fit n p bs).0 + n
      → (¬ InUse q p bs) × InUse q p (first_fit n p bs).1
  unfolding first_fit carve
  first_fit-fresh q p [] ne lo hi = absurd (ne refl)
  first_fit-fresh q p (b ∷ bs) ne lo hi = elim (Bool-cases (b.free && leb n b.size)) [
    | inl hit ↦ rw hit (fresh_hit q p b bs hit (rw hit at lo) (rw hit at hi))
    | inr miss ↦
        let ne' = rw miss at ne in
        let lo' = rw miss at lo in
        let hi' = rw miss at hi in
        let far = first_fit-bound (after p b) bs ne' in
        rw miss (fresh_miss q p b bs _ (omega arith) (first_fit-fresh q (after p b) bs ne' lo' hi'))
  ]
