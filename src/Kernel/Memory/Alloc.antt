-- ===== src/Kernel/Memory/Alloc.antt =====
-- `memory_alloc` of kernel/memory.c takes the first block that is free and large enough.
use black_hole_os.Prelude.{
  ℕ, zero, suc, ◌+◌, ◌-◌, ◌%◌, ◌^◌, ◌≤◌, ◌<◌, ◌≡◌, ◌⊎◌, refl, sym, ap, ◌∙◌, ap₂, true, false, ◌&&◌,
  Option, some, ◌==◌, List, [], ◌∷◌, arith, length, leb, if◌then◌else◌, Bool-cases, inl, inr,
}
use black_hole_os.Kernel.Memory.{
  Ptr, Mem, sizeof_header, alloc_loop, occupy, truth, is_free, size_of, store,
}
use black_hole_os.Kernel.Memory.Store.{store_ne, store_self}
use black_hole_os.Kernel.Memory.Blocks.{
  Block, block, after, link, InUse, InUse-bound, Chain, Chain-same, Chain-bound,
}

-- A taken block: the rest of it stays free where it has room for a header and four bytes.
unfoldable pub carve : Block → ℕ → List Block → List Block
carve b n bs =
    if leb (n + 16) b.size
    then block n false ∷ block (b.size - (n + 12)) true ∷ bs
    else block b.size false ∷ bs

-- The data address of the first free block of `n` bytes or more, and the blocks after the call.
unfoldable pub first_fit : ℕ → Ptr → List Block → Ptr × List Block
first_fit n p [] = (0, [])
first_fit n p (b ∷ bs) =
    if b.free && leb n b.size
    then (p + sizeof_header, carve b n bs)
    else (let (r, bs') = first_fit n (after p b) bs in (r, b ∷ bs'))

module _ (m : Mem) (p n : ℕ) where
  -- The memory after the split of the block at `p`.
  abbrev carved : Mem
  carved =
      let q = p + 12 + n in
      store
        (store (store (store (store (store m q (m p - n - 12)) (q + 4) 1) (q + 8) (m (p + 8))) p n)
          (p + 8) q)
        (p + 4) 0

  carved_reads :
      (carved p ≡ n)
      × (carved (p + 4) ≡ 0)
      × (carved (p + 8) ≡ p + 12 + n)
      × (carved (p + 12 + n) ≡ m p - n - 12)
      × (carved (p + 12 + n + 4) ≡ 1)
      × (carved (p + 12 + n + 8) ≡ m (p + 8))
  unfolding store
  carved_reads =
      (ground arith, ground arith, ground arith, ground arith, ground arith, ground arith)

  carved-same : (q : Ptr) → (q < p) ⊎ (p + 24 + n ≤ q) → carved q ≡ m q
  unfolding store
  carved-same q out = ground arith

  occupy_roomy : leb ((n + 12 + 4) % 2 ^ 32) (m p) ≡ true → (occupy m p n).1 ≡ carved
  unfolding occupy
  occupy_roomy roomy =
      let q = p + 12 + n in
      let m1 = store m q (m p - n - 12) in
      let kept : store m1 (q + 4) 1 (p + 8) ≡ m (p + 8) =
        store_ne m1 (q + 4) 1 (p + 8) (omega arith)
        ∙ store_ne m q (m p - n - 12) (p + 8) (omega arith) in
      rw (roomy, kept)

  occupy_tight : leb ((n + 12 + 4) % 2 ^ 32) (m p) ≡ false → (occupy m p n).1 ≡ store m (p + 4) 0
  unfolding occupy
  occupy_tight tight = rw tight

module _ (m : Mem) (p : Ptr) (b : Block) (bs : List Block) (n : ℕ) (c : Chain m p (b ∷ bs))
    (fits : n ≤ b.size) where
  roomy_eq : leb ((n + 12 + 4) % 2 ^ 32) (m p) ≡ leb (n + 16) b.size
  roomy_eq = ap₂ leb (omega (arith, Chain-bound m (after p b) bs c.4)) c.0

  -- Taking a block writes headers inside that block only.
  pub occupy-same : (q : Ptr) → (q < p) ⊎ (after p b ≤ q) → (occupy m p n).1 q ≡ m q
  occupy-same q out = elim (Bool-cases (leb (n + 16) b.size)) [
    | inl roomy ↦ rw (occupy_roomy m p n (roomy_eq ∙ roomy)) (carved-same m p n q (ground arith))
    | inr tight ↦ rw (occupy_tight m p n (roomy_eq ∙ tight)) (store_ne m (p + 4) 0 q (ground arith))
  ]

  -- The block that is left over ends where the old block did.
  rest_end : leb (n + 16) b.size ≡ true → p + 12 + n + 12 + (b.size - (n + 12)) ≡ after p b
  rest_end roomy = ground arith

  occupy_roomy-Chain :
      leb (n + 16) b.size ≡ true
      → n % 4 ≡ 0
      → Chain (occupy m p n).1 p (block n false ∷ block (b.size - (n + 12)) true ∷ bs)
  occupy_roomy-Chain roomy whole =
      let same : Chain (occupy m p n).1 (after p b) bs =
        Chain-same (occupy m p n).1 (after p b) bs (λ q h. occupy-same q (inr h)) c.4 in
      let e = occupy_roomy m p n (roomy_eq ∙ roomy) in
      let r = carved_reads m p n in
      (
        rw e r.0,
        rw e r.1,
        rw e r.2,
        whole,
        (
          rw e (r.3 ∙ omega (arith, c.0)),
          rw e r.4,
          ap (λ (f : Mem). f (p + 12 + n + 8)) e
              ∙ r.5
              ∙ c.2
              ∙ ap (λ (a : Ptr). link a bs) (sym (rest_end roomy)),
          ground arith,
          rw (rest_end roomy) same,
        ),
      )

  pub occupy-Chain : n % 4 ≡ 0 → Chain (occupy m p n).1 p (carve b n bs)
  unfolding carve
  occupy-Chain whole = elim (Bool-cases (leb (n + 16) b.size)) [
    | inl roomy ↦ rw roomy (occupy_roomy-Chain roomy whole)
    | inr tight ↦
        let same : Chain (occupy m p n).1 (after p b) bs =
          Chain-same (occupy m p n).1 (after p b) bs (λ q h. occupy-same q (inr h)) c.4 in
        let e = occupy_tight m p n (roomy_eq ∙ tight) in
        rw tight (
          rw e (store_ne m (p + 4) 0 p (omega arith) ∙ c.0),
          rw e (store_self m (p + 4) 0),
          rw e (store_ne m (p + 4) 0 (p + 8) (omega arith) ∙ c.2),
          c.3,
          same,
        )
  ]

pub link-first_fit : (n : ℕ) (p q : Ptr) (bs : List Block) → link q (first_fit n p bs).1 ≡ link q bs
unfolding first_fit carve
link-first_fit n p q [] = refl
link-first_fit n p q (b ∷ bs) = ground arith

-- The walk over the blocks finds the first fit, keeps the heap whole, and writes neither below
-- the blocks nor in the data of a block in use.
abbrev pub Found : ℕ → Mem → Ptr → List Block → Option (Ptr × Mem) → Type 0
Found n m p bs r =
    (m' : Mem) × (r ≡ some ((first_fit n p bs).0, m'))
    × Chain m' p (first_fit n p bs).1
    × ((q : Ptr) → (q < p) ⊎ InUse q p bs → m' q ≡ m q)

module _ (n : ℕ) (m : Mem) (p : Ptr) (b : Block) (bs : List Block) (c : Chain m p (b ∷ bs)) where
  outside_block :
      (q : Ptr) → b.free ≡ true → (q < p) ⊎ InUse q p (b ∷ bs) → (q < p) ⊎ (after p b ≤ q)
  outside_block q free (inl below) = inl below
  outside_block q free (inr (inl here)) = cc
  outside_block q free (inr (inr later)) = inr (InUse-bound q (after p b) bs later)

  occupy-Found :
      n % 4 ≡ 0 → (b.free && leb n b.size) ≡ true → Found n m p (b ∷ bs) (some (occupy m p n))
  unfolding first_fit
  occupy-Found whole hit =
      let fits : n ≤ b.size = ground arith in
      rw hit (
        (occupy m p n).1,
        unfold occupy in refl,
        occupy-Chain m p b bs n c fits whole,
        λ q out. occupy-same m p b bs n c fits q (outside_block q (ground arith) out),
      )

  skip-Found :
      (b.free && leb n b.size) ≡ false
      → (r : Option (Ptr × Mem)) → Found n m (after p b) bs r
      → Found n m p (b ∷ bs) r
  unfolding first_fit
  skip-Found skip r (m', e, c', same) = rw skip (
    m',
    e,
    (
      same p (inl (omega arith)) ∙ c.0,
      same (p + 4) (inl (omega arith)) ∙ c.1,
      same (p + 8) (inl (omega arith)) ∙ c.2 ∙ sym (link-first_fit n (after p b) (after p b) bs),
      c.3,
      c',
    ),
    λ q out. same q (ground arith),
  )

module _ (n : ℕ) (whole : n % 4 ≡ 0) where
  pub alloc_loop-Found :
      (fuel : ℕ) (m : Mem) (p : Ptr) (bs : List Block)
      → Chain m p bs
      → 0 < p
      → length bs < fuel
      → Found n m p bs (alloc_loop fuel m (link p bs) n)
  unfolding alloc_loop first_fit
  alloc_loop-Found zero m p bs c pos enough = absurd (omega arith)
  alloc_loop-Found (suc fuel) m p [] c pos enough = (m, refl, c, λ q h. refl)
  alloc_loop-Found (suc fuel) m p (b ∷ bs) c pos enough =
      let not_null : (p == 0) ≡ false = ground arith in
      elim (Bool-cases (b.free && leb n b.size)) [
        | inl hit ↦
            let test : (truth (is_free m p) && leb n (size_of m p)) ≡ true = ground arith in
            rw (not_null, test) (occupy-Found n m p b bs c whole hit)
        | inr miss ↦
            let test : (truth (is_free m p) && leb n (size_of m p)) ≡ false = ground arith in
            rw (not_null, test, c.2)
              (skip-Found n m p b bs c miss _
                (alloc_loop-Found fuel m (after p b) bs c.4 (omega arith) (omega arith)))
      ]
