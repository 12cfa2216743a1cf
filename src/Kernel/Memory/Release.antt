-- ===== src/Kernel/Memory/Release.antt =====
-- The effect of `memory_free` of kernel/memory.c on the blocks.
use black_hole_os.Prelude.{
  ◌+◌, ◌≤◌, ◌<◌, ◌≡◌, ◌⊎◌, ◌↔◌, inl, inr, refl, ◌∙◌, true, false, ◌&&◌, List, [], ◌∷◌, arith,
  length, ◌==◌, if◌then◌else◌, Bool-cases, sym,
}
use black_hole_os.Kernel.Memory.{Ptr, Mem, store}
use black_hole_os.Kernel.Memory.Store.{store_ne, store_self}
use black_hole_os.Kernel.Memory.Blocks.{
  Block, block, after, link, InUse, InUse-bound, Chain, Chain-same, Chain-bound, heap_end,
}
use black_hole_os.Kernel.Memory.Free.{join, merge}

-- `ptr` points at the data of a block in use.
abbrev pub Owns : Ptr → Ptr → List Block → Type 0
Owns ptr p [] = ⊥
Owns ptr p (b ∷ bs) = ((p + 12 ≡ ptr) × (b.free ≡ false)) ⊎ Owns ptr (after p b) bs

-- The word at `q` lies in the block whose data begins at `ptr`.
abbrev pub InBlock : Ptr → Ptr → Ptr → List Block → Type 0
InBlock ptr q p [] = ⊥
InBlock ptr q p (b ∷ bs) =
    ((p + 12 ≡ ptr) × (ptr ≤ q) × (q < after p b)) ⊎ InBlock ptr q (after p b) bs

-- The blocks with the one behind `ptr` marked free.
unfoldable pub release : Ptr → Ptr → List Block → List Block
release ptr p [] = []
release ptr p (b ∷ bs) =
    if p + 12 == ptr then block b.size true ∷ bs else b ∷ release ptr (after p b) bs

-- The blocks with all free neighbours joined.
unfoldable pub merge_all : List Block → List Block
merge_all [] = []
merge_all (b ∷ bs) = merge b bs

pub Owns-bound : (ptr p : Ptr) (bs : List Block) → Owns ptr p bs → p + 12 ≤ ptr
Owns-bound ptr p [] h = absurd h
Owns-bound ptr p (b ∷ bs) (inl h) = omega arith
Owns-bound ptr p (b ∷ bs) (inr h) = omega (arith, Owns-bound ptr (after p b) bs h)

pub Owns-le :
    (m : Mem) (ptr p : Ptr) (bs : List Block) → Chain m p bs → Owns ptr p bs → ptr ≤ heap_end
Owns-le m ptr p [] c own = absurd own
Owns-le m ptr p (b ∷ bs) c (inl here) = omega (arith, Chain-bound m (after p b) bs c.4)
Owns-le m ptr p (b ∷ bs) c (inr later) = Owns-le m ptr (after p b) bs c.4 later

link-release : (ptr p q : Ptr) (bs : List Block) → link q (release ptr p bs) ≡ link q bs
unfolding release
link-release ptr p q [] = refl
link-release ptr p q (b ∷ bs) = ground arith

module _ (m : Mem) (ptr : Ptr) where
  -- Setting the flag of an owned block releases it.
  pub release-Chain :
      (a p : Ptr) (bs : List Block)
      → a + 8 ≡ ptr
      → Chain m p bs
      → Owns ptr p bs
      → Chain (store m a 1) p (release ptr p bs)
  unfolding release
  release-Chain a p [] e c own = absurd own
  release-Chain a p (b ∷ bs) e c (inl here) =
      let found : (p + 12 == ptr) ≡ true = ground arith in
      let at : p + 4 ≡ a = omega arith in
      rw found (
        store_ne m a 1 p (omega arith) ∙ c.0,
        rw at (store_self m a 1),
        store_ne m a 1 (p + 8) (omega arith) ∙ c.2,
        c.3,
        Chain-same (store m a 1) (after p b) bs (λ q far. store_ne m a 1 q (omega arith)) c.4,
      )
  release-Chain a p (b ∷ bs) e c (inr later) =
      let far = Owns-bound ptr (after p b) bs later in
      let other : (p + 12 == ptr) ≡ false = ground arith in
      rw other (
        store_ne m a 1 p (omega arith) ∙ c.0,
        store_ne m a 1 (p + 4) (omega arith) ∙ c.1,
        store_ne m a 1 (p + 8) (omega arith)
            ∙ c.2
            ∙ sym (link-release ptr (after p b) (after p b) bs),
        c.3,
        release-Chain a (after p b) bs e c.4 later,
      )

pub length-release : (ptr p : Ptr) (bs : List Block) → length (release ptr p bs) ≡ length bs
unfolding release
length-release ptr p [] = refl
length-release ptr p (b ∷ bs) = ground (arith, length-release ptr (after p b) bs)

-- The flag of the released block is no data of a block in use.
pub InUse-ne_flag :
    (a ptr q p : Ptr) (bs : List Block) → a + 8 ≡ ptr → Owns ptr p bs → InUse q p bs → ¬ (q ≡ a)
InUse-ne_flag a ptr q p [] e own use_ = absurd own
InUse-ne_flag a ptr q p (b ∷ bs) e (inl here) (inl at) = omega arith
InUse-ne_flag a ptr q p (b ∷ bs) e (inl here) (inr later) =
    omega (arith, InUse-bound q (after p b) bs later)
InUse-ne_flag a ptr q p (b ∷ bs) e (inr own) (inl at) =
    omega (arith, Owns-bound ptr (after p b) bs own)
InUse-ne_flag a ptr q p (b ∷ bs) e (inr own) (inr later) =
    InUse-ne_flag a ptr q (after p b) bs e own later

-- What is in use after the release was in use before, and all of that but the block itself.
pub InUse-release : (ptr q p : Ptr) (bs : List Block) → InUse q p (release ptr p bs) → InUse q p bs
unfolding release
InUse-release ptr q p [] h = h
InUse-release ptr q p (b ∷ bs) h = elim (Bool-cases (p + 12 == ptr)) [
  | inl found ↦ elim (rw found at h) [ inl here ↦ cc | inr later ↦ inr later ]
  | inr other ↦ elim (rw other at h) [
    | inl here ↦ inl here
    | inr later ↦ inr (InUse-release ptr q (after p b) bs later)
  ]
]

pub release-InUse :
    (ptr q p : Ptr) (bs : List Block)
    → InUse q p bs
    → InUse q p (release ptr p bs) ⊎ InBlock ptr q p bs
unfolding release
release-InUse ptr q p [] h = absurd h
release-InUse ptr q p (b ∷ bs) h = elim (Bool-cases (p + 12 == ptr)) [
  | inl found ↦
      rw found (elim h [ inl here ↦ inr (inl (ground arith)) | inr later ↦ inl (inr later) ])
  | inr other ↦ rw other (elim h [
    | inl here ↦ inl (inl here)
    | inr later ↦ elim (release-InUse ptr q (after p b) bs later) [
      | inl y ↦ inl (inr y)
      | inr n ↦ inr (inr n)
    ]
  ])
]

-- Joining free blocks changes nothing about what is in use.
pub merge-InUse :
    (q p : Ptr) (b : Block) (bs : List Block) → InUse q p (b ∷ bs) ↔ InUse q p (merge b bs)
unfolding merge
merge-InUse q p b [] = (λ h. h, λ h. h)
merge-InUse q p b (c ∷ bs) = elim (Bool-cases (b.free && c.free)) [
  | inl both ↦
      let e : after p (join b c) ≡ after (after p b) c = omega arith in
      let rec = merge-InUse q p (join b c) bs in
      rw both (
        λ h. rec.0 (elim h [
          | inl here ↦ absurd (ground arith)
          | inr (inl here) ↦ absurd (ground arith)
          | inr (inr later) ↦ inr (rw e later)
        ]),
        λ h. elim (rec.1 h) [
          | inl here ↦ absurd (ground arith)
          | inr later ↦ inr (inr (rw e at later))
        ],
      )
  | inr apart ↦
      let rec = merge-InUse q (after p b) c bs in
      rw apart (
        λ h. elim h [ inl here ↦ inl here | inr later ↦ inr (rec.0 later) ],
        λ h. elim h [ inl here ↦ inl here | inr later ↦ inr (rec.1 later) ],
      )
]
