-- ===== src/Kernel/Memory/Free.antt =====
-- `memory_free` of kernel/memory.c gives a block back and joins the free blocks that touch.
use black_hole_os.Prelude.{
  ℕ, zero, suc, ◌+◌, ◌%◌, ◌^◌, ◌≤◌, ◌<◌, ◌≡◌, ◌⊎◌, inl, inr, refl, sym, ap, ◌∙◌, true, false, not,
  ◌&&◌, Option, some, List, [], ◌∷◌, arith, length, ◌==◌, if◌then◌else◌, Bool-cases,
}
use black_hole_os.Kernel.Memory.{Ptr, Mem, coalesce, truth, is_free, next, store}
use black_hole_os.Kernel.Memory.Store.{store_ne, store_self}
use black_hole_os.Kernel.Memory.Blocks.{
  Block, block, after, link, InUse, InUse-bound, Chain, Chain-same, Chain-bound,
}

-- Two free blocks side by side as one, with the second header in its data.
abbrev pub join : Block → Block → Block
join b c = block (b.size + (12 + c.size)) b.free

-- The blocks from `b` on, with all free neighbours joined.
unfoldable pub merge : Block → List Block → List Block
merge b [] = b ∷ []
merge b (c ∷ bs) =
    let joined = merge (join b c) bs in
    let kept = b ∷ merge c bs in if b.free && c.free then joined else kept

pub link-merge : (q : Ptr) (b : Block) (bs : List Block) → link q (merge b bs) ≡ q
unfolding merge
link-merge q b [] = refl
link-merge q b (c ∷ bs) = elim (Bool-cases (b.free && c.free)) [
  | inl both ↦ rw both (link-merge q (join b c) bs)
  | inr not_both ↦ rw not_both
]

module _ (m : Mem) (p : Ptr) (b c : Block) (bs : List Block) (h : Chain m p (b ∷ c ∷ bs)) where
  -- The memory after `current` has swallowed the block behind it.
  abbrev widened : Mem
  widened = store m p ((m p + (12 + m (next m p))) % 2 ^ 32)

  abbrev joined : Mem
  joined = store widened (p + 8) (next widened (next widened p))

  joined-same : (q : Ptr) → (q < p) ⊎ (p + 12 ≤ q) → joined q ≡ m q
  joined-same q out =
      store_ne widened (p + 8) (next widened (next widened p)) q (ground arith)
      ∙ store_ne m p ((m p + (12 + m (next m p))) % 2 ^ 32) q (ground arith)

  joined_size : joined p ≡ b.size + (12 + c.size)
  joined_size =
      store_ne widened (p + 8) (next widened (next widened p)) p (omega arith)
      ∙ store_self m p ((m p + (12 + m (next m p))) % 2 ^ 32)
      ∙ rw (h.2) (omega (arith, h.0, h.4.0, Chain-bound m (after (after p b) c) bs h.4.4))

  widened-next : next widened (next widened p) ≡ link (after (after p b) c) bs
  widened-next =
      let e : widened (p + 8) ≡ after p b =
        store_ne m p ((m p + (12 + m (next m p))) % 2 ^ 32) (p + 8) (omega arith) ∙ h.2 in
      ap (λ (a : Ptr). widened (a + 8)) e
      ∙ store_ne m p ((m p + (12 + m (next m p))) % 2 ^ 32) (after p b + 8) (omega arith)
      ∙ h.4.2

  joined-Chain : Chain joined p (join b c ∷ bs)
  joined-Chain =
      let e : after p (join b c) ≡ after (after p b) c = omega arith in
      (
        joined_size,
        store_ne widened (p + 8) (next widened (next widened p)) (p + 4) (omega arith)
            ∙ store_ne m p ((m p + (12 + m (next m p))) % 2 ^ 32) (p + 4) (omega arith)
            ∙ h.1,
        rw e (store_self widened (p + 8) (next widened (next widened p)) ∙ widened-next),
        omega arith,
        rw e (
            Chain-same joined (after (after p b) c) bs (λ q far. joined-same q (inr (omega arith)))
              h.4.4),
      )

-- The loop joins all free neighbours, and writes neither below the blocks nor in the data of a
-- block in use.
abbrev Merged : Mem → Ptr → Block → List Block → Option Mem → Type 0
Merged m p b bs r =
    (m' : Mem) × (r ≡ some m')
    × Chain m' p (merge b bs)
    × ((q : Ptr) → (q < p) ⊎ InUse q p (b ∷ bs) → m' q ≡ m q)

module _ (m : Mem) (p : Ptr) (b : Block) where
  last-Merged :
      (fuel : ℕ) → Chain m p (b ∷ []) → 0 < p → Merged m p b [] (coalesce (suc (suc fuel)) m p)
  unfolding coalesce merge
  last-Merged fuel h pos =
      let not_null : (p == 0) ≡ false = ground arith in
      (m, rw (not_null, h.2) (ground arith), h, λ q out. refl)

  module _ (c : Block) (bs : List Block) (h : Chain m p (b ∷ c ∷ bs)) (r : Option Mem) where
    join-Merged :
        (b.free && c.free) ≡ true
        → Merged (joined m p b c bs h) p (join b c) bs r
        → Merged m p b (c ∷ bs) r
    unfolding merge
    join-Merged both (m', e, chain, same) = rw both (m', e, chain, λ q out. frame q (spared q out))
      where
        frame : (q : Ptr) → (q < p) ⊎ InUse q (after (after p b) c) bs → m' q ≡ m q
        frame q (inl below) = same q (inl below) ∙ joined-same m p b c bs h q (inl below)
        frame q (inr later) =
            let far = InUse-bound q (after (after p b) c) bs later in
            let e' : after p (join b c) ≡ after (after p b) c = omega arith in
            same q (inr (inr (rw e' later))) ∙ joined-same m p b c bs h q (inr (omega arith))

        spared :
            (q : Ptr)
            → (q < p) ⊎ InUse q p (b ∷ c ∷ bs)
            → (q < p) ⊎ InUse q (after (after p b) c) bs
        spared q (inl below) = inl below
        spared q (inr (inl here)) = absurd (ground arith)
        spared q (inr (inr (inl here))) = absurd (ground arith)
        spared q (inr (inr (inr later))) = inr later

    move-Merged : (b.free && c.free) ≡ false → Merged m (after p b) c bs r → Merged m p b (c ∷ bs) r
    unfolding merge
    move-Merged apart (m', e, chain, same) = rw apart (
      m',
      e,
      (
        same p (inl (omega arith)) ∙ h.0,
        same (p + 4) (inl (omega arith)) ∙ h.1,
        same (p + 8) (inl (omega arith)) ∙ h.2 ∙ sym (link-merge (after p b) c bs),
        h.3,
        chain,
      ),
      λ q out. same q (spared q out),
    )
      where
        spared :
            (q : Ptr)
            → (q < p) ⊎ InUse q p (b ∷ c ∷ bs)
            → (q < after p b) ⊎ InUse q (after p b) (c ∷ bs)
        spared q (inl below) = inl (omega arith)
        spared q (inr (inl here)) = inl (omega arith)
        spared q (inr (inr later)) = inr later

module _ (fuel : ℕ) (m : Mem) (p : Ptr) (b c : Block) (bs : List Block) (h : Chain m p (b ∷ c ∷ bs))
    (pos : 0 < p) where
  both_test :
      (truth (is_free m p) && (not (next m p == 0) && truth (is_free m (next m p))))
      ≡ (b.free && c.free)
  both_test =
      let next_not_null : (after p b == 0) ≡ false = ground arith in
      rw (h.2, next_not_null, h.1, h.4.1) (ground arith)

  coalesce_join :
      (b.free && c.free) ≡ true → coalesce (suc fuel) m p ≡ coalesce fuel (joined m p b c bs h) p
  unfolding coalesce
  coalesce_join both =
      let not_null : (p == 0) ≡ false = ground arith in rw (not_null, both_test ∙ both)

  coalesce_move : (b.free && c.free) ≡ false → coalesce (suc fuel) m p ≡ coalesce fuel m (after p b)
  unfolding coalesce
  coalesce_move apart =
      let not_null : (p == 0) ≡ false = ground arith in rw (not_null, both_test ∙ apart, h.2)

pub coalesce-Merged :
    (fuel : ℕ) (m : Mem) (p : Ptr) (b : Block) (bs : List Block)
    → Chain m p (b ∷ bs)
    → 0 < p
    → suc (length bs) < fuel
    → Merged m p b bs (coalesce fuel m p)
coalesce-Merged zero m p b bs h pos enough = absurd (omega arith)
coalesce-Merged (suc zero) m p b bs h pos enough = absurd (omega arith)
coalesce-Merged (suc (suc fuel)) m p b [] h pos enough = last-Merged m p b fuel h pos
coalesce-Merged (suc (suc fuel)) m p b (c ∷ bs) h pos enough =
    elim (Bool-cases (b.free && c.free)) [
      | inl both ↦ rw (coalesce_join (suc fuel) m p b c bs h pos both) (
          join-Merged m p b c bs h _ both (
            coalesce-Merged (suc fuel) (joined m p b c bs h) p (join b c) bs
              (joined-Chain m p b c bs h) pos (omega arith)))
      | inr apart ↦ rw (coalesce_move (suc fuel) m p b c bs h pos apart) (
          move-Merged m p b c bs h _ apart
            (coalesce-Merged (suc fuel) m (after p b) c bs h.4 (omega arith) (omega arith)))
    ]
