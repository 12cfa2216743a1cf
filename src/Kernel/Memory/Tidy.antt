-- ===== src/Kernel/Memory/Tidy.antt =====
-- Heaps of kernel/memory.c in which no two free blocks touch.
use black_hole_os.Prelude.{
  ℕ, ◌+◌, ◌-◌, ◌≤◌, ◌≡◌, ◌≢◌, inl, inr, refl, sym, ◌∙◌, ap, Bool, true, false, ◌&&◌, List, [], ◌∷◌,
  arith, leb, ◌==◌, Bool-cases,
}
use black_hole_os.Kernel.Memory.{Ptr}
use black_hole_os.Kernel.Memory.Blocks.{Block, block, after}
use black_hole_os.Kernel.Memory.Alloc.{carve, first_fit}
use black_hole_os.Kernel.Memory.FirstFit.{first_fit-bound}
use black_hole_os.Kernel.Memory.Free.{join, merge}
use black_hole_os.Kernel.Memory.Release.{release, merge_all}

-- No two free blocks touch, nor does the first touch a free one before it, if `f`.
abbrev pub TidyAfter : Bool → List Block → Type 0
TidyAfter f [] = Unit
TidyAfter f (b ∷ bs) = ((f && b.free) ≡ false) × TidyAfter b.free bs

abbrev pub IsTidy : List Block → Type 0
IsTidy = TidyAfter false

pub TidyAfter-IsTidy : (f : Bool) (bs : List Block) → TidyAfter f bs → IsTidy bs
TidyAfter-IsTidy f [] h = tt
TidyAfter-IsTidy f (b ∷ bs) h = (refl, h.1)

-- Joining the free neighbours tidies any heap.
merge-IsTidy :
    (f : Bool) (b : Block) (bs : List Block) → (f && b.free) ≡ false → TidyAfter f (merge b bs)
unfolding merge
merge-IsTidy f b [] h = (h, tt)
merge-IsTidy f b (c ∷ bs) h = elim (Bool-cases (b.free && c.free)) [
  | inl both ↦ rw both (merge-IsTidy f (join b c) bs h)
  | inr apart ↦ rw apart (h, merge-IsTidy b.free c bs apart)
]

pub merge_all-IsTidy : (bs : List Block) → IsTidy (merge_all bs)
unfolding merge_all
merge_all-IsTidy [] = tt
merge_all-IsTidy (b ∷ bs) = merge-IsTidy false b bs refl

-- Taking a block keeps a heap tidy.
pub first_fit-IsTidy :
    (n : ℕ) (f : Bool) (p : Ptr) (bs : List Block)
    → TidyAfter f bs
    → TidyAfter f (first_fit n p bs).1
unfolding first_fit carve
first_fit-IsTidy n f p [] h = tt
first_fit-IsTidy n f p (b ∷ bs) h = elim (Bool-cases (b.free && leb n b.size)) [
  | inl hit ↦ rw hit (elim (Bool-cases (leb (n + 16) b.size)) [
    | inl roomy ↦
        let free : b.free ≡ true = ground arith in
        let rest = h.1 in rw roomy (ground arith, (refl, rw free at rest))
    | inr tight ↦ rw tight (ground arith, TidyAfter-IsTidy b.free bs h.1)
  ])
  | inr miss ↦ rw miss (h.0, first_fit-IsTidy n b.free (after p b) bs h.1)
]

-- In a tidy heap there is nothing to join.
merge_tidy : (b : Block) (bs : List Block) → TidyAfter b.free bs → merge b bs ≡ b ∷ bs
unfolding merge
merge_tidy b [] h = refl
merge_tidy b (c ∷ bs) h = rw h.0 (ap (λ (xs : List Block). b ∷ xs) (merge_tidy c bs h.1))

head_free : Bool → List Block → Bool
head_free d [] = d
head_free d (b ∷ bs) = b.free

head_free-merge : (d : Bool) (b : Block) (bs : List Block) → head_free d (merge b bs) ≡ b.free
unfolding head_free merge
head_free-merge d b [] = refl
head_free-merge d b (c ∷ bs) = elim (Bool-cases (b.free && c.free)) [
  | inl both ↦ rw both (head_free-merge d (join b c) bs)
  | inr apart ↦ rw apart
]

-- Joining behind `b` first, and finding nothing to join with `b`.
merge_behind :
    (b : Block) (xs bs : List Block) → TidyAfter b.free bs → merge_all xs ≡ bs → merge b xs ≡ b ∷ bs
unfolding merge merge_all head_free
merge_behind b [] bs h e = ap (λ (xs : List Block). b ∷ xs) e
merge_behind b (c ∷ xs) [] h e =
    let as_true = ap (head_free true) (sym e) ∙ head_free-merge true c xs in
    let as_false = ap (head_free false) (sym e) ∙ head_free-merge false c xs in cc
merge_behind b (c ∷ xs) (d ∷ bs) h e =
    let same : d.free ≡ c.free = ap (head_free false) (sym e) ∙ head_free-merge false c xs in
    let apart : (b.free && c.free) ≡ false = rw (← same) h.0 in
    rw apart (ap (λ (xs : List Block). b ∷ xs) e)

module _ (n : ℕ) (p : Ptr) (b : Block) (bs : List Block) (free : b.free ≡ true)
    (h : TidyAfter b.free bs) where
  -- A taken block that is given back is joined with what was left of it.
  release-carve : n ≤ b.size → merge_all (release (p + 12) p (carve b n bs)) ≡ b ∷ bs
  unfolding carve release merge_all merge
  release-carve fits =
      let found : (p + 12 == p + 12) ≡ true = ground arith in
      elim (Bool-cases (leb (n + 16) b.size)) [
        | inl roomy ↦
            let e : block (n + (12 + (b.size - (n + 12)))) true ≡ b = ground arith in
            rw (roomy, found, e) (merge_tidy b bs h)
        | inr tight ↦
            let e : block b.size true ≡ b = ground arith in
            rw (tight, found) (ap (λ (c : Block). merge c bs) e ∙ merge_tidy b bs h)
      ]

-- Taking a block and giving it back restores a tidy heap.
pub release-first_fit :
    (n : ℕ) (p : Ptr) (bs : List Block)
    → IsTidy bs
    → (first_fit n p bs).0 ≢ 0
    → merge_all (release (first_fit n p bs).0 p (first_fit n p bs).1) ≡ bs
unfolding first_fit carve release merge_all
release-first_fit n p [] h ne = absurd (ne refl)
release-first_fit n p (b ∷ bs) h ne = elim (Bool-cases (b.free && leb n b.size)) [
  | inl hit ↦ rw hit (release-carve n p b bs (ground arith) h.1 (ground arith))
  | inr miss ↦
      let ne' = rw miss at ne in
      let far = first_fit-bound n (after p b) bs ne' in
      let other : (p + 12 == (first_fit n (after p b) bs).0) ≡ false = ground arith in
      rw (miss, other)
        (merge_behind b _ bs h.1
          (release-first_fit n (after p b) bs (TidyAfter-IsTidy b.free bs h.1) ne'))
]
