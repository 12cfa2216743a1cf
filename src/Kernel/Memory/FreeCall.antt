-- ===== src/Kernel/Memory/FreeCall.antt =====
-- `memory_free` of kernel/memory.c on the heap of the kernel.
use black_hole_os.Prelude.{
  ℕ, ◌↔◌, ◌+◌, ◌-◌, ◌%◌, ◌^◌, ◌<◌, ◌≡◌, ◌≢◌, ◌⊎◌, inl, inr, ◌∙◌, ap, false, some, List, [], ◌∷◌,
  arith, length, leb, ◌==◌, ◌&&◌, sym, refl, subst, Bool-cases,
}
use black_hole_os.Kernel.Memory.{
  Ptr, Mem, store, heap_start, max_rounds, align, memory_alloc, memory_free, coalesce,
}
use black_hole_os.Kernel.Memory.Store.{store_ne}
use black_hole_os.Kernel.Memory.Blocks.{Block, after, IsHeap, InUse}
use black_hole_os.Kernel.Memory.Alloc.{first_fit, carve}
use black_hole_os.Kernel.Memory.Free.{coalesce-Merged, link-merge}
use black_hole_os.Kernel.Memory.Release.{
  Owns, Owns-bound, Owns-le, InBlock, release, merge_all, release-Chain, InUse-ne_flag,
  length-release, InUse-release, release-InUse, merge-InUse,
}
use black_hole_os.Kernel.Memory.Tidy.{IsTidy, merge_all-IsTidy, release-first_fit}
use black_hole_os.Kernel.Memory.AllocCall.{
  nonempty_of_link, fuel_enough, returned, served, SameInUse,
}

-- What `memory_free` makes of the blocks.
abbrev pub freed : Ptr → List Block → List Block
freed ptr bs = merge_all (release ptr heap_start bs)

freed_of_release :
    (fuel : ℕ) (m : Mem) (bs : List Block)
    → IsHeap m bs
    → length bs + 1 < fuel
    → (m' : Mem) × (coalesce fuel m heap_start ≡ some m')
      × IsHeap m' (merge_all bs)
      × ((q : Ptr) → InUse q heap_start (merge_all bs) → m' q ≡ m q)
unfolding merge_all
freed_of_release fuel m [] h enough = let no_block = h.some_block in absurd (omega arith)
freed_of_release fuel m (b ∷ bs) h enough =
    let (m', e, chain, same) =
      coalesce-Merged fuel m heap_start b bs h.chain (omega arith) (omega arith) in
    (
      m',
      e,
      record {
        chain = chain;
        some_block = nonempty_of_link heap_start _ (omega arith) (link-merge heap_start b bs);
      },
      λ q used. same q (inr ((merge-InUse q heap_start b bs).1 used)),
    )

merge_all-InUse :
    (q : Ptr) (bs : List Block) → InUse q heap_start bs ↔ InUse q heap_start (merge_all bs)
unfolding merge_all
merge_all-InUse q [] = (λ h. h, λ h. h)
merge_all-InUse q (b ∷ bs) = merge-InUse q heap_start b bs

-- What a call does that gives back the block at `ptr`.
abbrev pub Gives : Ptr → Mem → List Block → Mem → Type 0
Gives ptr m bs m' =
    IsHeap m' (freed ptr bs)
    × IsTidy (freed ptr bs)
    × ((q : Ptr) → InUse q heap_start (freed ptr bs) → InUse q heap_start bs × (m' q ≡ m q))
    × ((q : Ptr)
        → InUse q heap_start bs
        → InUse q heap_start (freed ptr bs) ⊎ InBlock ptr q heap_start bs)

module _ (m : Mem) (bs : List Block) (ptr : Ptr) (h : IsHeap m bs)
    (own : Owns ptr heap_start bs) where
  header_address : (ptr + 2 ^ 32 - 12) % 2 ^ 32 ≡ ptr - 12
  header_address =
      omega (arith, Owns-bound ptr heap_start bs own, Owns-le m ptr heap_start bs h.chain own)

  -- At the data of a block in use `memory_free` ends; the heap is whole, and no two free blocks
  -- touch; what is in use was in use before, with the same words, and what was in use before is so
  -- still, but for the block at `ptr`.
  pub memory_free-Gives : (m' : Mem) × (memory_free m ptr ≡ some m') × Gives ptr m bs m'
  unfolding memory_free
  memory_free-Gives =
      let far = Owns-bound ptr heap_start bs own in
      let not_null : (ptr == 0) ≡ false = ground arith in
      let flag = ptr - 12 + 4 in
      let flagged : IsHeap (store m flag 1) (release ptr heap_start bs) = record {
        chain = release-Chain m ptr flag heap_start bs (omega arith) h.chain own;
        some_block = omega (arith, h.some_block, length-release ptr heap_start bs);
      } in
      let (m', e, heap, same) =
        freed_of_release max_rounds (store m flag 1) (release ptr heap_start bs) flagged
          (omega (arith, fuel_enough m bs max_rounds h refl, length-release ptr heap_start bs)) in
      let before = λ (q : Ptr) (used : InUse q heap_start (freed ptr bs)).
        InUse-release ptr q heap_start bs
          ((merge_all-InUse q (release ptr heap_start bs)).1 used) in
      rw (not_null, header_address)
        (
          m',
          e,
          (
            heap,
            merge_all-IsTidy (release ptr heap_start bs),
            λ q used. (
              before q used,
              same q used
                  ∙ store_ne m flag 1 q
                      (InUse-ne_flag flag ptr q heap_start bs (omega arith) own (before q used)),
            ),
            λ q used. elim (release-InUse ptr q heap_start bs used) [
              | inl kept ↦ inl ((merge_all-InUse q (release ptr heap_start bs)).0 kept)
              | inr gone ↦ inr gone
            ],
          ),
        )

Owns-first_fit :
    (n : ℕ) (p : Ptr) (bs : List Block)
    → (first_fit n p bs).0 ≢ 0
    → Owns (first_fit n p bs).0 p (first_fit n p bs).1
unfolding first_fit carve
Owns-first_fit n p [] ne = absurd (ne refl)
Owns-first_fit n p (b ∷ bs) ne = elim (Bool-cases (b.free && leb n b.size)) [
  | inl hit ↦ rw hit (elim (Bool-cases (leb (n + 16) b.size)) [
    | inl roomy ↦ rw roomy (inl (refl, refl))
    | inr tight ↦ rw tight (inl (refl, refl))
  ])
  | inr miss ↦ let ne' = rw miss at ne in rw miss (inr (Owns-first_fit n (after p b) bs ne'))
]

-- Allocate and give back: in a heap where no two free blocks touch, the blocks are the ones from
-- before, and the words of the blocks in use are the same.
pub memory_free-memory_alloc :
    (m : Mem) (bs : List Block) (size : ℕ) (r : Ptr) (m1 : Mem)
    → IsHeap m bs
    → IsTidy bs
    → size ≢ 0
    → memory_alloc m size ≡ some (r, m1)
    → r ≢ 0
    → (m' : Mem) × (memory_free m1 r ≡ some m') × IsHeap m' bs × SameInUse bs m m'
memory_free-memory_alloc m bs size r m1 h tidy ne e got =
    let (at, heap, same) = returned m bs size r m1 h ne e in
    let found : (first_fit (align size) heap_start bs).0 ≢ 0 = λ z. got (at ∙ z) in
    let own : Owns r heap_start (served size bs) =
      subst (λ (a : Ptr). Owns a heap_start (served size bs)) (sym at)
        (Owns-first_fit (align size) heap_start bs found) in
    let (m', freed_ok, (heap', tidy', old, lost)) =
      memory_free-Gives m1 (served size bs) r heap own in
    let back : freed r (served size bs) ≡ bs =
      ap (λ (a : Ptr). freed a (served size bs)) at
      ∙ release-first_fit (align size) heap_start bs tidy found in
    (
      m',
      freed_ok,
      subst (IsHeap m') back heap',
      λ q used. (old q (subst (InUse q heap_start) (sym back) used)).1 ∙ same q used,
    )
