-- ===== src/Fs/Fat16/Chain.antt =====
-- Chains of clusters in the allocation table of fs/fat16.c, and what deleting a file does to its
-- own.
use black_hole_os.Prelude.{
  ℕ, zero, suc, ◌<◌, ◌≤◌, ◌≡◌, refl, sym, ◌∙◌, ap, subst, arith, List, [], ◌∷◌, All, length, some,
  ◌==◌, if◌then◌else◌, Bool, Bool-cases, true, false, inl, inr,
}
use black_hole_os.Drivers.Ata.Disk.{Disk}
use black_hole_os.Fs.Fat16.Volume.{Volume, fat_read_entry, fat_write_entry}
use black_hole_os.Fs.Fat16.Sectors.{Sized}
use black_hole_os.Fs.Fat16.Table.{
  HasTable, HasEntry, fat_read_entry-fat_write_entry, fat_write_entry-Sized,
}
use black_hole_os.Fs.Fat16.Files.{is_data_cluster, free_chain}

-- The clusters from `c` to the end of its chain.
abbrev pub Chain : Volume → Disk → ℕ → List ℕ → Type 0
Chain v disk c [] = is_data_cluster c ≡ false
Chain v disk c (x ∷ xs) =
    (x ≡ c) × (is_data_cluster c ≡ true) × Chain v disk (fat_read_entry v c disk) xs

abbrev pub mem : ℕ → List ℕ → Bool
mem d [] = false
mem d (x ∷ xs) = if d == x then true else mem d xs

module _ (v : Volume) (disk : Disk) where
  length-Chain :
      (c : ℕ) (xs ys : List ℕ) → Chain v disk c xs → Chain v disk c ys → length xs ≡ length ys
  length-Chain c [] [] left right = refl
  length-Chain c [] (y ∷ ys) left right = absurd (cc)
  length-Chain c (x ∷ xs) [] left right = absurd (cc)
  length-Chain c (x ∷ xs) (y ∷ ys) left right =
      ap suc (length-Chain (fat_read_entry v c disk) xs ys left.2 right.2)

  -- A cluster of a chain has a chain of its own, which is no longer.
  Chain-mem :
      (c : ℕ) (xs : List ℕ) (d : ℕ)
      → Chain v disk c xs
      → mem d xs ≡ true
      → (ys : List ℕ) × Chain v disk d ys × (length ys ≤ length xs)
  Chain-mem c [] d chain m = absurd (cc)
  Chain-mem c (x ∷ xs) d chain m = elim (Bool-cases (d == x)) [
    | inl same ↦
        let e : x ≡ d = ground arith in
        (x ∷ xs, subst (λ (k : ℕ). Chain v disk k (x ∷ xs)) (sym chain.0 ∙ e) chain, omega arith)
    | inr apart ↦
        let (ys, tail, short) = Chain-mem (fat_read_entry v c disk) xs d chain.2 (rw apart at m) in
        (ys, tail, omega arith)
  ]

  -- A chain that ends meets no cluster twice.
  Chain-once :
      (c : ℕ) (xs : List ℕ)
      → is_data_cluster c ≡ true
      → Chain v disk (fat_read_entry v c disk) xs
      → mem c xs ≡ false
  Chain-once c xs inside chain = elim (Bool-cases (mem c xs)) [
    | inr missing ↦ missing
    | inl met ↦
        let (ys, again, short) = Chain-mem (fat_read_entry v c disk) xs c chain met in
        absurd (omega (arith, length-Chain c (c ∷ xs) ys (refl, inside, chain) again))
  ]

same_cluster : (c d : ℕ) → (c == d) ≡ true → c ≡ d
same_cluster c d e = ground arith

All-mem : (P : ℕ → Type 0) (xs : List ℕ) (d : ℕ) → All P xs → mem d xs ≡ true → P d
All-mem P [] d all m = absurd (cc)
All-mem P (x ∷ xs) d (first, all) m = elim (Bool-cases (d == x)) [
  | inl same ↦ subst P (sym (same_cluster d x same)) first
  | inr apart ↦ All-mem P xs d all (rw apart at m)
]

-- A chain depends on the entries of its clusters only.
pub Chain-agree :
    (v : Volume) (old new : Disk) (c : ℕ) (xs : List ℕ)
    → ((d : ℕ) → mem d xs ≡ true → fat_read_entry v d new ≡ fat_read_entry v d old)
    → Chain v old c xs
    → Chain v new c xs
Chain-agree v old new c [] same chain = chain
Chain-agree v old new c (x ∷ xs) same (here, inside, rest) =
    let first : (c == x) ≡ true = ground arith in
    let next : fat_read_entry v c new ≡ fat_read_entry v c old = same c (rw first refl) in
    let tail = λ (d : ℕ) (m : mem d xs ≡ true).
      same d (elim (Bool-cases (d == x)) [ inl e ↦ rw e refl | inr e ↦ rw e m ]) in
    (
      here,
      inside,
      subst (λ (k : ℕ). Chain v new k xs) (sym next)
          (Chain-agree v old new (fat_read_entry v c old) xs tail rest),
    )

-- Where the table has an entry for every cluster of a chain, and with fuel for one step more than
-- the chain is long, walking the chain frees its clusters, and keeps every other entry.
pub free_chain-Chain :
    (v : Volume) (fuel c : ℕ) (xs : List ℕ) (disk : Disk)
    → HasTable v
    → All (HasEntry v) xs
    → Sized disk
    → Chain v disk c xs
    → length xs < fuel
    → (after : Disk) × (free_chain v fuel c disk ≡ some after)
      × Sized after
      × ((d : ℕ)
          → HasEntry v d
          → fat_read_entry v d after ≡ (if mem d xs then 0 else fat_read_entry v d disk))
unfolding free_chain
free_chain-Chain v zero c xs disk table entries sized chain enough = absurd (omega arith)
free_chain-Chain v (suc fuel) c [] disk table entries sized chain enough =
    (disk, rw chain refl, sized, λ d has. refl)
free_chain-Chain v (suc fuel) c (x ∷ xs) disk table (has_x, entries) sized (here, inside, rest)
      enough =
    let has = subst (HasEntry v) here has_x in
    let freed = fat_write_entry v c 0 disk in
    let next = fat_read_entry v c disk in
    let once = Chain-once v disk c xs inside rest in
    let wrote = λ (d : ℕ) (has_d : HasEntry v d).
      fat_read_entry-fat_write_entry v c d 0 disk table has has_d sized in
    let tail : Chain v freed next xs =
      Chain-agree v disk freed next xs
        (λ d m. elim (Bool-cases (d == c)) [
          | inl same ↦
              let e : mem d xs ≡ mem c xs = ap (λ (k : ℕ). mem k xs) (same_cluster d c same) in
              absurd (cc)
          | inr apart ↦ wrote d (All-mem (HasEntry v) xs d entries m) ∙ rw apart refl
        ])
        rest in
    let (after, run, sized', frees) =
      free_chain-Chain v fuel next xs freed table entries (fat_write_entry-Sized v c 0 disk sized)
        tail (omega arith) in
    (
      after,
      rw (inside, run) refl,
      sized',
      λ d has_d. frees d has_d ∙ elim (Bool-cases (d == c)) [
        | inl same ↦
            let e : d ≡ c = same_cluster d c same in
            let first : (d == x) ≡ true = ground (arith, e, here) in
            let later : mem d xs ≡ false = ap (λ (k : ℕ). mem k xs) e ∙ once in
            rw (first, later) (wrote d has_d ∙ rw same refl)
        | inr apart ↦
            let first : (d == x) ≡ false = ground (arith, apart, here) in
            let old : fat_read_entry v d freed ≡ fat_read_entry v d disk =
              wrote d has_d ∙ rw apart refl in
            rw (first, old) refl
      ],
    )
