-- ===== src/Fs/Fat16/Filling.antt =====
-- The loop of `fat16_write_file` of fs/fat16.c over the clusters.
use black_hole_os.Prelude.{
  ℕ, zero, suc, ◌≤◌, ◌≡◌, ◌≢◌, refl, sym, ◌∙◌, ap, ap₂, subst, arith, List, [], ◌∷◌, ◌++◌, length,
  Option, some, none, ◌==◌, if◌then◌else◌, Bool-cases, true, false, inl, inr,
}
use black_hole_os.Drivers.Ata.Disk.{Disk}
use black_hole_os.Fs.Fat16.Volume.{Volume, fat_read_entry, fat_alloc_cluster}
use black_hole_os.Fs.Fat16.Sectors.{Sized}
use black_hole_os.Fs.Fat16.Table.{Found, fat_alloc_cluster-finds}
use black_hole_os.Fs.Fat16.Chain.{Chain, mem}
use black_hole_os.Fs.Fat16.Reading.{chain_data}
use black_hole_os.Fs.Fat16.Regions.{IsRoomy, IsCluster}
use black_hole_os.Fs.Fat16.Writing.{
  Written, chunks, fill, fill-Sized, fill-entry, fill-between, fill-data, fill-others,
}
use black_hole_os.Fs.Fat16.Files.{write_clusters, is_data_cluster}

pub Found-IsCluster : (v : Volume) (disk : Disk) (c : ℕ) → Found v disk 2 2046 c → IsCluster c
Found-IsCluster v disk c found = record { low = found.from; high = omega (arith, found.below) }

pub mem-false :
    (v : Volume) (disk : Disk) (cs : List ℕ) (d : ℕ)
    → ((e : ℕ) → mem e cs ≡ true → IsCluster e × (fat_read_entry v e disk ≡ 0))
    → fat_read_entry v d disk ≢ 0
    → mem d cs ≡ false
mem-false v disk cs d free taken = elim (Bool-cases (mem d cs)) [
  | inl met ↦ absurd (taken (free d met).1)
  | inr apart ↦ apart
]

module _ (v : Volume) (roomy : IsRoomy v) (content : List ℕ) (size : ℕ)
    (enough : size ≤ length content) where
  -- A round that allocates goes on with the cluster.
  pub write_clusters-next :
      (c n first p : ℕ) (disk : Disk)
      → Found v disk 2 2046 (fat_alloc_cluster v disk)
      → write_clusters v content size c (suc n) first p disk
        ≡ write_clusters v content size
            (suc c)
            n
            (if c == 0 then fat_alloc_cluster v disk else first)
            (fat_alloc_cluster v disk)
            (fill v roomy content size enough c p (fat_alloc_cluster v disk) disk)
  unfolding write_clusters
  write_clusters-next c n first p disk found =
      let some_cluster : (fat_alloc_cluster v disk == 0) ≡ false = ground (arith, found.from) in
      rw (some_cluster, write_clusters) refl

  pub write_clusters-full :
      (c n first p r : ℕ) (disk : Disk)
      → fat_alloc_cluster v disk ≡ 0
      → (write_clusters v content size c (suc n) first p disk).0 ≢ some r
  unfolding write_clusters
  write_clusters-full c n first p r disk full e =
      let no_cluster : (fat_alloc_cluster v disk == 0) ≡ true = ground arith in
      let run : write_clusters v content size c (suc n) first p disk ≡ (none, disk) =
        rw (no_cluster, write_clusters) refl in
      let e' = rw run at e in absurd (cc)

  module _ (c p cluster : ℕ) (is : IsCluster cluster) (is_p : IsCluster p) (disk : Disk)
      (sized : Sized disk) (last : fat_read_entry v p disk ≡ 0xFFFF)
      (free : fat_read_entry v cluster disk ≡ 0) where
    abbrev filled : Disk
    filled = fill v roomy content size enough c p cluster disk

    entry :
        (d : ℕ)
        → IsCluster d
        → d ≢ p
        → d ≢ cluster
        → fat_read_entry v d filled ≡ fat_read_entry v d disk
    entry d is_d apart_p apart =
        let later : (p == 0) ≡ false = ground (arith, is_p.low) in
        let e1 : (d == p) ≡ false = ground arith in
        let e2 : (d == cluster) ≡ false = ground arith in
        fill-entry v roomy content size enough c p cluster is (inr is_p) disk sized d is_d
        ∙ rw (later, e1, e2) refl

    apart : p ≢ cluster
    apart e =
        let same : fat_read_entry v p disk ≡ fat_read_entry v cluster disk =
          ap (λ (k : ℕ). fat_read_entry v k disk) e in
        absurd (omega (arith, same, last, free))

    goes_on : fat_read_entry v p filled ≡ cluster
    goes_on =
        let later : (p == 0) ≡ false = ground (arith, is_p.low) in
        let here : (p == p) ≡ true = ground arith in
        fill-entry v roomy content size enough c p cluster is (inr is_p) disk sized p is_p
        ∙ rw (later, here) refl

    ends : fat_read_entry v cluster filled ≡ 0xFFFF
    ends =
        let later : (p == 0) ≡ false = ground (arith, is_p.low) in
        let other : (cluster == p) ≡ false = ground (arith, apart) in
        let here : (cluster == cluster) ≡ true = ground arith in
        fill-entry v roomy content size enough c p cluster is (inr is_p) disk sized cluster is
        ∙ rw (later, other, here) refl

    Written-cons :
        (n : ℕ) (after : Disk) (cs : List ℕ)
        → Written v roomy content size enough cluster (suc c) n filled after cs
        → Written v roomy content size enough p c (suc n) disk after (cluster ∷ cs)
    unfolding chunks chain_data
    Written-cons n after cs written =
        let p_apart =
          mem-false v filled cs p written.were_free
            (λ e. absurd (omega (arith, e, goes_on, is.low))) in
        let new_apart =
          mem-false v filled cs cluster written.were_free (λ e. absurd (omega (arith, e, ends))) in
        let next : fat_read_entry v p after ≡ cluster =
          written.entries p is_p p_apart apart ∙ goes_on in
        let inside : is_data_cluster cluster ≡ true = ground (arith, is.low, is.high) in
        let kept = λ (d : ℕ) (m : mem d (cluster ∷ cs) ≡ false). mem-cons d m in
        record {
          count = ap suc written.count;
          chain =
              subst (λ (k : ℕ). Chain v after k (cluster ∷ cs)) (sym next)
                (refl, inside, written.chain);
          bytes =
              ap₂ (λ (l r : List ℕ). l ++ r)
                (written.others cluster is new_apart
                  ∙ fill-data v roomy content size enough c p cluster is (inr is_p) disk sized)
                written.bytes;
          were_free = λ d m. elim (Bool-cases (d == cluster)) [
            | inl same ↦
                let e : cluster ≡ d = ground arith in
                (subst IsCluster e is, ap (λ (k : ℕ). fat_read_entry v k disk) (sym e) ∙ free)
            | inr other ↦
                let (is_d, freed) = written.were_free d (rw other at m) in
                let ne : d ≢ p = λ e.
                  let same : fat_read_entry v d filled ≡ fat_read_entry v p filled =
                    ap (λ (k : ℕ). fat_read_entry v k filled) e in
                  absurd (omega (arith, same, freed, goes_on, is.low)) in
                let new : d ≢ cluster = λ e. absurd (ground (arith, e, other)) in
                (is_d, sym (entry d is_d ne new) ∙ freed)
          ];
          entries = λ d is_d m ne.
              let (ne_new, m') = kept d m in
              written.entries d is_d m' ne_new ∙ entry d is_d ne ne_new;
          others = λ d is_d m.
              let (ne_new, m') = kept d m in
              written.others d is_d m'
              ∙ fill-others v roomy content size enough c p cluster is (inr is_p) disk sized d is_d
                  ne_new;
          between = λ l behind before.
              written.between l behind before
              ∙ fill-between v roomy content size enough c p cluster is (inr is_p) disk sized l
                  behind before;
          sized = written.sized;
        }
      where
        mem-cons : (d : ℕ) → mem d (cluster ∷ cs) ≡ false → (d ≢ cluster) × (mem d cs ≡ false)
        mem-cons d m = elim (Bool-cases (d == cluster)) [
          | inl same ↦ absurd (let m' = rw same at m in cc)
          | inr other ↦ ((λ e. absurd (ground (arith, e, other))), rw other at m)
        ]

  pub write_clusters-Written :
      (n c first p r : ℕ) (disk : Disk)
      → IsCluster p
      → fat_read_entry v p disk ≡ 0xFFFF
      → Sized disk
      → (write_clusters v content size (suc c) n first p disk).0 ≡ some r
      → (r ≡ first)
        × (cs : List ℕ) × Written v roomy content size enough p
            (suc c)
            n
            disk
            (write_clusters v content size (suc c) n first p disk).1
            cs
  unfolding write_clusters chunks chain_data
  write_clusters-Written zero c first p r disk is_p last sized e = (
    cc,
    [],
    record {
      count = refl;
      chain = rw last refl;
      bytes = refl;
      were_free = λ d m. absurd (cc);
      entries = λ d is_d m ne. refl;
      others = λ d is_d m. refl;
      between = λ l behind before. refl;
      sized = sized;
    },
  )
  write_clusters-Written (suc n) c first p r disk is_p last sized e =
      elim (fat_alloc_cluster-finds v disk) [
        | inr full ↦ absurd (write_clusters-full (suc c) n first p r disk full.0 e)
        | inl found ↦
            let cluster = fat_alloc_cluster v disk in
            let is = Found-IsCluster v disk cluster found in
            let positive : (suc c == 0) ≡ false = ground arith in
            let next : write_clusters v content size (suc c) (suc n) first p disk
                ≡ write_clusters v content size (suc (suc c)) n first cluster
                    (fill v roomy content size enough (suc c) p cluster disk) =
              write_clusters-next (suc c) n first p disk found ∙ rw positive refl in
            let sized' =
              fill-Sized v roomy content size enough (suc c) p cluster is (inr is_p) disk sized in
            let (same, cs, written) =
              write_clusters-Written n (suc c) first cluster r
                (fill v roomy content size enough (suc c) p cluster disk) is
                (ends (suc c) p cluster is is_p disk sized last found.free) sized'
                (sym (ap (λ (out : Option ℕ × Disk). out.0) next) ∙ e) in
            (
              same,
              cluster ∷ cs,
              subst
                  (λ (out : Option ℕ × Disk).
                    Written v roomy content size enough p (suc c) (suc n) disk out.1 (cluster ∷ cs))
                  (sym next)
                  (Written-cons (suc c) p cluster is is_p disk sized last found.free n
                    (write_clusters v content size (suc (suc c)) n first cluster
                      (fill v roomy content size enough (suc c) p cluster disk)).1
                    cs written),
            )
      ]
