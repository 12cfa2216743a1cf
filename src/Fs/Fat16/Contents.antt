-- ===== src/Fs/Fat16/Contents.antt =====
-- The bytes that fs/fat16.c writes to the clusters of a file begin with the file's.
use black_hole_os.Prelude.{
  ℕ, zero, suc, ◌+◌, ◌-◌, ◌*◌, ◌%◌, ◌^◌, ◌<◌, ◌≤◌, ◌≡◌, refl, sym, ◌∙◌, ap, ap₂, arith, List, [],
  ◌∷◌, ◌++◌, length, length-append, take, drop, replicate, min, ltb, Bool-cases, inl, inr,
}
use mathlib.Core.List.{append-nil}
use black_hole_os.Fs.Fat16.Volume.{Volume}
use black_hole_os.Fs.Fat16.Pouring.{take-append, take-nil, length-take, length-drop, drop-drop}
use black_hole_os.Fs.Fat16.Regions.{chunk, length-sector_data}
use black_hole_os.Fs.Fat16.Writing.{chunks}
use black_hole_os.Fs.Fat16.Files.{sector_data, cluster_bytes}

take-add : (m n : ℕ) (xs : List ℕ) → take (m + n) xs ≡ take m xs ++ take n (drop m xs)
take-add zero n xs = ap (λ (k : ℕ). take k xs) {x = 0 + n} {y = n} (omega arith)
take-add (suc m) n [] = take-nil (suc m + n) ∙ sym (take-nil n)
take-add (suc m) n (x ∷ xs) =
    ap (λ (k : ℕ). take k (x ∷ xs)) {x = suc m + n} {y = suc (m + n)} (omega arith)
    ∙ ap (λ (l : List ℕ). x ∷ l) (take-add m n xs)

pub take-exact : (n : ℕ) (xs ys : List ℕ) → length xs ≡ n → take n (xs ++ ys) ≡ xs
take-exact zero [] ys e = refl
take-exact zero (x ∷ xs) ys e = absurd (omega arith)
take-exact (suc n) [] ys e = absurd (omega arith)
take-exact (suc n) (x ∷ xs) ys e = ap (λ (l : List ℕ). x ∷ l) (take-exact n xs ys (omega arith))

take-long : (n : ℕ) (xs : List ℕ) → length xs ≤ n → take n xs ≡ xs
take-long zero [] few = refl
take-long zero (x ∷ xs) few = absurd (omega arith)
take-long (suc n) [] few = refl
take-long (suc n) (x ∷ xs) few = ap (λ (l : List ℕ). x ∷ l) (take-long n xs (omega arith))

module _ (content : List ℕ) (size : ℕ) (enough : size ≤ length content) where
  -- Up to `m` bytes of the file from an offset.
  abbrev piece : ℕ → ℕ → List ℕ
  piece offset m = take (min m (size - offset)) (drop offset content)

  piece-append : (offset m n : ℕ) → piece offset m ++ piece (offset + m) n ≡ piece offset (m + n)
  piece-append offset m n = elim (Bool-cases (ltb (size - offset) m)) [
    | inl short ↦
        let e1 : min m (size - offset) ≡ size - offset = ground arith in
        let e2 : min n (size - (offset + m)) ≡ 0 = ground arith in
        let e3 : min (m + n) (size - offset) ≡ size - offset = ground arith in
        rw (e1, e2, e3) (append-nil (take (size - offset) (drop offset content)))
    | inr long ↦
        let e1 : min m (size - offset) ≡ m = ground arith in
        let e2 : min n (size - (offset + m)) ≡ min n (size - offset - m) = ground arith in
        let e3 : min (m + n) (size - offset) ≡ m + min n (size - offset - m) = ground arith in
        rw (e1, e2, e3)
          (ap (λ (l : List ℕ). take m (drop offset content) ++ take (min n (size - offset - m)) l)
              (sym (drop-drop offset m content))
            ∙ sym (take-add m (min n (size - offset - m)) (drop offset content)))
  ]

  take-sector_data :
      (offset : ℕ) → take (size - offset) (sector_data content size offset) ≡ piece offset 512
  take-sector_data offset = elim (Bool-cases (ltb offset size)) [
    | inr behind ↦ let none_left : size - offset ≡ 0 = ground arith in rw (behind, none_left) refl
    | inl inside ↦ elim (Bool-cases (ltb 512 (size - offset))) [
      | inl whole ↦
          let e : min 512 (size - offset) ≡ 512 = ground arith in
          let taken =
            length-take 512 (drop offset content) (ground (arith, length-drop offset content)) in
          rw (inside, whole, e)
            (ap (take (size - offset)) (append-nil (take 512 (drop offset content)))
              ∙ take-long (size - offset) (take 512 (drop offset content)) (ground (arith, taken)))
      | inr part ↦
          let e : min 512 (size - offset) ≡ size - offset = ground arith in
          let taken =
            length-take (size - offset) (drop offset content)
              (ground (arith, length-drop offset content)) in
          rw (inside, part, e)
            (take-exact (size - offset) (take (size - offset) (drop offset content))
              (replicate (512 - (size - offset)) 0) taken)
    ]
  ]

  length-chunk : (offset sec n : ℕ) → length (chunk content size offset sec n) ≡ n * 512
  unfolding chunk
  length-chunk offset sec zero = refl
  length-chunk offset sec (suc n) =
      let o = (offset + sec * 512) % 2 ^ 32 in
      omega (
        arith,
        length-append (sector_data content size o) (chunk content size offset (suc sec) n),
        length-sector_data content size o enough,
        length-chunk offset (suc sec) n,
      )

  take-chunk :
      (offset sec n : ℕ)
      → offset + (sec + n) * 512 < 2 ^ 32
      → take (size - (offset + sec * 512)) (chunk content size offset sec n)
        ≡ piece (offset + sec * 512) (n * 512)
  unfolding chunk
  take-chunk offset sec zero small =
      take-nil (size - (offset + sec * 512))
      ∙ sym (
          ap (λ (k : ℕ). take k (drop (offset + sec * 512) content))
            {x = min (0 * 512) (size - (offset + sec * 512))} {y = 0} (omega arith))
  take-chunk offset sec (suc n) small =
      let o = offset + sec * 512 in
      let here : (offset + sec * 512) % 2 ^ 32 ≡ o = omega arith in
      let rest = chunk content size offset (suc sec) n in
      let next : size - o - 512 ≡ size - (offset + suc sec * 512) = omega arith in
      let at : offset + suc sec * 512 ≡ o + 512 = omega arith in
      let both : 512 + n * 512 ≡ suc n * 512 = omega arith in
      rw here (
        take-append (size - o) (sector_data content size o) rest
        ∙ ap₂ (λ (l r : List ℕ). l ++ r) (take-sector_data o)
            (ap (λ (k : ℕ). take (size - o - k) rest) (length-sector_data content size o enough)
              ∙ ap (λ (k : ℕ). take k rest) next
              ∙ take-chunk offset (suc sec) n (omega arith)
              ∙ ap (λ (k : ℕ). piece k (n * 512)) at)
        ∙ piece-append o 512 (n * 512)
        ∙ ap (piece o) both)

  pub length-chunks :
      (v : Volume) (c n : ℕ) → length (chunks v content size c n) ≡ n * cluster_bytes v
  unfolding chunks
  length-chunks v c zero = grind arith
  length-chunks v c (suc n) =
      let first = chunk content size (c * cluster_bytes v % 2 ^ 32) 0 v.sectors_per_cluster in
      let step : suc n * cluster_bytes v ≡ n * cluster_bytes v + cluster_bytes v = grind arith in
      omega (
        arith,
        length-append first (chunks v content size (suc c) n),
        length-chunks v (suc c) n,
        length-chunk (c * cluster_bytes v % 2 ^ 32) 0 v.sectors_per_cluster,
        step,
      )

  -- What the clusters get from the one with the number `c` on is the file from there on.
  pub take-chunks :
      (v : Volume) (c n : ℕ)
      → (c + n) * cluster_bytes v < 2 ^ 32
      → take (size - c * cluster_bytes v) (chunks v content size c n)
        ≡ piece (c * cluster_bytes v) (n * cluster_bytes v)
  unfolding chunks
  take-chunks v c zero small =
      let nothing : 0 * cluster_bytes v ≡ 0 = grind arith in
      take-nil (size - c * cluster_bytes v)
      ∙ sym (
          ap (λ (k : ℕ). take k (drop (c * cluster_bytes v) content))
            {x = min (0 * cluster_bytes v) (size - c * cluster_bytes v)} {y = 0}
            (omega (arith, nothing)))
  take-chunks v c (suc n) small =
      let b = cluster_bytes v in
      let at : suc c * b ≡ c * b + b = grind arith in
      let all : suc n * b ≡ b + n * b = grind arith in
      let sum : (c + suc n) * b ≡ c * b + b + n * b = grind arith in
      let sum' : (suc c + n) * b ≡ c * b + b + n * b = grind arith in
      let here : c * b % 2 ^ 32 ≡ c * b = omega (arith, sum) in
      let first = chunk content size (c * b) 0 v.sectors_per_cluster in
      let rest = chunks v content size (suc c) n in
      let zero_on : c * b + 0 * 512 ≡ c * b = omega arith in
      let taken = take-chunk (c * b) 0 v.sectors_per_cluster (omega (arith, sum)) in
      rw (here, all)
        (take-append (size - c * b) first rest
          ∙ ap₂ (λ (l r : List ℕ). l ++ r) (rw zero_on at taken)
              (ap (λ (k : ℕ). take k rest) {x = size - c * b - length first} {y = size - suc c * b}
                  (omega (arith, at, length-chunk (c * b) 0 v.sectors_per_cluster))
                ∙ take-chunks v (suc c) n (omega (arith, sum, sum'))
                ∙ ap (λ (k : ℕ). piece k (n * b)) at)
          ∙ piece-append (c * b) b (n * b))
