-- ===== src/Prelude/Bits.antt =====
-- Masks as arithmetic.
use Prim.Native.Nat.{
  ℕ, zero, suc, ◌+◌, ◌-◌, ◌*◌, ◌/◌, ◌%◌, ◌^◌, ◌≤◌, ◌<◌, min, max, digits, bitwise, bit_and, bit_or,
  bit_and-bitwise, bit_or-bitwise,
}
use mathlib.Core.Path.{◌≡◌, refl, ap, sym, ◌∙◌}
use native.Mathlib.Nat.{
  pow-suc, le_refl, mod-eq_of_lt, mod-lt, div-add-mod, mul-add-mod_self_left, div-div-eq-div-mul,
  div-one, pow-succ',
}
use native.Mathlib.Omega.{arith}

module _ (z : ℕ → ℕ) (f : ℕ → ℕ → ℕ) where
  -- One more digit to go changes nothing where there is a digit to go for each of the number's.
  one_more_digit : (n a b : ℕ) → a ≤ n → digits z f (suc n) a b ≡ digits z f n a b
  one_more_digit zero zero b h = refl
  one_more_digit (suc n) zero b h = refl
  one_more_digit zero (suc a) b h = absurd (omega arith)
  one_more_digit (suc n) (suc a) b h =
      let half = one_more_digit n (suc a / 2) (b / 2) (omega arith) in rw half

  more_digits : (k n m a b : ℕ) → m ≡ n + k → a ≤ n → digits z f m a b ≡ digits z f n a b
  more_digits zero n m a b e h = let same : m ≡ n = omega arith in rw same
  more_digits (suc k) n zero a b e h = absurd (omega arith)
  more_digits (suc k) n (suc m) a b e h =
      one_more_digit m a b (omega arith) ∙ more_digits k n m a b (omega arith) h

  bitwise_lowest :
      (a b : ℕ)
      → bitwise z f (suc a) b ≡ bitwise z f (suc a / 2) (b / 2) * 2 + f (suc a % 2) (b % 2)
  bitwise_lowest a b =
      ap (λ (d : ℕ). d * 2 + f (suc a % 2) (b % 2))
        (more_digits (a - suc a / 2) (suc a / 2) a (suc a / 2) (b / 2) (omega arith) (le_refl _))

-- One digit of `&` and of `|`.
bit_and_lowest : (x y : ℕ) → bit_and x y ≡ bit_and (x / 2) (y / 2) * 2 + min (x % 2) (y % 2)
bit_and_lowest zero y = simp bit_and-bitwise (omega arith)
bit_and_lowest (suc x) y = simp bit_and-bitwise (bitwise_lowest (λ d. 0) min x y)

bit_or_lowest : (x y : ℕ) → bit_or x y ≡ bit_or (x / 2) (y / 2) * 2 + max (x % 2) (y % 2)
bit_or_lowest zero y = simp bit_or-bitwise (omega arith)
bit_or_lowest (suc x) y = simp bit_or-bitwise (bitwise_lowest (λ d. d) max x y)

bit_and_none : (k x : ℕ) → x ≤ k → bit_and x 0 ≡ 0
bit_and_none zero x h = let e : x ≡ 0 = omega arith in rw e
bit_and_none (suc k) x h = omega (arith, bit_and_lowest x 0, bit_and_none k (x / 2) (omega arith))

bit_or_none : (k x : ℕ) → x ≤ k → bit_or x 0 ≡ x
bit_or_none zero x h = let e : x ≡ 0 = omega arith in rw e
bit_or_none (suc k) x h = omega (arith, bit_or_lowest x 0, bit_or_none k (x / 2) (omega arith))

mod_double : (x m : ℕ) → 0 < m → x / 2 % m * 2 + x % 2 ≡ x % (m * 2)
mod_double x m positive =
    let r = x / 2 % m * 2 + x % 2 in
    let small : r < m * 2 = omega (arith, mod-lt (x / 2) {m = m} positive) in
    let product : m * 2 * (x / 2 / m) ≡ m * (x / 2 / m) * 2 = grind arith in
    let split : m * 2 * (x / 2 / m) + r ≡ x = omega (arith, div-add-mod (x / 2) m, product) in
    sym (
      ap (λ (n : ℕ). n % (m * 2)) (sym split)
      ∙ mul-add-mod_self_left (m * 2) (x / 2 / m) r
      ∙ mod-eq_of_lt small)

two_power_pos : (k : ℕ) → 0 < 2 ^ k
two_power_pos zero = omega arith
two_power_pos (suc k) = omega (arith, pow-suc 2 k, two_power_pos k)

-- `x & (2^k - 1)`
pub bit_and-mod : (k x : ℕ) → bit_and x (2 ^ k - 1) ≡ x % 2 ^ k
bit_and-mod zero x = bit_and_none x x (le_refl x) ∙ omega arith
bit_and-mod (suc k) x =
    let double = pow-suc 2 k in
    let positive : 0 < 2 ^ k = two_power_pos k in
    let half : (2 ^ k * 2 - 1) / 2 ≡ 2 ^ k - 1 = omega arith in
    let odd : (2 ^ k * 2 - 1) % 2 ≡ 1 = omega arith in
    rw double (
      bit_and_lowest x (2 ^ k * 2 - 1)
      ∙ rw (half, odd, bit_and-mod k (x / 2)) (omega (arith, mod_double x (2 ^ k) positive)))

-- `x * 2^k | y` for a `y` of `k` digits
pub bit_or-add : (k x y : ℕ) → y < 2 ^ k → bit_or (x * 2 ^ k) y ≡ x * 2 ^ k + y
bit_or-add zero x y h =
    let e : y ≡ 0 = omega arith in rw e (bit_or_none (x * 1) (x * 1) (le_refl _) ∙ omega arith)
bit_or-add (suc k) x y h =
    let double = pow-suc 2 k in
    let product : x * (2 ^ k * 2) ≡ x * 2 ^ k * 2 = grind arith in
    let half : x * 2 ^ k * 2 / 2 ≡ x * 2 ^ k = omega arith in
    let even : x * 2 ^ k * 2 % 2 ≡ 0 = omega arith in
    let small : y / 2 < 2 ^ k = omega (arith, h, double) in
    rw (double, product)
      (bit_or_lowest (x * 2 ^ k * 2) y
        ∙ rw (half, even, bit_or-add k x (y / 2) small) (omega arith))

div_double : (x k : ℕ) → x / 2 / 2 ^ k ≡ x / 2 ^ suc k
div_double x k = div-div-eq-div-mul x 2 (2 ^ k) ∙ ap (λ (n : ℕ). x / n) (sym (pow-succ' 2 k))

module _ (k y : ℕ) where
  shift_once : (y * 2 ^ suc k / 2 ≡ y * 2 ^ k) × (y * 2 ^ suc k % 2 ≡ 0)
  shift_once =
      let product : y * (2 ^ k * 2) ≡ y * 2 ^ k * 2 = grind arith in
      rw (pow-suc 2 k, product) (omega arith, omega arith)

-- `x & (y << k)`
pub bit_and-high : (k x y : ℕ) → bit_and x (y * 2 ^ k) ≡ bit_and (x / 2 ^ k) y * 2 ^ k
bit_and-high zero x y =
    let unit : y * 1 ≡ y = omega arith in
    let whole : x / 1 ≡ x = div-one x in rw (unit, whole) (omega arith)
bit_and-high (suc k) x y =
    let (half, even) = shift_once k y in
    let product : bit_and (x / 2 ^ suc k) y * 2 ^ suc k ≡ bit_and (x / 2 ^ suc k) y * 2 ^ k * 2 =
      rw (pow-suc 2 k) (grind arith) in
    bit_and_lowest x (y * 2 ^ suc k)
    ∙ rw (half, even, bit_and-high k (x / 2) y, div_double x k) (omega (arith, product))

-- `(x | y << k) >> k`
pub bit_or-high : (k x y : ℕ) → bit_or x (y * 2 ^ k) / 2 ^ k ≡ bit_or (x / 2 ^ k) y
bit_or-high zero x y =
    let unit : y * 1 ≡ y = omega arith in
    let whole : x / 1 ≡ x = div-one x in rw (unit, whole) (omega arith)
bit_or-high (suc k) x y =
    let (half, even) = shift_once k y in
    let shift : bit_or x (y * 2 ^ suc k) / 2 ≡ bit_or (x / 2) (y * 2 ^ k) =
      rw (bit_or_lowest x (y * 2 ^ suc k), half, even) (omega arith) in
    sym (div_double (bit_or x (y * 2 ^ suc k)) k)
    ∙ rw (shift, bit_or-high k (x / 2) y, div_double x k)

bit_or_empty : (y : ℕ) → bit_or 0 y ≡ y
bit_or_empty y = simp bit_or-bitwise refl

-- `y | x << k` for a `y` of `k` digits
pub bit_or-add_low : (k x y : ℕ) → y < 2 ^ k → bit_or y (x * 2 ^ k) ≡ x * 2 ^ k + y
bit_or-add_low zero x y h = let e : y ≡ 0 = omega arith in rw e (bit_or_empty (x * 1) ∙ omega arith)
bit_or-add_low (suc k) x y h =
    let (half, even) = shift_once k x in
    let product : x * 2 ^ suc k ≡ x * 2 ^ k * 2 = rw (pow-suc 2 k) (grind arith) in
    bit_or_lowest y (x * 2 ^ suc k)
    ∙ rw (half, even, bit_or-add_low k x (y / 2) (omega (arith, h, pow-suc 2 k)))
        (omega (arith, product))
