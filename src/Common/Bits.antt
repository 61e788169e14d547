-- ===== src/Common/Bits.antt =====
-- The C operators `|`, `&` and `^` on unsigned numbers. The native operations are defined by a
-- recursion on binary digits; from its lowest digit follow the laws that the program relies on.
use Prim.Native.Nat.{
  ℕ, zero, suc, ◌+◌, ◌*◌, ◌/◌, ◌%◌, ◌^◌, ◌≤◌, ◌<◌, min, max, bit_and, bit_or, bit_xor, differ,
  digits, bitwise, bit_and-bitwise, bit_or-bitwise, bit_xor-bitwise,
}
use mathlib.Core.Path.{◌≡◌, refl, ap, ◌∙◌}
use native.Mathlib.Decide.{dec_lt}
use native.Mathlib.Nat.{pow-suc}
use native.Mathlib.Omega.{arith}

module _ (alone : ℕ → ℕ) (joint : ℕ → ℕ → ℕ) where
  -- One unit of fuel more than there are digits changes nothing.
  digits_more :
      (fuel x y : ℕ) → x ≤ fuel → digits alone joint (suc fuel) x y ≡ digits alone joint fuel x y
  digits_more zero zero y le = refl
  digits_more zero (suc x) y le = absurd (omega arith)
  digits_more (suc fuel) zero y le = refl
  digits_more (suc fuel) (suc x) y le =
      omega (arith, digits_more fuel (suc x / 2) (y / 2) (omega arith))

  -- So a number is fuel enough for itself.
  digits_own_fuel :
      (fuel x y : ℕ) → x ≤ fuel → digits alone joint fuel x y ≡ digits alone joint x x y
  digits_own_fuel zero zero y le = refl
  digits_own_fuel zero (suc x) y le = absurd (omega arith)
  digits_own_fuel (suc fuel) x y le = elim (dec_lt fuel x) [
    | yes more ↦
        let same : suc fuel ≡ x = omega arith in ap (λ (f : ℕ). digits alone joint f x y) same
    | no fits ↦ digits_more fuel x y (omega arith) ∙ digits_own_fuel fuel x y (omega arith)
  ]

  lowest_digit :
      (x y : ℕ)
      → bitwise alone joint (suc x) y
        ≡ joint (suc x % 2) (y % 2) + 2 * bitwise alone joint (suc x / 2) (y / 2)
  lowest_digit x y = omega (arith, digits_own_fuel x (suc x / 2) (y / 2) (omega arith))

pub bit_or_step : (x y : ℕ) → bit_or x y ≡ max (x % 2) (y % 2) + 2 * bit_or (x / 2) (y / 2)
bit_or_step zero y = simp bit_or-bitwise (omega arith)
bit_or_step (suc x) y = simp bit_or-bitwise (lowest_digit (λ d. d) max x y)

pub bit_and_step : (x y : ℕ) → bit_and x y ≡ min (x % 2) (y % 2) + 2 * bit_and (x / 2) (y / 2)
bit_and_step zero y = simp bit_and-bitwise (omega arith)
bit_and_step (suc x) y = simp bit_and-bitwise (lowest_digit (λ d. 0) min x y)

-- Two digits differ by 1 or agree.
abbrev flip : ℕ → ℕ → ℕ
flip x y = (x + y) % 2

differ-flip : (x y : ℕ) → x < 2 → y < 2 → differ x y ≡ flip x y
differ-flip zero y p q = omega arith
differ-flip (suc zero) zero p q = omega arith
differ-flip (suc zero) (suc zero) p q = omega arith
differ-flip (suc zero) (suc (suc y)) p q = absurd (omega arith)
differ-flip (suc (suc x)) y p q = absurd (omega arith)

pub bit_xor_step : (a b : ℕ) → bit_xor a b ≡ bit_xor (a / 2) (b / 2) * 2 + (a % 2 + b % 2) % 2
bit_xor_step zero b = simp bit_xor-bitwise (omega arith)
bit_xor_step (suc a) b = omega (
  arith,
  bit_xor-bitwise (suc a) b,
  bit_xor-bitwise (suc a / 2) (b / 2),
  lowest_digit (λ d. d) differ a b,
  differ-flip (suc a % 2) (b % 2) (omega arith) (omega arith),
)

bit_and-nothing : (bound x : ℕ) → x ≤ bound → bit_and x 0 ≡ 0
bit_and-nothing bound zero le = refl
bit_and-nothing zero (suc x) le = absurd (omega arith)
bit_and-nothing (suc bound) (suc x) le =
    omega (arith, bit_and-nothing bound (suc x / 2) (omega arith), bit_and_step (suc x) 0)

pub bit_and-one : (x : ℕ) → bit_and x 1 ≡ x % 2
bit_and-one x = omega (arith, bit_and-nothing (x / 2) (x / 2) (omega arith), bit_and_step x 1)

pub bit_and-three : (a : ℕ) → bit_and a 3 ≡ a % 4
bit_and-three a = omega (arith, bit_and_step a 3, bit_and-one (a / 2))

bit_and-fifteen : (a : ℕ) → bit_and a 15 ≡ a % 16
bit_and-fifteen a =
    omega (arith, bit_and_step a 15, bit_and_step (a / 2) 7, bit_and-three (a / 2 / 2))

-- `x & 0xFF` keeps the low byte.
pub bit_and-low_byte : (a : ℕ) → bit_and a 255 ≡ a % 256
bit_and-low_byte a = omega (
  arith,
  bit_and_step a 255,
  bit_and_step (a / 2) 127,
  bit_and_step (a / 2 / 2) 63,
  bit_and_step (a / 2 / 2 / 2) 31,
  bit_and-fifteen (a / 2 / 2 / 2 / 2),
)

double_shift : (hi k : ℕ) → hi * 2 ^ suc k ≡ 2 * (hi * 2 ^ k)
double_shift hi k = omega (arith, ap (λ (power : ℕ). hi * power) (pow-suc 2 k))

-- `lo | (hi << k)` is a sum when `lo` fits k bits.
pub bit_or-shifted : (k lo hi : ℕ) → lo < 2 ^ k → bit_or lo (hi * 2 ^ k) ≡ lo + hi * 2 ^ k
bit_or-shifted zero zero hi h = simp bit_or-bitwise (omega arith)
bit_or-shifted zero (suc lo) hi h = absurd (omega arith)
bit_or-shifted (suc k) lo hi h =
    let halved : hi * 2 ^ suc k / 2 ≡ hi * 2 ^ k = omega (arith, double_shift hi k) in
    let upper = bit_or-shifted k (lo / 2) hi (omega (arith, pow-suc 2 k)) in
    omega (
      arith,
      upper,
      ap (bit_or (lo / 2)) halved,
      double_shift hi k,
      bit_or_step lo (hi * 2 ^ suc k),
    )

bit_xor_twice_below : (n a k : ℕ) → a ≤ n → k ≤ n → bit_xor (bit_xor a k) k ≡ a
bit_xor_twice_below zero zero zero p q = refl
bit_xor_twice_below zero zero (suc k) p q = absurd (omega arith)
bit_xor_twice_below zero (suc a) k p q = absurd (omega arith)
bit_xor_twice_below (suc n) a k p q = omega (
  arith,
  bit_xor_step a k,
  bit_xor_step (bit_xor a k) k,
  ap (λ (t : ℕ). bit_xor t (k / 2))
      (let e : bit_xor a k / 2 ≡ bit_xor (a / 2) (k / 2) = omega (arith, bit_xor_step a k) in e),
  bit_xor_twice_below n (a / 2) (k / 2) (omega arith) (omega arith),
)

-- Exclusive or with the same number twice gives the first one back.
pub bit_xor_twice : (a k : ℕ) → bit_xor (bit_xor a k) k ≡ a
bit_xor_twice a k = bit_xor_twice_below (a + k) a k (omega arith) (omega arith)

bit_xor-lt_double :
    (m a b : ℕ)
    → ((c d : ℕ) → c < m → d < m → bit_xor c d < m)
    → a < 2 * m
    → b < 2 * m
    → bit_xor a b < 2 * m
bit_xor-lt_double m a b half p q =
    omega (arith, bit_xor_step a b, half (a / 2) (b / 2) (omega arith) (omega arith))

bit_xor-lt_pow : (k a b : ℕ) → a < 2 ^ k → b < 2 ^ k → bit_xor a b < 2 ^ k
bit_xor-lt_pow zero zero zero p q = omega arith
bit_xor-lt_pow zero zero (suc b) p q = absurd (omega arith)
bit_xor-lt_pow zero (suc a) b p q = absurd (omega arith)
bit_xor-lt_pow (suc k) a b p q = omega (
  arith,
  pow-suc 2 k,
  bit_xor-lt_double (2 ^ k) a b (bit_xor-lt_pow k) (omega (arith, pow-suc 2 k))
      (omega (arith, pow-suc 2 k)),
)

-- Bytes are closed under exclusive or.
pub bit_xor-lt_byte : (a b : ℕ) → a < 256 → b < 256 → bit_xor a b < 256
bit_xor-lt_byte a b p q = bit_xor-lt_pow 8 a b p q
