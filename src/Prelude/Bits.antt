-- ===== src/Prelude/Bits.antt =====
-- Bits of a number as quotients and remainders, and the bit operations in those terms.
-- `bit_at a k` is bit `k` of `a`; the native operations are read off one digit at a time.
use Prim.Native.Nat.{
  ℕ, zero, suc, ◌+◌, ◌*◌, ◌/◌, ◌%◌, ◌^◌, ◌≤◌, ◌<◌, min, max, bit_and, bit_or, bit_xor, digits,
  differ, bit_and-bitwise, bit_or-bitwise, bit_xor-bitwise,
}
use mathlib.Core.Path.{◌≡◌, refl, sym, ◌∙◌, ap}
use mathlib.Core.Logic.{◌≢◌}
use native.Mathlib.Omega.{arith}
use native.Mathlib.Nat.{pow-suc, div-div-eq-div-mul, mul_comm, one-le-pow, div-add-mod}

-- Two amounts of fuel that cover the first number give the same digits.
module _ (z : ℕ → ℕ) (op : ℕ → ℕ → ℕ) where
  fuel_le : (n m a b : ℕ) → a ≤ n → a ≤ m → digits z op n a b ≡ digits z op m a b
  fuel_le zero zero a b p q = refl
  fuel_le zero (suc m) zero b p q = refl
  fuel_le zero (suc m) (suc a) b p q = absurd (omega arith)
  fuel_le (suc n) zero zero b p q = refl
  fuel_le (suc n) zero (suc a) b p q = absurd (omega arith)
  fuel_le (suc n) (suc m) zero b p q = refl
  fuel_le (suc n) (suc m) (suc a) b p q =
      omega (arith, fuel_le n m (suc a / 2) (b / 2) (omega arith) (omega arith))

  -- One digit of an operation that is given enough fuel.
  digits_step :
      (a b : ℕ)
      → digits z op (suc a) (suc a) b
        ≡ digits z op (suc a / 2) (suc a / 2) (b / 2) * 2 + op (suc a % 2) (b % 2)
  digits_step a b =
      omega (arith, fuel_le a (suc a / 2) (suc a / 2) (b / 2) (omega arith) (omega arith))

module _ (b : ℕ) where
  pub bit_and_halves : (a : ℕ) → bit_and a b ≡ min (a % 2) (b % 2) + 2 * bit_and (a / 2) (b / 2)
  bit_and_halves zero = omega (arith, bit_and-bitwise 0 b, bit_and-bitwise 0 (b / 2))
  bit_and_halves (suc a) = omega (
    arith,
    digits_step (λ _. 0) min a b,
    bit_and-bitwise (suc a) b,
    bit_and-bitwise (suc a / 2) (b / 2),
  )

  pub bit_or_halves : (a : ℕ) → bit_or a b ≡ max (a % 2) (b % 2) + 2 * bit_or (a / 2) (b / 2)
  bit_or_halves zero = omega (arith, bit_or-bitwise 0 b, bit_or-bitwise 0 (b / 2))
  bit_or_halves (suc a) = omega (
    arith,
    digits_step (λ y. y) max a b,
    bit_or-bitwise (suc a) b,
    bit_or-bitwise (suc a / 2) (b / 2),
  )

  differ-zero : (y : ℕ) → differ 0 y ≡ y
  differ-zero y = refl

  pub bit_xor_halves : (a : ℕ) → bit_xor a b ≡ differ (a % 2) (b % 2) + 2 * bit_xor (a / 2) (b / 2)
  bit_xor_halves zero =
      omega (arith, bit_xor-bitwise 0 b, bit_xor-bitwise 0 (b / 2), differ-zero (b % 2))
  bit_xor_halves (suc a) = omega (
    arith,
    digits_step (λ y. y) differ a b,
    bit_xor-bitwise (suc a) b,
    bit_xor-bitwise (suc a / 2) (b / 2),
  )

pub bit_and_step : (x y : ℕ) → bit_and x y ≡ bit_and (x / 2) (y / 2) * 2 + min (x % 2) (y % 2)
bit_and_step x y = omega (arith, bit_and_halves y x)

pub bit_or_step : (x y : ℕ) → bit_or x y ≡ bit_or (x / 2) (y / 2) * 2 + max (x % 2) (y % 2)
bit_or_step x y = omega (arith, bit_or_halves y x)

pub bit_xor_step : (x y : ℕ) → bit_xor x y ≡ bit_xor (x / 2) (y / 2) * 2 + differ (x % 2) (y % 2)
bit_xor_step x y = omega (arith, bit_xor_halves y x)

-- Bit `k` of a number, 0 or 1.
abbrev pub bit_at : ℕ → ℕ → ℕ
bit_at a k = a / 2 ^ k % 2

pub bit_at-suc : (a k : ℕ) → bit_at a (suc k) ≡ bit_at (a / 2) k
bit_at-suc a k = ap (λ (t : ℕ). t % 2) (rw (div-div-eq-div-mul, pow-suc, mul_comm (2 ^ k) 2))

-- The digits of a disjunction are the larger ones, place by place.
pub bit_at-bit_or : (k a b : ℕ) → bit_at (bit_or a b) k ≡ max (bit_at a k) (bit_at b k)
bit_at-bit_or zero a b = omega (arith, bit_or_step a b)
bit_at-bit_or (suc k) a b =
    let half : bit_or a b / 2 ≡ bit_or (a / 2) (b / 2) = omega (arith, bit_or_step a b) in
    bit_at-suc (bit_or a b) k
    ∙ rw (half, bit_at-suc a k, bit_at-suc b k) (bit_at-bit_or k (a / 2) (b / 2))

no_common_bit : (bound x : ℕ) → x < bound → bit_and x 0 ≡ 0
no_common_bit zero x lt = absurd (omega arith)
no_common_bit (suc bound) zero lt = refl
no_common_bit (suc bound) (suc x) lt =
    omega (arith, no_common_bit bound (suc x / 2) (omega arith), bit_and_halves 0 (suc x))

pub bit_and-zero : (x : ℕ) → bit_and x 0 ≡ 0
bit_and-zero x = no_common_bit (suc x) x (omega arith)

pub bit_and-one : (x : ℕ) → bit_and x 1 ≡ x % 2
bit_and-one x = omega (arith, bit_and_halves 1 x, bit_and-zero (x / 2))

differ_twice : (x y : ℕ) → x < 2 → y < 2 → differ (differ x y) y ≡ x
differ_twice zero zero p q = refl
differ_twice zero (suc zero) p q = refl
differ_twice (suc zero) zero p q = refl
differ_twice (suc zero) (suc zero) p q = refl
differ_twice zero (suc (suc y)) p q = absurd (omega arith)
differ_twice (suc zero) (suc (suc y)) p q = absurd (omega arith)
differ_twice (suc (suc x)) y p q = absurd (omega arith)

differ-lt : (x y : ℕ) → x < 2 → y < 2 → differ x y < 2
differ-lt zero y p q = q
differ-lt (suc zero) zero p q = p
differ-lt (suc zero) (suc y) p q = omega arith
differ-lt (suc (suc x)) y p q = absurd (omega arith)

xor_half :
    (a b : ℕ)
    → (bit_xor a b / 2 ≡ bit_xor (a / 2) (b / 2)) × (bit_xor a b % 2 ≡ differ (a % 2) (b % 2))
xor_half a b =
    omega (arith, bit_xor_step a b, differ-lt (a % 2) (b % 2) (omega arith) (omega arith))

bit_xor_twice_fuel : (n a b : ℕ) → a ≤ n → b ≤ n → bit_xor (bit_xor a b) b ≡ a
bit_xor_twice_fuel zero zero zero p q = refl
bit_xor_twice_fuel zero zero (suc b) p q = absurd (omega arith)
bit_xor_twice_fuel zero (suc a) b p q = absurd (omega arith)
bit_xor_twice_fuel (suc n) a b p q =
    bit_xor_step (bit_xor a b) b
    ∙ rw
        (
          (xor_half a b).0,
          (xor_half a b).1,
          bit_xor_twice_fuel n (a / 2) (b / 2) (omega arith) (omega arith),
          differ_twice (a % 2) (b % 2) (omega arith) (omega arith),
        )
        (omega arith)

-- The exclusive or with a key is undone by the same key, at every width.
pub bit_xor_twice : (a b : ℕ) → bit_xor (bit_xor a b) b ≡ a
bit_xor_twice a b = bit_xor_twice_fuel (a + b) a b (omega arith) (omega arith)

-- The exclusive or of two numbers of `k` bits has `k` bits.
pub bit_xor-lt : (k a b : ℕ) → a < 2 ^ k → b < 2 ^ k → bit_xor a b < 2 ^ k
bit_xor-lt zero zero zero p q = p
bit_xor-lt zero zero (suc b) p q = absurd (omega arith)
bit_xor-lt zero (suc a) b p q = absurd (omega arith)
bit_xor-lt (suc k) a b p q = omega (
  arith,
  pow-suc 2 k,
  bit_xor_step a b,
  bit_xor-lt k (a / 2) (b / 2) (omega (arith, pow-suc 2 k)) (omega (arith, pow-suc 2 k)),
  differ-lt (a % 2) (b % 2) (omega arith) (omega arith),
)

pub bit_or-lt : (k a b : ℕ) → a < 2 ^ k → b < 2 ^ k → bit_or a b < 2 ^ k
bit_or-lt zero zero zero p q = p
bit_or-lt zero zero (suc b) p q = absurd (omega arith)
bit_or-lt zero (suc a) b p q = absurd (omega arith)
bit_or-lt (suc k) a b p q = omega (
  arith,
  pow-suc 2 k,
  bit_or_step a b,
  bit_or-lt k (a / 2) (b / 2) (omega (arith, pow-suc 2 k)) (omega (arith, pow-suc 2 k)),
)

bit_at-zero : (k : ℕ) → bit_at 0 k ≡ 0
bit_at-zero zero = refl
bit_at-zero (suc k) = bit_at-suc 0 k ∙ bit_at-zero k

-- A number of `w` bits has no bit from `w` on.
pub bit_at_high : (w a k : ℕ) → a < 2 ^ w → w ≤ k → bit_at a k ≡ 0
bit_at_high zero zero k p q = bit_at-zero k
bit_at_high zero (suc a) k p q = absurd (omega arith)
bit_at_high (suc w) a zero p q = absurd (omega arith)
bit_at_high (suc w) a (suc k) p q =
    bit_at-suc a k ∙ bit_at_high w (a / 2) k (omega (arith, pow-suc 2 w)) (omega arith)

-- A power of two has one bit.
pub bit_at-pow_self : (n : ℕ) → bit_at (2 ^ n) n ≡ 1
bit_at-pow_self zero = refl
bit_at-pow_self (suc n) =
    let half : 2 ^ suc n / 2 ≡ 2 ^ n = omega (arith, pow-suc 2 n) in
    bit_at-suc (2 ^ suc n) n ∙ rw half (bit_at-pow_self n)

pub bit_at-pow_ne : (n k : ℕ) → n ≢ k → bit_at (2 ^ n) k ≡ 0
bit_at-pow_ne zero zero h = absurd (h refl)
bit_at-pow_ne zero (suc k) h = bit_at-suc 1 k ∙ bit_at-zero k
bit_at-pow_ne (suc n) zero h = omega (arith, pow-suc 2 n)
bit_at-pow_ne (suc n) (suc k) h =
    let half : 2 ^ suc n / 2 ≡ 2 ^ n = omega (arith, pow-suc 2 n) in
    bit_at-suc (2 ^ suc n) k ∙ rw half (bit_at-pow_ne n k (λ e. h (ap suc e)))

pub half_mod : (a m : ℕ) → 0 < m → a % (m * 2) / 2 ≡ a / 2 % m
half_mod a m h =
    let q : a / 2 / m ≡ a / (m * 2) = rw (div-div-eq-div-mul, mul_comm 2 m) in
    omega (arith, q, ap (λ (t : ℕ). m * t) q)

pub low_mod : (a m : ℕ) → a % (m * 2) / 1 % 2 ≡ a / 1 % 2
low_mod a m = omega (arith, div-add-mod a (m * 2))

-- The low bits of a number are those of its remainder.
pub bit_at-mod : (w a k : ℕ) → k < w → bit_at (a % 2 ^ w) k ≡ bit_at a k
bit_at-mod zero a k h = elim h [ ]
bit_at-mod (suc w) a zero h = rw (pow-suc 2 w) (low_mod a (2 ^ w))
bit_at-mod (suc w) a (suc k) h =
    bit_at-suc (a % 2 ^ suc w) k
    ∙ rw (pow-suc 2 w, half_mod a (2 ^ w) (one-le-pow w 2 (omega arith)), bit_at-suc a k)
        (bit_at-mod w (a / 2) k (omega arith))

-- A shift to the left moves the bits up.
pub bit_at-shl_low : (n a k : ℕ) → k < n → bit_at (a * 2 ^ n) k ≡ 0
bit_at-shl_low zero a k h = elim h [ ]
bit_at-shl_low (suc n) a zero h = omega (arith, ap (λ (t : ℕ). a * t) (pow-suc 2 n))
bit_at-shl_low (suc n) a (suc k) h =
    let half : a * 2 ^ suc n / 2 ≡ a * 2 ^ n = omega (arith, ap (λ (t : ℕ). a * t) (pow-suc 2 n)) in
    bit_at-suc (a * 2 ^ suc n) k ∙ rw half (bit_at-shl_low n a k (omega arith))

pub bit_at-shl : (n a k : ℕ) → bit_at (a * 2 ^ n) (n + k) ≡ bit_at a k
bit_at-shl zero a k =
    let e : 0 + k ≡ k = omega arith in let f : a * 1 ≡ a = omega arith in rw (e, f)
bit_at-shl (suc n) a k =
    let half : a * 2 ^ suc n / 2 ≡ a * 2 ^ n = omega (arith, ap (λ (t : ℕ). a * t) (pow-suc 2 n)) in
    let e : suc n + k ≡ suc (n + k) = omega arith in
    rw e (bit_at-suc (a * 2 ^ suc n) (n + k) ∙ rw half (bit_at-shl n a k))

-- A shift to the right moves them down.
pub bit_at-shr : (s a k : ℕ) → bit_at (a / 2 ^ s) k ≡ bit_at a (s + k)
bit_at-shr zero a k =
    let e : 0 + k ≡ k = omega arith in let f : a / 1 ≡ a = omega arith in rw (e, f)
bit_at-shr (suc s) a k =
    let split : a / 2 ^ suc s ≡ a / 2 / 2 ^ s =
      rw (div-div-eq-div-mul, pow-suc, mul_comm (2 ^ s) 2) in
    let e : suc s + k ≡ suc (s + k) = omega arith in
    rw (split, e) (bit_at-shr s (a / 2) k ∙ sym (bit_at-suc a (s + k)))
