-- ===== src/Prelude/Masks.antt =====
-- Masks and disjoint fields as arithmetic, at every width, and checks over a small range.
use Prim.Native.Nat.{ℕ, zero, suc, ◌+◌, ◌-◌, ◌*◌, ◌/◌, ◌%◌, ◌^◌, ◌≤◌, ◌<◌, bit_and, bit_or}
use mathlib.Core.Path.{◌≡◌, refl, ap}
use mathlib.Core.Bool.{Bool, true, ◌&&◌}
use native.Mathlib.Omega.{arith}
use native.Mathlib.Nat.{pow-suc, one-le-pow}
use xphone_go.Prelude.Bits.{
  bit_at, bit_at-suc, bit_and_step, bit_or_step, bit_and-one, bit_and-zero, half_mod, low_mod,
}

bit_or-zero_fuel : (n a : ℕ) → a ≤ n → bit_or a 0 ≡ a
bit_or-zero_fuel n zero h = refl
bit_or-zero_fuel zero (suc a) h = absurd (omega arith)
bit_or-zero_fuel (suc n) (suc a) h =
    omega (arith, bit_or_step (suc a) 0, bit_or-zero_fuel n (suc a / 2) (omega arith))

scale_suc : (w n : ℕ) → w * 2 ^ suc n ≡ 2 * (w * 2 ^ n)
scale_suc w n = omega (arith, ap (λ (x : ℕ). w * x) (pow-suc 2 n))

-- Disjoint fields are joined by a sum.
pub bit_or_disjoint : (k q r : ℕ) → r < 2 ^ k → bit_or (q * 2 ^ k) r ≡ q * 2 ^ k + r
bit_or_disjoint zero q zero h =
    let e : q * 2 ^ 0 ≡ q = omega arith in rw e (omega (arith, bit_or-zero_fuel q q (omega arith)))
bit_or_disjoint zero q (suc r) h = absurd (omega arith)
bit_or_disjoint (suc k) q r h =
    let half : q * 2 ^ suc k / 2 ≡ q * 2 ^ k = omega (arith, scale_suc q k) in
    omega (
      arith,
      bit_or_step (q * 2 ^ suc k) r,
      scale_suc q k,
      ap (λ (t : ℕ). bit_or t (r / 2)) half,
      bit_or_disjoint k q (r / 2) (omega (arith, pow-suc 2 k)),
    )

-- A mask of one bit keeps it where it stands.
pub bit_and-pow : (k a : ℕ) → bit_and a (2 ^ k) ≡ bit_at a k * 2 ^ k
bit_and-pow zero a = omega (arith, bit_and-one a)
bit_and-pow (suc k) a =
    let half : 2 ^ suc k / 2 ≡ 2 ^ k = omega (arith, pow-suc 2 k) in
    omega (
      arith,
      bit_and_step a (2 ^ suc k),
      pow-suc 2 k,
      ap (λ (t : ℕ). bit_and (a / 2) t) half,
      bit_and-pow k (a / 2),
      bit_at-suc a k,
      scale_suc (bit_at (a / 2) k) k,
      ap (λ (t : ℕ). t * 2 ^ suc k) (bit_at-suc a k),
    )

-- A mask of `k` low bits is the remainder by `2 ^ k`.
pub bit_and-mask : (k a : ℕ) → bit_and a (2 ^ k - 1) ≡ a % 2 ^ k
bit_and-mask zero a = omega (arith, bit_and-zero a)
bit_and-mask (suc k) a =
    let half : (2 ^ suc k - 1) / 2 ≡ 2 ^ k - 1 =
      omega (arith, pow-suc 2 k, one-le-pow k 2 (omega arith)) in
    omega (
      arith,
      bit_and_step a (2 ^ suc k - 1),
      pow-suc 2 k,
      one-le-pow k 2 (omega arith),
      ap (λ (t : ℕ). bit_and (a / 2) t) half,
      bit_and-mask k (a / 2),
      ap (λ (t : ℕ). a % t) (pow-suc 2 k),
      half_mod a (2 ^ k) (one-le-pow k 2 (omega arith)),
      low_mod a (2 ^ k),
    )

-- A check of every value below a bound, by evaluation.
module _ (p : ℕ → Bool) where
  unfoldable pub all_below : ℕ → Bool
  all_below zero = true
  all_below (suc n) = p n && all_below n

  pub all_below_sound : (n x : ℕ) → all_below n ≡ true → x < n → p x ≡ true
  unfolding all_below
  all_below_sound zero x h lt = absurd (omega arith)
  all_below_sound (suc n) x h lt = ground (arith, all_below_sound n x)
