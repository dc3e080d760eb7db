-- ===== src/Srtp/Replay/Bitmap.antt =====
-- internal/srtp/srtp.go: what uint128's bit, setBit and shl do to single bits.
use xphone_go.Prelude.{
  ℕ, ◌+◌, ◌-◌, ◌*◌, ◌/◌, ◌^◌, ◌≤◌, ◌<◌, ◌≡◌, ◌≢◌, ◌↔◌, ap, ◌∙◌, bit_or, arith, ltb, Bool-cases, inl,
  inr,
}
use xphone_go.Prelude.Bits.{
  bit_at, bit_and-one, bit_at-bit_or, bit_at-pow_ne, bit_at-pow_self, bit_at-mod, bit_at-shl_low,
  bit_at-shl, bit_at-shr, bit_at_high, bit_or-lt,
}
use xphone_go.Srtp.Replay.Defs.{Uint128, bit, set_bit, shl, shl64}

-- Both halves are uint64 values.
pub record Fits (u : Uint128) : Type 0 where
  pub hi_fits : u.hi < 2 ^ 64
  pub lo_fits : u.lo < 2 ^ 64

-- A bit is read from its half.
pub bit_low : (u : Uint128) (n : ℕ) → n < 64 → bit u n ≡ bit_at u.lo n
unfolding bit
bit_low u n h = ground (arith, bit_and-one (u.lo / 2 ^ n))

pub bit_high : (u : Uint128) (n : ℕ) → 64 ≤ n → bit u n ≡ bit_at u.hi (n - 64)
unfolding bit
bit_high u n h = ground (arith, bit_and-one (u.hi / 2 ^ (n - 64)))

-- A shifted uint64, bit by bit.
shl64_low : (x n k : ℕ) → k < 64 → k < n → bit_at (shl64 x n) k ≡ 0
shl64_low x n k h l = bit_at-mod 64 (x * 2 ^ n) k h ∙ bit_at-shl_low n x k l

shl64_bit : (x n k : ℕ) → k < 64 → n ≤ k → bit_at (shl64 x n) k ≡ bit_at x (k - n)
shl64_bit x n k h l = let e : k ≡ n + (k - n) = omega arith in bit_at-mod 64 (x * 2 ^ n) k h ∙ sub e
  where
    sub : k ≡ n + (k - n) → bit_at (x * 2 ^ n) k ≡ bit_at x (k - n)
    sub e = ap (λ (t : ℕ). bit_at (x * 2 ^ n) t) e ∙ bit_at-shl n x (k - n)

one_bit_self : (n : ℕ) → n < 64 → bit_at (shl64 1 n) n ≡ 1
one_bit_self n h =
    shl64_bit 1 n n h (omega arith) ∙ ap (λ (t : ℕ). bit_at 1 t) {x = n - n} {y = 0} (omega arith)

one_bit_ne : (n k : ℕ) → k < 64 → n ≢ k → bit_at (shl64 1 n) k ≡ 0
one_bit_ne n k h d =
    let e : 1 * 2 ^ n ≡ 2 ^ n = omega arith in
    bit_at-mod 64 (1 * 2 ^ n) k h ∙ rw e (bit_at-pow_ne n k d)

bit_at-lt : (a k : ℕ) → bit_at a k < 2
bit_at-lt a k = omega arith

-- Setting bit `n` of a half sets it and leaves the others.
half_self : (a n : ℕ) → n < 64 → bit_at (bit_or a (shl64 1 n)) n ≡ 1
half_self a n h = omega (arith, bit_at-bit_or n a (shl64 1 n), one_bit_self n h, bit_at-lt a n)

half_ne : (a n k : ℕ) → k < 64 → n ≢ k → bit_at (bit_or a (shl64 1 n)) k ≡ bit_at a k
half_ne a n k h d = omega (arith, bit_at-bit_or k a (shl64 1 n), one_bit_ne n k h d)

pub set_bit_self : (u : Uint128) (n : ℕ) → n < 128 → bit (set_bit u n) n ≡ 1
unfolding set_bit
set_bit_self u n h = elim (Bool-cases (ltb n 64)) [
  | inl l ↦ bit_low (set_bit u n) n (ground arith) ∙ rw l (half_self u.lo n (ground arith))
  | inr g ↦ bit_high (set_bit u n) n (ground arith) ∙ rw g (half_self u.hi (n - 64) (ground arith))
]

pub set_bit_ne : (u : Uint128) (n k : ℕ) → n < 128 → k < 128 → n ≢ k → bit (set_bit u n) k ≡ bit u k
unfolding set_bit
set_bit_ne u n k hn hk d = elim (Bool-cases (ltb k 64)) [
  | inl l ↦ ground (arith, bit_low (set_bit u n) k, bit_low u k, half_ne u.lo n k (ground arith) d)
  | inr g ↦
      ground (
        arith,
        bit_high (set_bit u n) k,
        bit_high u k,
        half_ne u.hi (n - 64) (k - 64) (ground arith),
      )
]

pub set_bit-Fits : (u : Uint128) (n : ℕ) → Fits u → Fits (set_bit u n)
unfolding set_bit
set_bit-Fits u n f =
    ground (arith, bit_or-lt 64 u.lo (shl64 1 n), bit_or-lt 64 u.hi (shl64 1 (n - 64)))

pub shl-Fits : (u : Uint128) (n : ℕ) → Fits u → Fits (shl u n)
unfolding shl
shl-Fits u n f =
    ground (arith, bit_or-lt 64 (shl64 u.hi n) (u.lo / 2 ^ (64 - n)), div-le u.lo (64 - n))
  where
    div-le : (a n : ℕ) → a / 2 ^ n ≤ a
    div-le a n = omega arith

-- A shift by `n` brings zeros in below `n`.
pub shl_zero : (u : Uint128) (n k : ℕ) → n < 128 → k < n → bit (shl u n) k ≡ 0
unfolding shl
shl_zero u n k hn h = ground (
  arith,
  bit_low (shl u n) k,
  bit_high (shl u n) k,
  shl64_low u.lo (n - 64) (k - 64),
  shl64_low u.lo n k,
  bit_at_high 0 0 k,
)

-- It moves bit `k - n` to `k`: one lemma for each way to cross the halves.
bit-shl_wide : (u : Uint128) (n k : ℕ) → k < 128 → 64 ≤ n → n ≤ k → bit (shl u n) k ≡ bit u (k - n)
unfolding shl
bit-shl_wide u n k hk hn h =
    let e : k - 64 - (n - 64) ≡ k - n = omega arith in
    ground (
      arith,
      bit_high (shl u n) k,
      bit_low u (k - n),
      shl64_bit u.lo (n - 64) (k - 64),
      e,
      ap (bit_at u.lo) e,
    )

bit-shl_low : (u : Uint128) (n k : ℕ) → k < 64 → n ≤ k → bit (shl u n) k ≡ bit u (k - n)
unfolding shl
bit-shl_low u n k hk h = ground (arith, bit_low (shl u n) k, bit_low u (k - n), shl64_bit u.lo n k)

-- The bits that cross from the low half to the high one.
bit-shl_cross :
    (u : Uint128) (n k : ℕ) → n < 64 → 64 ≤ k → k - 64 < n → bit (shl u n) k ≡ bit u (k - n)
unfolding shl
bit-shl_cross u n k hn hk h =
    let e : 64 - n + (k - 64) ≡ k - n = omega arith in
    ground (
      arith,
      bit_high (shl u n) k,
      bit_low u (k - n),
      bit_at-bit_or (k - 64) (shl64 u.hi n) (u.lo / 2 ^ (64 - n)),
      bit_at-shr (64 - n) u.lo (k - 64),
      shl64_low u.hi n (k - 64),
      ap (bit_at u.lo) e,
    )

bit-shl_high :
    (u : Uint128) (n k : ℕ)
    → Fits u
    → k < 128
    → n < 64
    → n ≤ k - 64
    → 64 ≤ k
    → bit (shl u n) k ≡ bit u (k - n)
unfolding shl
bit-shl_high u n k f hk hn h g =
    let e : k - n - 64 ≡ k - 64 - n = omega arith in
    ground (
      arith,
      bit_high (shl u n) k,
      bit_high u (k - n),
      bit_at-bit_or (k - 64) (shl64 u.hi n) (u.lo / 2 ^ (64 - n)),
      bit_at-shr (64 - n) u.lo (k - 64),
      bit_at_high 64 u.lo (64 - n + (k - 64)),
      shl64_bit u.hi n (k - 64),
      ap (bit_at u.hi) e,
    )

pub bit-shl : (u : Uint128) (n k : ℕ) → Fits u → k < 128 → n ≤ k → bit (shl u n) k ≡ bit u (k - n)
bit-shl u n k f hk h =
    ground (arith, bit-shl_wide u n k, bit-shl_low u n k, bit-shl_cross u n k, bit-shl_high u n k f)

-- The bitmap of a window that holds its top alone.
abbrev pub one : Uint128
one = record { hi = 0; lo = 1 }

pub one_bits : (d : ℕ) → d < 128 → (bit one d ≡ 1) ↔ (d ≡ 0)
one_bits d h = ground (
  arith,
  bit_low one d,
  bit_high one d,
  bit_at-pow_ne 0 d,
  bit_at-pow_self 0,
  bit_at_high 0 0 (d - 64),
)
