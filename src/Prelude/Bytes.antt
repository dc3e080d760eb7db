-- ===== src/Prelude/Bytes.antt =====
-- encoding/binary's BigEndian on slices of bytes.
use Prim.Native.Nat.{ℕ, suc, zero, bit_xor, ◌+◌, ◌*◌, ◌/◌, ◌%◌, ◌^◌, ◌<◌}
use mathlib.Core.Path.{◌≡◌, refl, ap}
use mathlib.Core.Bool.{Bool, true, false, ◌&&◌}
use xphone_go.Prelude.Tests.{◌==◌}
use xphone_go.Prelude.Lists.{length, get_or, take}
use xphone_go.Prelude.Bits.{bit_xor_twice}
use mathlib.Core.List.{List, [], ◌∷◌, ◌++◌}
use native.Mathlib.Omega.{arith}

abbrev pub IsByte : ℕ → Type 0
IsByte b = b < 256

abbrev pub IsU16 : ℕ → Type 0
IsU16 n = n < 2 ^ 16

abbrev pub IsU32 : ℕ → Type 0
IsU32 n = n < 2 ^ 32

-- PutUint16 and PutUint32: the bytes that they write.
abbrev pub put_u16 : ℕ → List ℕ
put_u16 n = (n / 256 % 256) ∷ (n % 256) ∷ []

abbrev pub put_u32 : ℕ → List ℕ
put_u32 n = (n / 16777216 % 256) ∷ (n / 65536 % 256) ∷ (n / 256 % 256) ∷ (n % 256) ∷ []

-- Uint16 and Uint32 read the front of a slice. Go panics on a shorter one; every caller has
-- tested the length, and the value here is 0.
abbrev pub u16 : List ℕ → ℕ
u16 (a ∷ b ∷ rest) = a * 256 + b
u16 (a ∷ []) = 0
u16 [] = 0

abbrev pub u32 : List ℕ → ℕ
u32 (a ∷ b ∷ c ∷ d ∷ rest) = a * 16777216 + b * 65536 + c * 256 + d
u32 (a ∷ b ∷ c ∷ []) = 0
u32 (a ∷ b ∷ []) = 0
u32 (a ∷ []) = 0
u32 [] = 0

pub u16-put_u16 : (n : ℕ) (rest : List ℕ) → IsU16 n → u16 (put_u16 n ++ rest) ≡ n
u16-put_u16 n rest h = omega arith

pub u32-put_u32 : (n : ℕ) (rest : List ℕ) → IsU32 n → u32 (put_u32 n ++ rest) ≡ n
u32-put_u32 n rest h = omega arith

-- The same reads at an offset of a slice, `b[i]` and Uint16(b[i:i+2]).
abbrev pub byte_at : List ℕ → ℕ → ℕ
byte_at b i = get_or b i 0

abbrev pub u16_at : List ℕ → ℕ → ℕ
u16_at b i = byte_at b i * 256 + byte_at b (i + 1)

abbrev pub u32_at : List ℕ → ℕ → ℕ
u32_at b i =
    byte_at b i * 16777216 + byte_at b (i + 1) * 65536 + byte_at b (i + 2) * 256 + byte_at b (i + 3)

-- Two slices hold the same bytes.
abbrev pub bytes_eq : List ℕ → List ℕ → Bool
bytes_eq [] [] = true
bytes_eq [] (b ∷ bs) = false
bytes_eq (a ∷ as') [] = false
bytes_eq (a ∷ as') (b ∷ bs) = (a == b) && bytes_eq as' bs

pub bytes_eq_refl : (xs : List ℕ) → bytes_eq xs xs ≡ true
bytes_eq_refl [] = refl
bytes_eq_refl (x ∷ xs) = ground (arith, bytes_eq_refl xs)

pub bytes_eq→eq : (xs ys : List ℕ) → bytes_eq xs ys ≡ true → xs ≡ ys
bytes_eq→eq [] [] h = refl
bytes_eq→eq [] (y ∷ ys) h = cc
bytes_eq→eq (x ∷ xs) [] h = cc
bytes_eq→eq (x ∷ xs) (y ∷ ys) h = ground (arith, bytes_eq→eq xs ys)

-- `xs[i] ^= ks[i]` for every index of `xs`; Go panics where `ks` is shorter.
unfoldable pub xor_bytes : List ℕ → List ℕ → List ℕ
xor_bytes [] ks = []
xor_bytes (x ∷ xs) [] = x ∷ xs
xor_bytes (x ∷ xs) (k ∷ ks) = bit_xor x k ∷ xor_bytes xs ks

pub xor_bytes_twice : (xs ks : List ℕ) → xor_bytes (xor_bytes xs ks) ks ≡ xs
unfolding xor_bytes
xor_bytes_twice [] ks = refl
xor_bytes_twice (x ∷ xs) [] = refl
xor_bytes_twice (x ∷ xs) (k ∷ ks) = cc (bit_xor_twice x k, xor_bytes_twice xs ks)

pub length-xor_bytes : (xs ks : List ℕ) → length (xor_bytes xs ks) ≡ length xs
unfolding xor_bytes
length-xor_bytes [] ks = refl
length-xor_bytes (x ∷ xs) [] = refl
length-xor_bytes (x ∷ xs) (k ∷ ks) = ap suc (length-xor_bytes xs ks)

-- Reads below the length of the first part do not see the second.
pub byte_at-append : (xs ys : List ℕ) (i : ℕ) → i < length xs → byte_at (xs ++ ys) i ≡ byte_at xs i
byte_at-append [] ys i h = elim h [ ]
byte_at-append (x ∷ xs) ys zero h = refl
byte_at-append (x ∷ xs) ys (suc i) h = byte_at-append xs ys i (omega arith)

pub byte_at-take : (n : ℕ) (xs : List ℕ) (i : ℕ) → i < n → byte_at (take n xs) i ≡ byte_at xs i
byte_at-take zero xs i h = elim h [ ]
byte_at-take (suc n) [] i h = refl
byte_at-take (suc n) (x ∷ xs) zero h = refl
byte_at-take (suc n) (x ∷ xs) (suc i) h = byte_at-take n xs i (omega arith)

-- Reads from there on see the second part.
pub byte_at-after :
    (xs ys : List ℕ) (i k : ℕ) → i ≡ length xs + k → byte_at (xs ++ ys) i ≡ byte_at ys k
byte_at-after [] ys i k h = let e : i ≡ k = omega arith in rw e
byte_at-after (x ∷ xs) ys zero k h = absurd (omega arith)
byte_at-after (x ∷ xs) ys (suc i) k h = byte_at-after xs ys i k (omega arith)
