-- ===== src/Text/Numbers.antt =====
-- strconv: a number is read back from its decimal digits.
use xphone_go.Prelude.{
  ℕ, zero, suc, ◌+◌, ◌-◌, ◌*◌, ◌/◌, ◌%◌, ◌^◌, ◌≤◌, ◌<◌, ◌≡◌, ◌≢◌, refl, Bool, true, false, not,
  some, [], ◌∷◌, ◌++◌, arith, ◌||◌, ◌&&◌, contains,
}
use xphone_go.Text.Defs.{
  Text, scan, atoi, pos, print_digits, itoa, is_digit, is_space, trim_left, trim_right, trim_space,
  is_empty,
}

scan-append : (s t : Text) (n k : ℕ) → scan s n ≡ some k → scan (s ++ t) n ≡ scan t k
unfolding scan
scan-append [] t n k h = ground arith
scan-append (c ∷ s) t n k h = ground (arith, scan-append s t (n * 10 + (c - 48)) k)

scan_digit : (d k : ℕ) → d < 10 → scan ((48 + d) ∷ []) k ≡ some (k * 10 + d)
unfolding scan
scan_digit d k h = ground arith

scan-print_digits : (fuel n : ℕ) → n ≤ fuel → scan (print_digits fuel n) 0 ≡ some n
unfolding print_digits
scan-print_digits zero zero h = scan_digit 0 0 (omega arith)
scan-print_digits zero (suc n) h = absurd (omega arith)
scan-print_digits (suc fuel) n h = ground (
  arith,
  scan_digit n 0,
  scan-print_digits fuel (n / 10),
  scan-append (print_digits fuel (n / 10)) ((48 + n % 10) ∷ []) 0 (n / 10),
  scan_digit (n % 10) (n / 10),
)

pub is_empty-append : (s : Text) (c : ℕ) (t : Text) → is_empty (s ++ (c ∷ t)) ≡ false
is_empty-append [] c t = refl
is_empty-append (d ∷ s) c t = refl

append_ne_nil : (s : Text) (c : ℕ) → s ++ (c ∷ []) ≢ []
append_ne_nil [] c h = cc
append_ne_nil (d ∷ s) c h = cc

print_digits-ne_nil : (fuel n : ℕ) → print_digits fuel n ≢ []
unfolding print_digits
print_digits-ne_nil zero n h = cc
print_digits-ne_nil (suc fuel) n h =
    ground (arith, append_ne_nil (print_digits fuel (n / 10)) (48 + n % 10))

atoi-scan : (s : Text) (n : ℕ) → s ≢ [] → scan s 0 ≡ some n → n < 2 ^ 63 → atoi s ≡ some (pos n)
unfolding atoi
atoi-scan [] n e h fits = absurd (e refl)
atoi-scan (c ∷ s) n e h fits = ground arith

-- Itoa is undone by Atoi for every int.
pub atoi-itoa : (n : ℕ) → n < 2 ^ 63 → atoi (itoa n) ≡ some (pos n)
unfolding itoa
atoi-itoa n h =
    atoi-scan (print_digits n n) n (print_digits-ne_nil n n) (scan-print_digits n n (omega arith)) h

pub contains-append : (s t : Text) (b : ℕ) → contains (s ++ t) b ≡ (contains s b || contains t b)
contains-append [] t b = refl
contains-append (c ∷ s) t b = ground (arith, contains-append s t b)

contains-print_digits :
    (fuel n b : ℕ) → n ≤ fuel → is_digit b ≡ false → contains (print_digits fuel n) b ≡ false
unfolding print_digits
contains-print_digits zero n b f h = ground arith
contains-print_digits (suc fuel) n b f h = ground (
  arith,
  contains-print_digits fuel (n / 10) b,
  contains-append (print_digits fuel (n / 10)) ((48 + n % 10) ∷ []) b,
)

-- A byte that is no digit does not occur.
pub contains-itoa : (n b : ℕ) → is_digit b ≡ false → contains (itoa n) b ≡ false
unfolding itoa
contains-itoa n b h = contains-print_digits n n b (omega arith) h

abbrev all_digits : Text → Bool
all_digits [] = true
all_digits (c ∷ s) = is_digit c && all_digits s

all_digits-append : (s t : Text) → all_digits (s ++ t) ≡ (all_digits s && all_digits t)
all_digits-append [] t = refl
all_digits-append (c ∷ s) t = ground (arith, all_digits-append s t)

all_digits-print_digits : (fuel n : ℕ) → n ≤ fuel → all_digits (print_digits fuel n) ≡ true
unfolding print_digits
all_digits-print_digits zero n f = ground arith
all_digits-print_digits (suc fuel) n f = ground (
  arith,
  all_digits-print_digits fuel (n / 10),
  all_digits-append (print_digits fuel (n / 10)) ((48 + n % 10) ∷ []),
)

trim_right-digits : (s : Text) → all_digits s ≡ true → trim_right s ≡ s
unfolding trim_right
trim_right-digits [] h = refl
trim_right-digits (c ∷ s) h = ground (arith, trim_right-digits s)

trim_left-digits : (s : Text) → all_digits s ≡ true → trim_left s ≡ s
unfolding trim_left
trim_left-digits [] h = refl
trim_left-digits (c ∷ s) h = ground arith

-- A printed number has no white space to trim.
pub trim_space-itoa : (n : ℕ) → trim_space (itoa n) ≡ itoa n
unfolding itoa
trim_space-itoa n =
    let digits = all_digits-print_digits n n (omega arith) in
    rw (trim_left-digits (print_digits n n) digits) (trim_right-digits (print_digits n n) digits)

is_empty-print_digits : (fuel n : ℕ) → is_empty (print_digits fuel n) ≡ false
unfolding print_digits
is_empty-print_digits zero n = refl
is_empty-print_digits (suc fuel) n =
    ground (arith, is_empty-append (print_digits fuel (n / 10)) (48 + n % 10) [])

pub is_empty-itoa : (n : ℕ) → is_empty (itoa n) ≡ false
unfolding itoa
is_empty-itoa n = is_empty-print_digits n n

trim_left-front :
    (s t : Text) → all_digits s ≡ true → is_empty s ≡ false → trim_left (s ++ t) ≡ s ++ t
unfolding trim_left
trim_left-front [] t h e = absurd (ground arith)
trim_left-front (c ∷ s) t h e = ground arith

-- A text that starts with a number has no white space in front.
pub trim_left-itoa : (n : ℕ) (t : Text) → trim_left (itoa n ++ t) ≡ itoa n ++ t
unfolding itoa
trim_left-itoa n t =
    trim_left-front (print_digits n n) t (all_digits-print_digits n n (omega arith))
      (is_empty-print_digits n n)

pub trim_right-itoa : (n : ℕ) → trim_right (itoa n) ≡ itoa n
unfolding itoa
trim_right-itoa n = trim_right-digits (print_digits n n) (all_digits-print_digits n n (omega arith))

-- A text without white space.
abbrev pub no_space : Text → Bool
no_space [] = true
no_space (c ∷ s) = not (is_space c) && no_space s

no_space-digits : (s : Text) → all_digits s ≡ true → no_space s ≡ true
no_space-digits [] h = refl
no_space-digits (c ∷ s) h = ground (arith, no_space-digits s)

pub no_space-itoa : (n : ℕ) → no_space (itoa n) ≡ true
unfolding itoa
no_space-itoa n = no_space-digits (print_digits n n) (all_digits-print_digits n n (omega arith))
