-- ===== src/Text/Defs.antt =====
-- The functions of strings, bytes and strconv that the repository calls. They agree with Go's on ASCII;
-- Go also trims and folds some characters above it.
use Prim.Native.Char.{code}
use Prim.Native.String.{String}
use xphone_go.Prelude.{
  ℕ, zero, suc, ◌+◌, ◌-◌, ◌*◌, ◌/◌, ◌%◌, ◌^◌, Bool, true, false, ◌&&◌, ◌||◌, Option, none, some,
  List, [], ◌∷◌, ◌++◌, leb, ltb, ◌==◌, if◌then◌else◌,
}

abbrev pub Text : Type 0
Text = List ℕ

-- The bytes of a literal.
abbrev pub ascii : String → Text
ascii String.[] = []
ascii (String.◌∷◌ c s) = code c ∷ ascii s

abbrev pub equal : Text → Text → Bool
equal [] [] = true
equal [] (d ∷ t) = false
equal (c ∷ s) [] = false
equal (c ∷ s) (d ∷ t) = (c == d) && equal s t

abbrev pub is_empty : Text → Bool
is_empty [] = true
is_empty (c ∷ s) = false

-- strings.ToLower on one byte.
abbrev pub lower : ℕ → ℕ
lower c = if leb 65 c && leb c 90 then c + 32 else c

unfoldable pub to_lower : Text → Text
to_lower [] = []
to_lower (c ∷ s) = lower c ∷ to_lower s

-- strings.EqualFold.
abbrev pub equal_fold : Text → Text → Bool
equal_fold s t = equal (to_lower s) (to_lower t)

-- The white space of strings.TrimSpace and strings.Fields.
abbrev pub is_space : ℕ → Bool
is_space c = (c == 32) || (leb 9 c && leb c 13)

unfoldable pub trim_left : Text → Text
trim_left [] = []
trim_left (c ∷ s) = let rest = trim_left s in if is_space c then rest else c ∷ s

unfoldable pub trim_right : Text → Text
trim_right [] = []
trim_right (c ∷ s) = let rest = trim_right s in if is_empty rest && is_space c then [] else c ∷ rest

abbrev pub trim_space : Text → Text
trim_space s = trim_right (trim_left s)

abbrev pub cons_before : ℕ → Option (Text × Text) → Option (Text × Text)
cons_before c none = none
cons_before c (some (before, after)) = some (c ∷ before, after)

-- What stands before and behind the first byte `sep`; `none` where IndexByte gives -1.
unfoldable pub cut_byte : ℕ → Text → Option (Text × Text)
cut_byte sep [] = none
cut_byte sep (c ∷ s) =
    let later = cut_byte sep s in if c == sep then some ([], s) else cons_before c later

abbrev pub cons_head : ℕ → List Text → List Text
cons_head c [] = (c ∷ []) ∷ []
cons_head c (part ∷ parts) = (c ∷ part) ∷ parts

-- strings.Split by one byte.
unfoldable pub split_byte : ℕ → Text → List Text
split_byte sep [] = [] ∷ []
split_byte sep (c ∷ s) =
    let parts = split_byte sep s in if c == sep then [] ∷ parts else cons_head c parts

-- What is left of a text behind a prefix; `none` where HasPrefix is false.
unfoldable pub strip_prefix : Text → Text → Option Text
strip_prefix [] s = some s
strip_prefix (p ∷ ps) [] = none
strip_prefix (p ∷ ps) (c ∷ s) = let rest = strip_prefix ps s in if p == c then rest else none

abbrev or_cut : Option Text → Option (Text × Text) → Option (Text × Text)
or_cut none later = later
or_cut (some rest) later = some ([], rest)

-- What stands before and behind the first `sep`, as bytes.Index finds it.
unfoldable pub cut_on : Text → Text → Option (Text × Text)
unfolding strip_prefix
cut_on sep [] = or_cut (strip_prefix sep []) none
cut_on sep (c ∷ s) = or_cut (strip_prefix sep (c ∷ s)) (cons_before c (cut_on sep s))

abbrev pub is_digit : ℕ → Bool
is_digit c = leb 48 c && leb c 57

-- The number that digits spell behind `n`.
unfoldable pub scan : Text → ℕ → Option ℕ
scan [] n = some n
scan (c ∷ s) n = let rest = scan s (n * 10 + (c - 48)) in if is_digit c then rest else none

pub data ℤ : Type 0 where
  pos negsuc : ℕ → ℤ

abbrev in_range : Option ℕ → Option ℤ
in_range none = none
in_range (some n) = if ltb n (2 ^ 63) then some (pos n) else none

abbrev negated : Option ℕ → Option ℤ
negated none = none
negated (some n) =
    if n == 0 then some (pos 0) else if leb n (2 ^ 63) then some (negsuc (n - 1)) else none

abbrev pub digits_of : Text → Option ℕ
digits_of [] = none
digits_of (c ∷ s) = scan (c ∷ s) 0

-- strconv.Atoi for an int of 64 bits; `none` is an error.
unfoldable pub atoi : Text → Option ℤ
unfolding scan
atoi [] = none
atoi (c ∷ s) =
    if c == 45
    then negated (digits_of s)
    else if c == 43
    then in_range (digits_of s)
    else in_range (scan (c ∷ s) 0)

-- strconv.Itoa of a number that is not negative, on fuel; the number itself is enough.
unfoldable pub print_digits : ℕ → ℕ → Text
print_digits zero n = (48 + n % 10) ∷ []
print_digits (suc fuel) n =
    let rest = print_digits fuel (n / 10) in
    if ltb n 10 then (48 + n) ∷ [] else rest ++ ((48 + n % 10) ∷ [])

unfoldable pub itoa : ℕ → Text
unfolding print_digits
itoa n = print_digits n n

-- bytes.Split, on fuel: the length of the text is enough, since no separator here is empty.
unfoldable pub split_from : ℕ → Text → Text → List Text
unfolding cut_on
split_from zero sep s = s ∷ []
split_from (suc fuel) sep s = elim (cut_on sep s) [
  | none ↦ s ∷ []
  | some (before, after) ↦ before ∷ split_from fuel sep after
]

abbrev pub crlf : Text
crlf = 13 ∷ 10 ∷ []

-- The number that Atoi returns: beside a range error it is the bound, beside another error 0.
abbrev bound_of : ℤ → Option ℕ → ℤ
bound_of b none = pos 0
bound_of b (some n) = b

abbrev or_bound : Text → Option ℤ → ℤ
or_bound [] r = pos 0
or_bound (c ∷ s) (some z) = z
or_bound (c ∷ s) none =
    if c == 45
    then bound_of (negsuc (2 ^ 63 - 1)) (digits_of s)
    else if c == 43
    then bound_of (pos (2 ^ 63 - 1)) (digits_of s)
    else bound_of (pos (2 ^ 63 - 1)) (digits_of (c ∷ s))

abbrev pub atoi_value : Text → ℤ
atoi_value s = or_bound s (atoi s)

abbrev pub add_word : Text → List Text → List Text
add_word [] words = words
add_word (c ∷ s) words = (c ∷ s) ∷ words

-- The words of a text behind the start of one.
unfoldable pub fields_from : Text → Text → List Text
fields_from [] word = add_word word []
fields_from (c ∷ s) word =
    let next = fields_from s [] in
    let more = fields_from s (word ++ (c ∷ [])) in if is_space c then add_word word next else more

-- strings.Fields.
unfoldable pub fields : Text → List Text
unfolding fields_from
fields s = fields_from s []

-- strings.TrimRight by one byte.
unfoldable pub trim_last : ℕ → Text → Text
trim_last b [] = []
trim_last b (c ∷ s) = let rest = trim_last b s in if is_empty rest && (c == b) then [] else c ∷ rest
