-- ===== src/Dtmf/Info.antt =====
-- dtmf.go: the digits of SIP INFO bodies. The duration that is printed is not negative.
use xphone_go.Prelude.{
  ℕ, ◌-◌, ◌≡◌, refl, ap, ◌∙◌, Bool, true, false, not, ◌&&◌, Option, none, some, List, [], ◌∷◌, ◌++◌,
  arith, leb, ◌==◌, if◌then◌else◌,
}
use xphone_go.Text.Defs.{
  Text, ascii, is_empty, is_space, equal_fold, to_lower, trim_left, trim_right, trim_space,
  cut_byte, split_byte, itoa, crlf,
}
use xphone_go.Text.Cuts.{split_byte-append}
use xphone_go.Dtmf.{dtmf_digit_code, code_of, dtmf_digits}

-- strings.ToUpper on one byte.
abbrev pub upper : ℕ → ℕ
upper c = if leb 97 c && leb c 122 then c - 32 else c

unfoldable pub to_upper : Text → Text
to_upper [] = []
to_upper (c ∷ s) = upper c ∷ to_upper s

-- EncodeInfoDTMF; `none` is ErrInvalidDTMFDigit.
unfoldable pub encode_info_dtmf : Text → ℕ → Option Text
encode_info_dtmf digit duration_ms = elim (dtmf_digit_code digit) [
  | none ↦ none
  | some code ↦
      some
        (ascii "Signal=" ++ (digit ++ (crlf ++ (ascii "Duration=" ++ (itoa duration_ms ++ crlf)))))
]

abbrev has_code : Option ℕ → Bool
has_code none = false
has_code (some code) = true

-- The digit of a line, or the empty string where the loop goes on.
abbrev digit_in : Option (Text × Text) → Text
digit_in none = []
digit_in (some (key, val)) =
    let digit = to_upper (trim_space val) in
    if not (equal_fold (trim_space key) (ascii "signal"))
    then []
    else if not (is_empty digit) && has_code (dtmf_digit_code digit)
    then digit
    else []

unfoldable pub first_digit : List Text → Text
unfolding to_upper
first_digit [] = []
first_digit (line ∷ lines) =
    let digit = digit_in (cut_byte 61 (trim_space line)) in
    let later = first_digit lines in if is_empty digit then later else digit

-- ParseInfoDTMF.
unfoldable pub parse_info_dtmf : Text → Text
unfolding first_digit
parse_info_dtmf body = first_digit (split_byte 10 body)

digit_shape :
    (c n : ℕ)
    → code_of dtmf_digits c ≡ some n
    → ((c == 10) ≡ false) × (is_space c ≡ false) × (upper c ≡ c) × ((c == 61) ≡ false)
digit_shape c n h = (ground arith, ground arith, ground arith, ground arith)

trimmed_line :
    (c : ℕ)
    → is_space c ≡ false
    → trim_space (ascii "Signal=" ++ (c ∷ 13 ∷ [])) ≡ ascii "Signal=" ++ (c ∷ [])
unfolding trim_left trim_right
trimmed_line c sp = rw (sp) refl

trimmed_digit : (c : ℕ) → is_space c ≡ false → trim_space (c ∷ []) ≡ c ∷ []
unfolding trim_left trim_right
trimmed_digit c sp = ground arith

digit_value : (c : ℕ) → is_space c ≡ false → upper c ≡ c → to_upper (trim_space (c ∷ [])) ≡ c ∷ []
unfolding to_upper
digit_value c sp up = ap to_upper (trimmed_digit c sp) ∙ ap (λ (b : ℕ). b ∷ []) up

first_digit-signal :
    (c n : ℕ) (lines : List Text)
    → code_of dtmf_digits c ≡ some n
    → dtmf_digit_code (c ∷ []) ≡ some n
    → first_digit ((ascii "Signal=" ++ (c ∷ 13 ∷ [])) ∷ lines) ≡ c ∷ []
unfolding first_digit cut_byte to_lower trim_left trim_right
first_digit-signal c n lines h known =
    let (nl, sp, up, eq) = digit_shape c n h in
    rw (trimmed_line c sp, digit_value c sp up, known) refl

encode_info_dtmf-known :
    (digit : Text) (duration_ms n : ℕ)
    → dtmf_digit_code digit ≡ some n
    → encode_info_dtmf digit duration_ms
      ≡ some (
          ascii "Signal=" ++ (digit ++ (crlf ++ (ascii "Duration=" ++ (itoa duration_ms ++ crlf)))))
unfolding encode_info_dtmf
encode_info_dtmf-known digit d n h = rw (encode_info_dtmf, h) refl

-- The body that is written for a digit is read back as that digit.
pub parse_info_dtmf-encode_info_dtmf :
    (digit : Text) (duration_ms n : ℕ)
    → dtmf_digit_code digit ≡ some n
    → (body : Text) × (encode_info_dtmf digit duration_ms ≡ some body)
      × (parse_info_dtmf body ≡ digit)
unfolding parse_info_dtmf dtmf_digit_code
parse_info_dtmf-encode_info_dtmf [] d n h = absurd (ground arith)
parse_info_dtmf-encode_info_dtmf (c ∷ e ∷ rest) d n h = absurd (ground arith)
parse_info_dtmf-encode_info_dtmf (c ∷ []) d n h =
    let (nl, sp, up, eq) = digit_shape c n h in
    let tail = ascii "Duration=" ++ (itoa d ++ crlf) in
    (
      ascii "Signal=" ++ (c ∷ (crlf ++ tail)),
      encode_info_dtmf-known (c ∷ []) d n h,
      ap first_digit (split_byte-append 10 (ascii "Signal=" ++ (c ∷ 13 ∷ [])) tail (ground arith))
          ∙ first_digit-signal c n (split_byte 10 tail) h h,
    )
