-- ===== src/Text/Lines.antt =====
-- bytes: a section of lines that end with CR LF, closed by an empty line, is found and split again.
use xphone_go.Prelude.{
  ℕ, zero, suc, ◌≤◌, ◌≡◌, refl, false, Option, none, some, List, [], ◌∷◌, ◌++◌, arith, ◌==◌,
  contains, length, length-append, append-nil,
}
use xphone_go.Text.Defs.{Text, is_empty, cut_on, cons_before, strip_prefix, split_from, crlf}
use xphone_go.Text.Cuts.{cut_on-append, behind}

-- The lines, each with its end, before a rest.
abbrev pub with_ends : List Text → Text → Text
with_ends [] rest = rest
with_ends (l ∷ ls) rest = l ++ (crlf ++ with_ends ls rest)

-- The lines with an end between any two.
abbrev pub between : Text → List Text → Text
between l [] = l
between l (k ∷ ks) = l ++ (crlf ++ between k ks)

-- A line of a header section: not empty, and without CR.
abbrev pub IsLine : Text → Type 0
IsLine l = (is_empty l ≡ false) × (contains l 13 ≡ false)

abbrev pub AreLines : List Text → Type 0
AreLines [] = Unit
AreLines (l ∷ ls) = IsLine l × AreLines ls

cut_here : (body : Text) → cut_on (crlf ++ crlf) (crlf ++ (crlf ++ body)) ≡ some ([], body)
unfolding cut_on strip_prefix
cut_here body = refl

crlf_first : (o : Option (Text × Text)) → cons_before 13 (cons_before 10 o) ≡ behind crlf o
crlf_first none = refl
crlf_first (some p) = refl

cut_later :
    (l t : Text)
    → IsLine l
    → cut_on (crlf ++ crlf) (crlf ++ (l ++ t)) ≡ behind crlf (cut_on (crlf ++ crlf) (l ++ t))
unfolding cut_on strip_prefix
cut_later [] t (e, h) = absurd (ground arith)
cut_later (c ∷ l) t (e, h) =
    let other : (13 == c) ≡ false = ground arith in
    rw (other) (crlf_first (cons_before c (cut_on (crlf ++ crlf) (l ++ t))))

pub cut_on-with_ends :
    (l : Text) (ls : List Text) (body : Text)
    → AreLines (l ∷ ls)
    → cut_on (crlf ++ crlf) (with_ends (l ∷ ls) (crlf ++ body)) ≡ some (between l ls, body)
cut_on-with_ends l [] body ((e, h), hs) =
    rw
      (
        cut_on-append 13 (10 ∷ 13 ∷ 10 ∷ []) l (crlf ++ (crlf ++ body)) h,
        cut_here body,
        append-nil l,
      )
      refl
cut_on-with_ends l (k ∷ ks) body ((e, h), hs) =
    let (k_line, ks_lines) = hs in
    rw
      (
        cut_on-append 13 (10 ∷ 13 ∷ 10 ∷ []) l (crlf ++ with_ends (k ∷ ks) (crlf ++ body)) h,
        cut_later k (crlf ++ with_ends ks (crlf ++ body)) k_line,
        cut_on-with_ends k ks body hs,
      )
      refl

length-between : (l : Text) (ls : List Text) → length ls ≤ length (between l ls)
length-between l [] = omega arith
length-between l (k ∷ ks) =
    omega (arith, length-append l (crlf ++ between k ks), length-between k ks)

cut_on_line : (l : Text) → contains l 13 ≡ false → cut_on crlf l ≡ none
unfolding cut_on strip_prefix
cut_on_line [] h = refl
cut_on_line (c ∷ l) h = ground (arith, cut_on_line l)

cut_on_end : (l t : Text) → contains l 13 ≡ false → cut_on crlf (l ++ (crlf ++ t)) ≡ some (l, t)
unfolding cut_on strip_prefix
cut_on_end l t h = rw (cut_on-append 13 (10 ∷ []) l (crlf ++ t) h, append-nil l) refl

split_from_fuel :
    (fuel : ℕ) (l : Text) (ls : List Text)
    → length ls ≤ fuel
    → AreLines (l ∷ ls)
    → split_from fuel crlf (between l ls) ≡ l ∷ ls
unfolding split_from
split_from_fuel zero l [] f h = refl
split_from_fuel zero l (k ∷ ks) f h = absurd (omega arith)
split_from_fuel (suc fuel) l [] f ((e, h), hs) = rw (split_from, cut_on_line l h) refl
split_from_fuel (suc fuel) l (k ∷ ks) f ((e, h), hs) =
    rw (split_from, cut_on_end l (between k ks) h, split_from_fuel fuel k ks (omega arith) hs) refl

pub split_from-between :
    (l : Text) (ls : List Text)
    → AreLines (l ∷ ls)
    → split_from (length (between l ls)) crlf (between l ls) ≡ l ∷ ls
split_from-between l ls h = split_from_fuel (length (between l ls)) l ls (length-between l ls) h
