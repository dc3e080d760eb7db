-- ===== src/Text/Cuts.antt =====
-- strings and bytes: cutting and splitting what was put together.
use xphone_go.Prelude.{
  ℕ, ◌≡◌, refl, sym, true, false, Option, none, some, [], ◌∷◌, ◌++◌, arith, ◌==◌, contains,
}
use xphone_go.Text.Defs.{
  Text, equal, cut_byte, cut_on, cons_before, strip_prefix, split_byte, trim_right, is_empty,
}

pub cut_byte-append :
    (sep : ℕ) (s t : Text) → contains s sep ≡ false → cut_byte sep (s ++ (sep ∷ t)) ≡ some (s, t)
unfolding cut_byte
cut_byte-append sep [] t h = ground arith
cut_byte-append sep (c ∷ s) t h = ground (arith, cut_byte-append sep s t)

pub cut_byte-none : (sep : ℕ) (s : Text) → contains s sep ≡ false → cut_byte sep s ≡ none
unfolding cut_byte
cut_byte-none sep [] h = refl
cut_byte-none sep (c ∷ s) h = ground (arith, cut_byte-none sep s)

-- A cut that comes later has the text before it in its first part.
abbrev pub behind : Text → Option (Text × Text) → Option (Text × Text)
behind s none = none
behind s (some (before, after)) = some (s ++ before, after)

behind_nil : (o : Option (Text × Text)) → behind [] o ≡ o
behind_nil none = refl
behind_nil (some p) = refl

cons_before-behind :
    (c : ℕ) (s : Text) (o : Option (Text × Text)) → cons_before c (behind s o) ≡ behind (c ∷ s) o
cons_before-behind c s none = refl
cons_before-behind c s (some p) = refl

-- No separator starts in a text that lacks its first byte.
pub cut_on-append :
    (b : ℕ) (bs s t : Text)
    → contains s b ≡ false
    → cut_on (b ∷ bs) (s ++ t) ≡ behind s (cut_on (b ∷ bs) t)
unfolding cut_on
cut_on-append b bs [] t h = sym (behind_nil (cut_on (b ∷ bs) t))
cut_on-append b bs (c ∷ s) t h =
    let other : (b == c) ≡ false = ground arith in
    rw (other, cut_on-append b bs s t (ground arith)) (cons_before-behind c s (cut_on (b ∷ bs) t))

pub strip_prefix-append : (p s : Text) → strip_prefix p (p ++ s) ≡ some s
unfolding strip_prefix
strip_prefix-append [] s = refl
strip_prefix-append (c ∷ p) s = ground (arith, strip_prefix-append p s)

pub split_byte-append :
    (sep : ℕ) (s t : Text)
    → contains s sep ≡ false
    → split_byte sep (s ++ (sep ∷ t)) ≡ s ∷ split_byte sep t
unfolding split_byte
split_byte-append sep [] t h = ground arith
split_byte-append sep (c ∷ s) t h =
    let other : (c == sep) ≡ false = ground arith in
    rw (other, split_byte-append sep s t (ground arith)) refl

pub split_byte-none : (sep : ℕ) (s : Text) → contains s sep ≡ false → split_byte sep s ≡ s ∷ []
unfolding split_byte
split_byte-none sep [] h = refl
split_byte-none sep (c ∷ s) h =
    let other : (c == sep) ≡ false = ground arith in
    rw (other, split_byte-none sep s (ground arith)) refl

-- A text that ends in no white space.
pub record IsTrimmed (s : Text) : Type 0 where
  pub not_empty : is_empty s ≡ false
  pub trimmed : trim_right s ≡ s

trim_right-append :
    (s t : Text)
    → is_empty t ≡ false
    → trim_right t ≡ t
    → (is_empty (s ++ t) ≡ false) × (trim_right (s ++ t) ≡ s ++ t)
unfolding trim_right
trim_right-append [] t e h = (e, h)
trim_right-append (c ∷ s) t e h = let (e', h') = trim_right-append s t e h in (refl, ground arith)

pub append-IsTrimmed : (s t : Text) → IsTrimmed t → IsTrimmed (s ++ t)
append-IsTrimmed s t h =
    let (e, k) = trim_right-append s t h.not_empty h.trimmed in
    record { not_empty = e; trimmed = k }

pub quote-IsTrimmed : IsTrimmed (34 ∷ [])
unfolding trim_right
quote-IsTrimmed = record { not_empty = refl; trimmed = refl }

pub equal→eq : (s t : Text) → equal s t ≡ true → s ≡ t
equal→eq [] [] h = refl
equal→eq [] (d ∷ t) h = absurd (ground arith)
equal→eq (c ∷ s) [] h = absurd (ground arith)
equal→eq (c ∷ s) (d ∷ t) h =
    let rest : (equal s t ≡ true) × (c ≡ d) = (ground arith, ground arith) in
    let (e, f) = rest in rw (f, equal→eq s t e) refl

pub equal_refl : (s : Text) → equal s s ≡ true
equal_refl [] = refl
equal_refl (c ∷ s) = ground (arith, equal_refl s)

-- Trailing spaces do not change what is trimmed.
pub trim_right-space : (s : Text) → trim_right (s ++ (32 ∷ [])) ≡ trim_right s
unfolding trim_right
trim_right-space [] = refl
trim_right-space (c ∷ s) = rw (trim_right-space s) refl
