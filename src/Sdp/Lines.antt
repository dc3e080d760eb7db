-- ===== src/Sdp/Lines.antt =====
-- internal/sdp/sdp.go: what is read back from the m= line.
use xphone_go.Prelude.{
  ℕ, ◌^◌, ◌<◌, ◌≡◌, refl, sym, ap, ◌∙◌, true, false, some, List, [], ◌∷◌, ◌++◌, map, arith,
  append_assoc, append-nil,
}
use xphone_go.Text.Defs.{
  Text, is_empty, is_space, fields, fields_from, atoi, atoi_value, itoa, ℤ, pos,
}
use xphone_go.Text.Numbers.{no_space, no_space-itoa, is_empty-itoa, atoi-itoa}
use xphone_go.Sdp.Body.{media_of, media_of_fields, parse_codecs, parse_media_line}
use xphone_go.Sdp.Print.{spaced_codecs, media_line}

-- A word that Fields keeps whole.
pub record IsWord (w : Text) : Type 0 where
  pub not_empty : is_empty w ≡ false
  pub unbroken : no_space w ≡ true

fields_from-append :
    (s t word : Text) → no_space s ≡ true → fields_from (s ++ t) word ≡ fields_from t (word ++ s)
unfolding fields_from
fields_from-append [] t word h = rw (append-nil word) refl
fields_from-append (c ∷ s) t word h =
    let other : is_space c ≡ false = ground arith in
    rw
      (
        other,
        fields_from-append s t (word ++ (c ∷ [])) (ground arith),
        append_assoc word (c ∷ []) s,
      )
      refl

pub fields-word : (w t : Text) → IsWord w → fields (w ++ (32 ∷ t)) ≡ w ∷ fields t
unfolding fields fields_from
fields-word [] t h = absurd (ground (arith, h.not_empty))
fields-word (c ∷ w) t h = rw (fields_from-append (c ∷ w) (32 ∷ t) [] h.unbroken) refl

pub fields-last : (w : Text) → IsWord w → fields w ≡ w ∷ []
unfolding fields fields_from
fields-last [] h = absurd (ground (arith, h.not_empty))
fields-last (c ∷ w) h =
    ap (λ (t : Text). fields t) (sym (append-nil (c ∷ w)))
    ∙ fields_from-append (c ∷ w) [] [] h.unbroken

itoa-IsWord : (n : ℕ) → IsWord (itoa n)
itoa-IsWord n = record { not_empty = is_empty-itoa n; unbroken = no_space-itoa n }

fields-spaced_codecs :
    (w : Text) (cs : List ℕ) → IsWord w → fields (w ++ spaced_codecs cs) ≡ w ∷ map itoa cs
unfolding spaced_codecs
fields-spaced_codecs w [] h = ap fields (append-nil w) ∙ fields-last w h
fields-spaced_codecs w (c ∷ cs) h =
    fields-word w (itoa c ++ spaced_codecs cs) h
    ∙ ap (λ (ws : List Text). w ∷ ws) (fields-spaced_codecs (itoa c) cs (itoa-IsWord c))

abbrev pub AllInts : List ℕ → Type 0
AllInts [] = Unit
AllInts (c ∷ cs) = (c < 2 ^ 63) × AllInts cs

pub parse_codecs-itoa : (cs : List ℕ) → AllInts cs → parse_codecs (map itoa cs) ≡ map pos cs
unfolding parse_codecs
parse_codecs-itoa [] h = refl
parse_codecs-itoa (c ∷ cs) (b, h) = rw (atoi-itoa c b, parse_codecs-itoa cs h) refl

atoi_value-some : (s : Text) (z : ℤ) → is_empty s ≡ false → atoi s ≡ some z → atoi_value s ≡ z
atoi_value-some [] z e h = absurd (ground arith)
atoi_value-some (c ∷ s) z e h = rw (h) refl

pub atoi_value-itoa : (n : ℕ) → n < 2 ^ 63 → atoi_value (itoa n) ≡ pos n
atoi_value-itoa n h = atoi_value-some (itoa n) (pos n) (is_empty-itoa n) (atoi-itoa n h)

pub parse_media_line-fields :
    (kind profile_text : Text) (port_number : ℕ) (cs : List ℕ)
    → IsWord kind
    → IsWord profile_text
    → parse_media_line (media_line kind port_number profile_text cs)
      ≡ some (media_of kind (itoa port_number) profile_text (map itoa cs))
unfolding parse_media_line media_line
parse_media_line-fields kind profile_text port_number cs k p = ap media_of_fields (
    fields-word kind (itoa port_number ++ (32 ∷ (profile_text ++ spaced_codecs cs))) k
    ∙ ap (λ (ws : List Text). kind ∷ ws)
        (fields-word (itoa port_number) (profile_text ++ spaced_codecs cs) (itoa-IsWord port_number)
          ∙ ap (λ (ws : List Text). itoa port_number ∷ ws)
              (fields-spaced_codecs profile_text cs p)))
