-- ===== src/Auth/Params.antt =====
-- internal/sip/auth.go and server_auth.go: a quoted parameter is read back by the client and by the server.
use xphone_go.Prelude.{
  ℕ, suc, ◌≡◌, refl, ap, false, List, [], ◌∷◌, ◌++◌, arith, ◌==◌, contains, length, length-append,
  take,
}
use xphone_go.Prelude.Bytes.{byte_at}
use xphone_go.Text.Defs.{Text, is_space, to_lower, trim_left, trim_space}
use xphone_go.Text.Cuts.{cut_byte-append, IsTrimmed, append-IsTrimmed, quote-IsTrimmed}
use xphone_go.Auth.Challenges.{
  Challenge, drop_quotes, drop_last_quotes, trim_quotes, set_param, read_parts, quoted_param,
}
use xphone_go.Auth.Peers.{Params, unquote, read_params}

abbrev quoted : Text → Text
quoted v = 34 ∷ (v ++ (34 ∷ []))

quoted-IsTrimmed : (v : Text) → IsTrimmed (quoted v)
quoted-IsTrimmed v = append-IsTrimmed (34 ∷ v) (34 ∷ []) quote-IsTrimmed

pub quoted_param-IsTrimmed : (key v : Text) → IsTrimmed (quoted_param key v)
quoted_param-IsTrimmed key v =
    append-IsTrimmed key (61 ∷ quoted v)
      (append-IsTrimmed (61 ∷ []) (quoted v) (quoted-IsTrimmed v))

-- White space only at the front is trimmed there.
pub trim_space-trimmed :
    (c : ℕ) (s : Text) → is_space c ≡ false → IsTrimmed (c ∷ s) → trim_space (c ∷ s) ≡ c ∷ s
unfolding trim_left
trim_space-trimmed c s e h = rw (e) (h.trimmed)

byte_at-last : (v : Text) (c d : ℕ) → byte_at (c ∷ (v ++ (d ∷ []))) (suc (length v)) ≡ d
byte_at-last [] c d = refl
byte_at-last (b ∷ v) c d = byte_at-last v b d

take-append : (v t : Text) → take (length v) (v ++ t) ≡ v
take-append [] t = refl
take-append (b ∷ v) t = ap (λ w. b ∷ w) (take-append v t)

pub unquote-quoted : (v : Text) → unquote (quoted v) ≡ v
unquote-quoted v =
    let size : length (v ++ (34 ∷ [])) ≡ suc (length v) =
      omega (arith, length-append v (34 ∷ [])) in
    rw (size) (ground (arith, byte_at-last v 34 34, take-append v (34 ∷ [])))

drop_last_quotes-plain : (v : Text) → contains v 34 ≡ false → drop_last_quotes (v ++ (34 ∷ [])) ≡ v
unfolding drop_last_quotes
drop_last_quotes-plain [] h = refl
drop_last_quotes-plain (c ∷ v) h = ground (arith, drop_last_quotes-plain v)

pub trim_quotes-quoted : (v : Text) → contains v 34 ≡ false → trim_quotes (quoted v) ≡ v
unfolding drop_quotes drop_last_quotes
trim_quotes-quoted [] h = refl
trim_quotes-quoted (c ∷ v) h =
    let other : (c == 34) ≡ false = ground arith in rw (other) (drop_last_quotes-plain (c ∷ v) h)

-- A key that the readers keep as it is.
pub record IsKey (c : ℕ) (k : Text) : Type 0 where
  pub first : is_space c ≡ false
  pub no_equals : contains (c ∷ k) 61 ≡ false
  pub read_as : to_lower (trim_space (c ∷ k)) ≡ c ∷ k

pub read_params-quoted :
    (c : ℕ) (k v : Text) (parts : List Text) (params : Params)
    → IsKey c k
    → read_params (quoted_param (c ∷ k) v ∷ parts) params ≡ read_params parts ((c ∷ k, v) ∷ params)
unfolding read_params
read_params-quoted c k v parts params key =
    rw
      (
        trim_space-trimmed c (k ++ (61 ∷ quoted v)) key.first (quoted_param-IsTrimmed (c ∷ k) v),
        cut_byte-append 61 (c ∷ k) (quoted v) key.no_equals,
        trim_space-trimmed 34 (v ++ (34 ∷ [])) refl (quoted-IsTrimmed v),
        unquote-quoted v,
        key.read_as,
      )
      refl

pub read_parts-quoted :
    (c : ℕ) (k v : Text) (parts : List Text) (ch : Challenge)
    → IsKey c k
    → contains v 34 ≡ false
    → read_parts (quoted_param (c ∷ k) v ∷ parts) ch ≡ read_parts parts (set_param (c ∷ k) v ch)
unfolding read_parts
read_parts-quoted c k v parts ch key h =
    rw
      (
        trim_space-trimmed c (k ++ (61 ∷ quoted v)) key.first (quoted_param-IsTrimmed (c ∷ k) v),
        cut_byte-append 61 (c ∷ k) (quoted v) key.no_equals,
        trim_space-trimmed 34 (v ++ (34 ∷ [])) refl (quoted-IsTrimmed v),
        trim_quotes-quoted v h,
        key.read_as,
      )
      refl
