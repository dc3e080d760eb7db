-- ===== src/Auth/Agree.antt =====
-- internal/sip/auth.go and server_auth.go together: what the client answers to the server's challenge.
use xphone_go.Prelude.{
  ◌≡◌, refl, true, false, some, List, [], ◌∷◌, ◌++◌, arith, contains, append_assoc,
}
use xphone_go.Text.Defs.{
  Text, ascii, is_empty, to_lower, trim_left, trim_right, cut_byte, split_byte, strip_prefix,
}
use xphone_go.Text.Cuts.{equal_refl, split_byte-append, IsTrimmed, append-IsTrimmed}
use xphone_go.Text.Numbers.{contains-append}
use xphone_go.Auth.Challenges.{
  Challenge, new_challenge, drop_quotes, drop_last_quotes, read_parts, quoted_param, comma, colon,
  parse_challenge, digest_response, build_authorization,
}
use xphone_go.Auth.Peers.{
  Params, PeerAuthConfig, digest_auth_realm, read_params, parse_digest_params, verify_digest_auth,
  build_www_authenticate,
}
use xphone_go.Auth.Params.{IsKey, read_params-quoted, read_parts-quoted, trim_space-trimmed}

quoted_param-contains :
    (key v : Text)
    → contains key 44 ≡ false
    → contains v 44 ≡ false
    → contains (quoted_param key v) 44 ≡ false
quoted_param-contains key v hk hv =
    ground
      (arith, contains-append key (61 ∷ 34 ∷ (v ++ (34 ∷ []))) 44, contains-append v (34 ∷ []) 44)

split_byte-quoted :
    (key v rest : Text)
    → contains key 44 ≡ false
    → contains v 44 ≡ false
    → split_byte 44 (comma (quoted_param key v) rest) ≡ quoted_param key v ∷ split_byte 44 rest
split_byte-quoted key v rest hk hv =
    split_byte-append 44 (quoted_param key v) rest (quoted_param-contains key v hk hv)

realm-IsKey : IsKey 114 (ascii "ealm")
unfolding to_lower trim_left trim_right
realm-IsKey = record { first = refl; no_equals = refl; read_as = refl }

nonce-IsKey : IsKey 110 (ascii "once")
unfolding to_lower trim_left trim_right
nonce-IsKey = record { first = refl; no_equals = refl; read_as = refl }

username-IsKey : IsKey 117 (ascii "sername")
unfolding to_lower trim_left trim_right
username-IsKey = record { first = refl; no_equals = refl; read_as = refl }

uri-IsKey : IsKey 117 (ascii "ri")
unfolding to_lower trim_left trim_right
uri-IsKey = record { first = refl; no_equals = refl; read_as = refl }

response-IsKey : IsKey 114 (ascii "esponse")
unfolding to_lower trim_left trim_right
response-IsKey = record { first = refl; no_equals = refl; read_as = refl }

-- The challenge that the client reads.
abbrev pub sent_challenge : Text → Challenge
sent_challenge n = record {
  realm = digest_auth_realm;
  nonce = n;
  algorithm = ascii "MD5";
  qop = [];
  opaque_value = [];
}

-- A space in front of a parameter is trimmed.
read_parts-space :
    (part : Text) (parts : List Text) (ch : Challenge)
    → read_parts ((32 ∷ part) ∷ parts) ch ≡ read_parts (part ∷ parts) ch
unfolding read_parts trim_left
read_parts-space part parts ch = refl

read_parts-algorithm :
    (ch : Challenge)
    → read_parts (split_byte 44 (ascii " algorithm=MD5")) ch ≡ record ch { algorithm = ascii "MD5" }
unfolding split_byte read_parts trim_left trim_right cut_byte to_lower drop_quotes drop_last_quotes
read_parts-algorithm ch = refl

abbrev challenge_params : Text → Text
challenge_params n =
    comma (quoted_param (ascii "realm") digest_auth_realm)
      (comma (quoted_param (ascii " nonce") n) (ascii " algorithm=MD5"))

parse_challenge-scheme :
    (s : Text)
    → parse_challenge (ascii "Digest " ++ s) ≡ some (read_parts (split_byte 44 s) new_challenge)
unfolding parse_challenge strip_prefix
parse_challenge-scheme s = refl

build_www_authenticate_shape :
    (n : Text) → build_www_authenticate n ≡ ascii "Digest " ++ challenge_params n
unfolding build_www_authenticate
build_www_authenticate_shape n = rw (append_assoc n (34 ∷ []) (44 ∷ ascii " algorithm=MD5")) refl

pub parse_challenge-sent :
    (n : Text)
    → contains n 44 ≡ false
    → contains n 34 ≡ false
    → parse_challenge (build_www_authenticate n) ≡ some (sent_challenge n)
parse_challenge-sent n h q =
    rw
      (
        build_www_authenticate_shape n,
        parse_challenge-scheme (challenge_params n),
        split_byte-quoted (ascii "realm") digest_auth_realm
            (comma (quoted_param (ascii " nonce") n) (ascii " algorithm=MD5")) refl refl,
        split_byte-quoted (ascii " nonce") n (ascii " algorithm=MD5") refl h,
        read_parts-quoted 114 (ascii "ealm") digest_auth_realm
            (quoted_param (ascii " nonce") n ∷ split_byte 44 (ascii " algorithm=MD5")) new_challenge
            realm-IsKey refl,
        read_parts-space (quoted_param (ascii "nonce") n) (split_byte 44 (ascii " algorithm=MD5"))
            (record new_challenge { realm = digest_auth_realm }),
        read_parts-quoted 110 (ascii "once") n (split_byte 44 (ascii " algorithm=MD5"))
            (record new_challenge { realm = digest_auth_realm }) nonce-IsKey q,
        read_parts-algorithm (record new_challenge { realm = digest_auth_realm; nonce = n }),
      )
      refl

abbrev algorithm_part : Text
algorithm_part = ascii "algorithm=MD5"

algorithm-IsTrimmed : IsTrimmed (ascii "algorithm=MD5")
unfolding trim_right
algorithm-IsTrimmed = record { not_empty = refl; trimmed = refl }

-- The five parameters that the client writes before the algorithm.
abbrev five : Text → Text → Text → Text → Text → Text
five u r n d h = comma (quoted_param (ascii "username") u) (
    comma (quoted_param (ascii "realm") r) (
      comma (quoted_param (ascii "nonce") n) (
        comma (quoted_param (ascii "uri") d)
          (comma (quoted_param (ascii "response") h) algorithm_part))))

comma-IsTrimmed : (s t : Text) → IsTrimmed t → IsTrimmed (comma s t)
comma-IsTrimmed s t h = append-IsTrimmed s (44 ∷ t) (append-IsTrimmed (44 ∷ []) t h)

five-IsTrimmed : (u r n d h : Text) → IsTrimmed (five u r n d h)
five-IsTrimmed u r n d h =
    let last = comma (quoted_param (ascii "response") h) algorithm_part in
    let fourth = comma (quoted_param (ascii "uri") d) last in
    let third = comma (quoted_param (ascii "nonce") n) fourth in
    let second = comma (quoted_param (ascii "realm") r) third in
    comma-IsTrimmed (quoted_param (ascii "username") u) second (
      comma-IsTrimmed (quoted_param (ascii "realm") r) third (
        comma-IsTrimmed (quoted_param (ascii "nonce") n) fourth (
          comma-IsTrimmed (quoted_param (ascii "uri") d) last (
            comma-IsTrimmed (quoted_param (ascii "response") h) algorithm_part
              algorithm-IsTrimmed))))

parse_digest_params-scheme :
    (s : Text)
    → IsTrimmed s
    → parse_digest_params (ascii "Digest " ++ s) ≡ read_params (split_byte 44 s) []
unfolding parse_digest_params to_lower strip_prefix
parse_digest_params-scheme s h =
    rw (trim_space-trimmed 68 (ascii "igest " ++ s) refl (append-IsTrimmed (ascii "Digest ") s h))
      refl

abbrev five_params : Text → Text → Text → Text → Text → Params
five_params u r n d h =
    (ascii "response", h)
    ∷ (ascii "uri", d)
    ∷ (ascii "nonce", n)
    ∷ (ascii "realm", r)
    ∷ (ascii "username", u)
    ∷ []

read_params-algorithm :
    (params : Params)
    → read_params (split_byte 44 algorithm_part) params ≡ (ascii "algorithm", ascii "MD5") ∷ params
unfolding split_byte read_params trim_left trim_right cut_byte to_lower
read_params-algorithm params = refl

module _ (u r n d h : Text) (hu : contains u 44 ≡ false) (hr : contains r 44 ≡ false)
    (hn : contains n 44 ≡ false) (hd : contains d 44 ≡ false) (hh : contains h 44 ≡ false) where
  split_byte-five :
      split_byte 44 (five u r n d h)
      ≡ quoted_param (ascii "username") u
        ∷ quoted_param (ascii "realm") r
        ∷ quoted_param (ascii "nonce") n
        ∷ quoted_param (ascii "uri") d
        ∷ quoted_param (ascii "response") h
        ∷ split_byte 44 algorithm_part
  split_byte-five =
      let last = comma (quoted_param (ascii "response") h) algorithm_part in
      let fourth = comma (quoted_param (ascii "uri") d) last in
      let third = comma (quoted_param (ascii "nonce") n) fourth in
      rw
        (
          split_byte-quoted (ascii "username") u (comma (quoted_param (ascii "realm") r) third) refl
              hu,
          split_byte-quoted (ascii "realm") r third refl hr,
          split_byte-quoted (ascii "nonce") n fourth refl hn,
          split_byte-quoted (ascii "uri") d last refl hd,
          split_byte-quoted (ascii "response") h algorithm_part refl hh,
        )
        refl

  parse_digest_params-five :
      parse_digest_params (ascii "Digest " ++ five u r n d h)
      ≡ (ascii "algorithm", ascii "MD5") ∷ five_params u r n d h
  parse_digest_params-five =
      let ps5 = split_byte 44 algorithm_part in
      let ps4 = quoted_param (ascii "response") h ∷ ps5 in
      let ps3 = quoted_param (ascii "uri") d ∷ ps4 in
      let ps2 = quoted_param (ascii "nonce") n ∷ ps3 in
      let ps1 = quoted_param (ascii "realm") r ∷ ps2 in
      rw
        (
          parse_digest_params-scheme (five u r n d h) (five-IsTrimmed u r n d h),
          split_byte-five,
          read_params-quoted 117 (ascii "sername") u ps1 [] username-IsKey,
          read_params-quoted 114 (ascii "ealm") r ps2 ((ascii "username", u) ∷ []) realm-IsKey,
          read_params-quoted 110 (ascii "once") n ps3
              ((ascii "realm", r) ∷ (ascii "username", u) ∷ []) nonce-IsKey,
          read_params-quoted 117 (ascii "ri") d ps4
              ((ascii "nonce", n) ∷ (ascii "realm", r) ∷ (ascii "username", u) ∷ []) uri-IsKey,
          read_params-quoted 114 (ascii "esponse") h ps5
              ((ascii "uri", d)
                ∷ (ascii "nonce", n)
                ∷ (ascii "realm", r)
                ∷ (ascii "username", u)
                ∷ [])
              response-IsKey,
        )
        (read_params-algorithm (five_params u r n d h))

-- The server's password check on the client's answer: both compute the same hash.
module _ (md5_hex : Text → Text)
    (plain_hash : (s : Text) → (contains (md5_hex s) 44 ≡ false) × (is_empty (md5_hex s) ≡ false))
    (auth : PeerAuthConfig) (n uri : Text) where
  -- A client with the peer's user name and password reads the server's challenge, and the server accepts the Authorization that the client
  -- then builds for an INVITE. The hash writes no comma and is not empty; the user name and the nonce are not empty; none of them, nor
  -- the URI, has a comma, and the nonce has no quotation mark.
  pub parse_challenge-verify_digest_auth :
      is_empty auth.username ≡ false
      → contains auth.username 44 ≡ false
      → is_empty n ≡ false
      → contains n 44 ≡ false
      → contains n 34 ≡ false
      → contains uri 44 ≡ false
      → (ch : Challenge) × (parse_challenge (build_www_authenticate n) ≡ some ch)
        × (verify_digest_auth md5_hex auth (
              build_authorization md5_hex ch
                (record { username = auth.username; password = auth.password })
                (ascii "INVITE")
                uri)
            ≡ true)
  unfolding build_authorization verify_digest_auth
  parse_challenge-verify_digest_auth ue uc ne nc nq dc =
      let resp =
        digest_response md5_hex (sent_challenge n)
          (record { username = auth.username; password = auth.password }) (ascii "INVITE") uri in
      let (hc, he) = plain_hash (
        colon (md5_hex (colon auth.username (colon digest_auth_realm auth.password)))
          (colon n (md5_hex (colon (ascii "INVITE") uri)))) in
      (
        sent_challenge n,
        parse_challenge-sent n nc nq,
        rw
            (
              parse_digest_params-five auth.username digest_auth_realm n uri resp uc refl nc dc hc,
              ue,
              ne,
              he,
              equal_refl auth.username,
            )
            (equal_refl resp),
      )
