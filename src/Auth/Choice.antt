-- ===== src/Auth/Choice.antt =====
-- server_auth.go: which peer authenticatePeer chooses, and when it challenges.
use xphone_go.Prelude.{
  ◌≡◌, refl, ◌⊎◌, Bool, true, false, Option, none, some, List, [], ◌∷◌, arith, Bool-cases,
  Option-cases, inl, inr,
}
use xphone_go.Text.Defs.{Text, is_empty}
use xphone_go.Auth.Peers.{
  NetPackage, PeerMatcher, match_peer_ip_fast, match_by_ip, match_by_digest, any_auth, by_ip,
  accepts, authenticate_peer,
}

-- The first matcher of the list that passes the test has the name.
abbrev pub FirstNamed :
    {net : NetPackage} → (PeerMatcher net → Bool) → List (PeerMatcher net) → Text → Type 0
FirstNamed test [] name = ⊥
FirstNamed test (m ∷ ms) name =
    ((test m ≡ true) × (m.name ≡ name)) ⊎ ((test m ≡ false) × FirstNamed test ms name)

module _ (net : NetPackage) (md5_hex : Text → Text) where
  match_by_ip-FirstNamed :
      (ms : List (PeerMatcher net)) (ip : net.Ip) (name : Text)
      → match_by_ip net ms ip ≡ some name
      → FirstNamed (λ m. match_peer_ip_fast net m ip) ms name
  unfolding match_by_ip
  match_by_ip-FirstNamed [] ip name h = absurd (ground arith)
  match_by_ip-FirstNamed (m ∷ ms) ip name h = elim (Bool-cases (match_peer_ip_fast net m ip)) [
    | inl e ↦ inl (e, ground arith)
    | inr e ↦ inr (e, match_by_ip-FirstNamed ms ip name (ground arith))
  ]

  match_by_digest-FirstNamed :
      (ms : List (PeerMatcher net)) (auth_header name : Text)
      → match_by_digest net md5_hex ms auth_header ≡ some name
      → FirstNamed (λ m. accepts net md5_hex m.auth auth_header) ms name
  unfolding match_by_digest
  match_by_digest-FirstNamed [] auth_header name h = absurd (ground arith)
  match_by_digest-FirstNamed (m ∷ ms) auth_header name h =
      elim (Bool-cases (accepts net md5_hex m.auth auth_header)) [
        | inl e ↦ inl (e, ground arith)
        | inr e ↦ inr (e, match_by_digest-FirstNamed ms auth_header name (ground arith))
      ]

  by_ip-FirstNamed :
      (ms : List (PeerMatcher net)) (o : Option net.Ip) (name : Text)
      → by_ip net ms o ≡ some name
      → (ip : net.Ip) × (o ≡ some ip) × FirstNamed (λ m. match_peer_ip_fast net m ip) ms name
  by_ip-FirstNamed ms none name e = absurd (ground arith)
  by_ip-FirstNamed ms (some ip) name e = (ip, refl, match_by_ip-FirstNamed ms ip name e)

  -- A request is authenticated as the first peer with its IP address, or, if it has an Authorization header, as the first peer whose digest accepts it
  -- when no address matches.
  pub authenticate_peer-authenticated :
      (ms : List (PeerMatcher net)) (source_ip auth_header fresh : Text)
      → let r = authenticate_peer net md5_hex ms source_ip auth_header fresh in
        r.authenticated ≡ true
        → ((ip : net.Ip) × (net.parse_ip source_ip ≡ some ip)
            × FirstNamed (λ m. match_peer_ip_fast net m ip) ms r.peer)
          ⊎ ((by_ip net ms (net.parse_ip source_ip) ≡ none)
              × (is_empty auth_header ≡ false)
              × FirstNamed (λ m. accepts net md5_hex m.auth auth_header) ms r.peer)
  unfolding authenticate_peer
  authenticate_peer-authenticated ms source_ip auth_header fresh h =
      elim (Option-cases (by_ip net ms (net.parse_ip source_ip))) [
        | inl e ↦ elim (Option-cases (match_by_digest net md5_hex ms auth_header)) [
          | inl d ↦ absurd (ground arith)
          | inr (name, d) ↦
              let sent : is_empty auth_header ≡ false = ground arith in
              inr (e, sent, rw (e, sent, d) (match_by_digest-FirstNamed ms auth_header name d))
        ]
        | inr (name, e) ↦ inl (rw (e) (by_ip-FirstNamed ms (net.parse_ip source_ip) name e))
      ]

  -- A challenge is sent only if no address matches, no credentials came and some peer has credentials; it authenticates nobody, and
  -- presented credentials that match no peer are refused without one.
  pub authenticate_peer-challenge :
      (ms : List (PeerMatcher net)) (source_ip auth_header fresh : Text)
      → let r = authenticate_peer net md5_hex ms source_ip auth_header fresh in
        r.challenge ≡ true
        → (r.authenticated ≡ false)
          × (r.nonce ≡ fresh)
          × (is_empty auth_header ≡ true)
          × (any_auth net ms ≡ true)
          × (by_ip net ms (net.parse_ip source_ip) ≡ none)
  unfolding authenticate_peer
  authenticate_peer-challenge ms source_ip auth_header fresh h =
      (ground arith, ground arith, ground arith, ground arith, ground arith)
