-- ===== src/Auth/Peers.antt =====
-- server_auth.go: the server's side of digest authentication and the choice of a peer. MD5 in hexadecimal, the
-- random nonce and the IP addresses and networks of package net are parameters; a map of strings is the list of
-- its assignments, the last one first.
use xphone_go.Prelude.{
  ◌-◌, Bool, true, false, not, ◌&&◌, ◌||◌, Option, none, some, List, [], ◌∷◌, ◌++◌, ◌==◌, leb,
  if◌then◌else◌, length, take, drop, contains,
}
use xphone_go.Prelude.Bytes.{byte_at}
use xphone_go.Text.Defs.{
  Text, ascii, equal, is_empty, to_lower, trim_space, cut_byte, split_byte, strip_prefix,
}
use xphone_go.Auth.Challenges.{colon}

abbrev pub digest_auth_realm : Text
digest_auth_realm = ascii "xphone"

-- The value without its surrounding quotes.
abbrev pub unquote : Text → Text
unquote val =
    if leb 2 (length val) && ((byte_at val 0 == 34) && (byte_at val (length val - 1) == 34))
    then take (length val - 2) (drop 1 val)
    else val

abbrev pub Params : Type 0
Params = List (Text × Text)

abbrev pub add_part : Option (Text × Text) → Params → Params
add_part none params = params
add_part (some (key, val)) params = (to_lower (trim_space key), unquote (trim_space val)) ∷ params

unfoldable pub read_params : List Text → Params → Params
read_params [] params = params
read_params (part ∷ parts) params =
    read_params parts (add_part (cut_byte 61 (trim_space part)) params)

-- The scheme is dropped in either case of its letters.
abbrev pub without_scheme : Text → Text
without_scheme header = elim (strip_prefix (ascii "digest ") (to_lower header)) [
  | none ↦ header
  | some rest ↦ drop 7 header
]

-- parseDigestParams.
unfoldable pub parse_digest_params : Text → Params
unfolding read_params
parse_digest_params header = read_params (split_byte 44 (without_scheme (trim_space header))) []

-- A key that is missing has the empty string.
abbrev pub lookup : Params → Text → Text
lookup [] k = []
lookup ((key, val) ∷ params) k = if equal key k then val else lookup params k

pub record PeerAuthConfig : Type 0 where
  pub username : Text
  pub password : Text

module _ (md5_hex : Text → Text) where
  -- The tests of verifyDigestAuth on the parameters.
  abbrev pub verify_params : PeerAuthConfig → Params → Bool
  verify_params auth params =
      let username = lookup params (ascii "username") in
      let nonce = lookup params (ascii "nonce") in
      let uri = lookup params (ascii "uri") in
      let response = lookup params (ascii "response") in
      let realm = lookup params (ascii "realm") in
      let ha1 = md5_hex (colon username (colon realm auth.password)) in
      let ha2 = md5_hex (colon (ascii "INVITE") uri) in
      let expected = md5_hex (colon ha1 (colon nonce ha2)) in
      if is_empty username || (is_empty nonce || is_empty response)
      then false
      else if not (equal username auth.username)
      then false
      else if not (equal realm digest_auth_realm)
      then false
      else equal response expected

  -- verifyDigestAuth, for a peer that has an Auth.
  unfoldable pub verify_digest_auth : PeerAuthConfig → Text → Bool
  unfolding parse_digest_params
  verify_digest_auth auth auth_header = verify_params auth (parse_digest_params auth_header)

-- buildWWWAuthenticate.
unfoldable pub build_www_authenticate : Text → Text
build_www_authenticate nonce =
    ascii "Digest realm="
    ++ (34
        ∷ (digest_auth_realm
            ++ (34
                ∷ 44
                ∷ (ascii " nonce=" ++ (34 ∷ (nonce ++ (34 ∷ 44 ∷ ascii " algorithm=MD5")))))))

pub record PeerConfig : Type 0 where
  pub name : Text
  pub host : Text
  pub hosts : List Text
  pub auth : Option PeerAuthConfig

pub record AuthResult : Type 0 where
  pub peer : Text
  pub authenticated : Bool
  pub challenge : Bool
  pub nonce : Text

abbrev pub no_result : AuthResult
no_result = record { peer = []; authenticated = false; challenge = false; nonce = [] }

abbrev pub authenticated_as : Text → AuthResult
authenticated_as name = record { peer = name; authenticated = true; challenge = false; nonce = [] }

-- What the code uses of package net: IP.Equal is `ip_equal`, IPNet.Contains is `in_network`.
pub record NetPackage : Type 1 where
  pub Ip : Type 0
  pub Network : Type 0
  pub parse_ip : Text → Option Ip
  pub parse_cidr : Text → Option Network
  pub ip_equal : Ip → Ip → Bool
  pub in_network : Network → Ip → Bool

pub record PeerMatcher (net : NetPackage) : Type 0 where
  pub name : Text
  pub ips : List net.Ip
  pub cidrs : List net.Network
  pub auth : Option PeerAuthConfig

abbrev pub has_auth : Option PeerAuthConfig → Bool
has_auth none = false
has_auth (some auth) = true

abbrev pub named_or : Option Text → AuthResult → AuthResult
named_or none r = r
named_or (some name) r = authenticated_as name

module _ (net : NetPackage) where
  abbrev add_ip : Option net.Ip → PeerMatcher net → PeerMatcher net
  add_ip none m = m
  add_ip (some ip) m = record m { ips = m.ips ++ (ip ∷ []) }

  abbrev add_cidr : Option net.Network → PeerMatcher net → PeerMatcher net
  add_cidr none m = m
  add_cidr (some cidr) m = record m { cidrs = m.cidrs ++ (cidr ∷ []) }

  abbrev add_host : Text → PeerMatcher net → PeerMatcher net
  add_host h m = if contains h 47 then add_cidr (net.parse_cidr h) m else add_ip (net.parse_ip h) m

  unfoldable pub add_hosts : List Text → PeerMatcher net → PeerMatcher net
  add_hosts [] m = m
  add_hosts (h ∷ hs) m = add_hosts hs (add_host h m)

  -- The body of the loop of buildPeerMatchers.
  unfoldable pub peer_matcher : PeerConfig → PeerMatcher net
  unfolding add_hosts
  peer_matcher p =
      let m : PeerMatcher net = record { name = p.name; ips = []; cidrs = []; auth = p.auth } in
      add_hosts p.hosts (if is_empty p.host then m else add_ip (net.parse_ip p.host) m)

  -- buildPeerMatchers; `hasAuth` is whether `auth` is there.
  unfoldable pub build_peer_matchers : List PeerConfig → List (PeerMatcher net)
  unfolding peer_matcher
  build_peer_matchers [] = []
  build_peer_matchers (p ∷ ps) = peer_matcher p ∷ build_peer_matchers ps

  abbrev pub any_ip : List net.Ip → net.Ip → Bool
  any_ip [] ip = false
  any_ip (peer_ip ∷ ips) ip = net.ip_equal peer_ip ip || any_ip ips ip

  abbrev pub any_network : List net.Network → net.Ip → Bool
  any_network [] ip = false
  any_network (cidr ∷ cidrs) ip = net.in_network cidr ip || any_network cidrs ip

  -- matchPeerIPFast.
  unfoldable pub match_peer_ip_fast : PeerMatcher net → net.Ip → Bool
  match_peer_ip_fast m ip = any_ip m.ips ip || any_network m.cidrs ip

  -- The loop of the first step.
  unfoldable pub match_by_ip : List (PeerMatcher net) → net.Ip → Option Text
  unfolding match_peer_ip_fast
  match_by_ip [] ip = none
  match_by_ip (m ∷ ms) ip = if match_peer_ip_fast m ip then some m.name else match_by_ip ms ip

  abbrev pub by_ip : List (PeerMatcher net) → Option net.Ip → Option Text
  by_ip ms none = none
  by_ip ms (some ip) = match_by_ip ms ip

  -- The loop of the third step.
  unfoldable pub any_auth : List (PeerMatcher net) → Bool
  any_auth [] = false
  any_auth (m ∷ ms) = has_auth m.auth || any_auth ms

module _ (net : NetPackage) (md5_hex : Text → Text) where
  abbrev pub accepts : Option PeerAuthConfig → Text → Bool
  accepts none auth_header = false
  accepts (some auth) auth_header = verify_digest_auth md5_hex auth auth_header

  -- The loop of the second step.
  unfoldable pub match_by_digest : List (PeerMatcher net) → Text → Option Text
  match_by_digest [] auth_header = none
  match_by_digest (m ∷ ms) auth_header =
      if accepts m.auth auth_header then some m.name else match_by_digest ms auth_header

  -- authenticatePeer; `fresh` is the nonce of generateNonce.
  unfoldable pub authenticate_peer : List (PeerMatcher net) → Text → Text → Text → AuthResult
  unfolding match_by_ip match_by_digest any_auth
  authenticate_peer ms source_ip auth_header fresh =
      named_or (by_ip net ms (net.parse_ip source_ip)) (
        if not (is_empty auth_header)
        then named_or (match_by_digest ms auth_header) no_result
        else if any_auth net ms
        then record { peer = []; authenticated = false; challenge = true; nonce = fresh }
        else no_result)
