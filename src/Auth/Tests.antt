-- ===== src/Auth/Tests.antt =====
-- internal/sip/auth.go and server_auth.go at one peer. The number of characters stands for the hash and for the address.
use xphone_go.Prelude.{ℕ, ◌≡◌, ◌⊎◌, refl, true, false, none, some, [], ◌∷◌, ◌==◌, length, contains}
use xphone_go.Text.Defs.{Text, ascii, is_empty, itoa}
use xphone_go.Text.Numbers.{contains-itoa, is_empty-itoa}
use xphone_go.Auth.Challenges.{Challenge, parse_challenge, build_authorization}
use xphone_go.Auth.Peers.{
  PeerAuthConfig, NetPackage, PeerMatcher, verify_digest_auth, build_www_authenticate,
  match_peer_ip_fast, match_by_ip, by_ip, accepts, authenticate_peer,
}
use xphone_go.Auth.Agree.{parse_challenge-verify_digest_auth}
use xphone_go.Auth.Choice.{FirstNamed, authenticate_peer-authenticated}

abbrev sum_hex : Text → Text
sum_hex s = itoa (length s)

sum_hex-plain : (s : Text) → (contains (sum_hex s) 44 ≡ false) × (is_empty (sum_hex s) ≡ false)
sum_hex-plain s = (contains-itoa (length s) 44 refl, is_empty-itoa (length s))

abbrev alice : PeerAuthConfig
alice = record { username = ascii "alice"; password = ascii "secret" }

parse_challenge-verify_digest_auth_example :
    (ch : Challenge) × (parse_challenge (build_www_authenticate (ascii "a1b2")) ≡ some ch)
    × (verify_digest_auth sum_hex alice (
          build_authorization sum_hex ch
            (record { username = alice.username; password = alice.password })
            (ascii "INVITE")
            (ascii "sip:1002@pbx"))
        ≡ true)
parse_challenge-verify_digest_auth_example =
    parse_challenge-verify_digest_auth sum_hex sum_hex-plain alice (ascii "a1b2")
      (ascii "sip:1002@pbx") refl refl refl refl refl refl

abbrev net : NetPackage
net = record {
  Ip = ℕ;
  Network = ℕ;
  parse_ip = λ t. some (length t);
  parse_cidr = λ t. none;
  ip_equal = λ a b. a == b;
  in_network = λ n a. false;
}

abbrev trunk : PeerMatcher net
trunk = record { name = ascii "trunk"; ips = 4 ∷ []; cidrs = []; auth = none }

abbrev handset : PeerMatcher net
handset = record { name = ascii "handset"; ips = []; cidrs = []; auth = some alice }

authenticate_peer-authenticated_example :
    ((ip : ℕ) × (some (length (ascii "10.1")) ≡ some ip)
      × FirstNamed {net = net}
          (λ m. match_peer_ip_fast net m ip)
          (handset ∷ trunk ∷ [])
          (ascii "trunk"))
    ⊎ ((by_ip net (handset ∷ trunk ∷ []) (some 4) ≡ none)
        × (is_empty [] ≡ false)
        × FirstNamed {net = net}
            (λ m. accepts net sum_hex m.auth [])
            (handset ∷ trunk ∷ [])
            (ascii "trunk"))
unfolding authenticate_peer match_by_ip match_peer_ip_fast
authenticate_peer-authenticated_example =
    authenticate_peer-authenticated net sum_hex (handset ∷ trunk ∷ []) (ascii "10.1") []
      (ascii "c3") refl
