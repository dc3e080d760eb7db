-- ===== src/Stun/Tests.antt =====
-- internal/stun/message.go: runs on a binding response. The HMAC is a constant function here.
use xphone_go.Prelude.{ℕ, ◌≡◌, refl, List, [], ◌∷◌, arith, replicate}
use xphone_go.Stun.Defs.{Attr, encode_xor_addr}
use xphone_go.Stun.Binding.{build_binding_response, parse_binding_response, mapped}
use xphone_go.Stun.Answer.{parse_binding_response-build}

abbrev two_attrs : List Attr
two_attrs =
    record { attr_type = 6; value = 97 ∷ 58 ∷ 98 ∷ [] }
    ∷ record { attr_type = 32; value = encode_xor_addr 3232235777 5060 }
    ∷ []

abbrev small_attrs : List Attr
small_attrs =
    record { attr_type = 6; value = 97 ∷ 58 ∷ 98 ∷ [] } ∷ record { attr_type = 37; value = [] } ∷ []

abbrev mac : List ℕ → List ℕ → List ℕ
mac key msg = replicate 20 5

parse_binding_response-build_example :
    parse_binding_response
      (build_binding_response mac (replicate 12 7) 3232235777 5060 (1 ∷ []))
      (replicate 12 7)
    ≡ mapped (3232235777, 5060)
parse_binding_response-build_example =
    parse_binding_response-build mac (replicate 12 7) 3232235777 5060 (1 ∷ []) refl (omega arith)
      (omega arith) (λ k msg. refl)
