-- ===== src/Sip/Headers.antt =====
-- internal/sip/message.go: the header list, and the numbers and the parameters read from it.
use xphone_go.Prelude.{◌≡◌, refl, true, false, List, [], ◌∷◌, arith}
use xphone_go.Text.Defs.{Text, to_lower}
use xphone_go.Text.Cuts.{equal→eq, equal_refl}
use xphone_go.Sip.Message.{
  Header, Message, same_name, all_values, header_values, remove_named, set_in, set_header,
}

-- Names that are the same as one name are the same for every test.
same_name_eq : (a b c : Text) → same_name a b ≡ true → same_name a c ≡ same_name b c
same_name_eq a b c h = rw (equal→eq (to_lower a) (to_lower b) h) refl

all_values-remove_named : (hs : List Header) (n : Text) → all_values (remove_named hs n) n ≡ []
unfolding remove_named
all_values-remove_named [] n = refl
all_values-remove_named (h ∷ hs) n = ground (arith, all_values-remove_named hs n)

all_values-remove_other :
    (hs : List Header) (n k : Text)
    → same_name n k ≡ false
    → all_values (remove_named hs n) k ≡ all_values hs k
unfolding remove_named
all_values-remove_other [] n k e = refl
all_values-remove_other (h ∷ hs) n k e =
    ground (arith, all_values-remove_other hs n k, same_name_eq h.name n k)

all_values-set_in : (hs : List Header) (n v : Text) → all_values (set_in hs n v) n ≡ v ∷ []
unfolding set_in
all_values-set_in [] n v = ground (arith, equal_refl (to_lower n))
all_values-set_in (h ∷ hs) n v =
    ground (arith, all_values-set_in hs n v, all_values-remove_named hs n)

all_values-set_other :
    (hs : List Header) (n k v : Text)
    → same_name n k ≡ false
    → all_values (set_in hs n v) k ≡ all_values hs k
unfolding set_in
all_values-set_other [] n k v e = ground arith
all_values-set_other (h ∷ hs) n k v e =
    ground (
      arith,
      all_values-set_other hs n k v,
      all_values-remove_other hs n k,
      same_name_eq h.name n k,
    )

-- SetHeader leaves one value under the name, the new one, and every other name keeps its values in their order.
pub header_values-set_header :
    (m : Message) (n v : Text)
    → (header_values (set_header m n v) n ≡ v ∷ [])
      × ((k : Text)
          → same_name n k ≡ false
          → header_values (set_header m n v) k ≡ header_values m k)
unfolding set_header header_values
header_values-set_header m n v =
    (all_values-set_in m.headers n v, λ k e. all_values-set_other m.headers n k v e)
