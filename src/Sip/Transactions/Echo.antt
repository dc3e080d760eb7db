-- ===== src/Sip/Transactions/Echo.antt =====
-- internal/sip/transaction.go: the branch that Send writes is the one it waits for.
use xphone_go.Prelude.{
  ℕ, suc, ◌+◌, ◌/◌, ◌%◌, ◌<◌, ◌≡◌, refl, sym, ap, ◌∙◌, true, false, Option, none, some, List, [],
  ◌∷◌, ◌++◌, arith, length, drop, Bool-cases, inl, inr, contains, append_assoc, length-append,
}
use xphone_go.Text.Defs.{Text, ascii, is_empty, to_lower, cut_on, strip_prefix, itoa}
use xphone_go.Text.Cuts.{equal_refl, cut_on-append, behind}
use xphone_go.Text.Numbers.{contains-append, contains-itoa}
use xphone_go.Sip.Message.{
  Header, Message, first_value, set_in, ends_param, header, is_response, until_end, param_value,
  via_branch, set_header,
}
use xphone_go.Sip.Transactions.{
  Manager, Sending, hex, hex_digit, generate_branch, via_value, lookup, begin_send, dispatch,
  register, with_branch, finish_send, answered, got, deliver, take_from,
}

lower-append : (s t : Text) → to_lower (s ++ t) ≡ to_lower s ++ to_lower t
unfolding to_lower
lower-append [] t = refl
lower-append (c ∷ s) t = rw (lower-append s t) refl

length-to_lower : (s : Text) → length (to_lower s) ≡ length s
unfolding to_lower
length-to_lower [] = refl
length-to_lower (c ∷ s) = ap suc (length-to_lower s)

-- No small b comes out of a text without one of either case.
contains-to_lower :
    (s : Text) → contains s 98 ≡ false → contains s 66 ≡ false → contains (to_lower s) 98 ≡ false
unfolding to_lower
contains-to_lower [] h k = refl
contains-to_lower (c ∷ s) h k = ground (arith, contains-to_lower s)

abbrev branch_eq : Text
branch_eq = ascii "branch="

cut_branch : (v : Text) → cut_on branch_eq (branch_eq ++ v) ≡ some ([], v)
unfolding cut_on strip_prefix
cut_branch v = refl

drop_two : (s v : Text) (n : ℕ) → n ≡ length s → drop (n + 7) (s ++ (branch_eq ++ v)) ≡ v
drop_two [] v n h = let e : n ≡ 0 = omega arith in rw (e) refl
drop_two (c ∷ s) v n h =
    let e : n + 7 ≡ suc (length s + 7) = omega arith in rw (e) (drop_two s v (length s) refl)

-- The branch parameter behind a text without a b.
pub param_value-branch :
    (s v : Text)
    → contains (to_lower s) 98 ≡ false
    → param_value (s ++ (branch_eq ++ v)) (ascii "branch") ≡ until_end v
unfolding param_value to_lower
param_value-branch s v h =
    let later : cut_on branch_eq (branch_eq ++ to_lower v) ≡ some ([], to_lower v) =
      cut_branch (to_lower v) in
    let cut : cut_on branch_eq (to_lower s ++ (branch_eq ++ to_lower v))
        ≡ some (to_lower s ++ [], to_lower v) =
      cut_on-append 98 (ascii "ranch=") (to_lower s) (branch_eq ++ to_lower v) h
      ∙ ap (behind (to_lower s)) later in
    let size : length (to_lower s ++ []) ≡ length s =
      omega (arith, length-append (to_lower s) [], length-to_lower s) in
    rw (param_value, lower-append s (branch_eq ++ v), cut)
      (ap until_end (drop_two s v (length (to_lower s ++ [])) size))

-- A byte has two digits.
hex_digit-plain : (n : ℕ) → n < 16 → ends_param (hex_digit n) ≡ false
hex_digit-plain n h = ground arith

abbrev pub AllBytes : List ℕ → Type 0
AllBytes [] = Unit
AllBytes (b ∷ bytes) = (b < 256) × AllBytes bytes

until_end-hex : (bytes : List ℕ) → AllBytes bytes → until_end (hex bytes) ≡ hex bytes
unfolding until_end
until_end-hex [] h = refl
until_end-hex (b ∷ bytes) (h, hs) =
    rw
      (
        hex_digit-plain (b / 16) (omega arith),
        hex_digit-plain (b % 16) (omega arith),
        until_end-hex bytes hs,
      )
      refl

abbrev front : Text → ℕ → Text
front ip port = ascii "SIP/2.0/UDP " ++ (ip ++ (58 ∷ (itoa port ++ (59 ∷ []))))

via_value-front :
    (ip : Text) (port : ℕ) (b : Text) → via_value ip port b ≡ front ip port ++ (branch_eq ++ b)
via_value-front ip port b =
    let tail : itoa port ++ (59 ∷ (branch_eq ++ b)) ≡ (itoa port ++ (59 ∷ [])) ++ (branch_eq ++ b) =
      sym (append_assoc (itoa port) (59 ∷ []) (branch_eq ++ b)) in
    ap (λ (t : Text). ascii "SIP/2.0/UDP " ++ t)
      (ap (λ (t : Text). ip ++ (58 ∷ t)) tail
        ∙ sym (append_assoc ip (58 ∷ (itoa port ++ (59 ∷ []))) (branch_eq ++ b)))

front_lacks :
    (ip : Text) (port c : ℕ)
    → contains ip c ≡ false
    → contains (itoa port) c ≡ false
    → contains (ascii "SIP/2.0/UDP :;") c ≡ false
    → contains (front ip port) c ≡ false
front_lacks ip port c h k a = ground (
  arith,
  contains-append ip (58 ∷ (itoa port ++ (59 ∷ []))) c,
  contains-append (itoa port) (59 ∷ []) c,
)

front-plain :
    (ip : Text) (port : ℕ)
    → contains ip 98 ≡ false
    → contains ip 66 ≡ false
    → contains (to_lower (front ip port)) 98 ≡ false
front-plain ip port h k =
    contains-to_lower (front ip port) (front_lacks ip port 98 h (contains-itoa port 98 refl) refl)
      (front_lacks ip port 66 k (contains-itoa port 66 refl) refl)

-- The Via header that Send writes has the branch that it registers.
param_value-via_value :
    (ip : Text) (port : ℕ) (random : List ℕ)
    → contains ip 98 ≡ false
    → contains ip 66 ≡ false
    → AllBytes random
    → param_value (via_value ip port (generate_branch random)) (ascii "branch")
      ≡ generate_branch random
unfolding generate_branch until_end
param_value-via_value ip port random h k all =
    rw (via_value-front ip port (ascii "z9hG4bK" ++ hex random)) (
      param_value-branch (front ip port) (ascii "z9hG4bK" ++ hex random) (front-plain ip port h k)
      ∙ ap (λ (t : Text). ascii "z9hG4bK" ++ t) (until_end-hex random all))

first_value-set_in : (hs : List Header) (n v : Text) → first_value (set_in hs n v) n ≡ v
unfolding set_in
first_value-set_in [] n v = ground (arith, equal_refl (to_lower n))
first_value-set_in (h ∷ hs) n v = ground (arith, first_value-set_in hs n v)

via_branch-set_header :
    (req : Message) (ip : Text) (port : ℕ) (random : List ℕ)
    → contains ip 98 ≡ false
    → contains ip 66 ≡ false
    → AllBytes random
    → via_branch (set_header req (ascii "Via") (via_value ip port (generate_branch random)))
      ≡ generate_branch random
unfolding via_branch header set_header
via_branch-set_header req ip port random h k all =
    let v : Text = via_value ip port (generate_branch random) in
    rw (first_value-set_in req.headers (ascii "Via") v)
      (param_value-via_value ip port random h k all)

-- What Send registers: a request that carries the branch, which is not empty.
registers_branch :
    (random : List ℕ) (ip : Text) (port : ℕ) (req : Message) (m : Manager)
    → contains ip 98 ≡ false
    → contains ip 66 ≡ false
    → AllBytes random
    → (r : Message) × ((b : Text) × ((with_branch random ip port req m ≡ register r b m)
          × (via_branch r ≡ b)
          × (is_empty b ≡ false)))
unfolding generate_branch
registers_branch random ip port req m h k all =
    let made : Text = generate_branch random in
    elim (Bool-cases (is_empty (via_branch req))) [
      | inl e ↦ (
        set_header req (ascii "Via") (via_value ip port made),
        (made, (rw (e) refl, via_branch-set_header req ip port random h k all, refl)),
      )
      | inr e ↦ (req, (via_branch req, (rw (e) refl, refl, e)))
    ]

abbrev Answers : Message → Message → Sending → Type 0
Answers req msg s =
    (via_branch s.request ≡ s.branch)
    × ((m : Manager) × (finish_send answered s.branch s.channel (dispatch msg s.manager).0
          ≡ some (got msg, m)))

register-Answers :
    (r : Message) (b : Text) (m : Manager) (msg : Message)
    → via_branch r ≡ b
    → is_empty b ≡ false
    → is_response msg ≡ true
    → via_branch msg ≡ via_branch r
    → Answers r msg (register r b m)
unfolding dispatch finish_send lookup
register-Answers r b m msg v e i same =
    let own : via_branch msg ≡ b = same ∙ v in
    let now : Manager = (register r b m).manager in
    let found : lookup now.pending (via_branch msg) ≡ some m.next = rw (own, equal_refl b) refl in
    let sent : dispatch msg now ≡ (deliver (some m.next) msg now, none) =
      rw (i, found, own, e) refl in
    let queue : (deliver (some m.next) msg now).channels m.next ≡ msg ∷ [] = ground arith in
    (
      v,
      (
        _,
        ap (λ (p : Manager × Option Message). take_from (p.0.channels m.next) m.next p.0) sent
            ∙ ap (λ (q : List Message). take_from q m.next (deliver (some m.next) msg now)) queue,
      ),
    )

-- Send registers its transaction under the branch of the request that it puts on the wire,
-- whether the caller set it or Send wrote the Via header, for a local address without the letter
-- b; so a response that copies this branch and arrives next is the one that this Send returns.
pub dispatch-begin_send :
    (random : List ℕ) (ip : Text) (port : ℕ) (req msg : Message) (m : Manager) (s : Sending)
    → contains ip 98 ≡ false
    → contains ip 66 ≡ false
    → AllBytes random
    → begin_send random ip port req m ≡ some s
    → is_response msg ≡ true
    → via_branch msg ≡ via_branch s.request
    → (via_branch s.request ≡ s.branch)
      × ((after : Manager) × (finish_send answered s.branch s.channel (dispatch msg s.manager).0
            ≡ some (got msg, after)))
unfolding begin_send
dispatch-begin_send random ip port req msg m s h k all started i same =
    let (r, (b, (made, v, e))) = registers_branch random ip port req m h k all in
    let begun : with_branch random ip port req m ≡ s = ground arith in
    let is_s : register r b m ≡ s = sym made ∙ begun in
    rw⁻¹ (is_s) (
      register-Answers r b m msg v e i
        (same ∙ ap (λ (x : Sending). via_branch x.request) (sym is_s)))
