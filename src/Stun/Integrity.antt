-- ===== src/Stun/Integrity.antt =====
-- internal/stun/message.go: MESSAGE-INTEGRITY is verified where it was appended.
use xphone_go.Prelude.{
  ℕ, ◌+◌, ◌-◌, ◌≤◌, ◌≡◌, refl, sym, ◌∙◌, ap, true, false, List, [], ◌++◌, arith, ltb, length,
  length-append, length-take, length-drop, take, drop, take-append, drop-append, append_assoc,
  append-nil,
}
use xphone_go.Prelude.Bytes.{put_u16, bytes_eq_refl}
use xphone_go.Stun.Defs.{with_length, append_integrity, verify_integrity}

module _ (msg : List ℕ) (end : ℕ) (long : 20 ≤ length msg) where
  length-with_length : length (with_length msg end) ≡ length msg
  length-with_length = omega (
    arith,
    length-append (take 2 msg) (put_u16 (end - 20 + 24) ++ drop 4 msg),
    length-take 2 msg,
    length-drop 4 msg,
  )

  take_two : length (take 2 msg) ≡ 2
  take_two = omega (arith, length-take 2 msg)

  -- Writing the length a second time changes nothing.
  with_length_twice : with_length (with_length msg end) end ≡ with_length msg end
  with_length_twice =
      let field : List ℕ = put_u16 (end - 20 + 24) in
      let front : take 2 (with_length msg end) ≡ take 2 msg =
        take-append 2 (take 2 msg) (field ++ drop 4 msg) (sym take_two) in
      let four : 4 ≡ length (take 2 msg ++ field) =
        omega (arith, length-append (take 2 msg) field, take_two) in
      let back : drop 4 (with_length msg end) ≡ drop 4 msg =
        ap (λ (x : List ℕ). drop 4 x) (sym (append_assoc (take 2 msg) field (drop 4 msg)))
        ∙ drop-append 4 (take 2 msg ++ field) (drop 4 msg) four in
      rw (front, back) refl

module _ (hmac_sha1 : List ℕ → List ℕ → List ℕ)
    (length-hmac : (key msg : List ℕ) → length (hmac_sha1 key msg) ≡ 20) where
  -- A message of at least the header's size verifies at the offset and with the key of its own
  -- MESSAGE-INTEGRITY, which covers the message with the adjusted length.
  pub verify_integrity-append_integrity :
      (msg key : List ℕ)
      → 20 ≤ length msg
      → verify_integrity hmac_sha1 (append_integrity hmac_sha1 msg key) (length msg) key ≡ true
  unfolding append_integrity verify_integrity
  verify_integrity-append_integrity msg key long =
      let adjusted : List ℕ = with_length msg (length msg) in
      let hash : List ℕ = hmac_sha1 key adjusted in
      let tail : List ℕ = put_u16 8 ++ (put_u16 20 ++ hash) in
      let same : length adjusted ≡ length msg = length-with_length msg (length msg) long in
      let head : take (length msg) (adjusted ++ tail) ≡ adjusted =
        take-append (length msg) adjusted tail (sym same) in
      let mark : List ℕ = put_u16 8 ++ put_u16 20 in
      let shown : take 20 (drop (length msg + 4) (adjusted ++ tail)) ≡ hash =
        ap (λ (x : List ℕ). take 20 (drop (length msg + 4) x))
          (sym (append_assoc adjusted mark hash))
        ∙ ap (λ (x : List ℕ). take 20 x)
            (drop-append (length msg + 4) (adjusted ++ mark) hash
              (omega (arith, same, length-append adjusted mark)))
        ∙ ap (λ (x : List ℕ). take 20 x) (sym (append-nil hash))
        ∙ take-append 20 hash [] (sym (length-hmac key adjusted)) in
      let enough : ltb (length (adjusted ++ tail)) (length msg + 24) ≡ false =
        ground (arith, same, length-append adjusted tail, length-hmac key adjusted) in
      let whole : ltb (length msg) 20 ≡ false = ground arith in
      simp (enough, whole, head, shown, with_length_twice msg (length msg) long, bytes_eq_refl hash)
