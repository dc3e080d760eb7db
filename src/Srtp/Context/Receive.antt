-- ===== src/Srtp/Context/Receive.antt =====
-- internal/srtp/srtp.go: Unprotect over many packets: no replay, no change on an error, and a
-- stream that arrives in order.
use xphone_go.Prelude.{
  ℕ, ◌≡◌, refl, Bool, true, false, some, none, Option, List, [], ◌∷◌, arith, contains, Distinct,
  take, drop, length, ◌-◌, ◌⊎◌, inl, inr,
}
use xphone_go.Prelude.Bytes.{u16_at, u32_at}
use xphone_go.Srtp.Replay.Defs.{new_window, is_replay, accept}
use xphone_go.Srtp.Replay.Window.{Tracks, new-Tracks, is_replay_exact, accept-Tracks}
use xphone_go.Srtp.Header.{rtp_header_len}
use xphone_go.Srtp.Cipher.{Crypto}
use xphone_go.Srtp.Context.Defs.{
  Context, Error, Outcome, ok, err, panic, estimate_roc, commit, packet_index, auth_tag,
  unprotect_at, unprotect_verified, decrypted, keystream, unprotect,
}

abbrev is_ok : Outcome → Bool
is_ok (ok out) = true
is_ok (err e) = false
is_ok panic = false

-- The packet index that Unprotect computes for a packet with its tag.
abbrev pub wire_index : Context → List ℕ → ℕ
wire_index c pkt =
    let seq = u16_at (take (length pkt - 10) pkt) 2 in packet_index (estimate_roc c seq) seq

Outcome-cases :
    (o : Outcome) → ((out : List ℕ) × (o ≡ ok out)) ⊎ (((e : Error) × (o ≡ err e)) ⊎ (o ≡ panic))
Outcome-cases (ok out) = inl (out, refl)
Outcome-cases (err e) = inr (inl (e, refl))
Outcome-cases panic = inr (inr refl)

commit-replay :
    (c : Context) (roc seq : ℕ) → (commit c roc seq).replay ≡ accept c.replay (packet_index roc seq)
unfolding commit
commit-replay c roc seq = ground arith

decrypted_ne_err :
    (h : ℕ) (auth : List ℕ) (ks : Option (List ℕ)) {e : Error} → decrypted h auth ks ≡ err e → ⊥
decrypted_ne_err h auth none p = cc
decrypted_ne_err h auth (some ks) p = cc

module _ (crypto : Crypto) where
  verified_error :
      (c : Context) (h : ℕ) (auth tag : List ℕ) (expected : Option (List ℕ)) {e : Error}
      → (unprotect_verified crypto c h auth tag expected).1 ≡ err e
      → (unprotect_verified crypto c h auth tag expected).0 ≡ c
  verified_error c h auth tag none p = refl
  verified_error c h auth tag (some expected) p =
      let seq : ℕ = u16_at auth 2 in
      let index : ℕ = packet_index (estimate_roc c seq) seq in
      let ks : Option (List ℕ) =
        keystream crypto c.block c.session_salt (u32_at auth 8) index (length auth - h) in
      ground (arith, decrypted_ne_err h auth ks)

  at_error :
      (c : Context) (auth tag : List ℕ) (h : Option ℕ) {e : Error}
      → (unprotect_at crypto c auth tag h).1 ≡ err e
      → (unprotect_at crypto c auth tag h).0 ≡ c
  at_error c auth tag none p = refl
  at_error c auth tag (some h) p =
      let roc : ℕ = estimate_roc c (u16_at auth 2) in
      ground (arith, verified_error c h auth tag (auth_tag crypto c auth roc))

  -- A packet that is refused leaves the context as it was: the window, the rollover counter and
  -- the last sequence number.
  pub unprotect_error_unchanged :
      (c : Context) (pkt : List ℕ) {e : Error}
      → (unprotect crypto c pkt).1 ≡ err e
      → (unprotect crypto c pkt).0 ≡ c
  unfolding unprotect
  unprotect_error_unchanged c pkt p =
      let n : ℕ = length pkt - 10 in
      ground (arith, at_error c (take n pkt) (drop n pkt) (rtp_header_len (take n pkt)))

  verified_ok :
      (c : Context) (h : ℕ) (auth tag : List ℕ) (expected : Option (List ℕ))
      → is_ok (unprotect_verified crypto c h auth tag expected).1 ≡ true
      → (unprotect_verified crypto c h auth tag expected).0
        ≡ commit c (estimate_roc c (u16_at auth 2)) (u16_at auth 2)
  verified_ok c h auth tag none p = cc
  verified_ok c h auth tag (some expected) p = ground arith

  at_ok :
      (c : Context) (auth tag : List ℕ) (h : Option ℕ)
      → is_ok (unprotect_at crypto c auth tag h).1 ≡ true
      → ((unprotect_at crypto c auth tag h).0
          ≡ commit c (estimate_roc c (u16_at auth 2)) (u16_at auth 2))
        × (is_replay c.replay (packet_index (estimate_roc c (u16_at auth 2)) (u16_at auth 2))
            ≡ false)
  at_ok c auth tag none p = cc
  at_ok c auth tag (some h) p =
      let roc : ℕ = estimate_roc c (u16_at auth 2) in
      ground (arith, verified_ok c h auth tag (auth_tag crypto c auth roc))

  unprotect_ok :
      (c : Context) (pkt : List ℕ)
      → is_ok (unprotect crypto c pkt).1 ≡ true
      → ((unprotect crypto c pkt).0.replay ≡ accept c.replay (wire_index c pkt))
        × (is_replay c.replay (wire_index c pkt) ≡ false)
  unfolding unprotect
  unprotect_ok c pkt p =
      let n : ℕ = length pkt - 10 in
      ground (
        arith,
        at_ok c (take n pkt) (drop n pkt) (rtp_header_len (take n pkt)),
        commit-replay c (estimate_roc c (u16_at (take n pkt) 2)) (u16_at (take n pkt) 2),
      )

  -- One packet after the other, until a panic; the indices of the accepted packets, the latest
  -- first.
  unfoldable pub receive_all : Context → List ℕ → List (List ℕ) → List ℕ
  receive_all c seen [] = seen
  receive_all c seen (pkt ∷ pkts) = elim (unprotect crypto c pkt).1 [
    | ok out ↦ receive_all (unprotect crypto c pkt).0 (wire_index c pkt ∷ seen) pkts
    | err e ↦ receive_all (unprotect crypto c pkt).0 seen pkts
    | panic ↦ seen
  ]

  receive_from-Distinct :
      (c : Context) (seen : List ℕ) (pkts : List (List ℕ))
      → Tracks c.replay seen
      → Distinct seen
      → Distinct (receive_all c seen pkts)
  unfolding receive_all
  receive_from-Distinct c seen [] t d = d
  receive_from-Distinct c seen (pkt ∷ pkts) t d = elim (Outcome-cases (unprotect crypto c pkt).1) [
    | inl (out, e) ↦
        let i : ℕ = wire_index c pkt in
        let good : is_ok (unprotect crypto c pkt).1 ≡ true = rw e in
        let (moved, fresh) = unprotect_ok c pkt good in
        let new : contains seen i ≡ false = ground (arith, is_replay_exact c.replay seen i t) in
        rw (e, receive_all)
          (receive_from-Distinct (unprotect crypto c pkt).0 (i ∷ seen) pkts
            (rw moved (accept-Tracks c.replay seen i t)) (new, d))
    | inr (inl (x, e)) ↦
        let same : (unprotect crypto c pkt).0 ≡ c = unprotect_error_unchanged c pkt e in
        rw (e, receive_all)
          (receive_from-Distinct (unprotect crypto c pkt).0 seen pkts (rw same t) d)
    | inr (inr e) ↦ rw (e, receive_all) d
  ]

  -- However packets arrive, replayed, reordered or forged, no packet index is accepted twice by a
  -- context whose window is new.
  pub receive_all-Distinct :
      (c : Context) (pkts : List (List ℕ))
      → c.replay ≡ new_window
      → Distinct (receive_all c [] pkts)
  receive_all-Distinct c pkts e = receive_from-Distinct c [] pkts (rw e new-Tracks) tt
