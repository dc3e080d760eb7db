-- ===== src/Srtp/Context/Stream.antt =====
-- internal/srtp/srtp.go: a stream that is protected, sent in order and unprotected.
use xphone_go.Prelude.{
  ℕ, ◌+◌, ◌*◌, ◌/◌, ◌%◌, ◌^◌, ◌<◌, ◌≡◌, refl, sym, ◌∙◌, ap, true, false, some, List, [], ◌∷◌, map,
  arith,
}
use xphone_go.Prelude.Bytes.{u16_at}
use xphone_go.Srtp.Replay.Defs.{ReplayWindow, is_replay, accept}
use xphone_go.Srtp.Header.{rtp_header_len}
use xphone_go.Srtp.Cipher.{Crypto}
use xphone_go.Srtp.Context.Defs.{
  Context, Outcome, ok, err, panic, update_roc, estimate_roc, commit, packet_index, protect,
  unprotect,
}
use xphone_go.Srtp.Context.Roc.{packet_index_sum, estimate_roc_exact, update_roc_exact}
use xphone_go.Srtp.Context.RoundTrip.{Keyed, update_roc-Keyed, unprotect-protect, protect-state}

-- The receiver's answer to what the sender put on the wire; a failed Protect sends nothing.
abbrev deliver : Crypto → Context → Outcome → Context × Outcome
deliver crypto r (ok out) = unprotect crypto r out
deliver crypto r (err e) = (r, err e)
deliver crypto r panic = (r, panic)

-- A sender and a receiver that have both processed the packet with index `high` last.
pub record Linked (s r : Context) (high : ℕ) : Type 0 where
  pub sender_high : s.roc * 65536 + s.last_seq ≡ high
  pub sender_seq : s.last_seq < 2 ^ 16
  pub sender_init : s.seq_initialized ≡ true
  pub receiver_high : r.roc * 65536 + r.last_seq ≡ high
  pub receiver_seq : r.last_seq < 2 ^ 16
  pub receiver_init : r.seq_initialized ≡ true
  pub window_high : r.replay.top ≡ high
  pub window_init : r.replay.initialized ≡ true

newer_fresh : (w : ReplayWindow) (index : ℕ) → w.top < index → is_replay w index ≡ false
unfolding is_replay
newer_fresh w index h = ground arith

accept_newer :
    (w : ReplayWindow) (index : ℕ)
    → w.initialized ≡ true
    → w.top < index
    → ((accept w index).top ≡ index) × ((accept w index).initialized ≡ true)
unfolding accept
accept_newer w index e h = ground arith

commit_newer :
    (r : Context) (index : ℕ)
    → r.seq_initialized ≡ true
    → r.last_seq < 2 ^ 16
    → r.roc * 65536 + r.last_seq ≡ r.replay.top
    → r.replay.initialized ≡ true
    → r.replay.top < index
    → let r' = commit r (index / 65536) (index % 65536) in
      (r'.roc ≡ index / 65536)
      × (r'.last_seq ≡ index % 65536)
      × (r'.seq_initialized ≡ true)
      × (r'.replay.top ≡ index)
      × (r'.replay.initialized ≡ true)
unfolding commit
commit_newer r index init seq16 top started newer = ground (
  arith,
  packet_index_sum r.roc r.last_seq seq16,
  packet_index_sum (index / 65536) (index % 65536) (omega arith),
  accept_newer r.replay index started newer,
)

commit-Keyed :
    (r : Context) (roc seq : ℕ) {key mac_key salt : List ℕ}
    → Keyed r key mac_key salt
    → Keyed (commit r roc seq) key mac_key salt
unfolding commit
commit-Keyed r roc seq k = ground arith

module _ (crypto : Crypto) (key mac_key salt : List ℕ) where
  -- The packets carry the low 16 bits of increasing indices, each less than 2 ^ 15 after the last.
  abbrev Ascending : ℕ → List (ℕ × List ℕ) → Type 0
  Ascending high [] = Unit
  Ascending high ((index, pkt) ∷ pkts) =
      (high < index)
      × (index < high + 0x8000)
      × (index < 2 ^ 48)
      × (u16_at pkt 2 ≡ index % 65536)
      × ((h : ℕ) × (rtp_header_len pkt ≡ some h))
      × Ascending index pkts

  unfoldable pub transmit : Context → Context → List (ℕ × List ℕ) → List Outcome
  transmit s r [] = []
  transmit s r ((index, pkt) ∷ pkts) =
      let (s', sent) = protect crypto s pkt in
      let (r', got) = deliver crypto r sent in got ∷ transmit s' r' pkts

  step-Linked :
      (s r : Context) (high index : ℕ)
      → Linked s r high
      → high < index
      → index < high + 0x8000
      → index < 2 ^ 48
      → Linked (update_roc s (index % 65536)) (commit r (index / 65536) (index % 65536)) index
  step-Linked s r high index l newer near fits =
      let (u0, u1, u2) =
        update_roc_exact s index l.sender_init l.sender_seq fits (omega arith) (omega arith) in
      let (v0, v1, v2, v3, v4) =
        commit_newer r index l.receiver_init l.receiver_seq (omega arith) l.window_init
          (omega arith) in
      record {
        sender_high = omega (arith, u0, u1);
        sender_seq = omega (arith, u1);
        sender_init = u2;
        receiver_high = omega (arith, v0, v1);
        receiver_seq = omega (arith, v1);
        receiver_init = v2;
        window_high = v3;
        window_init = v4;
      }

  one_hop :
      (s r : Context) (high index : ℕ) (pkt : List ℕ) (h : ℕ)
      → Keyed s key mac_key salt
      → Keyed r key mac_key salt
      → Linked s r high
      → high < index
      → index < high + 0x8000
      → index < 2 ^ 48
      → u16_at pkt 2 ≡ index % 65536
      → rtp_header_len pkt ≡ some h
      → let sent = protect crypto s pkt in
        let got = deliver crypto r sent.1 in
        (got.1 ≡ ok pkt)
        × Linked sent.0 got.0 index
        × Keyed sent.0 key mac_key salt
        × Keyed got.0 key mac_key salt
  unfolding update_roc
  one_hop s r high index pkt h ks kr l newer near fits low e =
      let seq : ℕ = index % 65536 in
      let roc : (update_roc s seq).roc ≡ index / 65536 =
        (update_roc_exact s index l.sender_init l.sender_seq fits (omega arith) (omega arith)).0 in
      let est : estimate_roc r seq ≡ index / 65536 =
        estimate_roc_exact r index l.receiver_init l.receiver_seq fits (omega arith)
          (omega arith) in
      let top : packet_index (index / 65536) seq ≡ index =
        omega (arith, packet_index_sum (index / 65536) seq (omega arith)) in
      let (out, sent, got) =
        unprotect-protect crypto key mac_key salt s r pkt ks kr e (rw low (est ∙ sym roc))
          (rw (low, roc, top) (newer_fresh r.replay index (omega arith))) in
      rw (sent, protect-state crypto key mac_key salt s pkt h e, got, low, roc)
        (
          refl,
          step-Linked s r high index l newer near fits,
          update_roc-Keyed s seq ks,
          commit-Keyed r (index / 65536) seq kr,
        )

  -- Take two contexts with the same keys that both have an index, the same one, which is also the top
  -- of the receiver's window. Then packets with well-formed headers, each with an index beyond the
  -- one before by less than 2 ^ 15 and below 2 ^ 48, sent and received in order, are given back
  -- packet by packet, unchanged, across any number of wrap-arounds of the sequence number.
  pub transmit_in_order :
      (s r : Context) (high : ℕ) (pkts : List (ℕ × List ℕ))
      → Keyed s key mac_key salt
      → Keyed r key mac_key salt
      → Linked s r high
      → Ascending high pkts
      → transmit s r pkts ≡ map (λ p. ok p.1) pkts
  unfolding transmit
  transmit_in_order s r high [] ks kr l a = refl
  transmit_in_order s r high ((index, pkt) ∷ pkts) ks kr l (newer, near, fits, low, (h, e), rest) =
      let (got, l', ks', kr') = one_hop s r high index pkt h ks kr l newer near fits low e in
      let s' : Context = (protect crypto s pkt).0 in
      let r' : Context = (deliver crypto r (protect crypto s pkt).1).0 in
      rw got (ap (λ t. ok pkt ∷ t) (transmit_in_order s' r' index pkts ks' kr' l' rest))
