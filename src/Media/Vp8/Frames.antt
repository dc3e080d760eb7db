-- ===== src/Media/Vp8/Frames.antt =====
-- internal/media/vp8.go: the payloads of a frame, and the frame that they give back.
use xphone_go.Prelude.{
  ℕ, zero, suc, ◌+◌, ◌-◌, ◌%◌, ◌^◌, ◌≤◌, ◌≡◌, ◌≢◌, refl, ap, ◌∙◌, Bool, true, false, List, [], ◌∷◌,
  ◌++◌, arith, ◌==◌, if◌then◌else◌, length, take, drop, append-nil, append_assoc, take-append-drop,
  length-take, length-drop, Bool-cases, inl, inr,
}
use xphone_go.Media.Rtp.{Packet}
use xphone_go.Media.Vp8.Defs.{
  VideoFrame, Vp8Depacketizer, push, finish_frame, flushed, frame_of, fragments, packetize,
  max_payload,
}

-- The packets that runVideo sends for the payloads of a frame: one timestamp, the marker on the last.
abbrev pub to_packets : ℕ → ℕ → ℕ → ℕ → List (List ℕ) → List Packet
to_packets pt ssrc ts seq [] = []
to_packets pt ssrc ts seq (p ∷ ps) =
    record {
      marker = length ps == 0;
      payload_type = pt;
      sequence_number = seq;
      timestamp = ts;
      ssrc = ssrc;
      payload = p;
    }
    ∷ to_packets pt ssrc ts ((seq + 1) % 2 ^ 16) ps

-- Push, packet after packet.
unfoldable pub push_all : Vp8Depacketizer → List Packet → Vp8Depacketizer × List VideoFrame
push_all d [] = (d, [])
push_all d (p ∷ ps) =
    let (d', frames) = push d p in let (d'', more) = push_all d' ps in (d'', frames ++ more)

push-first :
    (d : Vp8Depacketizer) (pkt : Packet) (b : ℕ) (bs : List ℕ)
    → d.has_data ≡ false
    → d.frame_buf ≡ []
    → pkt.payload ≡ 16 ∷ b ∷ bs
    → push d pkt
      ≡ finish_frame pkt.marker (record {
        current_ts = pkt.timestamp;
        frame_buf = b ∷ bs;
        has_data = true;
        is_keyframe = b % 2 == 0;
      })
unfolding push
push-first d pkt b bs h e p = ground arith

push-next :
    (d : Vp8Depacketizer) (pkt : Packet) (bs : List ℕ)
    → d.has_data ≡ true
    → d.current_ts ≡ pkt.timestamp
    → pkt.payload ≡ 0 ∷ bs
    → push d pkt ≡ finish_frame pkt.marker (record d { frame_buf = d.frame_buf ++ bs })
unfolding push
push-next d pkt bs h t p = ground arith

fragments-none :
    (fuel size : ℕ) (bytes : List ℕ)
    → length bytes ≤ fuel
    → (length (fragments fuel size false bytes) == 0) ≡ (length bytes == 0)
unfolding fragments
fragments-none zero size bytes h = ground arith
fragments-none (suc fuel) size bytes h = ground arith

fragments-empty :
    (fuel size : ℕ) (first : Bool) (bytes : List ℕ)
    → length bytes ≡ 0
    → fragments fuel size first bytes ≡ []
unfolding fragments
fragments-empty zero size first bytes h = refl
fragments-empty (suc fuel) size first bytes h = ground arith

-- The two ways in which a packet that belongs to a running frame goes on.
finish-running :
    (m : Bool) (d : Vp8Depacketizer)
    → d.has_data ≡ true
    → finish_frame m d ≡ (if m then (flushed d, frame_of d ∷ []) else (d, []))
finish-running m d h = ground arith

push_all-pair :
    (d d' : Vp8Depacketizer) (pkt : Packet) (pkts : List Packet)
    → push d pkt ≡ (d', [])
    → push_all d (pkt ∷ pkts) ≡ push_all d' pkts
unfolding push_all
push_all-pair d d' pkt pkts h = rw h refl

push_all-last :
    (d d' : Vp8Depacketizer) (pkt : Packet) (frames : List VideoFrame)
    → push d pkt ≡ (d', frames)
    → push_all d (pkt ∷ []) ≡ (d', frames)
unfolding push_all
push_all-last d d' pkt frames h = rw (h, append-nil)

take_all : (n : ℕ) (xs : List ℕ) → length (drop n xs) ≡ 0 → take n xs ≡ xs
take_all zero [] h = refl
take_all zero (x ∷ xs) h = absurd (omega arith)
take_all (suc n) [] h = refl
take_all (suc n) (x ∷ xs) h = ap (λ (t : List ℕ). x ∷ t) (take_all n xs h)

module _ (pt ssrc ts size : ℕ) (pos : 1 ≤ size) where
  -- What is left of a frame completes it.
  push_rest :
      (fuel seq : ℕ) (d : Vp8Depacketizer) (bytes : List ℕ)
      → length bytes ≤ fuel
      → d.has_data ≡ true
      → d.current_ts ≡ ts
      → length bytes ≢ 0
      → push_all d (to_packets pt ssrc ts seq (fragments fuel size false bytes))
        ≡ (flushed d, frame_of (record d { frame_buf = d.frame_buf ++ bytes }) ∷ [])
  unfolding fragments
  push_rest zero seq d bytes f h t n = absurd (omega arith)
  push_rest (suc fuel) seq d bytes f h t n =
      let nonempty : (length bytes == 0) ≡ false = ground arith in
      elim (Bool-cases (length (drop size bytes) == 0)) [
        | inl over ↦
            rw (nonempty, fragments-empty fuel size false (drop size bytes) (ground arith))
              (push_all-last d _ _ _ (
                push-next d _ (take size bytes) h t refl
                ∙ finish-running true (record d { frame_buf = d.frame_buf ++ take size bytes }) h
                ∙ ap
                    (λ (x : List ℕ).
                      (flushed d, frame_of (record d { frame_buf = d.frame_buf ++ x }) ∷ []))
                    (take_all size bytes (ground arith))))
        | inr more ↦ rw (nonempty) (
            push_all-pair d (record d { frame_buf = d.frame_buf ++ take size bytes }) _ _
              (push-next d _ (take size bytes) h t refl
                ∙ rw
                    (
                      fragments-none fuel size (drop size bytes)
                          (omega (arith, length-drop size bytes)),
                      more,
                    )
                    (finish-running false (record d { frame_buf = d.frame_buf ++ take size bytes })
                      h))
            ∙ push_rest fuel ((seq + 1) % 2 ^ 16)
                (record d { frame_buf = d.frame_buf ++ take size bytes }) (drop size bytes)
                (omega (arith, length-drop size bytes)) h t (ground arith)
            ∙ ap (λ (x : List ℕ). (flushed d, frame_of (record d { frame_buf = x }) ∷ []))
                (append_assoc d.frame_buf (take size bytes) (drop size bytes)
                  ∙ ap (λ (x : List ℕ). d.frame_buf ++ x) (take-append-drop size bytes)))
      ]

  -- A frame that starts on a depacketizer between two frames.
  push_frame :
      (k fuel seq : ℕ) (d : Vp8Depacketizer) (b : ℕ) (bs : List ℕ)
      → size ≡ suc k
      → length bs ≤ fuel
      → d.has_data ≡ false
      → d.frame_buf ≡ []
      → push_all d (to_packets pt ssrc ts seq (fragments (suc fuel) size true (b ∷ bs))) ≡ (
        record { current_ts = ts; frame_buf = []; has_data = false; is_keyframe = false },
        record { timestamp = ts; is_keyframe = b % 2 == 0; data_bytes = b ∷ bs } ∷ [],
      )
  unfolding fragments
  push_frame k fuel seq d b bs e f h buf =
      let nonempty : (length (b ∷ bs) == 0) ≡ false = ground arith in
      let d' : Vp8Depacketizer = record {
        current_ts = ts;
        frame_buf = b ∷ take k bs;
        has_data = true;
        is_keyframe = b % 2 == 0;
      } in
      elim (Bool-cases (length (drop k bs) == 0)) [
        | inl over ↦
            rw (e, nonempty, fragments-empty fuel (suc k) false (drop k bs) (ground arith))
              (push_all-last d _ _ _ (
                push-first d _ b (take k bs) h buf refl
                ∙ finish-running true d' refl
                ∙ ap (λ (x : List ℕ). (flushed d', frame_of (record d' { frame_buf = b ∷ x }) ∷ []))
                    (take_all k bs (ground arith))))
        | inr more ↦
            rw (e, nonempty)
              (push_all-pair d d' _ _ (
                  push-first d _ b (take k bs) h buf refl
                  ∙ rw
                      (
                        fragments-none fuel (suc k) (drop k bs) (omega (arith, length-drop k bs)),
                        more,
                      )
                      (finish-running false d' refl))
                ∙ rw e at (
                    push_rest fuel ((seq + 1) % 2 ^ 16) d' (drop k bs)
                      (omega (arith, length-drop k bs)) refl refl (ground arith))
                ∙ ap (λ (x : List ℕ). (flushed d', frame_of (record d' { frame_buf = b ∷ x }) ∷ []))
                    (take-append-drop k bs))
      ]

max_payload_pos : (mtu : ℕ) → (1 ≤ max_payload mtu) × (max_payload mtu ≡ suc (max_payload mtu - 1))
max_payload_pos mtu = ground arith

-- A frame that is packetized, sent as the packets of one timestamp and pushed in order comes back
-- as exactly one frame, with its bytes, its timestamp and the keyframe flag of its first byte, at
-- every MTU; the depacketizer is between two frames before and after.
pub push_all-packetize :
    (mtu pt ssrc ts seq : ℕ) (d : Vp8Depacketizer) (b : ℕ) (bs : List ℕ)
    → d.has_data ≡ false
    → d.frame_buf ≡ []
    → push_all d (to_packets pt ssrc ts seq (packetize mtu (b ∷ bs))) ≡ (
      record { current_ts = ts; frame_buf = []; has_data = false; is_keyframe = false },
      record { timestamp = ts; is_keyframe = b % 2 == 0; data_bytes = b ∷ bs } ∷ [],
    )
unfolding packetize
push_all-packetize mtu pt ssrc ts seq d b bs h buf =
    let (pos, size) = max_payload_pos mtu in
    push_frame pt ssrc ts (max_payload mtu) pos (max_payload mtu - 1) (length bs) seq d b bs size
      (omega arith) h buf

-- The payloads have a descriptor, at least one byte of the frame, and at most `limit` bytes.
abbrev pub EachFits : ℕ → List (List ℕ) → Type 0
EachFits limit [] = Unit
EachFits limit (p ∷ ps) = (2 ≤ length p) × (length p ≤ limit) × EachFits limit ps

fragments-EachFits :
    (fuel size : ℕ) (first : Bool) (bytes : List ℕ)
    → 1 ≤ size
    → EachFits (suc size) (fragments fuel size first bytes)
unfolding fragments
fragments-EachFits zero size first bytes pos = tt
fragments-EachFits (suc fuel) size first bytes pos =
    ground (arith, fragments-EachFits fuel size false (drop size bytes) pos, length-take size bytes)

-- No payload is longer than the MTU, where it is at least 2, and none is without a byte of the frame.
pub packetize-EachFits : (mtu : ℕ) (bytes : List ℕ) → 2 ≤ mtu → EachFits mtu (packetize mtu bytes)
unfolding packetize
packetize-EachFits mtu bytes h =
    let size : suc (max_payload mtu) ≡ mtu = ground arith in
    rw size at
      (fragments-EachFits (length bytes) (max_payload mtu) true bytes (max_payload_pos mtu).0)
