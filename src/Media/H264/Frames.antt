-- ===== src/Media/H264/Frames.antt =====
-- internal/media/h264.go: the packets of a frame, and the frame that they give back.
use xphone_go.Prelude.{
  ℕ, zero, suc, ◌+◌, ◌-◌, ◌*◌, ◌/◌, ◌%◌, ◌^◌, ◌≤◌, ◌≡◌, ◌≢◌, refl, Bool, true, false, ◌&&◌, not,
  List, [], ◌∷◌, ◌++◌, arith, leb, ◌==◌, length, length-append, take, drop, Bool-cases, inl, inr,
}
use xphone_go.Prelude.Bytes.{u16_at}
use xphone_go.Media.Rtp.{Packet}
use xphone_go.Media.Vp8.Defs.{VideoFrame}
use xphone_go.Media.Vp8.Frames.{to_packets}
use xphone_go.Media.H264.Defs.{
  H264Depacketizer, new_depacketizer, push, push_payload, push_aggregated, finish_frame,
  push_single_nal, push_stapa_from, push_stapa, push_fua, flushed, frame_of, annex_b, fragments,
  fragment_fua, effective_mtu, nal_payloads, packetize_nals, split_annex_b, packetize,
}
use xphone_go.Media.H264.Fragments.{push_payloads, AllNals, any_key, push_payloads-packetize_nals}

-- Push, packet after packet.
unfoldable pub push_all : H264Depacketizer → List Packet → H264Depacketizer × List VideoFrame
push_all d [] = (d, [])
push_all d (p ∷ ps) =
    let (d', frames) = push d p in let (d'', more) = push_all d' ps in (d'', frames ++ more)

push_aggregated-keeps :
    (nal : List ℕ) (d : H264Depacketizer)
    → ((push_aggregated nal d).has_data ≡ d.has_data)
      × ((push_aggregated nal d).current_ts ≡ d.current_ts)
push_aggregated-keeps nal d = (ground arith, ground arith)

push_stapa_from-keeps :
    (fuel : ℕ) (bytes : List ℕ) (d : H264Depacketizer)
    → ((push_stapa_from fuel bytes d).has_data ≡ d.has_data)
      × ((push_stapa_from fuel bytes d).current_ts ≡ d.current_ts)
unfolding push_stapa_from
push_stapa_from-keeps zero bytes d = (refl, refl)
push_stapa_from-keeps (suc fuel) bytes d =
    let size = u16_at bytes 0 in
    let later =
      push_stapa_from-keeps fuel (drop (2 + size) bytes)
        (push_aggregated (take size (drop 2 bytes)) d) in
    let (kept, at) = push_aggregated-keeps (take size (drop 2 bytes)) d in
    (ground (arith, later, kept), ground (arith, later, at))

push_fua-keeps :
    (p : List ℕ) (d : H264Depacketizer)
    → ((push_fua p d).has_data ≡ d.has_data) × ((push_fua p d).current_ts ≡ d.current_ts)
unfolding push_fua
push_fua-keeps p d = (ground arith, ground arith)

-- No payload touches the time and the mark of a frame.
push_payload-keeps :
    (p : List ℕ) (d : H264Depacketizer)
    → ((push_payload p d).has_data ≡ d.has_data) × ((push_payload p d).current_ts ≡ d.current_ts)
unfolding push_payload push_single_nal push_stapa
push_payload-keeps p d = (
  ground (arith, push_fua-keeps p d, push_stapa_from-keeps (length p) (drop 1 p) d),
  ground (arith, push_fua-keeps p d, push_stapa_from-keeps (length p) (drop 1 p) d),
)

-- A depacketizer whose running frame, if any, has the time `ts`.
abbrev Joins : ℕ → H264Depacketizer → Type 0
Joins ts d = (d.has_data && not (ts == d.current_ts)) ≡ false

push-Joins :
    (d : H264Depacketizer) (pkt : Packet)
    → Joins pkt.timestamp d
    → length pkt.payload ≢ 0
    → push d pkt
      ≡ finish_frame pkt.marker []
          (push_payload pkt.payload (record d { current_ts = pkt.timestamp; has_data = true }))
unfolding push
push-Joins d pkt j n =
    let nonempty : (length pkt.payload == 0) ≡ false = ground arith in rw (j, nonempty) refl

abbrev AllFilled : List (List ℕ) → Type 0
AllFilled [] = Unit
AllFilled (p ∷ ps) = (length p ≢ 0) × AllFilled ps

AllFilled-append : (ps qs : List (List ℕ)) → AllFilled ps → AllFilled qs → AllFilled (ps ++ qs)
AllFilled-append [] qs h k = k
AllFilled-append (p ∷ ps) qs (e, h) k = (e, AllFilled-append ps qs h k)

fragments-AllFilled :
    (fuel size indicator ty : ℕ) (first : Bool) (bytes : List ℕ)
    → AllFilled (fragments fuel size indicator ty first bytes)
unfolding fragments
fragments-AllFilled zero size indicator ty first bytes = tt
fragments-AllFilled (suc fuel) size indicator ty first bytes =
    elim (Bool-cases (length bytes == 0)) [
      | inl e ↦ rw (e) tt
      | inr e ↦ rw (e) (
        λ z. absurd (ground arith),
        fragments-AllFilled fuel size indicator ty false (drop size bytes),
      )
    ]

fragment_fua-AllFilled : (nal : List ℕ) (mtu : ℕ) → AllFilled (fragment_fua nal mtu)
unfolding fragment_fua
fragment_fua-AllFilled [] mtu = tt
fragment_fua-AllFilled (b ∷ bytes) mtu =
    fragments-AllFilled (length bytes) (mtu - 2) (b / 32 * 32 + 28) (b % 32) true bytes

nal_payloads-AllFilled : (mtu : ℕ) (nal : List ℕ) → AllFilled (nal_payloads mtu nal)
nal_payloads-AllFilled mtu nal = elim (Bool-cases (length nal == 0)) [
  | inl e ↦ rw (e) tt
  | inr e ↦ elim (Bool-cases (leb (length nal) mtu)) [
    | inl fits ↦ rw (e, fits) (λ z. absurd (ground arith), tt)
    | inr long ↦ rw (e, long) (fragment_fua-AllFilled nal mtu)
  ]
]

packetize_nals-AllFilled : (mtu : ℕ) (nals : List (List ℕ)) → AllFilled (packetize_nals mtu nals)
unfolding packetize_nals
packetize_nals-AllFilled mtu [] = tt
packetize_nals-AllFilled mtu (nal ∷ nals) =
    AllFilled-append (nal_payloads mtu nal) (packetize_nals mtu nals)
      (nal_payloads-AllFilled mtu nal) (packetize_nals-AllFilled mtu nals)

module _ (pt ssrc ts : ℕ) where
  abbrev running : H264Depacketizer → H264Depacketizer
  running d = record d { current_ts = ts; has_data = true }

  abbrev completed : H264Depacketizer → H264Depacketizer × List VideoFrame
  completed d = (flushed d, frame_of d ∷ [])

  running_same : (e : H264Depacketizer) → e.current_ts ≡ ts → e.has_data ≡ true → running e ≡ e
  running_same e t h = ground arith

  -- The packets of one timestamp make one frame.
  push_all-to_packets :
      (seq : ℕ) (d : H264Depacketizer) (p : List ℕ) (ps : List (List ℕ))
      → Joins ts d
      → AllFilled (p ∷ ps)
      → push_all d (to_packets pt ssrc ts seq (p ∷ ps))
        ≡ completed (push_payloads (p ∷ ps) (running d))
  unfolding push_all push_payloads
  push_all-to_packets seq d p [] j (n, h) =
      let (kept, at) = push_payload-keeps p (running d) in
      rw
        (
          push-Joins d
              (record {
                marker = true;
                payload_type = pt;
                sequence_number = seq;
                timestamp = ts;
                ssrc = ssrc;
                payload = p;
              })
              j n,
          kept,
        )
        refl
  push_all-to_packets seq d p (q ∷ ps) j (n, h) =
      let (kept, at) = push_payload-keeps p (running d) in
      let e : H264Depacketizer = push_payload p (running d) in
      let same : running e ≡ e = running_same e at kept in
      let more : (length (q ∷ ps) == 0) ≡ false = ground arith in
      rw
        (
          more,
          push-Joins d
              (record {
                marker = false;
                payload_type = pt;
                sequence_number = seq;
                timestamp = ts;
                ssrc = ssrc;
                payload = p;
              })
              j n,
          push_all-to_packets ((seq + 1) % 2 ^ 16) e q ps (ground (arith, at)) h,
          same,
        )
        refl

push_all-payloads :
    (pt ssrc ts seq : ℕ) (d : H264Depacketizer) (ps : List (List ℕ))
    → Joins ts d
    → length ps ≢ 0
    → AllFilled ps
    → push_all d (to_packets pt ssrc ts seq ps)
      ≡ completed pt ssrc ts (push_payloads ps (running pt ssrc ts d))
push_all-payloads pt ssrc ts seq d [] j n h = absurd (n refl)
push_all-payloads pt ssrc ts seq d (p ∷ ps) j n h = push_all-to_packets pt ssrc ts seq d p ps j h

effective_mtu-bound : (mtu : ℕ) → 3 ≤ effective_mtu mtu
effective_mtu-bound mtu = ground arith

-- A NAL unit has at least one payload.
nal_payloads-some :
    (mtu : ℕ) (nal : List ℕ) → 3 ≤ mtu → length nal ≢ 0 → length (nal_payloads mtu nal) ≢ 0
unfolding fragment_fua fragments
nal_payloads-some mtu [] m n = absurd (n refl)
nal_payloads-some mtu (c ∷ []) m n = ground arith
nal_payloads-some mtu (c ∷ b ∷ bytes) m n = ground arith

packetize_nals-some :
    (mtu : ℕ) (nal : List ℕ) (nals : List (List ℕ))
    → 3 ≤ mtu
    → length nal ≢ 0
    → length (packetize_nals mtu (nal ∷ nals)) ≢ 0
unfolding packetize_nals
packetize_nals-some mtu nal nals m n = ground (
  arith,
  nal_payloads-some mtu nal m n,
  length-append (nal_payloads mtu nal) (packetize_nals mtu nals),
)

-- A frame whose Annex-B units have the types 1 to 23 is packetized, sent as the packets of one timestamp and pushed in order to a depacketizer
-- that holds no data, with any last timestamp. It comes back as exactly one frame, with the timestamp, with its units behind start codes of four bytes and
-- with the keyframe flag that one of their types sets, at every MTU.
pub push_all-packetize_nals :
    (last mtu pt ssrc ts seq : ℕ) (bytes : List ℕ) (nal : List ℕ) (nals : List (List ℕ))
    → split_annex_b bytes ≡ nal ∷ nals
    → AllNals (nal ∷ nals)
    → push_all
        (record new_depacketizer { current_ts = last })
        (to_packets pt ssrc ts seq (packetize mtu bytes))
      ≡ (
        record new_depacketizer { current_ts = ts },
        record {
          timestamp = ts;
          is_keyframe = any_key (nal ∷ nals) false;
          data_bytes = annex_b (nal ∷ nals);
        }
            ∷ [],
      )
unfolding packetize
push_all-packetize_nals last mtu pt ssrc ts seq bytes nal nals e v =
    let filled = packetize_nals-AllFilled (effective_mtu mtu) (nal ∷ nals) in
    let some_payload =
      packetize_nals-some (effective_mtu mtu) nal nals (effective_mtu-bound mtu) (v.0.not_empty) in
    rw
      (
        e,
        push_all-payloads pt ssrc ts seq (record new_depacketizer { current_ts = last })
            (packetize_nals (effective_mtu mtu) (nal ∷ nals)) refl some_payload filled,
        push_payloads-packetize_nals (effective_mtu mtu) (nal ∷ nals)
            (record new_depacketizer { current_ts = ts; has_data = true }) (effective_mtu-bound mtu)
            v refl refl,
      )
      refl
