-- ===== src/Media/H264/Defs.antt =====
-- internal/media/h264.go: H.264 frames in RTP payloads. A byte is a number below 256, so `& 0x1F` is `% 32`, `& 0xE0` is `/ 32 * 32`, and `|` of
-- bits that are apart is `+`. A buffer that is nil is empty; the reuse of memory is not modelled.
use xphone_go.Prelude.{
  ℕ, zero, suc, ◌+◌, ◌-◌, ◌*◌, ◌/◌, ◌%◌, Bool, true, false, not, ◌&&◌, ◌||◌, List, [], ◌∷◌, ◌++◌,
  ltb, leb, ◌==◌, if◌then◌else◌, length, take, drop,
}
use xphone_go.Prelude.Bytes.{byte_at, u16_at}
use xphone_go.Media.Rtp.{Packet}
use xphone_go.Media.Vp8.Defs.{VideoFrame, default_mtu}

pub record H264Depacketizer : Type 0 where
  pub current_ts : ℕ
  pub nals : List (List ℕ)
  pub is_keyframe : Bool
  pub has_data : Bool
  pub fua_buf : List ℕ
  pub fua_active : Bool

abbrev pub new_depacketizer : H264Depacketizer
new_depacketizer = record {
  current_ts = 0;
  nals = [];
  is_keyframe = false;
  has_data = false;
  fua_buf = [];
  fua_active = false;
}

-- IDR, SPS and PPS.
abbrev pub is_key_type : ℕ → Bool
is_key_type nal_type = (nal_type == 5) || ((nal_type == 7) || (nal_type == 8))

-- checkKeyframe.
abbrev pub check_keyframe : ℕ → H264Depacketizer → H264Depacketizer
check_keyframe nal_type d = record d { is_keyframe = is_key_type nal_type || d.is_keyframe }

-- pushSingleNAL.
unfoldable pub push_single_nal : List ℕ → H264Depacketizer → H264Depacketizer
push_single_nal payload d =
    check_keyframe (byte_at payload 0 % 32) (record d { nals = d.nals ++ (payload ∷ []) })

abbrev pub push_aggregated : List ℕ → H264Depacketizer → H264Depacketizer
push_aggregated nal d =
    let d' = record d { nals = d.nals ++ (nal ∷ []) } in
    if length nal == 0 then d' else check_keyframe (byte_at nal 0 % 32) d'

-- The loop of pushSTAPA on what is left of the payload; every round takes at least 2 bytes, so its length is enough fuel.
unfoldable pub push_stapa_from : ℕ → List ℕ → H264Depacketizer → H264Depacketizer
push_stapa_from zero bytes d = d
push_stapa_from (suc fuel) bytes d =
    let size = u16_at bytes 0 in
    let later =
      push_stapa_from fuel (drop (2 + size) bytes) (push_aggregated (take size (drop 2 bytes)) d) in
    if ltb (length bytes) 2 then d else if ltb (length bytes) (2 + size) then d else later

-- pushSTAPA.
unfoldable pub push_stapa : List ℕ → H264Depacketizer → H264Depacketizer
unfolding push_stapa_from
push_stapa payload d = push_stapa_from (length payload) (drop 1 payload) d

-- The start of a NAL unit, or more of one that has started.
abbrev pub take_fragment : Bool → ℕ → ℕ → List ℕ → H264Depacketizer → H264Depacketizer
take_fragment start indicator nal_type bytes d =
    if start
    then check_keyframe nal_type
        (record d { fua_buf = (indicator / 32 * 32 + nal_type) ∷ bytes; fua_active = true })
    else if d.fua_active
    then record d { fua_buf = d.fua_buf ++ bytes }
    else d

abbrev pub end_fragment : Bool → H264Depacketizer → H264Depacketizer
end_fragment last d =
    if last && d.fua_active
    then record d { nals = d.nals ++ (d.fua_buf ∷ []); fua_buf = []; fua_active = false }
    else d

-- pushFUA.
unfoldable pub push_fua : List ℕ → H264Depacketizer → H264Depacketizer
push_fua payload d =
    let header = byte_at payload 1 in
    let started =
      take_fragment (header / 128 % 2 == 1) (byte_at payload 0) (header % 32) (drop 2 payload) d in
    if ltb (length payload) 2 then d else end_fragment (header / 64 % 2 == 1) started

-- The switch of Push on the type of the payload.
unfoldable pub push_payload : List ℕ → H264Depacketizer → H264Depacketizer
unfolding push_single_nal push_stapa push_fua
push_payload payload d =
    let nal_type = byte_at payload 0 % 32 in
    if leb 1 nal_type && leb nal_type 23
    then push_single_nal payload d
    else if nal_type == 24
    then push_stapa payload d
    else if nal_type == 28
    then push_fua payload d
    else d

-- The data of flushFrame: a start code before every NAL unit.
unfoldable pub annex_b : List (List ℕ) → List ℕ
annex_b [] = []
annex_b (nal ∷ nals) = 0 ∷ 0 ∷ 0 ∷ 1 ∷ (nal ++ annex_b nals)

abbrev pub frame_of : H264Depacketizer → VideoFrame
frame_of d = record {
  timestamp = d.current_ts;
  is_keyframe = d.is_keyframe;
  data_bytes = annex_b d.nals;
}

-- The state after flushFrame.
abbrev pub flushed : H264Depacketizer → H264Depacketizer
flushed d = record d {
  nals = [];
  is_keyframe = false;
  has_data = false;
  fua_buf = [];
  fua_active = false;
}

-- A change of the timestamp ends the frame before.
abbrev pub change_timestamp : ℕ → H264Depacketizer → H264Depacketizer × List VideoFrame
change_timestamp ts d =
    if d.has_data && not (ts == d.current_ts)
    then (record (flushed d) { current_ts = ts; has_data = true }, frame_of d ∷ [])
    else (record d { current_ts = ts; has_data = true }, [])

abbrev pub finish_frame :
    Bool → List VideoFrame → H264Depacketizer → H264Depacketizer × List VideoFrame
finish_frame marker old d =
    if marker && d.has_data then (flushed d, old ++ (frame_of d ∷ [])) else (d, old)

-- H264Depacketizer.Push.
unfoldable pub push : H264Depacketizer → Packet → H264Depacketizer × List VideoFrame
unfolding push_payload
push d pkt =
    let (d', old) = change_timestamp pkt.timestamp d in
    if length pkt.payload == 0
    then (d, [])
    else finish_frame pkt.marker old (push_payload pkt.payload d')

-- The length of the start code that begins here, or 0.
unfoldable pub start_code : List ℕ → ℕ
start_code bytes =
    let zeros = (byte_at bytes 0 == 0) && (byte_at bytes 1 == 0) in
    if leb 3 (length bytes) && (zeros && (byte_at bytes 2 == 1))
    then 3
    else if leb 4 (length bytes) && (zeros && ((byte_at bytes 2 == 0) && (byte_at bytes 3 == 1)))
    then 4
    else 0

-- What stands behind the first start code.
unfoldable pub skip_to_start : List ℕ → List ℕ
unfolding start_code
skip_to_start [] = []
skip_to_start (b ∷ bytes) =
    let later = skip_to_start bytes in
    if start_code (b ∷ bytes) == 0 then later else drop (start_code (b ∷ bytes)) (b ∷ bytes)

abbrev before : ℕ → List ℕ × List ℕ → List ℕ × List ℕ
before b (nal, rest) = (b ∷ nal, rest)

-- The bytes up to the next start code, and what is left.
unfoldable pub next_nal : List ℕ → List ℕ × List ℕ
unfolding start_code
next_nal [] = ([], [])
next_nal (b ∷ bytes) =
    let later = next_nal bytes in
    if start_code (b ∷ bytes) == 0 then before b later else ([], b ∷ bytes)

abbrev add_nal : List ℕ → List (List ℕ) → List (List ℕ)
add_nal nal nals = if length nal == 0 then nals else nal ∷ nals

-- The second loop of splitAnnexB; every round but the last takes a start code, so the length of the bytes is enough fuel.
unfoldable pub split_nals : ℕ → List ℕ → List (List ℕ)
unfolding next_nal start_code
split_nals zero bytes = []
split_nals (suc fuel) bytes =
    let (nal, rest) = next_nal bytes in
    let later = split_nals fuel (drop (start_code rest) rest) in
    if length bytes == 0 then [] else add_nal nal (if start_code rest == 0 then [] else later)

-- splitAnnexB.
unfoldable pub split_annex_b : List ℕ → List (List ℕ)
unfolding split_nals skip_to_start
split_annex_b bytes = let rest = skip_to_start bytes in split_nals (length rest) rest

abbrev fragment_bit : Bool → ℕ → ℕ
fragment_bit false bit = 0
fragment_bit true bit = bit

-- The loop of fragmentFUA on the bytes behind the NAL header, on fuel: their number is enough.
unfoldable pub fragments : ℕ → ℕ → ℕ → ℕ → Bool → List ℕ → List (List ℕ)
fragments zero size indicator nal_type first bytes = []
fragments (suc fuel) size indicator nal_type first bytes =
    let last = leb (length bytes) size in
    let header = nal_type + (fragment_bit first 128 + fragment_bit last 64) in
    let rest = fragments fuel size indicator nal_type false (drop size bytes) in
    if length bytes == 0 then [] else (indicator ∷ header ∷ take size bytes) ∷ rest

-- fragmentFUA.
unfoldable pub fragment_fua : List ℕ → ℕ → List (List ℕ)
unfolding fragments
fragment_fua [] mtu = []
fragment_fua (b ∷ bytes) mtu =
    fragments (length bytes) (mtu - 2) (b / 32 * 32 + 28) (b % 32) true bytes

-- The MTU that Packetize works with; a negative one is taken as 0 here, both mean the default.
abbrev pub effective_mtu : ℕ → ℕ
effective_mtu mtu = if mtu == 0 then default_mtu else if ltb mtu 3 then 3 else mtu

abbrev pub nal_payloads : ℕ → List ℕ → List (List ℕ)
nal_payloads mtu nal =
    if length nal == 0 then [] else if leb (length nal) mtu then nal ∷ [] else fragment_fua nal mtu

-- The loop of Packetize.
unfoldable pub packetize_nals : ℕ → List (List ℕ) → List (List ℕ)
unfolding fragment_fua
packetize_nals mtu [] = []
packetize_nals mtu (nal ∷ nals) = nal_payloads mtu nal ++ packetize_nals mtu nals

-- H264Packetizer.Packetize.
unfoldable pub packetize : ℕ → List ℕ → List (List ℕ)
unfolding packetize_nals split_annex_b
packetize mtu bytes = packetize_nals (effective_mtu mtu) (split_annex_b bytes)
