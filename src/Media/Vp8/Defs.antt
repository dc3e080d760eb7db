-- ===== src/Media/Vp8/Defs.antt =====
-- internal/media/vp8.go: VP8 frames in RTP payloads. A uint8 is a number below 256; `hasData` and the
-- buffer are separate fields as in the source. The reuse of the buffer's memory is not modelled.
use xphone_go.Prelude.{
  ℕ, zero, suc, ◌+◌, ◌-◌, ◌/◌, ◌%◌, Bool, true, false, not, ◌&&◌, ◌||◌, List, [], ◌∷◌, ◌++◌, ltb,
  ◌==◌, if◌then◌else◌, length, take, drop, bit_and,
}
use xphone_go.Prelude.Bytes.{byte_at}
use xphone_go.Media.Rtp.{Packet}

pub record VideoFrame : Type 0 where
  pub timestamp : ℕ
  pub is_keyframe : Bool
  pub data_bytes : List ℕ

pub record Vp8Depacketizer : Type 0 where
  pub current_ts : ℕ
  pub frame_buf : List ℕ
  pub has_data : Bool
  pub is_keyframe : Bool

abbrev pub new_depacketizer : Vp8Depacketizer
new_depacketizer = record { current_ts = 0; frame_buf = []; has_data = false; is_keyframe = false }

abbrev pub frame_of : Vp8Depacketizer → VideoFrame
frame_of d = record {
  timestamp = d.current_ts;
  is_keyframe = d.is_keyframe;
  data_bytes = d.frame_buf;
}

-- The state after flushFrame.
abbrev pub flushed : Vp8Depacketizer → Vp8Depacketizer
flushed d = record d { frame_buf = []; has_data = false; is_keyframe = false }

-- The end of the payload descriptor; the extension fields are skipped one after the other.
unfoldable pub descriptor_len : List ℕ → ℕ
descriptor_len payload =
    let ext = byte_at payload 1 in
    let wide = not (bit_and (byte_at payload 2) 128 == 0) && ltb 3 (length payload) in
    let picture =
      if (ext / 128 % 2 == 1) && ltb 2 (length payload) then (if wide then 4 else 3) else 2 in
    let level = if ext / 64 % 2 == 1 then picture + 1 else picture in
    let layer = if (ext / 32 % 2 == 1) || (ext / 16 % 2 == 1) then level + 1 else level in
    if (byte_at payload 0 / 128 % 2 == 1) && ltb 1 (length payload) then layer else 1

-- Bit 0 of the frame tag is 0 in a keyframe.
abbrev pub keyframe_tag : List ℕ → Bool → Bool
keyframe_tag [] old = old
keyframe_tag (b ∷ bs) old = b % 2 == 0

abbrev pub start_partition : Bool → List ℕ → Vp8Depacketizer → Vp8Depacketizer
start_partition false vp d = d
start_partition true vp d = record d {
  has_data = true;
  is_keyframe = keyframe_tag vp d.is_keyframe;
}

abbrev pub collect : List ℕ → Vp8Depacketizer → Vp8Depacketizer
collect vp d = if d.has_data then record d { frame_buf = d.frame_buf ++ vp } else d

abbrev pub finish_frame : Bool → Vp8Depacketizer → Vp8Depacketizer × List VideoFrame
finish_frame marker d = if marker && d.has_data then (flushed d, frame_of d ∷ []) else (d, [])

abbrev pub push_payload : Packet → Vp8Depacketizer → Vp8Depacketizer × List VideoFrame
push_payload pkt d =
    let off = descriptor_len pkt.payload in
    let vp = drop off pkt.payload in
    let d' = collect vp (start_partition (byte_at pkt.payload 0 / 16 % 2 == 1) vp d) in
    if ltb (length pkt.payload) off then (d, []) else finish_frame pkt.marker d'

abbrev pub prepend :
    List VideoFrame → Vp8Depacketizer × List VideoFrame → Vp8Depacketizer × List VideoFrame
prepend old (d, frames) = (d, old ++ frames)

-- A change of the timestamp ends the frame before.
abbrev pub change_timestamp : ℕ → Vp8Depacketizer → Vp8Depacketizer × List VideoFrame
change_timestamp ts d =
    if d.has_data && not (ts == d.current_ts)
    then (record (flushed d) { current_ts = ts }, frame_of d ∷ [])
    else (record d { current_ts = ts }, [])

unfoldable pub push : Vp8Depacketizer → Packet → Vp8Depacketizer × List VideoFrame
unfolding descriptor_len
push d pkt =
    let (d', old) = change_timestamp pkt.timestamp d in
    if length pkt.payload == 0 then (d, []) else prepend old (push_payload pkt d')

abbrev pub default_mtu : ℕ
default_mtu = 1200

abbrev pub max_payload : ℕ → ℕ
max_payload mtu = (if mtu == 0 then default_mtu else if ltb mtu 2 then 2 else mtu) - 1

-- The loop of Packetize, on fuel: the number of bytes left is enough.
unfoldable pub fragments : ℕ → ℕ → Bool → List ℕ → List (List ℕ)
fragments zero size first bytes = []
fragments (suc fuel) size first bytes =
    let rest = fragments fuel size false (drop size bytes) in
    if length bytes == 0 then [] else ((if first then 16 else 0) ∷ take size bytes) ∷ rest

-- Packetize; a negative MTU is taken as 0 here, both mean the default.
unfoldable pub packetize : ℕ → List ℕ → List (List ℕ)
unfolding fragments
packetize mtu bytes = fragments (length bytes) (max_payload mtu) true bytes
