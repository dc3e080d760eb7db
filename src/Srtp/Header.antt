-- ===== src/Srtp/Header.antt =====
-- internal/srtp/srtp.go: rtpHeaderLen. Go's -1 is `none`.
use xphone_go.Prelude.{
  ℕ, ◌+◌, ◌*◌, ◌/◌, ◌≤◌, ◌<◌, ◌≡◌, bit_and, not, Option, none, some, List, arith, ltb, ◌==◌,
  if◌then◌else◌, length,
}
use xphone_go.Prelude.Bytes.{byte_at, u16_at}

-- The header with the CSRC list, before the extension.
abbrev fixed_len : List ℕ → ℕ
fixed_len pkt = 12 + bit_and (byte_at pkt 0) 15 * 4

unfoldable pub rtp_header_len : List ℕ → Option ℕ
rtp_header_len pkt =
    let header_len = fixed_len pkt in
    let full = header_len + (4 + u16_at pkt (header_len + 2) * 4) in
    if ltb (length pkt) 12
    then none
    else if not (bit_and (byte_at pkt 0 / 64) 3 == 2)
    then none
    else if ltb (length pkt) header_len
    then none
    else if not (bit_and (byte_at pkt 0) 16 == 0)
    then (if ltb (length pkt) (header_len + 4)
        then none
        else if ltb (length pkt) full
        then none
        else some full)
    else some header_len

-- A header lies inside its packet and has at least 12 bytes.
pub rtp_header_len_bounds :
    (pkt : List ℕ) {h : ℕ} → rtp_header_len pkt ≡ some h → (12 ≤ h) × (h ≤ length pkt)
unfolding rtp_header_len
rtp_header_len_bounds pkt e = ground arith

-- The length is read off the header alone: a packet that is as long and has the same header has
-- the same header length.
pub rtp_header_len_stable :
    (p q : List ℕ) (h : ℕ)
    → rtp_header_len p ≡ some h
    → length q ≡ length p
    → ((i : ℕ) → i < h → byte_at q i ≡ byte_at p i)
    → rtp_header_len q ≡ some h
unfolding rtp_header_len
rtp_header_len_stable p q h e l same =
    ground (arith, same 0, same (fixed_len p + 2), same (fixed_len p + 2 + 1))
