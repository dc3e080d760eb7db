-- ===== src/Rtcp/RoundTrip.antt =====
-- internal/rtcp/rtcp.go: what is built is read back.
use xphone_go.Prelude.{
  ℕ, ◌+◌, ◌*◌, ◌/◌, ◌%◌, ◌^◌, ◌<◌, ◌≡◌, refl, none, some, List, [], ◌∷◌, arith, if◌then◌else◌,
  Bool-cases, inl, inr,
}
use xphone_go.Prelude.Bytes.{IsU32}
use xphone_go.Rtcp.{Stats, expected, extended_max_seq, cumulative_lost, fraction_lost}
use xphone_go.Rtcp.Packets.{
  Reading, delay_since_last_sr, clip, block_bytes, append_report_block, build_sr, build_rr,
  build_pli, build_fir, ReportBlock, Packet, read_block, parse_report_blocks, parse,
}

-- The numbers that a report carries fit their 32 bits.
pub record Fits (r : Reading) (s : Stats) : Type 0 where
  pub sec32 : IsU32 r.now_sec
  pub frac32 : IsU32 r.now_frac
  pub jitter32 : IsU32 r.jitter
  pub delay32 : IsU32 r.since_last_sr
  pub timestamp32 : IsU32 s.last_rtp_timestamp
  pub sent32 : IsU32 s.packets_sent
  pub octets32 : IsU32 s.octets_sent
  pub remote32 : IsU32 s.remote_ssrc
  pub middle32 : IsU32 s.last_sr_ntp_middle
  pub extended32 : IsU32 (extended_max_seq s)

-- What a report says of the stream that was received: nothing before its first packet.
abbrev pub report : Reading → Stats → ReportBlock
report r s = record {
  ssrc = s.remote_ssrc;
  fraction_lost = (fraction_lost s).1;
  cum_lost = clip (cumulative_lost s);
  highest_seq = extended_max_seq s;
  jitter = r.jitter;
  last_sr = s.last_sr_ntp_middle;
  delay_since_sr = delay_since_last_sr r s;
}

abbrev pub reports_of : Reading → Stats → List ReportBlock
reports_of r s = if s.seq_initialized then report r s ∷ [] else []

abbrev pub sender_report : ℕ → Reading → Stats → Packet
sender_report ssrc r s = record {
  packet_type = 200;
  ssrc = ssrc;
  ntp_sec = r.now_sec;
  ntp_frac = r.now_frac;
  rtp_timestamp = s.last_rtp_timestamp;
  packet_count = s.packets_sent;
  octet_count = s.octets_sent;
  reports = reports_of r s;
}

u24-clip : (n : ℕ) → clip n / 65536 % 256 * 65536 + clip n / 256 % 256 * 256 + clip n % 256 ≡ clip n
u24-clip n = let small : clip n < 2 ^ 24 = ground arith in omega arith

u32-put :
    (n : ℕ)
    → IsU32 n
    → n / 16777216 % 256 * 16777216 + n / 65536 % 256 * 65536 + n / 256 % 256 * 256 + n % 256 ≡ n
u32-put n h = omega arith

delay32 : (r : Reading) (s : Stats) → Fits r s → IsU32 (delay_since_last_sr r s)
delay32 r s f = ground (arith, f)

-- The bytes of a block are read back as the block.
read_block-block_bytes :
    (r : Reading) (s : Stats)
    → Fits r s
    → read_block (block_bytes r (fraction_lost s).0 (fraction_lost s).1) ≡ report r s
unfolding fraction_lost cumulative_lost expected
read_block-block_bytes r s f = simp (
  u24-clip (cumulative_lost s),
  u32-put s.remote_ssrc f.remote32,
  u32-put (extended_max_seq s) f.extended32,
  u32-put r.jitter f.jitter32,
  u32-put s.last_sr_ntp_middle f.middle32,
  u32-put (delay_since_last_sr r s) (delay32 r s f),
)

abbrev pub receiver_report : ℕ → Reading → Stats → Packet
receiver_report ssrc r s = record {
  packet_type = 201;
  ssrc = ssrc;
  ntp_sec = 0;
  ntp_frac = 0;
  rtp_timestamp = 0;
  packet_count = 0;
  octet_count = 0;
  reports = reports_of r s;
}

parse-build_sr :
    (ssrc : ℕ) (r : Reading) (s : Stats)
    → IsU32 ssrc
    → Fits r s
    → parse (build_sr ssrc r s).1 ≡ some (sender_report ssrc r s)
unfolding parse build_sr parse_report_blocks append_report_block
parse-build_sr ssrc r s h f = elim (Bool-cases s.seq_initialized) [
  | inl e ↦ simp (
    e,
    read_block-block_bytes r s f,
    u32-put ssrc h,
    u32-put r.now_sec f.sec32,
    u32-put r.now_frac f.frac32,
    u32-put s.last_rtp_timestamp f.timestamp32,
    u32-put s.packets_sent f.sent32,
    u32-put s.octets_sent f.octets32,
  )
  | inr e ↦ simp (
    e,
    u32-put ssrc h,
    u32-put r.now_sec f.sec32,
    u32-put r.now_frac f.frac32,
    u32-put s.last_rtp_timestamp f.timestamp32,
    u32-put s.packets_sent f.sent32,
    u32-put s.octets_sent f.octets32,
  )
]

parse-build_rr :
    (ssrc : ℕ) (r : Reading) (s : Stats)
    → IsU32 ssrc
    → Fits r s
    → parse (build_rr ssrc r s).1 ≡ some (receiver_report ssrc r s)
unfolding parse build_rr parse_report_blocks append_report_block
parse-build_rr ssrc r s h f = elim (Bool-cases s.seq_initialized) [
  | inl e ↦ simp (e, read_block-block_bytes r s f, u32-put ssrc h)
  | inr e ↦ simp (e, u32-put ssrc h)
]

-- The counters of the interval after a report: those that fractionLost leaves where a block is
-- written, and the old ones where none is.
abbrev pub after_report : Stats → Stats
after_report s = if s.seq_initialized then (fraction_lost s).0 else s

-- Parse reads back, field by field, the sender report and the receiver report that are built from
-- statistics whose numbers fit 32 bits: the one block of a stream that was received, its loss
-- clipped to 24 bits, and none before the first packet; building moves the counters of the
-- interval exactly when it writes the block. A picture loss indication and an intra request are
-- not taken for reports.
pub parse-build :
    (ssrc media seq_nr : ℕ) (r : Reading) (s : Stats)
    → IsU32 ssrc
    → Fits r s
    → (parse (build_sr ssrc r s).1 ≡ some (sender_report ssrc r s))
      × (parse (build_rr ssrc r s).1 ≡ some (receiver_report ssrc r s))
      × ((build_sr ssrc r s).0 ≡ after_report s)
      × ((build_rr ssrc r s).0 ≡ after_report s)
      × (parse (build_pli ssrc media) ≡ none)
      × (parse (build_fir ssrc media seq_nr) ≡ none)
unfolding build_sr build_rr append_report_block parse build_pli build_fir
parse-build ssrc media seq_nr r s h f = (
  parse-build_sr ssrc r s h f,
  parse-build_rr ssrc r s h f,
  elim (Bool-cases s.seq_initialized) [ inl e ↦ simp (e) | inr e ↦ simp (e) ],
  elim (Bool-cases s.seq_initialized) [ inl e ↦ simp (e) | inr e ↦ simp (e) ],
  refl,
  refl,
)
