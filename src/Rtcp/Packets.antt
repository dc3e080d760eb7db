-- ===== src/Rtcp/Packets.antt =====
-- internal/rtcp/rtcp.go: the reports and the feedback packets, and their parser. The clock and the
-- jitter estimate are read through `Reading`.
use xphone_go.Prelude.{
  ℕ, zero, suc, ◌+◌, ◌*◌, ◌/◌, ◌%◌, bit_and, not, Option, none, some, List, [], ◌∷◌, ◌++◌, ltb,
  ◌==◌, if◌then◌else◌, length, drop,
}
use xphone_go.Prelude.Bytes.{byte_at, u32_at, put_u16, put_u32}
use xphone_go.Rtcp.{Stats, extended_max_seq, cumulative_lost, fraction_lost}

-- NTPNow, the jitter as uint32, and the time since the last sender report.
pub record Reading : Type 0 where
  pub now_sec : ℕ
  pub now_frac : ℕ
  pub jitter : ℕ
  pub since_last_sr : ℕ

-- delaySinceLastSR.
abbrev pub delay_since_last_sr : Reading → Stats → ℕ
delay_since_last_sr r s = if s.last_sr_received then r.since_last_sr else 0

abbrev pub clip : ℕ → ℕ
clip n = if ltb 0x7FFFFF n then 0x7FFFFF else n

abbrev put_u24 : ℕ → List ℕ
put_u24 n = (n / 65536 % 256) ∷ (n / 256 % 256) ∷ (n % 256) ∷ []

-- The bytes that appendReportBlock adds, for the fraction that fractionLost has returned.
abbrev pub block_bytes : Reading → Stats → ℕ → List ℕ
block_bytes r s fraction =
    put_u32 s.remote_ssrc
    ++ (fraction
        ∷ (put_u24 (clip (cumulative_lost s))
            ++ (put_u32 (extended_max_seq s)
                ++ (put_u32 r.jitter
                    ++ (put_u32 s.last_sr_ntp_middle ++ put_u32 (delay_since_last_sr r s))))))

-- appendReportBlock. fractionLost moves the counters of the interval, and the fields read after
-- it are not among those.
unfoldable pub append_report_block : Reading → Stats → List ℕ → Stats × List ℕ
append_report_block r s buf =
    let (s2, fraction) = fraction_lost s in (s2, buf ++ block_bytes r s2 fraction)

abbrev sr_header : ℕ → ℕ → ℕ → Reading → Stats → List ℕ
sr_header rc length_words ssrc r s =
    (128 + rc)
    ∷ 200
    ∷ (put_u16 length_words
        ++ (put_u32 ssrc
            ++ (put_u32 r.now_sec
                ++ (put_u32 r.now_frac
                    ++ (put_u32 s.last_rtp_timestamp
                        ++ (put_u32 s.packets_sent ++ put_u32 s.octets_sent))))))

-- BuildSR.
unfoldable pub build_sr : ℕ → Reading → Stats → Stats × List ℕ
build_sr ssrc r s =
    if s.seq_initialized
    then append_report_block r s (sr_header 1 12 ssrc r s)
    else (s, sr_header 0 6 ssrc r s)

abbrev rr_header : ℕ → ℕ → ℕ → List ℕ
rr_header rc length_words ssrc = (128 + rc) ∷ 201 ∷ (put_u16 length_words ++ put_u32 ssrc)

-- BuildRR.
unfoldable pub build_rr : ℕ → Reading → Stats → Stats × List ℕ
build_rr ssrc r s =
    if s.seq_initialized
    then append_report_block r s (rr_header 1 7 ssrc)
    else (s, rr_header 0 1 ssrc)

-- BuildPLI and BuildFIR.
unfoldable pub build_pli : ℕ → ℕ → List ℕ
build_pli sender_ssrc media_ssrc =
    129 ∷ 206 ∷ (put_u16 2 ++ (put_u32 sender_ssrc ++ put_u32 media_ssrc))

unfoldable pub build_fir : ℕ → ℕ → ℕ → List ℕ
build_fir sender_ssrc media_ssrc seq_nr =
    132
    ∷ 206
    ∷ (put_u16 4
        ++ (put_u32 sender_ssrc
            ++ (put_u32 0 ++ (put_u32 media_ssrc ++ (seq_nr ∷ 0 ∷ 0 ∷ 0 ∷ [])))))

pub record ReportBlock : Type 0 where
  pub ssrc : ℕ
  pub fraction_lost : ℕ
  pub cum_lost : ℕ
  pub highest_seq : ℕ
  pub jitter : ℕ
  pub last_sr : ℕ
  pub delay_since_sr : ℕ

pub record Packet : Type 0 where
  pub packet_type : ℕ
  pub ssrc : ℕ
  pub ntp_sec : ℕ
  pub ntp_frac : ℕ
  pub rtp_timestamp : ℕ
  pub packet_count : ℕ
  pub octet_count : ℕ
  pub reports : List ReportBlock

abbrev pub read_block : List ℕ → ReportBlock
read_block b = record {
  ssrc = u32_at b 0;
  fraction_lost = byte_at b 4;
  cum_lost = byte_at b 5 * 65536 + byte_at b 6 * 256 + byte_at b 7;
  highest_seq = u32_at b 8;
  jitter = u32_at b 12;
  last_sr = u32_at b 16;
  delay_since_sr = u32_at b 20;
}

-- The loop of parseReportBlocks over the rounds left, on the bytes left.
unfoldable pub parse_report_blocks : ℕ → List ℕ → List ReportBlock
parse_report_blocks zero bytes = []
parse_report_blocks (suc count) bytes =
    let rest = parse_report_blocks count (drop 24 bytes) in
    if ltb (length bytes) 24 then [] else read_block bytes ∷ rest

abbrev parse_sr : List ℕ → Packet
parse_sr bytes = record {
  packet_type = 200;
  ssrc = u32_at bytes 4;
  ntp_sec = u32_at bytes 8;
  ntp_frac = u32_at bytes 12;
  rtp_timestamp = u32_at bytes 16;
  packet_count = u32_at bytes 20;
  octet_count = u32_at bytes 24;
  reports = parse_report_blocks (bit_and (byte_at bytes 0) 31) (drop 28 bytes);
}

abbrev parse_rr : List ℕ → Packet
parse_rr bytes = record {
  packet_type = 201;
  ssrc = u32_at bytes 4;
  ntp_sec = 0;
  ntp_frac = 0;
  rtp_timestamp = 0;
  packet_count = 0;
  octet_count = 0;
  reports = parse_report_blocks (bit_and (byte_at bytes 0) 31) (drop 8 bytes);
}

-- Parse.
unfoldable pub parse : List ℕ → Option Packet
parse bytes =
    if ltb (length bytes) 8
    then none
    else if not (bit_and (byte_at bytes 0 / 64) 3 == 2)
    then none
    else if byte_at bytes 1 == 200
    then (if ltb (length bytes) 28 then none else some (parse_sr bytes))
    else if byte_at bytes 1 == 201
    then some (parse_rr bytes)
    else none
