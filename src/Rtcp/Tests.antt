-- ===== src/Rtcp/Tests.antt =====
-- internal/rtcp/rtcp.go: a report on a stream that lost two packets.
use xphone_go.Prelude.{◌≡◌, true, none, some, arith}
use xphone_go.Rtcp.{Stats}
use xphone_go.Rtcp.Packets.{Reading, build_sr, build_rr, build_pli, build_fir, parse}
use xphone_go.Rtcp.RoundTrip.{Fits, sender_report, receiver_report, after_report, parse-build}

abbrev counted : Stats
counted = record {
  packets_sent = 50;
  octets_sent = 8000;
  last_rtp_timestamp = 4294967136;
  remote_ssrc = 3735928559;
  last_sr_ntp_middle = 305419896;
  last_sr_received = true;
  packets_received = 5;
  base_seq = 65530;
  max_seq = 0;
  cycles = 1;
  seq_initialized = true;
  expected_prior = 0;
  received_prior = 0;
}

abbrev reading : Reading
reading = record { now_sec = 3900000000; now_frac = 2147483648; jitter = 12; since_last_sr = 65536 }

reading-Fits : Fits reading counted
reading-Fits = record {
  sec32 = omega arith;
  frac32 = omega arith;
  jitter32 = omega arith;
  delay32 = omega arith;
  timestamp32 = omega arith;
  sent32 = omega arith;
  octets32 = omega arith;
  remote32 = omega arith;
  middle32 = omega arith;
  extended32 = omega arith;
}

parse-build_example :
    (parse (build_sr 7 reading counted).1 ≡ some (sender_report 7 reading counted))
    × (parse (build_rr 7 reading counted).1 ≡ some (receiver_report 7 reading counted))
    × ((build_sr 7 reading counted).0 ≡ after_report counted)
    × ((build_rr 7 reading counted).0 ≡ after_report counted)
    × (parse (build_pli 7 9) ≡ none)
    × (parse (build_fir 7 9 1) ≡ none)
parse-build_example = parse-build 7 9 1 reading counted (omega arith) reading-Fits
