-- ===== src/Media/Tests.antt =====
-- internal/media/vp8.go, dtmf.go and internal/rtcp/rtcp.go: runs on a small frame, one digit, and a
-- stream that wraps around.
use xphone_go.Prelude.{
  ℕ, ◌+◌, ◌%◌, ◌^◌, ◌≡◌, refl, true, false, some, List, [], ◌∷◌, map, arith, ◌==◌,
}
use xphone_go.Media.Rtp.{Packet}
use xphone_go.Media.Vp8.Defs.{packetize, new_depacketizer}
use xphone_go.Media.Vp8.Frames.{to_packets, push_all, push_all-packetize}
use xphone_go.Dtmf.{dtmf_digit_code, encode_dtmf, decode_dtmf, decode_dtmf-encode_dtmf, event}
use xphone_go.Prelude.{◌≤◌, ltb, if◌then◌else◌}
use xphone_go.Rtcp.{Stats, Counts, record_received, record_received-Counts}
use xphone_go.Prelude.{◌/◌}
use xphone_go.Text.Defs.{negsuc}
use xphone_go.Media.G711.{
  decode_a_law, encode_a_law, decode_mu_law, encode_mu_law, distance, magnitude,
  decode-encode_sample, pcma_encode, pcma_decode, pcmu_encode, pcmu_decode, encode-decode_payload,
}

push_all-packetize_example :
    push_all new_depacketizer (to_packets 97 1 900 65535 (packetize 3 (8 ∷ 1 ∷ 2 ∷ 3 ∷ 4 ∷ []))) ≡ (
      record { current_ts = 900; frame_buf = []; has_data = false; is_keyframe = false },
      record { timestamp = 900; is_keyframe = 8 % 2 == 0; data_bytes = 8 ∷ 1 ∷ 2 ∷ 3 ∷ 4 ∷ [] }
          ∷ [],
    )
push_all-packetize_example =
    push_all-packetize 3 97 1 900 65535 new_depacketizer 8 (1 ∷ 2 ∷ 3 ∷ 4 ∷ []) refl refl

abbrev star : List ℕ
star = 42 ∷ []

star_code : dtmf_digit_code star ≡ some 10
unfolding dtmf_digit_code
star_code = refl

decode_dtmf-encode_dtmf_example :
    (pkts : List Packet) × (encode_dtmf star 7 65535 1 ≡ some pkts)
    × (map (λ (p : Packet). decode_dtmf p.payload) pkts
        ≡ some (event star 160 false)
          ∷ some (event star 320 false)
          ∷ some (event star 320 true)
          ∷ [])
    × (map (λ (p : Packet). p.marker) pkts ≡ true ∷ false ∷ false ∷ [])
    × (map (λ (p : Packet). p.timestamp) pkts ≡ 7 ∷ 7 ∷ 7 ∷ [])
    × (map (λ (p : Packet). p.sequence_number) pkts
        ≡ (65535 + 0) % 2 ^ 16 ∷ (65535 + 1) % 2 ^ 16 ∷ (65535 + 2) % 2 ^ 16 ∷ [])
decode_dtmf-encode_dtmf_example = decode_dtmf-encode_dtmf star 7 65535 1 10 star_code

-- The first packet had index 65530, and 65535 is the highest.
abbrev counted : Stats
counted = record {
  packets_sent = 0;
  octets_sent = 0;
  last_rtp_timestamp = 0;
  remote_ssrc = 0;
  last_sr_ntp_middle = 0;
  last_sr_received = false;
  packets_received = 5;
  base_seq = 65530;
  max_seq = 65535;
  cycles = 0;
  seq_initialized = true;
  expected_prior = 0;
  received_prior = 0;
}

counted-Counts : Counts counted 65530 65535 5
counted-Counts = ground arith

record_received-Counts_example :
    Counts
      (record_received (65537 % 65536) 7 counted)
      65530
      (if ltb 65535 65537 then 65537 else 65535)
      (5 + 1)
record_received-Counts_example =
    record_received-Counts counted 65530 65535 5 65537 7 counted-Counts (omega arith) (omega arith)
      (omega arith)

decode-encode_sample_example :
    (distance (decode_a_law (encode_a_law (negsuc 20000))) (negsuc 20000)
      ≤ magnitude (negsuc 20000) / 32 + 8)
    × (distance (decode_mu_law (encode_mu_law (negsuc 20000))) (negsuc 20000)
        ≤ (magnitude (negsuc 20000) + 132) / 32)
decode-encode_sample_example = decode-encode_sample (negsuc 20000) (omega arith)

encode-decode_payload_example :
    (pcma_encode (pcma_decode (213 ∷ 127 ∷ 0 ∷ [])) ≡ 213 ∷ 127 ∷ 0 ∷ [])
    × (pcmu_encode (pcmu_decode (213 ∷ 127 ∷ 0 ∷ [])) ≡ 213 ∷ 255 ∷ 0 ∷ [])
encode-decode_payload_example =
    encode-decode_payload (213 ∷ 127 ∷ 0 ∷ []) (omega arith, (omega arith, (omega arith, tt)))
