-- ===== src/Rtcp.antt =====
-- internal/rtcp/rtcp.go: the statistics behind a report. The jitter, a float, and the times are read
-- from the clock when a report is built and stand in `Packets`.
pub mod Packets
pub mod RoundTrip
pub mod Tests
use xphone_go.Prelude.{
  ℕ, ◌+◌, ◌-◌, ◌*◌, ◌/◌, ◌%◌, ◌^◌, ◌≤◌, ◌<◌, ◌≡◌, refl, Bool, true, false, not, ◌||◌, arith, ltb,
  leb, ◌==◌, if◌then◌else◌,
}

pub record Stats : Type 0 where
  pub packets_sent : ℕ
  pub octets_sent : ℕ
  pub last_rtp_timestamp : ℕ
  pub remote_ssrc : ℕ
  pub last_sr_ntp_middle : ℕ
  pub last_sr_received : Bool
  pub packets_received : ℕ
  pub base_seq : ℕ
  pub max_seq : ℕ
  pub cycles : ℕ
  pub seq_initialized : Bool
  pub expected_prior : ℕ
  pub received_prior : ℕ

abbrev pub new_stats : Stats
new_stats = record {
  packets_sent = 0;
  octets_sent = 0;
  last_rtp_timestamp = 0;
  remote_ssrc = 0;
  last_sr_ntp_middle = 0;
  last_sr_received = false;
  packets_received = 0;
  base_seq = 0;
  max_seq = 0;
  cycles = 0;
  seq_initialized = false;
  expected_prior = 0;
  received_prior = 0;
}

-- The sequence part of RecordRTPReceived, on uint16.
abbrev pub track_seq : ℕ → Stats → Stats
track_seq seq s =
    if not s.seq_initialized
    then record s { base_seq = seq; max_seq = seq; seq_initialized = true }
    else if ltb ((seq + 2 ^ 16 - s.max_seq) % 2 ^ 16) 0x8000
    then record s {
      cycles = if ltb seq s.max_seq then (s.cycles + 1) % 2 ^ 32 else s.cycles;
      max_seq = seq;
    }
    else s

-- RecordRTPReceived, without the jitter.
unfoldable pub record_received : ℕ → ℕ → Stats → Stats
record_received seq ssrc s =
    track_seq seq
      (record s { packets_received = (s.packets_received + 1) % 2 ^ 32; remote_ssrc = ssrc })

-- RecordRTPSent; the counters are uint32.
unfoldable pub record_sent : ℕ → ℕ → Stats → Stats
record_sent payload_len rtp_timestamp s = record s {
  packets_sent = (s.packets_sent + 1) % 2 ^ 32;
  octets_sent = (s.octets_sent + payload_len % 2 ^ 32) % 2 ^ 32;
  last_rtp_timestamp = rtp_timestamp;
}

-- ProcessIncomingSR: `((sec & 0xFFFF) << 16) | ((frac >> 16) & 0xFFFF)`, of disjoint bits.
unfoldable pub process_incoming_sr : ℕ → ℕ → Stats → Stats
process_incoming_sr ntp_sec ntp_frac s = record s {
  last_sr_ntp_middle = ntp_sec % 65536 * 65536 + ntp_frac / 65536 % 65536;
  last_sr_received = true;
}

-- `(cycles << 16) | max_seq` on uint32; the fields are disjoint.
abbrev pub extended_max_seq : Stats → ℕ
extended_max_seq s = s.cycles * 65536 % 2 ^ 32 + s.max_seq

unfoldable pub expected : Stats → ℕ
expected s =
    if not s.seq_initialized then 0 else (extended_max_seq s + 2 ^ 32 - s.base_seq + 1) % 2 ^ 32

unfoldable pub cumulative_lost : Stats → ℕ
unfolding expected
cumulative_lost s =
    if leb (expected s) s.packets_received then 0 else expected s - s.packets_received

-- The loss since the last report, in 256ths; the differences and the product are uint32.
abbrev pub fraction : ℕ → ℕ → ℕ
fraction exp received =
    if (exp == 0) || leb exp received
    then 0
    else (let frac = (exp - received) * 256 % 2 ^ 32 / exp in if ltb 255 frac then 255 else frac)

unfoldable pub fraction_lost : Stats → Stats × ℕ
unfolding expected
fraction_lost s = (
  record s { expected_prior = expected s; received_prior = s.packets_received },
  fraction ((expected s + 2 ^ 32 - s.expected_prior) % 2 ^ 32)
      ((s.packets_received + 2 ^ 32 - s.received_prior) % 2 ^ 32),
)

-- The counters after a stream of `n` packets whose first index is `first` and whose highest is `high`.
pub record Counts (s : Stats) (first high n : ℕ) : Type 0 where
  pub started : s.seq_initialized ≡ true
  pub first_seq : s.base_seq ≡ first
  pub first16 : first < 2 ^ 16
  pub max16 : s.max_seq < 2 ^ 16
  pub highest : s.cycles * 65536 + s.max_seq ≡ high
  pub in_order : first ≤ high
  pub high32 : high < 2 ^ 32
  pub received : s.packets_received ≡ n % 2 ^ 32

-- A packet less than 2 ^ 15 after the highest one moves it, over a wrap-around too, and one up to
-- 2 ^ 15 before it leaves it; both count as received, modulo 2 ^ 32.
pub record_received-Counts :
    (s : Stats) (first high n index ssrc : ℕ)
    → Counts s first high n
    → index < 2 ^ 32
    → index < high + 0x8000
    → high ≤ index + 0x8000
    → Counts
        (record_received (index % 65536) ssrc s)
        first
        (if ltb high index then index else high)
        (n + 1)
unfolding record_received
record_received-Counts s first high n index ssrc c fits near_above near_below = ground (arith, c)

-- What a report calls expected is the number of indices from the first to the highest, short of
-- 2 ^ 32 of them, and its cumulative loss those beyond the packets received; the fraction of the
-- interval fits its 8 bits, and the next interval starts at the counters of this report.
pub cumulative_lost-Counts :
    (s : Stats) (first high n : ℕ)
    → Counts s first high n
    → high + 1 < first + 2 ^ 32
    → (expected s ≡ high - first + 1)
      × (cumulative_lost s ≡ high - first + 1 - s.packets_received)
      × ((fraction_lost s).1 ≤ 255)
      × ((fraction_lost s).0.expected_prior ≡ high - first + 1)
      × ((fraction_lost s).0.received_prior ≡ s.packets_received)
unfolding expected cumulative_lost fraction_lost
cumulative_lost-Counts s first high n c h =
    (ground (arith, c), ground (arith, c), ground (arith, c), ground (arith, c), refl)
