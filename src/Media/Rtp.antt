-- ===== src/Media/Rtp.antt =====
-- The fields of github.com/pion/rtp's Packet that the repository reads and writes.
use xphone_go.Prelude.{ℕ, Bool, List}

pub record Packet : Type 0 where
  pub marker : Bool
  pub payload_type : ℕ  -- uint8
  pub sequence_number : ℕ  -- uint16
  pub timestamp : ℕ  -- uint32
  pub ssrc : ℕ  -- uint32
  pub payload : List ℕ
