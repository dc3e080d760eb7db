-- ===== src/Srtp/Context/Roc.antt =====
-- internal/srtp/srtp.go: the rollover counter, on the sender and on the receiver.
use xphone_go.Prelude.{ℕ, ◌+◌, ◌*◌, ◌/◌, ◌%◌, ◌^◌, ◌≤◌, ◌<◌, ◌≡◌, true, arith}
use xphone_go.Prelude.Masks.{bit_or_disjoint}
use xphone_go.Srtp.Context.Defs.{Context, update_roc, estimate_roc, packet_index}

-- The index is the sum of its fields.
pub packet_index_sum : (roc seq : ℕ) → seq < 2 ^ 16 → packet_index roc seq ≡ roc * 65536 + seq
packet_index_sum roc seq h = bit_or_disjoint 16 roc seq h

-- A sequence number whose index lies less than 2 ^ 15 away from the highest one that was seen is
-- given its own rollover counter, before and after a wrap-around of the 16 bits.
pub estimate_roc_exact :
    (c : Context) (index : ℕ)
    → c.seq_initialized ≡ true
    → c.last_seq < 2 ^ 16
    → index < 2 ^ 48
    → index < c.roc * 65536 + c.last_seq + 0x8000
    → c.roc * 65536 + c.last_seq < index + 0x8000
    → estimate_roc c (index % 65536) ≡ index / 65536
unfolding estimate_roc
estimate_roc_exact c index init seq16 fits near_above near_below = ground arith

-- The sender assigns to a packet that is sent after the last one, and less than 2 ^ 15 after it,
-- the counter of its true index.
pub update_roc_exact :
    (c : Context) (index : ℕ)
    → c.seq_initialized ≡ true
    → c.last_seq < 2 ^ 16
    → index < 2 ^ 48
    → index < c.roc * 65536 + c.last_seq + 0x8000
    → c.roc * 65536 + c.last_seq ≤ index
    → ((update_roc c (index % 65536)).roc ≡ index / 65536)
      × ((update_roc c (index % 65536)).last_seq ≡ index % 65536)
      × ((update_roc c (index % 65536)).seq_initialized ≡ true)
unfolding update_roc
update_roc_exact c index init seq16 fits near_above near_below = ground arith
