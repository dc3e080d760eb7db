-- ===== src/Media/Jitter/Order.antt =====
-- internal/media/jitterbuffer.go, seqLess: the order of sequence numbers, modulo 2 ^ 16.
use xphone_go.Prelude.{ℕ, ◌+◌, ◌-◌, ◌%◌, ◌^◌, ◌<◌, ◌≡◌, ◌≢◌, ◌↔◌, true, false, arith, ltb}
use xphone_go.Media.Jitter.Defs.{seq_less}

-- How far a sequence number lies after the start of a window.
abbrev pub offset : ℕ → ℕ → ℕ
offset base seq = (seq + 2 ^ 16 - base) % 2 ^ 16

-- Inside a window of 2 ^ 15 sequence numbers, wherever it starts, seqLess is the order of the
-- offsets: a strict total order that does not see the wrap-around.
pub seq_less-offset :
    (base a b : ℕ)
    → base < 2 ^ 16
    → a < 2 ^ 16
    → b < 2 ^ 16
    → offset base a < 0x8000
    → offset base b < 0x8000
    → seq_less a b ≡ ltb (offset base a) (offset base b)
unfolding seq_less
seq_less-offset base a b hb ha hc oa ob = ground arith

-- Over all 16 bits it is asymmetric, and two different numbers are unordered exactly at a
-- distance of 2 ^ 15.
pub seq_less_antipode :
    (a b : ℕ)
    → a < 2 ^ 16
    → b < 2 ^ 16
    → a ≢ b
    → ((seq_less a b ≡ true) → (seq_less b a ≡ false))
      × (((seq_less a b ≡ false) × (seq_less b a ≡ false)) ↔ ((b + 2 ^ 16 - a) % 2 ^ 16 ≡ 0x8000))
unfolding seq_less
seq_less_antipode a b ha hb d = ground arith
