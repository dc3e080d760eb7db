-- ===== src/Srtp/Replay/Defs.antt =====
-- internal/srtp/srtp.go: uint128 and replayWindow. Shifts on a uint64 keep its wrap-around;
-- `isReplay` and `accept` subtract only where the result is not negative.
use xphone_go.Prelude.{
  ℕ, ◌-◌, ◌*◌, ◌/◌, ◌%◌, ◌^◌, bit_and, bit_or, Bool, true, false, not, ltb, leb, ◌==◌,
  if◌then◌else◌,
}

abbrev pub replay_window_size : ℕ
replay_window_size = 128

pub record Uint128 : Type 0 where
  pub hi : ℕ
  pub lo : ℕ

pub record ReplayWindow : Type 0 where
  pub top : ℕ
  pub bitmap : Uint128
  pub initialized : Bool

-- `x << n` on a uint64.
abbrev pub shl64 : ℕ → ℕ → ℕ
shl64 x n = x * 2 ^ n % 2 ^ 64

unfoldable pub bit : Uint128 → ℕ → ℕ
bit u n = if ltb n 64 then bit_and (u.lo / 2 ^ n) 1 else bit_and (u.hi / 2 ^ (n - 64)) 1

unfoldable pub set_bit : Uint128 → ℕ → Uint128
set_bit u n =
    if ltb n 64
    then record { hi = u.hi; lo = bit_or u.lo (shl64 1 n) }
    else record { hi = bit_or u.hi (shl64 1 (n - 64)); lo = u.lo }

unfoldable pub shl : Uint128 → ℕ → Uint128
shl u n =
    if leb 128 n
    then record { hi = 0; lo = 0 }
    else if leb 64 n
    then record { hi = shl64 u.lo (n - 64); lo = 0 }
    else record { hi = bit_or (shl64 u.hi n) (u.lo / 2 ^ (64 - n)); lo = shl64 u.lo n }

abbrev pub new_window : ReplayWindow
new_window = record { top = 0; bitmap = record { hi = 0; lo = 0 }; initialized = false }

-- True if the packet is to be rejected, as a duplicate or as too old.
unfoldable pub is_replay : ReplayWindow → ℕ → Bool
is_replay w index =
    if not w.initialized
    then false
    else if ltb w.top index
    then false
    else if leb replay_window_size (w.top - index)
    then true
    else bit w.bitmap (w.top - index) == 1

unfoldable pub accept : ReplayWindow → ℕ → ReplayWindow
accept w index =
    if not w.initialized
    then record { top = index; bitmap = record { hi = 0; lo = 1 }; initialized = true }
    else if ltb w.top index
    then record w {
      bitmap =
          if leb replay_window_size (index - w.top)
          then record { hi = 0; lo = 1 }
          else set_bit (shl w.bitmap (index - w.top)) 0;
      top = index;
    }
    else record w {
      bitmap =
          if ltb (w.top - index) replay_window_size
          then set_bit w.bitmap (w.top - index)
          else w.bitmap;
    }
