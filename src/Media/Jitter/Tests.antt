-- ===== src/Media/Jitter/Tests.antt =====
-- internal/media/jitterbuffer.go: runs on packets around the wrap-around of the sequence number.
use xphone_go.Prelude.{ℕ, ◌≡◌, false, [], arith, if◌then◌else◌}
use xphone_go.Media.Rtp.{Packet}
use xphone_go.Media.Jitter.Defs.{JitterBuffer, new_jitter_buffer, push, pop}
use xphone_go.Media.Jitter.Insert.{InWindow, insert_by}
use xphone_go.Media.Jitter.Invariant.{
  IsValid, new-IsValid, entry_of, push-entries, push-IsValid, pop-IsValid,
}
use xphone_go.Media.Jitter.Arrival.{push_comm}

abbrev packet : ℕ → Packet
packet seq = record {
  marker = false;
  payload_type = 0;
  sequence_number = seq;
  timestamp = 0;
  ssrc = 1;
  payload = [];
}

abbrev late : Packet
late = packet 2

abbrev early : Packet
early = packet 65535

abbrev base : ℕ
base = 65530

abbrev fresh : JitterBuffer
fresh = new_jitter_buffer 40

fresh-IsValid : IsValid base fresh
fresh-IsValid = new-IsValid base 40

late-InWindow : InWindow base (entry_of 100 late)
late-InWindow = ground arith

early-InWindow : InWindow base (entry_of 110 early)
early-InWindow = ground arith

held-IsValid : IsValid base (push fresh 100 late)
held-IsValid = push-IsValid base fresh 100 late (omega arith) fresh-IsValid late-InWindow

push-entries_example : (push (push fresh 100 late) 110 early).entries ≡ (
    if (push fresh 100 late).seen 65535
    then (push fresh 100 late).entries
    else insert_by base (entry_of 110 early) (push fresh 100 late).entries)
push-entries_example =
    push-entries base (push fresh 100 late) 110 early (omega arith) held-IsValid early-InWindow

pop-IsValid_example : IsValid base (pop (push fresh 100 late) 150).0
pop-IsValid_example = pop-IsValid base (push fresh 100 late) 150 held-IsValid

push_comm_example :
    (push (push fresh 100 late) 110 early).entries ≡ (push (push fresh 110 early) 100 late).entries
push_comm_example =
    push_comm base fresh 100 110 late early (omega arith) fresh-IsValid late-InWindow early-InWindow
      (ground arith)
