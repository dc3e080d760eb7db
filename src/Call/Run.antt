-- ===== src/Call/Run.antt =====
-- call.go: what holds of a call after any steps. The phone delivers a BYE to the calls it tracks, and
-- forgets a call when it ends, and the media goroutine ends with the call: a BYE and a media timeout
-- are steps of a live call here. So are the sections that do not test the state behind an unlock;
-- `Races` has what they do to a call that has ended meanwhile.
use xphone_go.Prelude.{◌≡◌, ◌≢◌, Bool, true, false, [], arith}
use xphone_go.Call.State.{Call, ended}
use xphone_go.Call.Invariant.{IsValid}
use xphone_go.Call.Keeps
use xphone_go.Call.Answer
use xphone_go.Call.Video
use xphone_go.Call.Step.{
  Op, step, start_media_op, start_video_op, bye_op, timeout_op, key_video_op, srtp_op, downgrade_op,
  request_video_op,
}

-- The sections of the code that do not look at the state and that an ended call would show: the two
-- that end a call, the starts of the media, and what follows a section that gave the lock away.
abbrev pub unguarded : Op → Bool
unguarded bye_op = true
unguarded timeout_op = true
unguarded (start_media_op r) = true
unguarded (start_video_op r) = true
unguarded (downgrade_op alloc s) = true
unguarded (request_video_op alloc) = true
unguarded key_video_op = true
unguarded srtp_op = true
unguarded _ = false

-- The calls that steps lead to.
pub data Reaches : Call → Call → Type 0 where
  start : {c : Call} → Reaches c c
  then_op :
      {a b : Call}
      → Reaches a b
      → (op : Op) → (unguarded op ≡ true → b.state ≢ ended)
      → Reaches a (step op b)

-- A call as newInboundCall and newOutboundCall make it, with what the phone fills in before it hands the call out.
pub record IsNew (c : Call) : Type 0 where
  pub not_ended : c.state ≢ ended
  pub no_log : c.log ≡ []
  pub callbacks_open : c.callbacks_closed ≡ false

pub new-IsValid : (c : Call) → IsNew c → IsValid c
new-IsValid c n = ground arith
