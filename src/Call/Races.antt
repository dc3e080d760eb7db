-- ===== src/Call/Races.antt =====
-- call.go and media.go: two entry points that meet, where the lock is free between them.
use xphone_go.Prelude.{ℕ, ◌+◌, ◌≡◌, Bool, true, false, Option, none, some, arith}
use xphone_go.Sdp.{Session}
use xphone_go.Call.State.{Call, active, ended, unmade, keyed, parsed}
use xphone_go.Call.Local.{end_call, start_media}
use xphone_go.Call.Remote.{on_bye, on_media_timeout, on_cancel, on_notify}
use xphone_go.Call.Upgrade.{
  done, upgrades, offers_video, begin_reinvite, request_video, reject_video_upgrade,
  accept_video_upgrade, key_video,
}
use xphone_go.Call.Invariant.{ended_count}

-- A BYE or a media timeout that reaches a call that has ended dispatches OnEnded once more: the two
-- have no test of the state, unlike CANCEL, the REFER progress and a re-INVITE that parses, which
-- then change nothing.
pub late_bye :
    (code : ℕ) (alloc : Option ℕ) (s : Session) (c : Call)
    → c.state ≡ ended
    → (ended_count (on_bye c).log ≡ 1 + ended_count c.log)
      × (ended_count (on_media_timeout c).log ≡ 1 + ended_count c.log)
      × (on_cancel c ≡ c)
      × (on_notify code c ≡ c)
      × (begin_reinvite alloc (parsed s) c ≡ (c, done))
unfolding on_bye on_media_timeout on_cancel on_notify begin_reinvite
late_bye code alloc s c h = (ground arith, ground arith, ground arith, ground arith, ground arith)

-- A call whose media has not started and that is ended between the two halves of Accept leaves
-- startMedia without a socket: it does not return.
pub end-start_media :
    (rtcp_bound : Bool) (c : Call)
    → c.state ≡ active
    → c.media_done ≡ unmade
    → ((end_call c).1 ≡ none) × (start_media rtcp_bound (end_call c).0 ≡ none)
unfolding end_call start_media
end-start_media rtcp_bound c h m = (ground arith, ground arith)

-- An active call without video that is ended between the two halves of a re-INVITE that offers video
-- is left with a pending request, which neither its acceptance nor its rejection takes away; and
-- keys for the video that are installed after the end stay.
pub end-request_video :
    (alloc : Option ℕ) (port : ℕ) (s : Session) (c : Call)
    → c.state ≡ active
    → c.has_video ≡ false
    → offers_video s ≡ true
    → let late = request_video (some port) (end_call c).0 in
      (begin_reinvite alloc (parsed s) c ≡ (c, upgrades))
      × (late.state ≡ ended)
      × (late.pending_upgrade ≡ true)
      × (accept_video_upgrade alloc port s late ≡ late)
      × (reject_video_upgrade alloc s late ≡ late)
      × ((key_video (end_call c).0).video_srtp_in ≡ keyed)
unfolding begin_reinvite end_call request_video accept_video_upgrade reject_video_upgrade key_video
end-request_video alloc port s c h no_video offer = (
  ground (arith, no_video, offer),
  ground arith,
  ground arith,
  ground arith,
  ground arith,
  ground arith,
)
