-- ===== src/Call/Hold.antt =====
-- call.go: Hold and Resume together, the re-INVITE of the remote side, and the errors of the methods.
use xphone_go.Prelude.{ℕ, ◌≡◌, ◌≢◌, Bool, true, false, Option, none, some, List, arith}
use xphone_go.Sdp.{Dir, send_recv, send_only}
use xphone_go.Call.State.{
  Call, CallState, active, on_hold, Body, invalid_state, default_hold_media_timeout,
}
use xphone_go.Call.Local.{
  hold, resume, reject, end_call, mute, unmute, mute_video, unmute_video, send_dtmf, blind_transfer,
  effective_media_timeout,
}

-- What a call keeps when the re-INVITE of Hold or Resume was not answered.
abbrev pub Kept : Call → Call → Type 0
Kept c c' = (c'.state ≡ c.state) × (c'.local_sdp ≡ c.local_sdp) × (c'.timer_reset ≡ c.timer_reset)

-- A Hold whose re-INVITE fails reports an error, and the state, the stored offer and the media
-- timer are those before it; a Resume likewise.
pub failed_reinvite-Kept :
    (alloc : Option ℕ) (c : Call)
    → ((hold alloc false c).1 ≢ none)
      × Kept c (hold alloc false c).0
      × ((resume alloc false c).1 ≢ none)
      × Kept c (resume alloc false c).0
unfolding hold resume
failed_reinvite-Kept alloc c = (ground arith, ground arith, ground arith, ground arith)

abbrev pub offered_direction : Option Body → Option Dir
offered_direction none = none
offered_direction (some body) = some body.direction

-- What an answered re-INVITE of Hold or Resume leaves.
record Moved (next : CallState) (d : Dir) (timeout : ℕ) (c c' : Call) : Type 0 where
  moved_state : c'.state ≡ next
  moved_offer : offered_direction c'.local_sdp ≡ some d
  same_port : c'.rtp_port ≡ c.rtp_port
  same_timeout : c'.media_timeout ≡ c.media_timeout
  watchdog : c.timer_reset ≢ none → c'.timer_reset ≡ some (some timeout)

hold-Moved :
    (alloc : Option ℕ) (c : Call)
    → c.state ≡ active
    → c.rtp_port ≢ 0
    → Moved on_hold send_only default_hold_media_timeout c (hold alloc true c).0
unfolding hold
hold-Moved alloc c h p = ground arith

resume-Moved :
    (alloc : Option ℕ) (c : Call)
    → c.state ≡ on_hold
    → c.rtp_port ≢ 0
    → Moved active send_recv (effective_media_timeout c) c (resume alloc true c).0
unfolding resume
resume-Moved alloc c h p = ground arith

-- An active call with a port that is put on hold and resumed, both answered, is active again; the
-- offers in force are sendonly and then sendrecv, for the same port; and the watchdog of a
-- running media session is first extended and then back at its normal timeout.
pub hold_then_resume :
    (alloc alloc' : Option ℕ) (c : Call)
    → c.state ≡ active
    → c.rtp_port ≢ 0
    → let held : Call = (hold alloc true c).0 in
      let resumed : Call = (resume alloc' true held).0 in
      (held.state ≡ on_hold)
      × (resumed.state ≡ active)
      × (offered_direction held.local_sdp ≡ some send_only)
      × (offered_direction resumed.local_sdp ≡ some send_recv)
      × (resumed.rtp_port ≡ c.rtp_port)
      × (c.timer_reset ≢ none → held.timer_reset ≡ some (some default_hold_media_timeout))
      × (c.timer_reset ≢ none → resumed.timer_reset ≡ some (some (effective_media_timeout c)))
hold_then_resume alloc alloc' c h p =
    let m = hold-Moved alloc c h p in
    let m' =
      resume-Moved alloc' (hold alloc true c).0 m.moved_state (ground (arith, m.same_port)) in
    ground (arith, m, m')

-- Where a method reports that the state of the call does not allow it, nothing has changed.
pub invalid_state_unchanged :
    (code : ℕ) (alloc digit : Option ℕ) (sent : Bool) (target : List ℕ) (c : Call)
    → ((reject code c).1 ≡ some invalid_state → (reject code c).0 ≡ c)
      × ((end_call c).1 ≡ some invalid_state → (end_call c).0 ≡ c)
      × ((hold alloc sent c).1 ≡ some invalid_state → (hold alloc sent c).0 ≡ c)
      × ((resume alloc sent c).1 ≡ some invalid_state → (resume alloc sent c).0 ≡ c)
      × ((mute c).1 ≢ none → (mute c).0 ≡ c)
      × ((unmute c).1 ≢ none → (unmute c).0 ≡ c)
      × ((mute_video c).1 ≢ none → (mute_video c).0 ≡ c)
      × ((unmute_video c).1 ≢ none → (unmute_video c).0 ≡ c)
      × ((send_dtmf digit sent c).1 ≡ some invalid_state → (send_dtmf digit sent c).0 ≡ c)
      × ((blind_transfer target c).1 ≢ none → (blind_transfer target c).0 ≡ c)
unfolding reject end_call hold resume mute unmute mute_video unmute_video send_dtmf blind_transfer
invalid_state_unchanged code alloc digit sent target c = (
  ground arith,
  ground arith,
  ground arith,
  ground arith,
  ground arith,
  ground arith,
  ground arith,
  ground arith,
  ground arith,
  ground arith,
)
