-- ===== src/Call/Remote.antt =====
-- call.go: what the network does to a call (simulateResponse, simulateBye and simulateCancel are the
-- handlers that xphone.go and server.go call), the REFER progress, the session timer, and media.go's
-- timeout. The re-INVITE stands in `Upgrade`.
use xphone_go.Prelude.{ℕ, true, not, ◌&&◌, ◌||◌, Option, none, some, leb, ◌==◌, if◌then◌else◌}
use xphone_go.Sdp.{send_recv}
use xphone_go.Call.State.{
  Call, ringing, dialing, remote_ringing, early_media, active, ended, by_remote, by_cancelled,
  by_timeout, by_transfer, by_transfer_failed, reinvite, media_fired, act, is_state, enter,
}
use xphone_go.Call.Offer.{build_local_sdp}
use xphone_go.Call.Release.{finish, end_with_reason}

-- simulateResponse: provisional and final answers to our INVITE.
unfoldable pub on_response : ℕ → ℕ → Call → Call
on_response code now c =
    let waits = is_state dialing c.state || is_state remote_ringing c.state in
    if code == 180
    then (if is_state dialing c.state then enter remote_ringing c else c)
    else if code == 183
    then (if c.early_media_opt && waits
        then act media_fired (enter early_media (record c { media_active = true }))
        else c)
    else if code == 200
    then (if waits || is_state early_media c.state
        then act media_fired
            (enter active (record c { start_time = some now; media_active = true }))
        else c)
    else c

-- simulateBye: no test of the state.
unfoldable pub on_bye : Call → Call
unfolding finish
on_bye c = finish by_remote c

unfoldable pub on_cancel : Call → Call
unfolding finish
on_cancel c = if is_state ringing c.state then finish by_cancelled c else c

-- The handler that BlindTransfer registers with OnNotify.
unfoldable pub on_notify : ℕ → Call → Call
unfolding end_with_reason
on_notify code c =
    if not c.notify_set
    then c
    else if code == 200
    then end_with_reason by_transfer c
    else if leb 300 code
    then end_with_reason by_transfer_failed c
    else c

abbrev refresh : Option ℕ → Option ℕ → Call → Call
refresh alloc none c = c
refresh alloc (some interval) c =
    if is_state ended c.state
    then c
    else (let (c', body) = build_local_sdp alloc send_recv c in act (reinvite body) c')

-- The session timer goes off; a timer that was stopped does not.
unfoldable pub on_session_timer : Option ℕ → Call → Call
unfolding build_local_sdp
on_session_timer alloc c = refresh alloc c.session_timer c

-- The case of the media timer in the loop of the media goroutine. The loop also waits for the done
-- channel there; with both ready, either case is taken.
unfoldable pub on_media_timeout : Call → Call
unfolding finish
on_media_timeout c = finish by_timeout c
