-- ===== src/Call/Release.antt =====
-- call.go: fireOnEnded and endWithReason. Everything that a call holds is given up in one place.
use xphone_go.Prelude.{
  ◌≡◌, ◌≢◌, ◌⊎◌, Bool, true, false, Option, none, some, List, ◌∷◌, arith, if◌then◌else◌,
}
use xphone_go.Call.State.{
  Call, ended, EndReason, Action, reject_upgrade, ended_fired, Chan, unmade, running, closed,
  SrtpSlot, absent, keyed, zeroized, is_state, enter,
}

abbrev close : Chan → Chan
close unmade = unmade
close running = closed
close closed = closed

abbrev pub is_made : Chan → Bool
is_made unmade = false
is_made running = true
is_made closed = true

abbrev zeroize_slot : SrtpSlot → SrtpSlot
zeroize_slot absent = absent
zeroize_slot keyed = zeroized
zeroize_slot zeroized = zeroized

abbrev close_video : Option Bool → Option Bool
close_video none = none
close_video (some done) = some true

abbrev reject_pending : Bool → List Action → List Action
reject_pending true log = reject_upgrade ∷ log
reject_pending false log = log

-- The output channels are closed here only where no media goroutine was started; its own exit
-- closes them otherwise.
unfoldable pub fire_on_ended : EndReason → Call → Call
fire_on_ended reason c = record c {
  session_timer = none;
  media_done = close c.media_done;
  media_active = if is_made c.media_done then false else c.media_active;
  video_done = close c.video_done;
  video_rtcp_conn = false;
  video_rtp_conn = false;
  rtcp_conn = false;
  rtp_conn = false;
  srtp_in = zeroize_slot c.srtp_in;
  srtp_out = zeroize_slot c.srtp_out;
  video_srtp_in = zeroize_slot c.video_srtp_in;
  video_srtp_out = zeroize_slot c.video_srtp_out;
  outputs_closed = if is_made c.media_done then c.outputs_closed else true;
  video_outputs = if is_made c.video_done then c.video_outputs else close_video c.video_outputs;
  pending_upgrade = false;
  notify_set = false;
  callbacks_closed = true;
  log = ended_fired reason ∷ reject_pending c.pending_upgrade c.log;
}

-- The three lines that every end of a call shares.
unfoldable pub finish : EndReason → Call → Call
unfolding fire_on_ended
finish reason c = fire_on_ended reason (enter ended c)

unfoldable pub end_with_reason : EndReason → Call → Call
unfolding finish
end_with_reason reason c = if is_state ended c.state then c else finish reason c

-- A call that holds nothing: no socket, no timer, no key, no goroutine and no callback is left.
pub record Released (c : Call) : Type 0 where
  pub is_ended : c.state ≡ ended
  pub timer_off : c.session_timer ≡ none
  pub sockets_closed :
      (c.rtp_conn ≡ false)
      × (c.rtcp_conn ≡ false)
      × (c.video_rtp_conn ≡ false)
      × (c.video_rtcp_conn ≡ false)
  pub media_stopped : (c.media_done ≢ running) × (c.video_done ≢ running)
  pub keys_gone :
      (c.srtp_in ≢ keyed)
      × (c.srtp_out ≢ keyed)
      × (c.video_srtp_in ≢ keyed)
      × (c.video_srtp_out ≢ keyed)
  pub no_pending : (c.pending_upgrade ≡ false) × (c.notify_set ≡ false)
  pub callbacks_done : c.callbacks_closed ≡ true
  pub readers_end : (c.media_done ≡ closed) ⊎ (c.outputs_closed ≡ true)

-- The end of a call releases everything, from any state.
pub finish-Released : (reason : EndReason) (c : Call) → Released (finish reason c)
unfolding finish
finish-Released reason c = ground arith
