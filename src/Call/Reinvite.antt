-- ===== src/Call/Reinvite.antt =====
-- video_upgrade.go: the state of a call across a re-INVITE of the remote side.
use xphone_go.Prelude.{
  ℕ, ◌≡◌, ◌∙◌, ap, Bool, true, not, Option, arith, if◌then◌else◌, Bool-cases, inl, inr,
}
use xphone_go.Sdp.{Session, Dir, dir, send_recv, send_only}
use xphone_go.Call.State.{
  Call, CallState, active, on_hold, ended, parsed, is_state, signal_media_timer_reset,
}
use xphone_go.Call.Upgrade.{
  turn, with_remote, offers_video, reinvite_parsed, reinvite_audio, begin_reinvite,
  answer_downgrade, reject_video_upgrade, accept_video_upgrade,
}
use xphone_go.Call.Video.{
  with_remote-state, reinvite_audio-state, answer_downgrade-Mild, reject_video_upgrade-Guarded,
  accept_video_upgrade-Guarded,
}

-- Where the change of the audio takes a call.
abbrev pub after_offer : Dir → CallState → CallState
after_offer send_only active = on_hold
after_offer send_recv on_hold = active
after_offer _ s = s

-- Whether a session adds video to a call or takes it away.
abbrev pub changes_video : Session → Call → Bool
changes_video s c = if c.has_video then not (offers_video s) else offers_video s

turn-state : (d : Dir) (c : Call) → (turn d c).0.state ≡ after_offer d c.state
unfolding signal_media_timer_reset
turn-state d c = ground arith

audio-state :
    (alloc : Option ℕ) (s : Session) (c : Call)
    → (reinvite_audio alloc s c).state ≡ after_offer (dir s) c.state
audio-state alloc s c =
    reinvite_audio-state alloc s c
    ∙ turn-state (dir s) (with_remote s c)
    ∙ ap (after_offer (dir s)) (with_remote-state s c)

parsed-state :
    (alloc : Option ℕ) (s : Session) (c : Call)
    → (reinvite_parsed alloc s c).0.state
      ≡ (if changes_video s c then c.state else after_offer (dir s) c.state)
parsed-state alloc s c = ground (arith, audio-state alloc s c)

ended_unmoved : (d : Dir) (s : CallState) → is_state ended s ≡ true → after_offer d s ≡ s
ended_unmoved d s h = ground arith

-- A re-INVITE that parses and neither adds nor drops video puts an active call on hold if its first
-- media line is sendonly, and takes a call off hold if it is sendrecv, whichever side has put it
-- there; with recvonly or inactive, and in every other state, the state stays. One that adds or
-- drops video leaves the state, whatever its direction, also in the sections that complete the
-- downgrade and that accept or reject the upgrade.
pub begin_reinvite-state :
    (alloc : Option ℕ) (port : ℕ) (s : Session) (c : Call)
    → ((begin_reinvite alloc (parsed s) c).0.state
        ≡ (if changes_video s c then c.state else after_offer (dir s) c.state))
      × ((answer_downgrade alloc s c).state ≡ c.state)
      × ((reject_video_upgrade alloc s c).state ≡ c.state)
      × ((accept_video_upgrade alloc port s c).state ≡ c.state)
unfolding begin_reinvite
begin_reinvite-state alloc port s c = (
  elim (Bool-cases (is_state ended c.state)) [
    | inl over ↦ ground (arith, over, ended_unmoved (dir s) c.state over)
    | inr live ↦ rw live (parsed-state alloc s c)
  ],
  (answer_downgrade-Mild alloc s).state_kept c,
  (reject_video_upgrade-Guarded alloc s).state_same c,
  (accept_video_upgrade-Guarded alloc port s).state_same c,
)
