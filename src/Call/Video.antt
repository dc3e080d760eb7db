-- ===== src/Call/Video.antt =====
-- video_upgrade.go: the sections of a re-INVITE keep the invariant and the state of a call.
use xphone_go.Prelude.{
  ℕ, ◌≡◌, ◌≢◌, refl, sym, ◌∙◌, Bool, true, false, Option, some, List, arith, Bool-cases, inl, inr,
  if◌then◌else◌,
}
use xphone_go.Sdp.{Session, Dir, dir, send_recv}
use xphone_go.Call.State.{
  Call, Action, Body, respond, act, ended, is_state, parsed, RemoteSdp, empty, malformed,
  signal_media_timer_reset,
}
use xphone_go.Call.Offer.{
  build_answer_sdp, negotiate, negotiate_audio_codec, negotiate_video_codec, set_remote_endpoint,
  set_video_remote_endpoint,
}
use xphone_go.Call.Invariant.{IsValid}
use xphone_go.Call.Answer.{build_answer_sdp-IsValid, negotiate-state}
use xphone_go.Call.Keeps.{negotiate-IsValid}
use xphone_go.Call.Upgrade.{
  turn, fire, respond_sdp, with_remote, reinvite_audio, begin_reinvite, signal_video_stop,
  release_video, answer_downgrade, request_video, reject_video_upgrade, take_video, with_pref,
  accept_video_upgrade, key_video, setup_srtp, add_video, send_reinvite, answer_dir,
}

-- What builds a body and keeps the state of the call, and its invariant while the call is live.
pub record Mild (f : Call → Call) : Type 0 where
  pub state_kept : (c : Call) → (f c).state ≡ c.state
  pub valid_kept : (c : Call) → c.state ≢ ended → IsValid c → IsValid (f c)

after : (f g : Call → Call) → Mild f → Mild g → Mild (λ c. g (f c))
after f g mf mg = record {
  state_kept = λ c. mg.state_kept (f c) ∙ mf.state_kept c;
  valid_kept =
      λ c h v. mg.valid_kept (f c) (λ over. h (sym (mf.state_kept c) ∙ over)) (mf.valid_kept c h v);
}

respond_sdp-state :
    (alloc : Option ℕ) (s : Session) (d : Dir) (c : Call)
    → (respond_sdp alloc s d c).state ≡ c.state
unfolding respond_sdp
respond_sdp-state alloc s d c = ground arith

answered-IsValid :
    (c : Call) (l : Option Body)
    → IsValid c
    → IsValid (act (respond 200) (record c { local_sdp = l }))
answered-IsValid c l v = ground arith

respond_sdp-Mild : (alloc : Option ℕ) (s : Session) (d : Dir) → Mild (respond_sdp alloc s d)
unfolding respond_sdp
respond_sdp-Mild alloc s d = record {
  state_kept = λ c. unfold respond_sdp in respond_sdp-state alloc s d c;
  valid_kept = λ c h v.
      answered-IsValid (build_answer_sdp alloc s d c).0 (some (build_answer_sdp alloc s d c).1)
        (build_answer_sdp-IsValid alloc s d c h v);
}

pub with_remote-Mild : (s : Session) → Mild (with_remote s)
unfolding set_remote_endpoint
with_remote-Mild s = record { state_kept = λ c. refl; valid_kept = λ c h v. ground arith }

pub with_remote-state : (s : Session) (c : Call) → (with_remote s c).state ≡ c.state
with_remote-state s c = (with_remote-Mild s).state_kept c

negotiate_audio_codec-Mild : (s : Session) → Mild (negotiate_audio_codec s)
unfolding negotiate_audio_codec
negotiate_audio_codec-Mild s = record {
  state_kept = λ c. ground arith;
  valid_kept = λ c h v. ground arith;
}

negotiate_video_codec-Mild : (s : Session) → Mild (negotiate_video_codec s)
unfolding negotiate_video_codec
negotiate_video_codec-Mild s = record {
  state_kept = λ c. ground arith;
  valid_kept = λ c h v. ground arith;
}

set_video_remote_endpoint-Mild : (s : Session) → Mild (set_video_remote_endpoint s)
unfolding set_video_remote_endpoint
set_video_remote_endpoint-Mild s = record {
  state_kept = λ c. ground arith;
  valid_kept = λ c h v. ground arith;
}

negotiate-Mild : (s : Session) → Mild (negotiate s)
negotiate-Mild s = record {
  state_kept = negotiate-state s;
  valid_kept = λ c h v. negotiate-IsValid s c v;
}

with_pref-Mild : Mild with_pref
with_pref-Mild = record { state_kept = λ c. ground arith; valid_kept = λ c h v. ground arith }

socket-Mild : (port : ℕ) → Mild (λ c. record c { video_rtp_conn = true; video_rtp_port = port })
socket-Mild port = record { state_kept = λ c. refl; valid_kept = λ c h v. ground arith }

no_pending-Mild : Mild (λ c. record c { pending_upgrade = false })
no_pending-Mild = record { state_kept = λ c. refl; valid_kept = λ c h v. ground arith }

take_video-Mild : (s : Session) → Mild (take_video s)
take_video-Mild s =
    after (λ c. set_video_remote_endpoint s (negotiate_video_codec s (with_remote s c))) with_pref
      (after (λ c. negotiate_video_codec s (with_remote s c)) (set_video_remote_endpoint s)
        (after (with_remote s) (negotiate_video_codec s) (with_remote-Mild s)
          (negotiate_video_codec-Mild s))
        (set_video_remote_endpoint-Mild s))
      with_pref-Mild

pub answer_downgrade-Mild : (alloc : Option ℕ) (s : Session) → Mild (answer_downgrade alloc s)
unfolding answer_downgrade
answer_downgrade-Mild alloc s =
    after (λ c. negotiate_audio_codec s (with_remote s c)) (respond_sdp alloc s (dir s))
      (after (with_remote s) (negotiate_audio_codec s) (with_remote-Mild s)
        (negotiate_audio_codec-Mild s))
      (respond_sdp-Mild alloc s (dir s))

-- A section that leaves an ended call alone keeps the invariant of every call.
pub record Guarded (f : Call → Call) : Type 0 where
  pub state_same : (c : Call) → (f c).state ≡ c.state
  pub valid_same : (c : Call) → IsValid c → IsValid (f c)

guard : (f : Call → Call) → Mild f → Guarded (λ c. if is_state ended c.state then c else f c)
guard f m = record {
  state_same = λ c. elim (Bool-cases (is_state ended c.state)) [
    | inl over ↦ rw over refl
    | inr live ↦ rw live (m.state_kept c)
  ];
  valid_same = λ c v. elim (Bool-cases (is_state ended c.state)) [
    | inl over ↦ rw over v
    | inr live ↦ rw live (m.valid_kept c (is_live c live) v)
  ];
}
  where
    is_live : (c : Call) → is_state ended c.state ≡ false → c.state ≢ ended
    is_live c live = ground arith

pub reject_video_upgrade-Guarded :
    (alloc : Option ℕ) (s : Session) → Guarded (reject_video_upgrade alloc s)
unfolding reject_video_upgrade
reject_video_upgrade-Guarded alloc s = guard _ (
    after (λ c. record (negotiate_audio_codec s (with_remote s c)) { pending_upgrade = false })
      (respond_sdp alloc s send_recv)
      (after (λ c. negotiate_audio_codec s (with_remote s c))
        (λ c. record c { pending_upgrade = false })
        (after (with_remote s) (negotiate_audio_codec s) (with_remote-Mild s)
          (negotiate_audio_codec-Mild s))
        no_pending-Mild)
      (respond_sdp-Mild alloc s send_recv))

pub accept_video_upgrade-Guarded :
    (alloc : Option ℕ) (port : ℕ) (s : Session) → Guarded (accept_video_upgrade alloc port s)
unfolding accept_video_upgrade
accept_video_upgrade-Guarded alloc port s = guard _ (
    after
      (λ c. record (take_video s (record c { video_rtp_conn = true; video_rtp_port = port })) {
        pending_upgrade = false;
      })
      (respond_sdp alloc s send_recv)
      (after (λ c. take_video s (record c { video_rtp_conn = true; video_rtp_port = port }))
        (λ c. record c { pending_upgrade = false })
        (after (λ c. record c { video_rtp_conn = true; video_rtp_port = port }) (take_video s)
          (socket-Mild port) (take_video-Mild s))
        no_pending-Mild)
      (respond_sdp-Mild alloc s send_recv))

turn-IsValid : (d : Dir) (c : Call) → c.state ≢ ended → IsValid c → IsValid (turn d c).0
unfolding signal_media_timer_reset
turn-IsValid d c h v = ground arith

turn-IsLive : (d : Dir) (c : Call) → c.state ≢ ended → (turn d c).0.state ≢ ended
unfolding signal_media_timer_reset
turn-IsLive d c h = ground arith

fire-IsValid : (d : Dir) (c x : Call) → IsValid x → IsValid (fire (turn d c).1 x)
unfolding signal_media_timer_reset
fire-IsValid d c x v = ground arith

pub fire-state : (a : Option Action) (c : Call) → (fire a c).state ≡ c.state
fire-state a c = ground arith

reinvite_audio-IsValid :
    (alloc : Option ℕ) (s : Session) (c : Call)
    → c.state ≢ ended
    → IsValid c
    → IsValid (reinvite_audio alloc s c)
reinvite_audio-IsValid alloc s c h v =
    let b : Call = with_remote s c in
    let live : b.state ≢ ended = λ over. h (sym ((with_remote-Mild s).state_kept c) ∙ over) in
    let m =
      after (negotiate s) (respond_sdp alloc s (answer_dir (dir s))) (negotiate-Mild s)
        (respond_sdp-Mild alloc s (answer_dir (dir s))) in
    fire-IsValid (dir s) b _ (
      m.valid_kept (turn (dir s) b).0 (turn-IsLive (dir s) b live)
        (turn-IsValid (dir s) b live ((with_remote-Mild s).valid_kept c h v)))

pub begin_reinvite-IsValid :
    (alloc : Option ℕ) (remote : RemoteSdp) (c : Call)
    → IsValid c
    → IsValid (begin_reinvite alloc remote c).0
unfolding begin_reinvite
begin_reinvite-IsValid alloc empty c v = ground arith
begin_reinvite-IsValid alloc malformed c v = ground arith
begin_reinvite-IsValid alloc (parsed s) c v = ground (arith, reinvite_audio-IsValid alloc s c)

-- Where a re-INVITE of a direction takes a call.
pub reinvite_audio-state :
    (alloc : Option ℕ) (s : Session) (c : Call)
    → (reinvite_audio alloc s c).state ≡ (turn (dir s) (with_remote s c)).0.state
reinvite_audio-state alloc s c =
    let b : Call = with_remote s c in
    let m =
      after (negotiate s) (respond_sdp alloc s (answer_dir (dir s))) (negotiate-Mild s)
        (respond_sdp-Mild alloc s (answer_dir (dir s))) in
    fire-state (turn (dir s) b).1 _ ∙ m.state_kept (turn (dir s) b).0

pub signal_video_stop-IsValid : (c : Call) → IsValid c → IsValid (signal_video_stop c)
unfolding signal_video_stop
signal_video_stop-IsValid c v = ground arith

pub release_video-IsValid : (c : Call) → IsValid c → IsValid (release_video c)
unfolding release_video
release_video-IsValid c v = ground arith

pub request_video-IsValid :
    (alloc : Option ℕ) (c : Call) → c.state ≢ ended → IsValid c → IsValid (request_video alloc c)
unfolding request_video
request_video-IsValid alloc c h v = ground arith

pub key_video-IsValid : (c : Call) → c.state ≢ ended → IsValid c → IsValid (key_video c)
unfolding key_video
key_video-IsValid c h v = ground arith

pub setup_srtp-IsValid : (c : Call) → c.state ≢ ended → IsValid c → IsValid (setup_srtp c)
unfolding setup_srtp
setup_srtp-IsValid c h v = ground arith

pub add_video-IsValid :
    (codecs : List ℕ) (v_alloc alloc : Option ℕ) (sent : Bool) (c : Call)
    → IsValid c
    → IsValid (add_video codecs v_alloc alloc sent c).0
unfolding add_video
add_video-IsValid codecs v_alloc alloc sent c v = ground arith

pub send_reinvite-IsValid :
    (offer : List ℕ) (sent : Bool) (c : Call) → IsValid c → IsValid (send_reinvite offer sent c).0
unfolding send_reinvite
send_reinvite-IsValid offer sent c v = ground arith
