-- ===== src/Call/Tests.antt =====
-- call.go: runs on a new call and on an active one.
use xphone_go.Prelude.{◌+◌, ◌≡◌, ◌≢◌, refl, true, false, ◌&&◌, none, some, [], ◌∷◌, arith, contains}
use xphone_go.Sdp.{
  Session, audio, video, send_recv, send_only, intersect_codecs, intersect_codecs_both,
}
use xphone_go.Call.State.{
  Call, active, on_hold, ended, keyed, parsed, running, new_inbound, default_hold_media_timeout,
}
use xphone_go.Call.Release.{Released}
use xphone_go.Call.Local.{hold, resume, end_call, effective_media_timeout, start_media}
use xphone_go.Call.Remote.{on_bye, on_media_timeout, on_cancel, on_notify}
use xphone_go.Call.Upgrade.{
  done, upgrades, begin_reinvite, request_video, answer_downgrade, reject_video_upgrade,
  accept_video_upgrade, key_video,
}
use xphone_go.Call.Invariant.{IsValid, ended_count}
use xphone_go.Call.Step.{step, accept_op, start_media_op, end_op}
use xphone_go.Call.Graph.{edge, step-edge}
use xphone_go.Call.Hold.{offered_direction, hold_then_resume}
use xphone_go.Call.Reinvite.{begin_reinvite-state}
use xphone_go.Call.Races.{late_bye, end-start_media, end-request_video}
use xphone_go.Prelude.{◌||◌, ◌==◌, leb}
use xphone_go.Text.Defs.{Text, ascii, cut_byte, to_lower}
use xphone_go.Call.Headers.{refer_to, sip_header_uri, sip_header_tag, after_tag, until_any}
use xphone_go.Call.Transfer.{
  DialogHeaders, Transfer, referred, attended_transfer, dialog_id, tag_in, uri_in,
  on_transfer_notify, attended_transfer-Released,
}

-- An inbound call whose media runs.
abbrev talking : Call
talking = record new_inbound {
  state = active;
  rtp_port = 4000;
  rtp_conn = true;
  media_done = running;
  timer_reset = some none;
}

abbrev not_started : Call
not_started = record new_inbound { state = active; rtp_port = 4000; rtp_conn = true }

talking-IsValid : IsValid talking
talking-IsValid = ground arith

-- An inbound call that is answered, and whose media then starts.
abbrev answered : Call
answered = step (start_media_op true) (step (accept_op (some 4000) 7) new_inbound)

step-edge_example : edge active (step end_op talking).state ≡ true
step-edge_example = step-edge end_op talking

hold_then_resume_example :
    let held : Call = (hold none true talking).0 in
    let resumed : Call = (resume none true held).0 in
    (held.state ≡ on_hold)
    × (resumed.state ≡ active)
    × (offered_direction held.local_sdp ≡ some send_only)
    × (offered_direction resumed.local_sdp ≡ some send_recv)
    × (resumed.rtp_port ≡ talking.rtp_port)
    × (talking.timer_reset ≢ none → held.timer_reset ≡ some (some default_hold_media_timeout))
    × (talking.timer_reset ≢ none
        → resumed.timer_reset ≡ some (some (effective_media_timeout talking)))
hold_then_resume_example = hold_then_resume none none talking refl (omega arith)

bye_ended : (on_bye talking).state ≡ ended
unfolding on_bye
bye_ended = refl

-- The offer of an audio line that is sent only, and one that adds video.
abbrev hold_offer : Session
hold_offer = record {
  connection = none;
  media = record { kind = audio; port = 5000; codecs = 8 ∷ []; direction = some send_only } ∷ [];
  ice = none;
}

abbrev video_offer : Session
video_offer = record {
  connection = none;
  media =
      record { kind = audio; port = 5000; codecs = 8 ∷ []; direction = none }
      ∷ record { kind = video; port = 5002; codecs = 97 ∷ []; direction = none }
      ∷ [];
  ice = none;
}

late_bye_example :
    (ended_count (on_bye (on_bye talking)).log ≡ 1 + ended_count (on_bye talking).log)
    × (ended_count (on_media_timeout (on_bye talking)).log ≡ 1 + ended_count (on_bye talking).log)
    × (on_cancel (on_bye talking) ≡ on_bye talking)
    × (on_notify 200 (on_bye talking) ≡ on_bye talking)
    × (begin_reinvite none (parsed hold_offer) (on_bye talking) ≡ (on_bye talking, done))
late_bye_example = late_bye 200 none hold_offer (on_bye talking) bye_ended

begin_reinvite-state_example :
    ((begin_reinvite none (parsed hold_offer) talking).0.state ≡ on_hold)
    × ((answer_downgrade none hold_offer talking).state ≡ active)
    × ((reject_video_upgrade none hold_offer talking).state ≡ active)
    × ((accept_video_upgrade none 5004 hold_offer talking).state ≡ active)
begin_reinvite-state_example = begin_reinvite-state none 5004 hold_offer talking

end-request_video_example :
    (begin_reinvite none (parsed video_offer) talking ≡ (talking, upgrades))
    × ((request_video (some 5004) (end_call talking).0).state ≡ ended)
    × ((request_video (some 5004) (end_call talking).0).pending_upgrade ≡ true)
    × (accept_video_upgrade none 5004 video_offer (request_video (some 5004) (end_call talking).0)
        ≡ request_video (some 5004) (end_call talking).0)
    × (reject_video_upgrade none video_offer (request_video (some 5004) (end_call talking).0)
        ≡ request_video (some 5004) (end_call talking).0)
    × ((key_video (end_call talking).0).video_srtp_in ≡ keyed)
end-request_video_example = end-request_video none 5004 video_offer talking refl refl refl

end-start_media_example :
    ((end_call not_started).1 ≡ none) × (start_media true (end_call not_started).0 ≡ none)
end-start_media_example = end-start_media true not_started refl refl

intersect_codecs_both_example :
    contains (intersect_codecs (8 ∷ 0 ∷ []) (0 ∷ 9 ∷ [])) 0
    ≡ (contains (8 ∷ 0 ∷ []) 0 && contains (0 ∷ 9 ∷ []) 0)
intersect_codecs_both_example = intersect_codecs_both (8 ∷ 0 ∷ []) (0 ∷ 9 ∷ []) 0

abbrev consulted : DialogHeaders
consulted = record {
  call_id = ascii "c7";
  from_value = some (ascii "<sip:1001@pbx>;tag=f1");
  to_value = some (ascii "<sip:1002@pbx>;tag=t1");
}

abbrev transferred : Transfer
transferred =
    referred (refer_to (ascii "sip:1001@pbx") (ascii "c7") (ascii "f1") (ascii "t1"))
      (record talking { notify_set = true })

transfer_sent : attended_transfer true consulted talking talking ≡ transferred
unfolding attended_transfer dialog_id tag_in uri_in sip_header_tag after_tag until_any
    sip_header_uri cut_byte to_lower
transfer_sent = refl

attended_transfer-Released_example :
    (((200 == 200) || leb 300 200) ≡ true
      → Released (on_transfer_notify 200 (record talking { notify_set = true }, talking)).0
        × Released (on_transfer_notify 200 (record talking { notify_set = true }, talking)).1)
    × (((200 == 200) || leb 300 200) ≡ false
        → on_transfer_notify 200 (record talking { notify_set = true }, talking)
          ≡ (record talking { notify_set = true }, talking))
attended_transfer-Released_example =
    attended_transfer-Released true consulted talking talking (record talking { notify_set = true })
      (refer_to (ascii "sip:1001@pbx") (ascii "c7") (ascii "f1") (ascii "t1")) 200 transfer_sent
