-- ===== src/Srtp/Context/Tests.antt =====
-- internal/srtp/srtp.go: runs on two contexts with fixed keys. The ciphers are constant functions here.
use xphone_go.Prelude.{
  ℕ, ◌+◌, ◌<◌, ◌≡◌, refl, true, false, ◌||◌, some, List, [], ◌∷◌, arith, contains, Distinct, length,
  replicate, map,
}
use xphone_go.Prelude.Bytes.{u16_at, byte_at}
use xphone_go.Srtp.Replay.Defs.{ReplayWindow, new_window, is_replay, accept}
use xphone_go.Srtp.Replay.Window.{any_from, new-Tracks, accept-Tracks, is_replay_exact}
use xphone_go.Srtp.Header.{rtp_header_len}
use xphone_go.Srtp.Cipher.{Crypto, hmac_tag, aes_cm_keystream, length-aes_cm_keystream}
use xphone_go.Srtp.Context.Defs.{
  Context, too_short, ok, err, protect, unprotect, protect_rtcp, unprotect_rtcp, update_roc,
  estimate_roc, commit, packet_index,
}
use xphone_go.Srtp.Context.RoundTrip.{Keyed, unprotect-protect}
use xphone_go.Srtp.Context.Receive.{unprotect_error_unchanged, receive_all, receive_all-Distinct}
use xphone_go.Srtp.Context.Stream.{Linked, transmit, transmit_in_order}
use xphone_go.Srtp.Context.Control.{RtcpKeyed, unprotect_rtcp-protect_rtcp}

abbrev toy : Crypto
toy = record {
  aes = λ key block. replicate 16 7;
  hmac_sha1 = λ key msg. replicate 20 9;
  length-aes = λ key block. refl;
  length-hmac = λ key msg. refl;
}

abbrev key : List ℕ
key = 1 ∷ 2 ∷ 3 ∷ []

abbrev mac_key : List ℕ
mac_key = 4 ∷ 5 ∷ []

abbrev salt : List ℕ
salt = 6 ∷ []

abbrev seen_window : ReplayWindow
seen_window = record { top = 65535; bitmap = record { lo = 1; hi = 0 }; initialized = true }

-- A context that has processed the packet with index 65535 last.
abbrev ctx : Context
ctx = record {
  session_salt = salt;
  auth_key = mac_key;
  block = some key;
  mac = some mac_key;
  roc = 0;
  last_seq = 65535;
  seq_initialized = true;
  replay = seen_window;
  srtcp_session_salt = salt;
  srtcp_auth_key = mac_key;
  srtcp_block = some key;
  srtcp_mac = some mac_key;
  srtcp_index = 3;
  srtcp_replay = new_window;
}

abbrev pkt : List ℕ
pkt = 128 ∷ 0 ∷ 0 ∷ 0 ∷ 0 ∷ 0 ∷ 0 ∷ 9 ∷ 1 ∷ 2 ∷ 3 ∷ 4 ∷ 50 ∷ 60 ∷ 70 ∷ []

pkt_header : rtp_header_len pkt ≡ some 12
unfolding rtp_header_len
pkt_header = refl

ctx-Keyed : Keyed ctx key mac_key salt
ctx-Keyed = record { block_set = refl; mac_set = refl; salt_set = refl }

ctx-RtcpKeyed : RtcpKeyed ctx key mac_key salt
ctx-RtcpKeyed = ground arith

same_roc : estimate_roc ctx (u16_at pkt 2) ≡ (update_roc ctx (u16_at pkt 2)).roc
unfolding estimate_roc update_roc
same_roc = refl

new_index :
    is_replay ctx.replay (packet_index (update_roc ctx (u16_at pkt 2)).roc (u16_at pkt 2)) ≡ false
unfolding update_roc is_replay
new_index = refl

ctx-Linked : Linked ctx ctx 65535
ctx-Linked = ground arith

too_short_run : (unprotect toy ctx []).1 ≡ err too_short
unfolding unprotect
too_short_run = refl

fresh_rtcp : is_replay new_window 3 ≡ false
unfolding is_replay
fresh_rtcp = refl

is_replay_exact_example :
    is_replay (accept new_window 5) 5 ≡ (contains (5 ∷ []) 5 || any_from (5 ∷ []) (5 + 128))
is_replay_exact_example =
    is_replay_exact (accept new_window 5) (5 ∷ []) 5 (accept-Tracks new_window [] 5 new-Tracks)

length-aes_cm_keystream_example : length (aes_cm_keystream toy key salt 7 9 33) ≡ 33
length-aes_cm_keystream_example = length-aes_cm_keystream toy key salt 7 9 33

unprotect-protect_example :
    (out : List ℕ) × ((protect toy ctx pkt).1 ≡ ok out)
    × (unprotect toy ctx out
        ≡ (commit ctx (update_roc ctx (u16_at pkt 2)).roc (u16_at pkt 2), ok pkt))
unprotect-protect_example =
    unprotect-protect toy key mac_key salt ctx ctx pkt ctx-Keyed ctx-Keyed pkt_header same_roc
      new_index

unprotect_error_unchanged_example : (unprotect toy ctx []).0 ≡ ctx
unprotect_error_unchanged_example = unprotect_error_unchanged toy ctx [] too_short_run

abbrev fresh_ctx : Context
fresh_ctx = record ctx { replay = new_window; seq_initialized = false }

-- A packet with a sequence number, as it stands on the wire.
abbrev wire_pkt : ℕ → List ℕ
wire_pkt seq = 128 ∷ 0 ∷ 0 ∷ seq ∷ 0 ∷ 0 ∷ 0 ∷ 9 ∷ 1 ∷ 2 ∷ 3 ∷ 4 ∷ 50 ∷ 60 ∷ 70 ∷ replicate 10 9

-- Two packets, the first of them sent once more.
abbrev replayed : List (List ℕ)
replayed = wire_pkt 5 ∷ wire_pkt 6 ∷ wire_pkt 5 ∷ []

replayed_run : receive_all toy fresh_ctx [] replayed ≡ 6 ∷ 5 ∷ []
unfolding receive_all unprotect is_replay rtp_header_len aes_cm_keystream hmac_tag commit accept
    estimate_roc xphone_go.Srtp.Replay.Defs.bit xphone_go.Srtp.Replay.Defs.set_bit
    xphone_go.Srtp.Replay.Defs.shl
replayed_run = refl

receive_all-Distinct_example : Distinct (receive_all toy fresh_ctx [] replayed)
receive_all-Distinct_example = receive_all-Distinct toy fresh_ctx replayed refl

transmit_in_order_example :
    transmit toy key mac_key salt ctx ctx ((65536, pkt) ∷ [])
    ≡ map (λ (p : ℕ × List ℕ). ok p.1) ((65536, pkt) ∷ [])
transmit_in_order_example =
    transmit_in_order toy key mac_key salt ctx ctx 65535 ((65536, pkt) ∷ []) ctx-Keyed ctx-Keyed
      ctx-Linked (omega arith, omega arith, omega arith, refl, (12, pkt_header), tt)

unprotect_rtcp-protect_rtcp_example :
    (out : List ℕ) × ((protect_rtcp toy ctx pkt).1 ≡ ok out)
    × (unprotect_rtcp toy ctx out ≡ (record ctx { srtcp_replay = accept new_window 3 }, ok pkt))
unprotect_rtcp-protect_rtcp_example =
    unprotect_rtcp-protect_rtcp toy key mac_key salt ctx ctx pkt ctx-RtcpKeyed ctx-RtcpKeyed
      (omega arith) (omega arith) fresh_rtcp

longer_header :
    (i : ℕ)
    → i < 12
    → byte_at (128 ∷ 0 ∷ 0 ∷ 0 ∷ 0 ∷ 0 ∷ 0 ∷ 9 ∷ 1 ∷ 2 ∷ 3 ∷ 4 ∷ 51 ∷ 61 ∷ 71 ∷ []) i
      ≡ byte_at pkt i
longer_header i h = ground arith
