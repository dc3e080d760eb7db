-- ===== src/Lib.antt =====
-- The verification library of xphone-go, a SIP user agent with its own media path.
--
-- The parts of the program and their files here:
-- * internal/srtp/srtp.go, `Srtp`: `Srtp.Replay` is replayWindow, `Srtp.Header` rtpHeaderLen,
--   `Srtp.Cipher` aesCMKeystream, hmacTag and deriveSessionKey, `Srtp.Context` the type Context with
--   Protect, Unprotect, ProtectRTCP, UnprotectRTCP, updateROC and estimateROC. AES and HMAC-SHA1
--   are the fields of `Srtp.Cipher.Crypto`, with their output sizes as the laws.
-- * internal/media/jitterbuffer.go, `Media.Jitter`: Push, Pop and Flush on a list of entries.
-- * internal/media/vp8.go and h264.go, `Media.Vp8` and `Media.H264`: the packetizers and
--   depacketizers of video frames.
-- * internal/media/pcmu.go and pcma.go, `Media.G711`: the two codecs on samples of 16 bits.
-- * internal/sip/message.go, `Sip`: the type Message, its header list, Bytes and Parse;
--   internal/sip/transaction.go, `Sip.Transactions`: TransactionManager as a store of channels and
--   the steps of its goroutines; internal/sip/client.go, `Sip.Client`: buildRequest and SendRegister.
-- * internal/sip/auth.go and server_auth.go, `Auth`: `Auth.Challenges` is the client with
--   ParseChallenge and BuildAuthorization, `Auth.Peers` the server with verifyDigestAuth,
--   parseDigestParams, buildPeerMatchers and authenticatePeer.
-- * registry.go, `Registry`: `Registry.Defs` has the operations of the type registry,
--   `Registry.Steps` the sections under its lock that the goroutines interleave.
-- * dial_failover.go, `Dial`: `Dial.Candidates` is dialCandidateIter, `Dial.Retry` the tests on the
--   result of an attempt.
-- * mwi.go and dialog_info.go, `Notify`: the bodies of NOTIFY requests; subscribe.go,
--   `Notify.Manager`: subscriptionManager with its refresh loops, `Notify.Subscribe`: the header of a
--   NOTIFY.
-- * xphone.go, `Phone`: `Phone.Lifecycle` has the sections of Connect, Prepare and Register
--   under the phone's lock, `Phone.Ending` those of Unregister and Disconnect, `Phone.Attempts` the
--   goroutines that interleave them.
-- * `Text` has what the parsers and printers use of Go's strings, bytes and strconv packages, on
--   ASCII: a text is the list of its bytes. `Prelude` has the lists, bytes and bit operations.
-- * dtmf.go, `Dtmf`: the codes of the digits, EncodeDTMF and DecodeDTMF, and in
--   `Dtmf.Info` the SIP INFO bodies.
-- * internal/rtcp/rtcp.go, `Rtcp`: the statistics; `Rtcp.Packets`: BuildSR, BuildRR, BuildPLI, BuildFIR
--   and Parse.
-- * internal/stun/message.go, `Stun`: attributes, messages, XOR addresses and MESSAGE-INTEGRITY;
--   `Stun.Binding` has the Binding response and parseBindingResponse of internal/stun/stun.go.
-- * internal/sdp/sdp.go, `Sdp`: the session as a call uses it, its direction, and the choice of
--   codecs; `Sdp.Body` has Parse and `Sdp.Print` buildSDPMulti on the text.
-- * call.go with startMedia and the timeout of media.go, `Call`: `Call.State` has the struct as a
--   record and the log of what a call does, `Call.Offer` the SDP bodies, `Call.Release` fireOnEnded,
--   `Call.Local` the methods of the application, `Call.Remote` the events from the network and the
--   timers, `Call.Upgrade` the re-INVITE and the upgrade to video of video_upgrade.go, `Call.Step` all
--   of them as one step function; `Call.Headers` has the readers of From and
--   To, `Call.Transfer` AttendedTransfer on two calls.
--
-- How they interact: a call builds its bodies by the codec choice of `Sdp`; Protect and Unprotect
-- use the replay window and the header length; what the jitter buffer holds are the packets that
-- Unprotect gave back; the server's challenge and its check of the answer meet the client's parser
-- and printer in `Auth.Agree`; H264Packetizer uses the frames and the MTU of VP8, and both are sent
-- as the packets of `to_packets`; a transaction is found by the branch that `Sip.Message` reads, and
-- SendRegister answers a challenge with `Auth.Challenges`; a transfer ends both of its calls by the
-- release of `Call`.
--
-- Conventions. Integers are natural numbers with the wrap-around of their width written out. Bytes
-- are numbers, slices are lists. A section under the lock is one step; Accept, handleReInvite
-- and acceptVideoUpgrade, which release it in between, are several. What the SIP dialog answers, a port that is bound and the clock are
-- arguments. Loops are structural recursion; the key stream takes one round for
-- each 16 bytes, and the loop of Packetize as much fuel as the frame has bytes, which is enough
-- since every round takes at least one; the loops of pushSTAPA and splitAnnexB and bytes.Split run on
-- the length of their input, which every round shortens. A walk by next of dialCandidateIter
-- has as much fuel as the entries expand to candidates, and a host without an address counts as one. MD5, package net and the
-- DNS lookup are parameters. The generation counter of the phone is taken without its wrap-around at
-- 2^64, and what a select may take is an event that names the case.
--
-- Not modelled: goroutines and channels beyond their state, sockets, the SIP stack, ICE, TURN, the
-- codecs G.722, Opus and G.729, the tickers, the XML parser of dialog-info, the 30 s timer
-- of a video request, the server, and the phone's Dial with its table of calls.
pub mod Prelude
pub mod Text
pub mod Sip
pub mod Auth
pub mod Registry
pub mod Dial
pub mod Notify
pub mod Srtp
pub mod Media
pub mod Sdp
pub mod Dtmf
pub mod Stun
pub mod Rtcp
pub mod Call
pub mod Phone
