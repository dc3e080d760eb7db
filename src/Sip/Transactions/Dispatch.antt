-- ===== src/Sip/Transactions/Dispatch.antt =====
-- internal/sip/transaction.go: what every interleaving of the transactions keeps.
use xphone_go.Prelude.{
  ℕ, ◌≤◌, ◌≡◌, refl, Bool, true, false, not, Option, none, some, List, [], ◌∷◌, arith,
  if◌then◌else◌, length,
}
use xphone_go.Text.Defs.{Text, is_empty, ascii}
use xphone_go.Sip.Message.{
  Message, Parsed, refused, parsed, parse, is_response, via_branch, set_header,
}
use xphone_go.Sip.Transactions.{
  Manager, lookup, write, push, deliver, dispatch, receive, begin_send, remove_tx, Outcome, Event,
  unsent, answered, timed_out, halted, take_from, on_done, finish_send, finish_read, Step,
  Reachable, Sending, begins, finishes, reads, receives, removes, listens, stops, starts, goes,
  with_branch, via_value, generate_branch, dispatch_parsed,
}
use xphone_go.Sip.Transactions.Table.{
  ForBranch, Sound, push-bounded, push-ForBranch, new_manager-Sound, remove_tx-Sound, stop-Sound,
  register-Sound, write-Sound,
}

tail-ForBranch :
    (b : Text) (msg : Message) (queue : List Message)
    → ForBranch b (msg ∷ queue)
    → ForBranch b queue
tail-ForBranch b msg queue (v, r, f) = f

take_from-Sound :
    (queue : List Message) (i : ℕ) (m m' : Manager) (o : Outcome)
    → length queue ≤ 8
    → ((b : Text) → lookup m.pending b ≡ some i → ForBranch b queue)
    → take_from queue i m ≡ some (o, m')
    → Sound m
    → Sound m'
take_from-Sound [] i m m' o short own h s = absurd (ground arith)
take_from-Sound (msg ∷ queue) i m m' o short own h s =
    let same : record m { channels = write i queue m.channels } ≡ m' = ground arith in
    rw⁻¹ (same)
      (write-Sound i queue m s (omega arith) (λ b k. tail-ForBranch b msg queue (own b k)))

on_done-Sound : (m m' : Manager) (o : Outcome) → on_done m ≡ some (o, m') → Sound m → Sound m'
on_done-Sound m m' o h s = let same : m ≡ m' = ground arith in rw⁻¹ (same) s

finish_send-Sound :
    (e : Event) (b : Text) (i : ℕ) (m m' : Manager) (o : Outcome)
    → finish_send e b i m ≡ some (o, m')
    → Sound m
    → Sound m'
unfolding finish_send
finish_send-Sound unsent b i m m' o h s =
    let same : remove_tx b m ≡ m' = ground arith in rw⁻¹ (same) (remove_tx-Sound b m s)
finish_send-Sound answered b i m m' o h s =
    take_from-Sound (m.channels i) i m m' o (s.bounded i) (λ b. s.own b i) h s
finish_send-Sound timed_out b i m m' o h s =
    let same : remove_tx b m ≡ m' = ground arith in rw⁻¹ (same) (remove_tx-Sound b m s)
finish_send-Sound halted b i m m' o h s = on_done-Sound m m' o h s

finish_read-Sound :
    (e : Event) (found : Option ℕ) (m m' : Manager) (o : Outcome)
    → finish_read e found m ≡ some (o, m')
    → Sound m
    → Sound m'
unfolding finish_read
finish_read-Sound e none m m' o h s = let same : m ≡ m' = ground arith in rw⁻¹ (same) s
finish_read-Sound unsent (some i) m m' o h s = absurd (ground arith)
finish_read-Sound answered (some i) m m' o h s =
    take_from-Sound (m.channels i) i m m' o (s.bounded i) (λ b. s.own b i) h s
finish_read-Sound timed_out (some i) m m' o h s = let same : m ≡ m' = ground arith in rw⁻¹ (same) s
finish_read-Sound halted (some i) m m' o h s = on_done-Sound m m' o h s

either_sending-Sound :
    (c : Bool) (x y : Sending)
    → Sound x.manager
    → Sound y.manager
    → Sound (if c then x else y).manager
either_sending-Sound true x y s t = s
either_sending-Sound false x y s t = t

begin_send-Sound :
    (random : List ℕ) (ip : Text) (port : ℕ) (req : Message) (m : Manager) (sending : Sending)
    → begin_send random ip port req m ≡ some sending
    → Sound m
    → Sound sending.manager
unfolding begin_send
begin_send-Sound random ip port req m sending h s =
    let open_now : m.stopped ≡ false = ground arith in
    let same : with_branch random ip port req m ≡ sending = ground arith in
    let made : Text = generate_branch random in
    rw⁻¹ (same) (
      either_sending-Sound (is_empty (via_branch req)) _ _
        (register-Sound (set_header req (ascii "Via") (via_value ip port made)) made m open_now s)
        (register-Sound req (via_branch req) m open_now s))

deliver-Sound :
    (found : Option ℕ) (msg : Message) (m : Manager)
    → lookup m.pending (via_branch msg) ≡ found
    → is_response msg ≡ true
    → Sound m
    → Sound (deliver found msg m)
deliver-Sound none msg m e r s = s
deliver-Sound (some i) msg m e r s =
    write-Sound i (push msg (m.channels i)) m s (push-bounded msg (m.channels i) (s.bounded i))
      (λ b k.
        push-ForBranch b (m.channels i) msg (s.own b i k) (s.apart (via_branch msg) b i e k) r)

either_first-Sound :
    (c : Bool) (x y : Manager × Option Message)
    → Sound x.0
    → (c ≡ false → Sound y.0)
    → Sound (if c then x else y).0
either_first-Sound true x y s t = s
either_first-Sound false x y s t = t refl

dispatch-Sound : (msg : Message) (m : Manager) → Sound m → Sound (dispatch msg m).0
unfolding dispatch
dispatch-Sound msg m s = either_first-Sound (not (is_response msg)) _ _ s (λ r.
    either_first-Sound (is_empty (via_branch msg)) _ _ s
      (λ v. deliver-Sound (lookup m.pending (via_branch msg)) msg m refl (ground arith) s))

receive-Sound :
    (parsed_now : Parsed) (m : Manager) → Sound m → Sound (dispatch_parsed parsed_now m).0
receive-Sound (refused e) m s = s
receive-Sound (parsed msg) m s = dispatch-Sound msg m s

Step-Sound : (m m' : Manager) → Step m m' → Sound m → Sound m'
unfolding receive
Step-Sound m m' (begins _ random ip port req sending h) s =
    begin_send-Sound random ip port req m sending h s
Step-Sound m m' (finishes _ _ e b i o h) s = finish_send-Sound e b i m m' o h s
Step-Sound m m' (reads _ _ e found o h) s = finish_read-Sound e found m m' o h s
Step-Sound m m' (receives _ bytes) s = receive-Sound (parse bytes) m s
Step-Sound m m' (removes _ b) s = remove_tx-Sound b m s
Step-Sound m m' (listens _) s = record {
  bounded = s.bounded;
  made = s.made;
  own = s.own;
  apart = s.apart;
  closed = s.closed;
}
Step-Sound m m' (stops _) s = stop-Sound m s

-- Under every interleaving of Send, ReadResponse, the read loop, RemoveTx and Stop, a response
-- channel holds at most 8 messages, a pending transaction's channel holds only responses that
-- carry its own branch, no two branches share a channel, and a stopped manager has no pending
-- transaction.
pub Reachable-Sound : (m : Manager) → Reachable m → Sound m
Reachable-Sound m starts = new_manager-Sound
Reachable-Sound m' (goes m _ r t) = Step-Sound m m' t (Reachable-Sound m r)
