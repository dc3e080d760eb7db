-- ===== src/Sip/Transactions.antt =====
-- internal/sip/transaction.go: the client transactions. A channel is a number, and the store of
-- channels a function of it, so that a Send keeps its channel when `pending` no longer names it.
-- A section under the lock is one function; what a select takes is an `Event`. The socket, the
-- random bytes and the timers are arguments.
pub mod Dispatch
pub mod Echo
pub mod Table
pub mod Tests
use xphone_go.Prelude.{
  ℕ, suc, ◌+◌, ◌*◌, ◌/◌, ◌%◌, ◌≡◌, refl, Bool, true, false, not, Option, none, some, List, [], ◌∷◌,
  ◌++◌, ltb, ◌==◌, if◌then◌else◌, length,
}
use xphone_go.Text.Defs.{Text, ascii, equal, is_empty, itoa}
use xphone_go.Sip.Message.{
  Message, Parsed, refused, parsed, parse, is_response, via_branch, set_header,
}

-- pendingTx's channel and TransactionManager. `next` numbers the channels that were made.
pub record Manager : Type 0 where
  pub channels : ℕ → List Message
  pub next : ℕ
  pub pending : List (Text × ℕ)
  pub has_callback : Bool
  pub stopped : Bool

-- NewTransactionManager, without its read loop.
abbrev pub new_manager : Manager
new_manager = record {
  channels = λ i. [];
  next = 0;
  pending = [];
  has_callback = false;
  stopped = false;
}

-- The map `pending`.
unfoldable pub lookup : List (Text × ℕ) → Text → Option ℕ
lookup [] k = none
lookup ((b, i) ∷ rest) k = if equal b k then some i else lookup rest k

unfoldable pub delete : List (Text × ℕ) → Text → List (Text × ℕ)
delete [] k = []
delete ((b, i) ∷ entries) k =
    let rest = delete entries k in if equal b k then rest else (b, i) ∷ rest

abbrev pub write : ℕ → List Message → (ℕ → List Message) → ℕ → List Message
write i q f j = if j == i then q else f j

abbrev pub hex_digit : ℕ → ℕ
hex_digit n = if ltb n 10 then 48 + n else 87 + n

abbrev pub hex : List ℕ → Text
hex [] = []
hex (b ∷ bytes) = hex_digit (b / 16) ∷ hex_digit (b % 16) ∷ hex bytes

-- generateBranch on the 12 bytes it draws.
unfoldable pub generate_branch : List ℕ → Text
generate_branch random = ascii "z9hG4bK" ++ hex random

-- The Via header that Send writes.
abbrev pub via_value : Text → ℕ → Text → Text
via_value ip port branch =
    ascii "SIP/2.0/UDP " ++ (ip ++ (58 ∷ (itoa port ++ (ascii ";branch=" ++ branch))))

-- What Send holds after its section under the lock.
pub record Sending : Type 0 where
  pub request : Message
  pub branch : Text
  pub channel : ℕ
  pub manager : Manager

abbrev pub register : Message → Text → Manager → Sending
register req b m = record {
  request = req;
  branch = b;
  channel = m.next;
  manager = record m {
    channels = write m.next [] m.channels;
    next = suc m.next;
    pending = (b, m.next) ∷ delete m.pending b;
  };
}

abbrev pub with_branch : List ℕ → Text → ℕ → Message → Manager → Sending
with_branch random ip port req m =
    let b = via_branch req in
    let made = generate_branch random in
    if is_empty b
    then register (set_header req (ascii "Via") (via_value ip port made)) made m
    else register req b m

-- Send up to the unlock; `none` is ErrTransactionStopped.
unfoldable pub begin_send : List ℕ → Text → ℕ → Message → Manager → Option Sending
begin_send random ip port req m =
    let sending = with_branch random ip port req m in if m.stopped then none else some sending

-- removeTx.
unfoldable pub remove_tx : Text → Manager → Manager
remove_tx b m = record m { pending = delete m.pending b }

-- Stop.
unfoldable pub stop : Manager → Manager
stop m = if m.stopped then m else record m { stopped = true; pending = [] }

pub data Error : Type 0 where
  transaction_timeout transaction_stopped not_sent no_pending : Error

pub data Outcome : Type 0 where
  got : Message → Outcome
  failed : Error → Outcome

-- How a wait ends: conn.Send failed, or the case that the select takes.
pub data Event : Type 0 where
  unsent answered timed_out halted : Event

abbrev pub take_from : List Message → ℕ → Manager → Option (Outcome × Manager)
take_from [] i m = none
take_from (msg ∷ queue) i m = some (got msg, record m { channels = write i queue m.channels })

abbrev pub on_done : Manager → Option (Outcome × Manager)
on_done m = if m.stopped then some (failed transaction_stopped, m) else none

-- The rest of Send. `none` is an event that cannot happen yet: the channel is empty or `done` open.
unfoldable pub finish_send : Event → Text → ℕ → Manager → Option (Outcome × Manager)
unfolding remove_tx
finish_send unsent b i m = some (failed not_sent, remove_tx b m)
finish_send answered b i m = take_from (m.channels i) i m
finish_send timed_out b i m = some (failed transaction_timeout, remove_tx b m)
finish_send halted b i m = on_done m

-- ReadResponse after its lookup, which keeps the transaction when it times out.
unfoldable pub finish_read : Event → Option ℕ → Manager → Option (Outcome × Manager)
finish_read e none m = some (failed no_pending, m)
finish_read unsent (some i) m = none
finish_read answered (some i) m = take_from (m.channels i) i m
finish_read timed_out (some i) m = some (failed transaction_timeout, m)
finish_read halted (some i) m = on_done m

-- The send on a channel of capacity 8; a full one drops the message.
abbrev pub push : Message → List Message → List Message
push msg queue = if ltb (length queue) 8 then queue ++ (msg ∷ []) else queue

abbrev pub deliver : Option ℕ → Message → Manager → Manager
deliver none msg m = m
deliver (some i) msg m = record m { channels = write i (push msg (m.channels i)) m.channels }

-- The read loop on a parsed message, with the request that it hands to the callback.
unfoldable pub dispatch : Message → Manager → Manager × Option Message
dispatch msg m =
    if not (is_response msg)
    then (m, if m.has_callback then some msg else none)
    else if is_empty (via_branch msg)
    then (m, none)
    else (deliver (lookup m.pending (via_branch msg)) msg m, none)

abbrev pub dispatch_parsed : Parsed → Manager → Manager × Option Message
dispatch_parsed (refused e) m = (m, none)
dispatch_parsed (parsed msg) m = dispatch msg m

-- One round of readLoop on a datagram.
unfoldable pub receive : Text → Manager → Manager × Option Message
unfolding dispatch
receive bytes m = dispatch_parsed (parse bytes) m

-- The sections of the goroutines, one at a time.
pub data Step : Manager → Manager → Type 0 where
  begins :
      (m : Manager) (random : List ℕ) (ip : Text) (port : ℕ) (req : Message) (s : Sending)
      → begin_send random ip port req m ≡ some s
      → Step m s.manager
  finishes :
      (m m' : Manager) (e : Event) (b : Text) (i : ℕ) (o : Outcome)
      → finish_send e b i m ≡ some (o, m')
      → Step m m'
  reads :
      (m m' : Manager) (e : Event) (found : Option ℕ) (o : Outcome)
      → finish_read e found m ≡ some (o, m')
      → Step m m'
  receives : (m : Manager) (bytes : Text) → Step m (receive bytes m).0
  removes : (m : Manager) (b : Text) → Step m (remove_tx b m)
  listens : (m : Manager) → Step m (record m { has_callback = true })
  stops : (m : Manager) → Step m (stop m)

pub data Reachable : Manager → Type 0 where
  starts : Reachable new_manager
  goes : (m m' : Manager) → Reachable m → Step m m' → Reachable m'
