-- ===== src/Sip/Transactions/Tests.antt =====
-- internal/sip/transaction.go: one REGISTER and its 100 Trying.
use xphone_go.Prelude.{ℕ, zero, suc, ◌≡◌, refl, true, some, arith, replicate}
use xphone_go.Text.Defs.{ascii, pos}
use xphone_go.Sip.Message.{Message, new_message, via_branch, header, is_response}
use xphone_go.Sip.Transactions.{
  Manager, new_manager, Sending, with_branch, begin_send, dispatch, finish_send, answered, got,
  Reachable, starts, goes, begins,
}
use xphone_go.Sip.Transactions.Table.{Sound}
use xphone_go.Sip.Transactions.Dispatch.{Reachable-Sound}
use xphone_go.Sip.Transactions.Echo.{AllBytes, dispatch-begin_send}

abbrev register : Message
register = record new_message { method = ascii "REGISTER"; request_uri = ascii "sip:pbx.local" }

abbrev sending : Sending
sending = with_branch (replicate 12 171) (ascii "10.0.0.1") 5060 register new_manager

abbrev trying : Message
trying = record new_message {
  status_code = pos 100;
  reason = ascii "Trying";
  headers = sending.request.headers;
}

begun : begin_send (replicate 12 171) (ascii "10.0.0.1") 5060 register new_manager ≡ some sending
unfolding begin_send
begun = refl

sending-Reachable : Reachable sending.manager
sending-Reachable =
    goes new_manager sending.manager starts
      (begins new_manager (replicate 12 171) (ascii "10.0.0.1") 5060 register sending begun)

Reachable-Sound_example : Sound sending.manager
Reachable-Sound_example = Reachable-Sound sending.manager sending-Reachable

same_branch : via_branch trying ≡ via_branch sending.request
unfolding via_branch header
same_branch = refl

is_answer : is_response trying ≡ true
unfolding is_response
is_answer = refl

replicated : (n : ℕ) → AllBytes (replicate n 171)
replicated zero = tt
replicated (suc n) = (omega arith, replicated n)

dispatch-begin_send_example :
    (via_branch sending.request ≡ sending.branch)
    × ((after : Manager) × (finish_send answered sending.branch sending.channel
            (dispatch trying sending.manager).0
          ≡ some (got trying, after)))
dispatch-begin_send_example =
    dispatch-begin_send (replicate 12 171) (ascii "10.0.0.1") 5060 register trying new_manager
      sending refl refl (replicated 12) begun is_answer same_branch
