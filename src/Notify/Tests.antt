-- ===== src/Notify/Tests.antt =====
-- mwi.go and dialog_info.go at concrete bodies.
use xphone_go.Prelude.{◌≡◌, refl, true, [], ◌∷◌, arith}
use xphone_go.Text.Defs.{
  ascii, pos, to_lower, trim_left, trim_right, cut_byte, split_byte, atoi, scan,
}
use xphone_go.Notify.Mwi.{parse_message_counts, parse_message_summary, read_lines}
use xphone_go.Prelude.{ℕ, some, false}
use xphone_go.Text.Cuts.{IsTrimmed}
use xphone_go.Notify.Subscribe.{Parsed, terminated, parse_subscription_state}
use xphone_go.Notify.Manager.{Subscription, Manager, new_watch, has, is_final, handle_notify}
use xphone_go.Notify.Refresh.{ended, handle_notify-new_expires}
use xphone_go.Notify.SubState.{print_state, parse_subscription_state-print_state}

waiting_message :
    parse_message_summary (ascii "Messages-Waiting: yes\r\nVoice-Message: 2/8 (1/0)\r\n") ≡ (
      record { messages_waiting = true; account = []; new_messages = pos 2; old_messages = pos 8 },
      true,
    )
unfolding parse_message_summary read_lines parse_message_counts to_lower trim_left trim_right
    cut_byte split_byte atoi scan
waiting_message = refl

rejected-IsTrimmed : IsTrimmed (ascii "rejected")
unfolding trim_right
rejected-IsTrimmed = record { not_empty = refl; trimmed = refl }

parse_subscription_state-print_state_example :
    parse_subscription_state (print_state terminated 60 (ascii "rejected"))
    ≡ record { state = terminated; expires = pos 60; reason = ascii "rejected" }
parse_subscription_state-print_state_example =
    parse_subscription_state-print_state terminated 60 (ascii "rejected") (omega arith) refl
      rejected-IsTrimmed

abbrev watch : Subscription
watch = record (new_watch (ascii "s1") (ascii "1002") (ascii "pbx")) { refresh_cancel = some 0 }

abbrev watching : Manager
watching = record {
  subs = ascii "s1" ∷ [];
  objects = λ k. watch;
  loops = (0, ascii "s1") ∷ [];
  next_loop = 1;
  stopped = false;
  panicked = false;
}

abbrev rejected : Parsed
rejected = record { state = terminated; expires = pos 1; reason = ascii "rejected" }

handle_notify-new_expires_example :
    (((handle_notify rejected (ascii "s1") watching).0.objects (ascii "s1")).expires ≡ 1)
    × ((handle_notify rejected (ascii "s1") watching).0.loops
        ≡ (1, ascii "s1") ∷ ended (some 0) ((0, ascii "s1") ∷ []))
    × (is_final rejected ≡ true
        → has (ascii "s1") (handle_notify rejected (ascii "s1") watching).0.subs ≡ false)
    × (◌≡◌ {A = ℕ} 1 1 → (handle_notify rejected (ascii "s1") watching).0.panicked ≡ true)
handle_notify-new_expires_example =
    handle_notify-new_expires rejected (ascii "s1") watching 1 refl refl refl
