-- ===== src/Notify/Mwi.antt =====
-- mwi.go: the message-summary body of a voicemail NOTIFY.
use xphone_go.Prelude.{
  ℕ, ◌^◌, ◌<◌, ◌≡◌, refl, sym, ap, append_assoc, ◌∙◌, Bool, true, false, Option, none, some, List,
  [], ◌∷◌, ◌++◌, arith, if◌then◌else◌, contains,
}
use xphone_go.Text.Defs.{
  Text, ascii, equal_fold, trim_left, trim_right, trim_space, cut_byte, split_byte, ℤ, pos, atoi,
  itoa,
}
use xphone_go.Text.Cuts.{
  cut_byte-append, cut_byte-none, IsTrimmed, append-IsTrimmed, trim_right-space,
}
use xphone_go.Text.Numbers.{
  atoi-itoa, contains-append, contains-itoa, is_empty-itoa, trim_space-itoa, trim_left-itoa,
  trim_right-itoa,
}

pub record VoicemailStatus : Type 0 where
  pub messages_waiting : Bool
  pub account : Text
  pub new_messages : ℤ
  pub old_messages : ℤ

abbrev urgent_removed : Text → Option (Text × Text) → Text
urgent_removed s none = s
urgent_removed s (some (before, after)) = trim_space before

abbrev both_counts : Option ℤ → Option ℤ → ℤ × ℤ
both_counts none old_count = (pos 0, pos 0)
both_counts (some n) none = (pos 0, pos 0)
both_counts (some n) (some k) = (n, k)

abbrev counts_of : Option (Text × Text) → ℤ × ℤ
counts_of none = (pos 0, pos 0)
counts_of (some (before, after)) = both_counts (atoi (trim_space before)) (atoi (trim_space after))

-- parseMessageCounts.
unfoldable pub parse_message_counts : Text → ℤ × ℤ
parse_message_counts s = counts_of (cut_byte 47 (urgent_removed s (cut_byte 40 s)))

-- The branches of the loop on a key and a value, with whether Messages-Waiting was found.
abbrev pub take_field : Text → Text → VoicemailStatus × Bool → VoicemailStatus × Bool
take_field key val (status, found) =
    let (new_count, old_count) = parse_message_counts val in
    if equal_fold key (ascii "Messages-Waiting")
    then (record status { messages_waiting = equal_fold val (ascii "yes") }, true)
    else if equal_fold key (ascii "Message-Account")
    then (record status { account = val }, found)
    else if equal_fold key (ascii "Voice-Message")
    then (record status { new_messages = new_count; old_messages = old_count }, found)
    else (status, found)

abbrev pub take_cut : Option (Text × Text) → VoicemailStatus × Bool → VoicemailStatus × Bool
take_cut none acc = acc
take_cut (some (key, val)) acc = take_field (trim_space key) (trim_space val) acc

-- The loop of parseMessageSummary; an empty line has no colon.
unfoldable pub read_lines : List Text → VoicemailStatus × Bool → VoicemailStatus × Bool
read_lines [] acc = acc
read_lines (line ∷ lines) acc = read_lines lines (take_cut (cut_byte 58 (trim_space line)) acc)

abbrev pub no_status : VoicemailStatus
no_status = record {
  messages_waiting = false;
  account = [];
  new_messages = pos 0;
  old_messages = pos 0;
}

-- parseMessageSummary.
unfoldable pub parse_message_summary : Text → VoicemailStatus × Bool
unfolding read_lines
parse_message_summary body = read_lines (split_byte 10 body) (no_status, false)

itoa-IsTrimmed : (n : ℕ) → IsTrimmed (itoa n)
itoa-IsTrimmed n = record { not_empty = is_empty-itoa n; trimmed = trim_right-itoa n }

trim_space-counts :
    (n k : ℕ) → trim_space ((itoa n ++ (47 ∷ itoa k)) ++ (32 ∷ [])) ≡ itoa n ++ (47 ∷ itoa k)
trim_space-counts n k =
    let counts = itoa n ++ (47 ∷ itoa k) in
    let whole : IsTrimmed counts =
      append-IsTrimmed (itoa n) (47 ∷ itoa k)
        (append-IsTrimmed (47 ∷ []) (itoa k) (itoa-IsTrimmed k)) in
    let regroup = append_assoc (itoa n) (47 ∷ itoa k) (32 ∷ []) in
    ap trim_right
      (ap trim_left regroup ∙ trim_left-itoa n (47 ∷ (itoa k ++ (32 ∷ []))) ∙ sym regroup)
    ∙ trim_right-space counts
    ∙ whole.trimmed

-- The counts that a number on both sides of a slash stands for, with the urgent counts behind a space, or without them.
pub parse_message_counts-itoa :
    (new_count old_count : ℕ) (urgent : Text)
    → new_count < 2 ^ 63
    → old_count < 2 ^ 63
    → (parse_message_counts (itoa new_count ++ (47 ∷ itoa old_count))
        ≡ (pos new_count, pos old_count))
      × (parse_message_counts ((itoa new_count ++ (47 ∷ itoa old_count)) ++ (32 ∷ 40 ∷ urgent))
          ≡ (pos new_count, pos old_count))
unfolding parse_message_counts
parse_message_counts-itoa n k urgent hn hk =
    let counts = itoa n ++ (47 ∷ itoa k) in
    let plain : contains counts 40 ≡ false = ground (
      arith,
      contains-append (itoa n) (47 ∷ itoa k) 40,
      contains-itoa n 40 refl,
      contains-itoa k 40 refl,
    ) in
    let spaced : contains (counts ++ (32 ∷ [])) 40 ≡ false =
      ground (arith, contains-append counts (32 ∷ []) 40, plain) in
    let trimmed : trim_space (counts ++ (32 ∷ [])) ≡ counts = trim_space-counts n k in
    let parts = cut_byte-append 47 (itoa n) (itoa k) (contains-itoa n 47 refl) in
    (
      rw
          (
            cut_byte-none 40 counts plain,
            parts,
            trim_space-itoa n,
            trim_space-itoa k,
            atoi-itoa n hn,
            atoi-itoa k hk,
          )
          refl,
      rw
          (
            sym (append_assoc counts (32 ∷ []) (40 ∷ urgent)),
            cut_byte-append 40 (counts ++ (32 ∷ [])) urgent spaced,
            trimmed,
            parts,
            trim_space-itoa n,
            trim_space-itoa k,
            atoi-itoa n hn,
            atoi-itoa k hk,
          )
          refl,
    )
