-- ===== src/Notify/DialogInfo.antt =====
-- dialog_info.go: the state of an extension from its dialogs. The XML parser is not modelled: the definitions take the state attributes of
-- the <dialog> elements in their order.
use xphone_go.Prelude.{
  ◌≡◌, refl, ap, ◌∙◌, Bool, true, false, ◌&&◌, ◌||◌, List, [], ◌∷◌, arith, if◌then◌else◌,
  Bool-cases, inl, inr,
}
use xphone_go.Text.Defs.{Text, ascii, equal}
use xphone_go.Text.Cuts.{equal→eq}

pub data ExtensionState : Type 0 where
  extension_available extension_ringing extension_on_the_phone extension_offline extension_unknown :
      ExtensionState

-- The three variables of the loop.
pub record DialogFlags : Type 0 where
  pub has_confirmed : Bool
  pub has_early : Bool
  pub all_terminated : Bool

-- The switch on one dialog.
abbrev pub see_dialog : DialogFlags → Text → DialogFlags
see_dialog f d =
    if equal d (ascii "confirmed")
    then record f { has_confirmed = true; all_terminated = false }
    else if equal d (ascii "early") || equal d (ascii "proceeding")
    then record f { has_early = true; all_terminated = false }
    else if equal d (ascii "terminated")
    then f
    else record f { all_terminated = false }

unfoldable pub see_dialogs : DialogFlags → List Text → DialogFlags
see_dialogs f [] = f
see_dialogs f (d ∷ ds) = see_dialogs (see_dialog f d) ds

abbrev pub state_of : DialogFlags → ExtensionState
state_of f =
    if f.has_confirmed
    then extension_on_the_phone
    else if f.has_early
    then extension_ringing
    else if f.all_terminated
    then extension_available
    else extension_unknown

-- parseDialogInfo behind its XML parser.
unfoldable pub extension_state : List Text → ExtensionState
unfolding see_dialogs
extension_state [] = extension_available
extension_state (d ∷ ds) = state_of (
    see_dialogs (record { has_confirmed = false; has_early = false; all_terminated = true })
      (d ∷ ds))

-- The mapping that the comment of parseDialogInfo states.
abbrev pub any_dialog : (Text → Bool) → List Text → Bool
any_dialog test [] = false
any_dialog test (d ∷ ds) = test d || any_dialog test ds

abbrev pub all_dialogs : (Text → Bool) → List Text → Bool
all_dialogs test [] = true
all_dialogs test (d ∷ ds) = test d && all_dialogs test ds

abbrev pub is_confirmed : Text → Bool
is_confirmed d = equal d (ascii "confirmed")

abbrev pub is_early : Text → Bool
is_early d = equal d (ascii "early") || equal d (ascii "proceeding")

abbrev pub is_terminated : Text → Bool
is_terminated d = equal d (ascii "terminated")

abbrev pub documented_state : List Text → ExtensionState
documented_state ds =
    if all_dialogs is_terminated ds
    then extension_available
    else if any_dialog is_confirmed ds
    then extension_on_the_phone
    else if any_dialog is_early ds
    then extension_ringing
    else extension_unknown

confirmed_only :
    (d : Text) → is_confirmed d ≡ true → (is_early d ≡ false) × (is_terminated d ≡ false)
confirmed_only d h = rw (equal→eq d (ascii "confirmed") h) (refl, refl)

early_only : (d : Text) → is_early d ≡ true → is_terminated d ≡ false
early_only d h = elim (Bool-cases (equal d (ascii "early"))) [
  | inl e ↦ rw (equal→eq d (ascii "early") e) refl
  | inr e ↦ rw (equal→eq d (ascii "proceeding") (ground arith)) refl
]

see_dialog_flags :
    (f : DialogFlags) (d : Text)
    → see_dialog f d ≡ record {
      has_confirmed = f.has_confirmed || is_confirmed d;
      has_early = f.has_early || is_early d;
      all_terminated = f.all_terminated && is_terminated d;
    }
see_dialog_flags f d = elim (Bool-cases (is_confirmed d)) [
  | inl c ↦ let (e, t) = confirmed_only d c in ground arith
  | inr c ↦ elim (Bool-cases (is_early d)) [
    | inl e ↦ let t = early_only d e in ground arith
    | inr e ↦ ground arith
  ]
]

or_assoc : (a b c : Bool) → ((a || b) || c) ≡ (a || (b || c))
or_assoc true b c = refl
or_assoc false b c = refl

and_assoc : (a b c : Bool) → ((a && b) && c) ≡ (a && (b && c))
and_assoc true b c = refl
and_assoc false b c = refl

see_dialogs_flags :
    (f : DialogFlags) (ds : List Text)
    → see_dialogs f ds ≡ record {
      has_confirmed = f.has_confirmed || any_dialog is_confirmed ds;
      has_early = f.has_early || any_dialog is_early ds;
      all_terminated = f.all_terminated && all_dialogs is_terminated ds;
    }
unfolding see_dialogs
see_dialogs_flags f [] = ground arith
see_dialogs_flags f (d ∷ ds) =
    rw
      (
        see_dialogs_flags (see_dialog f d) ds,
        see_dialog_flags f d,
        or_assoc f.has_confirmed (is_confirmed d) (any_dialog is_confirmed ds),
        or_assoc f.has_early (is_early d) (any_dialog is_early ds),
        and_assoc f.all_terminated (is_terminated d) (all_dialogs is_terminated ds),
      )
      refl

-- A dialog that is confirmed, early or proceeding is not terminated.
runs :
    (test : Text → Bool)
    → ((d : Text) → test d ≡ true → is_terminated d ≡ false)
    → (ds : List Text) → any_dialog test ds ≡ true
    → all_dialogs is_terminated ds ≡ false
runs test other [] h = absurd (ground arith)
runs test other (d ∷ ds) h = elim (Bool-cases (test d)) [
  | inl e ↦ ground (arith, other d e)
  | inr e ↦ ground (arith, runs test other ds)
]

state_of-flags :
    (c e t : Bool)
    → (c ≡ true → t ≡ false)
    → (e ≡ true → t ≡ false)
    → state_of (record { has_confirmed = c; has_early = e; all_terminated = t }) ≡ (
        if t
        then extension_available
        else if c
        then extension_on_the_phone
        else if e
        then extension_ringing
        else extension_unknown)
state_of-flags c e t hc he = ground arith

-- The state of an extension is the one that the comment of the function documents: available without a dialog that is not terminated, else on the
-- phone with a confirmed dialog, else ringing with an early or proceeding one, else unknown.
pub extension_state-documented : (ds : List Text) → extension_state ds ≡ documented_state ds
unfolding extension_state
extension_state-documented [] = refl
extension_state-documented (d ∷ ds) =
    let init : DialogFlags = record {
      has_confirmed = false;
      has_early = false;
      all_terminated = true;
    } in
    ap state_of (see_dialogs_flags init (d ∷ ds))
    ∙ state_of-flags (any_dialog is_confirmed (d ∷ ds)) (any_dialog is_early (d ∷ ds))
        (all_dialogs is_terminated (d ∷ ds))
        (runs is_confirmed (λ k h. (confirmed_only k h).1) (d ∷ ds))
        (runs is_early early_only (d ∷ ds))
