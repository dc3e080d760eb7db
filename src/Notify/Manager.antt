-- ===== src/Notify/Manager.antt =====
-- subscribe.go: the table of subscriptions and their refresh loops. The map holds identities, and
-- `objects` what they point to, since a refresh loop keeps its subscription when the map drops it.
-- A list stands for the map, in the order of its iteration. The transport's answers and the XML of
-- a dialog-info body are arguments.
use xphone_go.Prelude.{
  ℕ, suc, ◌/◌, Bool, true, false, not, ◌||◌, ◌&&◌, Option, none, some, List, [], ◌∷◌, ◌++◌, ltb,
  ◌==◌, if◌then◌else◌,
}
use xphone_go.Text.Defs.{Text, ascii, equal, itoa, ℤ, pos, negsuc}
use xphone_go.Notify.DialogInfo.{
  ExtensionState, extension_available, extension_unknown, extension_state,
}
use xphone_go.Notify.Subscribe.{SubState, Parsed, extract_sip_user, pending, active, terminated}

pub record Subscription : Type 0 where
  pub id : Text
  pub uri : Text
  pub event : Text
  pub expires : ℕ
  pub is_watch : Bool
  pub extension : Text
  pub prev_state : ExtensionState
  pub refresh_cancel : Option ℕ

-- The refresh loops that run, with their subscription; `panicked` says that one was started with
-- an interval of 0, for which time.NewTicker panics.
pub record Manager : Type 0 where
  pub subs : List Text
  pub objects : Text → Subscription
  pub loops : List (ℕ × Text)
  pub next_loop : ℕ
  pub stopped : Bool
  pub panicked : Bool

abbrev pub write : Subscription → (Text → Subscription) → Text → Subscription
write s f k = if equal k s.id then s else f k

unfoldable pub delete : Text → List Text → List Text
delete k [] = []
delete k (x ∷ xs) = let rest = delete k xs in if equal x k then rest else x ∷ rest

abbrev pub end_loop : ℕ → List (ℕ × Text) → List (ℕ × Text)
end_loop n [] = []
end_loop n ((m, k) ∷ loops) = let rest = end_loop n loops in if m == n then rest else (m, k) ∷ rest

-- A refreshCancel that may be nil.
abbrev pub cancel : Option ℕ → Manager → Manager
cancel none m = m
cancel (some n) m = record m { loops = end_loop n m.loops }

-- startRefresh; a loop under the cancelled context of stop ends at once.
unfoldable pub start_refresh : Text → Manager → Manager
start_refresh k m =
    let s = m.objects k in
    record m {
      objects = write (record s { refresh_cancel = some m.next_loop }) m.objects;
      loops = if m.stopped then m.loops else (m.next_loop, k) ∷ m.loops;
      next_loop = suc m.next_loop;
      panicked = m.panicked || (s.expires / 2 == 0);
    }

-- The answer to a SUBSCRIBE: an error of the transport, or a status.
pub data Answer : Type 0 where
  transport_error : Answer
  status : ℕ → Answer

abbrev pub is_refused : Answer → Bool
is_refused transport_error = true
is_refused (status code) = not (ltb code 400)

-- subscribeHeaders.
unfoldable pub subscribe_headers : Subscription → List (Text × Text)
subscribe_headers s =
    (ascii "Event", s.event)
    ∷ (ascii "Expires", itoa s.expires)
    ∷ (if s.is_watch then (ascii "Accept", ascii "application/dialog-info+xml") ∷ [] else [])

-- doSubscribe, before and after the answer; the flag says whether it succeeded.
unfoldable pub begin_subscribe : Subscription → Manager → Manager
begin_subscribe s m = record m { subs = s.id ∷ delete s.id m.subs; objects = write s m.objects }

unfoldable pub end_subscribe : Text → Answer → Manager → Manager × Bool
unfolding start_refresh
end_subscribe k a m =
    if is_refused a then (record m { subs = delete k m.subs }, false) else (start_refresh k m, true)

abbrev pub has : Text → List Text → Bool
has k [] = false
has k (x ∷ xs) = equal x k || has k xs

-- remove; `none` is ErrSubscriptionNotFound. The SUBSCRIBE with Expires 0 changes nothing here.
unfoldable pub remove : Text → Manager → Option Manager
remove k m =
    if has k m.subs
    then some (cancel (m.objects k).refresh_cancel (record m { subs = delete k m.subs }))
    else none

-- refresh.
unfoldable pub refresh : Text → Answer → Manager → Manager
refresh k transport_error m = m
refresh k (status code) m =
    if ltb code 400
    then m
    else cancel (m.objects k).refresh_cancel (record m { subs = delete k m.subs })

-- The SUBSCRIBE of resubscribe, behind its test of the map.
unfoldable pub resubscribe : Text → Answer → Manager → Manager
unfolding start_refresh
resubscribe k a m =
    let stopped_loop = cancel (m.objects k).refresh_cancel m in
    if not (has k m.subs)
    then stopped_loop
    else if is_refused a
    then record stopped_loop { subs = delete k m.subs }
    else start_refresh k stopped_loop

unfoldable pub cancel_all : List Text → Manager → Manager
cancel_all [] m = m
cancel_all (k ∷ ks) m = cancel_all ks (cancel (m.objects k).refresh_cancel m)

-- stop: the context ends every loop.
unfoldable pub stop : Manager → Manager
unfolding cancel_all
stop m = let ended = record m { stopped = true; subs = []; loops = [] } in cancel_all m.subs ended

abbrev pub is_match : Text → Text → Subscription → Bool
unfolding extract_sip_user
is_match event user s =
    if not (equal s.event event)
    then false
    else if s.is_watch
    then equal user s.extension
    else equal (extract_sip_user s.uri) user

-- findMatch.
unfoldable pub find_in : (Text → Subscription) → Text → Text → List Text → Option Text
find_in objects event user [] = none
find_in objects event user (k ∷ ks) =
    let rest = find_in objects event user ks in
    if is_match event user (objects k) then some k else rest

unfoldable pub find_match : Text → Text → Manager → Option Text
find_match event from m = find_in m.objects event (extract_sip_user from) m.subs

abbrev is_terminated : SubState → Bool
is_terminated pending = false
is_terminated active = false
is_terminated terminated = true

abbrev retried_reason : Text → Bool
retried_reason r = equal r (ascii "deactivated") || equal r (ascii "timeout")

-- Whether a NOTIFY ends the subscription, and whether it is taken up again.
abbrev pub is_final : Parsed → Bool
is_final p = is_terminated p.state && not (retried_reason p.reason)

abbrev pub is_retried : Parsed → Bool
is_retried p = is_terminated p.state && retried_reason p.reason

-- The new expiry of a NOTIFY that changes it.
abbrev pub new_expires : ℤ → ℕ → Option ℕ
new_expires (pos n) old = if ltb 0 n && not (n == old) then some n else none
new_expires (negsuc n) old = none

abbrev pub restart : Option ℕ → Bool → Text → Manager → Manager
restart none final k m = if final then cancel (m.objects k).refresh_cancel m else m
restart (some n) final k m =
    let s = m.objects k in
    let changed = record m { objects = write (record s { expires = n }) m.objects } in
    start_refresh k (cancel s.refresh_cancel changed)

-- handleNotify on the subscription found, up to its callbacks; the flag is the call of resubscribe
-- in a goroutine of its own.
unfoldable pub handle_notify : Parsed → Text → Manager → Manager × Bool
handle_notify p k m =
    let final = is_final p in
    let kept = record m { subs = if final then delete k m.subs else m.subs } in
    (restart (new_expires p.expires (m.objects k).expires) final k kept, is_retried p)

-- The callback of a watch: the state of the body, behind its XML parser, with the one before.
unfoldable pub watch_notified :
    Text
    → ExtensionState
    → Option (List Text)
    → Manager
    → Manager × Option (Text × ExtensionState × ExtensionState)
watch_notified k prev none m = (m, none)
watch_notified k prev (some states) m =
    let s = m.objects k in
    let state = extension_state states in
    (
      record m { objects = write (record s { prev_state = state }) m.objects },
      some (s.extension, state, prev),
    )

-- The subscriptions of watch and subscribeEvent, with the identity that newCallID makes.
abbrev pub new_watch : Text → Text → Text → Subscription
new_watch id extension host = record {
  id = id;
  uri = ascii "sip:" ++ (extension ++ (64 ∷ host));
  event = ascii "dialog";
  expires = 600;
  is_watch = true;
  extension = extension;
  prev_state = extension_unknown;
  refresh_cancel = none;
}

abbrev or_default : ℤ → ℕ
or_default (pos n) = if n == 0 then 600 else n
or_default (negsuc n) = 600

abbrev pub new_event : Text → Text → Text → ℤ → Subscription
new_event id uri event expires = record {
  id = id;
  uri = uri;
  event = event;
  expires = or_default expires;
  is_watch = false;
  extension = [];
  prev_state = extension_available;
  refresh_cancel = none;
}
