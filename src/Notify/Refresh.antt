-- ===== src/Notify/Refresh.antt =====
-- subscribe.go: the refresh loops that a NOTIFY starts and ends.
use xphone_go.Prelude.{
  ℕ, ◌≡◌, refl, ap, ◌∙◌, Bool, true, false, ◌||◌, Option, none, some, List, [], ◌∷◌, arith,
  if◌then◌else◌,
}
use xphone_go.Text.Defs.{Text, equal}
use xphone_go.Text.Cuts.{equal_refl}
use xphone_go.Notify.Subscribe.{Parsed}
use xphone_go.Notify.Manager.{
  Subscription, Manager, write, delete, end_loop, cancel, start_refresh, has, is_final, new_expires,
  restart, handle_notify,
}

has-delete : (k : Text) (xs : List Text) → has k (delete k xs) ≡ false
unfolding delete
has-delete k [] = refl
has-delete k (x ∷ xs) = ground (arith, has-delete k xs)

-- The loops left when the subscription's own is cancelled.
abbrev pub ended : Option ℕ → List (ℕ × Text) → List (ℕ × Text)
ended none loops = loops
ended (some n) loops = end_loop n loops

cancel-ended : (o : Option ℕ) (m : Manager) → cancel o m ≡ record m { loops = ended o m.loops }
cancel-ended none m = refl
cancel-ended (some n) m = refl

abbrev dropped_or_kept : Parsed → Text → Manager → Manager
dropped_or_kept p k m = record m { subs = if is_final p then delete k m.subs else m.subs }

handle_notify-restart :
    (p : Parsed) (k : Text) (m : Manager) (n : ℕ)
    → new_expires p.expires (m.objects k).expires ≡ some n
    → (handle_notify p k m).0 ≡ restart (some n) (is_final p) k (dropped_or_kept p k m)
unfolding handle_notify
handle_notify-restart p k m n h =
    ap (λ (o : Option ℕ). restart o (is_final p) k (dropped_or_kept p k m)) h

-- The phone's table after the restart.
abbrev pub restarted : Parsed → Text → ℕ → Manager → Manager
restarted p k n m =
    let s = m.objects k in
    let changed = write (record s { expires = n }) m.objects in
    start_refresh k
      (record (dropped_or_kept p k m) { objects = changed; loops = ended s.refresh_cancel m.loops })

restart-restarted :
    (p : Parsed) (k : Text) (m : Manager) (n : ℕ)
    → restart (some n) (is_final p) k (dropped_or_kept p k m) ≡ restarted p k n m
restart-restarted p k m n =
    let s = m.objects k in
    ap (start_refresh k) (
      cancel-ended s.refresh_cancel
        (record (dropped_or_kept p k m) { objects = write (record s { expires = n }) m.objects }))

write_at : (s : Subscription) (f : Text → Subscription) (k : Text) → s.id ≡ k → write s f k ≡ s
write_at s f k own =
    let self : equal k s.id ≡ true = ap (equal k) own ∙ equal_refl k in rw (self) refl

start_refresh-expires :
    (k : Text) (m : Manager)
    → (m.objects k).id ≡ k
    → ((start_refresh k m).objects k).expires ≡ (m.objects k).expires
unfolding start_refresh
start_refresh-expires k m own =
    ap (λ (s : Subscription). s.expires)
      (write_at (record (m.objects k) { refresh_cancel = some m.next_loop }) m.objects k own)

or_true : (b : Bool) → (b || true) ≡ true
or_true true = refl
or_true false = refl

start_refresh-panicked :
    (k : Text) (m : Manager) → (m.objects k).expires ≡ 1 → (start_refresh k m).panicked ≡ true
unfolding start_refresh
start_refresh-panicked k m e = rw (e) (or_true m.panicked)

-- A NOTIFY that changes the expiry of a subscription ends its refresh loop and starts another with
-- the new expiry. That holds also when the NOTIFY ends the subscription for good: the map drops it
-- and its new loop runs on. An expiry of 1 second makes the new loop panic.
pub handle_notify-new_expires :
    (p : Parsed) (k : Text) (m : Manager) (n : ℕ)
    → new_expires p.expires (m.objects k).expires ≡ some n
    → (m.objects k).id ≡ k
    → m.stopped ≡ false
    → (((handle_notify p k m).0.objects k).expires ≡ n)
      × ((handle_notify p k m).0.loops
          ≡ (m.next_loop, k) ∷ ended (m.objects k).refresh_cancel m.loops)
      × (is_final p ≡ true → has k (handle_notify p k m).0.subs ≡ false)
      × (n ≡ 1 → (handle_notify p k m).0.panicked ≡ true)
unfolding start_refresh
handle_notify-new_expires p k m n h own running =
    let s = m.objects k in
    let e : (handle_notify p k m).0 ≡ restarted p k n m =
      handle_notify-restart p k m n h ∙ restart-restarted p k m n in
    let now : write (record s { expires = n }) m.objects k ≡ record s { expires = n } =
      write_at (record s { expires = n }) m.objects k own in
    let at_start : Manager = record (dropped_or_kept p k m) {
      objects = write (record s { expires = n }) m.objects;
      loops = ended s.refresh_cancel m.loops;
    } in
    let own_now : (at_start.objects k).id ≡ k = ap (λ (x : Subscription). x.id) now ∙ own in
    let value : (at_start.objects k).expires ≡ n = ap (λ (x : Subscription). x.expires) now in
    rw (e) (
      start_refresh-expires k at_start own_now ∙ value,
      rw (running) refl,
      (λ final. rw (final) (has-delete k m.subs)),
      (λ one. start_refresh-panicked k at_start (value ∙ one)),
    )
