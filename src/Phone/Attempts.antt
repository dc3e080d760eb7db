-- ===== src/Phone/Attempts.antt =====
-- xphone.go: the goroutines that share a phone. Every attempt of Connect, Prepare or Register has
-- the generation it was begun with, so the attempts are a function of the generation.
use xphone_go.Prelude.{
  ℕ, suc, ◌≡◌, Bool, true, false, Option, none, some, List, ◌==◌, if◌then◌else◌,
}
use xphone_go.Text.Defs.{Text}
use xphone_go.Phone.Lifecycle.{
  Phone, new_phone, Kind, connect, prepare, register, sets_up, registers_now, begin_connect,
  begin_prepare, begin_register, after_stun, attach, teardown, end_prepare, begin_run, publish,
  store_mwi, store_sub_mgr, fail_connect, Effect,
}
use xphone_go.Phone.Ending.{begin_unregister, end_unregister, disconnect}

-- Where an attempt stands, between two sections.
pub data Phase : Type 0 where
  idle finished served with_mwi : Phase
  setting_up attached setup_failed running run_failed : Kind → Phase

-- The phone, the attempts, the next transport's number and the calls of Unregister between their
-- two sections.
pub record System : Type 0 where
  pub phone : Phone
  pub phase : ℕ → Phase
  pub next_tr : ℕ
  pub leaving : ℕ

abbrev pub new_system : Text → System
new_system ip = record { phone = new_phone ip; phase = λ g. idle; next_tr = 0; leaving = 0 }

abbrev pub put : ℕ → Phase → (ℕ → Phase) → ℕ → Phase
put g ph phases h = if h == g then ph else phases h

abbrev pub move : ℕ → Phase → Phone → System → System
move g ph p s = record s { phone = p; phase = put g ph s.phase }

-- A section that fails leaves the phone.
abbrev pub move_or : ℕ → Phase → Phase → Option Phone → System → System
move_or g good bad none s = move g bad s.phone s
move_or g good bad (some p) s = move g good p s

abbrev pub set_up_failed : ℕ → Kind → Phone → Phone
set_up_failed g connect p = teardown g p
set_up_failed g prepare p = end_prepare false g p
set_up_failed g register p = teardown g p

abbrev pub run_ended : Bool → Kind → Phase
run_ended true k = served
run_ended false k = run_failed k

abbrev pub leaves : Phone → System → System
leaves p s = record s { phone = p; leaving = suc s.leaving }

pub data Step : System → System → Type 0 where
  connects :
      (s : System) (p : Phone)
      → begin_connect s.phone ≡ sets_up p
      → Step s (move p.lifecycle_gen (setting_up connect) p s)
  prepares :
      (s : System) (live : Bool) (p : Phone)
      → begin_prepare live s.phone ≡ sets_up p
      → Step s (move p.lifecycle_gen (setting_up prepare) p s)
  registers :
      (s : System) (live : Bool) (p : Phone)
      → begin_register live s.phone ≡ sets_up p
      → Step s (move p.lifecycle_gen (setting_up register) p s)
  registers_again :
      (s : System) (live : Bool) (p : Phone)
      → begin_register live s.phone ≡ registers_now p
      → Step s (move p.lifecycle_gen (attached register) p s)
  stuns :
      (s : System) (g : ℕ) (k : Kind) (live : Bool) (ip : Text)
      → s.phase g ≡ setting_up k
      → Step s (move_or g (setting_up k) (setup_failed k) (after_stun k live g ip s.phone) s)
  cannot_bind :
      (s : System) (g : ℕ) (k : Kind)
      → s.phase g ≡ setting_up k
      → Step s (move g (setup_failed k) s.phone s)
  attaches :
      (s : System) (g : ℕ) (k : Kind) (live : Bool)
      → s.phase g ≡ setting_up k
      → Step s
          (record (move_or g (attached k) (setup_failed k) (attach k live g s.next_tr s.phone) s) {
            next_tr = suc s.next_tr;
          })
  gives_up :
      (s : System) (g : ℕ) (k : Kind)
      → s.phase g ≡ setup_failed k
      → Step s (move g finished (set_up_failed g k s.phone) s)
  is_prepared :
      (s : System) (g : ℕ)
      → s.phase g ≡ attached prepare
      → Step s (move g finished (end_prepare true g s.phone) s)
  runs_connect :
      (s : System) (g : ℕ)
      → s.phase g ≡ attached connect
      → Step s (move_or g (running connect) (run_failed connect) (begin_run g s.phone) s)
  runs_register :
      (s : System) (g : ℕ)
      → s.phase g ≡ attached register
      → Step s (move_or g (running register) (run_failed register) (begin_run g s.phone) s)
  publishes :
      (s : System) (g : ℕ) (k : Kind) (ok : Bool)
      → s.phase g ≡ running k
      → Step s (move_or g (run_ended ok k) (run_failed k) (publish ok g s.phone) s)
  starts_mwi :
      (s : System) (g : ℕ) → s.phase g ≡ served → Step s (move g with_mwi (store_mwi g s.phone).0 s)
  has_no_mwi : (s : System) (g : ℕ) → s.phase g ≡ served → Step s (move g with_mwi s.phone s)
  starts_sub_mgr :
      (s : System) (g : ℕ)
      → s.phase g ≡ with_mwi
      → Step s (move g finished (store_sub_mgr g s.phone).0 s)
  fails_connect :
      (s : System) (g : ℕ)
      → s.phase g ≡ run_failed connect
      → Step s (move g finished (fail_connect g s.phone).0 s)
  fails_register :
      (s : System) (g : ℕ) → s.phase g ≡ run_failed register → Step s (move g finished s.phone s)
  unregisters :
      (s : System) (p : Phone) (effects : List Effect)
      → begin_unregister s.phone ≡ some (p, effects)
      → Step s (leaves p s)
  ends_unregister :
      (s : System) (n : ℕ)
      → s.leaving ≡ suc n
      → Step s (record s { phone = (end_unregister s.phone).0; leaving = n })
  disconnects :
      (s : System) (p : Phone) (effects : List Effect)
      → disconnect s.phone ≡ some (p, effects)
      → Step s (record s { phone = p })

pub data Reachable : System → Type 0 where
  starts : (ip : Text) → Reachable (new_system ip)
  goes : (s s' : System) → Reachable s → Step s s' → Reachable s'
