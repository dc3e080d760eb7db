-- ===== src/Registry/InFlight.antt =====
-- registry.go: drops are deduplicated by a flag, and who has still to clear it.
use xphone_go.Prelude.{
  ℕ, suc, ◌+◌, ◌≤◌, ◌<◌, ◌≡◌, refl, sym, ap, ◌∙◌, ◌||◌, Bool, true, false, arith, Bool-cases, inl,
  inr,
}
use xphone_go.Registry.Defs.{
  Registry, Outcome, Answer, success, exhausted, ctx_done, is_disconnected, is_ok, begin, settle,
  stop, handle_drop, reregistered, refresh,
}
use xphone_go.Registry.Steps.{
  System, Step, Reachable, dropped, initial, after, begins, foreground_settles, start_fails, stops,
  drops, refreshes, background_settles, background_clears,
}

abbrev pub flag : Bool → ℕ
flag false = 0
flag true = 1

-- The flag is set exactly while one background registration has not cleared it, and a registry without a context is disconnected
-- and has nothing to settle.
pub record IsValid (s : System) : Type 0 where
  pub in_flight : s.running + s.settled ≡ flag s.registry.reregistering
  pub has_ctx :
      s.registry.ctx_set ≡ false
      → (is_disconnected s.registry.state ≡ true) × (s.starting ≡ 0) × (s.running ≡ 0)

abbrev running_ctx :
    (s : System) → IsValid s → 0 < s.starting + s.running → s.registry.ctx_set ≡ true
running_ctx s v p = elim (Bool-cases s.registry.ctx_set) [
  | inl e ↦ e
  | inr e ↦ let (d, z, r) = v.has_ctx e in absurd (omega (arith, z, r, p))
]

-- With its context set, a system is valid by its counts.
with_ctx-IsValid :
    (s : System)
    → s.registry.ctx_set ≡ true
    → s.running + s.settled ≡ flag s.registry.reregistering
    → IsValid s
with_ctx-IsValid s c h = record { in_flight = h; has_ctx = λ e. absurd (ground arith) }

drop-IsValid : (s : System) → IsValid s → IsValid (dropped (handle_drop s.registry) s)
unfolding dropped handle_drop
drop-IsValid s v =
    elim (Bool-cases (is_disconnected s.registry.state || s.registry.reregistering)) [
      | inl e ↦ rw (e) v
      | inr e ↦
          let c : s.registry.ctx_set ≡ true = elim (Bool-cases s.registry.ctx_set) [
            | inl c ↦ c
            | inr n ↦ let (d, z, r) = v.has_ctx n in absurd (ground arith)
          ] in
          let f : s.registry.reregistering ≡ false = ground arith in
          let z : s.running + s.settled ≡ 0 = v.in_flight ∙ ap flag f in
          rw (e, c) (record { in_flight = omega (arith, z); has_ctx = λ n. absurd (ground arith) })
    ]

refresh-IsValid : (s : System) (a : Answer) → IsValid s → IsValid (dropped (refresh a s.registry) s)
unfolding refresh dropped
refresh-IsValid s a v = elim (Bool-cases (is_ok a)) [
  | inl e ↦ rw (e) v
  | inr e ↦ rw (e) (drop-IsValid s v)
]

settle-keeps :
    (o : Outcome) (r : Registry)
    → ((settle o r).0.ctx_set ≡ r.ctx_set) × ((settle o r).0.reregistering ≡ r.reregistering)
unfolding settle
settle-keeps success r = (refl, refl)
settle-keeps (exhausted last) r = (refl, refl)
settle-keeps ctx_done r = (refl, refl)

pub Step-IsValid : {s t : System} → Step s t → IsValid s → IsValid t
unfolding begin settle stop reregistered
Step-IsValid (begins s) v = record { in_flight = v.in_flight; has_ctx = λ e. absurd (ground arith) }
Step-IsValid (foreground_settles s n o h) v =
    let (c, f) = settle-keeps o s.registry in
    with_ctx-IsValid (record s { registry = (settle o s.registry).0; starting = n })
      (c ∙ running_ctx s v (omega (arith, h))) (v.in_flight ∙ ap flag (sym f))
Step-IsValid (start_fails s) v = record { in_flight = v.in_flight; has_ctx = v.has_ctx }
Step-IsValid (stops s) v = record {
  in_flight = v.in_flight;
  has_ctx = λ e. let (d, z, r) = v.has_ctx e in (refl, z, r);
}
Step-IsValid (drops s) v = drop-IsValid s v
Step-IsValid (refreshes s a) v = refresh-IsValid s a v
Step-IsValid (background_settles s n o h) v =
    let (c, f) = settle-keeps o s.registry in
    with_ctx-IsValid
      (record s { registry = (settle o s.registry).0; running = n; settled = suc s.settled })
      (c ∙ running_ctx s v (omega (arith, h))) (omega (arith, h, v.in_flight) ∙ ap flag (sym f))
Step-IsValid (background_clears s n h) v =
    let z : s.running + n ≡ 0 = ground (arith, v.in_flight) in
    record { in_flight = z; has_ctx = v.has_ctx }

pub Reachable-IsValid : {s : System} → Reachable s → IsValid s
Reachable-IsValid initial = record { in_flight = refl; has_ctx = λ e. (refl, refl, refl) }
Reachable-IsValid (after r step) = Step-IsValid step (Reachable-IsValid r)

flag_bound : (b : Bool) → flag b ≤ 1
flag_bound false = omega arith
flag_bound true = omega arith

-- In every system that comes from a new registry, at most one background registration has not cleared
-- the flag, and while the flag is set there is one that has not.
pub Reachable-in_flight :
    {s : System}
    → Reachable s
    → (s.running + s.settled ≤ 1) × (s.registry.reregistering ≡ true → 0 < s.running + s.settled)
Reachable-in_flight {s} r =
    let v = Reachable-IsValid r in
    (
      omega (arith, v.in_flight, flag_bound s.registry.reregistering),
      λ e. let one : s.running + s.settled ≡ 1 = v.in_flight ∙ ap flag e in omega (arith, one),
    )
