-- ===== src/Registry/Retries.antt =====
-- registry.go: which answers make a registration succeed.
use xphone_go.Prelude.{
  ℕ, zero, suc, ◌+◌, ◌≤◌, ◌<◌, ◌≡◌, ◌↔◌, refl, sym, Bool, true, false, not, ◌&&◌, Option, none,
  some, arith, ltb, Bool-cases, inl, inr, ◌⊎◌,
}
use xphone_go.Registry.Defs.{Answer, success, is_ok, attempts, run_attempts}

eq_or_later : (k j : ℕ) → k ≤ j → (k ≡ j) ⊎ (k + 1 ≤ j)
eq_or_later k j le = elim (Bool-cases (ltb k j)) [
  | inl e ↦ inr (ground arith)
  | inr e ↦ inl (ground arith)
]

module _ (waits : ℕ → Bool) (answer : ℕ → Answer) where
  -- The wait before every attempt from one to another ends; there is none before the first attempt of all.
  abbrev pub Waited : ℕ → ℕ → Type 0
  Waited k i = (j : ℕ) → 0 < j → k ≤ j → j ≤ i → waits j ≡ true

  abbrev blocked : ℕ → Bool
  blocked k = ltb 0 k && not (waits k)

  waits_here : (k : ℕ) → blocked k ≡ false → 0 < k → waits k ≡ true
  waits_here k e p = ground arith

  -- One attempt more, at the front.
  Waited-suc : (k i : ℕ) → blocked k ≡ false → Waited (k + 1) i → Waited k i
  Waited-suc k i e w j p le li = elim (eq_or_later k j le) [
    | inl same ↦ rw (sym same) (waits_here k e (omega (arith, same, p)))
    | inr later ↦ w j p later li
  ]

  attempts-success :
      (left k : ℕ) (last : Option Answer)
      → attempts waits answer k left last ≡ success
      → (i : ℕ) × (k ≤ i) × (i < k + left) × (is_ok (answer i) ≡ true) × Waited k i
  unfolding attempts
  attempts-success zero k last h = absurd (ground arith)
  attempts-success (suc left) k last h = elim (Bool-cases (blocked k)) [
    | inl b ↦ absurd (ground arith)
    | inr b ↦ elim (Bool-cases (is_ok (answer k))) [
      | inl ok ↦ (
        k,
        omega arith,
        omega arith,
        ok,
        λ j p le li.
            let same : k ≡ j = omega arith in
            rw (sym same) (waits_here k b (omega (arith, same, p))),
      )
      | inr failed ↦
          let (i, le, lt, ok, w) = attempts-success left (k + 1) (some (answer k)) (ground arith) in
          (i, omega arith, omega arith, ok, Waited-suc k i b w)
    ]
  ]

  success-attempts :
      (left k i : ℕ) (last : Option Answer)
      → k ≤ i
      → i < k + left
      → is_ok (answer i) ≡ true
      → Waited k i
      → attempts waits answer k left last ≡ success
  unfolding attempts
  success-attempts zero k i last le lt ok w = absurd (omega arith)
  success-attempts (suc left) k i last le lt ok w = elim (Bool-cases (blocked k)) [
    | inl b ↦
        let waited : 0 < k → waits k ≡ true = (λ p. w k p (omega arith) le) in absurd (ground arith)
    | inr b ↦ elim (Bool-cases (is_ok (answer k))) [
      | inl here ↦ rw (b, here) refl
      | inr failed ↦
          let later : k + 1 ≤ i = elim (eq_or_later k i le) [
            | inl same ↦ absurd (ground arith)
            | inr l ↦ l
          ] in
          rw (b, failed)
            (success-attempts left (k + 1) i (some (answer k)) later (omega arith) ok
              (λ j p l li. w j p (omega arith) li))
    ]
  ]

  -- The attempts succeed exactly if one of the first `max_retry` is answered with 200 and every wait before it ends before the context does.
  pub run_attempts-success :
      (max_retry : ℕ)
      → (run_attempts waits answer max_retry ≡ success)
        ↔ ((i : ℕ) × (i < max_retry) × (is_ok (answer i) ≡ true) × Waited 0 i)
  unfolding run_attempts
  run_attempts-success max_retry = (
    λ h. let (i, le, lt, ok, w) = attempts-success max_retry 0 none h in (i, omega arith, ok, w),
    λ p.
        let (i, lt, ok, w) = p in
        success-attempts max_retry 0 i none (omega arith) (omega arith) ok w,
  )
