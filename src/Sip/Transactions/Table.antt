-- ===== src/Sip/Transactions/Table.antt =====
-- internal/sip/transaction.go: the table of pending transactions and the store of channels keep what
-- the dispatch relies on.
use xphone_go.Prelude.{
  ℕ, ◌≤◌, ◌<◌, ◌≡◌, refl, sym, ap, ◌∙◌, Bool, true, false, none, some, List, [], ◌∷◌, ◌++◌, arith,
  ◌==◌, if◌then◌else◌, length, ◌⊎◌, Bool-cases, inl, inr, ==_iff, length-append,
}
use xphone_go.Text.Defs.{Text, equal}
use xphone_go.Text.Cuts.{equal→eq}
use xphone_go.Sip.Message.{Message, is_response, via_branch}
use xphone_go.Sip.Transactions.{
  Manager, new_manager, lookup, delete, write, register, push, remove_tx, stop,
}

-- A queue of responses to the branch.
abbrev pub ForBranch : Text → List Message → Type 0
ForBranch b [] = Unit
ForBranch b (msg ∷ msgs) = (via_branch msg ≡ b) × (is_response msg ≡ true) × ForBranch b msgs

pub record Sound (m : Manager) : Type 0 where
  pub bounded : (i : ℕ) → length (m.channels i) ≤ 8
  pub made : (b : Text) (i : ℕ) → lookup m.pending b ≡ some i → i < m.next
  pub own : (b : Text) (i : ℕ) → lookup m.pending b ≡ some i → ForBranch b (m.channels i)
  pub apart :
      (b c : Text) (i : ℕ) → lookup m.pending b ≡ some i → lookup m.pending c ≡ some i → b ≡ c
  pub closed : m.stopped ≡ true → m.pending ≡ []

lookup-delete :
    (entries : List (Text × ℕ)) (b k : Text)
    → lookup (delete entries b) k ≡ (if equal b k then none else lookup entries k)
unfolding lookup delete
lookup-delete [] b k = ground arith
lookup-delete ((c, j) ∷ entries) b k = elim (Bool-cases (equal c b)) [
  | inl e ↦
      let same : equal c k ≡ equal b k = ap (λ t. equal t k) (equal→eq c b e) in
      ground (arith, lookup-delete entries b k)
  | inr e ↦ elim (Bool-cases (equal b k)) [
    | inl f ↦
        let same : equal c k ≡ false = ap (λ t. equal c t) (sym (equal→eq b k f)) ∙ e in
        ground (arith, lookup-delete entries b k)
    | inr f ↦ ground (arith, lookup-delete entries b k)
  ]
]

lookup-delete_other :
    (entries : List (Text × ℕ)) (b k : Text) (i : ℕ)
    → lookup (delete entries b) k ≡ some i
    → lookup entries k ≡ some i
lookup-delete_other entries b k i h = ground (arith, lookup-delete entries b k)

pub push-bounded :
    (msg : Message) (queue : List Message) → length queue ≤ 8 → length (push msg queue) ≤ 8
push-bounded msg queue h = ground (arith, length-append queue (msg ∷ []))

append-ForBranch :
    (b : Text) (queue : List Message) (msg : Message)
    → ForBranch b queue
    → via_branch msg ≡ b
    → is_response msg ≡ true
    → ForBranch b (queue ++ (msg ∷ []))
append-ForBranch b [] msg f v r = (v, r, tt)
append-ForBranch b (x ∷ queue) msg (xv, xr, f) v r = (xv, xr, append-ForBranch b queue msg f v r)

pub push-ForBranch :
    (b : Text) (queue : List Message) (msg : Message)
    → ForBranch b queue
    → via_branch msg ≡ b
    → is_response msg ≡ true
    → ForBranch b (push msg queue)
push-ForBranch b queue msg f v r = ground (arith, append-ForBranch b queue msg f v r)

pub new_manager-Sound : Sound new_manager
unfolding lookup
new_manager-Sound = record {
  bounded = λ i. omega arith;
  made = λ b i h. ground arith;
  own = λ b i h. ground arith;
  apart = λ b c i h k. ground arith;
  closed = λ h. ground arith;
}

pub remove_tx-Sound : (b : Text) (m : Manager) → Sound m → Sound (remove_tx b m)
unfolding remove_tx delete
remove_tx-Sound b m s = record {
  bounded = s.bounded;
  made = λ c i h. s.made c i (lookup-delete_other m.pending b c i h);
  own = λ c i h. s.own c i (lookup-delete_other m.pending b c i h);
  apart = λ c d i h k.
      s.apart c d i (lookup-delete_other m.pending b c i h) (lookup-delete_other m.pending b d i k);
  closed = λ h. ap (λ p. delete p b) (s.closed h);
}

stopped-Sound : (m : Manager) → Sound m → Sound (record m { stopped = true; pending = [] })
unfolding lookup
stopped-Sound m s = record {
  bounded = s.bounded;
  made = λ b i h. ground arith;
  own = λ b i h. ground arith;
  apart = λ b c i h k. ground arith;
  closed = λ h. refl;
}

either-Sound : (b : Bool) (m n : Manager) → Sound m → Sound n → Sound (if b then m else n)
either-Sound true m n s t = s
either-Sound false m n s t = t

pub stop-Sound : (m : Manager) → Sound m → Sound (stop m)
unfolding stop
stop-Sound m s = either-Sound m.stopped m _ s (stopped-Sound m s)

registered :
    (b c : Text) (n i : ℕ) (entries : List (Text × ℕ))
    → lookup ((b, n) ∷ delete entries b) c ≡ some i
    → ((b ≡ c) × (n ≡ i)) ⊎ (lookup entries c ≡ some i)
unfolding lookup
registered b c n i entries h = elim (Bool-cases (equal b c)) [
  | inl e ↦ inl (equal→eq b c e, ground (arith, e))
  | inr e ↦ inr (lookup-delete_other entries b c i (ground (arith, e)))
]

write_self : (i : ℕ) (q : List Message) (f : ℕ → List Message) → write i q f i ≡ q
write_self i q f = ground arith

write_below : (n i : ℕ) (q : List Message) (f : ℕ → List Message) → i < n → write n q f i ≡ f i
write_below n i q f h = ground arith

write-bounded :
    (j i : ℕ) (q : List Message) (f : ℕ → List Message)
    → length q ≤ 8
    → length (f j) ≤ 8
    → length (write i q f j) ≤ 8
write-bounded j i q f h k = ground arith

pub register-Sound :
    (req : Message) (b : Text) (m : Manager)
    → m.stopped ≡ false
    → Sound m
    → Sound (register req b m).manager
unfolding lookup
register-Sound req b m open_now s = record {
  bounded = λ i. write-bounded i m.next [] m.channels (omega arith) (s.bounded i);
  made = λ c i h. elim (registered b c m.next i m.pending h) [
    | inl (e, f) ↦ omega arith
    | inr k ↦ let old : i < m.next = s.made c i k in omega arith
  ];
  own = λ c i h. elim (registered b c m.next i m.pending h) [
    | inl (e, f) ↦ rw (sym f, write_self m.next [] m.channels) tt
    | inr k ↦ rw (write_below m.next i [] m.channels (s.made c i k)) (s.own c i k)
  ];
  apart = λ c d i h k. elim (registered b c m.next i m.pending h) [
    | inl (e, f) ↦ elim (registered b d m.next i m.pending k) [
      | inl (e2, f2) ↦ sym e ∙ e2
      | inr k2 ↦ let old : i < m.next = s.made d i k2 in absurd (omega arith)
    ]
    | inr h2 ↦ elim (registered b d m.next i m.pending k) [
      | inl (e2, f2) ↦ let old : i < m.next = s.made c i h2 in absurd (omega arith)
      | inr k2 ↦ s.apart c d i h2 k2
    ]
  ];
  closed = λ h. ground arith;
}

-- A channel that gets another queue for its branch.
pub write-Sound :
    (i : ℕ) (q : List Message) (m : Manager)
    → Sound m
    → length q ≤ 8
    → ((b : Text) → lookup m.pending b ≡ some i → ForBranch b q)
    → Sound (record m { channels = write i q m.channels })
write-Sound i q m s h own = record {
  bounded = λ j. write-bounded j i q m.channels h (s.bounded j);
  made = s.made;
  own = λ b j k. elim (Bool-cases (j == i)) [
    | inl e ↦ let same : j ≡ i = (==_iff j i).0 e in rw (e) (own b (k ∙ ap (λ t. some t) same))
    | inr e ↦ rw (e) (s.own b j k)
  ];
  apart = s.apart;
  closed = s.closed;
}
