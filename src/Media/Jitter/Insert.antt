-- ===== src/Media/Jitter/Insert.antt =====
-- internal/media/jitterbuffer.go, Push: the fast path and the walk from the tail put an entry where
-- a search from the front would.
use xphone_go.Prelude.{
  ℕ, zero, suc, ◌^◌, ◌≤◌, ◌<◌, ◌≡◌, ◌≢◌, refl, ap, ◌∙◌, Bool, true, false, ◌||◌, List, [], ◌∷◌,
  arith, ltb, ◌==◌, if◌then◌else◌, length, Bool-cases, inl, inr,
}
use xphone_go.Media.Jitter.Defs.{Entry, seq_of, seq_less, less_at, walk, insert_at}
use xphone_go.Media.Jitter.Order.{offset, seq_less-offset}

abbrev pub has_seq : List Entry → ℕ → Bool
has_seq [] k = false
has_seq (e ∷ es) k = (seq_of e == k) || has_seq es k

-- The offset of an entry from the start of the window, and the reference: insertion from the front.
abbrev pub off : ℕ → Entry → ℕ
off base e = offset base (seq_of e)

unfoldable pub insert_by : ℕ → Entry → List Entry → List Entry
insert_by base e [] = e ∷ []
insert_by base e (x ∷ xs) =
    if ltb (off base x) (off base e) then x ∷ insert_by base e xs else e ∷ (x ∷ xs)

-- An entry whose sequence number lies in the window that starts at `base`.
pub record InWindow (base : ℕ) (e : Entry) : Type 0 where
  pub seq16 : seq_of e < 2 ^ 16
  pub near : off base e < 0x8000

-- Entries of the window with offsets that grow, from `lo` on.
abbrev pub Ascends : ℕ → ℕ → List Entry → Type 0
Ascends base lo [] = Unit {0}
Ascends base lo (e ∷ es) = (lo ≤ off base e) × InWindow base e × Ascends base (suc (off base e)) es

pub Ascends-weaken :
    (base : ℕ) (xs : List Entry) (lo hi : ℕ) → lo ≤ hi → Ascends base hi xs → Ascends base lo xs
Ascends-weaken base [] lo hi le a = a
Ascends-weaken base (x ∷ xs) lo hi le (b, p, a) = (omega arith, p, a)

cons_walk : Bool → ℕ → ℕ
cons_walk b zero = if b then 1 else 0
cons_walk b (suc k) = suc (suc k)

walk-cons :
    (x : Entry) (xs : List Entry) (s i : ℕ)
    → walk (x ∷ xs) s (suc i) ≡ cons_walk (seq_less (seq_of x) s) (walk xs s i)
unfolding walk cons_walk
walk-cons x xs s zero = refl
walk-cons x xs s (suc i) = ground (arith, walk-cons x xs s i)

insert_at-cons :
    (x : Entry) (xs : List Entry) (e : Entry) (k : ℕ)
    → insert_at (x ∷ xs) (cons_walk true k) e ≡ x ∷ insert_at xs k e
unfolding cons_walk
insert_at-cons x xs e zero = refl
insert_at-cons x xs e (suc k) = refl

module _ (base : ℕ) (base16 : base < 2 ^ 16) where
  less-InWindow :
      (x e : Entry)
      → InWindow base x
      → InWindow base e
      → seq_less (seq_of x) (seq_of e) ≡ ltb (off base x) (off base e)
  less-InWindow x e p q =
      seq_less-offset base (seq_of x) (seq_of e) base16 p.seq16 q.seq16 p.near q.near

  -- Behind an entry that is not before `e` the walk stops at once.
  less_at_above :
      (xs : List Entry) (e : Entry) (i : ℕ)
      → InWindow base e
      → Ascends base (off base e) xs
      → less_at xs i (seq_of e) ≡ false
  less_at_above [] e i q a = refl
  less_at_above (x ∷ xs) e zero q (le, p, a) = ground (arith, less-InWindow x e p q)
  less_at_above (x ∷ xs) e (suc i) q (le, p, a) =
      less_at_above xs e i q (Ascends-weaken base xs (off base e) (suc (off base x)) le' a)
    where
      le' : off base e ≤ suc (off base x)
      le' = omega arith

  walk-above :
      (xs : List Entry) (e : Entry) (n : ℕ)
      → InWindow base e
      → Ascends base (off base e) xs
      → walk xs (seq_of e) n ≡ 0
  unfolding walk
  walk-above xs e zero q a = refl
  walk-above xs e (suc n) q a = rw (less_at_above xs e n q a) (walk-above xs e n q a)

  off_ne :
      (x e : Entry)
      → InWindow base x
      → InWindow base e
      → (seq_of x == seq_of e) ≡ false
      → off base x ≢ off base e
  off_ne x e p q d h = ground arith

  -- The walk from the tail finds the place that a search from the front finds.
  pub insert_at-walk :
      (xs : List Entry) (e : Entry) (lo : ℕ)
      → InWindow base e
      → Ascends base lo xs
      → has_seq xs (seq_of e) ≡ false
      → insert_at xs (walk xs (seq_of e) (length xs)) e ≡ insert_by base e xs
  unfolding insert_by
  insert_at-walk [] e lo q a new = unfold walk in refl
  insert_at-walk (x ∷ xs) e lo q (le, p, a) new =
      elim (Bool-cases (ltb (off base x) (off base e))) [
        | inl before ↦
            let first : seq_less (seq_of x) (seq_of e) ≡ true = less-InWindow x e p q ∙ before in
            let rest : insert_at xs (walk xs (seq_of e) (length xs)) e ≡ insert_by base e xs =
              insert_at-walk xs e (suc (off base x)) q a (ground arith) in
            rw (walk-cons x xs (seq_of e) (length xs), first, before)
              (insert_at-cons x xs e (walk xs (seq_of e) (length xs)) ∙ ap (λ t. x ∷ t) rest)
        | inr after ↦
            let first : seq_less (seq_of x) (seq_of e) ≡ false = less-InWindow x e p q ∙ after in
            let stop : walk xs (seq_of e) (length xs) ≡ 0 =
              walk-above xs e (length xs) q
                (Ascends-weaken base xs (off base e) (suc (off base x)) (ground arith) a) in
            rw (walk-cons x xs (seq_of e) (length xs), first, after, stop)
              (unfold cons_walk in refl)
      ]

  -- Insertion keeps the order, and adds one sequence number.
  pub insert_by-Ascends :
      (xs : List Entry) (e : Entry) (lo : ℕ)
      → InWindow base e
      → lo ≤ off base e
      → Ascends base lo xs
      → has_seq xs (seq_of e) ≡ false
      → Ascends base lo (insert_by base e xs)
  unfolding insert_by
  insert_by-Ascends [] e lo q h a new = (h, q, tt)
  insert_by-Ascends (x ∷ xs) e lo q h (le, p, a) new =
      elim (Bool-cases (ltb (off base x) (off base e))) [
        | inl before ↦
            rw before
              (le, p, insert_by-Ascends xs e (suc (off base x)) q (ground arith) a (ground arith))
        | inr after ↦
            let above : off base e < off base x = ground (arith, off_ne x e p q) in
            rw after (h, q, (above, p, a))
      ]

pub has_seq-insert_by :
    (base : ℕ) (xs : List Entry) (e : Entry) (k : ℕ)
    → has_seq (insert_by base e xs) k ≡ ((seq_of e == k) || has_seq xs k)
unfolding insert_by
has_seq-insert_by base [] e k = refl
has_seq-insert_by base (x ∷ xs) e k = ground (arith, has_seq-insert_by base xs e k)
