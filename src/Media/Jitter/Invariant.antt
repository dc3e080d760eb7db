-- ===== src/Media/Jitter/Invariant.antt =====
-- internal/media/jitterbuffer.go: what Push, Pop and Flush keep, and what they return, as long as
-- the sequence numbers held lie in one window of 2 ^ 15.
use xphone_go.Prelude.{
  ℕ, suc, ◌-◌, ◌^◌, ◌≤◌, ◌<◌, ◌≡◌, refl, ap, ◌∙◌, sym, Bool, true, false, ◌||◌, none, some, List,
  [], ◌∷◌, ◌++◌, map, arith, ltb, ◌==◌, if◌then◌else◌, length, Bool-cases, inl, inr, ◌≢◌, ◌⊎◌,
}
use xphone_go.Media.Rtp.{Packet}
use xphone_go.Media.Jitter.Defs.{
  Entry, JitterBuffer, new_jitter_buffer, seq_of, less_at, walk, insert_at, place, push, pop,
  pop_entries, flush, flush_entries, update,
}
use xphone_go.Media.Jitter.Insert.{
  InWindow, Ascends, Ascends-weaken, has_seq, off, insert_by, insert_at-walk, insert_by-Ascends,
  has_seq-insert_by,
}

-- Sorted by sequence number, without duplicates, and `seen` is the set of the numbers held.
pub record IsValid (base : ℕ) (jb : JitterBuffer) : Type 0 where
  pub sorted : Ascends base 0 jb.entries
  pub tracked : (k : ℕ) → jb.seen k ≡ has_seq jb.entries k

pub new-IsValid : (base depth : ℕ) → IsValid base (new_jitter_buffer depth)
new-IsValid base depth = record { sorted = tt; tracked = λ k. refl }

abbrev pub entry_of : ℕ → Packet → Entry
entry_of now pkt = record { pkt = pkt; arrival = now }

append_last : (xs : List Entry) (e : Entry) → insert_at xs (length xs) e ≡ xs ++ (e ∷ [])
append_last [] e = refl
append_last (x ∷ xs) e = ap (λ t. x ∷ t) (append_last xs e)

-- The fast path is the walk that stops at once.
fast_path :
    (xs : List Entry) (e : Entry)
    → less_at xs (length xs - 1) (seq_of e) ≡ true
    → xs ++ (e ∷ []) ≡ insert_at xs (walk xs (seq_of e) (length xs)) e
unfolding walk
fast_path [] e h = refl
fast_path (x ∷ xs) e h =
    let last : suc (length xs) - 1 ≡ length xs = omega arith in
    rw (rw last at h) (sym (append_last (x ∷ xs) e))

place-walk :
    (xs : List Entry) (e : Entry) → place xs e ≡ insert_at xs (walk xs (seq_of e) (length xs)) e
unfolding place
place-walk [] e = unfold walk in refl
place-walk (x ∷ xs) e = elim (Bool-cases (less_at (x ∷ xs) (length (x ∷ xs) - 1) (seq_of e))) [
  | inl fast ↦ rw (nonempty, fast) (fast_path (x ∷ xs) e fast)
  | inr slow ↦ rw (nonempty, slow)
]
  where
    nonempty : (length (x ∷ xs) == 0) ≡ false
    nonempty = ground arith

module _ (base : ℕ) (jb : JitterBuffer) (now : ℕ) (pkt : Packet) (b16 : base < 2 ^ 16)
    (v : IsValid base jb) where
  new_seq : jb.seen pkt.sequence_number ≡ false → has_seq jb.entries pkt.sequence_number ≡ false
  new_seq h = sym (v.tracked pkt.sequence_number) ∙ h

  -- Where the buffer is valid for the window of 2 ^ 15 numbers from `base`, and the number of the
  -- packet is in this window: Push drops a packet whose sequence number is held, and puts any other
  -- where a search from the front puts it, by the distance from `base`.
  pub push-entries :
      InWindow base (entry_of now pkt)
      → (push jb now pkt).entries ≡ (
          if jb.seen pkt.sequence_number
          then jb.entries
          else insert_by base (entry_of now pkt) jb.entries)
  unfolding push
  push-entries q = elim (Bool-cases (jb.seen pkt.sequence_number)) [
    | inl held ↦ rw held
    | inr new ↦ rw new (
        place-walk jb.entries (entry_of now pkt)
        ∙ insert_at-walk base b16 jb.entries (entry_of now pkt) 0 q v.sorted (new_seq new))
  ]

  push_seen :
      jb.seen pkt.sequence_number ≡ false
      → (k : ℕ) → (push jb now pkt).seen k ≡ ((pkt.sequence_number == k) || has_seq jb.entries k)
  unfolding push
  push_seen new k = ground (arith, v.tracked k)

  -- Push keeps the entries sorted and without duplicates, and the set of numbers exact.
  pub push-IsValid : InWindow base (entry_of now pkt) → IsValid base (push jb now pkt)
  push-IsValid q = elim (Bool-cases (jb.seen pkt.sequence_number)) [
    | inl held ↦ unfold push in rw held v
    | inr new ↦ record {
      sorted =
          rw (push-entries q, new)
            (insert_by-Ascends base b16 jb.entries (entry_of now pkt) 0 q (omega arith) v.sorted
              (new_seq new));
      tracked = λ k.
          rw (push-entries q, new)
            (push_seen new k ∙ sym (has_seq-insert_by base jb.entries (entry_of now pkt) k));
    }
  ]

-- No entry of a sorted list has the number of an entry before it.
Ascends-absent :
    (base : ℕ) (ys : List Entry) (e : Entry) (lo : ℕ)
    → off base e < lo
    → Ascends base lo ys
    → has_seq ys (seq_of e) ≡ false
Ascends-absent base [] e lo lt a = refl
Ascends-absent base (y ∷ ys) e lo lt (le, p, a) =
    ground (arith, Ascends-absent base ys e (suc (off base y)) (omega arith) a)

pop_tracked :
    (base : ℕ) (e : Entry) (rest : List Entry) (seen : ℕ → Bool) (k : ℕ)
    → Ascends base (suc (off base e)) rest
    → seen k ≡ has_seq (e ∷ rest) k
    → update seen (seq_of e) false k ≡ has_seq rest k
pop_tracked base e rest seen k a h =
    ground (arith, Ascends-absent base rest e (suc (off base e)) (omega arith) a)

-- Pop returns the packet that is first in sequence order, once its arrival lies `depth` back, and
-- removes it from the entries and from `seen`; otherwise it changes nothing.
pub pop_lem :
    (base : ℕ) (jb : JitterBuffer) (now : ℕ)
    → IsValid base jb
    → (((pop jb now).1 ≡ none) × ((pop jb now).0 ≡ jb))
      ⊎ ((e : Entry) × (jb.entries ≡ e ∷ (pop jb now).0.entries)
          × ((pop jb now).1 ≡ some e.pkt)
          × (jb.depth ≤ now - e.arrival)
          × Ascends base (suc (off base e)) (pop jb now).0.entries)
unfolding pop
pop_lem base jb now v = go jb.entries refl
  where
    go :
        (es : List Entry)
        → jb.entries ≡ es
        → (((pop_entries jb now es).1 ≡ none) × ((pop_entries jb now es).0 ≡ jb))
          ⊎ ((e : Entry) × (jb.entries ≡ e ∷ (pop_entries jb now es).0.entries)
              × ((pop_entries jb now es).1 ≡ some e.pkt)
              × (jb.depth ≤ now - e.arrival)
              × Ascends base (suc (off base e)) (pop_entries jb now es).0.entries)
    go [] h = inl (refl, refl)
    go (e ∷ rest) h = elim (Bool-cases (ltb (now - e.arrival) jb.depth)) [
      | inl early ↦ rw early (inl (refl, refl))
      | inr due ↦ rw due (inr (e, h, refl, ground arith, (rw h at v.sorted).2))
    ]

pop_entries-IsValid :
    (base : ℕ) (jb : JitterBuffer) (now : ℕ) (es : List Entry)
    → jb.entries ≡ es
    → IsValid base jb
    → IsValid base (pop_entries jb now es).0
pop_entries-IsValid base jb now [] h v = v
pop_entries-IsValid base jb now (e ∷ rest) h v =
    elim (Bool-cases (ltb (now - e.arrival) jb.depth)) [
      | inl early ↦ rw early v
      | inr due ↦
          let (le, q, a) = rw h at v.sorted in
          rw due (record {
            sorted = Ascends-weaken base rest 0 (suc (off base e)) (omega arith) a;
            tracked = λ k. pop_tracked base e rest jb.seen k a (rw h at (v.tracked k));
          })
    ]

pub pop-IsValid :
    (base : ℕ) (jb : JitterBuffer) (now : ℕ) → IsValid base jb → IsValid base (pop jb now).0
unfolding pop
pop-IsValid base jb now v = pop_entries-IsValid base jb now jb.entries refl v

-- Flush returns every packet held, in sequence order, and leaves a buffer that is as good as new:
-- it is valid for every window.
pub flush_lem :
    (base base' : ℕ) (jb : JitterBuffer)
    → IsValid base jb
    → ((flush jb).1 ≡ map (λ e. e.pkt) jb.entries) × IsValid base' (flush jb).0
unfolding flush
flush_lem base base' jb v = go jb.entries refl
  where
    go :
        (es : List Entry)
        → jb.entries ≡ es
        → ((flush_entries jb es).1 ≡ map (λ e. e.pkt) es) × IsValid base' (flush_entries jb es).0
    go [] h = (refl, record { sorted = rw h tt; tracked = λ k. v.tracked k ∙ rw h })
    go (e ∷ rest) h = (refl, record { sorted = tt; tracked = λ k. refl })

pub insert_by_comm :
    (base : ℕ) (a b : Entry) (xs : List Entry)
    → off base a ≢ off base b
    → insert_by base a (insert_by base b xs) ≡ insert_by base b (insert_by base a xs)
unfolding insert_by
insert_by_comm base a b [] d = ground arith
insert_by_comm base a b (x ∷ xs) d = ground (arith, insert_by_comm base a b xs d)
