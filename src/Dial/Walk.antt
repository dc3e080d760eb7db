-- ===== src/Dial/Walk.antt =====
-- dial_failover.go: the candidates that calling next again and again gives.
use xphone_go.Prelude.{
  ℕ, zero, suc, ◌≤◌, ◌≡◌, refl, sym, ap, ◌∙◌, Option, none, some, List, [], ◌∷◌, ◌++◌, arith,
  if◌then◌else◌, length, append_assoc, append-nil, Bool-cases, inl, inr,
}
use xphone_go.Text.Defs.{Text}
use xphone_go.Dial.Candidates.{
  DialCandidate, HostPortEntry, DialCandidateIter, NetNames, seen, key, push, push_each, expand,
  next, next_from,
}

-- The candidates whose key is neither in the list nor that of an earlier one.
unfoldable pub fresh : List Text → List DialCandidate → List DialCandidate
fresh ks [] = []
fresh ks (c ∷ cs) =
    let skipped = fresh ks cs in
    let kept = fresh (key c ∷ ks) cs in if seen ks (key c) then skipped else c ∷ kept

unfoldable seen_after : List Text → List DialCandidate → List Text
seen_after ks [] = ks
seen_after ks (c ∷ cs) =
    let skipped = seen_after ks cs in
    let kept = seen_after (key c ∷ ks) cs in if seen ks (key c) then skipped else kept

fresh-append :
    (ks : List Text) (cs ds : List DialCandidate)
    → fresh ks (cs ++ ds) ≡ fresh ks cs ++ fresh (seen_after ks cs) ds
unfolding fresh seen_after
fresh-append ks [] ds = refl
fresh-append ks (c ∷ cs) ds = elim (Bool-cases (seen ks (key c))) [
  | inl e ↦ rw (e) (fresh-append ks cs ds)
  | inr e ↦ rw (e) (ap (λ t. c ∷ t) (fresh-append (key c ∷ ks) cs ds))
]

push_each-fresh :
    (it : DialCandidateIter) (cs : List DialCandidate)
    → push_each it cs ≡ record it {
      queue = it.queue ++ fresh it.seen_pair cs;
      seen_pair = seen_after it.seen_pair cs;
    }
unfolding push_each push fresh seen_after
push_each-fresh it [] = rw (append-nil it.queue) refl
push_each-fresh it (c ∷ cs) = elim (Bool-cases (seen it.seen_pair (key c))) [
  | inl e ↦ rw (e) (push_each-fresh it cs)
  | inr e ↦
      rw
        (
          e,
          push_each-fresh
              (record it { seen_pair = key c ∷ it.seen_pair; queue = it.queue ++ (c ∷ []) }) cs,
          append_assoc it.queue (c ∷ []) (fresh (key c ∷ it.seen_pair) cs),
        )
        refl
]

empty_list : (cs : List DialCandidate) → length cs ≤ 0 → cs ≡ []
empty_list [] h = refl
empty_list (c ∷ cs) h = absurd (omega arith)

module _ (net : NetNames) where
  -- Every candidate of the entries, in their order.
  unfoldable pub expand_all : List HostPortEntry → List DialCandidate
  expand_all [] = []
  expand_all (e ∷ es) = expand net e ++ expand_all es

  -- What an iterator has still to give.
  unfoldable pub pending : DialCandidateIter → List DialCandidate
  unfolding expand_all fresh
  pending it = it.queue ++ fresh it.seen_pair (expand_all it.entries)

  unfoldable pub pending_after : Option (DialCandidate × DialCandidateIter) → List DialCandidate
  unfolding pending
  pending_after none = []
  pending_after (some (c, it)) = c ∷ pending it

  next_from-pending :
      (entries : List HostPortEntry) (queue : List DialCandidate) (ks : List Text)
      → pending_after (next_from net entries queue ks) ≡ queue ++ fresh ks (expand_all entries)
  unfolding next_from pending_after expand_all fresh
  next_from-pending [] [] ks = refl
  next_from-pending [] (c ∷ queue) ks = refl
  next_from-pending (e ∷ entries) [] ks =
      let it : DialCandidateIter = record { entries = entries; queue = []; seen_pair = ks } in
      let it' = push_each it (expand net e) in
      next_from-pending entries it'.queue it'.seen_pair
      ∙ rw (push_each-fresh it (expand net e))
          (sym (fresh-append ks (expand net e) (expand_all entries)))
  next_from-pending (e ∷ entries) (c ∷ queue) ks = refl

  -- The candidates that next gives, call after call, until there is none.
  unfoldable pub walk : ℕ → DialCandidateIter → List DialCandidate
  unfolding next
  walk zero it = []
  walk (suc fuel) it = elim (next net it) [ none ↦ [] | some (c, it') ↦ c ∷ walk fuel it' ]

  walk-pending_after :
      (fuel : ℕ) (r : Option (DialCandidate × DialCandidateIter))
      → length (pending_after r) ≤ suc fuel
      → ((it : DialCandidateIter) → length (pending it) ≤ fuel → walk fuel it ≡ pending it)
      → elim r [ none ↦ [] | some (c, it') ↦ c ∷ walk fuel it' ] ≡ pending_after r
  unfolding pending_after
  walk-pending_after fuel none h ih = refl
  walk-pending_after fuel (some (c, it)) h ih = ap (λ t. c ∷ t) (ih it (omega arith))

  next-pending : (it : DialCandidateIter) → pending_after (next net it) ≡ pending it
  unfolding next pending
  next-pending it = next_from-pending it.entries it.queue it.seen_pair

  walk-pending :
      (fuel : ℕ) (it : DialCandidateIter) → length (pending it) ≤ fuel → walk fuel it ≡ pending it
  unfolding walk
  walk-pending zero it h = sym (empty_list (pending it) (omega (arith, h)))
  walk-pending (suc fuel) it h =
      walk-pending_after fuel (next net it) (rw (next-pending it) h) (walk-pending fuel)
      ∙ next-pending it

  fresh-length : (ks : List Text) (cs : List DialCandidate) → length (fresh ks cs) ≤ length cs
  unfolding fresh
  fresh-length ks [] = omega arith
  fresh-length ks (c ∷ cs) = elim (Bool-cases (seen ks (key c))) [
    | inl e ↦ rw (e) (omega (arith, fresh-length ks cs))
    | inr e ↦ rw (e) (omega (arith, fresh-length (key c ∷ ks) cs))
  ]

  -- Take at least as many calls of next as the entries expand to candidates, of which a host that does
  -- not resolve to an IPv4 address has one, without an address. The calls up to the first that
  -- reports none give every candidate of the entries in their order, each pair of URI host and
  -- destination once.
  pub walk-expand_all :
      (fuel : ℕ) (entries : List HostPortEntry)
      → length (expand_all entries) ≤ fuel
      → walk fuel (record { entries = entries; queue = []; seen_pair = [] })
        ≡ fresh [] (expand_all entries)
  unfolding pending
  walk-expand_all fuel entries h =
      walk-pending fuel (record { entries = entries; queue = []; seen_pair = [] })
        (omega (arith, h, fresh-length [] (expand_all entries)))
