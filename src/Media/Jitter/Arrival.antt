-- ===== src/Media/Jitter/Arrival.antt =====
-- internal/media/jitterbuffer.go: the order in which packets arrive does not matter.
use xphone_go.Prelude.{ℕ, ◌^◌, ◌<◌, ◌≡◌, ◌≢◌, ◌∙◌, false, arith, ◌==◌, if◌then◌else◌}
use xphone_go.Media.Rtp.{Packet}
use xphone_go.Media.Jitter.Defs.{JitterBuffer, push}
use xphone_go.Media.Jitter.Insert.{InWindow, off, insert_by}
use xphone_go.Media.Jitter.Invariant.{IsValid, entry_of, push-entries, push-IsValid, insert_by_comm}

seen_other :
    (jb : JitterBuffer) (t : ℕ) (p : Packet) (k : ℕ)
    → (p.sequence_number == k) ≡ false
    → (push jb t p).seen k ≡ jb.seen k
unfolding push
seen_other jb t p k d = ground arith

module _ (base : ℕ) (jb : JitterBuffer) (t u : ℕ) (p q : Packet) (b16 : base < 2 ^ 16)
    (v : IsValid base jb) (wp : InWindow base (entry_of t p))
    (wq : InWindow base (entry_of u q)) where
  -- The result of two pushes, in terms of the reference.
  two_pushes :
      (p.sequence_number == q.sequence_number) ≡ false
      → (push (push jb t p) u q).entries ≡ (
          if jb.seen q.sequence_number
          then (push jb t p).entries
          else insert_by base (entry_of u q) (push jb t p).entries)
  two_pushes d =
      push-entries base (push jb t p) u q b16 (push-IsValid base jb t p b16 v wp) wq
      ∙ rw (seen_other jb t p q.sequence_number d)

-- Where the buffer is valid for the window of 2 ^ 15 numbers from `base`, and the numbers of two packets
-- are in this window and different: the two leave the same entries, whichever is pushed first.
pub push_comm :
    (base : ℕ) (jb : JitterBuffer) (t u : ℕ) (p q : Packet)
    → base < 2 ^ 16
    → IsValid base jb
    → InWindow base (entry_of t p)
    → InWindow base (entry_of u q)
    → p.sequence_number ≢ q.sequence_number
    → (push (push jb t p) u q).entries ≡ (push (push jb u q) t p).entries
push_comm base jb t u p q b16 v wp wq d =
    let pq : (p.sequence_number == q.sequence_number) ≡ false = ground arith in
    let qp : (q.sequence_number == p.sequence_number) ≡ false = ground arith in
    ground (
      arith,
      two_pushes base jb t u p q b16 v wp wq pq,
      two_pushes base jb u t q p b16 v wq wp qp,
      push-entries base jb t p b16 v wp,
      push-entries base jb u q b16 v wq,
      insert_by_comm base (entry_of t p) (entry_of u q) jb.entries (offs d),
    )
  where
    offs : p.sequence_number ≢ q.sequence_number → off base (entry_of t p) ≢ off base (entry_of u q)
    offs d h = d (omega (arith, wp.seq16, wq.seq16))
