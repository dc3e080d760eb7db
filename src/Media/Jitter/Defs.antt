-- ===== src/Media/Jitter/Defs.antt =====
-- internal/media/jitterbuffer.go. `seen` is the map with `false` for a missing key, the clock is an
-- argument of Push and Pop, and time.Since is the difference to it. The backing array (the
-- zeroed slot, the compaction) has no part in the contents and is not modelled.
use xphone_go.Prelude.{
  ℕ, zero, suc, ◌+◌, ◌-◌, ◌%◌, ◌^◌, Bool, true, false, ◌&&◌, Option, none, some, List, [], ◌∷◌,
  ◌++◌, map, ltb, ◌==◌, if◌then◌else◌, length, get_elem?, take, drop,
}
use xphone_go.Media.Rtp.{Packet}

-- seqLess: `b - a` on uint16.
unfoldable pub seq_less : ℕ → ℕ → Bool
seq_less a b = let diff = (b + 2 ^ 16 - a) % 2 ^ 16 in ltb 0 diff && ltb diff 0x8000

pub record Entry : Type 0 where
  pub pkt : Packet
  pub arrival : ℕ

abbrev pub seq_of : Entry → ℕ
seq_of e = e.pkt.sequence_number

pub record JitterBuffer : Type 0 where
  pub depth : ℕ
  pub entries : List Entry
  pub seen : ℕ → Bool

abbrev pub new_jitter_buffer : ℕ → JitterBuffer
new_jitter_buffer depth = record { depth = depth; entries = []; seen = λ _. false }

-- A write to the map, `delete` being a write of `false`.
abbrev pub update : (ℕ → Bool) → ℕ → Bool → ℕ → Bool
update seen k v j = if j == k then v else seen j

-- `!seqLess(entries[i].seq, seq)` of the walk; the index is always in range.
abbrev pub less_at : List Entry → ℕ → ℕ → Bool
less_at entries i seq = elim (get_elem? entries i) [
  | none ↦ false
  | some e ↦ seq_less (seq_of e) seq
]

-- The loop that moves `insertAt` towards the front.
unfoldable pub walk : List Entry → ℕ → ℕ → ℕ
walk entries seq zero = zero
walk entries seq (suc i) = if less_at entries i seq then suc i else walk entries seq i

-- slices.Insert.
abbrev pub insert_at : List Entry → ℕ → Entry → List Entry
insert_at entries i e = take i entries ++ (e ∷ drop i entries)

-- What Push does to the entries: append to an empty buffer and on the fast path, else insert.
unfoldable pub place : List Entry → Entry → List Entry
place entries entry =
    let n = length entries in
    if n == 0
    then entries ++ (entry ∷ [])
    else if less_at entries (n - 1) (seq_of entry)
    then entries ++ (entry ∷ [])
    else insert_at entries (walk entries (seq_of entry) n) entry

unfoldable pub push : JitterBuffer → ℕ → Packet → JitterBuffer
push jb now pkt =
    let seq = pkt.sequence_number in
    let entry : Entry = record { pkt = pkt; arrival = now } in
    if jb.seen seq
    then jb
    else record jb { seen = update jb.seen seq true; entries = place jb.entries entry }

abbrev pub pop_entries : JitterBuffer → ℕ → List Entry → JitterBuffer × Option Packet
pop_entries jb now [] = (jb, none)
pop_entries jb now (e ∷ rest) =
    if ltb (now - e.arrival) jb.depth
    then (jb, none)
    else (record jb { seen = update jb.seen (seq_of e) false; entries = rest }, some e.pkt)

unfoldable pub pop : JitterBuffer → ℕ → JitterBuffer × Option Packet
pop jb now = pop_entries jb now jb.entries

abbrev pub flush_entries : JitterBuffer → List Entry → JitterBuffer × List Packet
flush_entries jb [] = (jb, [])
flush_entries jb (e ∷ rest) =
    (record jb { entries = []; seen = λ _. false }, map (λ x. x.pkt) (e ∷ rest))

unfoldable pub flush : JitterBuffer → JitterBuffer × List Packet
flush jb = flush_entries jb jb.entries
