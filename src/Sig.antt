-- ===== src/Sig.antt =====
-- The sig-first subscription of pulse.go: the sequence watermark, the bounded queue between the drain
-- goroutine and `Next`, and the interleavings of the two.
pub mod Gaps
pub mod Queue
pub mod Drain
pub mod Window
use pulse_go.Base.{
  ℕ, zero, suc, ◌+◌, ◌-◌, ◌%◌, ◌^◌, ◌≡◌, ◌≢◌, Bool, true, false, Option, none, some, List, [], ◌∷◌,
  ◌++◌, length, ltb, ◌==◌, if◌then◌else◌,
}
use pulse_go.Errors.{Error, eof, map_error}
use pulse_go.Go.{Result, ok, err, panic}
use pulse_go.Wire.Datagram.{
  SigFirst, DatagramHeartbeat, Datagram, sig_first, heartbeat, unknown_datagram, decode_datagram,
}

abbrev pub no_seq_assigned : ℕ
no_seq_assigned = 2 ^ 64 - 1

pub record SigFirstItem : Type 0 where
  pub slot : ℕ
  pub seq : ℕ
  pub signature : List ℕ

-- `lastSeq`, `haveLast` and `gaps`.
pub record Marks : Type 0 where
  pub last_seq : ℕ
  pub have_last : Bool
  pub gaps : ℕ

abbrev pub sat_add1 : ℕ → ℕ
sat_add1 x = if x == no_seq_assigned then x else (x + 1) % 2 ^ 64

abbrev pub sat_sub_u64 : ℕ → ℕ → ℕ
sat_sub_u64 a b = if ltb a b then 0 else a - b

unfoldable pub note_item_seq : ℕ → Marks → Marks
note_item_seq seq m =
    if m.have_last
    then record {
      last_seq = if ltb m.last_seq seq then seq else m.last_seq;
      have_last = true;
      gaps = (m.gaps + sat_sub_u64 seq (sat_add1 m.last_seq)) % 2 ^ 64;
    }
    else record { last_seq = seq; have_last = true; gaps = m.gaps }

unfoldable pub note_heartbeat_seq : ℕ → Marks → Marks
note_heartbeat_seq highest_seq m =
    if highest_seq == no_seq_assigned
    then m
    else (if m.have_last
        then (if ltb m.last_seq highest_seq
            then record {
              last_seq = highest_seq;
              have_last = true;
              gaps = (m.gaps + (highest_seq - m.last_seq)) % 2 ^ 64;
            }
            else m)
        else record { last_seq = highest_seq; have_last = true; gaps = m.gaps })

-- Where the drain goroutine stands: in `recv`, at one of the three `select`s of `push`, or returned
-- with `s.err` set and the channel closed.
pub data Phase : Type 0 where
  receiving : Phase
  sending : SigFirstItem → Phase
  evicting : SigFirstItem → Phase
  retrying : SigFirstItem → Phase
  returned : Error → Phase

-- A `SigFirstSub`; `queue` is the content of the channel, the oldest item first.
pub record SigFirstSub : Type 0 where
  pub queue_capacity : ℕ
  pub queue : List SigFirstItem
  pub dropped : ℕ
  pub marks : Marks
  pub phase : Phase

abbrev pub new_sig_first_sub : ℕ → SigFirstSub
new_sig_first_sub n = record {
  queue_capacity = n;
  queue = [];
  dropped = 0;
  marks = record { last_seq = 0; have_last = false; gaps = 0 };
  phase = receiving;
}

-- One round of the loop of `drain` up to the call of `push`.
unfoldable pub drain_item : Datagram → SigFirstSub → SigFirstSub
drain_item (sig_first v) s = record s {
  marks = note_item_seq v.seq s.marks;
  phase = sending (record { slot = v.slot; seq = v.seq; signature = v.signature });
}
drain_item (heartbeat v) s = record s { marks = note_heartbeat_seq v.highest_seq s.marks }
drain_item (unknown_datagram tag) s = s

unfoldable pub drain_datagram : List ℕ → SigFirstSub → Result SigFirstSub
drain_datagram dg s = elim (decode_datagram dg) [
  | ok d ↦ ok (drain_item d s)
  | err e ↦ ok s
  | panic ↦ panic
]

-- `s.err` when `recv` fails.
abbrev pub drain_end : Error → Error
drain_end eof = eof
drain_end e = map_error e

-- `recv` fails: `drain` returns.
unfoldable pub drain_error : Error → SigFirstSub → SigFirstSub
drain_error e s = record s { phase = returned (drain_end e) }

-- What a step shows: an item that enters the subscription, leaves by `Next`, is evicted, or is
-- thrown away by the retry.
pub data Event : Type 0 where
  arrived : SigFirstItem → Event
  delivered : SigFirstItem → Event
  evicted : SigFirstItem → Event
  thrown_away : SigFirstItem → Event
  silent : Event

abbrev pub arrival : Datagram → Event
arrival (sig_first v) = arrived (record { slot = v.slot; seq = v.seq; signature = v.signature })
arrival (heartbeat v) = silent
arrival (unknown_datagram tag) = silent

-- The channel takes the item, or is full.
abbrev pub send : SigFirstItem → SigFirstSub → Option (List SigFirstItem)
send it s = if ltb (length s.queue) s.queue_capacity then some (s.queue ++ (it ∷ [])) else none

-- `s.dropped.Add(1)`
abbrev pub drop_one : SigFirstSub → ℕ
drop_one s = (s.dropped + 1) % 2 ^ 64

-- The three `select`s of `push`, one step each: `Next` may run between any two.
unfoldable pub push_send : SigFirstItem → SigFirstSub → SigFirstSub
push_send it s = elim (send it s) [
  | some q ↦ record s { queue = q; phase = receiving }
  | none ↦ record s { phase = evicting it }
]

unfoldable pub push_evict : SigFirstItem → SigFirstSub → Event × SigFirstSub
push_evict it s = elim s.queue [
  | [] ↦ (silent, record s { phase = retrying it })
  | old ∷ q ↦ (evicted old, record s { queue = q; dropped = drop_one s; phase = retrying it })
]

unfoldable pub push_retry : SigFirstItem → SigFirstSub → Event × SigFirstSub
push_retry it s = elim (send it s) [
  | some q ↦ (silent, record s { queue = q; phase = receiving })
  | none ↦ (thrown_away it, record s { dropped = drop_one s; phase = receiving })
]

-- What `Next` does: it takes an item, reports the end, or waits.
pub data Taken : Type 0 where
  item : SigFirstItem → SigFirstSub → Taken
  ended : Error → Taken
  waiting : Taken

abbrev pub at_end : Phase → Taken
at_end (returned e) = ended e
at_end _ = waiting

unfoldable pub next : SigFirstSub → Taken
next s = elim s.queue [ [] ↦ at_end s.phase | it ∷ q ↦ item it (record s { queue = q }) ]

-- How a call of `Next` returns, where its context ends with an error or not. Where more than one of
-- these is possible, any of them may happen.
pub data Answer (s : SigFirstSub) (context : Option Error)
    : Result SigFirstItem → SigFirstSub → Type 0 where
  gives : (it : SigFirstItem) (s' : SigFirstSub) → next s ≡ item it s' → Answer s context (ok it) s'
  closed : (e : Error) → next s ≡ ended e → Answer s context (err e) s
  cancelled : (e : Error) → context ≡ some e → Answer s context (err e) s

-- `Dropped`, `Queued` and `Gaps`
abbrev pub dropped_of : SigFirstSub → ℕ
dropped_of s = s.dropped

abbrev pub queued : SigFirstSub → ℕ
queued s = length s.queue

abbrev pub gaps_of : SigFirstSub → ℕ
gaps_of s = s.marks.gaps

pub record QueueStats : Type 0 where
  pub capacity : ℕ
  pub queued : ℕ
  pub stats_dropped : ℕ

abbrev pub queue_stats : SigFirstSub → QueueStats
queue_stats s = record {
  capacity = s.queue_capacity;
  queued = length s.queue;
  stats_dropped = s.dropped;
}

-- One step of the drain goroutine or of a caller of `Next`.
pub data Step (s : SigFirstSub) : Event → SigFirstSub → Type 0 where
  received :
      (dg : List ℕ) (d : Datagram)
      → s.phase ≡ receiving
      → decode_datagram dg ≡ ok d
      → Step s (arrival d) (drain_item d s)
  skipped :
      (dg : List ℕ) (e : Error) → s.phase ≡ receiving → decode_datagram dg ≡ err e → Step s silent s
  failed : (e : Error) → s.phase ≡ receiving → Step s silent (drain_error e s)
  sent : (it : SigFirstItem) → s.phase ≡ sending it → Step s silent (push_send it s)
  evicts :
      (it : SigFirstItem) → s.phase ≡ evicting it → Step s (push_evict it s).0 (push_evict it s).1
  retried :
      (it : SigFirstItem) → s.phase ≡ retrying it → Step s (push_retry it s).0 (push_retry it s).1
  -- The context of a caller of `Next` ends first: it returns the error of the context.
  gave_up : (e : Error) → Step s silent s
  taken : (it : SigFirstItem) (s' : SigFirstSub) → next s ≡ item it s' → Step s (delivered it) s'

-- The events so far and the state that they lead to, from a new subscription.
pub data Run (n : ℕ) : List Event → SigFirstSub → Type 0 where
  start : Run n [] (new_sig_first_sub n)
  then_step :
      (events : List Event) (s : SigFirstSub) (e : Event) (s' : SigFirstSub)
      → Run n events s
      → Step s e s'
      → Run n (events ++ (e ∷ [])) s'
