-- ===== src/Sig/Gaps.antt =====
-- What `Gaps` counts, for any sequence of items and heartbeats.
pub mod Loss
use pulse_go.Base.{
  ℕ, zero, suc, ◌+◌, ◌-◌, ◌%◌, ◌^◌, ◌≡◌, ◌≢◌, ◌≤◌, ◌<◌, refl, ap, sym, ◌∙◌, arith, Bool, true,
  false, not, ◌||◌, List, [], ◌∷◌, All, ltb, ◌==◌, ==_iff, ltb→lt, ltb_false→le, Bool-cases, inl,
  inr, if◌then◌else◌,
}
use pulse_go.Go.{IsU64}
use pulse_go.Sig.{Marks, note_item_seq, note_heartbeat_seq, no_seq_assigned}

-- A sequence number seen by the drain: an item's own, or a heartbeat's highest.
pub data Sighting : Type 0 where
  of_item : ℕ → Sighting
  of_heartbeat : ℕ → Sighting

abbrev pub number : Sighting → ℕ
number (of_item n) = n
number (of_heartbeat n) = n

pub note : Sighting → Marks → Marks
note (of_item n) m = note_item_seq n m
note (of_heartbeat n) m = note_heartbeat_seq n m

pub notes : List Sighting → Marks → Marks
notes [] m = m
notes (s ∷ ss) m = notes ss (note s m)

-- How many items were ahead of the watermark when they came.
pub advances : List Sighting → Marks → ℕ
advances [] m = 0
advances (of_item n ∷ ss) m = (if ltb m.last_seq n then 1 else 0) + advances ss (note_item_seq n m)
advances (of_heartbeat n ∷ ss) m = advances ss (note_heartbeat_seq n m)

-- A baseline has been taken at `first`, and the count is within what has passed since.
pub record IsMark (first : ℕ) (m : Marks) : Type 0 where
  pub have : m.have_last ≡ true
  pub ahead : first ≤ m.last_seq
  pub small : m.last_seq < 2 ^ 64
  pub within : m.gaps ≤ m.last_seq - first

pub note_item_seq-gaps :
    (first n : ℕ) (m : Marks)
    → IsMark first m
    → IsU64 n
    → (note_item_seq n m).gaps + (if ltb m.last_seq n then 1 else 0) + m.last_seq
      ≡ m.gaps + (note_item_seq n m).last_seq
unfolding note_item_seq
note_item_seq-gaps first n m i h = ground (arith, i.have, i.ahead, i.small, i.within, h)

pub note_item_seq-IsMark :
    (first n : ℕ) (m : Marks) → IsMark first m → IsU64 n → IsMark first (note_item_seq n m)
unfolding note_item_seq
note_item_seq-IsMark first n m i h =
    let eq = note_item_seq-gaps first n m i h in
    record {
      have = ground (arith, i.have);
      ahead = ground (arith, i.have, i.ahead);
      small = ground (arith, i.have, i.small, h);
      within = ground (arith, i.have, i.ahead, i.small, i.within, h);
    }

pub note_heartbeat_seq-gaps :
    (first n : ℕ) (m : Marks)
    → IsMark first m
    → IsU64 n
    → (note_heartbeat_seq n m).gaps + m.last_seq ≡ m.gaps + (note_heartbeat_seq n m).last_seq
unfolding note_heartbeat_seq
note_heartbeat_seq-gaps first n m i h = ground (arith, i.have, i.ahead, i.small, i.within, h)

pub note_heartbeat_seq-IsMark :
    (first n : ℕ) (m : Marks) → IsMark first m → IsU64 n → IsMark first (note_heartbeat_seq n m)
unfolding note_heartbeat_seq
note_heartbeat_seq-IsMark first n m i h = record {
  have = ground (arith, i.have);
  ahead = ground (arith, i.have, i.ahead);
  small = ground (arith, i.have, i.small, h);
  within = ground (arith, i.have, i.ahead, i.small, i.within, h);
}

note-IsMark :
    (first : ℕ) (s : Sighting) (m : Marks)
    → IsMark first m
    → IsU64 (number s)
    → IsMark first (note s m)
unfolding note
note-IsMark first (of_item n) m i h = note_item_seq-IsMark first n m i h
note-IsMark first (of_heartbeat n) m i h = note_heartbeat_seq-IsMark first n m i h

notes-gaps :
    (first : ℕ) (ss : List Sighting) (m : Marks)
    → IsMark first m
    → All (λ s. IsU64 (number s)) ss
    → (notes ss m).gaps + advances ss m + m.last_seq ≡ m.gaps + (notes ss m).last_seq
unfolding notes advances note
notes-gaps first [] m i h = omega arith
notes-gaps first (of_item n ∷ ss) m i (h, hs) = omega (
  arith,
  note_item_seq-gaps first n m i h,
  notes-gaps first ss (note_item_seq n m) (note_item_seq-IsMark first n m i h) hs,
)
notes-gaps first (of_heartbeat n ∷ ss) m i (h, hs) = omega (
  arith,
  note_heartbeat_seq-gaps first n m i h,
  notes-gaps first ss (note_heartbeat_seq n m) (note_heartbeat_seq-IsMark first n m i h) hs,
)

abbrev pub no_marks : Marks
no_marks = record { last_seq = 0; have_last = false; gaps = 0 }

abbrev pub baseline : ℕ → Marks
baseline first = record { last_seq = first; have_last = true; gaps = 0 }

pub baseline-IsMark : (first : ℕ) → IsU64 first → IsMark first (baseline first)
baseline-IsMark first h = record {
  have = refl;
  ahead = omega arith;
  small = h;
  within = omega arith;
}

-- After a first item and any items and heartbeats, in any order and repeated or not: the gaps and
-- the items that came ahead of the watermark together are the distance from the first number to
-- the watermark, without wrap-around.
pub gaps_exact :
    (first : ℕ) (ss : List Sighting)
    → IsU64 first
    → All (λ s. IsU64 (number s)) ss
    → let m : Marks = notes (of_item first ∷ ss) no_marks in
      m.gaps + advances ss (baseline first) + first ≡ m.last_seq
unfolding notes note note_item_seq
gaps_exact first ss h hs =
    omega (arith, notes-gaps first ss (baseline first) (baseline-IsMark first h) hs)
