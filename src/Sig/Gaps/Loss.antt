-- ===== src/Sig/Gaps/Loss.antt =====
-- What `Gaps` says of the items that did not come.
use pulse_go.Base.{
  ℕ, zero, suc, ◌+◌, ◌-◌, ◌^◌, ◌≡◌, ◌≤◌, refl, ap, subst, ◌∙◌, arith, Bool, true, false, ◌||◌, List,
  [], ◌∷◌, All, ltb, ◌==◌, Bool-cases, inl, inr, if◌then◌else◌,
}
use pulse_go.Go.{IsU64}
use pulse_go.Sig.{no_seq_assigned, Marks, note_item_seq, note_heartbeat_seq}
use pulse_go.Sig.Gaps.{
  Sighting, of_item, of_heartbeat, number, note, notes, no_marks, baseline, IsMark,
  note_item_seq-gaps, note_item_seq-IsMark, note_heartbeat_seq-gaps, note_heartbeat_seq-IsMark,
  baseline-IsMark,
}

-- The item with this number has been received.
pub heard : ℕ → List Sighting → Bool
heard n [] = false
heard n (of_item i ∷ ss) = i == n || heard n ss
heard n (of_heartbeat i ∷ ss) = heard n ss

-- How many of the `k` numbers after `first` fail the test.
pub missing : (ℕ → Bool) → ℕ → ℕ → ℕ
missing p first zero = 0
missing p first (suc k) = missing p first k + (if p (first + suc k) then 0 else 1)

missing_mono :
    (p q : ℕ → Bool) (first k : ℕ)
    → ((n : ℕ) → p n ≡ true → q n ≡ true)
    → missing q first k ≤ missing p first k
unfolding missing
missing_mono p q first zero h = omega arith
missing_mono p q first (suc k) h = ground (arith, missing_mono p q first k h, h (first + suc k))

missing_add : (p : ℕ → Bool) (first a b : ℕ) → missing p first (a + b) ≤ missing p first a + b
unfolding missing
missing_add p first a zero = let same : a + 0 ≡ a = omega arith in rw same (omega arith)
missing_add p first a (suc b) =
    let step : a + suc b ≡ suc (a + b) = omega arith in
    rw step (ground (arith, missing_add p first a b))

missing_jump :
    (p : ℕ → Bool) (first a b : ℕ)
    → p (first + suc (a + b)) ≡ true
    → missing p first (suc (a + b)) ≤ missing p first a + b
unfolding missing
missing_jump p first a b h = ground (arith, missing_add p first a b, h)

item_missing :
    (p : ℕ → Bool) (first n : ℕ) (m : Marks)
    → IsMark first m
    → IsU64 n
    → missing p first (m.last_seq - first) ≤ m.gaps
    → (q : ℕ → Bool) → ((k : ℕ) → p k ≡ true → q k ≡ true)
    → q n ≡ true
    → missing q first ((note_item_seq n m).last_seq - first) ≤ (note_item_seq n m).gaps
unfolding note_item_seq
item_missing p first n m i h le q more found =
    let a : ℕ = m.last_seq - first in
    let b : ℕ = n - m.last_seq - 1 in
    let eq = note_item_seq-gaps first n m i h in
    let mono = missing_mono p q first a more in
    elim (Bool-cases (ltb m.last_seq n)) [
      | inl ahead ↦
          let lst : (note_item_seq n m).last_seq ≡ n = ground (arith, i.have, ahead) in
          let gap : (note_item_seq n m).gaps ≡ m.gaps + b = ground (arith, eq, lst, ahead) in
          let far : n - first ≡ suc (a + b) = ground (arith, ahead, i.ahead) in
          let there : first + suc (a + b) ≡ n = ground (arith, ahead, i.ahead) in
          rw (lst, gap, far) (omega (arith, missing_jump q first a b (rw there found), mono, le))
      | inr behind ↦
          let lst : (note_item_seq n m).last_seq ≡ m.last_seq = ground (arith, i.have, behind) in
          let gap : (note_item_seq n m).gaps ≡ m.gaps = ground (arith, eq, lst, behind) in
          rw (lst, gap) (omega (arith, mono, le))
    ]

heartbeat_missing :
    (p : ℕ → Bool) (first n : ℕ) (m : Marks)
    → IsMark first m
    → IsU64 n
    → missing p first (m.last_seq - first) ≤ m.gaps
    → missing p first ((note_heartbeat_seq n m).last_seq - first) ≤ (note_heartbeat_seq n m).gaps
unfolding note_heartbeat_seq
heartbeat_missing p first n m i h le =
    let a : ℕ = m.last_seq - first in
    let eq = note_heartbeat_seq-gaps first n m i h in
    let grows : m.last_seq ≤ (note_heartbeat_seq n m).last_seq = ground (arith, i.have) in
    let b : ℕ = (note_heartbeat_seq n m).last_seq - m.last_seq in
    let far : (note_heartbeat_seq n m).last_seq - first ≡ a + b = omega (arith, grows, i.ahead) in
    rw far (omega (arith, missing_add p first a b, eq, le, grows))

-- What has been received after `ss`, with `p` received before.
missing-notes :
    (p : ℕ → Bool) (first : ℕ) (ss : List Sighting) (m : Marks)
    → IsMark first m
    → All (λ s. IsU64 (number s)) ss
    → missing p first (m.last_seq - first) ≤ m.gaps
    → missing (λ n. p n || heard n ss) first ((notes ss m).last_seq - first) ≤ (notes ss m).gaps
unfolding notes note heard
missing-notes p first [] m i hs le = omega (
  arith,
  le,
  missing_mono p (λ n. p n || false) first (m.last_seq - first) (λ n h. ground (arith, h)),
)
missing-notes p first (of_item k ∷ ss) m i (h, hs) le =
    let m' : Marks = note_item_seq k m in
    let p' : ℕ → Bool = λ n. p n || (k == n) in
    let at_item = item_missing p first k m i h le p' (λ n e. ground (arith, e)) (ground arith) in
    let rest = missing-notes p' first ss m' (note_item_seq-IsMark first k m i h) hs at_item in
    omega (
      arith,
      rest,
      missing_mono (λ n. p' n || heard n ss) (λ n. p n || (k == n || heard n ss)) first
          ((notes ss m').last_seq - first) (λ n e. ground (arith, e)),
    )
missing-notes p first (of_heartbeat k ∷ ss) m i (h, hs) le =
    missing-notes p first ss (note_heartbeat_seq k m) (note_heartbeat_seq-IsMark first k m i h) hs
      (heartbeat_missing p first k m i h le)

-- The highest number after `top`, of items and of heartbeats that have one.
pub highest : ℕ → List Sighting → ℕ
highest top [] = top
highest top (of_item n ∷ ss) = highest (if ltb top n then n else top) ss
highest top (of_heartbeat n ∷ ss) =
    highest (if n == no_seq_assigned then top else (if ltb top n then n else top)) ss

notes-highest :
    (ss : List Sighting) (m : Marks)
    → m.have_last ≡ true
    → (notes ss m).last_seq ≡ highest m.last_seq ss
unfolding notes note highest note_item_seq note_heartbeat_seq
notes-highest [] m have = refl
notes-highest (of_item n ∷ ss) m have =
    let top : (note_item_seq n m).last_seq ≡ (if ltb m.last_seq n then n else m.last_seq) =
      ground (arith, have) in
    notes-highest ss (note_item_seq n m) (ground (arith, have)) ∙ ap (λ t. highest t ss) top
notes-highest (of_heartbeat n ∷ ss) m have =
    let top : (note_heartbeat_seq n m).last_seq ≡ (
        if n == no_seq_assigned then m.last_seq else (if ltb m.last_seq n then n else m.last_seq)) =
      ground (arith, have) in
    notes-highest ss (note_heartbeat_seq n m) (ground (arith, have)) ∙ ap (λ t. highest t ss) top

-- After a first item and any items and heartbeats: the watermark is the highest number of an item or
-- of a heartbeat whose number is not `NoSeqAssigned`, and at least as many gaps are counted as there
-- are numbers above the first, up to the watermark, of which no item came.
pub gaps_cover_loss :
    (first : ℕ) (ss : List Sighting)
    → IsU64 first
    → All (λ s. IsU64 (number s)) ss
    → let m : Marks = notes (of_item first ∷ ss) no_marks in
      (m.last_seq ≡ highest first ss)
      × (missing (λ n. heard n ss) first (highest first ss - first) ≤ m.gaps)
unfolding notes note note_item_seq missing
gaps_cover_loss first ss h hs =
    let top = notes-highest ss (baseline first) refl in
    let none_yet : missing (λ n. false) first (first - first) ≤ 0 =
      let z : first - first ≡ 0 = omega arith in rw z (omega arith) in
    let covered =
      missing-notes (λ n. false) first ss (baseline first) (baseline-IsMark first h) hs none_yet in
    (
      top,
      subst (λ t. missing (λ n. heard n ss) first (t - first) ≤ (notes ss (baseline first)).gaps)
          top covered,
    )

-- The numbers `from`, `from + 1`, … of `k` items.
pub in_order : ℕ → ℕ → List Sighting
in_order from zero = []
in_order from (suc k) = of_item from ∷ in_order (from + 1) k

in_order-gaps :
    (from k : ℕ) → from + 1 + k ≤ 2 ^ 64 → (notes (in_order (from + 1) k) (baseline from)).gaps ≡ 0
unfolding in_order notes note note_item_seq
in_order-gaps from zero h = refl
in_order-gaps from (suc k) h =
    let next : note_item_seq (from + 1) (baseline from) ≡ baseline (from + 1) = ground (arith, h) in
    ap (λ m. (notes (in_order (from + 1 + 1) k) m).gaps) next
    ∙ (in_order-gaps (from + 1) k (omega (arith, h)))

-- A stream of consecutive numbers, none lost and in order, has no gaps.
pub in_order-no_gaps :
    (from k : ℕ) → from + 1 + k ≤ 2 ^ 64 → (notes (in_order from (suc k)) no_marks).gaps ≡ 0
unfolding in_order notes note note_item_seq
in_order-no_gaps from k h = in_order-gaps from k h
