-- ===== src/Sig/Window/Laws.antt =====
-- What the drain goroutine leaves in the queue while nobody reads, and what a late caller gets.
use pulse_go.Base.{
  All, ltb→lt, ltb_false→le, ◌⊎◌, ℕ, suc, ◌+◌, ◌-◌, ◌%◌, ◌^◌, ◌≤◌, ◌<◌, ◌≡◌, refl, sym, ap, ap₂,
  ◌∙◌, arith, List, [], ◌∷◌, ◌++◌, length, drop, length-append, append_assoc, append-nil,
  Bool-cases, inl, inr, ltb,
}
use pulse_go.Go.{ok, IsByte}
use pulse_go.Wire.Datagram.Total.{decode_datagram_total}
use pulse_go.Sig.Drain.{drain_datagram_ok, drain_datagram_skip}
use pulse_go.Wire.Datagram.{Datagram, sig_first, heartbeat, unknown_datagram, decode_datagram}
use pulse_go.Sig.{
  Marks, Marks, note_item_seq, note_heartbeat_seq, SigFirstItem, SigFirstSub, receiving, sending,
  evicting, drain_item, drain_datagram, push_send, push_evict, push_retry,
}
use pulse_go.Sig.Window.{
  producer, push_alone, drain_alone, newest, shown, shown_result, items_of, idle,
}
use pulse_go.Sig.Window.Lists.{
  newest-newest, newest_all, length-newest, length-newest-append, add_mod,
}

push_room :
    (it : SigFirstItem) (n k : ℕ) (q : List SigFirstItem) (m : Marks)
    → length q < n
    → push_alone (record (idle n q k m) { phase = sending it }) ≡ idle n (q ++ (it ∷ [])) k m
unfolding push_alone producer push_send
push_room it n k q m room = ground (arith, room)

push_full :
    (it old : SigFirstItem) (k : ℕ) (q : List SigFirstItem) (m : Marks)
    → push_alone (record (idle (suc (length q)) (old ∷ q) k m) { phase = sending it })
      ≡ idle (suc (length q)) (q ++ (it ∷ [])) ((k + 1) % 2 ^ 64) m
unfolding push_alone producer push_send push_evict push_retry
push_full it old k q m =
    let n : ℕ = suc (length q) in
    let first : push_send it (record (idle n (old ∷ q) k m) { phase = sending it })
        ≡ record (idle n (old ∷ q) k m) { phase = evicting it } =
      ground arith in
    ap (λ s. producer (producer s)) first ∙ ground arith

le-cases : (a n : ℕ) → a ≤ n → (a < n) ⊎ (a ≡ n)
le-cases a n h = elim (Bool-cases (ltb a n)) [
  | inl t ↦ inl (ltb→lt a n t)
  | inr f ↦ inr (omega (arith, h, ltb_false→le a n f))
]

push_window_full :
    (it : SigFirstItem) (n k : ℕ) (q : List SigFirstItem) (m : Marks)
    → length q ≡ n
    → 0 < n
    → push_alone (record (idle n q k m) { phase = sending it })
      ≡ idle n (newest n (q ++ (it ∷ []))) ((k + (length (q ++ (it ∷ [])) - n)) % 2 ^ 64) m
push_window_full it n k [] m full positive = absurd (omega (arith, full, positive))
push_window_full it n k (old ∷ q) m full positive =
    let over : length (old ∷ q ++ (it ∷ [])) - n ≡ 1 =
      rw (length-append q (it ∷ [])) (omega (arith, full)) in
    ap (λ n. push_alone (record (idle n (old ∷ q) k m) { phase = sending it })) (sym full)
    ∙ push_full it old k q m
    ∙ ap (λ n. idle n (q ++ (it ∷ [])) ((k + 1) % 2 ^ 64) m) full
    ∙ sym (ap (λ j. idle n (drop j (old ∷ q ++ (it ∷ []))) ((k + j) % 2 ^ 64) m) over)

push_window :
    (it : SigFirstItem) (n k : ℕ) (q : List SigFirstItem) (m : Marks)
    → length q ≤ n
    → 0 < n
    → k < 2 ^ 64
    → push_alone (record (idle n q k m) { phase = sending it })
      ≡ idle n (newest n (q ++ (it ∷ []))) ((k + (length (q ++ (it ∷ [])) - n)) % 2 ^ 64) m
push_window it n k q m bounded positive fits = elim (le-cases (length q) n bounded) [
  | inl room ↦
      let over : length (q ++ (it ∷ [])) - n ≡ 0 =
        rw (length-append q (it ∷ [])) (omega (arith, room)) in
      push_room it n k q m room
      ∙ rw (over) (ap (λ k. idle n (q ++ (it ∷ [])) k m) (omega (arith, fits)))
  | inr full ↦ push_window_full it n k q m full positive
]

idle_quiet :
    (n k : ℕ) (q : List SigFirstItem) (m : Marks)
    → length q ≤ n
    → k < 2 ^ 64
    → idle n q k m ≡ idle n (newest n (q ++ [])) ((k + (length (q ++ []) - n)) % 2 ^ 64) m
idle_quiet n k q m bounded fits =
    let same : k ≡ (k + (length q - n)) % 2 ^ 64 = omega (arith, bounded, fits) in
    rw (append-nil q, newest_all n q bounded) (ap (λ k. idle n q k m) same)

window_quiet :
    (n k : ℕ) (q : List SigFirstItem) (m : Marks)
    → length q ≤ n
    → k < 2 ^ 64
    → push_alone (idle n q k m)
      ≡ idle n (newest n (q ++ [])) ((k + (length (q ++ []) - n)) % 2 ^ 64) m
unfolding push_alone producer
window_quiet n k q m bounded fits = idle_quiet n k q m bounded fits

-- One window after another is the window on all the items.
window_join :
    (n k : ℕ) (xs ys : List SigFirstItem) (m : Marks)
    → idle n
        (newest n (newest n xs ++ ys))
        ((((k + (length xs - n)) % 2 ^ 64) + (length (newest n xs ++ ys) - n)) % 2 ^ 64)
        m
      ≡ idle n (newest n (xs ++ ys)) ((k + (length (xs ++ ys) - n)) % 2 ^ 64) m
window_join n k xs ys m =
    ap₂ (λ q k. idle n q k m) (newest-newest n xs ys)
      (add_mod k (length xs - n) (length (newest n xs ++ ys) - n) (length (xs ++ ys) - n)
        (length-newest-append n xs ys))

-- What a datagram does to the window.
window_shown :
    (d : Datagram) (n k : ℕ) (q : List SigFirstItem) (m : Marks)
    → length q ≤ n
    → 0 < n
    → k < 2 ^ 64
    → (m' : Marks) × (push_alone (drain_item d (idle n q k m))
        ≡ idle n (newest n (q ++ shown d)) ((k + (length (q ++ shown d) - n)) % 2 ^ 64) m')
unfolding drain_item
window_shown (sig_first v) n k q m bounded positive fits = (
  note_item_seq v.seq m,
  push_window (record { slot = v.slot; seq = v.seq; signature = v.signature }) n k q
      (note_item_seq v.seq m) bounded positive fits,
)
window_shown (heartbeat v) n k q m bounded positive fits = (
  note_heartbeat_seq v.highest_seq m,
  window_quiet n k q (note_heartbeat_seq v.highest_seq m) bounded fits,
)
window_shown (unknown_datagram tag) n k q m bounded positive fits =
    (m, window_quiet n k q m bounded fits)

-- One datagram: what is left is the window on the queue and the item of the datagram.
pub drain_one :
    (dg : List ℕ) (n k : ℕ) (q : List SigFirstItem) (m : Marks)
    → All IsByte dg
    → length q ≤ n
    → 0 < n
    → k < 2 ^ 64
    → let seen : List SigFirstItem = q ++ shown_result (decode_datagram dg) in
      (m' : Marks) × (s : SigFirstSub) × (drain_datagram dg (idle n q k m) ≡ ok s)
      × (push_alone s ≡ idle n (newest n seen) ((k + (length seen - n)) % 2 ^ 64) m')
drain_one dg n k q m bytes bounded positive fits = elim (decode_datagram_total dg bytes) [
  | inl (d, e, shows) ↦
      let (m', pushed) = window_shown d n k q m bounded positive fits in
      (m', drain_item d (idle n q k m), drain_datagram_ok dg d (idle n q k m) e, rw e pushed)
  | inr (e, short) ↦ (
    m,
    idle n q k m,
    drain_datagram_skip dg (idle n q k m) e,
    rw e (window_quiet n k q m bounded fits),
  )
]

drain_idle :
    (dgs : List (List ℕ)) (n k : ℕ) (q : List SigFirstItem) (m : Marks)
    → All (All IsByte) dgs
    → length q ≤ n
    → 0 < n
    → k < 2 ^ 64
    → let seen : List SigFirstItem = q ++ items_of dgs in
      (m' : Marks) × (drain_alone dgs (idle n q k m)
        ≡ ok (idle n (newest n seen) ((k + (length seen - n)) % 2 ^ 64) m'))
unfolding drain_alone items_of
drain_idle [] n k q m bytes bounded positive fits = (m, ap ok (idle_quiet n k q m bounded fits))
drain_idle (dg ∷ dgs) n k q m bytes bounded positive fits =
    let now : List SigFirstItem = shown_result (decode_datagram dg) in
    let seen : List SigFirstItem = q ++ now in
    let k' : ℕ = (k + (length seen - n)) % 2 ^ 64 in
    let (m₁, s, drained, pushed) = drain_one dg n k q m bytes.0 bounded positive fits in
    let (m₂, rest) =
      drain_idle dgs n k' (newest n seen) m₁ bytes.1 (length-newest n seen) positive
        (omega arith) in
    (
      m₂,
      rw drained (
          ap (drain_alone dgs) pushed
          ∙ rest
          ∙ ap ok (
              window_join n k seen (items_of dgs) m₂
              ∙ ap (λ all. idle n (newest n all) ((k + (length all - n)) % 2 ^ 64) m₂)
                  (append_assoc q now (items_of dgs)))),
    )

-- While nobody reads, the queue is a window on the newest items: from a subscription between two
-- datagrams, with a queue within a capacity of at least 1, any datagrams leave the last `capacity`
-- items of the queue and the items that the datagrams carry, in their order; `Dropped` goes up by
-- the number of the others, modulo 2^64; and the goroutine is again between two datagrams. Each
-- `push` on the way has returned after at most three `select`s.
pub drain_alone-newest :
    (dgs : List (List ℕ)) (s : SigFirstSub)
    → All (All IsByte) dgs
    → s.phase ≡ receiving
    → length s.queue ≤ s.queue_capacity
    → 0 < s.queue_capacity
    → s.dropped < 2 ^ 64
    → let seen : List SigFirstItem = s.queue ++ items_of dgs in
      (s' : SigFirstSub) × (drain_alone dgs s ≡ ok s')
      × (s'.queue ≡ newest s.queue_capacity seen)
      × (s'.dropped ≡ (s.dropped + (length seen - s.queue_capacity)) % 2 ^ 64)
      × (s'.phase ≡ receiving)
drain_alone-newest dgs s bytes between bounded positive fits =
    let n = s.queue_capacity in
    let seen : List SigFirstItem = s.queue ++ items_of dgs in
    let (m, ran) = drain_idle dgs n s.dropped s.queue s.marks bytes bounded positive fits in
    (
      idle n (newest n seen) ((s.dropped + (length seen - n)) % 2 ^ 64) m,
      ap (λ p. drain_alone dgs (record s { phase = p })) between ∙ ran,
      refl,
      refl,
      refl,
    )
