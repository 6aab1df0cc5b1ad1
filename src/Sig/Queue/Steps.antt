-- ===== src/Sig/Queue/Steps.antt =====
-- Every step of the subscription keeps the account of the queue right.
use pulse_go.Base.{
  ℕ, suc, ◌≡◌, ◌⊎◌, ◌≤◌, ◌<◌, refl, ap, arith, Option, none, some, List, [], ◌∷◌, ◌++◌, length,
  length-append, append-nil, ltb, ltb→lt, lt→ltb, subst, Bool-cases, inl, inr,
}
use pulse_go.Errors.{Error}
use pulse_go.Wire.Datagram.{sig_first, heartbeat, unknown_datagram, Datagram}
use pulse_go.Sig.{
  SigFirstItem, SigFirstSub, Phase, receiving, sending, evicting, retrying, returned, Event,
  delivered, silent, arrival, drain_item, drain_error, drain_end, Taken, push_send, push_evict,
  push_retry, next, item, Step, received, skipped, failed, sent, evicts, retried, gave_up, taken,
  Run, start, then_step, at_end,
}
use pulse_go.Sig.Queue.{
  arrivals, departures, evictions, in_hand, HasRoom, Conserved, Balanced, Conserved-step,
}

drain_item-Balanced :
    (n : ℕ) (es : List Event) (s : SigFirstSub) (d : Datagram)
    → Conserved n es s
    → s.phase ≡ receiving
    → Balanced n s (arrival d) (drain_item d s)
unfolding drain_item arrivals departures evictions in_hand HasRoom
drain_item-Balanced n es s (sig_first v) c p = record {
  same_capacity = c.same_capacity;
  bounded = c.bounded;
  room = tt;
  moved = rw p (
      ap (λ l. l ++ (record { slot = v.slot; seq = v.seq; signature = v.signature } ∷ []))
        (append-nil s.queue));
  counted = omega (arith, c.counted);
  kept = tt;
}
drain_item-Balanced n es s (heartbeat v) c p = record {
  same_capacity = c.same_capacity;
  bounded = c.bounded;
  room = c.room;
  moved = append-nil (s.queue ++ in_hand s.phase);
  counted = omega (arith, c.counted);
  kept = tt;
}
drain_item-Balanced n es s (unknown_datagram tag) c p = record {
  same_capacity = c.same_capacity;
  bounded = c.bounded;
  room = c.room;
  moved = append-nil (s.queue ++ in_hand s.phase);
  counted = omega (arith, c.counted);
  kept = tt;
}

stays-Balanced :
    (n : ℕ) (es : List Event) (s : SigFirstSub) → Conserved n es s → Balanced n s silent s
unfolding arrivals departures evictions in_hand
stays-Balanced n es s c = record {
  same_capacity = c.same_capacity;
  bounded = c.bounded;
  room = c.room;
  moved = append-nil (s.queue ++ in_hand s.phase);
  counted = omega (arith, c.counted);
  kept = tt;
}

returned-Balanced :
    (n : ℕ) (es : List Event) (s : SigFirstSub) (e : Error)
    → Conserved n es s
    → s.phase ≡ receiving
    → Balanced n s silent (record s { phase = returned e })
unfolding arrivals departures evictions in_hand HasRoom
returned-Balanced n es s e c p = record {
  same_capacity = c.same_capacity;
  bounded = c.bounded;
  room = tt;
  moved = rw p (append-nil (s.queue ++ []));
  counted = omega (arith, c.counted);
  kept = tt;
}

push_send-Balanced :
    (n : ℕ) (es : List Event) (s : SigFirstSub) (it : SigFirstItem)
    → Conserved n es s
    → s.phase ≡ sending it
    → Balanced n s silent (push_send it s)
unfolding push_send arrivals departures evictions in_hand HasRoom
push_send-Balanced n es s it c p = elim (Bool-cases (ltb (length s.queue) s.queue_capacity)) [
  | inl room ↦
      rw (push_send, room)
        (record {
          same_capacity = c.same_capacity;
          bounded =
              rw (length-append s.queue (it ∷ []))
                (omega (arith, ltb→lt _ _ room, c.same_capacity));
          room = tt;
          moved = rw p refl;
          counted = omega (arith, c.counted);
          kept = tt;
        })
  | inr full ↦
      rw (push_send, full)
        (record {
          same_capacity = c.same_capacity;
          bounded = c.bounded;
          room = tt;
          moved = rw p (append-nil (s.queue ++ (it ∷ [])));
          counted = omega (arith, c.counted);
          kept = tt;
        })
]

List-cases :
    (q : List SigFirstItem)
    → (q ≡ []) ⊎ ((it : SigFirstItem) × (q' : List SigFirstItem) × (q ≡ it ∷ q'))
List-cases [] = inl refl
List-cases (it ∷ q) = inr (it, q, refl)

push_evict-Balanced :
    (n : ℕ) (es : List Event) (s : SigFirstSub) (it : SigFirstItem)
    → 0 < n
    → Conserved n es s
    → s.phase ≡ evicting it
    → Balanced n s (push_evict it s).0 (push_evict it s).1
unfolding push_evict arrivals departures evictions in_hand HasRoom
push_evict-Balanced n es s it pos c p = elim (List-cases s.queue) [
  | inl nothing ↦
      rw (push_evict, nothing)
        (record {
          same_capacity = c.same_capacity;
          bounded = omega arith;
          room = rw nothing pos;
          moved = rw (p, nothing) refl;
          counted = omega (arith, c.counted);
          kept = tt;
        })
  | inr (old, q, some_queue) ↦
      let shorter : suc (length q) ≤ n = subst (λ l. length l ≤ n) some_queue c.bounded in
      rw (push_evict, some_queue)
        (record {
          same_capacity = c.same_capacity;
          bounded = omega (arith, shorter);
          room = shorter;
          moved = rw p (append-nil (old ∷ (q ++ (it ∷ []))));
          counted = omega (arith, c.counted);
          kept = tt;
        })
]

HasRoom-retrying :
    (n : ℕ) (q : List SigFirstItem) (it : SigFirstItem) (ph : Phase)
    → ph ≡ retrying it
    → HasRoom n q ph
    → length q < n
unfolding HasRoom
HasRoom-retrying n q it ph p h = subst (HasRoom n q) p h

push_retry-Balanced :
    (n : ℕ) (es : List Event) (s : SigFirstSub) (it : SigFirstItem)
    → Conserved n es s
    → s.phase ≡ retrying it
    → Balanced n s (push_retry it s).0 (push_retry it s).1
unfolding push_retry arrivals departures evictions in_hand HasRoom
push_retry-Balanced n es s it c p =
    let less = HasRoom-retrying n s.queue it s.phase p c.room in
    let room = lt→ltb (length s.queue) s.queue_capacity (omega (arith, less, c.same_capacity)) in
    rw (push_retry, room)
      (record {
        same_capacity = c.same_capacity;
        bounded = rw (length-append s.queue (it ∷ [])) (omega (arith, less));
        room = tt;
        moved = rw p refl;
        counted = omega (arith, c.counted);
        kept = tt;
      })

HasRoom-shorter :
    (n : ℕ) (it : SigFirstItem) (q : List SigFirstItem) (ph : Phase)
    → HasRoom n (it ∷ q) ph
    → HasRoom n q ph
unfolding HasRoom
HasRoom-shorter n it q receiving h = tt
HasRoom-shorter n it q (sending i) h = tt
HasRoom-shorter n it q (evicting i) h = tt
HasRoom-shorter n it q (retrying i) h = omega (arith, h)
HasRoom-shorter n it q (returned e) h = tt

at_end-item : (ph : Phase) (it : SigFirstItem) (s' : SigFirstSub) → ¬ at_end ph ≡ item it s'
at_end-item receiving it s' h = ground (arith, h)
at_end-item (sending i) it s' h = ground (arith, h)
at_end-item (evicting i) it s' h = ground (arith, h)
at_end-item (retrying i) it s' h = ground (arith, h)
at_end-item (returned e) it s' h = ground (arith, h)

taken_item : Taken → Option SigFirstItem
taken_item (item it s) = some it
taken_item t = none

-- The state that `Next` leaves.
pub next-item :
    (s : SigFirstSub) (it : SigFirstItem) (s' : SigFirstSub)
    → next s ≡ item it s'
    → (q : List SigFirstItem) × (s.queue ≡ it ∷ q) × (record s { queue = q } ≡ s')
unfolding next
next-item s it s' h = elim (List-cases s.queue) [
  | inl nothing ↦ absurd (at_end-item s.phase it s' (ground (arith, h, nothing)))
  | inr (old, q, some_queue) ↦ (q, ground (arith, h, some_queue), ground (arith, h, some_queue))
]

next-Balanced :
    (n : ℕ) (es : List Event) (s : SigFirstSub) (it : SigFirstItem) (q : List SigFirstItem)
    → Conserved n es s
    → s.queue ≡ it ∷ q
    → Balanced n s (delivered it) (record s { queue = q })
unfolding arrivals departures evictions
next-Balanced n es s it q c e =
    let shorter : suc (length q) ≤ n = subst (λ l. length l ≤ n) e c.bounded in
    record {
      same_capacity = c.same_capacity;
      bounded = omega (arith, shorter);
      room = HasRoom-shorter n it q s.phase (subst (λ l. HasRoom n l s.phase) e c.room);
      moved = rw e (append-nil ((it ∷ q) ++ in_hand s.phase));
      counted = omega (arith, c.counted);
      kept = tt;
    }

Balanced-Step :
    (n : ℕ) (es : List Event) (s : SigFirstSub) (e : Event) (s' : SigFirstSub)
    → 0 < n
    → Conserved n es s
    → Step s e s'
    → Balanced n s e s'
unfolding drain_error
Balanced-Step n es s e s' pos c (received dg d p decoded) = drain_item-Balanced n es s d c p
Balanced-Step n es s e s' pos c (skipped dg er p decoded) = stays-Balanced n es s c
Balanced-Step n es s e s' pos c (failed er p) = (returned-Balanced n es s (drain_end er) c p)
Balanced-Step n es s e s' pos c (sent it p) = push_send-Balanced n es s it c p
Balanced-Step n es s e s' pos c (evicts it p) = push_evict-Balanced n es s it pos c p
Balanced-Step n es s e s' pos c (retried it p) = push_retry-Balanced n es s it c p
Balanced-Step n es s e s' pos c (gave_up er) = stays-Balanced n es s c
Balanced-Step n es s e s' pos c (taken it t h) =
    let (q, front, same) = next-item s it t h in
    subst (Balanced n s (delivered it)) same (next-Balanced n es s it q c front)

-- However the drain goroutine and the callers of `Next` interleave, from a new subscription of
-- capacity at least 1: the queue stays within its capacity; the items that arrived are, in order,
-- those that left the front of the queue, those in it and the one that `push` holds; the retry of
-- `push` never throws an item away; and `Dropped` is the number of evictions, modulo 2^64.
pub Run-Conserved :
    (n : ℕ) (es : List Event) (s : SigFirstSub) → 0 < n → Run n es s → Conserved n es s
unfolding arrivals departures evictions in_hand HasRoom
Run-Conserved n es s pos start = record {
  same_capacity = refl;
  bounded = omega arith;
  room = tt;
  in_order = refl;
  counted = omega arith;
  kept = tt;
}
Run-Conserved n es s pos (then_step before s₀ e s₁ run step) =
    let c = Run-Conserved n before s₀ pos run in
    Conserved-step n before s₀ e s₁ c (Balanced-Step n before s₀ e s₁ pos c step)
