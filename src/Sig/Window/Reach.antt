-- ===== src/Sig/Window/Reach.antt =====
-- The drain goroutine on its own is one of the interleavings, from any state between two datagrams
-- that these reach.
use pulse_go.Base.{
  ℕ, ◌+◌, ◌-◌, ◌%◌, ◌^◌, ◌<◌, ◌≤◌, ◌≡◌, refl, sym, ap, ◌∙◌, subst, arith, List, [], ◌∷◌, ◌++◌,
  length, All, inl, inr,
}
use pulse_go.Go.{ok, IsByte}
use pulse_go.Wire.Datagram.{decode_datagram}
use pulse_go.Wire.Datagram.Total.{decode_datagram_total}
use pulse_go.Sig.{
  SigFirstItem, SigFirstSub, Marks, Phase, receiving, sending, evicting, retrying, returned, Event,
  silent, arrival, drain_item, drain_datagram, push_send, push_evict, push_retry, Step, received,
  sent, evicts, retried, Run, then_step,
}
use pulse_go.Sig.Drain.{drain_datagram_ok, drain_datagram_skip}
use pulse_go.Sig.Queue.Steps.{Run-Conserved}
use pulse_go.Sig.Window.{producer, push_alone, drain_alone, newest, items_of, idle, shown_result}
use pulse_go.Sig.Window.Lists.{length-newest}
use pulse_go.Sig.Window.Laws.{drain_one, drain_alone-newest}

Reaches : ℕ → SigFirstSub → Type 0
Reaches n s = (es : List Event) × Run n es s

Step-Reaches :
    (n : ℕ) (s : SigFirstSub) (e : Event) (s' : SigFirstSub)
    → Step s e s'
    → Reaches n s
    → Reaches n s'
unfolding Reaches
Step-Reaches n s e s' step (es, run) = (es ++ (e ∷ []), then_step es s e s' run step)

abbrev select_at : SigFirstSub → Phase → SigFirstSub
select_at s p = elim p [
  | receiving ↦ s
  | sending it ↦ push_send it s
  | evicting it ↦ (push_evict it s).1
  | retrying it ↦ (push_retry it s).1
  | returned e ↦ s
]

select_at-Reaches :
    (n : ℕ) (s : SigFirstSub) (p : Phase) → s.phase ≡ p → Reaches n s → Reaches n (select_at s p)
select_at-Reaches n s receiving e r = r
select_at-Reaches n s (sending it) e r = Step-Reaches n s silent (push_send it s) (sent it e) r
select_at-Reaches n s (evicting it) e r =
    Step-Reaches n s (push_evict it s).0 (push_evict it s).1 (evicts it e) r
select_at-Reaches n s (retrying it) e r =
    Step-Reaches n s (push_retry it s).0 (push_retry it s).1 (retried it e) r
select_at-Reaches n s (returned x) e r = r

producer-Reaches : (n : ℕ) (s : SigFirstSub) → Reaches n s → Reaches n (producer s)
unfolding producer
producer-Reaches n s r = select_at-Reaches n s s.phase refl r

push_alone-Reaches : (n : ℕ) (s : SigFirstSub) → Reaches n s → Reaches n (push_alone s)
unfolding push_alone
push_alone-Reaches n s r =
    producer-Reaches n (producer (producer s))
      (producer-Reaches n (producer s) (producer-Reaches n s r))

drain_datagram-Reaches :
    (n : ℕ) (dg : List ℕ) (s s' : SigFirstSub)
    → All IsByte dg
    → s.phase ≡ receiving
    → drain_datagram dg s ≡ ok s'
    → Reaches n s
    → Reaches n s'
drain_datagram-Reaches n dg s s' bytes between drained r = elim (decode_datagram_total dg bytes) [
  | inl (d, e, shows) ↦
      let same : drain_item d s ≡ s' = cc (drain_datagram_ok dg d s e, drained) in
      subst (Reaches n) same
        (Step-Reaches n s (arrival d) (drain_item d s) (received dg d between e) r)
  | inr (e, short) ↦
      let same : s ≡ s' = cc (drain_datagram_skip dg s e, drained) in subst (Reaches n) same r
]

drain_alone-Reaches :
    (dgs : List (List ℕ)) (n k : ℕ) (q : List SigFirstItem) (m : Marks) (s' : SigFirstSub)
    → All (All IsByte) dgs
    → length q ≤ n
    → 0 < n
    → k < 2 ^ 64
    → drain_alone dgs (idle n q k m) ≡ ok s'
    → Reaches n (idle n q k m)
    → Reaches n s'
unfolding drain_alone
drain_alone-Reaches [] n k q m s' bytes bounded positive fits ran r =
    let same : idle n q k m ≡ s' = cc ran in subst (Reaches n) same r
drain_alone-Reaches (dg ∷ dgs) n k q m s' bytes bounded positive fits ran r =
    let seen : List SigFirstItem = q ++ shown_result (decode_datagram dg) in
    let k' : ℕ = (k + (length seen - n)) % 2 ^ 64 in
    let (m₁, s, drained, pushed) = drain_one dg n k q m bytes.0 bounded positive fits in
    let there =
      push_alone-Reaches n s
        (drain_datagram-Reaches n dg (idle n q k m) s bytes.0 refl drained r) in
    let rest : drain_alone dgs (push_alone s) ≡ ok s' = rw drained at ran in
    drain_alone-Reaches dgs n k' (newest n seen) m₁ s' bytes.1 (length-newest n seen) positive
      (omega arith) (sym (ap (drain_alone dgs) pushed) ∙ rest) (subst (Reaches n) pushed there)

-- From any state that the drain goroutine and the callers of `Next` reach, with a capacity `n` of at
-- least 1 and the goroutine between two datagrams, and while nobody reads: any datagrams of bytes
-- leave the last `n` of the items in the queue and the items that the datagrams carry, in their
-- order; `Dropped` goes up by the number of the others, modulo 2^64; and the state is again one that
-- is reached, between two datagrams.
pub drain_alone-refines :
    (n : ℕ) (es : List Event) (s : SigFirstSub) (dgs : List (List ℕ))
    → 0 < n
    → Run n es s
    → s.phase ≡ receiving
    → All (All IsByte) dgs
    → let seen : List SigFirstItem = s.queue ++ items_of dgs in
      (s' : SigFirstSub) × (es' : List Event) × (drain_alone dgs s ≡ ok s')
      × Run n es' s'
      × (s'.queue ≡ newest n seen)
      × (s'.dropped ≡ (s.dropped + (length seen - n)) % 2 ^ 64)
      × (s'.phase ≡ receiving)
unfolding Reaches
drain_alone-refines n es s dgs positive run between bytes =
    let c = Run-Conserved n es s positive run in
    let cap = c.same_capacity in
    let same : s ≡ idle n s.queue s.dropped s.marks =
      ap (λ p. record s { phase = p }) between ∙ ap (λ n. idle n s.queue s.dropped s.marks) cap in
    let (s', ran, queued, counted, between') =
      drain_alone-newest dgs s bytes between (omega (arith, cap, c.bounded))
        (omega (arith, cap, positive)) (omega (arith, c.counted)) in
    let (es', run') =
      drain_alone-Reaches dgs n s.dropped s.queue s.marks s' bytes c.bounded positive
        (omega (arith, c.counted)) (sym (ap (drain_alone dgs) same) ∙ ran)
        (subst (Reaches n) same (es, run)) in
    (
      s',
      es',
      ran,
      run',
      queued ∙ ap (λ n. newest n (s.queue ++ items_of dgs)) cap,
      counted ∙ ap (λ n. (s.dropped + (length (s.queue ++ items_of dgs) - n)) % 2 ^ 64) cap,
      between',
    )
