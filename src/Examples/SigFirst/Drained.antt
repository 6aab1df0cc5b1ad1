-- ===== src/Examples/SigFirst/Drained.antt =====
-- What the steps of the drain goroutine and the calls of `Next` make of the subscription of
-- examples/sigfirst: each of them is a step of the interleaving.
use pulse_go.Base.{
  Sublistᴰ, Sublist-before, ℕ, ◌≡◌, ◌⊎◌, refl, sym, ap, ◌∙◌, subst, arith, List, [], ◌∷◌, ◌++◌, All,
  append_assoc, append-nil, inl, inr,
}
use mathlib.Core.List.Sublistᴰ
use pulse_go.Errors.{Error}
use pulse_go.Go.{ok, err, IsByte}
use pulse_go.Wire.Datagram.{Datagram, sig_first, heartbeat, unknown_datagram, decode_datagram}
use pulse_go.Wire.Datagram.Total.{decode_datagram_total}
use pulse_go.Sig.{
  SigFirstItem, SigFirstSub, Phase, receiving, sending, evicting, retrying, returned, Event,
  arrived, delivered, evicted, thrown_away, silent, arrival, drain_item, drain_datagram,
  drain_error, drain_end, push_send, push_evict, push_retry, item, ended, waiting, next, Step,
  received, failed, sent, evicts, retried, taken, Run, then_step,
}
use pulse_go.Sig.Drain.{drain_datagram_ok, drain_datagram_skip}
use pulse_go.Sig.Queue.{arrivals, arrivals-append}
use pulse_go.Sig.Queue.Steps.{next-item}
use pulse_go.Sig.Queue.Delivered.{deliveries}
use pulse_go.Sig.Window.{items_of, shown, shown_result, producer}
use pulse_go.Examples.SigFirst.{
  DrainStep, datagram, connection_error, select, at_recv, drain_step, drain_steps,
}
use pulse_go.Examples.SigFirst.Schedule.{
  datagrams_of, errors_of, items_of-cons, split_datagrams, split_errors,
}

deliveries-append : (es fs : List Event) → deliveries (es ++ fs) ≡ deliveries es ++ deliveries fs
unfolding deliveries
deliveries-append [] fs = refl
deliveries-append (arrived it ∷ es) fs = deliveries-append es fs
deliveries-append (delivered it ∷ es) fs = ap (λ l. it ∷ l) (deliveries-append es fs)
deliveries-append (evicted it ∷ es) fs = deliveries-append es fs
deliveries-append (thrown_away it ∷ es) fs = deliveries-append es fs
deliveries-append (silent ∷ es) fs = deliveries-append es fs

next-empty :
    (s : SigFirstSub) (ph : Phase)
    → s.queue ≡ []
    → s.phase ≡ ph
    → ((x : Error) × (next s ≡ ended x) × (s.phase ≡ returned x)) ⊎ (next s ≡ waiting)
unfolding next
next-empty s receiving e p = inr (rw (next, e, p) refl)
next-empty s (sending it) e p = inr (rw (next, e, p) refl)
next-empty s (evicting it) e p = inr (rw (next, e, p) refl)
next-empty s (retrying it) e p = inr (rw (next, e, p) refl)
next-empty s (returned x) e p = inl (x, rw (next, e, p) refl, p)

next-queue :
    (s : SigFirstSub) (q : List SigFirstItem)
    → s.queue ≡ q
    → ((it : SigFirstItem) × (s' : SigFirstSub) × (next s ≡ item it s'))
      ⊎ ((s.queue ≡ []) × ((x : Error) × (next s ≡ ended x) × (s.phase ≡ returned x)))
      ⊎ ((s.queue ≡ []) × (next s ≡ waiting))
unfolding next
next-queue s [] e = elim (next-empty s s.phase e refl) [
  | inl over ↦ inr (inl (e, over))
  | inr waits ↦ inr (inr (e, waits))
]
next-queue s (it ∷ q) e = inl (it, record s { queue = q }, rw (next, e) refl)

module _ (n : ℕ) (Came : Error → Type 0) where
  -- The subscription has come to `s` by these events; the items that arrived are among `seen`, in
  -- order; and where the goroutine has returned, it was an error that came.
  pub record Reached (seen : List SigFirstItem) (es : List Event) (s : SigFirstSub) : Type 0 where
    pub run : Run n es s
    pub part : Sublistᴰ (arrivals es) seen
    pub cause : (x : Error) → s.phase ≡ returned x → (e : Error) × Came e × (x ≡ drain_end e)

  -- Further events that deliver nothing, with the items that arrive by them among `more`.
  pub record Onwards (seen more : List SigFirstItem) (es : List Event) (s : SigFirstSub)
      : Type 0 where
    pub new : List Event
    pub reached : Reached (seen ++ more) (es ++ new) s
    pub quiet : deliveries (es ++ new) ≡ deliveries es

  module _ (seen : List SigFirstItem) (es : List Event) (s : SigFirstSub)
      (r : Reached seen es s) where
    pub stays : (more : List SigFirstItem) → Onwards seen more es s
    stays more = record {
      new = [];
      reached =
          subst (λ fs. Reached (seen ++ more) fs s) (sym (append-nil es))
            (record {
              run = r.run;
              part = Sublist-before (arrivals es) seen more r.part;
              cause = r.cause;
            });
      quiet = ap deliveries (append-nil es);
    }

    -- One step that delivers nothing.
    moves :
        (more : List SigFirstItem) (e : Event) (s' : SigFirstSub)
        → Step s e s'
        → arrivals (e ∷ []) ≡ more
        → deliveries (e ∷ []) ≡ []
        → ((x : Error) → s'.phase ≡ returned x → (c : Error) × Came c × (x ≡ drain_end c))
        → Onwards seen more es s'
    moves more e s' step shows quiet cause = record {
      new = e ∷ [];
      reached = record {
        run = then_step es s e s' r.run step;
        part =
            subst (λ l. Sublistᴰ l (seen ++ more))
              (ap (λ l. arrivals es ++ l) (sym shows) ∙ sym (arrivals-append es (e ∷ [])))
              (Sublistᴰ.append r.part (Sublistᴰ.refl more));
        cause = cause;
      };
      quiet =
          deliveries-append es (e ∷ [])
          ∙ ap (λ l. deliveries es ++ l) quiet
          ∙ append-nil (deliveries es);
    }

    received-Onwards :
        (dg : List ℕ) (d : Datagram)
        → s.phase ≡ receiving
        → decode_datagram dg ≡ ok d
        → Onwards seen (shown d) es (drain_item d s)
    unfolding drain_item arrivals deliveries
    received-Onwards dg (sig_first v) p e =
        moves (shown (sig_first v)) (arrival (sig_first v)) (drain_item (sig_first v) s)
          (received dg (sig_first v) p e) refl refl (λ x h. absurd (ground (arith, h)))
    received-Onwards dg (heartbeat v) p e =
        moves [] silent (drain_item (heartbeat v) s) (received dg (heartbeat v) p e) refl refl
          r.cause
    received-Onwards dg (unknown_datagram tag) p e =
        moves [] silent s (received dg (unknown_datagram tag) p e) refl refl r.cause

    select-Onwards :
        (ph : Phase) → s.phase ≡ ph → (s' : SigFirstSub) × (producer s ≡ s') × Onwards seen [] es s'
    unfolding producer push_send push_evict push_retry arrivals deliveries
    select-Onwards receiving p =
        (s, rw (producer, p) (ap (λ ph. record s { phase = ph }) p), stays [])
    select-Onwards (sending it) p = (
      push_send it s,
      rw (producer, p) refl,
      moves [] silent (push_send it s) (sent it p) refl refl (λ x h. absurd (ground (arith, h))),
    )
    select-Onwards (evicting it) p = (
      (push_evict it s).1,
      rw (producer, p) refl,
      moves [] (push_evict it s).0 (push_evict it s).1 (evicts it p) (ground arith) (ground arith)
          (λ x h. absurd (ground (arith, h))),
    )
    select-Onwards (retrying it) p = (
      (push_retry it s).1,
      rw (producer, p) refl,
      moves [] (push_retry it s).0 (push_retry it s).1 (retried it p) (ground arith) (ground arith)
          (λ x h. absurd (ground (arith, h))),
    )
    select-Onwards (returned x) p =
        (s, rw (producer, p) (ap (λ ph. record s { phase = ph }) p), stays [])

    -- A step of the goroutine that it may make or not.
    abbrev Steps : DrainStep → Type 0
    Steps d =
        (s' : SigFirstSub) × (drain_step d s ≡ ok s')
        × Onwards seen (items_of (datagrams_of (d ∷ []))) es s'

    datagram-Steps : (dg : List ℕ) (ph : Phase) → All IsByte dg → s.phase ≡ ph → Steps (datagram dg)
    unfolding drain_step items_of
    datagram-Steps dg receiving bytes p = elim (decode_datagram_total dg bytes) [
      | inl (d, e, shows) ↦ (
        drain_item d s,
        ap (λ ph. at_recv ph (drain_datagram dg s) (ok s)) p ∙ drain_datagram_ok dg d s e,
        subst (λ l. Onwards seen l es (drain_item d s))
            (sym (append-nil (shown d)) ∙ ap (λ r. shown_result r ++ []) (sym e))
            (received-Onwards dg d p e),
      )
      | inr (e, short) ↦ (
        s,
        ap (λ ph. at_recv ph (drain_datagram dg s) (ok s)) p ∙ drain_datagram_skip dg s e,
        stays _,
      )
    ]
    datagram-Steps dg (sending it) bytes p = (s, rw (drain_step, p) refl, stays _)
    datagram-Steps dg (evicting it) bytes p = (s, rw (drain_step, p) refl, stays _)
    datagram-Steps dg (retrying it) bytes p = (s, rw (drain_step, p) refl, stays _)
    datagram-Steps dg (returned x) bytes p = (s, rw (drain_step, p) refl, stays _)

    connection_error-Steps :
        (e : Error) (ph : Phase) → Came e → s.phase ≡ ph → Steps (connection_error e)
    unfolding drain_step drain_error arrivals deliveries items_of
    connection_error-Steps e receiving came p = (
      drain_error e s,
      rw (drain_step, p) refl,
      moves [] silent (drain_error e s) (failed e p) refl refl (λ x h. (e, came, cc h)),
    )
    connection_error-Steps e (sending it) came p = (s, rw (drain_step, p) refl, stays _)
    connection_error-Steps e (evicting it) came p = (s, rw (drain_step, p) refl, stays _)
    connection_error-Steps e (retrying it) came p = (s, rw (drain_step, p) refl, stays _)
    connection_error-Steps e (returned x) came p = (s, rw (drain_step, p) refl, stays _)

    drain_step-Onwards :
        (d : DrainStep)
        → All (All IsByte) (datagrams_of (d ∷ []))
        → All Came (errors_of (d ∷ []))
        → Steps d
    unfolding drain_step items_of
    drain_step-Onwards (datagram dg) (bytes, _) came = datagram-Steps dg s.phase bytes refl
    drain_step-Onwards (connection_error e) bytes (came, _) =
        connection_error-Steps e s.phase came refl
    drain_step-Onwards select bytes came =
        let (s', made, onwards) = select-Onwards s.phase refl in (s', ap ok made, onwards)

    -- What a call of `Next` does.
    pub next-Reached :
        ((it : SigFirstItem) × (s' : SigFirstSub) × (next s ≡ item it s')
          × Reached seen (es ++ (delivered it ∷ [])) s'
          × (deliveries (es ++ (delivered it ∷ [])) ≡ deliveries es ++ (it ∷ [])))
        ⊎ ((s.queue ≡ []) × ((x : Error) × (next s ≡ ended x) × (s.phase ≡ returned x)))
        ⊎ ((s.queue ≡ []) × (next s ≡ waiting))
    unfolding arrivals deliveries
    next-Reached = elim (next-queue s s.queue refl) [
      | inr done ↦ inr done
      | inl (it, s', took) ↦
          let (q, front, same) = next-item s it s' took in
          let phase : s'.phase ≡ s.phase = ap (λ s. s.phase) (sym same) in
          inl (
            it,
            s',
            took,
            record {
              run = then_step es s (delivered it) s' r.run (taken it s' took);
              part =
                  subst (λ l. Sublistᴰ l seen)
                    (sym (arrivals-append es (delivered it ∷ []) ∙ append-nil (arrivals es)))
                    r.part;
              cause = λ x h. r.cause x (sym phase ∙ h);
            },
            deliveries-append es (delivered it ∷ []),
          )
    ]

  -- Any number of steps.
  pub drain_steps-Onwards :
      (steps : List DrainStep) (seen : List SigFirstItem) (es : List Event) (s : SigFirstSub)
      → Reached seen es s
      → All (All IsByte) (datagrams_of steps)
      → All Came (errors_of steps)
      → (s' : SigFirstSub) × (drain_steps steps s ≡ ok s')
        × Onwards seen (items_of (datagrams_of steps)) es s'
  unfolding drain_steps
  drain_steps-Onwards [] seen es s r bytes came = (s, refl, stays seen es s r _)
  drain_steps-Onwards (d ∷ steps) seen es s r bytes came =
      let (b, bs) = split_datagrams (All IsByte) d steps bytes in
      let (c, cs) = split_errors Came d steps came in
      let came_now : List SigFirstItem = items_of (datagrams_of (d ∷ [])) in
      let later : List SigFirstItem = items_of (datagrams_of steps) in
      let (s₁, made, now) = drain_step-Onwards seen es s r d b c in
      let (s₂, ran, then) =
        drain_steps-Onwards steps (seen ++ came_now) (es ++ now.new) s₁ now.reached bs cs in
      let joined = append_assoc es now.new then.new in
      (
        s₂,
        ap (λ r. pulse_go.Go.◌>>=◌ r (drain_steps steps)) made ∙ ran,
        record {
          new = now.new ++ then.new;
          reached =
              subst (λ fs. Reached (seen ++ items_of (datagrams_of (d ∷ steps))) fs s₂) joined
                (subst (λ l. Reached l ((es ++ now.new) ++ then.new) s₂)
                  (append_assoc seen came_now later
                    ∙ ap (λ l. seen ++ l) (sym (items_of-cons d steps)))
                  then.reached);
          quiet = ap deliveries (sym joined) ∙ then.quiet ∙ now.quiet;
        },
      )
