-- ===== src/Client/Admitted.antt =====
-- When `SubscribeSigFirst` succeeds.
use pulse_go.Base.{
  ℕ, ◌≡◌, ◌↔◌, refl, sym, ap, ◌∙◌, String, true, false, Option, none, List, ◌++◌, inl, inr,
  Bool-cases,
}
use pulse_go.Base.Int.{ℤ, pos, negsuc}
use pulse_go.Errors.{already_subscribed}
use pulse_go.Go.{Result, ok, err}
use pulse_go.Control.{Ack, claim_subscription}
use pulse_go.Message.{Filter, Json, wire_control, control_message}
use pulse_go.Transport.{Peer, World, M, pure, ◌>>=◌, lift, continue}
use pulse_go.Transport.Sequence.{calls_of, and_calls, AllAnswered, continue-ok}
use pulse_go.Sig.{new_sig_first_sub}
use pulse_go.Client.{Client, SigFirstHandle, claim, send_control, channel_size, subscribe_sig_first}
use pulse_go.Client.RoundTrip.{
  round_trip_row, deadline_after, acked, control_round_trip-ok, control_round_trip-answered,
  control_round_trip-marshalled,
}
use pulse_go.Client.Subscribe.{claim-untaken}

-- What is left of `SubscribeSigFirst` behind the acknowledgement.
abbrev pub handle : Client → ℕ → SigFirstHandle
handle c n = record { has_conn = true; ack_timeout = c.ack_timeout; sub = new_sig_first_sub n }

abbrev pub after_ack : Client → M SigFirstHandle
after_ack c = lift (channel_size c.sig_queue_capacity) >>= λ n. pure (handle c n)

after_ack-ok :
    (c : Client) (w : World) (h : SigFirstHandle)
    → (after_ack c w).0 ≡ ok h
    → (n : ℕ) × (c.sig_queue_capacity ≡ pos n) × (handle c n ≡ h)
after_ack-ok c w h done = by_size c.sig_queue_capacity refl done
  where
    by_size :
        (z : ℤ)
        → c.sig_queue_capacity ≡ z
        → (continue (channel_size z) w (λ n. pure (handle c n))).0 ≡ ok h
        → (n : ℕ) × (c.sig_queue_capacity ≡ pos n) × (handle c n ≡ h)
    by_size (pos n) e got = (n, e, cc got)
    by_size (negsuc n) e got = absurd (cc got)

module _ (peer : Peer) (marshal : List (String × Json) → Result (List ℕ))
    (unmarshal : List ℕ → Option Ack) where
  -- What a subscription takes: a client that has none, a message that can be encoded, calls that are
  -- answered, an acknowledgement that is accepted, and a capacity that is not negative.
  pub record Admitted (c : Client) (context : Option ℕ) (f : Filter) (w : World) : Type 0 where
    pub untaken : w.subscription_taken ≡ false
    pub body : List ℕ
    pub marshalled : marshal (wire_control (control_message c.token f false none)) ≡ ok body
    pub asked :
        AllAnswered peer w.calls
          (round_trip_row (deadline_after peer context c.ack_timeout w.calls) body)
    pub ack : Ack
    pub acknowledged :
        acked peer marshal unmarshal true (
          w.calls
          ++ calls_of (round_trip_row (deadline_after peer context c.ack_timeout w.calls) body))
        ≡ ok ack
    pub capacity : ℕ
    pub sized : c.sig_queue_capacity ≡ pos capacity

  -- The subscription that it gives: an empty queue of that capacity.
  abbrev pub admitted_handle :
      (c : Client) (context : Option ℕ) (f : Filter) (w : World)
      → Admitted c context f w
      → SigFirstHandle
  admitted_handle c context f w g = record {
    has_conn = true;
    ack_timeout = c.ack_timeout;
    sub = new_sig_first_sub g.capacity;
  }

  pub subscribe_sig_first-untaken :
      (c : Client) (context : Option ℕ) (f : Filter) (w : World)
      → w.subscription_taken ≡ false
      → subscribe_sig_first peer marshal unmarshal c context f w
        ≡ (send_control peer marshal unmarshal c context f false none >>= λ ack. after_ack c)
            (record w { subscription_taken = true })
  unfolding subscribe_sig_first
  subscribe_sig_first-untaken c context f w e =
      ap
        (λ r.
          continue r.0 r.1 (λ u.
            send_control peer marshal unmarshal c context f false none >>= λ ack. after_ack c))
        (claim-untaken peer marshal unmarshal w e)

  pub subscribe_sig_first-taken :
      (c : Client) (context : Option ℕ) (f : Filter) (w : World)
      → w.subscription_taken ≡ true
      → subscribe_sig_first peer marshal unmarshal c context f w ≡ (err already_subscribed, w)
  unfolding subscribe_sig_first claim claim_subscription
  subscribe_sig_first-taken c context f w e = rw e refl

  subscribe_sig_first-Admitted :
      (c : Client) (context : Option ℕ) (f : Filter) (w : World) (g : Admitted c context f w)
      → (subscribe_sig_first peer marshal unmarshal c context f w).0
        ≡ ok (admitted_handle c context f w g)
  unfolding send_control
  subscribe_sig_first-Admitted c context f w g =
      let w₁ : World = record w { subscription_taken = true } in
      let trip =
        control_round_trip-answered peer marshal unmarshal context c.token f false none true
          c.ack_timeout g.body g.marshalled w₁ g.asked in
      let w₂ : World =
        and_calls w₁
          (calls_of (round_trip_row (deadline_after peer context c.ack_timeout w.calls) g.body)) in
      ap (λ r. r.0)
        (subscribe_sig_first-untaken c context f w g.untaken
          ∙ ap (λ r. continue r.0 r.1 (λ ack. after_ack c)) trip
          ∙ ap (λ r. continue r w₂ (λ ack. after_ack c)) g.acknowledged
          ∙ ap (λ z. continue (channel_size z) w₂ (λ n. pure (handle c n))) g.sized)

  subscribe_sig_first-only :
      (c : Client) (context : Option ℕ) (f : Filter) (w : World) (h : SigFirstHandle)
      → (subscribe_sig_first peer marshal unmarshal c context f w).0 ≡ ok h
      → (g : Admitted c context f w) × (admitted_handle c context f w g ≡ h)
  unfolding send_control
  subscribe_sig_first-only c context f w h done = elim (Bool-cases w.subscription_taken) [
    | inl taken ↦ absurd (cc (done, ap (λ r. r.0) (subscribe_sig_first-taken c context f w taken)))
    | inr untaken ↦
        let w₁ : World = record w { subscription_taken = true } in
        let started = subscribe_sig_first-untaken c context f w untaken in
        let sent = send_control peer marshal unmarshal c context f false none w₁ in
        let (ack, acked_ok, ran) =
          continue-ok sent.0 sent.1 (λ ack. after_ack c) h (sym (ap (λ r. r.0) started) ∙ done) in
        let (body, marshalled) =
          control_round_trip-marshalled peer marshal unmarshal context c.token f false none true
            c.ack_timeout w₁ ack acked_ok in
        let (asked, acknowledged, trip) =
          control_round_trip-ok peer marshal unmarshal context c.token f false none true
            c.ack_timeout body marshalled w₁ ack acked_ok in
        let (n, sized, made) =
          after_ack-ok c sent.1 h (sym (ap (λ r. r.0) (started ∙ ran)) ∙ done) in
        (
          record {
            untaken = untaken;
            body = body;
            marshalled = marshalled;
            asked = asked;
            ack = ack;
            acknowledged = acknowledged;
            capacity = n;
            sized = sized;
          },
          made,
        )
  ]

  -- `SubscribeSigFirst` returns a subscription just when it is admitted: the client has none yet, the
  -- control message can be encoded, every call is answered without an error, the acknowledgement on
  -- the control stream is accepted, and the capacity of the queue is not negative. The subscription
  -- then has an empty queue of that capacity.
  pub subscribe_sig_first_iff :
      (c : Client) (context : Option ℕ) (f : Filter) (w : World) (h : SigFirstHandle)
      → ((subscribe_sig_first peer marshal unmarshal c context f w).0 ≡ ok h)
        ↔ ((g : Admitted c context f w) × (admitted_handle c context f w g ≡ h))
  subscribe_sig_first_iff c context f w h = (
    subscribe_sig_first-only c context f w h,
    λ (g, made). subscribe_sig_first-Admitted c context f w g ∙ ap ok made,
  )
