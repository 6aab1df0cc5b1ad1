-- ===== src/Client/Once.antt =====
-- A subscription of either tier: the calls that it adds, and that a client subscribes once.
use pulse_go.Base.{
  All, ℕ, ◌≡◌, ap, ◌∙◌, sym, subst, String, Bool, true, false, Option, none, List, Bool-cases, inl,
  inr,
}
use pulse_go.Transport.Sequence.{calls_of}
use pulse_go.Transport.Extends.{
  Extends, Extends-refl, Extends-trans, continue-Extends, lift-Adds, pure-Adds, bind-Adds,
}
use pulse_go.Client.{channel_size}
use pulse_go.Client.Admitted
use pulse_go.Client.Admitted.{handle, subscribe_sig_first-untaken, subscribe_sig_first-taken}
use pulse_go.Client.RoundTrip.{round_trip_row, deadline_after}
use pulse_go.Client.Subscribe.{
  stream_row, clear_row, after_ack, subscribe_full-taken, subscribe_full-untaken,
}
use pulse_go.Client.Extends.{control_round_trip-Extends, after_ack-Extends}
use pulse_go.Message.{wire_control, control_message}
use pulse_go.Errors.{already_subscribed}
use pulse_go.Go.{Result, ok, err}
use pulse_go.Control.{Ack}
use pulse_go.Message.{Filter, Json, Strings}
use pulse_go.Transport.{Call, Peer, World, M, pure, continue, ◌>>=◌, lift}
use pulse_go.Client.{Client, send_control, subscribe_sig_first, subscribe_full}

-- A subscription of either tier.
pub data Tier : Type 0 where
  sig_first : Tier
  full : Strings → Tier

-- What the control message of a tier has for `full` and `fields`.
abbrev pub is_full : Tier → Bool
is_full sig_first = false
is_full (full fields) = true

abbrev pub fields_of : Tier → Strings
fields_of sig_first = none
fields_of (full fields) = fields

abbrev pub taken_world : World → World
taken_world w = record w { subscription_taken = true }

module _ (peer : Peer) (marshal : List (String × Json) → Result (List ℕ))
    (unmarshal : List ℕ → Option Ack) where
  -- The subscription of a tier, without its handle.
  abbrev pub subscribe : Tier → Client → Option ℕ → Filter → M (Unit {0})
  subscribe sig_first c context f =
      subscribe_sig_first peer marshal unmarshal c context f >>= λ h. pure tt
  subscribe (full fields) c context f =
      subscribe_full peer marshal unmarshal c context f fields >>= λ h. pure tt

  module _ (P : Call → Type 0) (c : Client) (context : Option ℕ) (f : Filter) where
    -- What the first subscription of a client does behind its round trip.
    pub subscribe-after :
        (t : Tier) (w : World)
        → w.subscription_taken ≡ false
        → ((calls : List Call)
            → All P (calls_of (stream_row (deadline_after peer context c.preamble_timeout calls))))
        → All P (calls_of clear_row)
        → Extends P
            (send_control peer marshal unmarshal c context f
              (is_full t)
              (fields_of t)
              (taken_world w)).1
            (subscribe t c context f w).1
    subscribe-after sig_first w untaken opened cleared =
        let sent = send_control peer marshal unmarshal c context f false none (taken_world w) in
        let admitted = continue sent.0 sent.1 (λ ack. Admitted.after_ack c) in
        subst (λ r. Extends P sent.1 (continue r.0 r.1 (λ h. pure tt)).1)
          (sym (subscribe_sig_first-untaken peer marshal unmarshal c context f w untaken))
          (continue-Extends P admitted.0 sent.1 admitted.1 (λ h. pure tt)
            (continue-Extends P sent.0 sent.1 sent.1 (λ ack. Admitted.after_ack c)
              (Extends-refl P sent.1)
              (λ ack e.
                bind-Adds P (lift (channel_size c.sig_queue_capacity)) (λ n. pure (handle c n))
                  (lift-Adds P (channel_size c.sig_queue_capacity)) (λ n. pure-Adds P (handle c n))
                  sent.1))
            (λ h e. Extends-refl P admitted.1))
    subscribe-after (full fields) w untaken opened cleared =
        let sent = send_control peer marshal unmarshal c context f true fields (taken_world w) in
        let made = continue sent.0 sent.1 (λ ack. after_ack peer marshal unmarshal c context) in
        subst (λ r. Extends P sent.1 (continue r.0 r.1 (λ h. pure tt)).1)
          (sym (subscribe_full-untaken peer marshal unmarshal c context f fields w untaken))
          (continue-Extends P made.0 sent.1 made.1 (λ h. pure tt)
            (continue-Extends P sent.0 sent.1 sent.1
              (λ ack. after_ack peer marshal unmarshal c context) (Extends-refl P sent.1)
              (λ ack e.
                after_ack-Extends P peer marshal unmarshal c context sent.1 (opened sent.1.calls)
                  cleared))
            (λ h e. Extends-refl P made.1))

    -- The calls of the first subscription of a client: those of its round trip, and for the full
    -- tier those for its stream.
    pub subscribe-Extends :
        (t : Tier) (w : World)
        → w.subscription_taken ≡ false
        → ((body : List ℕ)
            → marshal (wire_control (control_message c.token f (is_full t) (fields_of t))) ≡ ok body
            → All P (
                calls_of (round_trip_row (deadline_after peer context c.ack_timeout w.calls) body)))
        → ((calls : List Call)
            → All P (calls_of (stream_row (deadline_after peer context c.preamble_timeout calls))))
        → All P (calls_of clear_row)
        → Extends P (taken_world w) (subscribe t c context f w).1
    unfolding send_control
    subscribe-Extends t w untaken row opened cleared =
        Extends-trans P (taken_world w)
          (send_control peer marshal unmarshal c context f (is_full t) (fields_of t)
            (taken_world w)).1
          (subscribe t c context f w).1
          (control_round_trip-Extends P peer marshal unmarshal context c.token f (is_full t)
            (fields_of t) true c.ack_timeout (taken_world w) row)
          (subscribe-after t w untaken opened cleared)

  pub subscribe-refused :
      (t : Tier) (c : Client) (context : Option ℕ) (f : Filter) (w : World)
      → w.subscription_taken ≡ true
      → subscribe t c context f w ≡ (err already_subscribed, w)
  subscribe-refused sig_first c context f w taken =
      ap (λ r. continue r.0 r.1 (λ h. pure tt))
        (subscribe_sig_first-taken peer marshal unmarshal c context f w taken)
  subscribe-refused (full fields) c context f w taken =
      ap (λ r. continue r.0 r.1 (λ h. pure tt))
        (subscribe_full-taken peer marshal unmarshal c context f fields w taken)

  pub subscribe-taken :
      (t : Tier) (c : Client) (context : Option ℕ) (f : Filter) (w : World)
      → (subscribe t c context f w).1.subscription_taken ≡ true
  subscribe-taken t c context f w = elim (Bool-cases w.subscription_taken) [
    | inl taken ↦ ap (λ r. r.1.subscription_taken) (subscribe-refused t c context f w taken) ∙ taken
    | inr untaken ↦
        (subscribe-Extends (λ call. Unit {0}) c context f t w untaken
          (λ body e. (tt, (tt, (tt, (tt, (tt, tt)))))) (λ calls. (tt, (tt, tt))) (tt, tt)).3
  ]

  -- A client carries one subscription: after a first subscription of either tier, whatever the peer
  -- did and whether it succeeded or not, a second one of either tier returns ErrAlreadySubscribed,
  -- makes no call to the peer and changes nothing.
  pub subscribe-subscribe :
      (first second : Tier) (c : Client) (context context' : Option ℕ) (f f' : Filter) (w : World)
      → let w' : World = (subscribe first c context f w).1 in
        subscribe second c context' f' w' ≡ (err already_subscribed, w')
  subscribe-subscribe first second c context context' f f' w =
      subscribe-refused second c context' f' (subscribe first c context f w).1
        (subscribe-taken first c context f w)
