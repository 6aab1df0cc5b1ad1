-- ===== src/Client/Subscribe.antt =====
-- The subscription of the full-tx tier: what it takes, and the steps that it is made of.
pub mod Only
pub mod Complete
use pulse_go.Base.{
  ℕ, ◌≡◌, ◌⊎◌, refl, ap, sym, ◌∙◌, arith, String, Bool, true, false, Option, none, some, List, [],
  ◌∷◌, ◌++◌, inl, inr, Bool-cases, Option-cases, subst,
}
use pulse_go.Base.Int.{ℤ}
use pulse_go.Errors.{Error, already_subscribed}
use pulse_go.Go
use pulse_go.Go.{Result, ok, err, panic, Reader}
use pulse_go.Control.{Ack, read_ack, claim_subscription}
use pulse_go.Message.{Filter, Json, Strings, wire_control, control_message}
use pulse_go.Transport.{
  Call, accept_uni_stream, set_stream_read_deadline, Peer, World, M, ◌>>=◌, ◌>>◌, pure, lift,
  continue, bounded_deadline, perform,
}
use pulse_go.Transport.Sequence.{
  continue-ok, Row, calls_of, and_calls, perform_all, AllAnswered, FailsAt, perform_all-cases,
}
use pulse_go.Stream.{preamble, verify_preamble}
use pulse_go.Stream.Ends.{verify_preamble_iff, ending-verify_preamble}
use pulse_go.Client.{
  Client, FullSub, claim, send_control, control_round_trip, receive_preamble, subscribe_full,
  option_result,
}
use pulse_go.Client.RoundTrip.{
  round_trip_row, deadline_after, acked, control_round_trip-ok, control_round_trip-marshalled,
}

-- The calls for the stream, once the subscription is acknowledged.
abbrev pub stream_row : ℕ → Row
stream_row deadline =
    ("accept full-tx stream", accept_uni_stream deadline)
    ∷ ("set full-tx preamble deadline", set_stream_read_deadline (some deadline))
    ∷ []

abbrev pub clear_row : Row
clear_row = ("clear full-tx preamble deadline", set_stream_read_deadline none) ∷ []

abbrev pub full_sub : Client → Reader → FullSub
full_sub c rs = record { rs = rs; ack_timeout = c.ack_timeout; heartbeat = none }

module _ (peer : Peer) (marshal : List (String × Json) → Result (List ℕ))
    (unmarshal : List ℕ → Option Ack) where
  pub claim-untaken :
      (w : World)
      → w.subscription_taken ≡ false
      → claim peer marshal unmarshal w ≡ (ok tt, record w { subscription_taken = true })
  unfolding claim claim_subscription
  claim-untaken w e = rw e refl

  -- The rest of `SubscribeFull` behind the preamble, behind the stream's deadline, and behind the
  -- acknowledgement.
  unfoldable pub clear_deadline : Client → Reader → M FullSub
  clear_deadline c rs =
      perform peer "clear full-tx preamble deadline" (set_stream_read_deadline none)
      >> pure (full_sub c rs)

  unfoldable pub receive_stream : Client → M FullSub
  receive_stream c = receive_preamble peer marshal unmarshal >>= clear_deadline c

  unfoldable pub after_ack : Client → Option ℕ → M FullSub
  after_ack c context = do
    deadline ← bounded_deadline peer context c.preamble_timeout
    perform_all peer (stream_row deadline) (receive_stream c)

  -- What a subscription takes: a client that has none, a message that can be encoded, calls that are
  -- answered, an acknowledgement that is accepted, and a stream that starts with the preamble.
  pub record Granted (c : Client) (context : Option ℕ) (f : Filter) (fields : Strings) (w : World)
      : Type 0 where
    pub untaken : w.subscription_taken ≡ false
    pub body : List ℕ
    pub marshalled : marshal (wire_control (control_message c.token f true fields)) ≡ ok body
    pub asked :
        AllAnswered peer w.calls
          (round_trip_row (deadline_after peer context c.ack_timeout w.calls) body)
    pub before_stream : List Call
    pub before_stream_lem :
        before_stream
        ≡ w.calls
          ++ calls_of (round_trip_row (deadline_after peer context c.ack_timeout w.calls) body)
    pub ack : Ack
    pub acknowledged : acked peer marshal unmarshal true before_stream ≡ ok ack
    pub opened :
        AllAnswered peer before_stream
          (stream_row (deadline_after peer context c.preamble_timeout before_stream))
    pub before_preamble : List Call
    pub before_preamble_lem :
        before_preamble
        ≡ before_stream
          ++ calls_of (stream_row (deadline_after peer context c.preamble_timeout before_stream))
    pub rest : List ℕ
    pub starts : (peer.uni_reader before_preamble).bytes ≡ preamble ++ rest
    pub cleared : peer.answer before_preamble (set_stream_read_deadline none) ≡ none

  -- The subscription that it gives: all that is left of the stream behind the preamble.
  abbrev pub granted_sub :
      (c : Client) (context : Option ℕ) (f : Filter) (fields : Strings) (w : World)
      → Granted c context f fields w
      → FullSub
  granted_sub c context f fields w g =
      full_sub c (record { bytes = g.rest; ending = (peer.uni_reader g.before_preamble).ending })

  abbrev pub granted_world :
      (c : Client) (context : Option ℕ) (f : Filter) (fields : Strings) (w : World)
      → Granted c context f fields w
      → World
  granted_world c context f fields w g = record {
    calls = g.before_preamble ++ calls_of clear_row;
    subscription_taken = true;
  }

  pub subscribe_full-untaken :
      (c : Client) (context : Option ℕ) (f : Filter) (fields : Strings) (w : World)
      → w.subscription_taken ≡ false
      → subscribe_full peer marshal unmarshal c context f fields w
        ≡ (send_control peer marshal unmarshal c context f true fields >>= λ ack.
              after_ack c context)
            (record w { subscription_taken = true })
  unfolding subscribe_full after_ack perform_all receive_stream clear_deadline
  subscribe_full-untaken c context f fields w e =
      ap
        (λ r. continue r.0 r.1 (λ u.
          send_control peer marshal unmarshal c context f true fields >>= λ ack.
          after_ack c context))
        (claim-untaken w e)

  -- A client that has subscribed subscribes no second time: it makes no call.
  pub subscribe_full-taken :
      (c : Client) (context : Option ℕ) (f : Filter) (fields : Strings) (w : World)
      → w.subscription_taken ≡ true
      → subscribe_full peer marshal unmarshal c context f fields w ≡ (err already_subscribed, w)
  unfolding subscribe_full claim claim_subscription
  subscribe_full-taken c context f fields w e = rw e refl
