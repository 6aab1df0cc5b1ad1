-- ===== src/Client/Subscribe/Complete.antt =====
-- Under which conditions a subscription of the full-tx tier succeeds.
use pulse_go.Base.{ℕ, ◌≡◌, ◌↔◌, refl, ap, sym, ◌∙◌, arith, String, true, Option, none, List, ◌++◌}
use pulse_go.Go.{Result, ok, Reader}
use pulse_go.Control.{Ack}
use pulse_go.Message.{Filter, Json, Strings}
use pulse_go.Transport.{
  Call, set_stream_read_deadline, Peer, World, continue, perform, bounded_deadline,
}
use pulse_go.Transport.Sequence.{Row, calls_of, and_calls, AllAnswered, perform_all-answered}
use pulse_go.Stream.{preamble}
use pulse_go.Stream.Ends.{verify_preamble_iff}
use pulse_go.Client.{Client, FullSub, send_control, receive_preamble, subscribe_full}
use pulse_go.Client.RoundTrip.{deadline_after, acked, control_round_trip-answered}
use pulse_go.Client.Subscribe.{
  stream_row, clear_row, full_sub, clear_deadline, receive_stream, after_ack,
  subscribe_full-untaken, Granted, granted_sub, granted_world,
}
use pulse_go.Client.Subscribe.Only.{subscribe_full-only}

module _ (peer : Peer) (marshal : List (String × Json) → Result (List ℕ))
    (unmarshal : List ℕ → Option Ack) where
  receive_preamble-starts :
      (w : World) (rest : List ℕ)
      → (peer.uni_reader w.calls).bytes ≡ preamble ++ rest
      → receive_preamble peer marshal unmarshal w
        ≡ (ok (record { bytes = rest; ending = (peer.uni_reader w.calls).ending }), w)
  unfolding receive_preamble
  receive_preamble-starts w rest starts =
      let e = (verify_preamble_iff (peer.uni_reader w.calls) rest).1 starts in
      ground (arith, ap (λ r. r.0) e, ap (λ r. r.1) e)

  clear_deadline-cleared :
      (c : Client) (rs : Reader) (w : World)
      → peer.answer w.calls (set_stream_read_deadline none) ≡ none
      → clear_deadline peer marshal unmarshal c rs w
        ≡ (ok (full_sub c rs), and_calls w (calls_of clear_row))
  unfolding clear_deadline perform
  clear_deadline-cleared c rs w e = rw e refl

  after_ack-opened :
      (c : Client) (context : Option ℕ) (w : World) (before : List Call) (rest : List ℕ)
      → let row : Row = stream_row (deadline_after peer context c.preamble_timeout w.calls) in
        before ≡ w.calls ++ calls_of row
        → AllAnswered peer w.calls row
        → (peer.uni_reader before).bytes ≡ preamble ++ rest
        → peer.answer before (set_stream_read_deadline none) ≡ none
        → after_ack peer marshal unmarshal c context w ≡ (
          ok (full_sub c (record { bytes = rest; ending = (peer.uni_reader before).ending })),
          record w { calls = before ++ calls_of clear_row },
        )
  unfolding after_ack bounded_deadline receive_stream
  after_ack-opened c context w before rest split all starts cleared =
      let row : Row = stream_row (deadline_after peer context c.preamble_timeout w.calls) in
      let w' : World = record w { calls = before } in
      perform_all-answered peer (receive_stream peer marshal unmarshal c) row w all
      ∙ ap (λ calls. receive_stream peer marshal unmarshal c (record w { calls = calls }))
          (sym split)
      ∙ ap (λ r. continue r.0 r.1 (clear_deadline peer marshal unmarshal c))
          (receive_preamble-starts w' rest starts)
      ∙ clear_deadline-cleared c (record { bytes = rest; ending = (peer.uni_reader before).ending })
          w' cleared

  pub subscribe_full-Granted :
      (c : Client) (context : Option ℕ) (f : Filter) (fields : Strings) (w : World)
      (g : Granted peer marshal unmarshal c context f fields w)
      → subscribe_full peer marshal unmarshal c context f fields w ≡ (
        ok (granted_sub peer marshal unmarshal c context f fields w g),
        granted_world peer marshal unmarshal c context f fields w g,
      )
  unfolding send_control
  subscribe_full-Granted c context f fields w g =
      let w₁ : World = record w { subscription_taken = true } in
      let trip =
        control_round_trip-answered peer marshal unmarshal context c.token f true fields true
          c.ack_timeout g.body g.marshalled w₁ g.asked in
      subscribe_full-untaken peer marshal unmarshal c context f fields w g.untaken
      ∙ ap (λ r. continue r.0 r.1 (λ ack. after_ack peer marshal unmarshal c context)) trip
      ∙ ap
          (λ calls.
            continue (acked peer marshal unmarshal true calls) (record w₁ { calls = calls })
              (λ ack. after_ack peer marshal unmarshal c context))
          (sym g.before_stream_lem)
      ∙ ap
          (λ r.
            continue r (record w₁ { calls = g.before_stream })
              (λ ack. after_ack peer marshal unmarshal c context))
          g.acknowledged
      ∙ after_ack-opened c context (record w₁ { calls = g.before_stream }) g.before_preamble g.rest
          g.before_preamble_lem g.opened g.starts g.cleared

  -- `SubscribeFull` returns a subscription just when it is granted: the client has none yet, the
  -- control message can be encoded, every call is answered without an error, the acknowledgement on
  -- the control stream is accepted, and the stream starts with the preamble. It is then the
  -- subscription that reads all of the stream behind the preamble.
  pub subscribe_full_iff :
      (c : Client) (context : Option ℕ) (f : Filter) (fields : Strings) (w : World) (sub : FullSub)
      → ((subscribe_full peer marshal unmarshal c context f fields w).0 ≡ ok sub) ↔ (
          (g : Granted peer marshal unmarshal c context f fields w) × (granted_sub peer marshal
              unmarshal c context f fields w g
            ≡ sub))
  subscribe_full_iff c context f fields w sub = (
    subscribe_full-only peer marshal unmarshal c context f fields w sub,
    λ (g, made). ap (λ r. r.0) (subscribe_full-Granted c context f fields w g) ∙ ap ok made,
  )
