-- ===== src/Client/Subscribe/Only.antt =====
-- What a subscription of the full-tx tier has done when it succeeds.
use pulse_go.Base.{
  ℕ, ◌≡◌, refl, ap, sym, ◌∙◌, arith, String, true, Option, none, List, ◌++◌, inl, inr, Bool-cases,
  Option-cases, subst,
}
use pulse_go.Go.{Result, ok, Reader}
use pulse_go.Control.{Ack}
use pulse_go.Message.{Filter, Json, Strings}
use pulse_go.Transport.{Call, set_stream_read_deadline, Peer, World, bounded_deadline, perform}
use pulse_go.Transport.Sequence.{
  continue-ok, Row, calls_of, and_calls, AllAnswered, perform_all-cases,
}
use pulse_go.Stream.{preamble, verify_preamble}
use pulse_go.Stream.Ends.{verify_preamble_iff, ending-verify_preamble}
use pulse_go.Client.{Client, FullSub, send_control, receive_preamble, subscribe_full}
use pulse_go.Client.RoundTrip.{
  round_trip_row, deadline_after, control_round_trip-ok, control_round_trip-marshalled,
}
use pulse_go.Client.Subscribe.{
  stream_row, clear_row, full_sub, clear_deadline, receive_stream, after_ack, Granted, granted_sub,
  subscribe_full-untaken, subscribe_full-taken,
}

module _ (peer : Peer) (marshal : List (String × Json) → Result (List ℕ))
    (unmarshal : List ℕ → Option Ack) where
  receive_preamble-ok :
      (w : World) (rs : Reader)
      → (receive_preamble peer marshal unmarshal w).0 ≡ ok rs
      → ((peer.uni_reader w.calls).bytes ≡ preamble ++ rs.bytes)
        × (rs.ending ≡ (peer.uni_reader w.calls).ending)
        × (receive_preamble peer marshal unmarshal w ≡ (ok rs, w))
  unfolding receive_preamble
  receive_preamble-ok w rs h =
      let r = peer.uni_reader w.calls in
      elim (Option-cases (verify_preamble r).0) [
        | inl fine ↦
            let rest : (verify_preamble r).1 ≡ rs = ground (arith, fine, h) in
            let ending : rs.ending ≡ r.ending =
              sym (ap (λ x. x.ending) rest) ∙ ending-verify_preamble r in
            (
              (verify_preamble_iff r rs.bytes).0 (ground (arith, fine, rest, ending)),
              ending,
              ground (arith, fine, rest),
            )
        | inr (x, bad) ↦ absurd (ground (arith, bad, h))
      ]

  clear_deadline-ok :
      (c : Client) (rs : Reader) (w : World) (sub : FullSub)
      → (clear_deadline peer marshal unmarshal c rs w).0 ≡ ok sub
      → (peer.answer w.calls (set_stream_read_deadline none) ≡ none)
        × (full_sub c rs ≡ sub)
        × (clear_deadline peer marshal unmarshal c rs w
            ≡ (ok sub, and_calls w (calls_of clear_row)))
  unfolding clear_deadline perform
  clear_deadline-ok c rs w sub h =
      elim (Option-cases (peer.answer w.calls (set_stream_read_deadline none))) [
        | inl e ↦ (e, ground (arith, e, h), ground (arith, e, h))
        | inr (x, e) ↦ absurd (ground (arith, e, h))
      ]

  -- A stream that was received: the preamble was in front of what is left, and the deadline was
  -- cleared.
  record Received (c : Client) (w : World) (sub : FullSub) (r : Result FullSub × World)
      : Type 0 where
    rest : List ℕ
    starts : (peer.uni_reader w.calls).bytes ≡ preamble ++ rest
    cleared : peer.answer w.calls (set_stream_read_deadline none) ≡ none
    made : full_sub c (record { bytes = rest; ending = (peer.uni_reader w.calls).ending }) ≡ sub
    outcome : r ≡ (ok sub, and_calls w (calls_of clear_row))

  receive_stream-Received :
      (c : Client) (w : World) (sub : FullSub)
      → (receive_stream peer marshal unmarshal c w).0 ≡ ok sub
      → Received c w sub (receive_stream peer marshal unmarshal c w)
  unfolding receive_stream
  receive_stream-Received c w sub h =
      let got = receive_preamble peer marshal unmarshal w in
      let (rs, e, ran) = continue-ok got.0 got.1 (clear_deadline peer marshal unmarshal c) sub h in
      let (starts, ends, same) = receive_preamble-ok w rs e in
      let ran' = ran ∙ ap (λ r. clear_deadline peer marshal unmarshal c rs r.1) same in
      let (cleared, made, done) = clear_deadline-ok c rs w sub (sym (ap (λ r. r.0) ran') ∙ h) in
      record {
        rest = rs.bytes;
        starts = starts;
        cleared = cleared;
        made = ap (λ e. full_sub c (record { bytes = rs.bytes; ending = e })) (sym ends) ∙ made;
        outcome = ran' ∙ done;
      }

  -- The stream behind the acknowledgement.
  after_ack-Received :
      (c : Client) (context : Option ℕ) (w : World) (sub : FullSub)
      → (after_ack peer marshal unmarshal c context w).0 ≡ ok sub
      → let row : Row = stream_row (deadline_after peer context c.preamble_timeout w.calls) in
        AllAnswered peer w.calls row
        × Received c (and_calls w (calls_of row)) sub (after_ack peer marshal unmarshal c context w)
  unfolding after_ack bounded_deadline
  after_ack-Received c context w sub h =
      let row : Row = stream_row (deadline_after peer context c.preamble_timeout w.calls) in
      elim (perform_all-cases peer (receive_stream peer marshal unmarshal c) row w) [
        | inl (all, ran) ↦
            let got =
              receive_stream-Received c (and_calls w (calls_of row)) sub
                (sym (ap (λ r. r.0) ran) ∙ h) in
            (all, subst (Received c (and_calls w (calls_of row)) sub) (sym ran) got)
        | inr failed ↦ absurd (cc (h, ap (λ r. r.0) failed.outcome))
      ]

  pub subscribe_full-only :
      (c : Client) (context : Option ℕ) (f : Filter) (fields : Strings) (w : World) (sub : FullSub)
      → (subscribe_full peer marshal unmarshal c context f fields w).0 ≡ ok sub
      → (g : Granted peer marshal unmarshal c context f fields w) × (granted_sub peer marshal
            unmarshal c context f fields w g
          ≡ sub)
  unfolding send_control
  subscribe_full-only c context f fields w sub h = elim (Bool-cases w.subscription_taken) [
    | inl taken ↦ absurd (
        cc (
          h,
          ap (λ r. r.0) (subscribe_full-taken peer marshal unmarshal c context f fields w taken),
        ))
    | inr untaken ↦
        let w₁ : World = record w { subscription_taken = true } in
        let start = subscribe_full-untaken peer marshal unmarshal c context f fields w untaken in
        let sent = send_control peer marshal unmarshal c context f true fields w₁ in
        let (ack, acked_ok, ran) =
          continue-ok sent.0 sent.1 (λ ack. after_ack peer marshal unmarshal c context) sub
            (sym (ap (λ r. r.0) start) ∙ h) in
        let (body, marshalled) =
          control_round_trip-marshalled peer marshal unmarshal context c.token f true fields true
            c.ack_timeout w₁ ack acked_ok in
        let (asked, acknowledged, trip) =
          control_round_trip-ok peer marshal unmarshal context c.token f true fields true
            c.ack_timeout body marshalled w₁ ack acked_ok in
        let calls₂ : List Call =
          w.calls
          ++ calls_of (round_trip_row (deadline_after peer context c.ack_timeout w.calls) body) in
        let w₂ : World = record { calls = calls₂; subscription_taken = true } in
        let ran' = start ∙ ran ∙ ap (λ r. after_ack peer marshal unmarshal c context r.1) trip in
        let (opened, got) = after_ack-Received c context w₂ sub (sym (ap (λ r. r.0) ran') ∙ h) in
        (
          record {
            untaken = untaken;
            body = body;
            marshalled = marshalled;
            asked = asked;
            before_stream = calls₂;
            before_stream_lem = refl;
            ack = ack;
            acknowledged = acknowledged;
            opened = opened;
            before_preamble =
                calls₂
                ++ calls_of (stream_row (deadline_after peer context c.preamble_timeout calls₂));
            before_preamble_lem = refl;
            rest = got.rest;
            starts = got.starts;
            cleared = got.cleared;
          },
          got.made,
        )
  ]
