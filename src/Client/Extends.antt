-- ===== src/Client/Extends.antt =====
-- What calls the operations of a client add, in terms of the calls of their steps.
use pulse_go.Base.{
  All, ℕ, ◌≡◌, sym, subst, arith, String, Bool, Option, none, List, Option-cases, inl, inr,
}
use pulse_go.Base.Int.{ℤ}
use pulse_go.Go.{Result, ok}
use pulse_go.Control.{Ack}
use pulse_go.Message.{Filter, Json, Strings, wire_control, control_message}
use pulse_go.Stream.{verify_preamble}
use pulse_go.Transport.{
  Call, set_stream_read_deadline, Peer, World, M, pure, ◌>>=◌, lift, perform, bounded_deadline,
}
use pulse_go.Transport.Sequence.{calls_of, perform_all}
use pulse_go.Transport.Extends.{
  Extends, Adds, Extends-refl, continue-Extends, bind-Adds, lift-Adds, pure-Adds, perform-Adds,
  perform_all-Adds,
}
use pulse_go.Client.{Client, check_ack, receive_ack, control_round_trip, receive_preamble}
use pulse_go.Client.RoundTrip.{round_trip_row, deadline_after}
use pulse_go.Client.Subscribe.{
  stream_row, clear_row, full_sub, receive_stream, after_ack, clear_deadline,
}

module _ (P : Call → Type 0) (peer : Peer) (marshal : List (String × Json) → Result (List ℕ))
    (unmarshal : List ℕ → Option Ack) where
  bounded_deadline-Extends :
      {B : Type 0} (context : Option ℕ) (timeout : ℤ) (f : ℕ → M B) (w : World)
      → Extends P w (f (deadline_after peer context timeout w.calls) w).1
      → Extends P w ((bounded_deadline peer context timeout >>= f) w).1
  unfolding bounded_deadline
  bounded_deadline-Extends context timeout f w rest = rest

  receive_ack-Adds : Adds P (receive_ack peer marshal unmarshal)
  unfolding receive_ack
  receive_ack-Adds w = Extends-refl P w

  -- A round trip adds what its row holds.
  pub control_round_trip-Extends :
      (context : Option ℕ) (token : String) (f : Filter) (full : Bool) (fields : Strings)
      (initial : Bool) (timeout : ℤ) (w : World)
      → ((body : List ℕ)
          → marshal (wire_control (control_message token f full fields)) ≡ ok body
          → All P (calls_of (round_trip_row (deadline_after peer context timeout w.calls) body)))
      → Extends P w
          (control_round_trip peer marshal unmarshal context token f full fields initial timeout
            w).1
  unfolding control_round_trip perform_all
  control_round_trip-Extends context token f full fields initial timeout w row =
      let answer : M Ack =
        receive_ack peer marshal unmarshal >>= λ ack. lift (check_ack initial ack) in
      let made = marshal (wire_control (control_message token f full fields)) in
      let d = deadline_after peer context timeout w.calls in
      bounded_deadline-Extends context timeout
        (λ d. lift made >>= λ body. perform_all peer (round_trip_row d body) answer) w
        (continue-Extends P made w w (λ body. perform_all peer (round_trip_row d body) answer)
          (Extends-refl P w)
          (λ body e.
            perform_all-Adds P peer (round_trip_row d body) answer (row body e)
              (bind-Adds P (receive_ack peer marshal unmarshal)
                (λ ack. lift (check_ack initial ack)) receive_ack-Adds
                (λ ack. lift-Adds P (check_ack initial ack)))
              w))

  receive_preamble-world : (w : World) → (receive_preamble peer marshal unmarshal w).1 ≡ w
  unfolding receive_preamble
  receive_preamble-world w = elim (Option-cases (verify_preamble (peer.uni_reader w.calls)).0) [
    | inl e ↦ ground (arith, e)
    | inr (x, e) ↦ ground (arith, e)
  ]

  receive_preamble-Adds : Adds P (receive_preamble peer marshal unmarshal)
  receive_preamble-Adds w =
      subst (λ w'. Extends P w w') (sym (receive_preamble-world w)) (Extends-refl P w)

  -- What `SubscribeFull` does behind its acknowledgement adds the calls for the stream.
  pub after_ack-Extends :
      (c : Client) (context : Option ℕ) (w : World)
      → All P (calls_of (stream_row (deadline_after peer context c.preamble_timeout w.calls)))
      → All P (calls_of clear_row)
      → Extends P w (after_ack peer marshal unmarshal c context w).1
  unfolding after_ack receive_stream clear_deadline
  after_ack-Extends c context w opened (cleared, _) =
      let clear : String = "clear full-tx preamble deadline" in
      bounded_deadline-Extends context c.preamble_timeout
        (λ d. perform_all peer (stream_row d) (receive_stream peer marshal unmarshal c)) w
        (perform_all-Adds P peer
          (stream_row (deadline_after peer context c.preamble_timeout w.calls))
          (receive_stream peer marshal unmarshal c) opened
          (bind-Adds P (receive_preamble peer marshal unmarshal)
            (clear_deadline peer marshal unmarshal c) receive_preamble-Adds
            (λ rs.
              bind-Adds P (perform peer clear (set_stream_read_deadline none))
                (λ u. pure (full_sub c rs))
                (perform-Adds P peer clear (set_stream_read_deadline none) cleared)
                (λ u. pure-Adds P (full_sub c rs))))
          w)
