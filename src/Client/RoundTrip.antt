-- ===== src/Client/RoundTrip.antt =====
-- A control round trip, whatever the peer answers.
use pulse_go.Base.{
  ℕ, ◌≡◌, ◌⊎◌, refl, ap, sym, ◌∙◌, String, Bool, Option, List, [], ◌∷◌, ◌++◌, inl, inr,
}
use pulse_go.Base.Int.{ℤ}
use pulse_go.Go
use pulse_go.Go.{Result, ok, err, panic}
use pulse_go.Control.{Ack, read_ack}
use pulse_go.Message.{Filter, Json, Strings, wire_control, control_message}
use pulse_go.Transport.{
  Call, open_stream_sync, set_write_deadline, write, close_write, set_ack_read_deadline, Peer,
  World, M, ◌>>=◌, lift, continue, wrap_result, add_duration, earlier, bounded_deadline,
}
use pulse_go.Transport.Sequence.{
  continue-ok, Row, calls_of, and_calls, perform_all, AllAnswered, FailsAt, perform_all-cases,
  perform_all-answered,
}
use pulse_go.Client.{check_ack, receive_ack, control_round_trip}

-- The calls of a round trip, with what their errors are wrapped in.
abbrev pub round_trip_row : ℕ → List ℕ → Row
round_trip_row deadline body =
    ("open control stream", open_stream_sync deadline)
    ∷ ("set control write deadline", set_write_deadline deadline)
    ∷ ("write control", write body)
    ∷ ("close control stream write side", close_write)
    ∷ ("set ack read deadline", set_ack_read_deadline deadline)
    ∷ []

-- The deadline that a timeout gives after the calls so far.
abbrev pub deadline_after : Peer → Option ℕ → ℤ → List Call → ℕ
deadline_after peer context timeout calls = earlier context (add_duration (peer.now calls) timeout)

module _ (peer : Peer) (marshal : List (String × Json) → Result (List ℕ))
    (unmarshal : List ℕ → Option Ack) where
  -- What the acknowledgement on the stream gives after the calls.
  abbrev pub acked : Bool → List Call → Result Ack
  acked initial calls =
      Go.◌>>=◌
        (wrap_result "read control acknowledgement"
          (read_ack unmarshal (peer.control_reader calls)))
        (check_ack initial)

  answer_ack : Bool → M Ack
  answer_ack initial = receive_ack peer marshal unmarshal >>= λ ack. lift (check_ack initial ack)

  continue-lift :
      (r : Result Ack) (initial : Bool) (w : World)
      → continue r w (λ ack. lift (check_ack initial ack)) ≡ (Go.◌>>=◌ r (check_ack initial), w)
  continue-lift (ok a) initial w = refl
  continue-lift (err e) initial w = refl
  continue-lift panic initial w = refl

  answer_ack_lem : (initial : Bool) (w : World) → answer_ack initial w ≡ (acked initial w.calls, w)
  unfolding answer_ack receive_ack
  answer_ack_lem initial w =
      continue-lift
        (wrap_result "read control acknowledgement"
          (read_ack unmarshal (peer.control_reader w.calls)))
        initial w

  module _ (context : Option ℕ) (token : String) (f : Filter) (full : Bool) (fields : Strings)
      (initial : Bool) (timeout : ℤ) (body : List ℕ)
      (marshalled : marshal (wire_control (control_message token f full fields)) ≡ ok body) where
    control_round_trip-row :
        (w : World)
        → control_round_trip peer marshal unmarshal context token f full fields initial timeout w
          ≡ perform_all peer
              (round_trip_row (deadline_after peer context timeout w.calls) body)
              (answer_ack initial)
              w
    unfolding control_round_trip perform_all bounded_deadline answer_ack
    control_round_trip-row w = rw marshalled refl

    -- Where its message can be encoded, a control round trip makes its five calls in their order,
    -- the three deadlines the same: the earlier of the context's and the timeout's. Either all are
    -- answered, and the result is what the acknowledgement then on the stream gives; or it ends at
    -- the first call that gets an error, and returns that error under the operation's name.
    pub control_round_trip_lem :
        (w : World)
        → let row : Row = round_trip_row (deadline_after peer context timeout w.calls) body in
          let r : Result Ack × World =
            control_round_trip peer marshal unmarshal context token f full fields initial timeout
              w in
          (AllAnswered peer w.calls row
            × (r ≡ (acked initial (w.calls ++ calls_of row), and_calls w (calls_of row))))
          ⊎ FailsAt peer row w r
    control_round_trip_lem w =
        let row : Row = round_trip_row (deadline_after peer context timeout w.calls) body in
        rw (control_round_trip-row w) (elim (perform_all-cases peer (answer_ack initial) row w) [
          | inl (all, ran) ↦ inl (all, ran ∙ answer_ack_lem initial (and_calls w (calls_of row)))
          | inr failed ↦ inr failed
        ])

    -- A round trip whose calls are all answered gives what its acknowledgement gives.
    pub control_round_trip-answered :
        (w : World)
        → let row : Row = round_trip_row (deadline_after peer context timeout w.calls) body in
          AllAnswered peer w.calls row
          → control_round_trip peer marshal unmarshal context token f full fields initial timeout w
            ≡ (acked initial (w.calls ++ calls_of row), and_calls w (calls_of row))
    control_round_trip-answered w all =
        let row : Row = round_trip_row (deadline_after peer context timeout w.calls) body in
        control_round_trip-row w
        ∙ perform_all-answered peer (answer_ack initial) row w all
        ∙ answer_ack_lem initial (and_calls w (calls_of row))

    -- A round trip that succeeds had all its calls answered, and an acknowledgement that is accepted.
    pub control_round_trip-ok :
        (w : World) (ack : Ack)
        → (control_round_trip peer marshal unmarshal context token f full fields initial timeout
            w).0
          ≡ ok ack
        → let row : Row = round_trip_row (deadline_after peer context timeout w.calls) body in
          AllAnswered peer w.calls row
          × (acked initial (w.calls ++ calls_of row) ≡ ok ack)
          × (control_round_trip peer marshal unmarshal context token f full fields initial timeout w
              ≡ (ok ack, and_calls w (calls_of row)))
    control_round_trip-ok w ack h = elim (control_round_trip_lem w) [
      | inl (all, ran) ↦
          let got = sym (ap (λ r. r.0) ran) ∙ h in
          (
            all,
            got,
            ran
                ∙ ap
                    (λ r. (
                      r,
                      and_calls w (
                          calls_of
                            (round_trip_row (deadline_after peer context timeout w.calls) body)),
                    ))
                    got,
          )
      | inr failed ↦ absurd (cc (h, ap (λ r. r.0) failed.outcome))
    ]

  -- A round trip that succeeds could encode its message.
  pub control_round_trip-marshalled :
      (context : Option ℕ) (token : String) (f : Filter) (full : Bool) (fields : Strings)
      (initial : Bool) (timeout : ℤ) (w : World) (ack : Ack)
      → (control_round_trip peer marshal unmarshal context token f full fields initial timeout w).0
        ≡ ok ack
      → (body : List ℕ) × (marshal (wire_control (control_message token f full fields)) ≡ ok body)
  unfolding control_round_trip perform_all bounded_deadline answer_ack
  control_round_trip-marshalled context token f full fields initial timeout w ack h =
      let (body, e, _) =
        continue-ok (marshal (wire_control (control_message token f full fields))) w
          (λ body.
            perform_all peer (round_trip_row (deadline_after peer context timeout w.calls) body)
              (answer_ack initial))
          ack h in
      (body, e)
