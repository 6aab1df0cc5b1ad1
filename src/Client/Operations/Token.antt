-- ===== src/Client/Operations/Token.antt =====
-- The token of a control message on the wire.
use pulse_go.Base.{
  All, ℕ, ◌≡◌, ◌≢◌, ◌⊎◌, refl, ap, sym, subst, ◌∙◌, String, Bool, true, Option, List, [], ◌∷◌, ◌++◌,
  inl, inr, append_assoc, append-nil,
}
use pulse_go.Base.Int.{ℤ}
use pulse_go.Go.{Result, ok, err, panic}
use pulse_go.Control.{Ack}
use pulse_go.Message.{Filter, Json, Strings, wire_control, control_message}
use pulse_go.Message.Keys.{message-values}
use pulse_go.Transport.{Call, Peer, World}
use pulse_go.Transport.Sequence.{Row, calls_of, and_calls, AllAnswered, FailsAt}
use pulse_go.Client.{control_round_trip}
use pulse_go.Client.RoundTrip.{round_trip_row, deadline_after, acked, control_round_trip_lem}
use pulse_go.Client.Extends.{control_round_trip-Extends}
use pulse_go.Client.Operations.Tokenless.{Tokenless, AtMostOnce, never-AtMostOnce, AtMostOnce-front}

calls_of-append : (xs ys : Row) → calls_of (xs ++ ys) ≡ calls_of xs ++ calls_of ys
calls_of-append [] ys = refl
calls_of-append ((operation, call) ∷ xs) ys = ap (λ cs. call ∷ cs) (calls_of-append xs ys)

ok-cases : {A : Type 0} (r : Result A) → ((a : A) × (r ≡ ok a)) ⊎ ((a : A) → r ≢ ok a)
ok-cases (ok a) = inl (a, refl)
ok-cases (err e) = inr (λ a h. cc h)
ok-cases panic = inr (λ a h. cc h)

module _ (peer : Peer) (marshal : List (String × Json) → Result (List ℕ))
    (unmarshal : List ℕ → Option Ack) where
  -- A round trip without a token.
  pub update-Tokenless :
      (context : Option ℕ) (f : Filter) (full : Bool) (fields : Strings) (timeout : ℤ)
      (calls : List Call) (body : List ℕ)
      → marshal (wire_control (control_message "" f full fields)) ≡ ok body
      → All
          (Tokenless marshal)
          (calls_of (round_trip_row (deadline_after peer context timeout calls) body))
  update-Tokenless context f full fields timeout calls body e =
      let written = (message-values "" f full fields).1 in
      (tt, (tt, ((wire_control (control_message "" f full fields), e, written), (tt, (tt, tt)))))

  -- The calls of a round trip that could encode its message are the first of its row.
  round_trip-front :
      (row : Row) (w : World) (r : Result Ack × World) (answer : Result Ack)
      → (AllAnswered peer w.calls row × (r ≡ (answer, and_calls w (calls_of row))))
        ⊎ FailsAt peer row w r
      → (new rest : List Call) × (r.1.calls ≡ w.calls ++ new) × (calls_of row ≡ new ++ rest)
  round_trip-front row w r answer (inl (all, ran)) =
      (calls_of row, [], ap (λ x. x.1.calls) ran, sym (append-nil (calls_of row)))
  round_trip-front row w r answer (inr failed) = (
    calls_of failed.front ++ (failed.call ∷ []),
    calls_of failed.back,
    ap (λ x. x.1.calls) failed.outcome,
    ap calls_of failed.split
        ∙ calls_of-append failed.front ((failed.operation, failed.call) ∷ failed.back)
        ∙ sym (append_assoc (calls_of failed.front) (failed.call ∷ []) (calls_of failed.back)),
  )

  module _ (context : Option ℕ) (token : String) (f : Filter) (full : Bool) (fields : Strings)
      (timeout : ℤ) where
    written : List (String × Json)
    written = wire_control (control_message token f full fields)

    abbrev pub trip : World → World
    trip w =
        (control_round_trip peer marshal unmarshal context token f full fields true timeout w).1

    marshalled-AtMostOnce :
        (w : World) (body : List ℕ)
        → marshal written ≡ ok body
        → (new : List Call) × ((trip w).calls ≡ w.calls ++ new) × AtMostOnce marshal token new
    unfolding written
    marshalled-AtMostOnce w body e =
        let row : Row = round_trip_row (deadline_after peer context timeout w.calls) body in
        let (new, rest, added, split) =
          round_trip-front row w
            (control_round_trip peer marshal unmarshal context token f full fields true timeout w)
            (acked peer marshal unmarshal true (w.calls ++ calls_of row))
            (control_round_trip_lem peer marshal unmarshal context token f full fields true timeout
              body e w) in
        let value = (message-values token f full fields).1 in
        let all : AtMostOnce marshal token (calls_of row) =
          inr (tt, inr (tt, inl ((written, e, value), (tt, (tt, tt))))) in
        (
          new,
          added,
          AtMostOnce-front marshal token new rest (subst (AtMostOnce marshal token) split all),
        )

    -- A round trip writes its token at most once.
    pub round_trip-AtMostOnce :
        (w : World)
        → (new : List Call) × ((trip w).calls ≡ w.calls ++ new) × AtMostOnce marshal token new
    unfolding written
    round_trip-AtMostOnce w = elim (ok-cases (marshal written)) [
      | inl (body, e) ↦ marshalled-AtMostOnce w body e
      | inr never ↦
          let (new, added, all, _) =
            control_round_trip-Extends (Tokenless marshal) peer marshal unmarshal context token f
              full fields true timeout w (λ body e. absurd (never body e)) in
          (new, added, never-AtMostOnce marshal token new all)
    ]
