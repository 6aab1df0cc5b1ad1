-- ===== src/Client/Operations/Deadlines.antt =====
-- The deadlines of the calls that an operation makes.
use pulse_go.Base.{
  All, ℕ, ◌≤◌, ◌≡◌, arith, sym, subst, String, Option, some, List, ◌++◌, Bool-cases, inl, inr,
}
use pulse_go.Base.Int.{ℤ}
use pulse_go.Go.{Result}
use pulse_go.Control.{Ack}
use pulse_go.Message.{Json, Filter}
use pulse_go.Transport.{
  Call, open_stream_sync, set_write_deadline, set_ack_read_deadline, accept_uni_stream,
  set_stream_read_deadline, Peer, World, earlier, add_duration,
}
use pulse_go.Transport.Sequence.{calls_of}
use pulse_go.Transport.Extends.{Extends, Extends-refl}
use pulse_go.Client.{Client}
use pulse_go.Client.RoundTrip.{round_trip_row, deadline_after}
use pulse_go.Client.Once.{Tier, subscribe, subscribe-Extends, subscribe-refused}
use pulse_go.Client.Operations.{
  Operation, subscribing, updating_sig_first, updating_full, closing, context_of, step,
  update_sig_first-Extends, update_full-Extends,
}

-- The deadline that the call has or sets, if it is one that does, is `d` at the latest.
abbrev pub Within : ℕ → Call → Type 0
Within d (open_stream_sync t) = t ≤ d
Within d (set_write_deadline t) = t ≤ d
Within d (set_ack_read_deadline t) = t ≤ d
Within d (accept_uni_stream t) = t ≤ d
Within d (set_stream_read_deadline (some t)) = t ≤ d
Within d _ = Unit {0}

earlier-least : (d t : ℕ) → earlier (some d) t ≤ d
earlier-least d t = ground arith

module _ (peer : Peer) (marshal : List (String × Json) → Result (List ℕ))
    (unmarshal : List ℕ → Option Ack) (c : Client) (d : ℕ) where
  least : (timeout : ℤ) (calls : List Call) → deadline_after peer (some d) timeout calls ≤ d
  least timeout calls = earlier-least d (add_duration (peer.now calls) timeout)

  round_trip-Within :
      (timeout : ℤ) (calls : List Call) (body : List ℕ)
      → All (Within d) (calls_of (round_trip_row (deadline_after peer (some d) timeout calls) body))
  round_trip-Within timeout calls body =
      (least timeout calls, (least timeout calls, (tt, (tt, (least timeout calls, tt)))))

  subscribe-Within :
      (t : Tier) (f : Filter) (w : World)
      → (new : List Call) × ((subscribe peer marshal unmarshal t c (some d) f w).1.calls
          ≡ w.calls ++ new)
        × All (Within d) new
  subscribe-Within t f w = elim (Bool-cases w.subscription_taken) [
    | inl taken ↦
        let (new, e, all, _) =
          subst (λ r. Extends (Within d) w r.1)
            (sym (subscribe-refused peer marshal unmarshal t c (some d) f w taken))
            (Extends-refl (Within d) w) in
        (new, e, all)
    | inr untaken ↦
        let (new, e, all, _) =
          subscribe-Extends peer marshal unmarshal (Within d) c (some d) f t w untaken
            (λ body e. round_trip-Within c.ack_timeout w.calls body)
            (λ calls. (least c.preamble_timeout calls, (least c.preamble_timeout calls, tt)))
            (tt, tt) in
        (new, e, all)
  ]

  -- An operation whose context has a deadline asks for no later one: it only adds calls, whatever the
  -- peer answers, and each deadline that they have or set is the context's at the latest.
  pub step-Within :
      (op : Operation) (w : World)
      → context_of op ≡ some d
      → (new : List Call) × ((step peer marshal unmarshal c op w).calls ≡ w.calls ++ new)
        × All (Within d) new
  step-Within (subscribing t context f) w e =
      subst
        (λ k.
          (new : List Call) × ((step peer marshal unmarshal c (subscribing t k f) w).calls
            ≡ w.calls ++ new)
          × All (Within d) new)
        (sym e) (subscribe-Within t f w)
  step-Within (updating_sig_first s context f) w e =
      let (new, added, all, _) =
        update_sig_first-Extends peer marshal unmarshal c (Within d) s context f w (λ body h.
          subst
            (λ k.
              All (Within d)
                (calls_of (round_trip_row (deadline_after peer k s.ack_timeout w.calls) body)))
            (sym e) (round_trip-Within s.ack_timeout w.calls body)) in
      (new, added, all)
  step-Within (updating_full s context f fields) w e =
      let (new, added, all, _) =
        update_full-Extends peer marshal unmarshal c (Within d) s context f fields w (λ body h.
          subst
            (λ k.
              All (Within d)
                (calls_of (round_trip_row (deadline_after peer k s.ack_timeout w.calls) body)))
            (sym e) (round_trip-Within s.ack_timeout w.calls body)) in
      (new, added, all)
  step-Within closing w e = absurd (cc e)
