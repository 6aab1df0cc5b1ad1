-- ===== src/Client/Operations.antt =====
-- What a caller does with a client and its subscriptions, one operation after the other.
pub mod Deadlines
pub mod Tokenless
pub mod Token
pub mod History
use pulse_go.Base.{
  All, ℕ, ◌≤◌, ◌≡◌, refl, arith, ap, sym, String, Bool, true, false, Option, none, some, List, [],
  ◌∷◌, ◌++◌, Bool-cases, inl, inr,
}
use pulse_go.Base.Int.{ℤ}
use pulse_go.Go.{Result, ok}
use pulse_go.Control.{Ack}
use pulse_go.Message.{Filter, Json, Strings, wire_control, control_message}
use pulse_go.Transport.{Call, Peer, World}
use pulse_go.Transport.Sequence.{calls_of}
use pulse_go.Transport.Extends.{Extends, Extends-refl}
use pulse_go.Client.{
  Client, SigFirstHandle, FullSub, control_round_trip, update_sig_first, update_full, close,
}
use pulse_go.Client.RoundTrip.{round_trip_row, deadline_after}
use pulse_go.Client.Subscribe.{stream_row, clear_row}
use pulse_go.Client.Extends.{control_round_trip-Extends}
use pulse_go.Client.Once.{Tier, taken_world, subscribe, subscribe-Extends, subscribe-refused}

-- An operation with the deadline of its context. An update is of any handle.
pub data Operation : Type 0 where
  subscribing : Tier → Option ℕ → Filter → Operation
  updating_sig_first : SigFirstHandle → Option ℕ → Filter → Operation
  updating_full : FullSub → Option ℕ → Filter → Strings → Operation
  closing : Operation

-- The deadline of the operation's context, where it has one.
abbrev pub context_of : Operation → Option ℕ
context_of (subscribing t context f) = context
context_of (updating_sig_first s context f) = context
context_of (updating_full s context f fields) = context
context_of closing = none

module _ (peer : Peer) (marshal : List (String × Json) → Result (List ℕ))
    (unmarshal : List ℕ → Option Ack) (c : Client) where
  -- The world after an operation, whatever it returned.
  abbrev pub step : Operation → World → World
  step (subscribing t context f) w = (subscribe peer marshal unmarshal t c context f w).1
  step (updating_sig_first s context f) w =
      (update_sig_first peer marshal unmarshal s context f w).1
  step (updating_full s context f fields) w =
      (update_full peer marshal unmarshal s context f fields w).1
  step closing w = (close peer marshal unmarshal w).1

  pub run : List Operation → World → World
  run [] w = w
  run (op ∷ ops) w = run ops (step op w)

  -- An update adds the calls of its round trip, which has no token.
  pub update_sig_first-Extends :
      (P : Call → Type 0) (s : SigFirstHandle) (context : Option ℕ) (f : Filter) (w : World)
      → ((body : List ℕ)
          → marshal (wire_control (control_message "" f false none)) ≡ ok body
          → All P
              (calls_of (round_trip_row (deadline_after peer context s.ack_timeout w.calls) body)))
      → Extends P w (step (updating_sig_first s context f) w)
  unfolding update_sig_first
  update_sig_first-Extends P s context f w row = elim (Bool-cases s.has_conn) [
    | inl e ↦ rw e (
        control_round_trip-Extends P peer marshal unmarshal context "" f false none false
          s.ack_timeout w row)
    | inr e ↦ rw e (Extends-refl P w)
  ]

  pub update_full-Extends :
      (P : Call → Type 0) (s : FullSub) (context : Option ℕ) (f : Filter) (fields : Strings)
      (w : World)
      → ((body : List ℕ)
          → marshal (wire_control (control_message "" f false fields)) ≡ ok body
          → All P
              (calls_of (round_trip_row (deadline_after peer context s.ack_timeout w.calls) body)))
      → Extends P w (step (updating_full s context f fields) w)
  unfolding update_full
  update_full-Extends P s context f fields w row =
      control_round_trip-Extends P peer marshal unmarshal context "" f false fields false
        s.ack_timeout w row
