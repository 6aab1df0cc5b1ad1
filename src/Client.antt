-- ===== src/Client.antt =====
-- The client of pulse.go: the control round trip, the subscriptions and their updates, and `Connect`.
pub mod RoundTrip
pub mod Subscribe
pub mod Extends
pub mod Once
pub mod Admitted
pub mod Operations
pub mod Deliver
pub mod Late
use pulse_go.Base.{◌++◌, ℕ, ◌+◌, String, Bool, true, false, Option, none, some, List, [], ◌∷◌}
use pulse_go.Base.Int.{ℤ, pos, negsuc}
use pulse_go.Errors.{Error}
use pulse_go.Go.{Result, ok, err, panic, Reader}
use pulse_go.Control.{Ack, claim_subscription, check_initial_ack, check_update_ack, read_ack}
use pulse_go.Message.{Filter, Json, Strings, wire_control, control_message}
use pulse_go.Transport.{
  Call, open_stream_sync, set_write_deadline, write, close_write, set_ack_read_deadline,
  accept_uni_stream, set_stream_read_deadline, close_with_error, Peer, World, M, pure, ◌>>=◌, ◌>>◌,
  lift, wrap_result, perform, bounded_deadline,
}
use pulse_go.Sig.{SigFirstSub, new_sig_first_sub}
use pulse_go.Stream.{HeartbeatState, Returned, next_frame, verify_preamble}
use pulse_go.Stream
use pulse_go.Wire.Frame.{FullTxV2}

pub record Client : Type 0 where
  pub token : String
  pub ack_timeout : ℤ
  pub preamble_timeout : ℤ
  pub sig_queue_capacity : ℤ

-- A `SigFirstSub` as its caller has it: `conn` may be nil, and the state of the queue.
pub record SigFirstHandle : Type 0 where
  pub has_conn : Bool
  pub ack_timeout : ℤ
  pub sub : SigFirstSub

-- A `FullSub`: the stream that is left to read, and the heartbeat.
pub record FullSub : Type 0 where
  pub rs : Reader
  pub ack_timeout : ℤ
  pub heartbeat : Option HeartbeatState

abbrev pub option_result : Option Error → Result (Unit {0})
option_result none = ok tt
option_result (some e) = err e

abbrev pub check_ack : Bool → Ack → Result Ack
check_ack true = check_initial_ack
check_ack false = check_update_ack

-- `make(chan SigFirstItem, n)` panics where `n` is negative.
abbrev pub channel_size : ℤ → Result ℕ
channel_size (pos n) = ok n
channel_size (negsuc n) = panic

-- `&Ack{OK: true}`
abbrev pub plain_ack : Ack
plain_ack = record { type_name = ""; ok = true; reason = ""; code = none; v = none }

-- `s.rs` and `s.heartbeat` after `Next`.
abbrev pub left_sub : FullSub → Option Returned → Option (Result FullTxV2 × FullSub)
left_sub s none = none
left_sub s (some x) = some (x.result, record s { rs = x.reader; heartbeat = x.heartbeat })

-- `FullSub.Next`; `none` where the fuel, the number of its rounds, is short.
unfoldable pub next_full : ℕ → FullSub → Option (Result FullTxV2 × FullSub)
next_full fuel s = left_sub s (next_frame fuel s.rs s.heartbeat)

-- `FullSub.Heartbeat`
abbrev pub heartbeat_of : FullSub → ℕ × ℕ × Bool
heartbeat_of s = Stream.heartbeat s.heartbeat

-- The peer, and the encoder and the decoder of `encoding/json`.
module _ (peer : Peer) (marshal : List (String × Json) → Result (List ℕ))
    (unmarshal : List ℕ → Option Ack) where
  unfoldable pub claim : M (Unit {0})
  claim w =
      let (e, taken) = claim_subscription w.subscription_taken in
      (option_result e, record w { subscription_taken = taken })

  unfoldable pub receive_ack : M Ack
  receive_ack w = (
    wrap_result "read control acknowledgement" (read_ack unmarshal (peer.control_reader w.calls)),
    w,
  )

  -- `controlRoundTrip`; the context of the caller is its deadline.
  unfoldable pub control_round_trip : Option ℕ → String → Filter → Bool → Strings → Bool → ℤ → M Ack
  control_round_trip context token f full fields initial timeout = do
    deadline ← bounded_deadline peer context timeout
    body ← lift (marshal (wire_control (control_message token f full fields)))
    perform peer "open control stream" (open_stream_sync deadline)
    perform peer "set control write deadline" (set_write_deadline deadline)
    perform peer "write control" (write body)
    perform peer "close control stream write side" close_write
    perform peer "set ack read deadline" (set_ack_read_deadline deadline)
    ack ← receive_ack
    lift (check_ack initial ack)

  unfoldable pub send_control : Client → Option ℕ → Filter → Bool → Strings → M Ack
  send_control c context f full fields =
      control_round_trip context c.token f full fields true c.ack_timeout

  unfoldable pub subscribe_sig_first : Client → Option ℕ → Filter → M SigFirstHandle
  subscribe_sig_first c context f = do
    claim
    ack ← send_control c context f false none
    n ← lift (channel_size c.sig_queue_capacity)
    pure (record { has_conn = true; ack_timeout = c.ack_timeout; sub = new_sig_first_sub n })

  -- `SigFirstSub.UpdateFilter`
  unfoldable pub update_sig_first : SigFirstHandle → Option ℕ → Filter → M Ack
  update_sig_first s context f = elim s.has_conn [
    | false ↦ pure plain_ack
    | true ↦ control_round_trip context "" f false none false s.ack_timeout
  ]

  -- `verifyPreamble(rs)`: the stream behind the preamble.
  unfoldable pub receive_preamble : M Reader
  receive_preamble w =
      let (e, rest) = verify_preamble (peer.uni_reader w.calls) in
      elim e [ none ↦ (ok rest, w) | some x ↦ (err x, w) ]

  unfoldable pub subscribe_full : Client → Option ℕ → Filter → Strings → M FullSub
  subscribe_full c context f fields = do
    claim
    ack ← send_control c context f true fields
    deadline ← bounded_deadline peer context c.preamble_timeout
    perform peer "accept full-tx stream" (accept_uni_stream deadline)
    perform peer "set full-tx preamble deadline" (set_stream_read_deadline (some deadline))
    rs ← receive_preamble
    perform peer "clear full-tx preamble deadline" (set_stream_read_deadline none)
    pure (record { rs = rs; ack_timeout = c.ack_timeout; heartbeat = none })

  -- `FullSub.UpdateFilter`
  unfoldable pub update_full : FullSub → Option ℕ → Filter → Strings → M Ack
  update_full s context f fields = control_round_trip context "" f false fields false s.ack_timeout

  -- `Client.Close`
  unfoldable pub close : M (Unit {0})
  close w =
      let call : Call = close_with_error 0 "" in
      (option_result (peer.answer w.calls call), record w { calls = w.calls ++ (call ∷ []) })
