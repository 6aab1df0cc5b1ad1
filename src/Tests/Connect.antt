-- ===== src/Tests/Connect.antt =====
-- A client from its options to the end of its subscription, at concrete inputs.
use pulse_go.Base.{
  ℕ, ◌+◌, ◌-◌, ◌%◌, ◌^◌, ◌≡◌, ◌↔◌, ◌⊎◌, refl, arith, String, true, false, Option, none, some, List,
  [], ◌∷◌, ◌++◌, length, map,
}
use pulse_go.Base.Int.{pos}
use pulse_go.Errors.{eof, already_subscribed}
use pulse_go.Go.{Result, ok, err, Reader}
use pulse_go.Control.{Ack}
use pulse_go.Message.{Filter, Json, accounts}
use pulse_go.Transport.{Call, Peer, World}
use pulse_go.Client.{
  Client, FullSub, SigFirstHandle, control_round_trip, subscribe_full, subscribe_sig_first,
}
use pulse_go.Transport.Sequence.{Row, calls_of, and_calls, AllAnswered, FailsAt}
use pulse_go.Client.RoundTrip.{round_trip_row, deadline_after, acked, control_round_trip_lem}
use pulse_go.Client.Subscribe.{stream_row, Granted, granted_sub, granted_world}
use pulse_go.Client.Subscribe.Complete.{subscribe_full_iff}
use pulse_go.Client.Deliver.{Delivery, stream_of, collect_full, subscribe_full-collect_full}
use pulse_go.Client.Once.{sig_first, full, subscribe, subscribe-subscribe}
use pulse_go.Client.Admitted.{Admitted, admitted_handle, subscribe_sig_first_iff}
use pulse_go.Client.Late.{subscribe_sig_first-newest}
use pulse_go.Base.{All}
use pulse_go.Go.{IsByte, le_bytes}
use pulse_go.Wire.Datagram.Laws.{sig_first_bytes}
use pulse_go.Sig.{
  SigFirstItem, SigFirstSub, new_sig_first_sub, drain_error, ended, receiving, returned,
}
use pulse_go.Sig.Window.{drain_alone, items_of, newest, collect}
use pulse_go.Sig.{Event, Run, start}
use pulse_go.Sig.Window.Reach.{drain_alone-refines}
use pulse_go.Stream.Closed.{Cut, in_body, cut_bytes}
use pulse_go.Client.Deliver.{end_error}
use pulse_go.Client.Deliver.{latest_of}
use pulse_go.Tests.Data.{bytes_by}
use pulse_go.Tests.Queue.{item, queued}
use pulse_go.Stream.Frames.{quiet_stream, latest}
use pulse_go.Tests.Client.{unknown, tx_body, tx_frame, tx_body-fits, tx_body-decodes}
use pulse_go.Stream.{preamble}
use pulse_go.Stream.Frames.{framed}

abbrev pub yes_ack : Ack
yes_ack = record { type_name = "ack"; ok = true; reason = ""; code = none; v = some (pos 2) }

-- The encoder writes nothing and the decoder knows one message.
abbrev pub marshal : List (String × Json) → Result (List ℕ)
marshal message = ok []

abbrev pub unmarshal : List ℕ → Option Ack
unmarshal body = some yes_ack

-- A peer that answers every call, at time 0.
abbrev pub willing : List ℕ → Peer
willing carried = record {
  answer = λ calls call. none;
  now = λ calls. 0;
  control_reader = λ calls. record { bytes = framed (123 ∷ []); ending = eof };
  uni_reader = λ calls. record { bytes = preamble ++ carried; ending = eof };
}

abbrev pub client : Client
client = record {
  token = "t";
  ack_timeout = pos 10;
  preamble_timeout = pos 20;
  sig_queue_capacity = pos 1;
}

abbrev pub fresh : World
fresh = record { calls = []; subscription_taken = false }

abbrev pub filter : Filter
filter = accounts ("a" ∷ [])

control_round_trip_lem_example :
    let row : Row = round_trip_row (deadline_after (willing []) (some 5) (pos 10) []) [] in
    let r : Result Ack × World =
      control_round_trip
        (willing [])
        marshal
        unmarshal
        (some 5)
        "t"
        filter
        true
        none
        true
        (pos 10)
        fresh in
    (AllAnswered (willing []) [] row
      × (r ≡ (
        acked (willing []) marshal unmarshal true (calls_of row),
        and_calls fresh (calls_of row),
      )))
    ⊎ FailsAt (willing []) row fresh r
control_round_trip_lem_example =
    control_round_trip_lem (willing []) marshal unmarshal (some 5) "t" filter true none true
      (pos 10) [] refl fresh

-- A frame with a transaction, and the end of the stream in the next body.
abbrev cut : Cut
cut = in_body 2 (0 ∷ []) (omega arith) (omega arith)

abbrev pub delivery : Delivery
delivery = record {
  passed = unknown ∷ [];
  body = tx_body;
  transaction = tx_frame;
  fits = omega (arith, tx_body-fits);
  decodes = tx_body-decodes;
}

abbrev carried : List ℕ
carried = stream_of (delivery ∷ []) (quiet_stream [] ++ cut_bytes cut)

abbrev asked_calls : List Call
asked_calls = calls_of (round_trip_row 5 [])

abbrev stream_calls : List Call
stream_calls = asked_calls ++ calls_of (stream_row 5)

granted-acknowledged : acked (willing carried) marshal unmarshal true asked_calls ≡ ok yes_ack
unfolding pulse_go.Control.read_ack pulse_go.Control.read_ack_length pulse_go.Go.read_full framed
    pulse_go.Stream.Frames.be_bytes4 pulse_go.Go.be_uint pulse_go.Control.read_ack_body
    pulse_go.Go.be_value pulse_go.Control.parse_ack pulse_go.Control.check_type
    pulse_go.Control.check_initial_ack pulse_go.Control.check_ack_envelope
granted-acknowledged = refl

asked : AllAnswered (willing carried) [] (round_trip_row 5 [])
unfolding AllAnswered
asked = (refl, (refl, (refl, (refl, (refl, tt)))))

opened : AllAnswered (willing carried) asked_calls (stream_row 5)
unfolding AllAnswered
opened = (refl, (refl, tt))

abbrev granted : Granted (willing carried) marshal unmarshal client (some 5) filter none fresh
granted = record {
  untaken = refl;
  body = [];
  marshalled = refl;
  asked = asked;
  before_stream = asked_calls;
  before_stream_lem = refl;
  ack = yes_ack;
  acknowledged = granted-acknowledged;
  opened = opened;
  before_preamble = stream_calls;
  before_preamble_lem = refl;
  rest = carried;
  starts = refl;
  cleared = refl;
}

abbrev granted_one : FullSub
granted_one =
    granted_sub (willing carried) marshal unmarshal client (some 5) filter none fresh granted

subscribe_full_iff_example :
    ((subscribe_full (willing carried) marshal unmarshal client (some 5) filter none fresh).0
      ≡ ok granted_one)
    ↔ ((g : Granted (willing carried) marshal unmarshal client (some 5) filter none fresh)
        × (granted_sub (willing carried) marshal unmarshal client (some 5) filter none fresh g
            ≡ granted_one))
subscribe_full_iff_example =
    subscribe_full_iff (willing carried) marshal unmarshal client (some 5) filter none fresh
      granted_one

subscribe_full-collect_full_example :
    (sub : FullSub) × (subscribe_full
        (willing carried)
        marshal
        unmarshal
        client
        (some 5)
        filter
        none
        fresh
      ≡ (
        ok sub,
        granted_world (willing carried) marshal unmarshal client (some 5) filter none fresh granted,
      ))
    × (collect_full 2 3 sub ≡ record {
      transactions = map (λ d. d.transaction) (delivery ∷ []);
      stopped = some (end_error cut);
      left = record sub {
        rs = record { bytes = []; ending = eof };
        heartbeat = latest [] (latest_of (delivery ∷ []) none);
      };
    })
subscribe_full-collect_full_example =
    subscribe_full-collect_full (willing carried) marshal unmarshal client (some 5) filter none
      fresh granted (delivery ∷ []) [] cut 3 refl refl (omega arith, tt) (omega arith)

subscribe-subscribe_example :
    let w : World =
      (subscribe (willing []) marshal unmarshal sig_first client none filter fresh).1 in
    subscribe (willing []) marshal unmarshal (full none) client none filter w
    ≡ (err already_subscribed, w)
subscribe-subscribe_example =
    subscribe-subscribe (willing []) marshal unmarshal sig_first (full none) client none none filter
      filter fresh

abbrev handle : SigFirstHandle
handle = record { has_conn = true; ack_timeout = pos 10; sub = new_sig_first_sub 1 }

handle-subscribed :
    (subscribe_sig_first (willing []) marshal unmarshal client (some 5) filter fresh).0 ≡ ok handle
unfolding subscribe_sig_first pulse_go.Client.claim pulse_go.Control.claim_subscription
    pulse_go.Client.send_control control_round_trip pulse_go.Transport.bounded_deadline
    pulse_go.Transport.perform pulse_go.Client.receive_ack pulse_go.Control.read_ack
    pulse_go.Control.read_ack_length pulse_go.Go.read_full framed pulse_go.Stream.Frames.be_bytes4
    pulse_go.Go.be_uint pulse_go.Control.read_ack_body pulse_go.Go.be_value
    pulse_go.Control.parse_ack pulse_go.Control.check_type pulse_go.Control.check_ack_envelope
    pulse_go.Control.check_initial_ack
handle-subscribed = refl

subscribe_sig_first_iff_example :
    ((subscribe_sig_first (willing []) marshal unmarshal client (some 5) filter fresh).0
      ≡ ok handle)
    ↔ ((g : Admitted (willing []) marshal unmarshal client (some 5) filter fresh) × (admitted_handle
            (willing [])
            marshal
            unmarshal
            client
            (some 5)
            filter
            fresh
            g
          ≡ handle))
subscribe_sig_first_iff_example =
    subscribe_sig_first_iff (willing []) marshal unmarshal client (some 5) filter fresh handle

-- Two items and a datagram that is too short.
abbrev pub datagrams : List (List ℕ)
datagrams = sig_first_bytes item ∷ (1 ∷ []) ∷ sig_first_bytes item ∷ []

pub datagrams-AreBytes : All (All IsByte) datagrams
unfolding le_bytes
datagrams-AreBytes = (
  bytes_by (sig_first_bytes item) refl,
  (bytes_by (1 ∷ []) refl, (bytes_by (sig_first_bytes item) refl, tt)),
)

subscribe_sig_first-newest_example :
    (s : SigFirstSub) × (drain_alone datagrams handle.sub ≡ ok s)
    × (collect 2 (drain_error eof s) ≡ (newest 1 (items_of datagrams), ended eof))
    × (s.dropped ≡ (length (items_of datagrams) - 1) % 2 ^ 64)
subscribe_sig_first-newest_example =
    subscribe_sig_first-newest (willing []) marshal unmarshal client (some 5) filter fresh handle 1
      datagrams eof refl (omega arith) handle-subscribed datagrams-AreBytes

drain_alone-refines_example :
    let seen : List SigFirstItem = items_of datagrams in
    (s : SigFirstSub) × (es : List Event) × (drain_alone datagrams (new_sig_first_sub 1) ≡ ok s)
    × Run 1 es s
    × (s.queue ≡ newest 1 seen)
    × (s.dropped ≡ (0 + (length seen - 1)) % 2 ^ 64)
    × (s.phase ≡ receiving)
drain_alone-refines_example =
    drain_alone-refines 1 [] (new_sig_first_sub 1) datagrams (omega arith) start refl
      datagrams-AreBytes

abbrev over : SigFirstSub
over = record (new_sig_first_sub 2) { queue = queued ∷ []; phase = returned eof }
