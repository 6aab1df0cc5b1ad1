-- ===== src/Tests/FullTx.antt =====
-- examples/fulltx at concrete inputs.
use pulse_go.Base.{
  ℕ, zero, suc, ◌*◌, ◌^◌, ◌<◌, ◌≡◌, refl, arith, true, none, some, List, [], ◌∷◌, ◌++◌, All, length,
  replicate,
}
use pulse_go.Go.{Result, ok, err, IsByte}
use pulse_go.Control.{string_eq}
use pulse_go.Transport.{Call}
use pulse_go.Transport.Sequence.{calls_of, AllAnswered}
use pulse_go.Client.{close}
use pulse_go.Client.RoundTrip.{round_trip_row, acked}
use pulse_go.Client.Subscribe.{stream_row, Granted, granted_world}
use pulse_go.Client.Deliver.{Delivery, stream_of, latest_of, end_error}
use pulse_go.Stream.Frames.{quiet_stream, framed}
use pulse_go.Stream.Closed.{Cut, in_body, cut_bytes}
use pulse_go.Stream
use pulse_go.Examples.{connected_to, value, fatal, failed, unfinished}
use pulse_go.Examples.Laws.{made}
use pulse_go.Examples.FullTx
use pulse_go.Examples.FullTx.Loop.{lines_of, heartbeat_lines}
use pulse_go.Examples.FullTx.Prints.{main-prints, main-stops}
use pulse_go.Examples.FullTx.Ends.{main-ne-unfinished}
use pulse_go.Stream.{preamble}
use pulse_go.Tests.Data.{bytes_by}
use pulse_go.Base.{◌≢◌}
use pulse_go.Go.{IsByte}
use pulse_go.Tests.Connect.{marshal, unmarshal, willing, fresh, delivery, yes_ack}
use pulse_go.Tests.Environment.{
  environment, parse_bool, split, no_ip, reached, started, default_client, set, connected, flt,
  selected, base58,
}

-- Twenty transactions, and nothing behind them.
abbrev twenty : List Delivery
twenty = replicate 20 delivery

abbrev asked_calls : List Call
asked_calls = calls_of (round_trip_row (10 * 10 ^ 9) [])

abbrev stream_calls : List Call
stream_calls = asked_calls ++ calls_of (stream_row (10 * 10 ^ 9))

module _ (carried : List ℕ) where
  acknowledged : acked (willing carried) marshal unmarshal true asked_calls ≡ ok yes_ack
  unfolding pulse_go.Control.read_ack pulse_go.Control.read_ack_length pulse_go.Go.read_full framed
      pulse_go.Stream.Frames.be_bytes4 pulse_go.Go.be_uint pulse_go.Control.read_ack_body
      pulse_go.Go.be_value pulse_go.Control.parse_ack pulse_go.Control.check_type
      pulse_go.Control.check_initial_ack pulse_go.Control.check_ack_envelope
  acknowledged = refl

  asked : AllAnswered (willing carried) [] (round_trip_row (10 * 10 ^ 9) [])
  unfolding AllAnswered
  asked = (refl, (refl, (refl, (refl, (refl, tt)))))

  opened : AllAnswered (willing carried) asked_calls (stream_row (10 * 10 ^ 9))
  unfolding AllAnswered
  opened = (refl, (refl, tt))

  abbrev granted :
      Granted (willing carried) marshal unmarshal default_client none flt (some ("alt" ∷ [])) fresh
  granted = record {
    untaken = refl;
    body = [];
    marshalled = refl;
    asked = asked;
    before_stream = asked_calls;
    before_stream_lem = refl;
    ack = yes_ack;
    acknowledged = acknowledged;
    opened = opened;
    before_preamble = stream_calls;
    before_preamble_lem = refl;
    rest = carried;
    starts = refl;
    cleared = refl;
  }

each-replicate : (P : Delivery → Type 0) (n : ℕ) (d : Delivery) → P d → All P (replicate n d)
each-replicate P zero d p = tt
each-replicate P (suc n) d p = (p, each-replicate P n d p)

passed : (n : ℕ) → All (λ (d : Delivery). length d.passed < 2) (replicate n delivery)
passed n = each-replicate (λ (d : Delivery). length d.passed < 2) n delivery (omega arith)

main-prints_example :
    FullTx.main environment parse_bool
      (willing (stream_of twenty []))
      marshal
      unmarshal
      base58
      2
      split
      no_ip
      reached
      started
    ≡ (
      value tt,
      record {
        dials = (made environment split no_ip reached).dials;
        world =
            (close (willing (stream_of twenty [])) marshal unmarshal (
              granted_world
                (willing (stream_of twenty []))
                marshal
                unmarshal
                default_client
                none
                flt
                (some ("alt" ∷ []))
                fresh
                (granted (stream_of twenty [])))).1;
        printed =
            connected_to "v" "v"
            ∷ (lines_of base58 twenty
                ++ heartbeat_lines (Stream.heartbeat (latest_of twenty none)));
      },
    )
main-prints_example =
    main-prints environment parse_bool (willing (stream_of twenty [])) marshal unmarshal base58 2
      split no_ip reached started default_client flt set connected selected
      (granted (stream_of twenty [])) refl twenty [] refl refl (passed 20)

-- Two transactions, and the end of the stream in the body of the next frame.
abbrev cut : Cut
cut = in_body 2 (0 ∷ []) (omega arith) (omega arith)

abbrev two : List Delivery
two = replicate 2 delivery

abbrev cut_off : List ℕ
cut_off = stream_of two (quiet_stream [] ++ cut_bytes cut)

main-stops_example :
    FullTx.main environment parse_bool
      (willing cut_off)
      marshal
      unmarshal
      base58
      2
      split
      no_ip
      reached
      started
    ≡ (
      fatal (failed (end_error cut)),
      record {
        dials = (made environment split no_ip reached).dials;
        world =
            granted_world
              (willing cut_off)
              marshal
              unmarshal
              default_client
              none
              flt
              (some ("alt" ∷ []))
              fresh
              (granted cut_off);
        printed = connected_to "v" "v" ∷ lines_of base58 two;
      },
    )
main-stops_example =
    main-stops environment parse_bool (willing cut_off) marshal unmarshal base58 2 split no_ip
      reached started default_client flt set connected selected (granted cut_off) refl two [] cut
      (omega arith) refl (passed 2) (omega arith)

empty_stream-AreBytes : All IsByte (preamble ++ [])
empty_stream-AreBytes = bytes_by (preamble ++ []) refl

main-ne-unfinished_example :
    (FullTx.main environment parse_bool
      (willing [])
      marshal
      unmarshal
      base58
      7
      split
      no_ip
      reached
      started).0
    ≢ unfinished
main-ne-unfinished_example =
    main-ne-unfinished (willing []) marshal unmarshal 7 (λ calls. omega arith)
      (λ calls. empty_stream-AreBytes) environment parse_bool base58 split no_ip reached started
