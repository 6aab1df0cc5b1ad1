-- ===== src/Tests/SigFirst.antt =====
-- examples/sigfirst at concrete inputs.
use pulse_go.Base.{
  ℕ, ◌<◌, ◌≤◌, ◌≡◌, ◌⊎◌, refl, true, none, List, [], ◌∷◌, ◌++◌, map, length, take, drop,
}
use pulse_go.Errors.{foreign}
use pulse_go.Go.{Result, ok, err, IsByte}
use pulse_go.Control.{string_eq}
use pulse_go.Options.{ack_timeout_default}
use pulse_go.Transport.{Call, World}
use pulse_go.Client.{Client, FullSub, SigFirstHandle, close, subscribe_sig_first}
use pulse_go.Sig.{SigFirstItem, SigFirstSub, drain_end, new_sig_first_sub}
use pulse_go.Sig.Window.{newest, items_of}
use pulse_go.Stream.Frames.{quiet_stream, framed}
use pulse_go.Stream
use pulse_go.Examples.{connected_to, Ended, value, fatal, next_error, State}
use pulse_go.Examples.Laws.{made}
use pulse_go.Examples.SigFirst
use pulse_go.Examples.SigFirst.{DrainStep, datagram, connection_error, select, line_of, stats_line}
use pulse_go.Wire.Datagram.Laws.{sig_first_bytes}
use pulse_go.Tests.Queue.{item}
use pulse_go.Examples.SigFirst.Late.{late, main-late}
use pulse_go.Tests.Connect.{marshal, unmarshal, willing, fresh, datagrams, datagrams-AreBytes}
use pulse_go.Tests.Environment.{
  environment, parse_bool, split, no_ip, reached, started, default_client, set, connected, flt,
  selected, base58,
}

abbrev handle : SigFirstHandle
handle = record { has_conn = true; ack_timeout = ack_timeout_default; sub = new_sig_first_sub 4096 }

subscribed :
    (subscribe_sig_first (willing []) marshal unmarshal default_client none flt fresh).0 ≡ ok handle
unfolding subscribe_sig_first pulse_go.Client.claim pulse_go.Control.claim_subscription
    pulse_go.Client.send_control pulse_go.Client.control_round_trip
    pulse_go.Transport.bounded_deadline pulse_go.Transport.perform pulse_go.Client.receive_ack
    pulse_go.Control.read_ack pulse_go.Control.read_ack_length pulse_go.Go.read_full framed
    pulse_go.Stream.Frames.be_bytes4 pulse_go.Go.be_uint pulse_go.Control.read_ack_body
    pulse_go.Go.be_value pulse_go.Control.parse_ack pulse_go.Control.check_type
    pulse_go.Control.check_ack_envelope pulse_go.Control.check_initial_ack
subscribed = refl

-- The state when the program has subscribed.
abbrev reading : State ℕ
reading = record {
  dials = (made environment split no_ip reached).dials;
  world = (subscribe_sig_first (willing []) marshal unmarshal default_client none flt fresh).1;
  printed = connected_to "v" "v" ∷ [];
}

-- An item is pushed before the first call of `Next`, another before the second, and then the
-- connection ends.
abbrev batches : List (List DrainStep)
batches =
    (datagram (sig_first_bytes item) ∷ select ∷ datagram (1 ∷ []) ∷ [])
    ∷ (datagram (sig_first_bytes item) ∷ select ∷ [])
    ∷ (connection_error (foreign 1) ∷ [])
    ∷ []

main-late_example :
    let items : List SigFirstItem = newest 4096 (items_of datagrams) in
    let run : Ended (Unit {0}) × State ℕ =
      SigFirst.main environment parse_bool
        (willing [])
        marshal
        unmarshal
        base58
        (late datagrams (foreign 1) ∷ [])
        split
        no_ip
        reached
        started in
    ((20 ≤ length items)
      × ((left : SigFirstSub) × (left.queue ≡ drop 20 items)
          × (run ≡ (
            value tt,
            record reading {
              world = (close (willing []) marshal unmarshal reading.world).1;
              printed =
                  (reading.printed ++ map (line_of base58) (take 20 items))
                  ++ (stats_line left left left ∷ []);
            },
          ))))
    ⊎ ((length items < 20)
        × (run ≡ (
          fatal (next_error (drain_end (foreign 1))),
          record reading { printed = reading.printed ++ map (line_of base58) items },
        )))
main-late_example =
    main-late environment parse_bool (willing []) marshal unmarshal base58 datagrams (foreign 1)
      split no_ip reached started default_client flt handle set connected selected subscribed
      datagrams-AreBytes
