-- ===== src/Examples/FullTx/Prints.antt =====
-- What examples/fulltx prints, and how it ends.
use pulse_go.Base.{
  ℕ, ◌<◌, ◌≡◌, refl, ap, ap₂, subst, ◌∙◌, String, Bool, Option, none, some, List, [], ◌∷◌, ◌++◌,
  All, length, append_assoc,
}
use pulse_go.Errors.{Error, eof}
use pulse_go.Go.{Result, ok}
use pulse_go.Control.{Ack}
use pulse_go.Message.{Filter, Json}
use pulse_go.Options.{TlsConfig}
use pulse_go.Transport.{Peer}
use pulse_go.Stream
use pulse_go.Stream.{HeartbeatState}
use pulse_go.Stream.Frames.{Quiet, quiet_stream}
use pulse_go.Stream.Closed.{Cut, cut_bytes}
use pulse_go.Client.{Client, FullSub, heartbeat_of, close}
use pulse_go.Client.Subscribe.{Granted, granted_sub, granted_world}
use pulse_go.Client.Subscribe.Complete.{subscribe_full-Granted}
use pulse_go.Client.Deliver.{Delivery, stream_of, latest_of, end_error, at}
use pulse_go.Examples.{
  Line, connected_to, heartbeat_line, ◌>>=◌, Ended, value, fatal, failed, State, Program, continue,
  next_error, filter_for, getenv, deferring_close, and_close,
}
use pulse_go.Examples.Laws.{Configured, made, main_with-connected}
use pulse_go.Examples.FullTx.{print_transactions, last_heartbeat, stream_to_stdout, main}
use pulse_go.Examples.FullTx.Loop.{
  and_lines, lines_of, print_transactions-stream_of, print_transactions-end, next_error-end_error,
  heartbeat_lines, last_heartbeat_lem,
}

module _ {Pool : Type 0} (lookup_env : String → Option String) (parse_bool : String → Result Bool)
    (peer : Peer) (marshal : List (String × Json) → Result (List ℕ))
    (unmarshal : List ℕ → Option Ack) (base58 : List ℕ → String) (fuel : ℕ)
    (split_host_port : String → Result String) (is_loopback_ip : String → Bool)
    (dial_addr : String → TlsConfig Pool → Option Error) (st : State Pool) (c : Client)
    (flt : Filter) (set : Configured lookup_env split_host_port is_loopback_ip dial_addr)
    (connected : (made lookup_env split_host_port is_loopback_ip dial_addr).result ≡ ok c)
    (selected : filter_for lookup_env parse_bool (getenv lookup_env "PULSE_ACCOUNT") ≡ value flt)
    (g : Granted peer marshal unmarshal c none flt (some ("alt" ∷ [])) st.world)
    (ends : (peer.uni_reader g.before_preamble).ending ≡ eof) where
  abbrev sub : FullSub
  sub = granted_sub peer marshal unmarshal c none flt (some ("alt" ∷ [])) st.world g

  abbrev pub addr : String
  addr = getenv lookup_env "PULSE_ADDR"

  abbrev pub account : String
  account = getenv lookup_env "PULSE_ACCOUNT"

  abbrev dialed : State Pool
  dialed = record st {
    dials = st.dials ++ (made lookup_env split_host_port is_loopback_ip dial_addr).dials;
  }

  -- The state when the program has subscribed.
  abbrev subscribed : State Pool
  subscribed = record dialed {
    world = granted_world peer marshal unmarshal c none flt (some ("alt" ∷ [])) st.world g;
    printed = st.printed ++ (connected_to addr account ∷ []);
  }

  abbrev loop : FullSub → Program Pool (Unit {0})
  loop s = print_transactions base58 fuel 20 s >>= λ left. last_heartbeat (heartbeat_of left)

  stream_to_stdout-subscribed :
      stream_to_stdout lookup_env parse_bool peer marshal unmarshal base58 fuel c addr account
        dialed
      ≡ loop sub subscribed
  unfolding stream_to_stdout pulse_go.Examples.print pulse_go.Examples.in_world
  stream_to_stdout-subscribed =
      rw
        (
          stream_to_stdout,
          pulse_go.Examples.print,
          pulse_go.Examples.in_world,
          selected,
          subscribe_full-Granted peer marshal unmarshal c none flt (some ("alt" ∷ [])) st.world g,
        )
        refl

  abbrev closing : Ended (Unit {0}) × State Pool → Ended (Unit {0}) × State Pool
  closing r = and_close peer marshal unmarshal r.0 r.1

  main-loop :
      (bytes : List ℕ)
      → g.rest ≡ bytes
      → main lookup_env parse_bool peer marshal unmarshal base58 fuel split_host_port is_loopback_ip
          dial_addr st
        ≡ deferring_close peer marshal unmarshal (loop (at sub bytes none)) subscribed
  unfolding main deferring_close
  main-loop bytes carries =
      main_with-connected lookup_env split_host_port is_loopback_ip dial_addr
        (λ c addr account. deferring_close peer marshal unmarshal (
          stream_to_stdout lookup_env parse_bool peer marshal unmarshal base58 fuel c addr account))
        st c set connected
      ∙ ap (λ r. and_close peer marshal unmarshal r.0 r.1) stream_to_stdout-subscribed
      ∙ ap₂
          (λ b e.
            deferring_close peer marshal unmarshal
              (loop (record sub { rs = record { bytes = b; ending = e } })) subscribed)
          carries ends

  -- Where the three variables are set, `PULSE_VOTE` is a Boolean or not set, `Connect` gives a client,
  -- and the subscription with the environment's filter is granted on a stream that carries 20
  -- transaction frames, with heartbeats and unknown frames between them, then any bytes, and then
  -- ends plainly: examples/fulltx prints where it is connected, a line for each of the 20
  -- transactions, in order, and a line for the last heartbeat in front of the 20th, if there was
  -- one; and it closes the connection and returns. The fuel of one call of `Next` has to exceed the
  -- number of frames that it passes over.
  pub main-prints :
      (ds : List Delivery) (more : List ℕ)
      → length ds ≡ 20
      → g.rest ≡ stream_of ds more
      → All (λ d. length d.passed < fuel) ds
      → main lookup_env parse_bool peer marshal unmarshal base58 fuel split_host_port is_loopback_ip
          dial_addr st
        ≡ (
          value tt,
          record {
            dials = st.dials ++ (made lookup_env split_host_port is_loopback_ip dial_addr).dials;
            world =
                (close peer marshal unmarshal (
                  granted_world peer marshal unmarshal c none flt
                    (some ("alt" ∷ []))
                    st.world
                    g)).1;
            printed =
                st.printed
                ++ (connected_to addr account
                    ∷ (lines_of base58 ds
                        ++ heartbeat_lines (Stream.heartbeat (latest_of ds none))));
          },
        )
  unfolding deferring_close
  main-prints ds more twenty carries each =
      let looped =
        subst
          (λ n.
            print_transactions base58 fuel n (at sub (stream_of ds more) none) subscribed
            ≡ (value (at sub more (latest_of ds none)), and_lines subscribed (lines_of base58 ds)))
          twenty (print_transactions-stream_of base58 fuel sub ds more none subscribed each) in
      let left = at sub more (latest_of ds none) in
      let hb : List Line = heartbeat_lines (heartbeat_of left) in
      main-loop (stream_of ds more) carries
      ∙ ap (λ r. closing (continue r.0 r.1 (λ left. last_heartbeat (heartbeat_of left)))) looped
      ∙ ap closing
          (last_heartbeat_lem (heartbeat_of left) (and_lines subscribed (lines_of base58 ds)))
      ∙ ap (λ lines. closing (value tt, record subscribed { printed = lines }))
          (append_assoc (st.printed ++ (connected_to addr account ∷ [])) (lines_of base58 ds) hb
            ∙ append_assoc st.printed (connected_to addr account ∷ []) (lines_of base58 ds ++ hb))

  -- Where the three variables are set, `PULSE_VOTE` is a Boolean or not set, `Connect` gives a client,
  -- and the subscription with the environment's filter is granted on a stream that carries fewer than
  -- 20 transaction frames, with heartbeats and unknown frames between them, and then ends plainly:
  -- examples/fulltx prints where it is connected and a line for each of the transactions, in order,
  -- and then `log.Fatal` ends it with `io.EOF`, or with `ErrBadFrame` if the stream ended inside a
  -- frame; the connection is not closed. The fuel of one call of `Next` has to exceed the number of
  -- frames that it passes over.
  pub main-stops :
      (ds : List Delivery) (qs : List Quiet) (cut : Cut)
      → length ds < 20
      → g.rest ≡ stream_of ds (quiet_stream qs ++ cut_bytes cut)
      → All (λ d. length d.passed < fuel) ds
      → length qs < fuel
      → main lookup_env parse_bool peer marshal unmarshal base58 fuel split_host_port is_loopback_ip
          dial_addr st
        ≡ (
          fatal (failed (end_error cut)),
          record {
            dials = st.dials ++ (made lookup_env split_host_port is_loopback_ip dial_addr).dials;
            world = granted_world peer marshal unmarshal c none flt (some ("alt" ∷ [])) st.world g;
            printed = st.printed ++ (connected_to addr account ∷ lines_of base58 ds);
          },
        )
  unfolding deferring_close
  main-stops ds qs cut fewer carries each enough =
      let rest = quiet_stream qs ++ cut_bytes cut in
      let looped =
        print_transactions-end base58 fuel sub 20 ds qs cut none subscribed fewer each enough in
      main-loop (stream_of ds rest) carries
      ∙ ap (λ r. closing (continue r.0 r.1 (λ left. last_heartbeat (heartbeat_of left)))) looped
      ∙ ap (λ lines. (fatal (next_error (end_error cut)), record subscribed { printed = lines }))
          (append_assoc st.printed (connected_to addr account ∷ []) (lines_of base58 ds))
      ∙ ap
          (λ f. (
            f,
            record subscribed {
              printed = st.printed ++ (connected_to addr account ∷ lines_of base58 ds);
            },
          ))
          (next_error-end_error cut)
