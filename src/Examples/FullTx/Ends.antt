-- ===== src/Examples/FullTx/Ends.antt =====
-- examples/fulltx ends.
use pulse_go.Base.{
  ℕ, zero, suc, ◌+◌, ◌<◌, ◌≡◌, ◌≢◌, arith, ap, ◌∙◌, subst, String, Bool, true, false, Option, none,
  some, List, [], ◌∷◌, ◌++◌, All, All-back, length, length-append, inl, inr,
}
use pulse_go.Errors.{Error}
use pulse_go.Go.{Result, ok, IsByte}
use pulse_go.Control.{Ack}
use pulse_go.Message.{Filter, Json}
use pulse_go.Options.{TlsConfig}
use pulse_go.Transport.{Call, Peer, World}
use pulse_go.Stream.{preamble}
use pulse_go.Stream.Total.{next_frame_total}
use pulse_go.Wire.Frame.{FullTxV2}
use pulse_go.Client.{Client, FullSub, left_sub, next_full, subscribe_full, heartbeat_of}
use pulse_go.Client.Subscribe.Complete.{subscribe_full_iff}
use pulse_go.Examples.{
  value, unfinished, State, Program, connected_to, or_fatal, print, in_world, filter_for,
  deferring_close, ◌>>=◌, ◌>>◌,
}
use pulse_go.Examples.FullTx.{
  line_of, returned_by, receive, print_transactions, last_heartbeat, stream_to_stdout, main,
}
use pulse_go.Examples.Ends.{
  Ends, continue-Ends, value-Ends, or_fatal-Ends, or_fatal-value, filter_for-Ends, and_close-Ends,
  main_with-Ends,
}

-- The bytes that are left to the subscription are fewer than the fuel.
Short : ℕ → FullSub → Type 0
Short fuel s = (length s.rs.bytes < fuel) × All IsByte s.rs.bytes

receive-Short :
    {Pool : Type 0} (fuel : ℕ) (s : FullSub) (st : State Pool)
    → Short fuel s
    → Ends (receive fuel s st)
      × ((r : FullTxV2 × FullSub) → (receive fuel s st).0 ≡ value r → Short fuel r.1)
unfolding receive next_full Short Ends
receive-Short fuel s st (short, bytes) =
    let (x, returned, cases) = next_frame_total fuel s.rs s.heartbeat short bytes in
    let left : FullSub = record s { rs = x.reader; heartbeat = x.heartbeat } in
    let came = ap (λ o. returned_by (left_sub s o) st) returned in
    elim cases [
      | inl (v, got, less, rest) ↦
          let outcome : (receive fuel s st).0 ≡ value (v, left) =
            ap (λ r. r.0) (came ∙ ap (λ r. returned_by (some (r, left)) st) got) in
          (
            λ h. absurd (cc (outcome, h)),
            λ r h.
                let same : (v, left) ≡ r = cc (outcome, h) in
                subst (λ (r : FullTxV2 × FullSub). Short fuel r.1) same
                  (omega (arith, less, short), rest),
          )
      | inr (e, got) ↦
          let outcome = ap (λ r. r.0) (came ∙ ap (λ r. returned_by (some (r, left)) st) got) in
          (λ h. absurd (cc (outcome, h)), λ r h. absurd (cc (outcome, h)))
    ]

print_transactions-Ends :
    {Pool : Type 0} (base58 : List ℕ → String) (fuel n : ℕ) (s : FullSub) (st : State Pool)
    → Short fuel s
    → Ends (print_transactions base58 fuel n s st)
unfolding print_transactions print
print_transactions-Ends base58 fuel zero s st short = value-Ends s st
print_transactions-Ends base58 fuel (suc n) s st short =
    let (ends, left) = receive-Short fuel s st short in
    continue-Ends (receive fuel s st)
      (λ r. print (line_of base58 r.0) >> print_transactions base58 fuel n r.1) ends
      (λ r got.
        print_transactions-Ends base58 fuel n r.1
          (record (receive fuel s st).1 {
            printed = (receive fuel s st).1.printed ++ (line_of base58 r.0 ∷ []);
          })
          (left r got))

last_heartbeat-Ends :
    {Pool : Type 0} (hb : ℕ × ℕ × Bool) (st : State Pool) → Ends (last_heartbeat hb st)
unfolding Ends print
last_heartbeat-Ends (ts, seq, true) st = λ h. cc h
last_heartbeat-Ends (ts, seq, false) st = λ h. cc h

module _ (peer : Peer) (marshal : List (String × Json) → Result (List ℕ))
    (unmarshal : List ℕ → Option Ack) (fuel : ℕ)
    (enough : (calls : List Call) → length (peer.uni_reader calls).bytes < fuel)
    (bytes : (calls : List Call) → All IsByte (peer.uni_reader calls).bytes) where
  -- A subscription has a part of the stream.
  subscribed-Short :
      (c : Client) (flt : Filter) (w : World) (s : FullSub)
      → (subscribe_full peer marshal unmarshal c none flt (some ("alt" ∷ [])) w).0 ≡ ok s
      → Short fuel s
  unfolding Short
  subscribed-Short c flt w s done =
      let (g, same) =
        (subscribe_full_iff peer marshal unmarshal c none flt (some ("alt" ∷ [])) w s).0 done in
      let all = subst (All IsByte) g.starts (bytes g.before_preamble) in
      let long : length (peer.uni_reader g.before_preamble).bytes
          ≡ length preamble + length g.rest =
        ap length g.starts ∙ length-append preamble g.rest in
      subst (λ (s : FullSub). (length s.rs.bytes < fuel) × All IsByte s.rs.bytes) same
        (omega (arith, long, enough g.before_preamble), All-back IsByte preamble g.rest all)

  module _ {Pool : Type 0} (lookup_env : String → Option String) (parse_bool : String → Result Bool)
      (base58 : List ℕ → String) where
    stream_to_stdout-Ends :
        (c : Client) (addr account : String) (st : State Pool)
        → Ends (
            stream_to_stdout lookup_env parse_bool peer marshal unmarshal base58 fuel c addr account
              st)
    unfolding stream_to_stdout print in_world Ends
    stream_to_stdout-Ends c addr account st =
        let start : State Pool = record st {
          printed = st.printed ++ (connected_to addr account ∷ []);
        } in
        let loop : FullSub → Program Pool (Unit {0}) =
          λ s. print_transactions base58 fuel 20 s >>= λ left. last_heartbeat (heartbeat_of left) in
        let subscribing : Filter → Program Pool (Unit {0}) = λ flt.
          in_world (subscribe_full peer marshal unmarshal c none flt (some ("alt" ∷ [])))
          >>= loop in
        continue-Ends (filter_for lookup_env parse_bool account, start) subscribing
          (filter_for-Ends lookup_env parse_bool account)
          (λ flt chosen.
            let ran =
              subscribe_full peer marshal unmarshal c none flt (some ("alt" ∷ [])) start.world in
            let after : State Pool = record start { world = ran.1 } in
            continue-Ends (or_fatal ran.0, after) loop (or_fatal-Ends ran.0)
              (λ s got.
                let short = subscribed-Short c flt start.world s (or_fatal-value ran.0 s got) in
                let printed = print_transactions base58 fuel 20 s after in
                continue-Ends printed (λ left. last_heartbeat (heartbeat_of left))
                  (print_transactions-Ends base58 fuel 20 s after short)
                  (λ left e. last_heartbeat-Ends (heartbeat_of left) printed.1)))

    -- Whatever the environment, the dial and the peer do, if a reader of the full-tx stream would
    -- always get bytes, and the fuel of one call of `Next` exceeds their number: examples/fulltx
    -- ends. It returns, or `log.Fatal` or a panic ends it.
    pub main-ne-unfinished :
        (split_host_port : String → Result String) (is_loopback_ip : String → Bool)
        (dial_addr : String → TlsConfig Pool → Option Error) (st : State Pool)
        → (main lookup_env parse_bool peer marshal unmarshal base58 fuel split_host_port
            is_loopback_ip dial_addr st).0
          ≢ unfinished
    unfolding main deferring_close Ends
    main-ne-unfinished split_host_port is_loopback_ip dial_addr st =
        main_with-Ends split_host_port is_loopback_ip dial_addr lookup_env
          (λ c addr account. deferring_close peer marshal unmarshal (
            stream_to_stdout lookup_env parse_bool peer marshal unmarshal base58 fuel c addr
              account))
          (λ c addr account st.
            and_close-Ends peer marshal unmarshal
              (stream_to_stdout lookup_env parse_bool peer marshal unmarshal base58 fuel c addr
                account st)
              (stream_to_stdout-Ends c addr account st))
          st
