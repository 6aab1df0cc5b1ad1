-- ===== src/Examples/SigFirst/Late.antt =====
-- What examples/sigfirst prints of what came before it reads.
use pulse_go.Base.{
  ℕ, zero, suc, ◌+◌, ◌-◌, ◌%◌, ◌^◌, ◌<◌, ◌≤◌, ◌≡◌, ◌⊎◌, refl, sym, ap, ◌∙◌, arith, String, Bool,
  false, Option, none, List, [], ◌∷◌, ◌++◌, All, length, map, take, drop, append_assoc, append-nil,
  Bool-cases, ltb, ltb→lt, ltb_false→le, inl, inr,
}
use pulse_go.Errors.{Error}
use pulse_go.Go.{Result, ok, IsByte}
use pulse_go.Control.{Ack}
use pulse_go.Message.{Filter, Json}
use pulse_go.Options.{TlsConfig}
use pulse_go.Transport.{Peer}
use pulse_go.Wire.Datagram.{decode_datagram}
use pulse_go.Sig.{SigFirstItem, SigFirstSub, Marks, drain_error, drain_end, next}
use pulse_go.Sig.Window.{newest, items_of, idle, shown_result}
use pulse_go.Sig.Window.Lists.{length-newest, newest-newest, newest_all}
use pulse_go.Client.{Client, SigFirstHandle, subscribe_sig_first, close}
use pulse_go.Client.Late.{subscribe_sig_first-new}
use pulse_go.Examples.{
  connected_to, Ended, value, fatal, State, continue, print, next_error, filter_for, and_close,
  getenv,
}
use pulse_go.Examples.Laws.{Configured, made}
use pulse_go.Examples.SigFirst.{
  DrainStep, datagram, connection_error, select, drain_step, drain_steps, line_of, stats_line,
  receive, first_batch, later_batches, print_items, print_stats, main,
}
use pulse_go.Sig.{returned}
use pulse_go.Sig.Window.{producer, push_alone}
use pulse_go.Sig.Window.Laws.{drain_one}
use pulse_go.Examples.SigFirst.Stats.{and_lines}
use pulse_go.Examples.SigFirst.Prints.{connected-capacity, main-loop}

abbrev pub over : ℕ → List SigFirstItem → ℕ → Marks → Error → SigFirstSub
over n q k m e = record (idle n q k m) { phase = returned e }

-- Nothing changes a subscription whose drain goroutine has returned.
drain_steps-stopped :
    (steps : List DrainStep) (n : ℕ) (q : List SigFirstItem) (k : ℕ) (m : Marks) (e : Error)
    → drain_steps steps (over n q k m e) ≡ ok (over n q k m e)
unfolding drain_steps drain_step producer
drain_steps-stopped [] n q k m e = refl
drain_steps-stopped (datagram dg ∷ steps) n q k m e = drain_steps-stopped steps n q k m e
drain_steps-stopped (connection_error x ∷ steps) n q k m e = drain_steps-stopped steps n q k m e
drain_steps-stopped (select ∷ steps) n q k m e = drain_steps-stopped steps n q k m e

-- A datagram and the three `select`s of its `push`, if it needs as many.
abbrev pub whole_round : List ℕ → List DrainStep → List DrainStep
whole_round dg steps = datagram dg ∷ select ∷ select ∷ select ∷ steps

drain_steps-round :
    (dg : List ℕ) (steps : List DrainStep) (n : ℕ) (q : List SigFirstItem) (k : ℕ) (m : Marks)
    → All IsByte dg
    → length q ≤ n
    → 0 < n
    → k < 2 ^ 64
    → let seen : List SigFirstItem = q ++ shown_result (decode_datagram dg) in
      (m' : Marks) × (drain_steps (whole_round dg steps) (idle n q k m)
        ≡ drain_steps steps (idle n (newest n seen) ((k + (length seen - n)) % 2 ^ 64) m'))
unfolding drain_steps drain_step push_alone
drain_steps-round dg steps n q k m bytes bounded positive fits =
    let (m', s, drained, pushed) = drain_one dg n k q m bytes bounded positive fits in
    (
      m',
      ap (λ r. pulse_go.Go.◌>>=◌ r (drain_steps (select ∷ select ∷ select ∷ steps))) drained
          ∙ ap (drain_steps steps) pushed,
    )

-- Datagrams, each with its `push`, and then the end of the connection.
abbrev pub late : List (List ℕ) → Error → List DrainStep
late [] e = connection_error e ∷ []
late (dg ∷ dgs) e = whole_round dg (late dgs e)

drain_steps-late :
    (dgs : List (List ℕ)) (e : Error) (n : ℕ) (q : List SigFirstItem) (k : ℕ) (m : Marks)
    → All (All IsByte) dgs
    → length q ≤ n
    → 0 < n
    → k < 2 ^ 64
    → (k' : ℕ) × (m' : Marks) × (drain_steps (late dgs e) (idle n q k m)
        ≡ ok (over n (newest n (q ++ items_of dgs)) k' m' (drain_end e)))
unfolding drain_steps drain_step drain_error items_of
drain_steps-late [] e n q k m bytes bounded positive fits = (
  k,
  m,
  ap (λ l. ok (over n l k m (drain_end e)))
      (sym (ap (newest n) (append-nil q) ∙ newest_all n q bounded)),
)
drain_steps-late (dg ∷ dgs) e n q k m (first, bytes) bounded positive fits =
    let came : List SigFirstItem = shown_result (decode_datagram dg) in
    let (m₁, round) = drain_steps-round dg (late dgs e) n q k m first bounded positive fits in
    let (k', m', rest) =
      drain_steps-late dgs e n (newest n (q ++ came)) ((k + (length (q ++ came) - n)) % 2 ^ 64) m₁
        bytes (length-newest n (q ++ came)) positive (omega arith) in
    (
      k',
      m',
      round
          ∙ rest
          ∙ ap (λ l. ok (over n l k' m' (drain_end e)))
              (newest-newest n (q ++ came) (items_of dgs)
                ∙ ap (newest n) (append_assoc q came (items_of dgs))),
    )

-- The batches behind the loop.
abbrev later_all : ℕ → List (List DrainStep) → List (List DrainStep)
later_all zero batches = batches
later_all (suc rounds) batches = later_all rounds (later_batches batches)

module _ {Pool : Type 0} (base58 : List ℕ → String) (n k : ℕ) (m : Marks) (e : Error) where
  -- Once the drain goroutine has returned, the loop prints what is queued.
  print_items-enough :
      (rounds : ℕ) (batches : List (List DrainStep)) (q : List SigFirstItem) (st : State Pool)
      → rounds ≤ length q
      → print_items base58 rounds batches (over n q k m e) st ≡ (
        value (over n (drop rounds q) k m e, later_all rounds batches),
        and_lines st (map (line_of base58) (take rounds q)),
      )
  unfolding print_items receive print next
  print_items-enough zero batches q st h =
      ap (λ lines. (value (over n q k m e, batches), record st { printed = lines }))
        (sym (append-nil st.printed))
  print_items-enough (suc rounds) batches [] st h = absurd (omega (arith, h))
  print_items-enough (suc rounds) batches (it ∷ q) st h =
      rw (print_items, receive, drain_steps-stopped (first_batch batches) n (it ∷ q) k m e)
        (print_items-enough rounds (later_batches batches) q (and_lines st (line_of base58 it ∷ []))
            (omega (arith, h))
          ∙ ap
              (λ lines. (
                value (over n (drop rounds q) k m e, later_all rounds (later_batches batches)),
                record st { printed = lines },
              ))
              (append_assoc st.printed (line_of base58 it ∷ [])
                (map (line_of base58) (take rounds q))))

  print_items-few :
      (rounds : ℕ) (batches : List (List DrainStep)) (q : List SigFirstItem) (st : State Pool)
      → length q < rounds
      → print_items base58 rounds batches (over n q k m e) st
        ≡ (fatal (next_error e), and_lines st (map (line_of base58) q))
  unfolding print_items receive print next
  print_items-few zero batches q st h = absurd (omega (arith, h))
  print_items-few (suc rounds) batches [] st h =
      rw (print_items, receive, drain_steps-stopped (first_batch batches) n [] k m e)
        (ap (λ lines. (fatal (next_error e), record st { printed = lines }))
          (sym (append-nil st.printed)))
  print_items-few (suc rounds) batches (it ∷ q) st h =
      rw (print_items, receive, drain_steps-stopped (first_batch batches) n (it ∷ q) k m e)
        (print_items-few rounds (later_batches batches) q (and_lines st (line_of base58 it ∷ []))
            (omega (arith, h))
          ∙ ap (λ lines. (fatal (next_error e), record st { printed = lines }))
              (append_assoc st.printed (line_of base58 it ∷ []) (map (line_of base58) q)))

-- What arrives before the first call might as well have arrived before.
print_items-arrived :
    {Pool : Type 0} (base58 : List ℕ → String) (rounds : ℕ) (batch : List DrainStep)
    (s s' : SigFirstSub) (st : State Pool)
    → drain_steps batch s ≡ ok s'
    → print_items base58 (suc rounds) (batch ∷ []) s st
      ≡ print_items base58 (suc rounds) ([] ∷ []) s' st
unfolding print_items receive drain_steps
print_items-arrived base58 rounds batch s s' st arrived = rw (print_items, receive, arrived) refl

module _ {Pool : Type 0} (lookup_env : String → Option String) (parse_bool : String → Result Bool)
    (peer : Peer) (marshal : List (String × Json) → Result (List ℕ))
    (unmarshal : List ℕ → Option Ack) (base58 : List ℕ → String) (dgs : List (List ℕ)) (e : Error)
    (split_host_port : String → Result String) (is_loopback_ip : String → Bool)
    (dial_addr : String → TlsConfig Pool → Option Error) (st : State Pool) (c : Client)
    (flt : Filter) (h : SigFirstHandle)
    (set : Configured lookup_env split_host_port is_loopback_ip dial_addr)
    (connected : (made lookup_env split_host_port is_loopback_ip dial_addr).result ≡ ok c)
    (selected : filter_for lookup_env parse_bool (getenv lookup_env "PULSE_ACCOUNT") ≡ value flt)
    (granted : (subscribe_sig_first peer marshal unmarshal c none flt st.world).0 ≡ ok h)
    (bytes : All (All IsByte) dgs) where
  -- The state of the program when it has subscribed.
  abbrev pub reading : State Pool
  reading = record {
    dials = st.dials ++ (made lookup_env split_host_port is_loopback_ip dial_addr).dials;
    world = (subscribe_sig_first peer marshal unmarshal c none flt st.world).1;
    printed =
        st.printed
        ++ (connected_to (getenv lookup_env "PULSE_ADDR") (getenv lookup_env "PULSE_ACCOUNT") ∷ []);
  }

  -- Where the three variables are set, `PULSE_VOTE` is a Boolean or not set, `Connect` gives a client,
  -- the subscription with the environment's filter succeeds, and any datagrams of bytes, each with its
  -- `push`, and then the end of the connection come before the first call of `Next`: the queue holds
  -- the newest items of the datagrams, 4096 at most. If these are 20 or more, examples/sigfirst prints the first 20 of
  -- them, in order, and the line of the queue, closes the connection and returns; if they are fewer,
  -- it prints all of them, in order, and ends with the error of the connection.
  pub main-late :
      let items : List SigFirstItem = newest 4096 (items_of dgs) in
      let run : Ended (Unit {0}) × State Pool =
        main lookup_env parse_bool peer marshal unmarshal base58
          (late dgs e ∷ [])
          split_host_port
          is_loopback_ip
          dial_addr
          st in
      ((20 ≤ length items)
        × ((left : SigFirstSub) × (left.queue ≡ drop 20 items)
            × (run ≡ (
              value tt,
              record reading {
                world = (close peer marshal unmarshal reading.world).1;
                printed =
                    (reading.printed ++ map (line_of base58) (take 20 items))
                    ++ (stats_line left left left ∷ []);
              },
            ))))
      ⊎ ((length items < 20)
          × (run ≡ (
            fatal (next_error (drain_end e)),
            record reading { printed = reading.printed ++ map (line_of base58) items },
          )))
  unfolding print print_stats drain_steps
  main-late =
      let items : List SigFirstItem = newest 4096 (items_of dgs) in
      let capacity =
        connected-capacity split_host_port is_loopback_ip dial_addr (getenv lookup_env "PULSE_ADDR")
          (getenv lookup_env "PULSE_TOKEN") c connected in
      let fresh =
        subscribe_sig_first-new peer marshal unmarshal c none flt st.world h 4096 capacity
          granted in
      let (k, m, arrived) =
        drain_steps-late dgs e 4096 [] 0 (record { last_seq = 0; have_last = false; gaps = 0 })
          bytes (omega arith) (omega arith) (omega arith) in
      let full : SigFirstSub = over 4096 items k m (drain_end e) in
      let looped =
        print_items-arrived base58 19 (late dgs e) h.sub full reading
          (ap (drain_steps (late dgs e)) fresh ∙ arrived) in
      let started =
        main-loop lookup_env parse_bool peer marshal unmarshal base58 (late dgs e ∷ [])
          split_host_port is_loopback_ip dial_addr st c flt h set connected selected granted in
      let go = λ (r : Ended (SigFirstSub × List (List DrainStep)) × State Pool).
        let r' : Ended (Unit {0}) × State Pool = continue r.0 r.1 print_stats in
        and_close peer marshal unmarshal r'.0 r'.1 in
      elim (Bool-cases (ltb (length items) 20)) [
        | inl few ↦
            let less = ltb→lt (length items) 20 few in
            inr (
              less,
              started
                  ∙ ap go (
                      looped
                      ∙ print_items-few base58 4096 k m (drain_end e) 20 ([] ∷ []) items reading
                          less),
            )
        | inr many ↦
            let more = ltb_false→le (length items) 20 many in
            inl (
              more,
              (
                over 4096 (drop 20 items) k m (drain_end e),
                refl,
                started
                    ∙ ap go (
                        looped
                        ∙ print_items-enough base58 4096 k m (drain_end e) 20 ([] ∷ []) items
                            reading more),
              ),
            )
      ]
