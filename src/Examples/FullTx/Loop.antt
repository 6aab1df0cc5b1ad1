-- ===== src/Examples/FullTx/Loop.antt =====
-- The loop of examples/fulltx: what it prints, and how it ends.
use pulse_go.Base.{
  ℕ, zero, suc, ◌<◌, ◌≡◌, refl, arith, ap, sym, ◌∙◌, String, Bool, true, false, Option, List, [],
  ◌∷◌, ◌++◌, All, length, map, append_assoc, append-nil,
}
use pulse_go.Errors.{Error, eof}
use pulse_go.Stream.{HeartbeatState}
use pulse_go.Stream.Frames.{Quiet, quiet_stream, framed, latest}
use pulse_go.Stream.Closed.{Cut, cut_bytes}
use pulse_go.Client.{FullSub}
use pulse_go.Client.Deliver.{
  Delivery, stream_of, latest_of, end_error, at, next_full-delivery, next_full-end,
}
use pulse_go.Examples.{
  Line, connected_to, heartbeat_line, ◌>>=◌, Ended, value, fatal, failed, State, Program, continue,
  next_error, filter_for, getenv, deferring_close, and_close,
}
use pulse_go.Examples.FullTx.{line_of, receive, print_transactions, last_heartbeat}

-- The state with more lines.
abbrev pub and_lines : {Pool : Type 0} → State Pool → List Line → State Pool
and_lines st lines = record st { printed = st.printed ++ lines }

abbrev pub lines_of : (List ℕ → String) → List Delivery → List Line
lines_of base58 ds = map (λ d. line_of base58 d.transaction) ds

module _ {Pool : Type 0} (base58 : List ℕ → String) (fuel : ℕ) (s : FullSub) where
  print_transactions-delivery :
      (n : ℕ) (d : Delivery) (more : List ℕ) (hb : Option HeartbeatState) (st : State Pool)
      → length d.passed < fuel
      → print_transactions base58 fuel
          (suc n)
          (at s (quiet_stream d.passed ++ (framed d.body ++ more)) hb)
          st
        ≡ print_transactions base58 fuel n
            (at s more (latest d.passed hb))
            (and_lines st (line_of base58 d.transaction ∷ []))
  unfolding print_transactions receive pulse_go.Examples.print
  print_transactions-delivery n d more hb st enough =
      rw (print_transactions, receive, next_full-delivery d more fuel s hb enough) refl

  -- A stream of as many transactions as there are rounds is printed, in its order.
  pub print_transactions-stream_of :
      (ds : List Delivery) (more : List ℕ) (hb : Option HeartbeatState) (st : State Pool)
      → All (λ d. length d.passed < fuel) ds
      → print_transactions base58 fuel (length ds) (at s (stream_of ds more) hb) st
        ≡ (value (at s more (latest_of ds hb)), and_lines st (lines_of base58 ds))
  unfolding print_transactions stream_of latest_of
  print_transactions-stream_of [] more hb st each =
      ap (λ lines. (value (at s more hb), record st { printed = lines }))
        (sym (append-nil st.printed))
  print_transactions-stream_of (d ∷ ds) more hb st (enough, each) =
      print_transactions-delivery (length ds) d (stream_of ds more) hb st enough
      ∙ print_transactions-stream_of ds more (latest d.passed hb)
          (and_lines st (line_of base58 d.transaction ∷ [])) each
      ∙ ap
          (λ lines.
            (value (at s more (latest_of ds (latest d.passed hb))), record st { printed = lines }))
          (append_assoc st.printed (line_of base58 d.transaction ∷ []) (lines_of base58 ds))

  -- A stream of fewer is printed, and then its end is reported.
  pub print_transactions-end :
      (n : ℕ) (ds : List Delivery) (qs : List Quiet) (cut : Cut) (hb : Option HeartbeatState)
      (st : State Pool)
      → length ds < n
      → All (λ d. length d.passed < fuel) ds
      → length qs < fuel
      → print_transactions base58 fuel n
          (at s (stream_of ds (quiet_stream qs ++ cut_bytes cut)) hb)
          st
        ≡ (fatal (next_error (end_error cut)), and_lines st (lines_of base58 ds))
  unfolding print_transactions receive stream_of latest_of
  print_transactions-end zero ds qs cut hb st fewer each enough = absurd (omega (arith, fewer))
  print_transactions-end (suc n) [] qs cut hb st fewer each enough =
      rw (print_transactions, receive, next_full-end qs cut fuel s hb enough)
        (ap (λ lines. (fatal (next_error (end_error cut)), record st { printed = lines }))
          (sym (append-nil st.printed)))
  print_transactions-end (suc n) (d ∷ ds) qs cut hb st fewer (first, each) enough =
      print_transactions-delivery n d (stream_of ds (quiet_stream qs ++ cut_bytes cut)) hb st first
      ∙ print_transactions-end n ds qs cut (latest d.passed hb)
          (and_lines st (line_of base58 d.transaction ∷ [])) (omega (arith, fewer)) each enough
      ∙ ap (λ lines. (fatal (next_error (end_error cut)), record st { printed = lines }))
          (append_assoc st.printed (line_of base58 d.transaction ∷ []) (lines_of base58 ds))

pub next_error-end_error :
    (cut : Cut)
    → ◌≡◌ {A = Ended (Unit {0})}
        (fatal (next_error (end_error cut)))
        (fatal (failed (end_error cut)))
unfolding next_error pulse_go.Errors.close_info_from_error pulse_go.Errors.as_terminal
next_error-end_error cut = ground arith

-- The line about the last heartbeat, if there was one.
abbrev pub heartbeat_lines : ℕ × ℕ × Bool → List Line
heartbeat_lines (ts, seq, true) = heartbeat_line ts seq ∷ []
heartbeat_lines (ts, seq, false) = []

pub last_heartbeat_lem :
    {Pool : Type 0} (hb : ℕ × ℕ × Bool) (st : State Pool)
    → last_heartbeat hb st ≡ (value tt, and_lines st (heartbeat_lines hb))
unfolding pulse_go.Examples.print
last_heartbeat_lem (ts, seq, true) st = refl
last_heartbeat_lem (ts, seq, false) st =
    ap (λ lines. (value tt, record st { printed = lines })) (sym (append-nil st.printed))
