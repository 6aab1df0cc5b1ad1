-- ===== src/Examples/SigFirst.antt =====
-- examples/sigfirst/main.go. There is a list of steps of the drain goroutine for each call of `Next`,
-- which it makes before the call takes its item, and for each read of the counters behind the loop.
pub mod Schedule
pub mod Drained
pub mod Stats
pub mod Loop
pub mod Prints
pub mod Late
use pulse_go.Base.{ℕ, zero, suc, String, Bool, Option, none, some, List, [], ◌∷◌, length}
use pulse_go.Errors.{Error}
use pulse_go.Go.{Result, ok, err, panic}
use pulse_go.Control.{Ack}
use pulse_go.Message.{Json}
use pulse_go.Options.{TlsConfig}
use pulse_go.Transport.{Peer}
use pulse_go.Sig.{
  SigFirstItem, SigFirstSub, Phase, receiving, sending, evicting, retrying, returned,
  drain_datagram, drain_error, Taken, item, ended, waiting, next, queue_stats, gaps_of,
}
use pulse_go.Sig.Window.{producer}
use pulse_go.Client.{Client, subscribe_sig_first}
use pulse_go.Examples.{
  Line, connected_to, item_line, queue_line, Ended, value, fatal, crashed, unfinished, State,
  Program, pure, ◌>>=◌, ◌>>◌, print, ended_so, in_world, next_error, filter_for, main_with,
  deferring_close,
}

-- What the drain goroutine does: a datagram or an error comes to `recv`, or `push` goes on with its
-- next `select`. What it cannot do where it stands changes nothing.
pub data DrainStep : Type 0 where
  datagram : List ℕ → DrainStep
  connection_error : Error → DrainStep
  select : DrainStep

abbrev pub at_recv : {A : Type 0} → Phase → A → A → A
at_recv receiving a b = a
at_recv _ a b = b

unfoldable pub drain_step : DrainStep → SigFirstSub → Result SigFirstSub
drain_step (datagram dg) s = at_recv s.phase (drain_datagram dg s) (ok s)
drain_step (connection_error e) s = at_recv s.phase (ok (drain_error e s)) (ok s)
drain_step select s = ok (producer s)

unfoldable pub drain_steps : List DrainStep → SigFirstSub → Result SigFirstSub
drain_steps [] s = ok s
drain_steps (d ∷ ds) s = pulse_go.Go.◌>>=◌ (drain_step d s) (drain_steps ds)

abbrev pub line_of : (List ℕ → String) → SigFirstItem → Line
line_of base58 it = item_line it.slot it.seq (base58 it.signature)

-- The depth of the queue, `Dropped` and `Gaps` are read one after the other.
abbrev pub stats_line : SigFirstSub → SigFirstSub → SigFirstSub → Line
stats_line at_queued at_dropped at_gaps =
    queue_line (queue_stats at_queued).queued (queue_stats at_queued).capacity
      (queue_stats at_dropped).stats_dropped (gaps_of at_gaps)

abbrev pub first_batch : List (List DrainStep) → List DrainStep
first_batch [] = []
first_batch (batch ∷ batches) = batch

abbrev pub later_batches : List (List DrainStep) → List (List DrainStep)
later_batches [] = []
later_batches (batch ∷ batches) = batches

-- The drain goroutine has gone on. It gives no error, and its panic is not the caller's.
abbrev pub gone_on : Result SigFirstSub → Ended SigFirstSub
gone_on (ok s) = value s
gone_on (err e) = crashed
gone_on panic = crashed

module _ {Pool : Type 0} where
  abbrev pub returned_by : Taken → State Pool → Ended (SigFirstItem × SigFirstSub) × State Pool
  returned_by (item it s) st = (value (it, s), st)
  returned_by (ended e) st = (fatal (next_error e), st)
  returned_by waiting st = (unfinished, st)

  abbrev pub meanwhile : List DrainStep → SigFirstSub → Program Pool SigFirstSub
  meanwhile steps s = ended_so (gone_on (drain_steps steps s))

  -- What goes on before `sub.Next(ctx)` returns, and the call with what follows its error.
  unfoldable pub receive : List DrainStep → SigFirstSub → Program Pool (SigFirstItem × SigFirstSub)
  receive steps s = meanwhile steps s >>= λ s' st. returned_by (next s') st

  -- The loop, with the number of its rounds that are left, up to the batches behind it.
  unfoldable pub print_items :
      (List ℕ → String)
      → ℕ
      → List (List DrainStep)
      → SigFirstSub
      → Program Pool (SigFirstSub × List (List DrainStep))
  print_items base58 zero batches s = pure (s, batches)
  print_items base58 (suc n) batches s = receive (first_batch batches) s >>= λ r.
      print (line_of base58 r.0) >> print_items base58 n (later_batches batches) r.1

  -- `QueueStats` and `Gaps`, with what goes on before each of their three reads.
  unfoldable pub print_stats : SigFirstSub × List (List DrainStep) → Program Pool (Unit {0})
  print_stats (s, batches) = do
    at_queued ← meanwhile (first_batch batches) s
    at_dropped ← meanwhile (first_batch (later_batches batches)) at_queued
    at_gaps ← meanwhile (first_batch (later_batches (later_batches batches))) at_dropped
    print (stats_line at_queued at_dropped at_gaps)

module _ {Pool : Type 0} (lookup_env : String → Option String) (parse_bool : String → Result Bool)
    (peer : Peer) (marshal : List (String × Json) → Result (List ℕ))
    (unmarshal : List ℕ → Option Ack) (base58 : List ℕ → String)
    (batches : List (List DrainStep)) where
  -- What `main` does with its client.
  unfoldable pub items_to_stdout : Client → String → String → Program Pool (Unit {0})
  items_to_stdout c addr account = do
    print (connected_to addr account)
    flt ← ended_so (filter_for lookup_env parse_bool account)
    handle ← in_world (subscribe_sig_first peer marshal unmarshal c none flt)
    left ← print_items base58 20 batches handle.sub
    print_stats left

  unfoldable pub main :
      (String → Result String)
      → (String → Bool)
      → (String → TlsConfig Pool → Option Error)
      → Program Pool (Unit {0})
  main split_host_port is_loopback_ip dial_addr =
      main_with split_host_port is_loopback_ip dial_addr lookup_env
        (λ c addr account. deferring_close peer marshal unmarshal (items_to_stdout c addr account))
