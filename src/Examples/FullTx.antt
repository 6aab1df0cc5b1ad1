-- ===== src/Examples/FullTx.antt =====
-- examples/fulltx/main.go
pub mod Loop
pub mod Ends
pub mod Prints
use pulse_go.Base.{
  ℕ, zero, suc, String, Bool, true, false, Option, none, some, List, [], ◌∷◌, length,
}
use pulse_go.Errors.{Error}
use pulse_go.Go.{Result, ok, err, panic}
use pulse_go.Control.{Ack}
use pulse_go.Message.{Json}
use pulse_go.Options.{TlsConfig}
use pulse_go.Transport.{Peer}
use pulse_go.Wire.Frame.{FullTxV2}
use pulse_go.Client.{Client, FullSub, next_full, subscribe_full, heartbeat_of}
use pulse_go.Examples.{
  Line, connected_to, transaction_line, heartbeat_line, Ended, value, fatal, panicked, unfinished,
  State, Program, pure, ◌>>=◌, ◌>>◌, print, ended_so, in_world, next_error, filter_for, main_with,
  deferring_close,
}

module _ (base58 : List ℕ → String) where
  abbrev pub first_signature : List (List ℕ) → String
  first_signature [] = ""
  first_signature (sig ∷ sigs) = base58 sig

  abbrev pub line_of : FullTxV2 → Line
  line_of frame = transaction_line (record {
    slot = frame.tx.slot;
    v0 = frame.tx.versioned;
    sigs = length frame.tx.signatures;
    keys = length frame.tx.account_keys;
    ix = length frame.tx.instructions;
    atl = length frame.tx.address_table_lookups;
    alt_incomplete = frame.alt_incomplete;
    loaded_w = length frame.loaded_writable;
    loaded_r = length frame.loaded_readonly;
    sig = first_signature frame.tx.signatures;
  })

module _ {Pool : Type 0} where
  abbrev pub returned_by :
      Option (Result FullTxV2 × FullSub) → State Pool → Ended (FullTxV2 × FullSub) × State Pool
  returned_by none st = (unfinished, st)
  returned_by (some (ok v, s)) st = (value (v, s), st)
  returned_by (some (err e, s)) st = (fatal (next_error e), st)
  returned_by (some (panic, s)) st = (panicked, st)

  -- `sub.Next()` and what follows its error.
  unfoldable pub receive : ℕ → FullSub → Program Pool (FullTxV2 × FullSub)
  receive fuel s st = returned_by (next_full fuel s) st

  -- The loop, with the number of its rounds that are left.
  unfoldable pub print_transactions : (List ℕ → String) → ℕ → ℕ → FullSub → Program Pool FullSub
  print_transactions base58 fuel zero s = pure s
  print_transactions base58 fuel (suc n) s =
      receive fuel s >>= λ r. print (line_of base58 r.0) >> print_transactions base58 fuel n r.1

  abbrev pub last_heartbeat : ℕ × ℕ × Bool → Program Pool (Unit {0})
  last_heartbeat (ts, seq, true) = print (heartbeat_line ts seq)
  last_heartbeat (ts, seq, false) = pure tt

module _ {Pool : Type 0} (lookup_env : String → Option String) (parse_bool : String → Result Bool)
    (peer : Peer) (marshal : List (String × Json) → Result (List ℕ))
    (unmarshal : List ℕ → Option Ack) (base58 : List ℕ → String) (fuel : ℕ) where
  -- What `main` does with its client.
  unfoldable pub stream_to_stdout : Client → String → String → Program Pool (Unit {0})
  stream_to_stdout c addr account = do
    print (connected_to addr account)
    flt ← ended_so (filter_for lookup_env parse_bool account)
    sub ← in_world (subscribe_full peer marshal unmarshal c none flt (some ("alt" ∷ [])))
    left ← print_transactions base58 fuel 20 sub
    last_heartbeat (heartbeat_of left)

  unfoldable pub main :
      (String → Result String)
      → (String → Bool)
      → (String → TlsConfig Pool → Option Error)
      → Program Pool (Unit {0})
  main split_host_port is_loopback_ip dial_addr =
      main_with split_host_port is_loopback_ip dial_addr lookup_env
        (λ c addr account. deferring_close peer marshal unmarshal (stream_to_stdout c addr account))
