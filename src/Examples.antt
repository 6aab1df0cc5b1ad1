-- ===== src/Examples.antt =====
-- What the programs under examples share: a `main` as a function of the environment, of the dial and
-- of the peer. The lines that it prints are the values that it formats.
pub mod Laws
pub mod Ends
pub mod FullTx
pub mod SigFirst
use pulse_go.Base.{ℕ, String, Bool, Option, none, some, List, [], ◌∷◌, ◌++◌, if◌then◌else◌}
use pulse_go.Errors.{Error, CloseInfo, close_info_from_error}
use pulse_go.Go.{Result, ok, err, panic}
use pulse_go.Control.{Ack, string_eq}
use pulse_go.Message.{Filter, Json, accounts, with_vote}
use pulse_go.Options.{ConnectOption, with_token, TlsConfig}
use pulse_go.Transport.{Peer, World, M}
use pulse_go.Client.{Client, close}
use pulse_go.Connect.{connect}

pub record TransactionLine : Type 0 where
  pub slot : ℕ
  pub v0 : Bool
  pub sigs : ℕ
  pub keys : ℕ
  pub ix : ℕ
  pub atl : ℕ
  pub alt_incomplete : Bool
  pub loaded_w : ℕ
  pub loaded_r : ℕ
  pub sig : String

pub data Line : Type 0 where
  connected_to : String → String → Line
  transaction_line : TransactionLine → Line
  item_line : ℕ → ℕ → String → Line
  heartbeat_line : ℕ → ℕ → Line
  queue_line : ℕ → ℕ → ℕ → ℕ → Line

-- What `log.Fatal` and `log.Fatalf` say.
pub data Fatal : Type 0 where
  required : String → Fatal
  failed : Error → Fatal
  bad_vote : Error → Fatal
  feed_closed : CloseInfo → Fatal

-- How a part of `main` ends. It has `panicked` where its own goroutine panics, and `crashed` where
-- another does, which ends the process. It is `unfinished` where a call of `Next` has not returned yet: the fuel
-- of its rounds is short, or there is nothing to return.
pub data Ended (A : Type 0) : Type 0 where
  value : A → Ended A
  fatal : Fatal → Ended A
  panicked crashed unfinished : Ended A

-- `if err != nil { log.Fatal(err) }`
abbrev pub or_fatal : {A : Type 0} → Result A → Ended A
or_fatal (ok a) = value a
or_fatal (err e) = fatal (failed e)
or_fatal panic = panicked

-- The `log` calls behind a call of `Next` that returned an error.
unfoldable pub next_error : Error → Fatal
next_error e = elim (close_info_from_error e) [ none ↦ failed e | some info ↦ feed_closed info ]

-- The dials, the calls to the peer, and the lines so far.
pub record State (Pool : Type 0) : Type 0 where
  pub dials : List (String × TlsConfig Pool)
  pub world : World
  pub printed : List Line

abbrev pub Program : Type 0 → Type 0 → Type 0
Program Pool A = State Pool → Ended A × State Pool

module _ {Pool : Type 0} where
  abbrev pub pure : {A : Type 0} → A → Program Pool A
  pure a st = (value a, st)

  abbrev pub stop : {A : Type 0} → Fatal → Program Pool A
  stop f st = (fatal f, st)

  -- What follows a part that has ended.
  abbrev pub continue :
      {A B : Type 0} → Ended A → State Pool → (A → Program Pool B) → Ended B × State Pool
  continue (value a) st k = k a st
  continue (fatal f) st k = (fatal f, st)
  continue panicked st k = (panicked, st)
  continue crashed st k = (crashed, st)
  continue unfinished st k = (unfinished, st)

  infixl 5 ◌>>=◌ ◌>>◌
  abbrev pub ◌>>=◌ : {A B : Type 0} → Program Pool A → (A → Program Pool B) → Program Pool B
  ◌>>=◌ m k st = continue (m st).0 (m st).1 k

  abbrev pub ◌>>◌ : {B : Type 0} → Program Pool (Unit {0}) → Program Pool B → Program Pool B
  m >> k = m >>= λ u. k

  abbrev pub ended_so : {A : Type 0} → Ended A → Program Pool A
  ended_so r st = (r, st)

  -- `fmt.Printf`
  unfoldable pub print : Line → Program Pool (Unit {0})
  print line st = (value tt, record st { printed = st.printed ++ (line ∷ []) })

  unfoldable pub in_world : {A : Type 0} → M A → Program Pool A
  in_world m st = (or_fatal (m st.world).0, record st { world = (m st.world).1 })

-- The environment.
module _ (lookup_env : String → Option String) where
  -- `os.Getenv`
  abbrev pub getenv : String → String
  getenv name = elim (lookup_env name) [ none ↦ "" | some v ↦ v ]

  unfoldable pub require : {Pool : Type 0} → String → String → Program Pool String
  require name complaint =
      if string_eq (getenv name) "" then stop (required complaint) else pure (getenv name)

  -- The filter of an account, and of `PULSE_VOTE` if it is set, with `strconv.ParseBool`.
  unfoldable pub filter_for : (String → Result Bool) → String → Ended Filter
  filter_for parse_bool account = elim (lookup_env "PULSE_VOTE") [
    | none ↦ value (accounts (account ∷ []))
    | some v ↦ elim (parse_bool v) [
      | ok is_vote ↦ value (with_vote is_vote (accounts (account ∷ [])))
      | err e ↦ fatal (bad_vote e)
      | panic ↦ panicked
    ]
  ]

-- The peer, and the JSON encoder and decoder.
module _ {Pool : Type 0} (peer : Peer) (marshal : List (String × Json) → Result (List ℕ))
    (unmarshal : List ℕ → Option Ack) where
  -- `defer c.Close()`: it runs where the body returns or panics, and not where it ends the process.
  -- The error of `Close` is dropped.
  abbrev pub and_close : {A : Type 0} → Ended A → State Pool → Ended A × State Pool
  and_close (value a) st =
      (value a, record st { world = (close peer marshal unmarshal st.world).1 })
  and_close (fatal f) st = (fatal f, st)
  and_close panicked st =
      (panicked, record st { world = (close peer marshal unmarshal st.world).1 })
  and_close crashed st = (crashed, st)
  and_close unfinished st = (unfinished, st)

  unfoldable pub deferring_close : {A : Type 0} → Program Pool A → Program Pool A
  deferring_close body st = and_close (body st).0 (body st).1

-- The parts of `Connect` that are not the package's.
module _ {Pool : Type 0} (split_host_port : String → Result String) (is_loopback_ip : String → Bool)
    (dial_addr : String → TlsConfig Pool → Option Error) where
  unfoldable pub connect_client : String → String → Program Pool Client
  connect_client addr token st =
      let made =
        connect split_host_port is_loopback_ip dial_addr addr (some (with_token token) ∷ []) in
      (or_fatal made.result, record st { dials = st.dials ++ made.dials })

  -- Both programs up to the client, and what they do with it.
  unfoldable pub main_with :
      (String → Option String)
      → (Client → String → String → Program Pool (Unit {0}))
      → Program Pool (Unit {0})
  main_with lookup_env body = do
    addr ← require lookup_env "PULSE_ADDR" "PULSE_ADDR is required (host:port)"
    token ← require lookup_env "PULSE_TOKEN" "PULSE_TOKEN is required"
    account ←
        require lookup_env "PULSE_ACCOUNT" "PULSE_ACCOUNT is required (an account or program id)"
    c ← connect_client addr token
    body c addr account
