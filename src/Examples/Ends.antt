-- ===== src/Examples/Ends.antt =====
-- The parts of the programs that end.
use pulse_go.Base.{
  ℕ, ◌≡◌, ◌≢◌, refl, arith, String, Bool, Option, some, List, [], ◌∷◌, Bool-cases, inl, inr,
}
use pulse_go.Errors.{Error}
use pulse_go.Go.{Result, ok, err, panic}
use pulse_go.Control.{Ack, string_eq}
use pulse_go.Message.{Json}
use pulse_go.Connect.{connect}
use pulse_go.Options.{TlsConfig, with_token}
use pulse_go.Transport.{Peer}
use pulse_go.Client.{Client}
use pulse_go.Examples.{
  Ended, value, fatal, panicked, crashed, unfinished, State, Program, continue, or_fatal, getenv,
  require, filter_for, connect_client, main_with, and_close, ◌>>=◌,
}

-- The part ends.
unfoldable pub Ends : {A : Type 0} {Pool : Type 0} → Ended A × State Pool → Type 0
Ends r = r.0 ≢ unfinished

pub continue-Ends :
    {A B Pool : Type 0} (r : Ended A × State Pool) (k : A → Program Pool B)
    → Ends r
    → ((a : A) → r.0 ≡ value a → Ends (k a r.1))
    → Ends (continue r.0 r.1 k)
unfolding Ends
continue-Ends (value a, st) k ends rest = rest a refl
continue-Ends (fatal f, st) k ends rest = λ h. cc h
continue-Ends (panicked, st) k ends rest = λ h. cc h
continue-Ends (crashed, st) k ends rest = λ h. cc h
continue-Ends (unfinished, st) k ends rest = absurd (ends refl)

pub value-Ends :
    {A Pool : Type 0} (a : A) (st : State Pool) → Ends {A = A} {Pool = Pool} (value a, st)
unfolding Ends
value-Ends a st = λ h. cc h

pub or_fatal-Ends : {A : Type 0} (r : Result A) → or_fatal r ≢ unfinished
or_fatal-Ends (ok a) h = absurd (cc h)
or_fatal-Ends (err e) h = absurd (cc h)
or_fatal-Ends panic h = absurd (cc h)

pub or_fatal-value : {A : Type 0} (r : Result A) (a : A) → or_fatal r ≡ value a → r ≡ ok a
or_fatal-value (ok b) a h = cc h
or_fatal-value (err e) a h = absurd (cc h)
or_fatal-value panic a h = absurd (cc h)

pub filter_for-Ends :
    (lookup_env : String → Option String) (parse_bool : String → Result Bool) (account : String)
    → filter_for lookup_env parse_bool account ≢ unfinished
unfolding filter_for
filter_for-Ends lookup_env parse_bool account h = ground arith

require-Ends :
    {Pool : Type 0} (lookup_env : String → Option String) (name complaint : String)
    (st : State Pool)
    → Ends (require lookup_env name complaint st)
unfolding require Ends
require-Ends lookup_env name complaint st =
    elim (Bool-cases (string_eq (getenv lookup_env name) "")) [
      | inl e ↦ rw e (λ h. absurd (cc h))
      | inr e ↦ rw e (λ h. absurd (cc h))
    ]

pub and_close-Ends :
    {A Pool : Type 0} (peer : Peer) (marshal : List (String × Json) → Result (List ℕ))
    (unmarshal : List ℕ → Option Ack) (r : Ended A × State Pool)
    → Ends r
    → Ends (and_close peer marshal unmarshal r.0 r.1)
unfolding Ends
and_close-Ends peer marshal unmarshal (value a, st) ends = λ h. cc h
and_close-Ends peer marshal unmarshal (fatal f, st) ends = λ h. cc h
and_close-Ends peer marshal unmarshal (panicked, st) ends = λ h. cc h
and_close-Ends peer marshal unmarshal (crashed, st) ends = λ h. cc h
and_close-Ends peer marshal unmarshal (unfinished, st) ends = absurd (ends refl)

-- A program whose part behind `Connect` ends.
module _ {Pool : Type 0} (split_host_port : String → Result String) (is_loopback_ip : String → Bool)
    (dial_addr : String → TlsConfig Pool → Option Error) (lookup_env : String → Option String)
    (body : Client → String → String → Program Pool (Unit {0}))
    (each : (c : Client) (addr account : String) (st : State Pool)
      → Ends (body c addr account st)) where
  connecting : String → String → String → Program Pool (Unit {0})
  connecting addr token account =
      connect_client split_host_port is_loopback_ip dial_addr addr token >>= λ c.
      body c addr account

  connect_client-Ends :
      (addr token : String) (st : State Pool)
      → Ends (connect_client split_host_port is_loopback_ip dial_addr addr token st)
  unfolding connect_client Ends
  connect_client-Ends addr token st =
      or_fatal-Ends
        (connect split_host_port is_loopback_ip dial_addr addr
          (some (with_token token) ∷ [])).result

  connecting-Ends :
      (addr token account : String) (st : State Pool) → Ends (connecting addr token account st)
  unfolding connecting
  connecting-Ends addr token account st =
      let r = connect_client split_host_port is_loopback_ip dial_addr addr token st in
      continue-Ends r (λ c. body c addr account) (connect_client-Ends addr token st)
        (λ c e. each c addr account r.1)

  pub main_with-Ends :
      (st : State Pool)
      → Ends (main_with split_host_port is_loopback_ip dial_addr lookup_env body st)
  unfolding main_with connecting
  main_with-Ends st =
      let missing : String = "PULSE_ACCOUNT is required (an account or program id)" in
      let first : Program Pool String =
        require lookup_env "PULSE_ADDR" "PULSE_ADDR is required (host:port)" in
      let second : Program Pool String =
        require lookup_env "PULSE_TOKEN" "PULSE_TOKEN is required" in
      let third : Program Pool String = require lookup_env "PULSE_ACCOUNT" missing in
      continue-Ends (first st) (λ addr. second >>= λ token. third >>= connecting addr token)
        (require-Ends lookup_env "PULSE_ADDR" "PULSE_ADDR is required (host:port)" st)
        (λ addr set.
          let st₁ = (first st).1 in
          continue-Ends (second st₁) (λ token. third >>= connecting addr token)
            (require-Ends lookup_env "PULSE_TOKEN" "PULSE_TOKEN is required" st₁)
            (λ token set'.
              let st₂ = (second st₁).1 in
              continue-Ends (third st₂) (connecting addr token)
                (require-Ends lookup_env "PULSE_ACCOUNT" missing st₂)
                (λ account set''. connecting-Ends addr token account (third st₂).1)))
