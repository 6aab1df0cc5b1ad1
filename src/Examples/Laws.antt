-- ===== src/Examples/Laws.antt =====
-- The programs up to their client, where nothing ends them before.
use pulse_go.Base.{◌≡◌, refl, String, Bool, false, Option, some, [], ◌∷◌, ◌++◌}
use pulse_go.Errors.{Error}
use pulse_go.Go.{Result, ok}
use pulse_go.Control.{string_eq}
use pulse_go.Options.{TlsConfig, with_token}
use pulse_go.Client.{Client}
use pulse_go.Connect.{connect}
use pulse_go.Examples.{Program, State, getenv, require, connect_client, main_with}

module _ {Pool : Type 0} (lookup_env : String → Option String)
    (split_host_port : String → Result String) (is_loopback_ip : String → Bool)
    (dial_addr : String → TlsConfig Pool → Option Error) where
  -- The three variables are set.
  pub record Configured : Type 0 where
    pub addr_set : string_eq (getenv lookup_env "PULSE_ADDR") "" ≡ false
    pub token_set : string_eq (getenv lookup_env "PULSE_TOKEN") "" ≡ false
    pub account_set : string_eq (getenv lookup_env "PULSE_ACCOUNT") "" ≡ false

  -- What `Connect` gives for the environment's address and token.
  abbrev pub made : pulse_go.Connect.Connected Pool
  made =
      connect split_host_port is_loopback_ip dial_addr (getenv lookup_env "PULSE_ADDR")
        (some (with_token (getenv lookup_env "PULSE_TOKEN")) ∷ [])

  pub main_with-connected :
      (body : Client → String → String → Program Pool (Unit {0})) (st : State Pool) (c : Client)
      → Configured
      → made.result ≡ ok c
      → main_with split_host_port is_loopback_ip dial_addr lookup_env body st
        ≡ body c
            (getenv lookup_env "PULSE_ADDR")
            (getenv lookup_env "PULSE_ACCOUNT")
            (record st { dials = st.dials ++ made.dials })
  unfolding main_with require connect_client
  main_with-connected body st c set connected =
      rw (set.addr_set, set.token_set, set.account_set, connected) refl
