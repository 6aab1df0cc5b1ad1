-- ===== src/Connect.antt =====
-- pulse.go's `Connect` and `ConnectWithToken`, and the certificate check that options.go installs,
-- with `quic.DialAddr`, SHA-256 and `subtle.ConstantTimeCompare` as parameters.
pub mod Dials
pub mod Token
pub mod Pin
use pulse_go.Base.{
  ℕ, String, Bool, Option, none, some, List, [], ◌∷◌, ◌==◌, not, if◌then◌else◌, is_empty,
}
use Prim.Native.String.{◌++◌}
use pulse_go.Errors.{Error, message, wrap_error}
use pulse_go.Go.{Result, ok, err, panic, ◌>>=◌}
use pulse_go.Options.{
  ClientConfig, ConnectOption, with_token, apply_options, TlsConfig, new_tls_config,
}
use pulse_go.Client.{Client}

-- The client of a configuration.
abbrev pub client_of : {Pool : Type 0} → ClientConfig Pool → Client
client_of cfg = record {
  token = cfg.token;
  ack_timeout = cfg.ack_timeout;
  preamble_timeout = cfg.preamble_timeout;
  sig_queue_capacity = cfg.sig_queue_capacity;
}

-- What a call returns, and the dials that it has made.
pub record Connected (Pool : Type 0) : Type 0 where
  pub result : Result Client
  pub dials : List (String × TlsConfig Pool)

module _ {Pool : Type 0} (split_host_port : String → Result String) (is_loopback_ip : String → Bool)
    (dial_addr : String → TlsConfig Pool → Option Error) where
  -- `Connect` up to the dial.
  unfoldable pub configure :
      String → List (Option (ConnectOption Pool)) → Result (ClientConfig Pool × TlsConfig Pool)
  configure addr options = do
    cfg ← apply_options options
    tls_config ← new_tls_config split_host_port is_loopback_ip addr cfg
    ok (cfg, tls_config)

  abbrev pub dialed : String → ClientConfig Pool → Option Error → Result Client
  dialed addr cfg none = ok (client_of cfg)
  dialed addr cfg (some e) = err (wrap_error ("dial " ++ addr) e)

  -- `Connect`. The context that it passes to the dial is part of `dial_addr`.
  unfoldable pub connect : String → List (Option (ConnectOption Pool)) → Connected Pool
  connect addr options = elim (configure addr options) [
    | ok (cfg, tls_config) ↦ record {
      result = dialed addr cfg (dial_addr addr tls_config);
      dials = (addr, tls_config) ∷ [];
    }
    | err e ↦ record { result = err e; dials = [] }
    | panic ↦ record { result = panic; dials = [] }
  ]

  unfoldable pub connect_with_token :
      String → String → List (Option (ConnectOption Pool)) → Connected Pool
  connect_with_token addr token options = connect addr (some (with_token token) ∷ options)

-- `tls.Config.VerifyConnection` of `newTLSConfig`: nil without a pin, and else a function of the
-- subject public keys of the peer's certificates, the leaf's first.
module _ (sha256_sum : List ℕ → List ℕ) (constant_time_compare : List ℕ → List ℕ → ℕ) where
  abbrev pub check_pin : List ℕ → List (List ℕ) → Option Error
  check_pin pin [] = some (message "pulseclient: TLS peer sent no certificate")
  check_pin pin (leaf ∷ chain) =
      if not (constant_time_compare (sha256_sum leaf) pin == 1)
      then some (message "pulseclient: TLS leaf SPKI pin mismatch")
      else none

  unfoldable pub verify_connection :
      {Pool : Type 0} → TlsConfig Pool → Option (List (List ℕ) → Option Error)
  verify_connection t = if is_empty t.pin then none else some (check_pin t.pin)
