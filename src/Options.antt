-- ===== src/Options.antt =====
-- options.go: the options of `Connect`, their validation, and the TLS configuration. A certificate
-- pool is an opaque value, and `Clone` of one is that value again.
pub mod Safe
use pulse_go.Base.{
  ℕ, ◌*◌, ◌^◌, String, Bool, true, false, not, ◌&&◌, ◌||◌, Option, none, some, List, [], ◌∷◌,
  length, ◌==◌, if◌then◌else◌, is_empty,
}
use pulse_go.Base.Int.{ℤ, pos, le_zero}
use pulse_go.Errors.{
  Error, nil_root_cas, invalid_spki_pin, invalid_timeout, invalid_queue_capacity,
  conflicting_tls_options, insecure_tls_target, message, wrapped,
}
use pulse_go.Go.{Result, ok, err, panic, ◌>>=◌, ◌>>◌, reject_if}
use pulse_go.Control.{string_eq, is_some}

-- 10 * time.Second, in nanoseconds.
abbrev pub ack_timeout_default : ℤ
ack_timeout_default = pos (10 * 10 ^ 9)

abbrev pub preamble_timeout_default : ℤ
preamble_timeout_default = pos (10 * 10 ^ 9)

abbrev pub sig_queue_len : ℤ
sig_queue_len = pos 4096

-- An empty pin is the nil slice.
pub record ClientConfig (Pool : Type 0) : Type 0 where
  pub token : String
  pub root_cas : Option Pool
  pub server_name : String
  pub spki_pin_sha256 : List ℕ
  pub insecure_local_tls : Bool
  pub ack_timeout : ℤ
  pub preamble_timeout : ℤ
  pub sig_queue_capacity : ℤ

-- An `Option`, one constructor for each function that makes one.
pub data ConnectOption (Pool : Type 0) : Type 0 where
  with_token : String → ConnectOption Pool
  with_root_cas : Option Pool → ConnectOption Pool
  with_server_name : String → ConnectOption Pool
  with_spki_pin_sha256 : List ℕ → ConnectOption Pool
  with_insecure_tls_for_local_development : ConnectOption Pool
  with_ack_timeout : ℤ → ConnectOption Pool
  with_preamble_timeout : ℤ → ConnectOption Pool
  with_sig_queue_capacity : ℤ → ConnectOption Pool

module _ {Pool : Type 0} where
  abbrev pub default_client_config : ClientConfig Pool
  default_client_config = record {
    token = "";
    root_cas = none;
    server_name = "";
    spki_pin_sha256 = [];
    insecure_local_tls = false;
    ack_timeout = ack_timeout_default;
    preamble_timeout = preamble_timeout_default;
    sig_queue_capacity = sig_queue_len;
  }

  -- `option.apply(&cfg)`
  unfoldable pub apply : ConnectOption Pool → ClientConfig Pool → Result (ClientConfig Pool)
  apply (with_token token) cfg = ok (record cfg { token = token })
  apply (with_root_cas none) cfg = err nil_root_cas
  apply (with_root_cas (some roots)) cfg = ok (record cfg { root_cas = some roots })
  apply (with_server_name name) cfg =
      if string_eq name ""
      then err (message "pulseclient: TLS server name must not be empty")
      else ok (record cfg { server_name = name })
  apply (with_spki_pin_sha256 pin) cfg =
      if not (length pin == 32)
      then err invalid_spki_pin
      else ok (record cfg { spki_pin_sha256 = pin })
  apply with_insecure_tls_for_local_development cfg = ok (record cfg { insecure_local_tls = true })
  apply (with_ack_timeout timeout) cfg =
      if le_zero timeout then err invalid_timeout else ok (record cfg { ack_timeout = timeout })
  apply (with_preamble_timeout timeout) cfg =
      if le_zero timeout
      then err invalid_timeout
      else ok (record cfg { preamble_timeout = timeout })
  apply (with_sig_queue_capacity capacity) cfg =
      if le_zero capacity
      then err invalid_queue_capacity
      else ok (record cfg { sig_queue_capacity = capacity })

  -- The loop of `applyOptions`; a nil option is `none`.
  unfoldable pub apply_all :
      List (Option (ConnectOption Pool)) → ClientConfig Pool → Result (ClientConfig Pool)
  apply_all [] cfg = ok cfg
  apply_all (none ∷ options) cfg = err (message "pulseclient: nil connection option")
  apply_all (some option ∷ options) cfg = apply option cfg >>= apply_all options

  -- What `applyOptions` checks behind the loop.
  unfoldable pub check_conflicts : ClientConfig Pool → Result (ClientConfig Pool)
  check_conflicts cfg =
      if cfg.insecure_local_tls && (is_some cfg.root_cas || not (is_empty cfg.spki_pin_sha256))
      then err conflicting_tls_options
      else ok cfg

  unfoldable pub apply_options : List (Option (ConnectOption Pool)) → Result (ClientConfig Pool)
  apply_options options = apply_all options default_client_config >>= check_conflicts

abbrev pub alpn_protocol : String
alpn_protocol = "pulse"

-- The version that the configuration names; `crypto/tls` has others.
pub data TlsVersion : Type 0 where
  tls13 : TlsVersion

-- The fields of a `tls.Config` that the package sets. A pin stands for the
-- `VerifyConnection` that compares it.
pub record TlsConfig (Pool : Type 0) : Type 0 where
  pub min_version : TlsVersion
  pub next_protos : List String
  pub tls_server_name : String
  pub tls_root_cas : Option Pool
  pub insecure_skip_verify : Bool
  pub pin : List ℕ

-- Whether `net.ParseIP` gives a loopback address is a parameter.
unfoldable pub is_loopback_host : (String → Bool) → String → Bool
is_loopback_host is_loopback_ip host =
    if string_eq host "localhost" then true else is_loopback_ip host

-- So is `net.SplitHostPort`, with the host alone as its value.
module _ {Pool : Type 0} (split_host_port : String → Result String)
    (is_loopback_ip : String → Bool) where
  -- `newTLSConfig` once the host is known.
  unfoldable pub tls_for_host : String → ClientConfig Pool → Result (TlsConfig Pool)
  tls_for_host host cfg =
      if cfg.insecure_local_tls && not (is_loopback_host is_loopback_ip host)
      then err (insecure_tls_target host)
      else ok (record {
        min_version = tls13;
        next_protos = alpn_protocol ∷ [];
        tls_server_name = if string_eq cfg.server_name "" then host else cfg.server_name;
        tls_root_cas = cfg.root_cas;
        insecure_skip_verify = cfg.insecure_local_tls;
        pin = cfg.spki_pin_sha256;
      })

  unfoldable pub new_tls_config : String → ClientConfig Pool → Result (TlsConfig Pool)
  new_tls_config addr cfg = elim (split_host_port addr) [
    | ok host ↦ tls_for_host host cfg
    | err e ↦ err (wrapped "pulseclient: target must be host:port" e)
    | panic ↦ panic
  ]
