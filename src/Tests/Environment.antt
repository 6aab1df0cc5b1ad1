-- ===== src/Tests/Environment.antt =====
-- The environment and the dial of the programs under examples, at concrete inputs.
use pulse_go.Base.{
  ℕ, ◌≡◌, refl, String, Bool, true, false, Option, none, some, List, [], ◌∷◌, if◌then◌else◌,
}
use pulse_go.Base.Int.{pos}
use pulse_go.Errors.{Error}
use pulse_go.Go.{Result, ok}
use pulse_go.Control.{string_eq}
use pulse_go.Message.{Filter, accounts}
use pulse_go.Options.{
  TlsConfig, ack_timeout_default, preamble_timeout_default, apply_options, apply_all, apply,
  check_conflicts, new_tls_config, tls_for_host, is_loopback_host,
}
use pulse_go.Connect.{connect, configure}
use pulse_go.Client.{Client}
use pulse_go.Examples.{value, State, filter_for}
use pulse_go.Examples.Laws.{Configured, made}
use pulse_go.Tests.Connect.{fresh}

-- The three variables are set to one text, and `PULSE_VOTE` is not.
abbrev pub environment : String → Option String
environment name = if string_eq name "PULSE_VOTE" then none else some "v"

abbrev pub parse_bool : String → Result Bool
parse_bool s = ok true

abbrev pub split : String → Result String
split addr = ok "host"

abbrev pub no_ip : String → Bool
no_ip host = false

abbrev pub reached : String → TlsConfig ℕ → Option Error
reached addr tls_config = none

abbrev pub started : State ℕ
started = record { dials = []; world = fresh; printed = [] }

abbrev pub default_client : Client
default_client = record {
  token = "v";
  ack_timeout = ack_timeout_default;
  preamble_timeout = preamble_timeout_default;
  sig_queue_capacity = pos 4096;
}

pub set : Configured environment split no_ip reached
set = record { addr_set = refl; token_set = refl; account_set = refl }

pub connected : (made environment split no_ip reached).result ≡ ok default_client
unfolding connect configure apply_options apply_all apply check_conflicts new_tls_config
    tls_for_host is_loopback_host
connected = refl

abbrev pub flt : Filter
flt = accounts ("v" ∷ [])

pub selected : filter_for environment parse_bool "v" ≡ value flt
unfolding filter_for
selected = refl

abbrev pub base58 : List ℕ → String
base58 bytes = "s"
