-- ===== src/Tests/Setup.antt =====
-- The options of a connection at concrete inputs.
use pulse_go.Base.{ℕ, ◌≡◌, refl, String, Bool, true, false, Option, none, some, List, [], ◌∷◌}
use pulse_go.Base.Int.{pos}
use pulse_go.Go.{Result, ok}
use pulse_go.Options.{
  ClientConfig, ConnectOption, TlsConfig, tls13, with_insecure_tls_for_local_development,
  with_sig_queue_capacity, apply, apply_all, check_conflicts, apply_options, new_tls_config,
  tls_for_host, is_loopback_host, ack_timeout_default, preamble_timeout_default,
}
use pulse_go.Base.{◌≢◌, ◌↔◌, ◌⊎◌, arith, if◌then◌else◌}
use pulse_go.Errors.{Error}
use pulse_go.Derive.{bytes_eq}
use pulse_go.Derive.Programs.{bytes_eq_iff}
use pulse_go.Client.{Client}
use pulse_go.Connect.{connect, connect_with_token, configure, verify_connection}
use pulse_go.Connect.Dials.{Dialed, connect-Dialed}
use pulse_go.Connect.Token.{last_token, connect_with_token-last_token}
use pulse_go.Connect.Pin.{verify_connection_iff}
use pulse_go.Message.{Filter}

-- Local development with a queue of 8, and pools named by numbers.
abbrev options : List (Option (ConnectOption ℕ))
options = some with_insecure_tls_for_local_development ∷ some (with_sig_queue_capacity (pos 8)) ∷ []

abbrev local_config : ClientConfig ℕ
local_config = record {
  token = "";
  root_cas = none;
  server_name = "";
  spki_pin_sha256 = [];
  insecure_local_tls = true;
  ack_timeout = ack_timeout_default;
  preamble_timeout = preamble_timeout_default;
  sig_queue_capacity = pos 8;
}

-- Every target has the host before its port; here it is always this one.
abbrev split_localhost : String → Result String
split_localhost addr = ok "localhost"

abbrev no_ip : String → Bool
no_ip host = false

abbrev local_tls : TlsConfig ℕ
local_tls = record {
  min_version = tls13;
  next_protos = "pulse" ∷ [];
  tls_server_name = "localhost";
  tls_root_cas = none;
  insecure_skip_verify = true;
  pin = [];
}

abbrev reached : String → TlsConfig ℕ → Option Error
reached addr tls_config = none

connect-Dialed_example :
    let r = connect split_localhost no_ip reached "localhost:4433" options in
    ((r.dials ≡ []) × ((c : Client) → r.result ≢ ok c))
    ⊎ Dialed split_localhost no_ip reached "localhost:4433" options r
connect-Dialed_example = connect-Dialed split_localhost no_ip reached "localhost:4433" options

abbrev local_client : Client
local_client = record {
  token = "t";
  ack_timeout = ack_timeout_default;
  preamble_timeout = preamble_timeout_default;
  sig_queue_capacity = pos 8;
}

local_client-connected :
    (connect_with_token split_localhost no_ip reached "localhost:4433" "t" options).result
    ≡ ok local_client
unfolding connect_with_token connect configure apply_options apply_all apply check_conflicts
    new_tls_config tls_for_host is_loopback_host
local_client-connected = refl

connect_with_token-last_token_example : local_client.token ≡ last_token "t" options
connect_with_token-last_token_example =
    connect_with_token-last_token split_localhost no_ip reached "localhost:4433" "t" options
      local_client local_client-connected

-- A digest that is the key itself, and a comparison of slices.
abbrev compare_slices : List ℕ → List ℕ → ℕ
compare_slices a b = if bytes_eq a b then 1 else 0

compare_slices_iff : (a b : List ℕ) → (compare_slices a b ≡ 1) ↔ (a ≡ b)
compare_slices_iff a b = (
  λ h. (bytes_eq_iff a b).0 (ground (arith, h)),
  λ e. let same = (bytes_eq_iff a b).1 e in ground (arith, same),
)

abbrev pinned_tls : TlsConfig ℕ
pinned_tls = record local_tls { pin = 1 ∷ 2 ∷ [] }

verify_connection_iff_example :
    (check : List (List ℕ) → Option Error) × (verify_connection (λ k. k) compare_slices pinned_tls
      ≡ some check)
    × ((peers : List (List ℕ))
        → (check peers ≡ none) ↔ (
            (leaf : List ℕ) × (chain : List (List ℕ)) × (peers ≡ leaf ∷ chain)
            × (leaf ≡ pinned_tls.pin)))
verify_connection_iff_example =
    verify_connection_iff (λ k. k) compare_slices compare_slices_iff pinned_tls (λ e. cc e)

-- A control message with a token, an account and no fields.
abbrev votes : Filter
votes = record {
  account_include = some ("a" ∷ []);
  account_exclude = none;
  account_required = none;
  vote = some true;
}
