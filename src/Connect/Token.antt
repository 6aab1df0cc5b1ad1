-- ===== src/Connect/Token.antt =====
-- The token that a client authenticates with.
use pulse_go.Base.{
  ◌≡◌, ap, sym, ◌∙◌, arith, String, Bool, Option, none, some, List, [], ◌∷◌, inl, inr,
}
use pulse_go.Errors.{Error}
use pulse_go.Go.{Result, ok}
use pulse_go.Go.Decodes.{bind-ok}
use pulse_go.Options.{
  ClientConfig, ConnectOption, with_token, with_root_cas, with_server_name, with_spki_pin_sha256,
  with_insecure_tls_for_local_development, with_ack_timeout, with_preamble_timeout,
  with_sig_queue_capacity, default_client_config, apply, apply_all, check_conflicts, apply_options,
  TlsConfig,
}
use pulse_go.Client.{Client}
use pulse_go.Connect.{client_of, dialed, connect_with_token}
use pulse_go.Connect.Dials.{connect-Dialed}

-- The token of the last `WithToken` of the options, or else the one given.
pub last_token : {Pool : Type 0} → String → List (Option (ConnectOption Pool)) → String
last_token t [] = t
last_token t (some (with_token t') ∷ options) = last_token t' options
last_token t (_ ∷ options) = last_token t options

module _ {Pool : Type 0} (split_host_port : String → Result String) (is_loopback_ip : String → Bool)
    (dial_addr : String → TlsConfig Pool → Option Error) where
  apply-last_token :
      (o : ConnectOption Pool) (options : List (Option (ConnectOption Pool)))
      (cfg cfg' : ClientConfig Pool)
      → apply o cfg ≡ ok cfg'
      → last_token cfg'.token options ≡ last_token cfg.token (some o ∷ options)
  unfolding apply last_token
  apply-last_token (with_token t) options cfg cfg' h =
      ap (λ t. last_token t options) (ground (arith, h))
  apply-last_token (with_root_cas none) options cfg cfg' h = absurd (cc h)
  apply-last_token (with_root_cas (some roots)) options cfg cfg' h =
      ap (λ t. last_token t options) (ground (arith, h))
  apply-last_token (with_server_name name) options cfg cfg' h =
      ap (λ t. last_token t options) (ground (arith, h))
  apply-last_token (with_spki_pin_sha256 pin) options cfg cfg' h =
      ap (λ t. last_token t options) (ground (arith, h))
  apply-last_token with_insecure_tls_for_local_development options cfg cfg' h =
      ap (λ t. last_token t options) (ground (arith, h))
  apply-last_token (with_ack_timeout t) options cfg cfg' h =
      ap (λ t. last_token t options) (ground (arith, h))
  apply-last_token (with_preamble_timeout t) options cfg cfg' h =
      ap (λ t. last_token t options) (ground (arith, h))
  apply-last_token (with_sig_queue_capacity n) options cfg cfg' h =
      ap (λ t. last_token t options) (ground (arith, h))

  apply_all-last_token :
      (options : List (Option (ConnectOption Pool))) (cfg cfg' : ClientConfig Pool)
      → apply_all options cfg ≡ ok cfg'
      → cfg'.token ≡ last_token cfg.token options
  unfolding apply_all apply last_token
  apply_all-last_token [] cfg cfg' h = ground (arith, h)
  apply_all-last_token (none ∷ options) cfg cfg' h = absurd (cc h)
  apply_all-last_token (some o ∷ options) cfg cfg' h =
      let (cfg₁, step, rest) = bind-ok (apply o cfg) (apply_all options) cfg' h in
      apply_all-last_token options cfg₁ cfg' rest ∙ apply-last_token o options cfg cfg₁ step

  apply_options-last_token :
      (options : List (Option (ConnectOption Pool))) (cfg : ClientConfig Pool)
      → apply_options options ≡ ok cfg
      → cfg.token ≡ last_token "" options
  unfolding apply_options check_conflicts
  apply_options-last_token options cfg h =
      let (cfg₁, all, checked) =
        bind-ok (apply_all options default_client_config) check_conflicts cfg h in
      let same : cfg₁ ≡ cfg = ground (arith, checked) in
      sym (ap (λ c. c.token) same) ∙ apply_all-last_token options default_client_config cfg₁ all

  pub dialed-client_of :
      (addr : String) (cfg : ClientConfig Pool) (e : Option Error) (c : Client)
      → dialed split_host_port is_loopback_ip dial_addr addr cfg e ≡ ok c
      → client_of cfg ≡ c
  dialed-client_of addr cfg none c h = ground (arith, h)
  dialed-client_of addr cfg (some e) c h = absurd (cc h)

  -- A client of `ConnectWithToken` authenticates with the token of the last `WithToken` among the
  -- additional options, and with the token given where there is none.
  pub connect_with_token-last_token :
      (addr token : String) (options : List (Option (ConnectOption Pool))) (c : Client)
      → (connect_with_token split_host_port is_loopback_ip dial_addr addr token options).result
        ≡ ok c
      → c.token ≡ last_token token options
  unfolding connect_with_token last_token
  connect_with_token-last_token addr token options c h =
      let all = some (with_token token) ∷ options in
      elim (connect-Dialed split_host_port is_loopback_ip dial_addr addr all) [
        | inl (none_dialed, refused) ↦ absurd (refused c h)
        | inr d ↦
            sym (
              ap (λ c. c.token)
                (dialed-client_of addr d.config (dial_addr addr d.tls) c
                  (sym (ap (λ r. r.result) d.outcome) ∙ h)))
            ∙ apply_options-last_token all d.config d.applied
      ]
