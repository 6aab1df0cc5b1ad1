-- ===== src/Connect/Dials.antt =====
-- What `Connect` dials, with which TLS configuration, and the client that it returns.
use pulse_go.Base.{◌≡◌, ◌≢◌, ◌⊎◌, refl, arith, String, Bool, true, Option, List, [], ◌∷◌, inl, inr}
use pulse_go.Errors.{Error}
use pulse_go.Go.{Result, ok, err, panic}
use pulse_go.Go.Decodes.{bind-ok}
use pulse_go.Options.{ClientConfig, ConnectOption, apply_options, TlsConfig, new_tls_config}
use pulse_go.Options.Safe.{
  IsLocal, IsConsistent, apply_options-IsConsistent, new_tls_config-IsLocal,
}
use pulse_go.Client.{Client}
use pulse_go.Connect.{Connected, configure, dialed, connect}

Result-cases :
    {A : Type 0} (r : Result A) → ((a : A) × (r ≡ ok a)) ⊎ ((e : Error) × (r ≡ err e)) ⊎ (r ≡ panic)
Result-cases (ok a) = inl (a, refl)
Result-cases (err e) = inr (inl (e, refl))
Result-cases panic = inr (inr refl)

module _ {Pool : Type 0} (split_host_port : String → Result String) (is_loopback_ip : String → Bool)
    (dial_addr : String → TlsConfig Pool → Option Error) where
  -- One dial, of the address that was asked for: the options give a consistent configuration, and
  -- the TLS configuration has its trust and its pin, and verifies certificates unless the options
  -- said not to and the target is local. The client has the configuration's token and bounds.
  pub record Dialed (addr : String) (options : List (Option (ConnectOption Pool)))
      (r : Connected Pool) : Type 0 where
    pub config : ClientConfig Pool
    pub applied : apply_options options ≡ ok config
    pub consistent : IsConsistent config
    pub tls : TlsConfig Pool
    pub configured : new_tls_config split_host_port is_loopback_ip addr config ≡ ok tls
    pub safe :
        tls.insecure_skip_verify ≡ true
        → (config.insecure_local_tls ≡ true) × IsLocal split_host_port is_loopback_ip addr
    pub outcome : r ≡ record {
      result = dialed split_host_port is_loopback_ip dial_addr addr config (dial_addr addr tls);
      dials = (addr, tls) ∷ [];
    }

  connect-configured :
      (addr : String) (options : List (Option (ConnectOption Pool))) (cfg : ClientConfig Pool)
      (t : TlsConfig Pool)
      → apply_options options ≡ ok cfg
      → new_tls_config split_host_port is_loopback_ip addr cfg ≡ ok t
      → connect split_host_port is_loopback_ip dial_addr addr options ≡ record {
        result = dialed split_host_port is_loopback_ip dial_addr addr cfg (dial_addr addr t);
        dials = (addr, t) ∷ [];
      }
  unfolding configure connect
  connect-configured addr options cfg t applied configured =
      rw (connect, configure, applied, configured) refl

  configure-Dialed :
      (addr : String) (options : List (Option (ConnectOption Pool)))
      (made : ClientConfig Pool × TlsConfig Pool)
      → configure split_host_port is_loopback_ip dial_addr addr options ≡ ok made
      → Dialed addr options (connect split_host_port is_loopback_ip dial_addr addr options)
  unfolding configure connect
  configure-Dialed addr options made h =
      let (cfg, applied, rest) =
        bind-ok (apply_options options)
          (λ cfg.
            pulse_go.Go.◌>>=◌ (new_tls_config split_host_port is_loopback_ip addr cfg)
              (λ t. ok (cfg, t)))
          made h in
      let (t, configured, done) =
        bind-ok (new_tls_config split_host_port is_loopback_ip addr cfg) (λ t. ok (cfg, t)) made
          rest in
      record {
        config = cfg;
        applied = applied;
        consistent = apply_options-IsConsistent options cfg applied;
        tls = t;
        configured = configured;
        safe = λ off.
            let (asked, local, pinned) =
              new_tls_config-IsLocal split_host_port is_loopback_ip addr cfg t configured off in
            (asked, local);
        outcome = connect-configured addr options cfg t applied configured;
      }

  -- `Connect` dials at most once. Either it dials nothing and returns no client; or the options give
  -- a consistent configuration, it dials the address that was asked for under that configuration's
  -- TLS settings, with certificate verification off only where the options say so and the target is
  -- the loopback interface, and it returns the configuration's client or the wrapped dial error.
  pub connect-Dialed :
      (addr : String) (options : List (Option (ConnectOption Pool)))
      → let r = connect split_host_port is_loopback_ip dial_addr addr options in
        ((r.dials ≡ []) × ((c : Client) → r.result ≢ ok c)) ⊎ Dialed addr options r
  unfolding connect
  connect-Dialed addr options =
      elim (Result-cases (configure split_host_port is_loopback_ip dial_addr addr options)) [
        | inl (made, e) ↦ inr (configure-Dialed addr options made e)
        | inr (inl (x, e)) ↦ inl (ground (arith, e), λ c h. ground (arith, e, h))
        | inr (inr e) ↦ inl (ground (arith, e), λ c h. ground (arith, e, h))
      ]
