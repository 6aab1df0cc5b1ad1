-- ===== src/Options/Safe.antt =====
-- What the options can and cannot bring about.
use pulse_go.Base.{
  ℕ, ◌≡◌, refl, arith, String, Bool, true, false, Option, none, some, List, [], ◌∷◌, length,
  is_empty, ◌==◌, Bool-cases, inl, inr, ◌⊎◌, subst, ==_iff,
}
use pulse_go.Base.Int.{le_zero}
use pulse_go.Errors.{Error}
use pulse_go.Go.{Result, ok, err, panic, ◌>>=◌}
use pulse_go.Control.{string_eq, is_some}
use pulse_go.Options.{
  ClientConfig, ConnectOption, with_token, with_root_cas, with_server_name, with_spki_pin_sha256,
  with_insecure_tls_for_local_development, with_ack_timeout, with_preamble_timeout,
  with_sig_queue_capacity, default_client_config, apply, apply_all, check_conflicts, apply_options,
  TlsConfig, is_loopback_host, tls_for_host, new_tls_config,
}

is_empty-nil : (xs : List ℕ) → is_empty xs ≡ true → xs ≡ []
is_empty-nil [] h = refl
is_empty-nil (x ∷ xs) h = absurd (ground (arith, h))

Result-host :
    (r : Result String)
    → ((host : String) × (r ≡ ok host)) ⊎ ((e : Error) × (r ≡ err e)) ⊎ (r ≡ panic)
Result-host (ok host) = inl (host, refl)
Result-host (err e) = inr (inl (e, refl))
Result-host panic = inr (inr refl)

-- The host of the target, and that it is the loopback interface.
pub IsLocal : (String → Result String) → (String → Bool) → String → Type 0
IsLocal split_host_port is_loopback_ip addr =
    (host : String) × (split_host_port addr ≡ ok host)
    × (is_loopback_host is_loopback_ip host ≡ true)

module _ {Pool : Type 0} where
  -- Waits and the queue are positive, and a pin has its 32 bytes.
  pub record IsValid (cfg : ClientConfig Pool) : Type 0 where
    pub ack : le_zero cfg.ack_timeout ≡ false
    pub preamble : le_zero cfg.preamble_timeout ≡ false
    pub queue : le_zero cfg.sig_queue_capacity ≡ false
    pub pinned : (cfg.spki_pin_sha256 ≡ []) ⊎ (length cfg.spki_pin_sha256 ≡ 32)

  -- Insecure TLS goes with neither custom trust nor a pin.
  pub record IsConsistent (cfg : ClientConfig Pool) : Type 0 where
    pub valid : IsValid cfg
    pub alone : cfg.insecure_local_tls ≡ true → (cfg.root_cas ≡ none) × (cfg.spki_pin_sha256 ≡ [])

  Checked : Result (ClientConfig Pool) → Type 0
  Checked (ok cfg) = IsValid cfg
  Checked (err e) = Unit
  Checked panic = Unit

  apply-Checked :
      (o : ConnectOption Pool) (cfg : ClientConfig Pool) → IsValid cfg → Checked (apply o cfg)
  unfolding apply Checked
  apply-Checked (with_token token) cfg v = record {
    ack = v.ack;
    preamble = v.preamble;
    queue = v.queue;
    pinned = v.pinned;
  }
  apply-Checked (with_root_cas none) cfg v = tt
  apply-Checked (with_root_cas (some r)) cfg v = record {
    ack = v.ack;
    preamble = v.preamble;
    queue = v.queue;
    pinned = v.pinned;
  }
  apply-Checked (with_server_name name) cfg v = elim (Bool-cases (string_eq name "")) [
    | inl e ↦ rw e tt
    | inr e ↦
        rw e (record { ack = v.ack; preamble = v.preamble; queue = v.queue; pinned = v.pinned })
  ]
  apply-Checked (with_spki_pin_sha256 pin) cfg v = elim (Bool-cases (length pin == 32)) [
    | inl e ↦ rw e (record {
      ack = v.ack;
      preamble = v.preamble;
      queue = v.queue;
      pinned = inr ((==_iff (length pin) 32).0 e);
    })
    | inr e ↦ rw e tt
  ]
  apply-Checked with_insecure_tls_for_local_development cfg v = record {
    ack = v.ack;
    preamble = v.preamble;
    queue = v.queue;
    pinned = v.pinned;
  }
  apply-Checked (with_ack_timeout t) cfg v = elim (Bool-cases (le_zero t)) [
    | inl e ↦ rw e tt
    | inr e ↦ rw e (record { ack = e; preamble = v.preamble; queue = v.queue; pinned = v.pinned })
  ]
  apply-Checked (with_preamble_timeout t) cfg v = elim (Bool-cases (le_zero t)) [
    | inl e ↦ rw e tt
    | inr e ↦ rw e (record { ack = v.ack; preamble = e; queue = v.queue; pinned = v.pinned })
  ]
  apply-Checked (with_sig_queue_capacity t) cfg v = elim (Bool-cases (le_zero t)) [
    | inl e ↦ rw e tt
    | inr e ↦ rw e (record { ack = v.ack; preamble = v.preamble; queue = e; pinned = v.pinned })
  ]

  Checked-bind :
      (r : Result (ClientConfig Pool)) (f : ClientConfig Pool → Result (ClientConfig Pool))
      → Checked r
      → ((cfg : ClientConfig Pool) → IsValid cfg → Checked (f cfg))
      → Checked (r >>= f)
  unfolding Checked
  Checked-bind (ok cfg) f c k = k cfg c
  Checked-bind (err e) f c k = tt
  Checked-bind panic f c k = tt

  apply_all-Checked :
      (os : List (Option (ConnectOption Pool))) (cfg : ClientConfig Pool)
      → IsValid cfg
      → Checked (apply_all os cfg)
  unfolding apply_all Checked
  apply_all-Checked [] cfg v = v
  apply_all-Checked (none ∷ os) cfg v = tt
  apply_all-Checked (some o ∷ os) cfg v =
      Checked-bind (apply o cfg) (apply_all os) (apply-Checked o cfg v) (apply_all-Checked os)

  default-IsValid : IsValid default_client_config
  default-IsValid = record { ack = refl; preamble = refl; queue = refl; pinned = inl refl }

  is_some-none : (o : Option Pool) → is_some o ≡ false → o ≡ none
  is_some-none none h = refl
  is_some-none (some r) h = absurd (ground (arith, h))

  check_conflicts-IsConsistent :
      (c cfg : ClientConfig Pool) → IsValid c → check_conflicts c ≡ ok cfg → IsConsistent cfg
  unfolding check_conflicts
  check_conflicts-IsConsistent c cfg v h =
      let same : c ≡ cfg = ground (arith, h) in
      subst IsConsistent same (record {
        valid = v;
        alone = λ insecure. (
          is_some-none c.root_cas (ground (arith, h, insecure)),
          is_empty-nil c.spki_pin_sha256 (ground (arith, h, insecure)),
        );
      })

  bind-IsConsistent :
      (r : Result (ClientConfig Pool)) (cfg : ClientConfig Pool)
      → Checked r
      → (r >>= check_conflicts) ≡ ok cfg
      → IsConsistent cfg
  unfolding Checked
  bind-IsConsistent (ok c) cfg v h = check_conflicts-IsConsistent c cfg v h
  bind-IsConsistent (err e) cfg v h = absurd (ground (arith, h))
  bind-IsConsistent panic cfg v h = absurd (ground (arith, h))

  -- Whatever the options are, a configuration that `applyOptions` returns has positive waits and a
  -- positive queue capacity, no pin or one of 32 bytes, and insecure TLS only without custom trust
  -- and without a pin.
  pub apply_options-IsConsistent :
      (os : List (Option (ConnectOption Pool))) (cfg : ClientConfig Pool)
      → apply_options os ≡ ok cfg
      → IsConsistent cfg
  unfolding apply_options
  apply_options-IsConsistent os cfg h =
      bind-IsConsistent (apply_all os default_client_config) cfg
        (apply_all-Checked os default_client_config default-IsValid) h

module _ {Pool : Type 0} (split_host_port : String → Result String)
    (is_loopback_ip : String → Bool) where
  -- Certificate verification is off in a TLS configuration only if the options asked for it and the
  -- target is the loopback interface; the pin is the one of the options.
  pub new_tls_config-IsLocal :
      (addr : String) (cfg : ClientConfig Pool) (t : TlsConfig Pool)
      → new_tls_config split_host_port is_loopback_ip addr cfg ≡ ok t
      → t.insecure_skip_verify ≡ true
      → (cfg.insecure_local_tls ≡ true)
        × IsLocal split_host_port is_loopback_ip addr
        × (t.pin ≡ cfg.spki_pin_sha256)
  unfolding new_tls_config tls_for_host IsLocal
  new_tls_config-IsLocal addr cfg t h off = elim (Result-host (split_host_port addr)) [
    | inl (host, e) ↦
        let insecure : cfg.insecure_local_tls ≡ true = ground (arith, h, e, off) in
        (insecure, (host, e, ground (arith, h, e, insecure)), ground (arith, h, e))
    | inr (inl (x, e)) ↦ absurd (ground (arith, h, e))
    | inr (inr e) ↦ absurd (ground (arith, h, e))
  ]
