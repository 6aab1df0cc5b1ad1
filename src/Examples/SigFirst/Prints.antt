-- ===== src/Examples/SigFirst/Prints.antt =====
-- What examples/sigfirst prints, and how it ends.
use pulse_go.Base.{
  Sublistᴰ, ℕ, ◌≡◌, ◌⊎◌, refl, arith, ap, sym, ◌∙◌, String, Bool, Option, none, some, List, [], ◌∷◌,
  ◌++◌, inl, inr,
}
use pulse_go.Base.Int.{pos}
use pulse_go.Errors.{Error}
use pulse_go.Go.{Result, ok}
use pulse_go.Control.{Ack}
use pulse_go.Message.{Filter, Json}
use pulse_go.Options.{
  TlsConfig, ClientConfig, ConnectOption, with_token, default_client_config, apply_options,
  sig_queue_len,
}
use pulse_go.Connect.Dials.{connect-Dialed}
use pulse_go.Connect.Token.{dialed-client_of}
use pulse_go.Connect.{connect}
use pulse_go.Transport.{Peer}
use pulse_go.Sig.{SigFirstSub}
use pulse_go.Client.{Client, SigFirstHandle, subscribe_sig_first}
use pulse_go.Examples.{
  connected_to, Ended, value, Program, State, print, in_world, filter_for, getenv, deferring_close,
  and_close, ◌>>=◌,
}
use pulse_go.Examples.Laws.{Configured, made, main_with-connected}
use pulse_go.Examples.SigFirst.{DrainStep, print_items, print_stats, items_to_stdout, main}
use mathlib.Core.List.Sublistᴰ

applied-capacity :
    {Pool : Type 0} (token : String) (cfg : ClientConfig Pool)
    → apply_options (some (with_token token) ∷ []) ≡ ok cfg
    → cfg.sig_queue_capacity ≡ pos 4096
unfolding apply_options pulse_go.Options.apply_all pulse_go.Options.apply
    pulse_go.Options.check_conflicts
applied-capacity token cfg h = ground (arith, h)

-- The error is one of these.
abbrev pub IsAmong : Error → List Error → Type 0
IsAmong e [] = ⊥
IsAmong e (x ∷ xs) = (e ≡ x) ⊎ IsAmong e xs

module _ {Pool : Type 0} (split_host_port : String → Result String) (is_loopback_ip : String → Bool)
    (dial_addr : String → TlsConfig Pool → Option Error) where
  -- A client that `Connect` gives for `WithToken` alone has the default capacity.
  pub connected-capacity :
      (addr token : String) (c : Client)
      → (connect split_host_port is_loopback_ip dial_addr addr
          (some (with_token token) ∷ [])).result
        ≡ ok c
      → c.sig_queue_capacity ≡ pos 4096
  connected-capacity addr token c h =
      elim (connect-Dialed split_host_port is_loopback_ip dial_addr addr
        (some (with_token token) ∷ [])) [
          | inl (undialed, refused) ↦ absurd (refused c h)
          | inr d ↦
              sym (
                ap (λ c. c.sig_queue_capacity)
                  (dialed-client_of split_host_port is_loopback_ip dial_addr addr d.config
                    (dial_addr addr d.tls) c (sym (ap (λ r. r.result) d.outcome) ∙ h)))
              ∙ applied-capacity token d.config d.applied
        ]

module _ {Pool : Type 0} (lookup_env : String → Option String) (parse_bool : String → Result Bool)
    (peer : Peer) (marshal : List (String × Json) → Result (List ℕ))
    (unmarshal : List ℕ → Option Ack) (base58 : List ℕ → String) (batches : List (List DrainStep))
    (split_host_port : String → Result String) (is_loopback_ip : String → Bool)
    (dial_addr : String → TlsConfig Pool → Option Error) (st : State Pool) (c : Client)
    (flt : Filter) (h : SigFirstHandle)
    (set : Configured lookup_env split_host_port is_loopback_ip dial_addr)
    (connected : (made lookup_env split_host_port is_loopback_ip dial_addr).result ≡ ok c)
    (selected : filter_for lookup_env parse_bool (getenv lookup_env "PULSE_ACCOUNT") ≡ value flt)
    (granted : (subscribe_sig_first peer marshal unmarshal c none flt st.world).0 ≡ ok h) where
  abbrev pub addr : String
  addr = getenv lookup_env "PULSE_ADDR"

  abbrev pub account : String
  account = getenv lookup_env "PULSE_ACCOUNT"

  abbrev pub dialed : State Pool
  dialed = record st {
    dials = st.dials ++ (made lookup_env split_host_port is_loopback_ip dial_addr).dials;
  }

  -- The state when the program has subscribed.
  abbrev pub subscribed : State Pool
  subscribed = record dialed {
    world = (subscribe_sig_first peer marshal unmarshal c none flt st.world).1;
    printed = st.printed ++ (connected_to addr account ∷ []);
  }

  abbrev pub loop : SigFirstSub → Program Pool (Unit {0})
  loop s = print_items base58 20 batches s >>= print_stats

  items_to_stdout-subscribed :
      items_to_stdout lookup_env parse_bool peer marshal unmarshal base58 batches c addr account
        dialed
      ≡ loop h.sub subscribed
  unfolding items_to_stdout print in_world
  items_to_stdout-subscribed = rw (items_to_stdout, print, in_world, selected, granted) refl

  abbrev pub closing : Ended (Unit {0}) × State Pool → Ended (Unit {0}) × State Pool
  closing r = and_close peer marshal unmarshal r.0 r.1

  pub main-loop :
      main lookup_env parse_bool peer marshal unmarshal base58 batches split_host_port
        is_loopback_ip dial_addr st
      ≡ closing (loop h.sub subscribed)
  unfolding main deferring_close
  main-loop =
      main_with-connected lookup_env split_host_port is_loopback_ip dial_addr
        (λ c addr account. deferring_close peer marshal unmarshal (
          items_to_stdout lookup_env parse_bool peer marshal unmarshal base58 batches c addr
            account))
        st c set connected
      ∙ ap closing items_to_stdout-subscribed
