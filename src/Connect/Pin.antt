-- ===== src/Connect/Pin.antt =====
-- Which connections a pinned TLS configuration accepts.
use pulse_go.Base.{
  ℕ, ◌≡◌, ◌≢◌, ◌↔◌, refl, arith, false, Option, none, some, List, [], ◌∷◌, is_empty,
}
use pulse_go.Errors.{Error}
use pulse_go.Options.{TlsConfig}
use pulse_go.Connect.{check_pin, verify_connection}

-- `subtle.ConstantTimeCompare` gives 1 exactly on equal slices.
module _ (sha256_sum : List ℕ → List ℕ) (constant_time_compare : List ℕ → List ℕ → ℕ)
    (compare_iff : (a b : List ℕ) → (constant_time_compare a b ≡ 1) ↔ (a ≡ b)) where
  check_pin-none :
      (pin leaf : List ℕ) (chain : List (List ℕ))
      → (check_pin sha256_sum constant_time_compare pin (leaf ∷ chain) ≡ none)
        ↔ (sha256_sum leaf ≡ pin)
  check_pin-none pin leaf chain = (
    λ h. (compare_iff (sha256_sum leaf) pin).0 (ground (arith, h)),
    λ same. let one = (compare_iff (sha256_sum leaf) pin).1 same in ground (arith, one),
  )

  check_pin_iff :
      (pin : List ℕ) (peers : List (List ℕ))
      → (check_pin sha256_sum constant_time_compare pin peers ≡ none) ↔ (
          (leaf : List ℕ) × (chain : List (List ℕ)) × (peers ≡ leaf ∷ chain)
          × (sha256_sum leaf ≡ pin))
  check_pin_iff pin [] = (λ h. absurd (cc h), λ (leaf, chain, e, same). absurd (cc e))
  check_pin_iff pin (leaf ∷ chain) = (
    λ h. (leaf, chain, refl, (check_pin-none pin leaf chain).0 h),
    λ (leaf', chain', e, same). (check_pin-none pin leaf chain).1 (cc (e, same)),
  )

  is_empty-false : (xs : List ℕ) → xs ≢ [] → is_empty xs ≡ false
  is_empty-false [] h = absurd (h refl)
  is_empty-false (x ∷ xs) h = refl

  -- Where the comparison gives 1 exactly on equal slices, a TLS configuration with a pin has a
  -- connection check, which accepts a connection exactly if the peer sent a certificate and the
  -- digest of the leaf's public key is the pin.
  pub verify_connection_iff :
      {Pool : Type 0} (t : TlsConfig Pool)
      → t.pin ≢ []
      → (check : List (List ℕ) → Option Error) × (verify_connection sha256_sum constant_time_compare
            t
          ≡ some check)
        × ((peers : List (List ℕ))
            → (check peers ≡ none) ↔ (
                (leaf : List ℕ) × (chain : List (List ℕ)) × (peers ≡ leaf ∷ chain)
                × (sha256_sum leaf ≡ t.pin)))
  unfolding verify_connection
  verify_connection_iff t pinned = (
    check_pin sha256_sum constant_time_compare t.pin,
    rw (verify_connection, is_empty-false t.pin pinned) refl,
    check_pin_iff t.pin,
  )
