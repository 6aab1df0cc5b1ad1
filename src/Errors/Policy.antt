-- ===== src/Errors/Policy.antt =====
-- The reconnect policy of errors.go: what a close code says about retrying.
use pulse_go.Base.{◌≡◌, ◌↔◌, ◌⊎◌, ◌≤◌, true, arith}
use pulse_go.Errors.{
  CloseInfo, retry_unknown, retry_never, classify_close_code, retryable, needs_credential_change,
}

module _ (c : CloseInfo) (derived : c.retry ≡ classify_close_code c.code) where
  -- Close information whose retry class is the one of its code is retryable exactly for code 3, and
  -- wants a credential change exactly for code 2; for codes 1, 4 and 5 the class is `retry_never`,
  -- and for every code above 5 it is `retry_unknown`, so neither holds there.
  pub retry_policy :
      ((retryable c ≡ true) ↔ (c.code ≡ 3))
      × ((needs_credential_change c ≡ true) ↔ (c.code ≡ 2))
      × ((c.retry ≡ retry_never) ↔ ((c.code ≡ 1) ⊎ (c.code ≡ 4) ⊎ (c.code ≡ 5)))
      × ((c.retry ≡ retry_unknown) ↔ (6 ≤ c.code))
  unfolding classify_close_code retryable needs_credential_change
  retry_policy = ground arith
