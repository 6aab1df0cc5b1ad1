-- ===== src/Errors.antt =====
-- errors.go: close codes, retry classes, terminal errors, and the error values of the package.
-- An `error` that may be nil is an `Option Error`.
pub mod Texts
pub mod Chain
pub mod Mapping
pub mod Policy
use Prim.Native.String.{◌++◌}
use pulse_go.Base.{ℕ, String, Bool, true, false, Option, none, some, ◌==◌, if◌then◌else◌}
use pulse_go.Base.Int.{ℤ}

pub data RetryClass : Type 0 where
  retry_unknown retry_normal retry_never retry_after_credential_change retry_transient : RetryClass

-- `RetryClass.String`
unfoldable pub retry_string : RetryClass → String
retry_string retry_normal = "normal"
retry_string retry_never = "never"
retry_string retry_after_credential_change = "after-credential-change"
retry_string retry_transient = "transient"
retry_string _ = "unknown"

abbrev pub close_normal : ℕ
close_normal = 0

abbrev pub close_invalid_control : ℕ
close_invalid_control = 1

abbrev pub close_unauthenticated : ℕ
close_unauthenticated = 2

abbrev pub close_quota_exceeded : ℕ
close_quota_exceeded = 3

abbrev pub close_unsupported_version : ℕ
close_unsupported_version = 4

abbrev pub close_tier_not_entitled : ℕ
close_tier_not_entitled = 5

-- An `ApplicationCloseCode` is the number that it is.
pub record CloseInfo : Type 0 where
  pub code : ℕ
  pub reason : String
  pub remote : Bool
  pub retry : RetryClass

-- The three fields of quic-go's application error that the package reads.
pub record ApplicationError : Type 0 where
  pub error_code : ℕ
  pub error_message : String
  pub remote : Bool

-- `wrapped` is `fmt.Errorf` with `%w` behind its first text and ": ", `joined` is `errors.Join` of two errors. The cause of a
-- terminal error is nil or an application error. `foreign` is any error of another package that
-- wraps nothing.
pub data Error : Type 0 where
  bad_frame bad_preamble eof unexpected_eof : Error
  already_subscribed missing_negotiated_version : Error
  nil_root_cas invalid_spki_pin invalid_timeout invalid_queue_capacity : Error
  conflicting_tls_options insecure_tls_non_loopback : Error
  insecure_tls_target : String → Error
  message : String → Error
  frame_too_large : ℕ → Error
  rejected : String → Error
  version_mismatch : ℤ → Error
  foreign : ℕ → Error
  application : ApplicationError → Error
  terminal : CloseInfo → Option ApplicationError → Error
  wrapped : String → Error → Error
  joined : Error → Error → Error

unfoldable pub classify_close_code : ℕ → RetryClass
classify_close_code code =
    if code == close_normal
    then retry_normal
    else if code == close_invalid_control
    then retry_never
    else if code == close_unsupported_version
    then retry_never
    else if code == close_tier_not_entitled
    then retry_never
    else if code == close_unauthenticated
    then retry_after_credential_change
    else if code == close_quota_exceeded
    then retry_transient
    else retry_unknown

unfoldable pub retryable : CloseInfo → Bool
retryable c = elim c.retry [
  | retry_unknown ↦ false
  | retry_normal ↦ false
  | retry_never ↦ false
  | retry_after_credential_change ↦ false
  | retry_transient ↦ true
]

unfoldable pub needs_credential_change : CloseInfo → Bool
needs_credential_change c = elim c.retry [
  | retry_unknown ↦ false
  | retry_normal ↦ false
  | retry_never ↦ false
  | retry_after_credential_change ↦ true
  | retry_transient ↦ false
]

abbrev pub or_else {ℓ} : {A : Type ℓ} → Option A → Option A → Option A
or_else (some a) o = some a
or_else none o = o

-- `errors.As(err, &terminal)`: the first `*TerminalError` of the tree of wrapped errors.
unfoldable pub as_terminal : Error → Option (CloseInfo × Option ApplicationError)
as_terminal (terminal info cause) = some (info, cause)
as_terminal (wrapped operation e) = as_terminal e
as_terminal (joined a b) = or_else (as_terminal a) (as_terminal b)
as_terminal _ = none

-- `errors.As(err, &appErr)`: `Unwrap` of a terminal error is its cause.
unfoldable pub as_application : Error → Option ApplicationError
as_application (application a) = some a
as_application (terminal info cause) = cause
as_application (wrapped operation e) = as_application e
as_application (joined a b) = or_else (as_application a) (as_application b)
as_application _ = none

unfoldable pub close_info_from_error : Error → Option CloseInfo
close_info_from_error e = elim (as_terminal e) [ none ↦ none | some (info, cause) ↦ some info ]

-- The `*TerminalError` that an application error becomes.
abbrev pub terminal_of : ApplicationError → Error
terminal_of a =
    terminal
      (record {
        code = a.error_code;
        reason = a.error_message;
        remote = a.remote;
        retry = classify_close_code a.error_code;
      })
      (some a)

-- `mapTerminalError` of an error that is not nil.
unfoldable pub map_error : Error → Error
map_error e = elim (as_terminal e) [
  | some t ↦ e
  | none ↦ elim (as_application e) [ none ↦ e | some a ↦ terminal_of a ]
]

unfoldable pub map_terminal_error : Option Error → Option Error
map_terminal_error none = none
map_terminal_error (some e) = some (map_error e)

-- `wrapConnectionError` of an error that is not nil.
unfoldable pub wrap_error : String → Error → Error
wrap_error operation e = wrapped ("pulseclient: " ++ operation) (map_error e)

unfoldable pub wrap_connection_error : String → Option Error → Option Error
wrap_connection_error operation none = none
wrap_connection_error operation (some e) = some (wrap_error operation e)
