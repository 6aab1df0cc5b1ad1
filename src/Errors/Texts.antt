-- ===== src/Errors/Texts.antt =====
-- The texts of the errors, with the digits and the quotes that `fmt` writes as parameters.
use Prim.Native.String.{◌++◌}
use pulse_go.Base.{ℕ, String, true, false}
use pulse_go.Base.Int.{ℤ, pos}
use pulse_go.Errors.{
  CloseInfo, ApplicationError, retry_string, Error, bad_frame, bad_preamble, eof, unexpected_eof,
  already_subscribed, missing_negotiated_version, nil_root_cas, invalid_spki_pin, invalid_timeout,
  invalid_queue_capacity, conflicting_tls_options, insecure_tls_non_loopback, insecure_tls_target,
  message, frame_too_large, rejected, version_mismatch, foreign, application, terminal, wrapped,
  joined,
}
use pulse_go.Control.{string_eq, wire_version}

-- The texts of the `errors.New` values of frame.go and pulse.go.
abbrev pub bad_frame_text : String
bad_frame_text = "pulseclient: malformed full-tx frame"

abbrev pub bad_preamble_text : String
bad_preamble_text = "pulseclient: bad stream preamble: this server is not speaking pulse wire v2"

abbrev pub already_subscribed_text : String
already_subscribed_text = "pulseclient: this connection already has an initial subscription"

abbrev pub missing_negotiated_version_text : String
missing_negotiated_version_text =
    "pulseclient: initial acknowledgement omitted the negotiated wire version"

-- `(*RejectedError).Error`
unfoldable pub rejected_text : String → String
rejected_text reason = "pulseclient: control message rejected: " ++ reason

module _ (decimal : ℕ → String) (signed_decimal : ℤ → String) where
  -- `(*TerminalError).Error`
  unfoldable pub terminal_text : CloseInfo → String
  terminal_text info = elim (string_eq info.reason "") [
    | true ↦
        "pulseclient: connection closed with application code "
        ++ decimal info.code
        ++ " (retry="
        ++ retry_string info.retry
        ++ ")"
    | false ↦
        "pulseclient: connection closed with application code "
        ++ decimal info.code
        ++ ": "
        ++ info.reason
        ++ " (retry="
        ++ retry_string info.retry
        ++ ")"
  ]

  -- `(*VersionMismatchError).Error`
  unfoldable pub version_mismatch_text : ℤ → String
  version_mismatch_text negotiated =
      "pulseclient: server negotiated wire v"
      ++ signed_decimal negotiated
      ++ ", this SDK speaks only wire v"
      ++ signed_decimal (pos wire_version)

  -- `%q`, and the texts of the errors of other packages.
  module _ (quoted : String → String) (io_eof io_unexpected_eof : String)
      (foreign_text : ℕ → String) (application_text : ApplicationError → String) where
    -- `(*InsecureTLSTargetError).Error`
    unfoldable pub insecure_tls_target_text : String → String
    insecure_tls_target_text host =
        "pulseclient: insecure local-development TLS cannot dial non-loopback host " ++ quoted host

    -- `Error` of any error of the package. `errors.Join` puts a new line between its texts.
    unfoldable pub error_text : Error → String
    error_text bad_frame = bad_frame_text
    error_text bad_preamble = bad_preamble_text
    error_text eof = io_eof
    error_text unexpected_eof = io_unexpected_eof
    error_text already_subscribed = already_subscribed_text
    error_text missing_negotiated_version = missing_negotiated_version_text
    error_text nil_root_cas = "pulseclient: root CA pool must not be nil"
    error_text invalid_spki_pin = "pulseclient: SPKI SHA-256 pin must be exactly 32 bytes"
    error_text invalid_timeout = "pulseclient: timeout must be greater than zero"
    error_text invalid_queue_capacity =
        "pulseclient: sig-first queue capacity must be greater than zero"
    error_text conflicting_tls_options =
        "pulseclient: custom trust or SPKI pinning cannot be combined with insecure "
        ++ "local-development TLS"
    error_text insecure_tls_non_loopback =
        "pulseclient: insecure local-development TLS requires a loopback target"
    error_text (insecure_tls_target host) = insecure_tls_target_text host
    error_text (message s) = s
    error_text (frame_too_large n) = "full-tx frame too large: " ++ decimal n
    error_text (rejected reason) = rejected_text reason
    error_text (version_mismatch negotiated) = version_mismatch_text negotiated
    error_text (foreign n) = foreign_text n
    error_text (application a) = application_text a
    error_text (terminal info cause) = terminal_text info
    error_text (wrapped operation e) = operation ++ ": " ++ error_text e
    error_text (joined a b) = error_text a ++ "\n" ++ error_text b
