-- ===== src/Control.antt =====
-- The control channel of pulse.go: the one subscription of a client, and the acknowledgements.
pub mod Acks
pub mod Reading
pub mod Accepted
use Prim.Native.Nat.{Ordering}
use Prim.Native.String.{compare}
use pulse_go.Base.{
  ℕ, zero, suc, ◌*◌, String, Bool, true, false, not, ◌&&◌, Option, none, some, List, [], ◌∷◌, ltb,
  ◌==◌, if◌then◌else◌,
}
use pulse_go.Base.Int.{ℤ, eq_nat}
use pulse_go.Errors.{
  Error, bad_frame, already_subscribed, missing_negotiated_version, version_mismatch, rejected,
  terminal, classify_close_code, map_error,
}
use pulse_go.Go.{Result, ok, err, panic, ◌>>=◌, ◌>>◌, reject_if, Reader, Read, read_full, be_uint}

-- `==` of two strings.
abbrev pub string_eq : String → String → Bool
string_eq a b = elim (compare a b) [ Ordering.eq ↦ true | _ ↦ false ]

abbrev pub wire_version : ℕ
wire_version = 2

abbrev pub max_ack_bytes : ℕ
max_ack_bytes = 16 * 1024

-- `claimSubscription` on `subscriptionTaken`: the error, and the flag afterwards.
unfoldable pub claim_subscription : Bool → Option Error × Bool
claim_subscription false = (none, true)
claim_subscription true = (some already_subscribed, true)

-- A field that is a pointer is an `Option`.
pub record Ack : Type 0 where
  pub type_name : String
  pub ok : Bool
  pub reason : String
  pub code : Option ℕ
  pub v : Option ℤ

abbrev pub is_some {ℓ} : {A : Type ℓ} → Option A → Bool
is_some none = false
is_some (some a) = true

-- The `*TerminalError` of a structured error envelope.
abbrev pub rejection : ℕ → Ack → Error
rejection code ack =
    terminal
      (record { code = code; reason = ack.reason; remote = true; retry = classify_close_code code })
      none

unfoldable pub check_ack_envelope : Ack → Result Ack
check_ack_envelope ack =
    if string_eq ack.type_name "error"
    then (elim ack.code [ some code ↦ err (rejection code ack) | none ↦ err bad_frame ])
    else do
      reject_if (not (string_eq ack.type_name "ack")) bad_frame
      reject_if (is_some ack.code) bad_frame
      reject_if (not ack.ok) (rejected ack.reason)
      ok ack

unfoldable pub check_initial_ack : Ack → Result Ack
check_initial_ack ack = do
  a ← check_ack_envelope ack
  elim a.v [
    | none ↦ err missing_negotiated_version
    | some v ↦ if not (eq_nat v wire_version) then err (version_mismatch v) else ok a
  ]

unfoldable pub check_update_ack : Ack → Result Ack
check_update_ack ack = do
  a ← check_ack_envelope ack
  elim a.v [
    | none ↦ ok a
    | some v ↦ if not (eq_nat v wire_version) then err (version_mismatch v) else ok a
  ]

-- What follows `json.Unmarshal` into an `Ack`, `none` where that fails.
unfoldable pub check_type : Option Ack → Result Ack
check_type none = err bad_frame
check_type (some ack) = do
  reject_if (not (string_eq ack.type_name "ack") && not (string_eq ack.type_name "error")) bad_frame
  ok ack

-- `json.Unmarshal` into an `Ack` is a parameter.
module _ (unmarshal : List ℕ → Option Ack) where
  -- After `io.ReadFull(r, body)`.
  unfoldable pub parse_ack : Read → Result Ack
  parse_ack got = elim got.error [
    | some e ↦ err (map_error e)
    | none ↦ check_type (unmarshal got.filled)
  ]

  unfoldable pub read_ack_body : Reader → ℕ → Result Ack
  read_ack_body r n = if ltb max_ack_bytes n then err bad_frame else parse_ack (read_full n r)

  -- After `io.ReadFull(r, lenBuf[:])`.
  unfoldable pub read_ack_length : Read → Result Ack
  read_ack_length got = elim got.error [
    | some e ↦ err (map_error e)
    | none ↦ be_uint 4 got.filled >>= read_ack_body got.reader
  ]

  unfoldable pub read_ack : Reader → Result Ack
  read_ack r = read_ack_length (read_full 4 r)
