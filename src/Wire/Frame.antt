-- ===== src/Wire/Frame.antt =====
-- The v2 stream frames of frame.go: `EncodeFrameTx` and `DecodeFrame`.
pub mod RoundTrip
pub mod Heartbeat
pub mod Encode
pub mod Total
use pulse_go.Base.{
  ℕ, zero, suc, ◌+◌, ◌%◌, Bool, true, false, not, List, [], ◌∷◌, ◌++◌, length, is_empty, ltb, ◌==◌,
  if◌then◌else◌,
}
use Prim.Native.Nat.{bit_and}
use pulse_go.Errors.{bad_frame}
use pulse_go.Go.{Result, ok, err, ◌>>=◌, ◌>>◌, reject_if, slice, index, le_uint}
use pulse_go.Wire.Tx.{FullTx, decode_full_tx_prefix, encode_full_tx}
use pulse_go.Wire.Tlv.{TlvEntry, parse_tlvs, put_tlv, flatten32, unflatten32}

abbrev pub msg_tx : ℕ
msg_tx = 1

abbrev pub msg_heartbeat : ℕ
msg_heartbeat = 2

abbrev pub flag_alt_incomplete : ℕ
flag_alt_incomplete = 1

abbrev pub tlv_loaded_writable : ℕ
tlv_loaded_writable = 1

abbrev pub tlv_loaded_readonly : ℕ
tlv_loaded_readonly = 2

abbrev pub tlv_server_ts_ms : ℕ
tlv_server_ts_ms = 3

abbrev pub tlv_highest_seq : ℕ
tlv_highest_seq = 4

pub record FullTxV2 : Type 0 where
  pub tx : FullTx
  pub alt_incomplete : Bool
  pub loaded_writable : List (List ℕ)
  pub loaded_readonly : List (List ℕ)

pub record FrameHeartbeat : Type 0 where
  pub server_ts_ms : ℕ
  pub highest_seq : ℕ

pub data Frame : Type 0 where
  full_tx_v2 : FullTxV2 → Frame
  frame_heartbeat : FrameHeartbeat → Frame
  unknown_frame : ℕ → Frame

-- A list is nil where it is empty.
unfoldable pub encode_frame_tx : FullTx → Bool → List (List ℕ) → List (List ℕ) → List ℕ
encode_frame_tx ft alt_incomplete loaded_writable loaded_readonly =
    let b = msg_tx ∷ (if alt_incomplete then flag_alt_incomplete else 0) ∷ encode_full_tx ft in
    let b' =
      if is_empty loaded_writable
      then b
      else put_tlv b tlv_loaded_writable (flatten32 loaded_writable) in
    if is_empty loaded_readonly
    then b'
    else put_tlv b' tlv_loaded_readonly (flatten32 loaded_readonly)

-- `for _, e := range tlvs` of a transaction frame.
unfoldable pub apply_tx_tlvs : FullTxV2 → List TlvEntry → Result FullTxV2
apply_tx_tlvs v2 [] = ok v2
apply_tx_tlvs v2 (e ∷ tlvs) =
    (if e.typ == tlv_loaded_writable
      then (unflatten32 e.value >>= λ addrs. ok (record v2 { loaded_writable = addrs }))
      else if e.typ == tlv_loaded_readonly
      then (unflatten32 e.value >>= λ addrs. ok (record v2 { loaded_readonly = addrs }))
      else ok v2)
    >>= λ v2'. apply_tx_tlvs v2' tlvs

-- `for _, e := range tlvs` of a heartbeat frame.
unfoldable pub apply_heartbeat_tlvs : FrameHeartbeat → List TlvEntry → Result FrameHeartbeat
apply_heartbeat_tlvs hb [] = ok hb
apply_heartbeat_tlvs hb (e ∷ tlvs) =
    (if e.typ == tlv_server_ts_ms
      then (reject_if (not (length e.value == 8)) bad_frame
          >> (le_uint 8 e.value >>= λ v. ok (record hb { server_ts_ms = v })))
      else if e.typ == tlv_highest_seq
      then (reject_if (not (length e.value == 8)) bad_frame
          >> (le_uint 8 e.value >>= λ v. ok (record hb { highest_seq = v })))
      else ok hb)
    >>= λ hb'. apply_heartbeat_tlvs hb' tlvs

-- `case MsgTx`. `^FlagAltIncomplete` is the complement of a byte.
unfoldable pub decode_tx_frame : ℕ → List ℕ → Result Frame
decode_tx_frame flags rest = do
  reject_if (not (bit_and flags 0xfe == 0)) bad_frame
  (tx, consumed) ← decode_full_tx_prefix rest
  reject_if (ltb (length rest) consumed) bad_frame
  trailer ← slice rest consumed (length rest)
  tlvs ← parse_tlvs trailer
  v2 ←
      apply_tx_tlvs
        (record {
          tx = tx;
          alt_incomplete = not (bit_and flags flag_alt_incomplete == 0);
          loaded_writable = [];
          loaded_readonly = [];
        })
        tlvs
  ok (full_tx_v2 v2)

-- `case MsgHeartbeat`
unfoldable pub decode_heartbeat_frame : ℕ → List ℕ → Result Frame
decode_heartbeat_frame flags rest = do
  reject_if (not (flags == 0)) bad_frame
  tlvs ← parse_tlvs rest
  hb ← apply_heartbeat_tlvs (record { server_ts_ms = 0; highest_seq = 0 }) tlvs
  ok (frame_heartbeat hb)

-- `switch msgType`
unfoldable pub decode_by_type : ℕ → ℕ → List ℕ → Result Frame
decode_by_type msg_type flags rest =
    if msg_type == msg_tx
    then decode_tx_frame flags rest
    else (if msg_type == msg_heartbeat
        then decode_heartbeat_frame flags rest
        else ok (unknown_frame msg_type))

unfoldable pub decode_frame : List ℕ → Result Frame
decode_frame src = do
  reject_if (ltb (length src) 2) bad_frame
  msg_type ← index src 0
  flags ← index src 1
  rest ← slice src 2 (length src)
  decode_by_type msg_type flags rest
