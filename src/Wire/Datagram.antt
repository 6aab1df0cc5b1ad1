-- ===== src/Wire/Datagram.antt =====
-- The datagrams of frame.go: their encoders and `DecodeDatagram`.
pub mod Laws
pub mod RoundTrip
pub mod Total
use pulse_go.Base.{
  ℕ, ◌+◌, Bool, List, [], ◌∷◌, ◌++◌, length, take, drop, is_empty, ltb, leb, ◌==◌, if◌then◌else◌,
}
use pulse_go.Errors.{bad_frame}
use pulse_go.Go.{Result, ok, err, panic, ◌>>=◌, ◌>>◌, reject_if, slice, index, le_uint, le_bytes}
use pulse_go.Wire.Tx.{array_of}

abbrev pub dg_sig_first : ℕ
dg_sig_first = 1

abbrev pub dg_heartbeat : ℕ
dg_heartbeat = 2

abbrev pub dg_sig_first_min : ℕ
dg_sig_first_min = 1 + 8 + 8 + 64

abbrev pub dg_heartbeat_min : ℕ
dg_heartbeat_min = 1 + 8 + 8

pub record SigFirst : Type 0 where
  pub slot : ℕ
  pub seq : ℕ
  pub signature : List ℕ

pub record DatagramHeartbeat : Type 0 where
  pub server_ts_ms : ℕ
  pub highest_seq : ℕ

pub data Datagram : Type 0 where
  sig_first : SigFirst → Datagram
  heartbeat : DatagramHeartbeat → Datagram
  unknown_datagram : ℕ → Datagram

-- A write of `s` at `buf[off:]`, which panics out of range.
unfoldable pub write_at : ℕ → List ℕ → List ℕ → Result (List ℕ)
write_at off s buf =
    if leb (off + length s) (length buf)
    then ok (take off buf ++ (s ++ drop (off + length s) buf))
    else panic

unfoldable pub encode_dg_sig_first : List ℕ → ℕ → ℕ → List ℕ → Result (List ℕ)
encode_dg_sig_first buf slot seq sig = do
  b₁ ← write_at 0 (dg_sig_first ∷ []) buf
  b₂ ← write_at 1 (le_bytes 8 slot) b₁
  b₃ ← write_at 9 (le_bytes 8 seq) b₂
  write_at 17 sig b₃

unfoldable pub encode_dg_heartbeat : List ℕ → ℕ → ℕ → Result (List ℕ)
encode_dg_heartbeat buf server_ts_ms highest_seq = do
  b₁ ← write_at 0 (dg_heartbeat ∷ []) buf
  b₂ ← write_at 1 (le_bytes 8 server_ts_ms) b₁
  write_at 9 (le_bytes 8 highest_seq) b₂

-- `case DGSigFirst`
unfoldable pub decode_sig_first : List ℕ → Result Datagram
decode_sig_first src = do
  reject_if (ltb (length src) dg_sig_first_min) bad_frame
  s₁ ← slice src 1 9
  slot ← le_uint 8 s₁
  s₂ ← slice src 9 17
  seq ← le_uint 8 s₂
  s₃ ← slice src 17 81
  ok (sig_first (record { slot = slot; seq = seq; signature = array_of 64 s₃ }))

-- `case DGHeartbeat`
unfoldable pub decode_heartbeat : List ℕ → Result Datagram
decode_heartbeat src = do
  reject_if (ltb (length src) dg_heartbeat_min) bad_frame
  s₁ ← slice src 1 9
  ts ← le_uint 8 s₁
  s₂ ← slice src 9 17
  seq ← le_uint 8 s₂
  ok (heartbeat (record { server_ts_ms = ts; highest_seq = seq }))

-- `switch src[0]`
unfoldable pub decode_by_tag : ℕ → List ℕ → Result Datagram
decode_by_tag tag src =
    if tag == dg_sig_first
    then decode_sig_first src
    else (if tag == dg_heartbeat then decode_heartbeat src else ok (unknown_datagram tag))

unfoldable pub decode_datagram : List ℕ → Result Datagram
decode_datagram src = do
  reject_if (is_empty src) bad_frame
  tag ← index src 0
  decode_by_tag tag src
