-- ===== src/Stream.antt =====
-- The full-tx stream of pulse.go: the preamble, and the loop that reads the next transaction frame.
pub mod Frames
pub mod Total
pub mod Ends
pub mod Closed
use pulse_go.Base.{
  ℕ, zero, suc, ◌+◌, ◌*◌, Bool, true, false, Option, none, some, List, [], ◌∷◌, length, ltb, ◌==◌,
  if◌then◌else◌,
}
use pulse_go.Errors.{
  Error, CloseInfo, ApplicationError, bad_frame, bad_preamble, eof, unexpected_eof, frame_too_large,
  terminal, joined, wrapped, as_terminal, map_error,
}
use pulse_go.Go.{Result, ok, err, panic, Reader, Read, read_full, be_uint}
use pulse_go.Wire.Tx.{max_full_tx_body}
use pulse_go.Wire.Frame.{Frame, FullTxV2, full_tx_v2, frame_heartbeat, unknown_frame, decode_frame}
use pulse_go.Derive.{bytes_eq}

abbrev pub max_full_tx_frame : ℕ
max_full_tx_frame = max_full_tx_body + 2 * (65535 + 3) + 2

-- "PLS2\x02\x00"
abbrev pub preamble : List ℕ
preamble = 80 ∷ 76 ∷ 83 ∷ 50 ∷ 2 ∷ 0 ∷ []

abbrev pub is_eof : Error → Bool
is_eof eof = true
is_eof _ = false

abbrev pub is_unexpected_eof : Error → Bool
is_unexpected_eof unexpected_eof = true
is_unexpected_eof _ = false

-- `errors.As(mapTerminalError(err), &terminal)`: the error that `terminal` is set to.
unfoldable pub mapped_terminal : Error → Option Error
mapped_terminal e = elim (as_terminal (map_error e)) [
  | none ↦ none
  | some (info, cause) ↦ some (terminal info cause)
]

-- The error of `verifyPreamble` for a read of `read` bytes that ends in `e`.
unfoldable pub preamble_error : ℕ → Error → Error
preamble_error read e = elim (mapped_terminal e) [
  | some t ↦ if read == 0 then t else joined bad_preamble t
  | none ↦
      if is_eof e
      then bad_preamble
      else if is_unexpected_eof e
      then bad_preamble
      else wrapped "pulseclient: read stream preamble" e
]

unfoldable pub on_preamble_read : Read → Option Error × Reader
on_preamble_read got = elim got.error [
  | some e ↦ (some (preamble_error (length got.filled) e), got.reader)
  | none ↦ (if bytes_eq got.filled preamble then none else some bad_preamble, got.reader)
]

unfoldable pub verify_preamble : Reader → Option Error × Reader
verify_preamble r = on_preamble_read (read_full 6 r)

pub record HeartbeatState : Type 0 where
  pub server_ts_ms : ℕ
  pub highest_seq : ℕ
  pub ok : Bool

-- The error for a length prefix of which `read` bytes came before `e`.
unfoldable pub prefix_error : ℕ → Error → Error
prefix_error read e = elim (mapped_terminal e) [
  | some t ↦ if read == 0 then t else joined bad_frame t
  | none ↦ if is_eof e then eof else bad_frame
]

-- The error for a body that is cut short by `e`.
unfoldable pub body_error : Error → Error
body_error e = elim (mapped_terminal e) [ some t ↦ joined bad_frame t | none ↦ bad_frame ]

-- One round of the loop returns, or goes on with an observed heartbeat.
pub data Round : Type 0 where
  returns : Result FullTxV2 → Round
  goes_on : Option HeartbeatState → Round

-- `switch f := frame.(type)`
unfoldable pub on_frame : Frame → Option HeartbeatState → Round
on_frame (unknown_frame t) hb = goes_on hb
on_frame (frame_heartbeat f) hb =
    goes_on
      (some (record { server_ts_ms = f.server_ts_ms; highest_seq = f.highest_seq; ok = true }))
on_frame (full_tx_v2 f) hb = returns (ok f)

unfoldable pub on_body : List ℕ → Option HeartbeatState → Round
on_body body hb = elim (decode_frame body) [
  | ok f ↦ on_frame f hb
  | err e ↦ returns (err e)
  | panic ↦ returns panic
]

-- After `io.ReadFull(r, body)`.
unfoldable pub on_body_read : Read → Option HeartbeatState → Round × Reader
on_body_read got hb = elim got.error [
  | some e ↦ (returns (err (body_error e)), got.reader)
  | none ↦ (on_body got.filled hb, got.reader)
]

-- `n` is the length prefix.
unfoldable pub read_body : ℕ → Reader → Option HeartbeatState → Round × Reader
read_body n r hb =
    if ltb max_full_tx_frame n
    then (returns (err (frame_too_large n)), r)
    else on_body_read (read_full n r) hb

unfoldable pub on_length : Result ℕ → Reader → Option HeartbeatState → Round × Reader
on_length (ok n) r hb = read_body n r hb
on_length (err e) r hb = (returns (err e), r)
on_length panic r hb = (returns panic, r)

-- After `io.ReadFull(r, hdr[:])`.
unfoldable pub on_prefix_read : Read → Option HeartbeatState → Round × Reader
on_prefix_read got hb = elim got.error [
  | some e ↦ (returns (err (prefix_error (length got.filled) e)), got.reader)
  | none ↦ on_length (be_uint 4 got.filled) got.reader hb
]

unfoldable pub next_round : Reader → Option HeartbeatState → Round × Reader
next_round r hb = on_prefix_read (read_full 4 r) hb

-- What a call returns, with the stream and the observed heartbeat that it leaves.
pub record Returned : Type 0 where
  pub result : Result FullTxV2
  pub reader : Reader
  pub heartbeat : Option HeartbeatState

unfoldable pub next_frame : ℕ → Reader → Option HeartbeatState → Option Returned
next_frame zero r hb = none
next_frame (suc fuel) r hb =
    let (round, r') = next_round r hb in
    elim round [
      | returns x ↦ some (record { result = x; reader = r'; heartbeat = hb })
      | goes_on hb' ↦ next_frame fuel r' hb'
    ]

-- `FullSub.Heartbeat`
unfoldable pub heartbeat : Option HeartbeatState → ℕ × ℕ × Bool
heartbeat none = (0, 0, false)
heartbeat (some h) = (h.server_ts_ms, h.highest_seq, h.ok)
