-- ===== src/Tests/Client.antt =====
-- The full-tx stream and the control channel at concrete inputs.
use pulse_go.Base.{
  ℕ, ◌+◌, ◌≤◌, ◌≡◌, ◌≢◌, ◌↔◌, refl, arith, true, none, some, Option, List, [], ◌∷◌, ◌++◌, length,
}
use pulse_go.Base.Int.{pos}
use pulse_go.Errors.{bad_frame, eof}
use pulse_go.Go.{ok, err, Reader}
use pulse_go.Wire.Frame.{
  FullTxV2, full_tx_v2, unknown_frame, encode_frame_tx, decode_frame, decode_by_type,
}
use pulse_go.Wire.Frame.Encode.{decode_frame-encode_frame_tx}
use pulse_go.Wire.Tx.{
  encode_full_tx, layout, put_vector, put_counted, encode_instruction, encode_lookup,
}
use pulse_go.Wire.Tlv.{flatten32, put_tlv}
use pulse_go.Go.{le_bytes, index, slice}
use pulse_go.Base.{◌⊎◌, ◌+◌, length}
use pulse_go.Stream.{Returned, next_frame}
use pulse_go.Stream.Frames.{Quiet, quiet_stream, framed, latest, next_frame_lem}
use pulse_go.Stream.Total.{next_frame_total}
use pulse_go.Control.{Ack, check_initial_ack, check_update_ack, wire_version}
use pulse_go.Control.{read_ack}
use pulse_go.Control.Acks.{Accepts, IsVersion, check_ack_iff}
use pulse_go.Tests.Data.{tx, key, key-IsArray, tx-IsEncodable, bytes_by}
use pulse_go.Base.{All, is_empty, if◌then◌else◌}
use pulse_go.Errors.{Error, ApplicationError, application, close_info_from_error}
use pulse_go.Go.{IsByte}
use pulse_go.Stream.Frames.{be_bytes4}
use pulse_go.Stream.Closed.{
  Cut, in_body, cut_bytes, closed, next_frame-truncated, next_frame-closed,
}
use pulse_go.Control.{max_ack_bytes}
use pulse_go.Control.Accepted.{IsEnvelope, read_ack_iff}

-- A frame of the unknown type 9.
pub unknown-decodes : decode_frame (9 ∷ 0 ∷ []) ≡ ok (unknown_frame 9)
unfolding decode_frame decode_by_type index slice
unknown-decodes = refl

abbrev pub unknown : Quiet
unknown = record {
  body = 9 ∷ 0 ∷ [];
  frame = unknown_frame 9;
  fits = omega arith;
  decodes = unknown-decodes;
  is_quiet = tt;
}

abbrev pub tx_body : List ℕ
tx_body = encode_frame_tx tx true (key 4 ∷ []) []

abbrev pub tx_frame : FullTxV2
tx_frame = record {
  tx = tx;
  alt_incomplete = true;
  loaded_writable = key 4 ∷ [];
  loaded_readonly = [];
}

pub tx_body-fits : length tx_body ≤ 65538
unfolding encode_frame_tx encode_full_tx layout put_vector put_counted encode_instruction
    encode_lookup le_bytes flatten32 put_tlv
tx_body-fits = omega arith

pub tx_body-decodes : decode_frame tx_body ≡ ok (full_tx_v2 tx_frame)
tx_body-decodes =
    decode_frame-encode_frame_tx tx true (key 4 ∷ []) [] tx-IsEncodable (key-IsArray 4 refl, tt) tt
      tx_body-fits

next_frame_lem_example :
    next_frame 2
      (record { bytes = quiet_stream (unknown ∷ []) ++ (framed tx_body ++ (1 ∷ [])); ending = eof })
      none
    ≡ some (record {
      result = ok tx_frame;
      reader = record { bytes = 1 ∷ []; ending = eof };
      heartbeat = latest (unknown ∷ []) none;
    })
next_frame_lem_example =
    next_frame_lem (unknown ∷ []) tx_body (1 ∷ []) tx_frame eof none 2 (omega (arith, tx_body-fits))
      tx_body-decodes (omega arith)

abbrev three_bytes : Reader
three_bytes = record { bytes = 0 ∷ 0 ∷ 1 ∷ []; ending = eof }

next_frame_total_example :
    (x : Returned) × (next_frame 4 three_bytes none ≡ some x)
    × (((v : FullTxV2) × (x.result ≡ ok v)
          × (length x.reader.bytes + 4 ≤ length three_bytes.bytes)
          × All IsByte x.reader.bytes)
        ⊎ ((e : Error) × (x.result ≡ err e)))
next_frame_total_example =
    next_frame_total 4 three_bytes none (omega arith) (bytes_by (0 ∷ 0 ∷ 1 ∷ []) refl)

abbrev yes_ack : Ack
yes_ack = record { type_name = "ack"; ok = true; reason = ""; code = none; v = some (pos 2) }

check_ack_iff_example :
    ((check_initial_ack yes_ack ≡ ok yes_ack)
      ↔ (Accepts yes_ack × (yes_ack.v ≡ some (pos wire_version)) × (yes_ack ≡ yes_ack)))
    × ((check_update_ack yes_ack ≡ ok yes_ack)
        ↔ (Accepts yes_ack × IsVersion yes_ack.v × (yes_ack ≡ yes_ack)))
check_ack_iff_example = check_ack_iff yes_ack yes_ack

-- A decoder that knows one message.
abbrev decode_yes : List ℕ → Option Ack
decode_yes body = some yes_ack

-- The stream is cut after three of the five bytes of a body.
abbrev cut : Cut
cut = in_body 5 (1 ∷ 2 ∷ 3 ∷ []) (omega arith) (omega arith)

next_frame-truncated_example :
    next_frame 2
      (record { bytes = quiet_stream (unknown ∷ []) ++ cut_bytes cut; ending = eof })
      none
    ≡ some (record {
      result = err (if is_empty (cut_bytes cut) then eof else bad_frame);
      reader = record { bytes = []; ending = eof };
      heartbeat = latest (unknown ∷ []) none;
    })
next_frame-truncated_example = next_frame-truncated (unknown ∷ []) cut none 2 (omega arith)

abbrev quota : ApplicationError
quota = record { error_code = 3; error_message = "quota"; remote = true }

next_frame-closed_example :
    (x : Error) × (next_frame 2
        (record {
          bytes = quiet_stream (unknown ∷ []) ++ cut_bytes cut;
          ending = application quota;
        })
        none
      ≡ some (record {
        result = err x;
        reader = record { bytes = []; ending = application quota };
        heartbeat = latest (unknown ∷ []) none;
      }))
    × (close_info_from_error x ≡ some (closed quota))
    × (x ≢ eof)
next_frame-closed_example = next_frame-closed (unknown ∷ []) cut quota none 2 (omega arith)

abbrev ack_stream : Reader
ack_stream = record { bytes = framed (123 ∷ 125 ∷ []) ++ (9 ∷ []); ending = eof }

ack_stream-AreBytes : All IsByte ack_stream.bytes
unfolding framed be_bytes4
ack_stream-AreBytes = bytes_by ack_stream.bytes refl

read_ack_iff_example : (read_ack decode_yes ack_stream ≡ ok yes_ack) ↔ (
    (body : List ℕ) × (rest : List ℕ) × (ack_stream.bytes ≡ framed body ++ rest)
    × (length body ≤ max_ack_bytes)
    × (decode_yes body ≡ some yes_ack)
    × IsEnvelope yes_ack)
read_ack_iff_example = read_ack_iff decode_yes ack_stream yes_ack ack_stream-AreBytes
