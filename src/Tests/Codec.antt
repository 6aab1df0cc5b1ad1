-- ===== src/Tests/Codec.antt =====
-- The wire codecs and the derived values at concrete inputs.
use pulse_go.Base.{
  ◌+◌, ◌≤◌, ◌≡◌, ◌↔◌, ◌⊎◌, refl, arith, true, false, some, List, [], ◌∷◌, ◌++◌, length, replicate,
  set, All, concat_map,
}
use pulse_go.Errors.{CloseInfo, bad_frame, retry_transient}
use pulse_go.Go.{ok, err, ◌>>=◌, le_bytes}
use pulse_go.Wire.Tx.{
  max_full_tx_body, encode_full_tx, decode_full_tx, layout, put_vector, put_counted,
  encode_instruction, encode_lookup,
}
use pulse_go.Wire.Tx.RoundTrip.{decode_full_tx-encode_full_tx}
use pulse_go.Wire.Tx.Exact.{IsLayout, decode_full_tx_iff, encode_full_tx-decode_full_tx}
use pulse_go.Wire.Tx.Size.{size, decode_full_tx-size}
use pulse_go.Wire.Tlv.{TlvEntry, has_type, put_tlv, parse_tlvs, flatten32}
use pulse_go.Wire.Tlv.Reads.{encode_tlv, IsTlv, Distinct}
use pulse_go.Wire.Tlv.Exact.{parse_tlvs_iff}
use pulse_go.Wire.Frame.{Frame, full_tx_v2, encode_frame_tx, decode_frame, msg_tx}
use pulse_go.Wire.Frame.{frame_heartbeat, msg_heartbeat}
use pulse_go.Wire.Frame.Heartbeat.{decode_frame_heartbeat}
use pulse_go.Go.{le_bytes}
use pulse_go.Wire.Frame.RoundTrip.{decode_frame_tx}
use pulse_go.Wire.Frame.Encode.{decode_frame-encode_frame_tx}
use pulse_go.Wire.Frame.Total.{IsFrame, decode_frame_total}
use pulse_go.Wire.Datagram.{
  SigFirst, Datagram, sig_first, heartbeat, encode_dg_sig_first, encode_dg_heartbeat,
  decode_datagram,
}
use pulse_go.Wire.Datagram.RoundTrip.{datagram_roundtrip}
use pulse_go.Wire.Datagram.Total.{Shows, IsShort, decode_datagram_total}
use pulse_go.Derive.{program_ids, static_writable_accounts, compute_unit_price, compute_unit_limit}
use pulse_go.Derive.Programs.{program_ids_lem, first_uses, resolve}
use pulse_go.Derive.Writable.{static_writable_accounts_lem, select, is_writable}
use pulse_go.Derive.Budget.{compute_unit_iff, Pays}
use pulse_go.Tests.Data.{tx, key, key-IsArray, tx-IsEncodable, tx-bytes, tx-fits, bytes_by}

decode_full_tx_iff_example :
    (decode_full_tx (encode_full_tx tx) ≡ ok tx)
    ↔ ((length (encode_full_tx tx) ≤ max_full_tx_body) × IsLayout tx (encode_full_tx tx))
decode_full_tx_iff_example = decode_full_tx_iff (encode_full_tx tx) tx tx-bytes

encode_full_tx-decode_full_tx_example : encode_full_tx tx ≡ set (encode_full_tx tx) 11 1
encode_full_tx-decode_full_tx_example =
    encode_full_tx-decode_full_tx (encode_full_tx tx) tx tx-bytes
      (decode_full_tx-encode_full_tx tx tx-IsEncodable tx-fits)

decode_full_tx-size_example : (length (encode_full_tx tx) ≡ size tx) × (size tx ≤ max_full_tx_body)
decode_full_tx-size_example =
    decode_full_tx-size (encode_full_tx tx) tx tx-bytes
      (decode_full_tx-encode_full_tx tx tx-IsEncodable tx-fits)

parse_tlvs_iff_example :
    ((parse_tlvs (5 ∷ 1 ∷ 0 ∷ 77 ∷ []) ≡ ok (record { typ = 5; value = 77 ∷ [] } ∷ [])) ↔ (
      All IsTlv (record { typ = 5; value = 77 ∷ [] } ∷ [])
      × Distinct (record { typ = 5; value = 77 ∷ [] } ∷ [])
      × ((5 ∷ 1 ∷ 0 ∷ 77 ∷ []) ≡ concat_map encode_tlv (record { typ = 5; value = 77 ∷ [] } ∷ []))))
    × (((out : List TlvEntry) × (parse_tlvs (5 ∷ 1 ∷ 0 ∷ 77 ∷ []) ≡ ok out))
        ⊎ (parse_tlvs (5 ∷ 1 ∷ 0 ∷ 77 ∷ []) ≡ err bad_frame))
parse_tlvs_iff_example =
    parse_tlvs_iff (5 ∷ 1 ∷ 0 ∷ 77 ∷ []) (record { typ = 5; value = 77 ∷ [] } ∷ [])
      (bytes_by (5 ∷ 1 ∷ 0 ∷ 77 ∷ []) refl)

frame-fits : length (encode_frame_tx tx true (key 4 ∷ []) []) ≤ max_full_tx_body + 2
unfolding encode_frame_tx encode_full_tx layout put_vector put_counted encode_instruction
    encode_lookup le_bytes flatten32 put_tlv
frame-fits = omega arith

decode_frame-encode_frame_tx_example :
    decode_frame (encode_frame_tx tx true (key 4 ∷ []) [])
    ≡ ok (
        full_tx_v2 (record {
          tx = tx;
          alt_incomplete = true;
          loaded_writable = key 4 ∷ [];
          loaded_readonly = [];
        }))
decode_frame-encode_frame_tx_example =
    decode_frame-encode_frame_tx tx true (key 4 ∷ []) [] tx-IsEncodable (key-IsArray 4 refl, tt) tt
      frame-fits

decode_frame_total_example :
    ((f : Frame) × (decode_frame (9 ∷ 0 ∷ 1 ∷ []) ≡ ok f) × IsFrame f)
    ⊎ (decode_frame (9 ∷ 0 ∷ 1 ∷ []) ≡ err bad_frame)
decode_frame_total_example = decode_frame_total (9 ∷ 0 ∷ 1 ∷ []) (bytes_by (9 ∷ 0 ∷ 1 ∷ []) refl)

abbrev unknown_tlv : TlvEntry
unknown_tlv = record { typ = 200; value = 1 ∷ [] }

frame-unknown-fits :
    length (encode_full_tx tx ++ concat_map encode_tlv (unknown_tlv ∷ [])) ≤ max_full_tx_body
unfolding encode_full_tx layout put_vector put_counted encode_instruction encode_lookup le_bytes
frame-unknown-fits = omega arith

decode_frame_tx_example :
    decode_frame (msg_tx ∷ 0 ∷ (encode_full_tx tx ++ concat_map encode_tlv (unknown_tlv ∷ [])))
    ≡ ok (
        full_tx_v2
          (record { tx = tx; alt_incomplete = false; loaded_writable = []; loaded_readonly = [] }))
unfolding flatten32 has_type
decode_frame_tx_example =
    decode_frame_tx tx false (unknown_tlv ∷ []) [] [] tx-IsEncodable
      (record { typ = omega arith; small = omega arith; bytes = bytes_by (1 ∷ []) refl }, tt)
      (refl, tt) tt tt refl refl frame-unknown-fits

abbrev item : SigFirst
item = record { slot = 5; seq = 6; signature = replicate 64 7 }

decode_datagram_total_example :
    ((d : Datagram) × (decode_datagram (1 ∷ 2 ∷ []) ≡ ok d) × Shows (1 ∷ 2 ∷ []) d)
    ⊎ ((decode_datagram (1 ∷ 2 ∷ []) ≡ err bad_frame) × IsShort (1 ∷ 2 ∷ []))
decode_datagram_total_example = decode_datagram_total (1 ∷ 2 ∷ []) (bytes_by (1 ∷ 2 ∷ []) refl)

program_ids_lem_example : program_ids tx ≡ first_uses (resolve tx.account_keys tx.instructions)
program_ids_lem_example = program_ids_lem tx

static_writable_accounts_lem_example :
    static_writable_accounts tx ≡ ok (select (is_writable tx) 0 tx.account_keys)
static_writable_accounts_lem_example = static_writable_accounts_lem tx

compute_unit_iff_example :
    ((compute_unit_price tx ≡ some 7) ↔ Pays tx 3 8 7)
    × ((compute_unit_limit tx ≡ some 7) ↔ Pays tx 2 4 7)
compute_unit_iff_example = compute_unit_iff tx 7

abbrev quota : CloseInfo
quota = record { code = 3; reason = "quota"; remote = true; retry = retry_transient }

-- A heartbeat with its number, without its time, and with a record of an unknown type.
abbrev beats : List TlvEntry
beats = record { typ = 4; value = le_bytes 8 77 } ∷ record { typ = 9; value = 1 ∷ [] } ∷ []

beats-AreTlvs : All IsTlv beats
unfolding le_bytes
beats-AreTlvs = (
  record { typ = omega arith; small = omega arith; bytes = bytes_by (le_bytes 8 77) refl },
  (record { typ = omega arith; small = omega arith; bytes = bytes_by (1 ∷ []) refl }, tt),
)

decode_frame_heartbeat_example :
    decode_frame (msg_heartbeat ∷ 0 ∷ concat_map encode_tlv beats)
    ≡ ok (frame_heartbeat (record { server_ts_ms = 0; highest_seq = 77 }))
unfolding has_type
decode_frame_heartbeat_example =
    decode_frame_heartbeat beats 0 77 beats-AreTlvs (refl, (refl, tt)) (omega arith) (omega arith)
      refl refl

datagram_roundtrip_example :
    ((do
      b ← encode_dg_sig_first (replicate 81 0) item.slot item.seq item.signature
      decode_datagram (b ++ (1 ∷ [])))
      ≡ ok (sig_first item))
    × ((do b ← encode_dg_heartbeat (replicate 17 0) 5 6; decode_datagram (b ++ (1 ∷ [])))
        ≡ ok (heartbeat (record { server_ts_ms = 5; highest_seq = 6 })))
datagram_roundtrip_example =
    datagram_roundtrip (replicate 81 0) (replicate 17 0) (1 ∷ []) item
      (record { server_ts_ms = 5; highest_seq = 6 }) refl (omega arith) (omega arith) refl refl
      (omega arith) (omega arith)
