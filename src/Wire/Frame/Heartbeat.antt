-- ===== src/Wire/Frame/Heartbeat.antt =====
-- Decoding a heartbeat frame whose trailer holds any records.
use pulse_go.Base.{
  ℕ, ◌≡◌, refl, subst, ◌∙◌, arith, true, false, List, [], ◌∷◌, length, concat_map, ◌==◌, All,
  Bool-cases, inl, inr, ==_iff,
}
use pulse_go.Go.{ok, IsU64, le_bytes}
use pulse_go.Go.Bytes.{le_uint-le_bytes, length-le_bytes}
use pulse_go.Wire.Tlv.{TlvEntry, has_type}
use pulse_go.Wire.Tlv.Reads.{encode_tlv, IsTlv, Distinct, parse_tlvs_reads}
use pulse_go.Wire.Frame.{
  FrameHeartbeat, frame_heartbeat, msg_heartbeat, tlv_server_ts_ms, tlv_highest_seq,
  apply_heartbeat_tlvs, decode_heartbeat_frame, decode_by_type, decode_frame,
}
use pulse_go.Wire.Frame.RoundTrip.{value_or, value_or_fresh, decode_frame-header}

le_bytes8-injective : (v w : ℕ) → IsU64 v → IsU64 w → le_bytes 8 v ≡ le_bytes 8 w → v ≡ w
le_bytes8-injective v w hv hw e = cc (le_uint-le_bytes 8 v hv, le_uint-le_bytes 8 w hw, e)

is_eight : (v : ℕ) → (length (le_bytes 8 v) == 8) ≡ true
is_eight v = (==_iff (length (le_bytes 8 v)) 8).1 (length-le_bytes 8 v)

-- A record of another type is skipped; one of type 3 or 4 sets its number.
apply_heartbeat_tlvs_lem :
    (es : List TlvEntry) (hb : FrameHeartbeat) (t h : ℕ)
    → Distinct es
    → IsU64 hb.server_ts_ms
    → IsU64 hb.highest_seq
    → IsU64 t
    → IsU64 h
    → value_or tlv_server_ts_ms es (le_bytes 8 hb.server_ts_ms) ≡ le_bytes 8 t
    → value_or tlv_highest_seq es (le_bytes 8 hb.highest_seq) ≡ le_bytes 8 h
    → apply_heartbeat_tlvs hb es ≡ ok (record { server_ts_ms = t; highest_seq = h })
unfolding apply_heartbeat_tlvs
apply_heartbeat_tlvs_lem [] hb t h distinct t₀ h₀ ht hh et eh =
    rw
      (
        ← le_bytes8-injective hb.server_ts_ms t t₀ ht et,
        ← le_bytes8-injective hb.highest_seq h h₀ hh eh,
      )
      refl
apply_heartbeat_tlvs_lem (e ∷ es) hb t h (new, distinct) t₀ h₀ ht hh et eh =
    elim (Bool-cases (e.typ == tlv_server_ts_ms)) [
      | inl is_t ↦
          let typ = (==_iff e.typ tlv_server_ts_ms).0 is_t in
          let ev : e.value ≡ le_bytes 8 t = rw is_t at et in
          let not_h : (e.typ == tlv_highest_seq) ≡ false = ground arith in
          rw (is_t, ev, is_eight t, le_uint-le_bytes 8 t ht)
            (apply_heartbeat_tlvs_lem es (record hb { server_ts_ms = t }) t h distinct ht h₀ ht hh
              (value_or_fresh tlv_server_ts_ms es (le_bytes 8 t)
                (subst (λ k. has_type k es ≡ false) typ new))
              (rw not_h at eh))
      | inr not_t ↦ elim (Bool-cases (e.typ == tlv_highest_seq)) [
        | inl is_h ↦
            let typ = (==_iff e.typ tlv_highest_seq).0 is_h in
            let ev : e.value ≡ le_bytes 8 h = rw is_h at eh in
            rw (not_t, is_h, ev, is_eight h, le_uint-le_bytes 8 h hh)
              (apply_heartbeat_tlvs_lem es (record hb { highest_seq = h }) t h distinct t₀ hh ht hh
                (rw not_t at et)
                (value_or_fresh tlv_highest_seq es (le_bytes 8 h)
                  (subst (λ k. has_type k es ≡ false) typ new)))
        | inr not_h ↦
            rw (not_t, not_h)
              (apply_heartbeat_tlvs_lem es hb t h distinct t₀ h₀ ht hh (rw not_t at et)
                (rw not_h at eh))
      ]
    ]

-- A heartbeat frame with no flags and a trailer of records of distinct types. It decodes to the
-- numbers whose eight bytes, lowest first, are the values of the records of type 3 and 4, or 0 where
-- there is no such record; the order of the records and those of any other type do not matter.
pub decode_frame_heartbeat :
    (es : List TlvEntry) (t h : ℕ)
    → All IsTlv es
    → Distinct es
    → IsU64 t
    → IsU64 h
    → value_or tlv_server_ts_ms es (le_bytes 8 0) ≡ le_bytes 8 t
    → value_or tlv_highest_seq es (le_bytes 8 0) ≡ le_bytes 8 h
    → decode_frame (msg_heartbeat ∷ 0 ∷ concat_map encode_tlv es)
      ≡ ok (frame_heartbeat (record { server_ts_ms = t; highest_seq = h }))
unfolding decode_by_type decode_heartbeat_frame
decode_frame_heartbeat es t h tlvs distinct ht hh et eh =
    decode_frame-header msg_heartbeat 0 (concat_map encode_tlv es)
    ∙ rw
        (
          parse_tlvs_reads es tlvs distinct,
          apply_heartbeat_tlvs_lem es (record { server_ts_ms = 0; highest_seq = 0 }) t h distinct
              (omega arith) (omega arith) ht hh et eh,
        )
        refl
