-- ===== src/Wire/Frame/Total.antt =====
-- The frame decoder on any input: a well-formed frame or `ErrBadFrame`.
use pulse_go.Base.{
  ℕ, ◌+◌, ◌≤◌, ◌≡◌, refl, ◌∙◌, ap, arith, false, not, List, [], ◌∷◌, length, drop, ltb, ◌==◌, All,
  All-drop, inl, inr, ◌⊎◌, ltb_false→le, take_all, length-drop, ◌-◌, ◌≢◌,
}
use Prim.Native.Nat.{bit_and}
use pulse_go.Errors.{bad_frame}
use pulse_go.Go.{ok, err, slice, le_uint, le_value, IsByte, IsU64}
use pulse_go.Go.Bytes.{slice-add, le_uint_full, le_value-lt}
use pulse_go.Go.Decodes.{
  Decodes, decoded, refused, Decodes-bind, Decodes-reject, Decodes-step, Decodes-if, Decodes-cases,
}
use pulse_go.Wire.Tx.Valid.{IsArray, IsEncodable}
use pulse_go.Wire.Tx.Exact.{decode_full_tx_prefix-Decodes}
use pulse_go.Wire.Tlv.{TlvEntry, unflatten32}
use pulse_go.Wire.Tlv.Reads.{IsTlv}
use pulse_go.Wire.Tlv.Exact.{parse_tlvs-Decodes}
use pulse_go.Wire.Tlv.Arrays.{unflatten32_total}
use pulse_go.Wire.Frame.{
  Frame, FullTxV2, FrameHeartbeat, full_tx_v2, frame_heartbeat, unknown_frame, msg_tx,
  msg_heartbeat, tlv_loaded_writable, tlv_loaded_readonly, tlv_server_ts_ms, tlv_highest_seq,
  flag_alt_incomplete, apply_tx_tlvs, apply_heartbeat_tlvs, decode_tx_frame, decode_heartbeat_frame,
  decode_by_type, decode_frame,
}
use pulse_go.Wire.Frame.RoundTrip.{decode_frame-header}

-- The values that a caller can find in a frame.
abbrev pub IsFrame : Frame → Type 0
IsFrame (full_tx_v2 v2) =
    IsEncodable v2.tx × All (IsArray 32) v2.loaded_writable × All (IsArray 32) v2.loaded_readonly
IsFrame (frame_heartbeat hb) = IsU64 hb.server_ts_ms × IsU64 hb.highest_seq
IsFrame (unknown_frame t) = (t ≢ msg_tx) × (t ≢ msg_heartbeat)

unflatten32-Decodes :
    (src : List ℕ) → All IsByte src → Decodes (λ xs. All (IsArray 32) xs) (unflatten32 src)
unflatten32-Decodes src bytes = elim (unflatten32_total src bytes) [
  | inl (xs, e, all, _) ↦ rw e (decoded all)
  | inr (e, _) ↦ rw e (refused refl)
]

apply_tx_tlvs-Decodes :
    (v2 : FullTxV2) (es : List TlvEntry)
    → All IsTlv es
    → IsFrame (full_tx_v2 v2)
    → Decodes (λ r. IsFrame (full_tx_v2 r)) (apply_tx_tlvs v2 es)
unfolding apply_tx_tlvs
apply_tx_tlvs-Decodes v2 [] all h = decoded h
apply_tx_tlvs-Decodes v2 (e ∷ es) (tlv, all) (t, w, r) =
    Decodes-bind {Q = λ v. IsFrame (full_tx_v2 v)} _
      (Decodes-if (e.typ == tlv_loaded_writable)
        (λ _. Decodes-bind _ (unflatten32-Decodes e.value tlv.bytes) λ xs hx. decoded (t, hx, r))
        (λ _.
          Decodes-if (e.typ == tlv_loaded_readonly)
            (λ _.
              Decodes-bind _ (unflatten32-Decodes e.value tlv.bytes) λ xs hx. decoded (t, w, hx))
            (λ _. decoded (t, w, r))))
      λ v h. apply_tx_tlvs-Decodes v es all h

IsU64-value :
    (value : List ℕ)
    → All IsByte value
    → not (length value == 8) ≡ false
    → (v : ℕ) × IsU64 v × (le_uint 8 value ≡ ok v)
IsU64-value value bytes e =
    let eight : length value ≡ 8 = ground arith in
    (le_value value, rw eight at (le_value-lt value bytes), le_uint_full 8 value eight)

apply_heartbeat_tlvs-Decodes :
    (hb : FrameHeartbeat) (es : List TlvEntry)
    → All IsTlv es
    → IsFrame (frame_heartbeat hb)
    → Decodes (λ r. IsFrame (frame_heartbeat r)) (apply_heartbeat_tlvs hb es)
unfolding apply_heartbeat_tlvs
apply_heartbeat_tlvs-Decodes hb [] all h = decoded h
apply_heartbeat_tlvs-Decodes hb (e ∷ es) (tlv, all) (t, s) =
    Decodes-bind {Q = λ v. IsFrame (frame_heartbeat v)} _
      (Decodes-if (e.typ == tlv_server_ts_ms)
        (λ _. Decodes-reject (not (length e.value == 8)) λ eight.
          let (v, hv, ev) = IsU64-value e.value tlv.bytes eight in
          Decodes-step _ ev (decoded (hv, s)))
        (λ _.
          Decodes-if (e.typ == tlv_highest_seq)
            (λ _. Decodes-reject (not (length e.value == 8)) λ eight.
              let (v, hv, ev) = IsU64-value e.value tlv.bytes eight in
              Decodes-step _ ev (decoded (t, hv)))
            (λ _. decoded (t, s))))
      λ v h. apply_heartbeat_tlvs-Decodes v es all h

-- `b[n:]` within range.
slice_rest : (b : List ℕ) (n : ℕ) → n ≤ length b → slice b n (length b) ≡ ok (drop n b)
slice_rest b n h =
    ap (slice b n) {x = length b} {y = n + (length b - n)} (omega arith)
    ∙ slice-add b n (length b - n) (omega arith)
    ∙ ap ok (take_all (length b - n) (drop n b) (omega (arith, length-drop n b)))

decode_tx_frame-Decodes :
    (flags : ℕ) (rest : List ℕ) → All IsByte rest → Decodes IsFrame (decode_tx_frame flags rest)
unfolding decode_tx_frame
decode_tx_frame-Decodes flags rest bytes = Decodes-reject (not (bit_and flags 0xfe == 0)) λ _.
    Decodes-bind _ (decode_full_tx_prefix-Decodes rest bytes) λ (tx, n) (_, (s, l, _, _)).
      Decodes-reject (ltb (length rest) n) λ fits.
        Decodes-step _ (slice_rest rest n (ltb_false→le _ _ fits)) (
          Decodes-bind _ (parse_tlvs-Decodes (drop n rest) (All-drop IsByte n rest bytes))
            λ es (all, _, _).
              Decodes-bind _
                (apply_tx_tlvs-Decodes
                  (record {
                    tx = tx;
                    alt_incomplete = not (bit_and flags flag_alt_incomplete == 0);
                    loaded_writable = [];
                    loaded_readonly = [];
                  })
                  es all (l.encodable, tt, tt))
                λ v2 h. decoded h)

decode_heartbeat_frame-Decodes :
    (flags : ℕ) (rest : List ℕ)
    → All IsByte rest
    → Decodes IsFrame (decode_heartbeat_frame flags rest)
unfolding decode_heartbeat_frame
decode_heartbeat_frame-Decodes flags rest bytes = Decodes-reject (not (flags == 0)) λ _.
    Decodes-bind _ (parse_tlvs-Decodes rest bytes) λ es (all, _, _).
      Decodes-bind _
        (apply_heartbeat_tlvs-Decodes (record { server_ts_ms = 0; highest_seq = 0 }) es all
          (omega arith, omega arith))
        λ hb h. decoded h

pub decode_frame-Decodes : (src : List ℕ) → All IsByte src → Decodes IsFrame (decode_frame src)
decode_frame-Decodes [] bytes = unfold decode_frame in refused refl
decode_frame-Decodes (t ∷ []) bytes = unfold decode_frame in refused refl
decode_frame-Decodes (t ∷ flags ∷ rest) (_, (_, bytes)) = rw (decode_frame-header t flags rest) (
    unfold decode_by_type in
    Decodes-if (t == msg_tx) (λ _. decode_tx_frame-Decodes flags rest bytes)
      (λ not_tx.
        Decodes-if (t == msg_heartbeat) (λ _. decode_heartbeat_frame-Decodes flags rest bytes)
          (λ not_hb. decoded (ground arith, ground arith))))

-- On bytes `DecodeFrame` never panics and its only error is `ErrBadFrame`. A frame that it returns is
-- well formed: a transaction within the limits of its layout with addresses of 32 bytes, a heartbeat
-- of two 64-bit numbers, or the type of a frame that is neither.
pub decode_frame_total :
    (src : List ℕ)
    → All IsByte src
    → ((f : Frame) × (decode_frame src ≡ ok f) × IsFrame f) ⊎ (decode_frame src ≡ err bad_frame)
decode_frame_total src bytes = Decodes-cases (decode_frame-Decodes src bytes)
