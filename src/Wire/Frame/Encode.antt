-- ===== src/Wire/Frame/Encode.antt =====
-- Decoding a transaction frame that `EncodeFrameTx` wrote.
use pulse_go.Base.{
  ℕ, ◌+◌, ◌%◌, ◌^◌, ◌<◌, ◌≤◌, ◌≡◌, refl, ap, sym, arith, Bool, List, [], ◌∷◌, ◌++◌, length,
  concat_map, is_empty, if◌then◌else◌, append-nil, append_assoc, length-append, All, All-map,
  All-append, concat_map-append,
}
use pulse_go.Go.Bytes.{length-le_bytes}
use pulse_go.Go.{IsByte, ok}
use pulse_go.Wire.Tx.{put16, FullTx, max_full_tx_body, encode_full_tx}
use pulse_go.Wire.Tx.Valid.{IsArray, IsEncodable}
use pulse_go.Wire.Tlv.{TlvEntry, has_type, put_tlv, flatten32}
use pulse_go.Wire.Tlv.Reads.{encode_tlv, IsTlv, Distinct}
use pulse_go.Wire.Frame.{
  full_tx_v2, msg_tx, flag_alt_incomplete, tlv_loaded_writable, tlv_loaded_readonly,
  encode_frame_tx, decode_frame,
}
use pulse_go.Wire.Frame.RoundTrip.{value_or, decode_frame_tx}

-- The records that `EncodeFrameTx` writes for one list of addresses.
address_tlvs : ℕ → List (List ℕ) → List TlvEntry
address_tlvs t xs = if is_empty xs then [] else record { typ = t; value = flatten32 xs } ∷ []

put_addresses :
    (b : List ℕ) (t : ℕ) (xs : List (List ℕ))
    → (if is_empty xs then b else put_tlv b t (flatten32 xs))
      ≡ b ++ concat_map encode_tlv (address_tlvs t xs)
unfolding address_tlvs put_tlv
put_addresses b t [] = sym (append-nil b)
put_addresses b t (x ∷ xs) =
    ap (λ u. b ++ (t ∷ u))
      (sym (append-nil (put16 (length (flatten32 (x ∷ xs))) ++ flatten32 (x ∷ xs))))

encode_frame_tx-trailer :
    (ft : FullTx) (alt : Bool) (w r : List (List ℕ))
    → encode_frame_tx ft alt w r
      ≡ msg_tx
        ∷ (if alt then flag_alt_incomplete else 0)
        ∷ (encode_full_tx ft
            ++ concat_map encode_tlv
                (address_tlvs tlv_loaded_writable w ++ address_tlvs tlv_loaded_readonly r))
unfolding encode_frame_tx
encode_frame_tx-trailer ft alt w r =
    rw
      (
        put_addresses _ tlv_loaded_writable w,
        put_addresses _ tlv_loaded_readonly r,
        concat_map-append encode_tlv (address_tlvs tlv_loaded_writable w)
            (address_tlvs tlv_loaded_readonly r),
        append_assoc,
      )
      refl

flatten32-IsByte : (xs : List (List ℕ)) → All (IsArray 32) xs → All IsByte (flatten32 xs)
unfolding flatten32
flatten32-IsByte [] h = tt
flatten32-IsByte (x ∷ xs) ((l, b), h) = All-append IsByte x _ b (flatten32-IsByte xs h)

address_tlvs-IsTlv :
    (t : ℕ) (xs : List (List ℕ))
    → t < 256
    → All (IsArray 32) xs
    → length (concat_map encode_tlv (address_tlvs t xs)) ≤ max_full_tx_body
    → All IsTlv (address_tlvs t xs)
unfolding address_tlvs
address_tlvs-IsTlv t [] ht h fits = tt
address_tlvs-IsTlv t (x ∷ xs) ht h fits =
    let value = flatten32 (x ∷ xs) in
    (
      record {
        typ = ht;
        small = omega (
          arith,
          fits,
          length-append (put16 (length value) ++ value) [],
          length-append (put16 (length value)) value,
          length-le_bytes 2 (length value % 2 ^ 16),
        );
        bytes = flatten32-IsByte (x ∷ xs) h;
      },
      tt,
    )

trailer : List (List ℕ) → List (List ℕ) → List TlvEntry
trailer w r = address_tlvs tlv_loaded_writable w ++ address_tlvs tlv_loaded_readonly r

-- The trailer has at most one record of each of the two types, which holds the list.
trailer_values :
    (w r : List (List ℕ))
    → Distinct (trailer w r)
      × (value_or tlv_loaded_writable (trailer w r) [] ≡ flatten32 w)
      × (value_or tlv_loaded_readonly (trailer w r) [] ≡ flatten32 r)
unfolding trailer address_tlvs has_type flatten32
trailer_values [] [] = (tt, refl, refl)
trailer_values [] (y ∷ ys) = ((refl, tt), refl, refl)
trailer_values (x ∷ xs) [] = ((refl, tt), refl, refl)
trailer_values (x ∷ xs) (y ∷ ys) = ((refl, (refl, tt)), refl, refl)

-- `DecodeFrame` of what `EncodeFrameTx` wrote for an encodable transaction and addresses of 32 bytes
-- gives them back, if there are at most 64 KiB behind the type and the flags.
pub decode_frame-encode_frame_tx :
    (ft : FullTx) (alt : Bool) (w r : List (List ℕ))
    → IsEncodable ft
    → All (IsArray 32) w
    → All (IsArray 32) r
    → length (encode_frame_tx ft alt w r) ≤ max_full_tx_body + 2
    → decode_frame (encode_frame_tx ft alt w r)
      ≡ ok (
          full_tx_v2
            (record { tx = ft; alt_incomplete = alt; loaded_writable = w; loaded_readonly = r }))
unfolding trailer
decode_frame-encode_frame_tx ft alt w r enc hw hr fits =
    let es = trailer w r in
    let (distinct, ew, er) = trailer_values w r in
    let written = encode_frame_tx-trailer ft alt w r in
    let size : length (encode_full_tx ft ++ concat_map encode_tlv es) ≤ max_full_tx_body =
      omega (arith, ap length written) in
    let parts : length (concat_map encode_tlv (address_tlvs tlv_loaded_writable w))
          + length (concat_map encode_tlv (address_tlvs tlv_loaded_readonly r))
        ≤ max_full_tx_body =
      omega (
        arith,
        length-append (encode_full_tx ft) (concat_map encode_tlv es),
        ap length (
            concat_map-append encode_tlv (address_tlvs tlv_loaded_writable w)
              (address_tlvs tlv_loaded_readonly r)),
        length-append (concat_map encode_tlv (address_tlvs tlv_loaded_writable w))
            (concat_map encode_tlv (address_tlvs tlv_loaded_readonly r)),
      ) in
    rw written (
      decode_frame_tx ft alt es w r enc
        (All-append IsTlv (address_tlvs tlv_loaded_writable w) (address_tlvs tlv_loaded_readonly r)
          (address_tlvs-IsTlv tlv_loaded_writable w (omega arith) hw (omega arith))
          (address_tlvs-IsTlv tlv_loaded_readonly r (omega arith) hr (omega arith)))
        distinct (All-map (λ x h. h.0) w hw) (All-map (λ x h. h.0) r hr) ew er size)
