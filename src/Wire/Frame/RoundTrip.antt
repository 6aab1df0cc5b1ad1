-- ===== src/Wire/Frame/RoundTrip.antt =====
-- Decoding a transaction frame whose trailer holds any records, and decoding what was encoded.
use pulse_go.Base.{
  ℕ, suc, ◌≤◌, ◌≡◌, refl, ap, subst, ◌∙◌, arith, Bool, true, false, not, List, [], ◌∷◌, ◌++◌,
  length, take, concat_map, ◌==◌, if◌then◌else◌, length-append, drop-append, take_all, All,
  Bool-cases, inl, inr, ==_iff, le→ltb_false,
}
use Prim.Native.Nat.{bit_and}
use pulse_go.Go.{ok, slice, index}
use pulse_go.Go.Bytes.{slice-add}
use pulse_go.Wire.Tx.{FullTx, max_full_tx_body, encode_full_tx}
use pulse_go.Wire.Tx.Valid.{IsEncodable}
use pulse_go.Wire.Tx.RoundTrip.{decode_full_tx_prefix-encode_full_tx}
use pulse_go.Wire.Tlv.{TlvEntry, has_type, flatten32}
use pulse_go.Wire.Tlv.Reads.{encode_tlv, IsTlv, Distinct, parse_tlvs_reads}
use pulse_go.Wire.Tlv.Arrays.{unflatten32-flatten32}
use pulse_go.Wire.Frame.{
  FullTxV2, full_tx_v2, msg_tx, flag_alt_incomplete, tlv_loaded_writable, tlv_loaded_readonly,
  apply_tx_tlvs, decode_tx_frame, decode_by_type, decode_frame,
}

-- The value of the record of type `t`, or `d` if there is none.
abbrev pub value_or : ℕ → List TlvEntry → List ℕ → List ℕ
value_or t [] d = d
value_or t (e ∷ es) d = if e.typ == t then e.value else value_or t es d

abbrev pub AreAddresses : List (List ℕ) → Type 0
AreAddresses xs = All (λ x. length x ≡ 32) xs

pub value_or_fresh :
    (t : ℕ) (es : List TlvEntry) (d : List ℕ) → has_type t es ≡ false → value_or t es d ≡ d
unfolding has_type
value_or_fresh t [] d h = refl
value_or_fresh t (e ∷ es) d h = ground (arith, value_or_fresh t es d)

flatten32-injective :
    (xs ys : List (List ℕ))
    → AreAddresses xs
    → AreAddresses ys
    → flatten32 xs ≡ flatten32 ys
    → xs ≡ ys
flatten32-injective xs ys hx hy e = cc (unflatten32-flatten32 xs hx, unflatten32-flatten32 ys hy, e)

-- A record of another type is skipped; one of type 1 or 2 sets its list of addresses.
apply_tx_tlvs_lem :
    (es : List TlvEntry) (v2 : FullTxV2) (w r : List (List ℕ))
    → Distinct es
    → AreAddresses v2.loaded_writable
    → AreAddresses v2.loaded_readonly
    → AreAddresses w
    → AreAddresses r
    → value_or tlv_loaded_writable es (flatten32 v2.loaded_writable) ≡ flatten32 w
    → value_or tlv_loaded_readonly es (flatten32 v2.loaded_readonly) ≡ flatten32 r
    → apply_tx_tlvs v2 es ≡ ok (record v2 { loaded_writable = w; loaded_readonly = r })
unfolding apply_tx_tlvs
apply_tx_tlvs_lem [] v2 w r distinct hw₀ hr₀ hw hr ew er =
    rw
      (
        ← flatten32-injective v2.loaded_writable w hw₀ hw ew,
        ← flatten32-injective v2.loaded_readonly r hr₀ hr er,
      )
      refl
apply_tx_tlvs_lem (e ∷ es) v2 w r (new, distinct) hw₀ hr₀ hw hr ew er =
    elim (Bool-cases (e.typ == tlv_loaded_writable)) [
      | inl is_w ↦
          let typ = (==_iff e.typ tlv_loaded_writable).0 is_w in
          let ev : e.value ≡ flatten32 w = rw is_w at ew in
          let not_r : (e.typ == tlv_loaded_readonly) ≡ false = ground arith in
          rw (is_w, ev, unflatten32-flatten32 w hw)
            (apply_tx_tlvs_lem es (record v2 { loaded_writable = w }) w r distinct hw hr₀ hw hr
              (value_or_fresh tlv_loaded_writable es (flatten32 w)
                (subst (λ t. has_type t es ≡ false) typ new))
              (rw not_r at er))
      | inr not_w ↦ elim (Bool-cases (e.typ == tlv_loaded_readonly)) [
        | inl is_r ↦
            let typ = (==_iff e.typ tlv_loaded_readonly).0 is_r in
            let ev : e.value ≡ flatten32 r = rw is_r at er in
            rw (not_w, is_r, ev, unflatten32-flatten32 r hr)
              (apply_tx_tlvs_lem es (record v2 { loaded_readonly = r }) w r distinct hw₀ hr hw hr
                (rw not_w at ew)
                (value_or_fresh tlv_loaded_readonly es (flatten32 r)
                  (subst (λ t. has_type t es ≡ false) typ new)))
        | inr not_r ↦
            rw (not_w, not_r)
              (apply_tx_tlvs_lem es v2 w r distinct hw₀ hr₀ hw hr (rw not_w at ew) (rw not_r at er))
      ]
    ]

-- `slice rest consumed (len rest)` of a body and what follows it.
slice_tail : (s t : List ℕ) → slice (s ++ t) (length s) (length (s ++ t)) ≡ ok t
slice_tail s t =
    ap (slice (s ++ t) (length s)) (length-append s t)
    ∙ slice-add (s ++ t) (length s) (length t) (omega (arith, length-append s t))
    ∙ ap ok (ap (take (length t)) (drop-append s t) ∙ take_all (length t) t (omega arith))

-- The two bytes in front are the type and the flags.
pub decode_frame-header :
    (msg_type flags : ℕ) (rest : List ℕ)
    → decode_frame (msg_type ∷ flags ∷ rest) ≡ decode_by_type msg_type flags rest
unfolding decode_frame index
decode_frame-header msg_type flags rest =
    rw
      (
        le→ltb_false (suc (suc (length rest))) 2 (omega arith),
        slice_tail (msg_type ∷ flags ∷ []) rest,
      )
      refl

flag_reserved : (alt : Bool) → (bit_and (if alt then flag_alt_incomplete else 0) 0xfe == 0) ≡ true
flag_reserved true = refl
flag_reserved false = refl

flag_alt :
    (alt : Bool)
    → not (bit_and (if alt then flag_alt_incomplete else 0) flag_alt_incomplete == 0) ≡ alt
flag_alt true = refl
flag_alt false = refl

module _ (ft : FullTx) (alt : Bool) (es : List TlvEntry) (w r : List (List ℕ)) where
  -- A transaction frame: an encodable transaction and a trailer of records of distinct types, 64 KiB
  -- at most behind the type and the flags. It decodes to the transaction, the flag, and the
  -- addresses `w` and `r` whose bytes are the values of the records of type 1 and 2, or none where
  -- there is no such record; the order of the records and those of any other type do not matter.
  pub decode_frame_tx :
      IsEncodable ft
      → All IsTlv es
      → Distinct es
      → AreAddresses w
      → AreAddresses r
      → value_or tlv_loaded_writable es [] ≡ flatten32 w
      → value_or tlv_loaded_readonly es [] ≡ flatten32 r
      → length (encode_full_tx ft ++ concat_map encode_tlv es) ≤ max_full_tx_body
      → decode_frame (
          msg_tx
          ∷ (if alt then flag_alt_incomplete else 0)
          ∷ (encode_full_tx ft ++ concat_map encode_tlv es))
        ≡ ok (
            full_tx_v2
              (record { tx = ft; alt_incomplete = alt; loaded_writable = w; loaded_readonly = r }))
  unfolding decode_by_type decode_tx_frame flatten32
  decode_frame_tx enc tlvs distinct hw hr ew er fits =
      let body = encode_full_tx ft in
      let trailer = concat_map encode_tlv es in
      let start : FullTxV2 = record {
        tx = ft;
        alt_incomplete = alt;
        loaded_writable = [];
        loaded_readonly = [];
      } in
      decode_frame-header msg_tx (if alt then flag_alt_incomplete else 0) (body ++ trailer)
      ∙ rw
          (
            flag_reserved alt,
            decode_full_tx_prefix-encode_full_tx ft trailer enc fits,
            le→ltb_false (length (body ++ trailer)) (length body)
                (omega (arith, length-append body trailer)),
            slice_tail body trailer,
            parse_tlvs_reads es tlvs distinct,
            flag_alt alt,
            apply_tx_tlvs_lem es start w r distinct tt tt hw hr ew er,
          )
          refl
