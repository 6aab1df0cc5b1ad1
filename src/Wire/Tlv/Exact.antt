-- ===== src/Wire/Tlv/Exact.antt =====
-- What the TLV parser accepts: exactly the trailers of records of distinct types.
use pulse_go.Base.{
  split_at, ℕ, zero, suc, ◌+◌, ◌^◌, ◌<◌, ◌≤◌, ◌≡◌, refl, ap, ap₂, sym, ◌∙◌, arith, false, List, [],
  ◌∷◌, ◌++◌, length, take, drop, concat_map, ltb, append-nil, append_assoc, length-drop,
  length-take, drop_all, le→ltb_false, ltb_false→le, All, All-take, All-drop, Bool-cases, inl, inr,
  ◌↔◌, ◌⊎◌,
}
use native.Mathlib.Nat.{mod-eq_of_lt}
use pulse_go.Errors.{bad_frame}
use pulse_go.Go.{ok, err, slice, le_bytes, le_value, IsByte}
use pulse_go.Go.Bytes.{slice-add, le_uint_full, le_value-lt, le_bytes-le_value}
use pulse_go.Go.Decodes.{
  Decodes, decoded, Decodes-ok, Decodes-cases, Decodes-bind, Decodes-reject, Decodes-step,
  Decodes-weaken,
}
use pulse_go.Wire.Tx.{put16}
use pulse_go.Wire.Tlv.{TlvEntry, has_type, parse_one, parse_from, parse_tlvs}
use pulse_go.Wire.Tlv.Reads.{
  encode_tlv, IsTlv, Distinct, Fresh, index_at, has_type-append, parse_tlvs_reads,
}

first-IsByte :
    (src : List ℕ) (off : ℕ)
    → off < length src
    → All IsByte src
    → (x : ℕ) × IsByte x × (drop off src ≡ x ∷ drop (off + 1) src)
first-IsByte [] off h bytes = absurd (omega arith)
first-IsByte (x ∷ src) zero h (b, bytes) = (x, b, refl)
first-IsByte (x ∷ src) (suc off) h (b, bytes) =
    let (y, c, e) = first-IsByte src off (omega arith) bytes in
    (y, c, e ∙ ap (λ k. y ∷ drop k (x ∷ src)) {x = suc (off + 1)} {y = suc off + 1} (omega arith))

-- The record that stands at `off`, its end, and how the rest goes on.
record IsRecord (src : List ℕ) (off : ℕ) (out : List TlvEntry) (e : TlvEntry) (end : ℕ)
    : Type 0 where
  tlv : IsTlv e
  new : has_type e.typ out ≡ false
  grows : off < end
  inside : end ≤ length src
  split : drop off src ≡ encode_tlv e ++ drop end src

-- Two bytes are what `putTLV` writes for the number that they stand for.
length_bytes :
    (width : List ℕ)
    → length width ≡ 2
    → All IsByte width
    → (le_value width < 2 ^ 16) × (put16 (le_value width) ≡ width)
length_bytes width l2 bytes =
    let small : le_value width < 256 ^ 2 = rw l2 at (le_value-lt width bytes) in
    let written : le_bytes 2 (le_value width) ≡ width = rw l2 at (le_bytes-le_value width bytes) in
    (small, ap (le_bytes 2) (mod-eq_of_lt small) ∙ written)

module _ (src : List ℕ) (off : ℕ) (out : List TlvEntry) (bytes : All IsByte src) (x : ℕ)
    (b : IsByte x) (e : drop off src ≡ x ∷ drop (off + 1) src) (room : off + 3 ≤ length src) where
  width : List ℕ
  width = take 2 (drop (off + 1) src)

  value : List ℕ
  unfolding width
  value = take (le_value width) (drop (off + 3) src)

  length-len : length width ≡ 2
  unfolding width
  length-len = omega (arith, length-take 2 (drop (off + 1) src), length-drop (off + 1) src)

  IsRecord-at :
      off + 3 + le_value width ≤ length src
      → has_type x out ≡ false
      → IsRecord src off out (record { typ = x; value = value }) (off + 3 + le_value width)
  unfolding width value
  IsRecord-at fits new =
      let (small, written) =
        length_bytes width length-len (All-take IsByte 2 _ (All-drop IsByte (off + 1) src bytes)) in
      let l : length value ≡ le_value width =
        omega
          (arith, length-take (le_value width) (drop (off + 3) src), length-drop (off + 3) src) in
      let behind : drop (off + 1 + 2) src ≡ value ++ drop (off + 3 + le_value width) src =
        ap (λ k. drop k src) {x = off + 1 + 2} {y = off + 3} (omega arith)
        ∙ split_at src (off + 3) (le_value width) in
      record {
        tlv = record {
          typ = b;
          small = rw l small;
          bytes = All-take IsByte (le_value width) _ (All-drop IsByte (off + 3) src bytes);
        };
        new = new;
        grows = omega arith;
        inside = fits;
        split =
            e
            ∙ ap (λ r. x ∷ r)
                (split_at src (off + 1) 2
                  ∙ ap₂ (λ u v. u ++ v) (sym (ap put16 l ∙ written)) behind
                  ∙ sym (append_assoc (put16 (length value)) value _));
      }

parse_one-Decodes :
    (src : List ℕ) (off : ℕ) (out : List TlvEntry)
    → All IsByte src
    → Decodes (λ (e, end). IsRecord src off out e end) (parse_one src off out)
unfolding parse_one width value
parse_one-Decodes src off out bytes = Decodes-reject (ltb (length src) (off + 3)) λ fits.
    let room : off + 3 ≤ length src = ltb_false→le _ _ fits in
    let (x, b, e) = first-IsByte src off (omega arith) bytes in
    let pair : List ℕ = width src off out bytes x b e room in
    Decodes-step _ (index_at x _ src off e) (
      Decodes-step _
        (ap (slice src (off + 1)) {x = off + 3} {y = off + 1 + 2} (omega arith)
          ∙ slice-add src (off + 1) 2 (omega arith))
        (Decodes-step _ (le_uint_full 2 pair (length-len src off out bytes x b e room)) (
          Decodes-reject (ltb (length src) (off + 3 + le_value pair)) λ fits'.
            Decodes-reject (has_type x out) λ new.
              Decodes-step _ (slice-add src (off + 3) (le_value pair) (ltb_false→le _ _ fits'))
                (decoded (IsRecord-at src off out bytes x b e room (ltb_false→le _ _ fits') new)))))

Fresh-append_inv :
    (out es : List TlvEntry) (e : TlvEntry)
    → Fresh (out ++ (e ∷ [])) es
    → Fresh out es × (has_type e.typ es ≡ false)
unfolding has_type
Fresh-append_inv out [] e f = (tt, refl)
Fresh-append_inv out (x ∷ es) e (f, fs) =
    let (g, h) = Fresh-append_inv out es e fs in
    ((ground (arith, has_type-append x.typ out e), g), ground (arith, has_type-append x.typ out e))

-- The records that the loop has still to add to `out`.
record Rest (src : List ℕ) (off : ℕ) (out res es : List TlvEntry) : Type 0 where
  result : res ≡ out ++ es
  tlvs : All IsTlv es
  distinct : Distinct es
  fresh : Fresh out es
  whole : drop off src ≡ concat_map encode_tlv es

no_more :
    (src : List ℕ) (off : ℕ) (out : List TlvEntry) → length src ≤ off → Rest src off out out []
no_more src off out h = record {
  result = sym (append-nil out);
  tlvs = tt;
  distinct = tt;
  fresh = tt;
  whole = drop_all off src h;
}

one_more :
    {src : List ℕ} {off end : ℕ} {out res : List TlvEntry} {e : TlvEntry} (es : List TlvEntry)
    → IsRecord src off out e end
    → Rest src end (out ++ (e ∷ [])) res es
    → Rest src off out res (e ∷ es)
one_more {out} {e} es r s =
    let (fresh, new) = Fresh-append_inv out es e s.fresh in
    record {
      result = s.result ∙ append_assoc out (e ∷ []) es;
      tlvs = (r.tlv, s.tlvs);
      distinct = (new, s.distinct);
      fresh = (r.new, fresh);
      whole = r.split ∙ ap (λ t. encode_tlv e ++ t) s.whole;
    }

-- What the loop adds to `out` is what stands from `off` on.
parse_from-Decodes :
    (fuel : ℕ) (src : List ℕ) (off : ℕ) (out : List TlvEntry)
    → All IsByte src
    → off ≤ length src
    → length src ≤ off + fuel
    → Decodes (λ res. (es : List TlvEntry) × Rest src off out res es) (parse_from fuel src off out)
unfolding parse_from
parse_from-Decodes zero src off out bytes inside enough =
    rw (le→ltb_false off (length src) (omega arith), parse_from)
      (decoded ([], no_more src off out (omega arith)))
parse_from-Decodes (suc fuel) src off out bytes inside enough =
    elim (Bool-cases (ltb off (length src))) [
      | inr done ↦ rw (done, parse_from) (decoded ([], no_more src off out (ltb_false→le _ _ done)))
      | inl more ↦
          rw (more, parse_from)
            (Decodes-bind _ (parse_one-Decodes src off out bytes) λ (e, end) r.
              Decodes-weaken (λ res (es, s). (e ∷ es, one_more es r s))
                (parse_from-Decodes fuel src end (out ++ (e ∷ [])) bytes r.inside
                  (omega (arith, r.grows))))
    ]

pub parse_tlvs-Decodes :
    (src : List ℕ)
    → All IsByte src
    → Decodes (λ es. All IsTlv es × Distinct es × (src ≡ concat_map encode_tlv es)) (parse_tlvs src)
unfolding parse_tlvs
parse_tlvs-Decodes src bytes =
    Decodes-weaken (λ res (es, s). rw s.result (s.tlvs, s.distinct, s.whole))
      (parse_from-Decodes (length src) src 0 [] bytes (omega arith) (omega arith))

-- On bytes, the TLV parser returns `es` exactly when the input is the records `es` one after the
-- other and no type occurs twice; and it returns some records or it is `ErrBadFrame`, so that it
-- never panics.
pub parse_tlvs_iff :
    (src : List ℕ) (es : List TlvEntry)
    → All IsByte src
    → ((parse_tlvs src ≡ ok es) ↔ (All IsTlv es × Distinct es × (src ≡ concat_map encode_tlv es)))
      × (((out : List TlvEntry) × (parse_tlvs src ≡ ok out)) ⊎ (parse_tlvs src ≡ err bad_frame))
parse_tlvs_iff src es bytes =
    let decodes = parse_tlvs-Decodes src bytes in
    (
      (Decodes-ok decodes, λ (all, distinct, e). rw e (parse_tlvs_reads es all distinct)),
      elim (Decodes-cases decodes) [
        | inl (out, returned, reads) ↦ inl (out, returned)
        | inr refuses ↦ inr refuses
      ],
    )
