-- ===== src/Wire/Tlv/Reads.antt =====
-- The TLV loop reads back a trailer of records of distinct types.
use pulse_go.Base.{
  ℕ, zero, suc, ◌+◌, ◌%◌, ◌^◌, ◌<◌, ◌≤◌, ◌≡◌, refl, ap, subst, ◌∙◌, arith, false, ◌||◌, List, [],
  ◌∷◌, ◌++◌, length, take, drop, concat_map, ◌==◌, append-nil, append_assoc, length-append,
  length-drop, take-append, le→ltb_false, lt→ltb, All,
}
use native.Mathlib.Nat.{mod-eq_of_lt}
use pulse_go.Go.{ok, slice, index, le_bytes, IsByte}
use pulse_go.Go.Bytes.{slice-add, le_uint-le_bytes, length-le_bytes}
use pulse_go.Wire.Decoder.{Decoder}
use pulse_go.Wire.Decoder.Parses.{IsAt, advance-IsAt}
use pulse_go.Wire.Tx.{put16}
use pulse_go.Wire.Tlv.{TlvEntry, has_type, parse_one, parse_from, parse_tlvs}

abbrev pub at : List ℕ → ℕ → Decoder
at src off = record { b = src; off = off }

abbrev pub encode_tlv : TlvEntry → List ℕ
encode_tlv e = e.typ ∷ (put16 (length e.value) ++ e.value)

-- A record that `putTLV` can write.
pub record IsTlv (e : TlvEntry) : Type 0 where
  pub typ : e.typ < 256
  pub small : length e.value < 2 ^ 16
  pub bytes : All IsByte e.value

-- No type stands in the list twice.
abbrev pub Distinct : List TlvEntry → Type 0
Distinct [] = Unit {0}
Distinct (e ∷ es) = (has_type e.typ es ≡ false) × Distinct es

-- No type of the second list stands in the first.
abbrev pub Fresh : List TlvEntry → List TlvEntry → Type 0
Fresh out [] = Unit {0}
Fresh out (e ∷ es) = (has_type e.typ out ≡ false) × Fresh out es

pub slice-at :
    (s rest src : List ℕ) (off : ℕ)
    → IsAt (s ++ rest) (at src off)
    → slice src off (off + length s) ≡ ok s
slice-at s rest src off h =
    slice-add src off (length s)
      (omega (arith, ap length h.ahead, length-drop off src, length-append s rest, h.inside))
    ∙ ap ok (ap (take (length s)) h.ahead ∙ take-append s rest)

pub index_at :
    (x : ℕ) (rest src : List ℕ) (off : ℕ) → drop off src ≡ x ∷ rest → index src off ≡ ok x
unfolding index
index_at x rest [] zero e = cc
index_at x rest [] (suc off) e = cc
index_at x rest (y ∷ src) zero e = cc
index_at x rest (y ∷ src) (suc off) e = index_at x rest src off e

length-encode_tlv : (e : TlvEntry) → length (encode_tlv e) ≡ 3 + length e.value
length-encode_tlv e = omega (
  arith,
  length-append (le_bytes 2 (length e.value % 2 ^ 16)) e.value,
  length-le_bytes 2 (length e.value % 2 ^ 16),
)

parse_one_reads :
    (e : TlvEntry) (rest src : List ℕ) (off : ℕ) (out : List TlvEntry)
    → IsTlv e
    → has_type e.typ out ≡ false
    → IsAt (encode_tlv e ++ rest) (at src off)
    → parse_one src off out ≡ ok (e, off + length (encode_tlv e))
unfolding parse_one
parse_one_reads e rest src off out h fresh d =
    let len : List ℕ = put16 (length e.value) in
    let l2 : length len ≡ 2 = length-le_bytes 2 (length e.value % 2 ^ 16) in
    let d₁ : IsAt (len ++ (e.value ++ rest)) (at src (off + 1)) =
      advance-IsAt (e.typ ∷ []) (len ++ (e.value ++ rest)) (at src off)
        (rw (append_assoc len e.value rest) at d) in
    let d₂ : IsAt (e.value ++ rest) (at src (off + 3)) =
      subst (λ k. IsAt (e.value ++ rest) (at src k)) {x = off + 1 + length len} {y = off + 3}
        (omega arith) (advance-IsAt len (e.value ++ rest) (at src (off + 1)) d₁) in
    let l : length src ≡ off + 3 + length e.value + length rest = omega (
      arith,
      ap length d₂.ahead,
      length-drop (off + 3) src,
      length-append e.value rest,
      d₂.inside,
    ) in
    let s₁ : slice src (off + 1) (off + 3) ≡ ok len =
      ap (slice src (off + 1)) {x = off + 3} {y = off + 1 + length len} (omega arith)
      ∙ slice-at len (e.value ++ rest) src (off + 1) d₁ in
    rw
      (
        le→ltb_false (length src) (off + 3) (omega arith),
        index_at e.typ _ src off d.ahead,
        s₁,
        le_uint-le_bytes 2 (length e.value % 2 ^ 16) (omega arith) ∙ ap ok (mod-eq_of_lt h.small),
        le→ltb_false (length src) (off + 3 + length e.value) (omega arith),
        fresh,
        slice-at e.value rest src (off + 3) d₂,
      )
      (ap (λ k. ok (e, k)) (omega (arith, length-encode_tlv e)))

pub has_type-append :
    (t : ℕ) (out : List TlvEntry) (e : TlvEntry)
    → has_type t (out ++ (e ∷ [])) ≡ (has_type t out || e.typ == t)
unfolding has_type
has_type-append t [] e = ground arith
has_type-append t (x ∷ out) e = ground (arith, has_type-append t out e)

Fresh-append :
    (out es : List TlvEntry) (e : TlvEntry)
    → Fresh out es
    → has_type e.typ es ≡ false
    → Fresh (out ++ (e ∷ [])) es
unfolding has_type
Fresh-append out [] e f h = tt
Fresh-append out (x ∷ es) e (f, fs) h =
    (ground (arith, has_type-append x.typ out e), Fresh-append out es e fs (ground arith))

parse_from_reads :
    (fuel : ℕ) (es : List TlvEntry) (src : List ℕ) (off : ℕ) (out : List TlvEntry)
    → length es ≤ fuel
    → All IsTlv es
    → Distinct es
    → Fresh out es
    → IsAt (concat_map encode_tlv es) (at src off)
    → parse_from fuel src off out ≡ ok (out ++ es)
unfolding parse_from
parse_from_reads zero [] src off out enough all distinct fresh d =
    rw
      (
        le→ltb_false off (length src) (omega (arith, ap length d.ahead, length-drop off src)),
        parse_from,
        append-nil,
      )
      refl
parse_from_reads (suc fuel) [] src off out enough all distinct fresh d =
    rw
      (
        le→ltb_false off (length src) (omega (arith, ap length d.ahead, length-drop off src)),
        parse_from,
        append-nil,
      )
      refl
parse_from_reads zero (e ∷ es) src off out enough all distinct fresh d = absurd (omega arith)
parse_from_reads (suc fuel) (e ∷ es) src off out enough (h, all) (new, distinct) (f, fresh) d =
    rw
      (
        lt→ltb off (length src) (omega (arith, ap length d.ahead, length-drop off src)),
        parse_from,
        parse_one_reads e (concat_map encode_tlv es) src off out h f d,
      )
      (parse_from_reads fuel es src (off + length (encode_tlv e)) (out ++ (e ∷ [])) (omega arith)
          all distinct (Fresh-append out es e fresh new)
          (advance-IsAt (encode_tlv e) (concat_map encode_tlv es) (at src off) d)
        ∙ ap ok (append_assoc out (e ∷ []) es))

Fresh-nil : (es : List TlvEntry) → Fresh [] es
unfolding has_type
Fresh-nil [] = tt
Fresh-nil (e ∷ es) = (refl, Fresh-nil es)

count-le : (es : List TlvEntry) → length es ≤ length (concat_map encode_tlv es)
count-le [] = omega arith
count-le (e ∷ es) = omega (
  arith,
  count-le es,
  length-append (put16 (length e.value) ++ e.value) (concat_map encode_tlv es),
)

-- A trailer of records of distinct types parses to those records, unknown types included.
pub parse_tlvs_reads :
    (es : List TlvEntry)
    → All IsTlv es
    → Distinct es
    → parse_tlvs (concat_map encode_tlv es) ≡ ok es
unfolding parse_tlvs
parse_tlvs_reads es all distinct =
    parse_from_reads (length (concat_map encode_tlv es)) es (concat_map encode_tlv es) 0 []
      (count-le es) all distinct (Fresh-nil es) (record { inside = omega arith; ahead = refl })
