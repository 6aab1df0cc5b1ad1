-- ===== src/Wire/Tlv.antt =====
-- The TLV trailer of frame.go: `parseTLVs`, `putTLV`, `flatten32`, `unflatten32`.
pub mod Reads
pub mod Exact
pub mod Arrays
use pulse_go.Base.{
  ℕ, zero, suc, ◌+◌, ◌*◌, ◌/◌, ◌%◌, ◌^◌, Bool, true, false, not, ◌||◌, List, [], ◌∷◌, ◌++◌, length,
  take, drop, concat_map, ltb, ◌==◌, if◌then◌else◌,
}
use pulse_go.Errors.{bad_frame}
use pulse_go.Go.{Result, ok, err, panic, ◌>>=◌, ◌>>◌, reject_if, slice, index, le_uint, le_bytes}
use pulse_go.Wire.Tx.{array_of, put16}

pub record TlvEntry : Type 0 where
  pub typ : ℕ
  pub value : List ℕ

-- `for _, e := range out { if e.typ == t { … } }`
unfoldable pub has_type : ℕ → List TlvEntry → Bool
has_type t [] = false
has_type t (e ∷ out) = e.typ == t || has_type t out

-- One round of the loop at `off < len(src)`: the record there, and the offset behind it.
unfoldable pub parse_one : List ℕ → ℕ → List TlvEntry → Result (TlvEntry × ℕ)
parse_one src off out = do
  reject_if (ltb (length src) (off + 3)) bad_frame
  t ← index src off
  len ← slice src (off + 1) (off + 3)
  l ← le_uint 2 len
  let start = off + 3
  let end = start + l
  reject_if (ltb (length src) end) bad_frame
  reject_if (has_type t out) bad_frame
  value ← slice src start end
  ok (record { typ = t; value = value }, end)

-- The loop with fuel for its rounds; out of fuel it says `panic`, which the source never does there.
unfoldable pub parse_from : ℕ → List ℕ → ℕ → List TlvEntry → Result (List TlvEntry)
parse_from zero src off out = if ltb off (length src) then panic else ok out
parse_from (suc fuel) src off out = elim (ltb off (length src)) [
  | false ↦ ok out
  | true ↦ parse_one src off out >>= λ (e, end). parse_from fuel src end (out ++ (e ∷ []))
]

-- Each round takes three bytes at least, so `length src` rounds are enough.
unfoldable pub parse_tlvs : List ℕ → Result (List TlvEntry)
parse_tlvs src = parse_from (length src) src 0 []

unfoldable pub put_tlv : List ℕ → ℕ → List ℕ → List ℕ
put_tlv buf t value = buf ++ (t ∷ (put16 (length value) ++ value))

unfoldable pub flatten32 : List (List ℕ) → List ℕ
flatten32 addrs = concat_map (λ a. a) addrs

-- `for i := range out`, from round `i` on with `n` rounds left.
unfoldable pub unflatten_from : ℕ → ℕ → List ℕ → Result (List (List ℕ))
unflatten_from zero i src = ok []
unflatten_from (suc n) i src = do
  s ← slice src (i * 32) ((i + 1) * 32)
  rest ← unflatten_from n (i + 1) src
  ok (array_of 32 s ∷ rest)

unfoldable pub unflatten32 : List ℕ → Result (List (List ℕ))
unflatten32 src = do
  reject_if (not (length src % 32 == 0)) bad_frame
  unflatten_from (length src / 32) 0 src
