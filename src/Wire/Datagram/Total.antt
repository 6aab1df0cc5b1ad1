-- ===== src/Wire/Datagram/Total.antt =====
-- The datagram decoder on any input.
use pulse_go.Base.{
  ℕ, ◌+◌, ◌<◌, ◌≤◌, ◌≡◌, ◌≢◌, refl, sym, ◌∙◌, ap, subst, arith, List, [], ◌∷◌, ◌++◌, length, take,
  drop, replicate, ltb, ◌==◌, All, All-drop, All-take, inl, inr, ◌⊎◌, ltb_false→le, ltb→lt,
  Bool-cases, ==_iff, length-drop, length-take, split_at, append_assoc,
}
use pulse_go.Errors.{bad_frame}
use pulse_go.Go.{Result, ok, err, slice, index, le_uint, le_bytes, le_value, IsByte, IsU64}
use pulse_go.Go.Bytes.{slice-add, le_uint_full, le_value-lt, le_bytes-le_value, copy_full}
use pulse_go.Wire.Tx.Valid.{IsArray}
use pulse_go.Wire.Datagram.{
  Datagram, sig_first, heartbeat, unknown_datagram, dg_sig_first, dg_heartbeat, dg_sig_first_min,
  dg_heartbeat_min, decode_sig_first, decode_heartbeat, decode_by_tag, decode_datagram,
}
use pulse_go.Wire.Datagram.Laws.{sig_first_bytes, heartbeat_bytes}

-- What a decoded datagram says of the bytes.
abbrev pub Shows : List ℕ → Datagram → Type 0
Shows src (sig_first sf) =
    IsU64 sf.slot
    × IsU64 sf.seq
    × IsArray 64 sf.signature
    × (src ≡ sig_first_bytes sf ++ drop dg_sig_first_min src)
Shows src (heartbeat hb) =
    IsU64 hb.server_ts_ms
    × IsU64 hb.highest_seq
    × (src ≡ heartbeat_bytes hb ++ drop dg_heartbeat_min src)
Shows src (unknown_datagram t) = (t ≢ dg_sig_first) × (t ≢ dg_heartbeat) × (src ≡ t ∷ drop 1 src)

-- The inputs that are no datagram: nothing, or a known tag and too few bytes.
abbrev pub IsShort : List ℕ → Type 0
IsShort [] = Unit {0}
IsShort (t ∷ rest) =
    ((t ≡ dg_sig_first) × (length (t ∷ rest) < dg_sig_first_min))
    ⊎ ((t ≡ dg_heartbeat) × (length (t ∷ rest) < dg_heartbeat_min))

-- `Uint64(src[off:off+8])`
field64 :
    (src : List ℕ) (off : ℕ)
    → All IsByte src
    → off + 8 ≤ length src
    → (v : ℕ) × IsU64 v
      × (slice src off (off + 8) ≡ ok (le_bytes 8 v))
      × (le_uint 8 (le_bytes 8 v) ≡ ok v)
      × (drop off src ≡ le_bytes 8 v ++ drop (off + 8) src)
field64 src off bytes h =
    let s = take 8 (drop off src) in
    let l : length s ≡ 8 = omega (arith, length-take 8 (drop off src), length-drop off src) in
    let b : All IsByte s = All-take IsByte 8 _ (All-drop IsByte off src bytes) in
    let same : le_bytes 8 (le_value s) ≡ s = rw l at (le_bytes-le_value s b) in
    (
      le_value s,
      rw l at (le_value-lt s b),
      slice-add src off 8 h ∙ ap ok (sym same),
      rw same (le_uint_full 8 s l),
      split_at src off 8 ∙ ap (λ t. t ++ drop (off + 8) src) (sym same),
    )

abbrev Answers : List ℕ → Result Datagram → Type 0
Answers src r = ((d : Datagram) × (r ≡ ok d) × Shows src d) ⊎ ((r ≡ err bad_frame) × IsShort src)

sig_first_Answers :
    (rest : List ℕ)
    → All IsByte (dg_sig_first ∷ rest)
    → Answers (dg_sig_first ∷ rest) (decode_sig_first (dg_sig_first ∷ rest))
unfolding decode_sig_first
sig_first_Answers rest bytes =
    let src = dg_sig_first ∷ rest in
    elim (Bool-cases (ltb (length src) dg_sig_first_min)) [
      | inl short ↦ inr (rw short refl, inl (refl, ltb→lt _ _ short))
      | inr long ↦
          let room : dg_sig_first_min ≤ length src = ltb_false→le _ _ long in
          let (v, hv, sv, rv, ev) = field64 src 1 bytes (omega arith) in
          let (w, hw, sw, rw', ew) = field64 src 9 bytes (omega arith) in
          let sig = take 64 (drop 17 src) in
          let l : length sig ≡ 64 =
            omega (arith, length-take 64 (drop 17 src), length-drop 17 src) in
          inl (
            sig_first (record { slot = v; seq = w; signature = sig }),
            rw
                (
                  long,
                  sv,
                  rv,
                  sw,
                  rw',
                  slice-add src 17 64 room,
                  copy_full (replicate 64 0) sig (sym l),
                )
                refl,
            (
              hv,
              hw,
              (l, All-take IsByte 64 _ (All-drop IsByte 17 src bytes)),
              ap (λ t. dg_sig_first ∷ t)
                  (ev
                    ∙ ap (λ t. le_bytes 8 v ++ t)
                        (ew ∙ ap (λ t. le_bytes 8 w ++ t) (split_at src 17 64))
                    ∙ sym (
                        append_assoc (le_bytes 8 v) (le_bytes 8 w ++ sig) _
                        ∙ ap (λ t. le_bytes 8 v ++ t) (append_assoc (le_bytes 8 w) sig _))),
            ),
          )
    ]

heartbeat_Answers :
    (rest : List ℕ)
    → All IsByte (dg_heartbeat ∷ rest)
    → Answers (dg_heartbeat ∷ rest) (decode_heartbeat (dg_heartbeat ∷ rest))
unfolding decode_heartbeat
heartbeat_Answers rest bytes =
    let src = dg_heartbeat ∷ rest in
    elim (Bool-cases (ltb (length src) dg_heartbeat_min)) [
      | inl short ↦ inr (rw short refl, inr (refl, ltb→lt _ _ short))
      | inr long ↦
          let room : dg_heartbeat_min ≤ length src = ltb_false→le _ _ long in
          let (v, hv, sv, rv, ev) = field64 src 1 bytes (omega arith) in
          let (w, hw, sw, rw', ew) = field64 src 9 bytes (omega arith) in
          inl (
            heartbeat (record { server_ts_ms = v; highest_seq = w }),
            rw (long, sv, rv, sw, rw') refl,
            (
              hv,
              hw,
              ap (λ t. dg_heartbeat ∷ t)
                  (ev
                    ∙ ap (λ t. le_bytes 8 v ++ t) ew
                    ∙ sym (append_assoc (le_bytes 8 v) (le_bytes 8 w) _)),
            ),
          )
    ]

tag_Answers :
    (t : ℕ) (rest : List ℕ)
    → All IsByte (t ∷ rest)
    → Answers (t ∷ rest) (decode_by_tag t (t ∷ rest))
unfolding decode_by_tag
tag_Answers t rest bytes = elim (Bool-cases (t == dg_sig_first)) [
  | inl one ↦
      let e = (==_iff t dg_sig_first).0 one in
      rw one (
        subst (λ u. All IsByte (u ∷ rest) → Answers (u ∷ rest) (decode_sig_first (u ∷ rest)))
          (sym e) (sig_first_Answers rest) bytes)
  | inr not_one ↦ elim (Bool-cases (t == dg_heartbeat)) [
    | inl two ↦
        let e = (==_iff t dg_heartbeat).0 two in
        rw (not_one, two)
          (subst (λ u. All IsByte (u ∷ rest) → Answers (u ∷ rest) (decode_heartbeat (u ∷ rest)))
            (sym e) (heartbeat_Answers rest) bytes)
    | inr not_two ↦
        inl (unknown_datagram t, rw (not_one, not_two) refl, (ground arith, ground arith, refl))
  ]
]

-- On bytes `DecodeDatagram` never panics. It refuses with `ErrBadFrame` only the empty input and a
-- known tag with too few bytes; anything else is a datagram whose layout the input begins with, or
-- whose tag is unknown.
pub decode_datagram_total : (src : List ℕ) → All IsByte src → Answers src (decode_datagram src)
unfolding decode_datagram index
decode_datagram_total [] bytes = inr (refl, tt)
decode_datagram_total (t ∷ rest) bytes = tag_Answers t rest bytes
