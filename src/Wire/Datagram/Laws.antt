-- ===== src/Wire/Datagram/Laws.antt =====
-- Datagrams: the layouts, round trips with trailing bytes, and every input.
use pulse_go.Base.{
  ℕ, ◌+◌, ◌≤◌, ◌≡◌, refl, sym, ◌∙◌, ap, arith, List, [], ◌∷◌, ◌++◌, length, take, drop, replicate,
  le→ltb_false, length-drop, length-append, append_assoc, append-nil, take-append, drop-append,
  le→leb, drop_all, drop-drop, subst,
}
use pulse_go.Go.{Result, ok, ◌>>=◌, slice, index, le_bytes, IsU64}
use pulse_go.Go.Bytes.{le_uint-le_bytes, length-le_bytes, copy_full}
use pulse_go.Wire.Decoder.Parses.{IsAt, advance-IsAt}
use pulse_go.Wire.Tlv.Reads.{at, slice-at}
use pulse_go.Wire.Datagram.{
  SigFirst, DatagramHeartbeat, sig_first, heartbeat, dg_sig_first, dg_heartbeat, dg_sig_first_min,
  dg_heartbeat_min, write_at, encode_dg_sig_first, encode_dg_heartbeat, decode_sig_first,
  decode_heartbeat, decode_by_tag, decode_datagram,
}

-- The bytes of a sig-first datagram.
abbrev pub sig_first_bytes : SigFirst → List ℕ
sig_first_bytes sf = dg_sig_first ∷ (le_bytes 8 sf.slot ++ (le_bytes 8 sf.seq ++ sf.signature))

abbrev pub heartbeat_bytes : DatagramHeartbeat → List ℕ
heartbeat_bytes hb = dg_heartbeat ∷ (le_bytes 8 hb.server_ts_ms ++ le_bytes 8 hb.highest_seq)

write-next :
    (n : ℕ) (pre s tail : List ℕ)
    → length pre ≡ n
    → length s ≤ length tail
    → write_at n s (pre ++ tail) ≡ ok ((pre ++ s) ++ drop (length s) tail)
unfolding write_at
write-next n pre s tail e h =
    let front : take n (pre ++ tail) ≡ pre = rw (← e) (take-append pre tail) in
    let behind : drop (n + length s) (pre ++ tail) ≡ drop (length s) tail =
      rw (← e, ← drop-drop (length pre) (length s) (pre ++ tail), drop-append pre tail) refl in
    rw
      (
        le→leb (n + length s) (length (pre ++ tail)) (omega (arith, length-append pre tail)),
        front,
        behind,
        append_assoc,
      )
      refl

-- A tag and two 64-bit numbers, written over the first 17 bytes of a buffer, and what follows.
write_head {ℓ} :
    {A : Type ℓ} (tag v w : ℕ) (buf : List ℕ) (k : List ℕ → Result A)
    → dg_heartbeat_min ≤ length buf
    → (do
      b₁ ← write_at 0 (tag ∷ []) buf
      b₂ ← write_at 1 (le_bytes 8 v) b₁
      b₃ ← write_at 9 (le_bytes 8 w) b₂
      k b₃)
      ≡ k ((tag ∷ (le_bytes 8 v ++ le_bytes 8 w)) ++ drop 17 buf)
write_head tag v w buf k h =
    let lv = length-le_bytes 8 v in
    let lw = length-le_bytes 8 w in
    let l₁ = length-drop 1 buf in
    let l₂ = length-drop 8 (drop 1 buf) in
    rw
      (
        write-next 0 [] (tag ∷ []) buf refl (omega arith),
        write-next 1 (tag ∷ []) (le_bytes 8 v) (drop 1 buf) refl (omega arith),
        lv,
        write-next 9 (tag ∷ le_bytes 8 v) (le_bytes 8 w) (drop 8 (drop 1 buf)) (omega arith)
            (omega arith),
        lw,
        drop-drop 1 8 buf,
        drop-drop 9 8 buf,
      )
      refl

-- `EncodeDGSigFirst` overwrites all of a buffer of 81 bytes with the layout.
encode_dg_sig_first_lem :
    (buf : List ℕ) (sf : SigFirst)
    → length buf ≡ dg_sig_first_min
    → length sf.signature ≡ 64
    → encode_dg_sig_first buf sf.slot sf.seq sf.signature ≡ ok (sig_first_bytes sf)
unfolding encode_dg_sig_first
encode_dg_sig_first_lem buf sf hb hs =
    let head = dg_sig_first ∷ (le_bytes 8 sf.slot ++ le_bytes 8 sf.seq) in
    let l : length head ≡ 17 = omega (
      arith,
      length-append (le_bytes 8 sf.slot) (le_bytes 8 sf.seq),
      length-le_bytes 8 sf.slot,
      length-le_bytes 8 sf.seq,
    ) in
    let ld = length-drop 17 buf in
    write_head dg_sig_first sf.slot sf.seq buf (write_at 17 sf.signature) (omega arith)
    ∙ write-next 17 head sf.signature (drop 17 buf) l (omega arith)
    ∙ rw (drop_all (length sf.signature) (drop 17 buf) (omega arith), append-nil, append_assoc) refl

-- `EncodeDGHeartbeat` overwrites all of a buffer of 17 bytes with the layout.
encode_dg_heartbeat_lem :
    (buf : List ℕ) (hb : DatagramHeartbeat)
    → length buf ≡ dg_heartbeat_min
    → encode_dg_heartbeat buf hb.server_ts_ms hb.highest_seq ≡ ok (heartbeat_bytes hb)
unfolding encode_dg_heartbeat
encode_dg_heartbeat_lem buf hb h =
    let lv = length-le_bytes 8 hb.server_ts_ms in
    let lw = length-le_bytes 8 hb.highest_seq in
    let l₁ = length-drop 1 buf in
    let l₂ = length-drop 8 (drop 1 buf) in
    rw
      (
        write-next 0 [] (dg_heartbeat ∷ []) buf refl (omega arith),
        write-next 1 (dg_heartbeat ∷ []) (le_bytes 8 hb.server_ts_ms) (drop 1 buf) refl
            (omega arith),
        lv,
        write-next 9 (dg_heartbeat ∷ le_bytes 8 hb.server_ts_ms) (le_bytes 8 hb.highest_seq)
            (drop 8 (drop 1 buf)) (omega arith) (omega arith),
        lw,
        drop_all 8 (drop 8 (drop 1 buf)) (omega arith),
        append-nil,
      )
      refl

-- Two 64-bit numbers behind a tag are read back.
read_head :
    (tag v w : ℕ) (rest : List ℕ)
    → let src = tag ∷ (le_bytes 8 v ++ (le_bytes 8 w ++ rest)) in
      (slice src 1 9 ≡ ok (le_bytes 8 v))
      × (slice src 9 17 ≡ ok (le_bytes 8 w))
      × IsAt rest (at src 17)
read_head tag v w rest =
    let src = tag ∷ (le_bytes 8 v ++ (le_bytes 8 w ++ rest)) in
    let lv = length-le_bytes 8 v in
    let lw = length-le_bytes 8 w in
    let d₁ : IsAt (le_bytes 8 v ++ (le_bytes 8 w ++ rest)) (at src 1) = record {
      inside = omega arith;
      ahead = refl;
    } in
    let d₂ : IsAt (le_bytes 8 w ++ rest) (at src 9) =
      subst (λ k. IsAt (le_bytes 8 w ++ rest) (at src k)) {x = 1 + length (le_bytes 8 v)} {y = 9}
        (omega arith) (advance-IsAt (le_bytes 8 v) (le_bytes 8 w ++ rest) (at src 1) d₁) in
    let d₃ : IsAt rest (at src 17) =
      subst (λ k. IsAt rest (at src k)) {x = 9 + length (le_bytes 8 w)} {y = 17} (omega arith)
        (advance-IsAt (le_bytes 8 w) rest (at src 9) d₂) in
    (
      ap (slice src 1) {x = 9} {y = 1 + length (le_bytes 8 v)} (omega arith)
          ∙ slice-at (le_bytes 8 v) (le_bytes 8 w ++ rest) src 1 d₁,
      ap (slice src 9) {x = 17} {y = 9 + length (le_bytes 8 w)} (omega arith)
          ∙ slice-at (le_bytes 8 w) rest src 9 d₂,
      d₃,
    )

-- Behind the layout of a sig-first datagram any bytes may follow: it decodes to its fields.
pub decode_datagram-sig_first :
    (sf : SigFirst) (extra : List ℕ)
    → IsU64 sf.slot
    → IsU64 sf.seq
    → length sf.signature ≡ 64
    → decode_datagram (sig_first_bytes sf ++ extra) ≡ ok (sig_first sf)
unfolding decode_datagram decode_by_tag decode_sig_first index
decode_datagram-sig_first sf extra h₁ h₂ h₃ =
    let (s₁, s₂, d) = read_head dg_sig_first sf.slot sf.seq (sf.signature ++ extra) in
    let src =
      dg_sig_first ∷ (le_bytes 8 sf.slot ++ (le_bytes 8 sf.seq ++ (sf.signature ++ extra))) in
    let s₃ : slice src 17 81 ≡ ok sf.signature =
      ap (slice src 17) {x = 81} {y = 17 + length sf.signature} (omega arith)
      ∙ slice-at sf.signature extra src 17 d in
    let long : dg_sig_first_min ≤ length src =
      omega (
        arith,
        d.inside,
        ap length d.ahead,
        length-drop 17 src,
        length-append sf.signature extra,
      ) in
    ap (λ t. decode_sig_first (dg_sig_first ∷ t))
      (append_assoc (le_bytes 8 sf.slot) (le_bytes 8 sf.seq ++ sf.signature) extra
        ∙ ap (λ t. le_bytes 8 sf.slot ++ t) (append_assoc (le_bytes 8 sf.seq) sf.signature extra))
    ∙ rw
        (
          le→ltb_false (length src) dg_sig_first_min long,
          s₁,
          le_uint-le_bytes 8 sf.slot h₁,
          s₂,
          le_uint-le_bytes 8 sf.seq h₂,
          s₃,
          copy_full (replicate 64 0) sf.signature (sym h₃),
        )
        refl

decode_datagram-heartbeat :
    (hb : DatagramHeartbeat) (extra : List ℕ)
    → IsU64 hb.server_ts_ms
    → IsU64 hb.highest_seq
    → decode_datagram (heartbeat_bytes hb ++ extra) ≡ ok (heartbeat hb)
unfolding decode_datagram decode_by_tag decode_heartbeat index
decode_datagram-heartbeat hb extra h₁ h₂ =
    let (s₁, s₂, d) = read_head dg_heartbeat hb.server_ts_ms hb.highest_seq extra in
    let src = dg_heartbeat ∷ (le_bytes 8 hb.server_ts_ms ++ (le_bytes 8 hb.highest_seq ++ extra)) in
    let long : dg_heartbeat_min ≤ length src = d.inside in
    ap (λ t. decode_heartbeat (dg_heartbeat ∷ t))
      (append_assoc (le_bytes 8 hb.server_ts_ms) (le_bytes 8 hb.highest_seq) extra)
    ∙ rw
        (
          le→ltb_false (length src) dg_heartbeat_min long,
          s₁,
          le_uint-le_bytes 8 hb.server_ts_ms h₁,
          s₂,
          le_uint-le_bytes 8 hb.highest_seq h₂,
        )
        refl

-- A sig-first datagram that was encoded into a buffer of 81 bytes decodes to its fields, whatever
-- bytes are added behind it.
pub sig_first_roundtrip :
    (buf : List ℕ) (sf : SigFirst) (extra : List ℕ)
    → length buf ≡ dg_sig_first_min
    → IsU64 sf.slot
    → IsU64 sf.seq
    → length sf.signature ≡ 64
    → (do b ← encode_dg_sig_first buf sf.slot sf.seq sf.signature; decode_datagram (b ++ extra))
      ≡ ok (sig_first sf)
sig_first_roundtrip buf sf extra hb h₁ h₂ h₃ =
    rw (encode_dg_sig_first_lem buf sf hb h₃) (decode_datagram-sig_first sf extra h₁ h₂ h₃)

-- A heartbeat that was encoded into a buffer of 17 bytes decodes to its fields, whatever bytes are
-- added behind it.
pub heartbeat_roundtrip :
    (buf : List ℕ) (hb : DatagramHeartbeat) (extra : List ℕ)
    → length buf ≡ dg_heartbeat_min
    → IsU64 hb.server_ts_ms
    → IsU64 hb.highest_seq
    → (do b ← encode_dg_heartbeat buf hb.server_ts_ms hb.highest_seq; decode_datagram (b ++ extra))
      ≡ ok (heartbeat hb)
heartbeat_roundtrip buf hb extra h h₁ h₂ =
    rw (encode_dg_heartbeat_lem buf hb h) (decode_datagram-heartbeat hb extra h₁ h₂)
