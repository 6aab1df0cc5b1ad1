-- ===== src/Wire/Tx/Size.antt =====
-- How many bytes a transaction takes, and how many elements a decoder makes room for.
use pulse_go.Base.{
  ℕ, ◌+◌, ◌-◌, ◌*◌, ◌/◌, ◌^◌, ◌%◌, ◌≤◌, ◌≡◌, refl, ap, subst, ◌∙◌, arith, Bool-cases, inl, inr,
  List, [], ◌∷◌, ◌++◌, All, length, concat_map, length-append, if◌then◌else◌, ltb, ltb_false→le,
}
use native.Mathlib.Nat.{mul-suc, le-div_iff_mul-le}
use pulse_go.Base.{zero, suc, ◌==◌, ◌||◌}
use pulse_go.Errors.{bad_frame}
use pulse_go.Go.Decodes.{bind-ok}
use pulse_go.Go.{ok, err, IsByte, le_bytes}
use pulse_go.Go.Bytes.{length-le_bytes}
use pulse_go.Wire.Tx.{put16}
use pulse_go.Wire.Decoder.{Decoder, pure, lift, u16, remaining, count}
use pulse_go.Wire.Tx.{
  FullTx, Instruction, AddressTableLookup, max_full_tx_body, decode_full_tx, encode_full_tx, layout,
  put_vector, put_counted, encode_instruction, encode_lookup,
}
use pulse_go.Wire.Tx.Valid.{IsArray, IsInstruction, IsLookup, IsEncodable}
use pulse_go.Wire.Tx.Exact.{decode_full_tx_iff}

pub total {ℓ} : {A : Type ℓ} → (A → ℕ) → List A → ℕ
total size [] = 0
total size (x ∷ xs) = size x + total size xs

abbrev pub instruction_size : Instruction → ℕ
instruction_size ix = 5 + length ix.accounts + length ix.payload

abbrev pub lookup_size : AddressTableLookup → ℕ
lookup_size l = 36 + length l.writable_indexes + length l.readonly_indexes

-- 44 bytes of fixed fields and four counts of two bytes.
abbrev pub size : FullTx → ℕ
size ft =
    52
    + 64 * length ft.signatures
    + 32 * length ft.account_keys
    + total instruction_size ft.instructions
    + total lookup_size ft.address_table_lookups

length-concat_map :
    {A : Type 0} (P : A → Type 0) (enc : A → List ℕ) (measure : A → ℕ) (xs : List A)
    → ((x : A) → P x → length (enc x) ≡ measure x)
    → All P xs
    → length (concat_map enc xs) ≡ total measure xs
unfolding total
length-concat_map P enc measure [] h all = refl
length-concat_map P enc measure (x ∷ xs) h all =
    let here = h x all.0 in
    let rest = length-concat_map P enc measure xs h all.1 in
    rw (length-append (enc x) (concat_map enc xs)) (omega (arith, here, rest))

length-put16 : (v : ℕ) (bs : List ℕ) → length (put16 v ++ bs) ≡ 2 + length bs
length-put16 v bs =
    length-append (put16 v) bs ∙ ap (λ n. n + length bs) (length-le_bytes 2 (v % 2 ^ 16))

length-put_vector :
    {A : Type 0} (P : A → Type 0) (enc : A → List ℕ) (measure : A → ℕ) (xs : List A)
    → ((x : A) → P x → length (enc x) ≡ measure x)
    → All P xs
    → length (put_vector enc xs) ≡ 2 + total measure xs
unfolding put_vector
length-put_vector P enc measure xs h all =
    length-put16 (length xs) (concat_map enc xs)
    ∙ ap (λ n. 2 + n) (length-concat_map P enc measure xs h all)

length-put_counted : (bs : List ℕ) → length (put_counted bs) ≡ 2 + length bs
unfolding put_counted
length-put_counted bs = length-put16 (length bs) bs

total_const : {A : Type 0} (k : ℕ) (xs : List A) → total (λ x. k) xs ≡ k * length xs
unfolding total
total_const k [] = omega arith
total_const k (x ∷ xs) =
    let rest : total (λ x. k) xs ≡ k * length xs = total_const k xs in
    omega (arith, rest, mul-suc k (length xs))

length-encode_instruction :
    (ix : Instruction) → length (encode_instruction ix) ≡ instruction_size ix
unfolding encode_instruction
length-encode_instruction ix =
    rw
      (
        length-append (put_counted ix.accounts) (put_counted ix.payload),
        length-put_counted ix.accounts,
        length-put_counted ix.payload,
      )
      (omega arith)

length-encode_lookup :
    (l : AddressTableLookup) → IsLookup l → length (encode_lookup l) ≡ lookup_size l
unfolding encode_lookup
length-encode_lookup l p =
    rw
      (
        length-append l.account_key
            (put_counted l.writable_indexes ++ put_counted l.readonly_indexes),
        length-append (put_counted l.writable_indexes) (put_counted l.readonly_indexes),
        length-put_counted l.writable_indexes,
        length-put_counted l.readonly_indexes,
      )
      (omega (arith, p.account_key.0))

length-five :
    (a b c d e : List ℕ)
    → length (a ++ (b ++ (c ++ (d ++ e))))
      ≡ length a + (length b + (length c + (length d + length e)))
length-five a b c d e = rw (
  length-append a (b ++ (c ++ (d ++ e))),
  length-append b (c ++ (d ++ e)),
  length-append c (d ++ e),
  length-append d e,
)

length-layout : (flag : ℕ) (ft : FullTx) → IsEncodable ft → length (layout flag ft) ≡ size ft
unfolding layout
length-layout flag ft e =
    let signatures : length (put_vector (λ s. s) ft.signatures) ≡ 2 + 64 * length ft.signatures =
      length-put_vector (IsArray 64) (λ s. s) (λ s. 64) ft.signatures (λ s p. p.0) e.signatures.1
      ∙ ap (λ n. 2 + n) (total_const 64 ft.signatures) in
    let account_keys : length (put_vector (λ k. k) ft.account_keys)
        ≡ 2 + 32 * length ft.account_keys =
      length-put_vector (IsArray 32) (λ k. k) (λ k. 32) ft.account_keys (λ k p. p.0)
        e.account_keys.1
      ∙ ap (λ n. 2 + n) (total_const 32 ft.account_keys) in
    let instructions =
      length-put_vector IsInstruction encode_instruction instruction_size ft.instructions
        (λ ix p. length-encode_instruction ix) e.instructions.1 in
    let lookups =
      length-put_vector IsLookup encode_lookup lookup_size ft.address_table_lookups
        length-encode_lookup e.address_table_lookups.1 in
    let tail =
      length-five ft.recent_blockhash (put_vector (λ s. s) ft.signatures)
        (put_vector (λ k. k) ft.account_keys) (put_vector encode_instruction ft.instructions)
        (put_vector encode_lookup ft.address_table_lookups) in
    rw (length-append (le_bytes 8 ft.slot) _) (
      omega (
        arith,
        length-le_bytes 8 ft.slot,
        tail,
        e.recent_blockhash.0,
        signatures,
        account_keys,
        instructions,
        lookups,
      ))

-- `DecodeFullTx` makes no more than its input: what it returns takes, field by field and element by
-- element, exactly the bytes of the input, which are 64 KiB at most.
pub decode_full_tx-size :
    (b : List ℕ) (ft : FullTx)
    → All IsByte b
    → decode_full_tx b ≡ ok ft
    → (length b ≡ size ft) × (size ft ≤ max_full_tx_body)
decode_full_tx-size b ft bytes h =
    let (fits, l) = (decode_full_tx_iff b ft bytes).0 h in
    let exact = ap length l.bytes ∙ length-layout l.flag ft l.encodable in
    (exact, omega (arith, exact, fits))

-- `EncodeFullTx` writes exactly that many bytes.
pub encode_full_tx-size : (ft : FullTx) → IsEncodable ft → length (encode_full_tx ft) ≡ size ft
unfolding encode_full_tx
encode_full_tx-size ft e = length-layout (if ft.versioned then 1 else 0) ft e

check_room :
    (k v n : ℕ) (d d' : Decoder)
    → (if k == 0 || ltb ((length d.b - d.off) / k) v then lift (err bad_frame) else pure v) d
      ≡ ok (n, d')
    → n * k ≤ length d'.b - d'.off
check_room zero v n d d' h = absurd (ground (arith, h))
check_room (suc k) v n d d' h = elim (Bool-cases (ltb ((length d.b - d.off) / suc k) v)) [
  | inl over ↦ absurd (ground (arith, over, h))
  | inr fits ↦
      let here : ℕ × Decoder = (v, d) in
      let there : ℕ × Decoder = (n, d') in
      let got : ok here ≡ ok there = ground (arith, fits, h) in
      let number : v ≡ n = cc got in
      let place : d ≡ d' = cc got in
      let room : v * suc k ≤ length d.b - d.off =
        (le-div_iff_mul-le (omega arith)).0 (ltb_false→le ((length d.b - d.off) / suc k) v fits) in
      subst (λ x. x * suc k ≤ length d'.b - d'.off) number
        (subst (λ x. v * suc k ≤ length x.b - x.off) place room)
]

-- Room is made for no more elements than can still come: where `count` returns, the number times the
-- least size of an element is at most the number of bytes left.
pub count_bound : (k n : ℕ) (d d' : Decoder) → count k d ≡ ok (n, d') → n * k ≤ length d'.b - d'.off
unfolding count remaining
count_bound k n d d' h =
    let ((v, d₁), _, rest) =
      bind-ok (u16 d)
        (λ (v, d₁).
          (if k == 0 || ltb ((length d₁.b - d₁.off) / k) v then lift (err bad_frame) else pure v)
            d₁)
        (n, d') h in
    check_room k v n d₁ d' rest
