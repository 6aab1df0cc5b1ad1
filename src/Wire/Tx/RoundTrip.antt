-- ===== src/Wire/Tx/RoundTrip.antt =====
-- Decoding what was encoded.
use pulse_go.Base.{
  ℕ, ◌+◌, ◌%◌, ◌^◌, ◌<◌, ◌≤◌, ◌≡◌, refl, ap, sym, subst, ◌∙◌, arith, Bool, true, false, not, List,
  [], ◌∷◌, ◌++◌, length, replicate, length-replicate, length-append, append-nil, All, All-map, ◌==◌,
  if◌then◌else◌, le→ltb_false, ==_iff,
}
use native.Mathlib.Nat.{mod-eq_of_lt}
use pulse_go.Go.{ok, le_bytes}
use pulse_go.Go.Bytes.{copy_full, length-le_bytes}
use pulse_go.Wire.Decoder.{M, u8, take_bytes, read_vector}
use pulse_go.Wire.Decoder.Parses.{
  Parses, Parses-bind, Parses-map, Parses-take_bytes, Parses-u8, Parses-u16, Parses-u64,
  Parses-read_vector,
}
use pulse_go.Wire.Tx.{
  Instruction, AddressTableLookup, FullTx, max_full_tx_body, array_of, read_array, read_bytes,
  read_instruction, read_lookup, read_body, decode_full_tx_prefix, decode_full_tx, put_counted,
  encode_instruction, encode_lookup, put_vector, layout, encode_full_tx,
}
use pulse_go.Wire.Tx.Valid.{IsArray, IsInstruction, IsLookup, IsEncodable}

Parses-byte : (v : ℕ) → v < 256 → Parses u8 ((v % 256) ∷ []) v
Parses-byte v h = rw (mod-eq_of_lt h) (Parses-u8 v)

Parses-read_array : (n : ℕ) (s : List ℕ) → length s ≡ n → Parses (read_array n) s s
unfolding read_array
Parses-read_array n s h =
    subst (Parses (read_array n) s) (copy_full (replicate n 0) s (length-replicate n 0 ∙ sym h))
      (Parses-map (array_of n) (take_bytes n) s (Parses-take_bytes n s h))

Parses-read_bytes : (s : List ℕ) → length s < 2 ^ 16 → Parses read_bytes (put_counted s) s
unfolding read_bytes put_counted
Parses-read_bytes s h = rw (mod-eq_of_lt h) (
    Parses-bind _ (le_bytes 2 (length s)) s (Parses-u16 (length s) h)
      (Parses-take_bytes (length s) s refl))

Parses-read_instruction :
    (ix : Instruction) → IsInstruction ix → Parses read_instruction (encode_instruction ix) ix
unfolding read_instruction encode_instruction
Parses-read_instruction ix h =
    Parses-bind _ ((ix.program_id_index % 256) ∷ []) _
      (Parses-byte ix.program_id_index h.program_id_index)
      (Parses-bind _ (put_counted ix.accounts) (put_counted ix.payload)
        (Parses-read_bytes ix.accounts h.accounts.0)
        (Parses-map _ read_bytes (put_counted ix.payload)
          (Parses-read_bytes ix.payload h.payload.0)))

Parses-read_lookup : (l : AddressTableLookup) → IsLookup l → Parses read_lookup (encode_lookup l) l
unfolding read_lookup encode_lookup
Parses-read_lookup l h =
    Parses-bind _ l.account_key _ (Parses-take_bytes 32 l.account_key h.account_key.0) (
      Parses-bind _ (put_counted l.writable_indexes) (put_counted l.readonly_indexes)
        (Parses-read_bytes l.writable_indexes h.writable_indexes.0)
        (rw (copy_full (replicate 32 0) l.account_key (sym h.account_key.0)) (
          Parses-map _ read_bytes (put_counted l.readonly_indexes)
            (Parses-read_bytes l.readonly_indexes h.readonly_indexes.0))))

module _ {ℓ κ} {A : Type ℓ} {P : A → Type κ} (enc : A → List ℕ) (element : M A) (k : ℕ) where
  -- A counted sequence, if each element reads back what it writes, at least `k` bytes.
  Parses-put_vector :
      (xs : List A)
      → 0 < k
      → ((x : A) → P x → Parses element (enc x) x)
      → ((x : A) → P x → k ≤ length (enc x))
      → (length xs < 2 ^ 16) × All P xs
      → Parses (read_vector k element) (put_vector enc xs) xs
  unfolding put_vector
  Parses-put_vector xs pos parses long (small, all) =
      rw (mod-eq_of_lt small) (
        Parses-read_vector enc element k xs pos small (All-map long xs all) (All-map parses xs all))

length-put_counted : (s : List ℕ) → length (put_counted s) ≡ 2 + length s
unfolding put_counted
length-put_counted s =
    omega (
      arith,
      length-append (le_bytes 2 (length s % 2 ^ 16)) s,
      length-le_bytes 2 (length s % 2 ^ 16),
    )

instruction_size : (ix : Instruction) → IsInstruction ix → 5 ≤ length (encode_instruction ix)
unfolding encode_instruction
instruction_size ix h = omega (
  arith,
  length-append (put_counted ix.accounts) (put_counted ix.payload),
  length-put_counted ix.accounts,
  length-put_counted ix.payload,
)

lookup_size : (l : AddressTableLookup) → IsLookup l → 36 ≤ length (encode_lookup l)
unfolding encode_lookup
lookup_size l h = omega (
  arith,
  length-append l.account_key (put_counted l.writable_indexes ++ put_counted l.readonly_indexes),
  length-append (put_counted l.writable_indexes) (put_counted l.readonly_indexes),
  length-put_counted l.writable_indexes,
  length-put_counted l.readonly_indexes,
)

Parses-arrays :
    (n : ℕ) (xs : List (List ℕ))
    → 0 < n
    → (length xs < 2 ^ 16) × All (IsArray n) xs
    → Parses (read_vector n (read_array n)) (put_vector (λ s. s) xs) xs
Parses-arrays n xs pos h =
    Parses-put_vector (λ s. s) (read_array n) n xs pos (λ s a. Parses-read_array n s a.0)
      (λ s a. omega arith) h

-- In front of anything, the laid out fields read back; `versioned` is whether the flag is not 0.
pub Parses-read_body :
    (flag : ℕ) (ft : FullTx)
    → IsEncodable ft
    → Parses read_body (layout flag ft) (record ft { versioned = not (flag == 0) })
unfolding read_body layout
Parses-read_body flag ft h = Parses-bind _ (le_bytes 8 ft.slot) _ (Parses-u64 ft.slot h.slot) (
    Parses-bind _ ((ft.num_required_signatures % 256) ∷ []) _
      (Parses-byte ft.num_required_signatures h.num_required_signatures)
      (Parses-bind _ ((ft.num_readonly_signed_accounts % 256) ∷ []) _
        (Parses-byte ft.num_readonly_signed_accounts h.num_readonly_signed_accounts)
        (Parses-bind _ ((ft.num_readonly_unsigned_account % 256) ∷ []) _
          (Parses-byte ft.num_readonly_unsigned_account h.num_readonly_unsigned_account)
          (Parses-bind _ (flag ∷ []) _ (Parses-u8 flag) (
            Parses-bind _ ft.recent_blockhash _
              (Parses-read_array 32 ft.recent_blockhash h.recent_blockhash.0)
              (Parses-bind _ (put_vector (λ s. s) ft.signatures) _
                (Parses-arrays 64 ft.signatures (omega arith) h.signatures)
                (Parses-bind _ (put_vector (λ s. s) ft.account_keys) _
                  (Parses-arrays 32 ft.account_keys (omega arith) h.account_keys)
                  (Parses-bind _ (put_vector encode_instruction ft.instructions) _
                    (Parses-put_vector encode_instruction read_instruction 5 ft.instructions
                      (omega arith) Parses-read_instruction instruction_size h.instructions)
                    (Parses-map _ (read_vector 36 read_lookup) _ (
                      Parses-put_vector encode_lookup read_lookup 36 ft.address_table_lookups
                        (omega arith) Parses-read_lookup lookup_size
                        h.address_table_lookups))))))))))

pub decode_layout :
    (flag : ℕ) (ft : FullTx) (rest : List ℕ)
    → IsEncodable ft
    → length (layout flag ft ++ rest) ≤ max_full_tx_body
    → decode_full_tx_prefix (layout flag ft ++ rest)
      ≡ ok (record ft { versioned = not (flag == 0) }, length (layout flag ft))
unfolding decode_full_tx_prefix
decode_layout flag ft rest h fits =
    rw
      (
        le→ltb_false _ _ fits,
        (Parses-read_body flag ft h).run rest (record { b = layout flag ft ++ rest; off = 0 })
            (record { inside = omega arith; ahead = refl }),
      )
      (ap (λ n. ok (record ft { versioned = not (flag == 0) }, n)) (omega arith))

flag_byte : (b : Bool) → not ((if b then 1 else 0) == 0) ≡ b
flag_byte true = refl
flag_byte false = refl

-- An encodable transaction that is followed by anything, 64 KiB in all at most, decodes to itself,
-- with the offset right behind it.
pub decode_full_tx_prefix-encode_full_tx :
    (ft : FullTx) (rest : List ℕ)
    → IsEncodable ft
    → length (encode_full_tx ft ++ rest) ≤ max_full_tx_body
    → decode_full_tx_prefix (encode_full_tx ft ++ rest) ≡ ok (ft, length (encode_full_tx ft))
unfolding encode_full_tx
decode_full_tx_prefix-encode_full_tx ft rest h fits =
    decode_layout (if ft.versioned then 1 else 0) ft rest h fits
    ∙ ap (λ v. ok (record ft { versioned = v }, length (encode_full_tx ft)))
        (flag_byte ft.versioned)

-- `DecodeFullTx` of `EncodeFullTx` of an encodable transaction of 64 KiB at most is that
-- transaction.
pub decode_full_tx-encode_full_tx :
    (ft : FullTx)
    → IsEncodable ft
    → length (encode_full_tx ft) ≤ max_full_tx_body
    → decode_full_tx (encode_full_tx ft) ≡ ok ft
unfolding decode_full_tx
decode_full_tx-encode_full_tx ft h fits =
    let whole =
      rw append-nil at (decode_full_tx_prefix-encode_full_tx ft [] h (rw append-nil fits)) in
    rw (whole, (==_iff (length (encode_full_tx ft)) (length (encode_full_tx ft))).1 refl) refl
