-- ===== src/Wire/Tx.antt =====
-- The positional transaction body of frame.go: `DecodeFullTx`, `decodeFullTxPrefix`, `EncodeFullTx`.
-- A fixed array is a list of its length; `uint8` to `uint64` are numbers below 2 ^ 8 to 2 ^ 64.
pub mod Size
pub mod Valid
pub mod RoundTrip
pub mod Exact
use pulse_go.Base.{
  ℕ, ◌%◌, ◌^◌, Bool, not, List, ◌∷◌, ◌++◌, length, replicate, concat_map, ltb, ◌==◌, if◌then◌else◌,
}
use pulse_go.Errors.{bad_frame}
use pulse_go.Go
use pulse_go.Go.{Result, ok, err, copy, le_bytes}
use pulse_go.Wire.Decoder.{M, pure, ◌>>=◌, take_bytes, u8, u16, u64, read_vector}

pub record Instruction : Type 0 where
  pub program_id_index : ℕ
  pub accounts : List ℕ
  pub payload : List ℕ

pub record AddressTableLookup : Type 0 where
  pub account_key : List ℕ
  pub writable_indexes : List ℕ
  pub readonly_indexes : List ℕ

pub record FullTx : Type 0 where
  pub slot : ℕ
  pub versioned : Bool
  pub num_required_signatures : ℕ
  pub num_readonly_signed_accounts : ℕ
  pub num_readonly_unsigned_account : ℕ
  pub recent_blockhash : List ℕ
  pub signatures : List (List ℕ)
  pub account_keys : List (List ℕ)
  pub instructions : List Instruction
  pub address_table_lookups : List AddressTableLookup

abbrev pub max_full_tx_body : ℕ
max_full_tx_body = 2 ^ 16

-- `copy` into a zeroed array of `n` bytes.
abbrev pub array_of : ℕ → List ℕ → List ℕ
array_of n s = copy (replicate n 0) s

-- One round of each of the four loops. `append([]byte(nil), x...)` is `x`.
unfoldable pub read_array : ℕ → M (List ℕ)
read_array n = do s ← take_bytes n; pure (array_of n s)

-- A length of two bytes, and as many bytes.
unfoldable pub read_bytes : M (List ℕ)
read_bytes = do n ← u16; take_bytes n

unfoldable pub read_instruction : M Instruction
read_instruction = do
  pid ← u8
  acc ← read_bytes
  dat ← read_bytes
  pure (record { program_id_index = pid; accounts = acc; payload = dat })

unfoldable pub read_lookup : M AddressTableLookup
read_lookup = do
  key ← take_bytes 32
  w ← read_bytes
  r ← read_bytes
  pure (record { account_key = array_of 32 key; writable_indexes = w; readonly_indexes = r })

unfoldable pub read_body : M FullTx
read_body = do
  slot ← u64
  nrs ← u8
  nrsa ← u8
  nrua ← u8
  x ← u8
  bh ← read_array 32
  signatures ← read_vector 64 (read_array 64)
  account_keys ← read_vector 32 (read_array 32)
  instructions ← read_vector 5 read_instruction
  lookups ← read_vector 36 read_lookup
  pure (record {
    slot = slot;
    versioned = not (x == 0);
    num_required_signatures = nrs;
    num_readonly_signed_accounts = nrsa;
    num_readonly_unsigned_account = nrua;
    recent_blockhash = bh;
    signatures = signatures;
    account_keys = account_keys;
    instructions = instructions;
    address_table_lookups = lookups;
  })

-- The transaction and the offset just behind it.
unfoldable pub decode_full_tx_prefix : List ℕ → Result (FullTx × ℕ)
decode_full_tx_prefix b =
    if ltb max_full_tx_body (length b)
    then err bad_frame
    else Go.◌>>=◌ (read_body (record { b = b; off = 0 })) (λ (ft, d). ok (ft, d.off))

unfoldable pub decode_full_tx : List ℕ → Result FullTx
decode_full_tx b =
    Go.◌>>=◌ (decode_full_tx_prefix b)
      (λ (ft, consumed). if consumed == length b then ok ft else err bad_frame)

-- `put16` converts its `int` to `uint16`; `byte(v)` keeps the low byte.
abbrev pub put16 : ℕ → List ℕ
put16 v = le_bytes 2 (v % 2 ^ 16)

unfoldable pub put_counted : List ℕ → List ℕ
put_counted bs = put16 (length bs) ++ bs

unfoldable pub encode_instruction : Instruction → List ℕ
encode_instruction ix =
    (ix.program_id_index % 256) ∷ (put_counted ix.accounts ++ put_counted ix.payload)

unfoldable pub encode_lookup : AddressTableLookup → List ℕ
encode_lookup l =
    l.account_key ++ (put_counted l.writable_indexes ++ put_counted l.readonly_indexes)

unfoldable pub put_vector {ℓ} : {A : Type ℓ} → (A → List ℕ) → List A → List ℕ
put_vector enc xs = put16 (length xs) ++ concat_map enc xs

-- The fields in order, with the byte that is written for `Versioned`.
unfoldable pub layout : ℕ → FullTx → List ℕ
layout flag ft =
    le_bytes 8 ft.slot
    ++ ((ft.num_required_signatures % 256)
        ∷ (ft.num_readonly_signed_accounts % 256)
        ∷ (ft.num_readonly_unsigned_account % 256)
        ∷ flag
        ∷ (ft.recent_blockhash
            ++ (put_vector (λ s. s) ft.signatures
                ++ (put_vector (λ k. k) ft.account_keys
                    ++ (put_vector encode_instruction ft.instructions
                        ++ put_vector encode_lookup ft.address_table_lookups)))))

unfoldable pub encode_full_tx : FullTx → List ℕ
encode_full_tx ft = layout (if ft.versioned then 1 else 0) ft
