-- ===== src/Tests/Data.antt =====
-- Inputs of the tests: a transaction, its addresses, a stream.
use pulse_go.Base.{
  ℕ, ◌≤◌, ◌≡◌, refl, arith, Bool, true, ◌&&◌, List, [], ◌∷◌, length, replicate, ltb, All,
}
use pulse_go.Go.{IsByte, le_bytes}
use pulse_go.Wire.Tx.{
  Instruction, AddressTableLookup, FullTx, max_full_tx_body, encode_full_tx, layout, put_vector,
  put_counted, encode_instruction, encode_lookup,
}
use pulse_go.Wire.Tx.Valid.{IsArray, IsEncodable}

abbrev pub are_bytes : List ℕ → Bool
are_bytes [] = true
are_bytes (x ∷ xs) = ltb x 256 && are_bytes xs

pub bytes_by : (xs : List ℕ) → are_bytes xs ≡ true → All IsByte xs
bytes_by [] h = tt
bytes_by (x ∷ xs) h = (ground (arith, h), bytes_by xs (ground (arith, h)))

abbrev pub key : ℕ → List ℕ
key n = replicate 32 n

abbrev pub transfer : Instruction
transfer = record { program_id_index = 2; accounts = 0 ∷ 1 ∷ []; payload = 3 ∷ 200 ∷ [] }

abbrev pub lookup : AddressTableLookup
lookup = record { account_key = key 9; writable_indexes = 4 ∷ []; readonly_indexes = [] }

abbrev pub tx : FullTx
tx = record {
  slot = 300;
  versioned = true;
  num_required_signatures = 1;
  num_readonly_signed_accounts = 0;
  num_readonly_unsigned_account = 1;
  recent_blockhash = key 8;
  signatures = replicate 64 7 ∷ [];
  account_keys = key 1 ∷ key 2 ∷ key 3 ∷ [];
  instructions = transfer ∷ [];
  address_table_lookups = lookup ∷ [];
}

pub key-IsArray : (n : ℕ) → are_bytes (key n) ≡ true → IsArray 32 (key n)
key-IsArray n h = (refl, bytes_by (key n) h)

pub tx-IsEncodable : IsEncodable tx
tx-IsEncodable = record {
  slot = omega arith;
  num_required_signatures = omega arith;
  num_readonly_signed_accounts = omega arith;
  num_readonly_unsigned_account = omega arith;
  recent_blockhash = (refl, bytes_by (key 8) refl);
  signatures = (omega arith, ((refl, bytes_by (replicate 64 7) refl), tt));
  account_keys = (
    omega arith,
    (
      (refl, bytes_by (key 1) refl),
      ((refl, bytes_by (key 2) refl), ((refl, bytes_by (key 3) refl), tt)),
    ),
  );
  instructions = (
    omega arith,
    (
      record {
        program_id_index = omega arith;
        accounts = (omega arith, bytes_by (0 ∷ 1 ∷ []) refl);
        payload = (omega arith, bytes_by (3 ∷ 200 ∷ []) refl);
      },
      tt,
    ),
  );
  address_table_lookups = (
    omega arith,
    (
      record {
        account_key = (refl, bytes_by (key 9) refl);
        writable_indexes = (omega arith, bytes_by (4 ∷ []) refl);
        readonly_indexes = (omega arith, tt);
      },
      tt,
    ),
  );
}

pub tx-bytes : All IsByte (encode_full_tx tx)
unfolding encode_full_tx layout put_vector put_counted encode_instruction encode_lookup le_bytes
tx-bytes = bytes_by (encode_full_tx tx) refl

pub tx-fits : length (encode_full_tx tx) ≤ max_full_tx_body
unfolding encode_full_tx layout put_vector put_counted encode_instruction encode_lookup le_bytes
tx-fits = omega arith
