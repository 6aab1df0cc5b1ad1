-- ===== src/Wire/Tx/Valid.antt =====
-- The transactions that the positional layout can carry.
use pulse_go.Base.{ℕ, ◌^◌, ◌<◌, ◌≡◌, List, length, All}
use pulse_go.Go.{IsByte, IsU64}
use pulse_go.Wire.Tx.{Instruction, AddressTableLookup, FullTx}

-- A Go array `[n]byte`.
abbrev pub IsArray : ℕ → List ℕ → Type 0
IsArray n s = (length s ≡ n) × All IsByte s

-- A byte slice whose length fits the two bytes in front of it.
abbrev pub IsCounted : List ℕ → Type 0
IsCounted s = (length s < 2 ^ 16) × All IsByte s

-- The program index is a `uint32`, of which one byte is written.
pub record IsInstruction (ix : Instruction) : Type 0 where
  pub program_id_index : ix.program_id_index < 256
  pub accounts : IsCounted ix.accounts
  pub payload : IsCounted ix.payload

pub record IsLookup (l : AddressTableLookup) : Type 0 where
  pub account_key : IsArray 32 l.account_key
  pub writable_indexes : IsCounted l.writable_indexes
  pub readonly_indexes : IsCounted l.readonly_indexes

pub record IsEncodable (ft : FullTx) : Type 0 where
  pub slot : IsU64 ft.slot
  pub num_required_signatures : ft.num_required_signatures < 256
  pub num_readonly_signed_accounts : ft.num_readonly_signed_accounts < 256
  pub num_readonly_unsigned_account : ft.num_readonly_unsigned_account < 256
  pub recent_blockhash : IsArray 32 ft.recent_blockhash
  pub signatures : (length ft.signatures < 2 ^ 16) × All (IsArray 64) ft.signatures
  pub account_keys : (length ft.account_keys < 2 ^ 16) × All (IsArray 32) ft.account_keys
  pub instructions : (length ft.instructions < 2 ^ 16) × All IsInstruction ft.instructions
  pub address_table_lookups :
      (length ft.address_table_lookups < 2 ^ 16) × All IsLookup ft.address_table_lookups
