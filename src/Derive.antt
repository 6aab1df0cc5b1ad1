-- ===== src/Derive.antt =====
-- derive.go: what a client computes from a decoded transaction. A pair of a value and `ok` is an
-- `Option`.
pub mod Writable
pub mod Programs
pub mod Budget
use pulse_go.Base.{
  ℕ, zero, suc, ◌+◌, ◌-◌, Bool, true, false, ◌&&◌, ◌||◌, Option, none, some, List, [], ◌∷◌, ◌++◌,
  length, take, get_elem?, is_empty, ltb, ◌==◌, if◌then◌else◌,
}
use pulse_go.Go.{Result, ok, panic, ◌>>=◌, index, le_value}
use pulse_go.Wire.Tx.{Instruction, FullTx}

-- `==` of two arrays.
unfoldable pub bytes_eq : List ℕ → List ℕ → Bool
bytes_eq [] [] = true
bytes_eq [] (y ∷ ys) = false
bytes_eq (x ∷ xs) [] = false
bytes_eq (x ∷ xs) (y ∷ ys) = x == y && bytes_eq xs ys

abbrev pub compute_budget_program_id : List ℕ
compute_budget_program_id =
    3 ∷ 6 ∷ 70 ∷ 111 ∷ 229 ∷ 33 ∷ 23 ∷ 50 ∷ 255 ∷ 236 ∷ 173 ∷ 186 ∷ 114 ∷ 195 ∷ 155 ∷ 231 ∷ 188
    ∷ 140 ∷ 229 ∷ 187 ∷ 197 ∷ 247 ∷ 18 ∷ 107 ∷ 44 ∷ 67 ∷ 155 ∷ 58 ∷ 64 ∷ 0 ∷ 0 ∷ 0 ∷ []

unfoldable pub fee_payer : FullTx → Option (List ℕ)
fee_payer tx = get_elem? tx.account_keys 0

-- `seen[k]`: the map holds the keys of `out`.
unfoldable pub seen : List ℕ → List (List ℕ) → Bool
seen k [] = false
seen k (j ∷ out) = bytes_eq j k || seen k out

-- The loop of `ProgramIDs`. An index out of range skips the instruction.
unfoldable pub program_ids_loop : List (List ℕ) → List Instruction → List (List ℕ) → List (List ℕ)
program_ids_loop keys [] out = out
program_ids_loop keys (ix ∷ ixs) out =
    program_ids_loop keys ixs (elim (get_elem? keys ix.program_id_index) [
      | none ↦ out
      | some k ↦ if seen k out then out else out ++ (k ∷ [])
    ])

unfoldable pub program_ids : FullTx → List (List ℕ)
program_ids tx = program_ids_loop tx.account_keys tx.instructions []

abbrev pub min_int : ℕ → ℕ → ℕ
min_int a b = if ltb a b then a else b

abbrev pub sat_sub_int : ℕ → ℕ → ℕ
sat_sub_int a b = if ltb a b then 0 else a - b

-- `for i := …; i < end; i++ { out = append(out, keys[i]) }` with `n` rounds left.
unfoldable pub collect : List (List ℕ) → ℕ → ℕ → Result (List (List ℕ))
collect keys zero i = ok []
collect keys (suc n) i = do k ← index keys i; rest ← collect keys n (i + 1); ok (k ∷ rest)

unfoldable pub static_writable_accounts : FullTx → Result (List (List ℕ))
static_writable_accounts tx = do
  let n = length tx.account_keys
  let signed_writable_end =
      min_int (sat_sub_int tx.num_required_signatures tx.num_readonly_signed_accounts) n
  signed ← collect tx.account_keys signed_writable_end 0
  let unsigned_start = min_int tx.num_required_signatures n
  let unsigned_end = sat_sub_int n tx.num_readonly_unsigned_account
  unsigned ← collect tx.account_keys (unsigned_end - unsigned_start) unsigned_start
  ok (signed ++ unsigned)

-- What one instruction gives: its data behind the discriminator, if it is the one looked for.
unfoldable pub budget_data : List (List ℕ) → ℕ → Instruction → Option (List ℕ)
budget_data keys discriminator ix = elim (get_elem? keys ix.program_id_index) [
  | none ↦ none
  | some k ↦
      if bytes_eq k compute_budget_program_id
      then (elim ix.payload [
        | [] ↦ none
        | d ∷ rest ↦ if d == discriminator then some rest else none
      ])
      else none
]

unfoldable pub budget_loop : List (List ℕ) → ℕ → List Instruction → Option (List ℕ)
budget_loop keys discriminator [] = none
budget_loop keys discriminator (ix ∷ ixs) = elim (budget_data keys discriminator ix) [
  | some d ↦ some d
  | none ↦ budget_loop keys discriminator ixs
]

unfoldable pub compute_budget_ix : FullTx → ℕ → Option (List ℕ)
compute_budget_ix tx discriminator = budget_loop tx.account_keys discriminator tx.instructions

-- The first `width` bytes of the data as a number, if there are so many.
unfoldable pub budget_value : ℕ → Option (List ℕ) → Option ℕ
budget_value width none = none
budget_value width (some d) = if ltb (length d) width then none else some (le_value (take width d))

unfoldable pub compute_unit_price : FullTx → Option ℕ
compute_unit_price tx = budget_value 8 (compute_budget_ix tx 3)

unfoldable pub compute_unit_limit : FullTx → Option ℕ
compute_unit_limit tx = budget_value 4 (compute_budget_ix tx 2)
