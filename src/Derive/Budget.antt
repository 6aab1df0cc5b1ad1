-- ===== src/Derive/Budget.antt =====
-- The compute-budget instruction that a transaction's price and limit are read from.
use pulse_go.Base.{
  ℕ, ◌≡◌, ◌≤◌, refl, ap, ◌∙◌, arith, none, some, List, [], ◌∷◌, ◌++◌, length, take, get_elem?, All,
  inl, inr, Option-cases, ◌↔◌,
}
use pulse_go.Go.{le_value}
use pulse_go.Wire.Tx.{Instruction, FullTx}
use pulse_go.Derive.{
  compute_budget_program_id, budget_data, budget_loop, compute_budget_ix, budget_value,
  compute_unit_price, compute_unit_limit,
}
use pulse_go.Derive.Programs.{bytes_eq_iff}

-- The instruction calls the compute-budget program with the discriminator and then `d`.
pub record Carries (tx : FullTx) (discriminator : ℕ) (d : List ℕ) (ix : Instruction) : Type 0 where
  called : get_elem? tx.account_keys ix.program_id_index ≡ some compute_budget_program_id
  tagged : ix.payload ≡ discriminator ∷ d

-- The first of the instructions with the discriminator carries `d`.
pub record First (tx : FullTx) (discriminator : ℕ) (d : List ℕ) (ixs : List Instruction)
    : Type 0 where
  front : List Instruction
  ix : Instruction
  back : List Instruction
  split : ixs ≡ front ++ (ix ∷ back)
  carries : Carries tx discriminator d ix
  none_before : All (λ i. (d' : List ℕ) → ¬ Carries tx discriminator d' i) front

budget_data_iff :
    (tx : FullTx) (n : ℕ) (ix : Instruction) (d : List ℕ)
    → (budget_data tx.account_keys n ix ≡ some d) ↔ Carries tx n d ix
unfolding budget_data
budget_data_iff tx n ix d = (
  λ e. elim (Option-cases (get_elem? tx.account_keys ix.program_id_index)) [
    | inl missing ↦ ground (arith, missing)
    | inr (k, found) ↦ record {
      called = ground (arith, found, bytes_eq_iff k compute_budget_program_id);
      tagged = ground (arith, found);
    }
  ],
  λ c.
      ground (
        arith,
        bytes_eq_iff compute_budget_program_id compute_budget_program_id,
        c.called,
        c.tagged,
      ),
)

budget_data-none :
    (tx : FullTx) (n : ℕ) (ix : Instruction)
    → (budget_data tx.account_keys n ix ≡ none) ↔ ((d : List ℕ) → ¬ Carries tx n d ix)
budget_data-none tx n ix = (
  λ e d c. ground (arith, e, (budget_data_iff tx n ix d).1 c),
  λ h. elim (Option-cases (budget_data tx.account_keys n ix)) [
    | inl e ↦ e
    | inr (d, e) ↦ absurd (h d ((budget_data_iff tx n ix d).0 e))
  ],
)

budget_loop-First :
    (tx : FullTx) (n : ℕ) (d : List ℕ) (ixs : List Instruction)
    → budget_loop tx.account_keys n ixs ≡ some d
    → First tx n d ixs
unfolding budget_loop
budget_loop-First tx n d [] e = absurd (ground (arith, e))
budget_loop-First tx n d (ix ∷ ixs) e = elim (Option-cases (budget_data tx.account_keys n ix)) [
  | inl nothing ↦
      let f = budget_loop-First tx n d ixs (ground (arith, nothing, e)) in
      record {
        front = ix ∷ f.front;
        ix = f.ix;
        back = f.back;
        split = ap (λ l. ix ∷ l) f.split;
        carries = f.carries;
        none_before = ((budget_data-none tx n ix).0 nothing, f.none_before);
      }
  | inr (d', found) ↦ record {
    front = [];
    ix = ix;
    back = ixs;
    split = refl;
    carries = (budget_data_iff tx n ix d).0 (ground (arith, found, e));
    none_before = tt;
  }
]

budget_loop-front :
    (tx : FullTx) (n : ℕ) (front : List Instruction) (ix : Instruction) (back : List Instruction)
    (d : List ℕ)
    → Carries tx n d ix
    → All (λ i. (d' : List ℕ) → ¬ Carries tx n d' i) front
    → budget_loop tx.account_keys n (front ++ (ix ∷ back)) ≡ some d
unfolding budget_loop
budget_loop-front tx n [] ix back d c h = rw (budget_loop, (budget_data_iff tx n ix d).1 c) refl
budget_loop-front tx n (i ∷ front) ix back d c (h, hs) =
    rw (budget_loop, (budget_data-none tx n i).1 h) (budget_loop-front tx n front ix back d c hs)

-- A transaction's compute-budget data with a discriminator is `d` exactly if its first instruction
-- that calls the compute-budget program with that discriminator carries `d`.
pub compute_budget_ix_iff :
    (tx : FullTx) (discriminator : ℕ) (d : List ℕ)
    → (compute_budget_ix tx discriminator ≡ some d) ↔ First tx discriminator d tx.instructions
unfolding compute_budget_ix
compute_budget_ix_iff tx n d = (
  λ e. budget_loop-First tx n d tx.instructions e,
  λ f.
      ap (budget_loop tx.account_keys n) f.split
      ∙ budget_loop-front tx n f.front f.ix f.back d f.carries f.none_before,
)

-- A transaction's value of `width` bytes behind a discriminator.
pub Pays : FullTx → ℕ → ℕ → ℕ → Type 0
Pays tx discriminator width v =
    (d : List ℕ) × First tx discriminator d tx.instructions
    × (width ≤ length d)
    × (v ≡ le_value (take width d))

budget_value_iff :
    (tx : FullTx) (n width v : ℕ)
    → (budget_value width (compute_budget_ix tx n) ≡ some v) ↔ Pays tx n width v
unfolding budget_value Pays
budget_value_iff tx n width v = (
  λ e. elim (Option-cases (compute_budget_ix tx n)) [
    | inl nothing ↦ absurd (ground (arith, e, nothing))
    | inr (d, found) ↦ (
      d,
      (compute_budget_ix_iff tx n d).0 found,
      ground (arith, e, found),
      ground (arith, e, found),
    )
  ],
  λ (d, first, long, value).
      rw ((compute_budget_ix_iff tx n d).1 first) (ground (arith, long, value)),
)

-- `ComputeUnitPrice` gives `v` exactly if the first compute-budget instruction with discriminator 3
-- has at least 8 bytes behind it, and `v` is the number they are, lowest byte first. The same holds
-- for `ComputeUnitLimit`, with discriminator 2 and 4 bytes.
pub compute_unit_iff :
    (tx : FullTx) (v : ℕ)
    → ((compute_unit_price tx ≡ some v) ↔ Pays tx 3 8 v)
      × ((compute_unit_limit tx ≡ some v) ↔ Pays tx 2 4 v)
unfolding compute_unit_price compute_unit_limit
compute_unit_iff tx v = (budget_value_iff tx 3 8 v, budget_value_iff tx 2 4 v)
