-- ===== src/Derive/Programs.antt =====
-- The programs of a transaction against a plain description: resolve each index, keep first uses.
use pulse_go.Base.{
  ℕ, ◌≡◌, ◌↔◌, refl, ap, sym, ◌∙◌, arith, true, ◌||◌, none, some, List, [], ◌∷◌, ◌++◌, get_elem?,
  if◌then◌else◌, append-nil, append_assoc, Bool-cases, inl, inr, Option-cases,
}
use pulse_go.Wire.Tx.{Instruction, FullTx}
use pulse_go.Derive.{bytes_eq, seen, program_ids_loop, program_ids}

pub bytes_eq_iff : (xs ys : List ℕ) → (bytes_eq xs ys ≡ true) ↔ (xs ≡ ys)
unfolding bytes_eq
bytes_eq_iff [] [] = (λ _. refl, λ _. refl)
bytes_eq_iff [] (y ∷ ys) = (λ e. cc, λ e. cc)
bytes_eq_iff (x ∷ xs) [] = (λ e. cc, λ e. cc)
bytes_eq_iff (x ∷ xs) (y ∷ ys) = ground (arith, bytes_eq_iff xs ys)

-- The programs that the instructions name, one for each index in range.
pub resolve : List (List ℕ) → List Instruction → List (List ℕ)
resolve keys [] = []
resolve keys (ix ∷ ixs) = elim (get_elem? keys ix.program_id_index) [
  | none ↦ resolve keys ixs
  | some k ↦ k ∷ resolve keys ixs
]

-- All elements but those equal to `k`.
pub remove : List ℕ → List (List ℕ) → List (List ℕ)
remove k [] = []
remove k (j ∷ js) = if bytes_eq k j then remove k js else j ∷ remove k js

-- Each element where it first occurs.
pub first_uses : List (List ℕ) → List (List ℕ)
first_uses [] = []
first_uses (k ∷ ks) = k ∷ remove k (first_uses ks)

unseen : List (List ℕ) → List (List ℕ) → List (List ℕ)
unseen out [] = []
unseen out (j ∷ js) = if seen j out then unseen out js else j ∷ unseen out js

unseen-nil : (js : List (List ℕ)) → unseen [] js ≡ js
unfolding unseen seen
unseen-nil [] = refl
unseen-nil (j ∷ js) = ap (λ l. j ∷ l) (unseen-nil js)

seen-append :
    (j k : List ℕ) (out : List (List ℕ)) → seen j (out ++ (k ∷ [])) ≡ (seen j out || bytes_eq k j)
unfolding seen
seen-append j k [] = ground arith
seen-append j k (i ∷ out) = ground (arith, seen-append j k out)

unseen-append :
    (out : List (List ℕ)) (k : List ℕ) (js : List (List ℕ))
    → unseen (out ++ (k ∷ [])) js ≡ unseen out (remove k js)
unfolding unseen remove
unseen-append out k [] = refl
unseen-append out k (j ∷ js) = ground (arith, unseen-append out k js, seen-append j k out)

unseen-remove :
    (out : List (List ℕ)) (k : List ℕ) (js : List (List ℕ))
    → seen k out ≡ true
    → unseen out (remove k js) ≡ unseen out js
unfolding unseen remove
unseen-remove out k [] h = refl
unseen-remove out k (j ∷ js) h = ground (arith, unseen-remove out k js h, bytes_eq_iff k j)

resolve_missing :
    (keys : List (List ℕ)) (ix : Instruction) (ixs : List Instruction)
    → get_elem? keys ix.program_id_index ≡ none
    → resolve keys (ix ∷ ixs) ≡ resolve keys ixs
unfolding resolve
resolve_missing keys ix ixs h = rw (resolve, h) refl

resolve_found :
    (keys : List (List ℕ)) (ix : Instruction) (ixs : List Instruction) (k : List ℕ)
    → get_elem? keys ix.program_id_index ≡ some k
    → resolve keys (ix ∷ ixs) ≡ k ∷ resolve keys ixs
unfolding resolve
resolve_found keys ix ixs k h = rw (resolve, h) refl

program_ids_loop_lem :
    (keys : List (List ℕ)) (ixs : List Instruction) (out : List (List ℕ))
    → program_ids_loop keys ixs out ≡ out ++ unseen out (first_uses (resolve keys ixs))
unfolding program_ids_loop unseen first_uses resolve
program_ids_loop_lem keys [] out = sym (append-nil out)
program_ids_loop_lem keys (ix ∷ ixs) out =
    let rest : List (List ℕ) = first_uses (resolve keys ixs) in
    elim (Option-cases (get_elem? keys ix.program_id_index)) [
      | inl missing ↦
          rw (missing, resolve_missing keys ix ixs missing, program_ids_loop_lem keys ixs out) refl
      | inr (k, found) ↦ elim (Bool-cases (seen k out)) [
        | inl known ↦
            rw
              (
                found,
                resolve_found keys ix ixs k found,
                known,
                program_ids_loop_lem keys ixs out,
                unseen-remove out k rest known,
              )
              refl
        | inr fresh ↦
            rw
              (
                found,
                resolve_found keys ix ixs k found,
                fresh,
                program_ids_loop_lem keys ixs (out ++ (k ∷ [])),
                unseen-append out k rest,
                append_assoc out (k ∷ []) (unseen out (remove k rest)),
              )
              refl
      ]
    ]

-- `ProgramIDs` returns the programs that the instructions name, an index out of range left out,
-- each once, in the order of their first use.
pub program_ids_lem :
    (tx : FullTx) → program_ids tx ≡ first_uses (resolve tx.account_keys tx.instructions)
unfolding program_ids
program_ids_lem tx =
    program_ids_loop_lem tx.account_keys tx.instructions []
    ∙ unseen-nil (first_uses (resolve tx.account_keys tx.instructions))
