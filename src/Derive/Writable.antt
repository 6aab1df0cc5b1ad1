-- ===== src/Derive/Writable.antt =====
-- The static writable accounts against the message header's rule.
use pulse_go.Base.{
  ℕ, zero, suc, ◌+◌, ◌-◌, ◌<◌, ◌≤◌, ◌≡◌, refl, ap, sym, ◌∙◌, arith, Bool, ◌&&◌, ◌||◌, List, [], ◌∷◌,
  ◌++◌, length, take, drop, ltb, leb, if◌then◌else◌, take-nil, drop-nil, take_all, drop_all,
  Bool-cases, inl, inr, ltb_false→le,
}
use native.Mathlib.Nat.{sub-zero}
use pulse_go.Go.{ok, index}
use pulse_go.Wire.Tx.{FullTx}
use pulse_go.Derive.{collect, min_int, sat_sub_int, static_writable_accounts}

-- Account `i` is writable by the header: a signer that is not among the read-only signers, or a
-- non-signer that is not among the read-only non-signers at the end.
abbrev pub is_writable : FullTx → ℕ → Bool
is_writable tx i =
    ltb i (tx.num_required_signatures - tx.num_readonly_signed_accounts)
    || (leb tx.num_required_signatures i
        && ltb i (length tx.account_keys - tx.num_readonly_unsigned_account))

-- The elements whose index, counted from `i`, passes the test.
pub select : (ℕ → Bool) → ℕ → List (List ℕ) → List (List ℕ)
select p i [] = []
select p i (k ∷ keys) = if p i then k ∷ select p (i + 1) keys else select p (i + 1) keys

drop-index :
    (keys : List (List ℕ)) (i : ℕ)
    → i < length keys
    → (k : List ℕ) × (index keys i ≡ ok k) × (drop i keys ≡ k ∷ drop (i + 1) keys)
unfolding index
drop-index [] i h = absurd (omega arith)
drop-index (k ∷ keys) zero h = (k, refl, refl)
drop-index (k ∷ keys) (suc i) h =
    let (j, e, d) = drop-index keys i (omega arith) in
    (j, e, d ∙ ap (λ n. j ∷ drop n (k ∷ keys)) {x = suc (i + 1)} {y = suc i + 1} (omega arith))

collect_lem :
    (keys : List (List ℕ)) (n i : ℕ)
    → i + n ≤ length keys
    → collect keys n i ≡ ok (take n (drop i keys))
unfolding collect
collect_lem keys zero i h = refl
collect_lem keys (suc n) i h =
    let (k, e, d) = drop-index keys i (omega arith) in
    rw (e, collect_lem keys n (i + 1) (omega arith), d) refl

-- A prefix and a later stretch, as one selection.
module _ (a c d : ℕ) (order : a ≤ c) where
  in_ranges : ℕ → Bool
  in_ranges j = ltb j a || (leb c j && ltb j d)

  ranges : ℕ → List (List ℕ) → List (List ℕ)
  ranges i keys = take (a - i) keys ++ take (d - (c - i) - i) (drop (c - i) keys)

  ranges_front :
      (i : ℕ) (k : List ℕ) (keys : List (List ℕ))
      → i < a
      → ranges i (k ∷ keys) ≡ k ∷ ranges (i + 1) keys
  unfolding ranges
  ranges_front i k keys h =
      let x : a - i ≡ suc (a - (i + 1)) = omega arith in
      let y : c - i ≡ suc (c - (i + 1)) = omega arith in
      let z : d - suc (c - (i + 1)) - i ≡ d - (c - (i + 1)) - (i + 1) = omega arith in
      rw (x, y, z) refl

  ranges_between :
      (i : ℕ) (k : List ℕ) (keys : List (List ℕ))
      → a ≤ i
      → i < c
      → ranges i (k ∷ keys) ≡ ranges (i + 1) keys
  unfolding ranges
  ranges_between i k keys h h' =
      let x : a - i ≡ 0 = omega arith in
      let x' : a - (i + 1) ≡ 0 = omega arith in
      let y : c - i ≡ suc (c - (i + 1)) = omega arith in
      let z : d - suc (c - (i + 1)) - i ≡ d - (c - (i + 1)) - (i + 1) = omega arith in
      rw (x, x', y, z) refl

  ranges_back :
      (i : ℕ) (k : List ℕ) (keys : List (List ℕ))
      → c ≤ i
      → i < d
      → ranges i (k ∷ keys) ≡ k ∷ ranges (i + 1) keys
  unfolding ranges
  ranges_back i k keys h h' =
      let x : a - i ≡ 0 = omega arith in
      let x' : a - (i + 1) ≡ 0 = omega arith in
      let y : c - i ≡ 0 = omega arith in
      let y' : c - (i + 1) ≡ 0 = omega arith in
      let z : d - 0 - i ≡ suc (d - 0 - (i + 1)) = omega arith in rw (x, x', y, y', z) refl

  ranges_behind :
      (i : ℕ) (k : List ℕ) (keys : List (List ℕ))
      → c ≤ i
      → d ≤ i
      → ranges i (k ∷ keys) ≡ ranges (i + 1) keys
  unfolding ranges
  ranges_behind i k keys h h' =
      let x : a - i ≡ 0 = omega arith in
      let x' : a - (i + 1) ≡ 0 = omega arith in
      let z : d - (c - i) - i ≡ 0 = omega arith in
      let z' : d - (c - (i + 1)) - (i + 1) ≡ 0 = omega arith in rw (x, x', z, z') refl

  select-ranges : (i : ℕ) (keys : List (List ℕ)) → select in_ranges i keys ≡ ranges i keys
  unfolding select in_ranges ranges
  select-ranges i [] =
      rw (take-nil (List ℕ) (a - i), drop-nil (List ℕ) (c - i), take-nil (List ℕ) (d - (c - i) - i))
        refl
  select-ranges i (k ∷ keys) = ground (
    arith,
    select-ranges (i + 1) keys,
    ranges_front i k keys,
    ranges_between i k keys,
    ranges_back i k keys,
    ranges_behind i k keys,
  )

take-min :
    (a n : ℕ) (keys : List (List ℕ)) → length keys ≡ n → take (min_int a n) keys ≡ take a keys
take-min a n keys l = elim (Bool-cases (ltb a n)) [
  | inl less ↦ rw less refl
  | inr more ↦
      let le = ltb_false→le a n more in
      rw more (take_all n keys (omega arith) ∙ sym (take_all a keys (omega arith)))
]

take-drop-min :
    (c d n : ℕ) (keys : List (List ℕ))
    → length keys ≡ n
    → take (d - min_int c n) (drop (min_int c n) keys) ≡ take (d - c) (drop c keys)
take-drop-min c d n keys l = elim (Bool-cases (ltb c n)) [
  | inl less ↦ rw less refl
  | inr more ↦
      let le = ltb_false→le c n more in
      rw
        (
          more,
          drop_all n keys (omega arith),
          drop_all c keys (omega arith),
          take-nil (List ℕ) (d - n),
          take-nil (List ℕ) (d - c),
        )
        refl
]

sat_sub_int_lem : (a b : ℕ) → sat_sub_int a b ≡ a - b
sat_sub_int_lem a b = ground arith

-- `StaticWritableAccounts` never indexes out of range, and returns exactly the accounts that the
-- header marks writable, in their order.
pub static_writable_accounts_lem :
    (tx : FullTx) → static_writable_accounts tx ≡ ok (select (is_writable tx) 0 tx.account_keys)
unfolding static_writable_accounts in_ranges ranges
static_writable_accounts_lem tx =
    let keys = tx.account_keys in
    let n : ℕ = length keys in
    let a : ℕ = tx.num_required_signatures - tx.num_readonly_signed_accounts in
    let c : ℕ = tx.num_required_signatures in
    let d : ℕ = n - tx.num_readonly_unsigned_account in
    let chosen : select (is_writable tx) 0 keys ≡ take a keys ++ take (d - c) (drop c keys) =
      select-ranges a c d (omega arith) 0 keys ∙ simp sub-zero in
    rw
      (
        sat_sub_int_lem tx.num_required_signatures tx.num_readonly_signed_accounts,
        sat_sub_int_lem n tx.num_readonly_unsigned_account,
        collect_lem keys (min_int a n) 0 (ground arith),
        collect_lem keys (d - min_int c n) (min_int c n) (ground arith),
        take-min a n keys refl,
        take-drop-min c d n keys refl,
        chosen,
      )
      refl
