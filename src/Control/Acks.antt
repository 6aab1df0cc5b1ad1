-- ===== src/Control/Acks.antt =====
-- When an acknowledgement is accepted.
use text.Mathlib.TextEquality.{path_by_compare}
use pulse_go.Base.{
  ℕ, ◌≡◌, ◌↔◌, refl, arith, String, Bool, true, false, not, Option, none, some, Bool-cases,
  Option-cases, inl, inr, if◌then◌else◌, ap, ◌∙◌,
}
use pulse_go.Base.Int.{ℤ, pos, negsuc, eq_nat}
use pulse_go.Errors.{missing_negotiated_version, version_mismatch}
use pulse_go.Go.{Result, ok, err, panic, ◌>>=◌}
use pulse_go.Control.{
  Ack, string_eq, wire_version, check_ack_envelope, check_initial_ack, check_update_ack,
}

pub string_eq-≡ : (a b : String) → string_eq a b ≡ true → a ≡ b
string_eq-≡ a b h = path_by_compare a b (ground (arith, h))

-- An acknowledgement that says yes.
pub record Accepts (ack : Ack) : Type 0 where
  pub typed : ack.type_name ≡ "ack"
  pub no_code : ack.code ≡ none
  pub agreed : ack.ok ≡ true

check_ack_envelope_ok : (ack : Ack) → Accepts ack → check_ack_envelope ack ≡ ok ack
unfolding check_ack_envelope
check_ack_envelope_ok ack h =
    let e : string_eq ack.type_name "error" ≡ false = rw h.typed refl in
    let a : string_eq ack.type_name "ack" ≡ true = rw h.typed refl in
    rw (check_ack_envelope, e, a, h.no_code, h.agreed) refl

check_ack_envelope-Accepts : (ack a : Ack) → check_ack_envelope ack ≡ ok a → Accepts ack × (ack ≡ a)
unfolding check_ack_envelope
check_ack_envelope-Accepts ack a h = elim (Bool-cases (string_eq ack.type_name "ack")) [
  | inl same ↦ (
    record {
      typed = string_eq-≡ ack.type_name "ack" same;
      no_code = ground (arith, h);
      agreed = ground (arith, h);
    },
    ground (arith, h),
  )
  | inr other ↦ absurd (ground (arith, h, other))
]

eq_nat_iff : (v : ℤ) (n : ℕ) → (eq_nat v n ≡ true) ↔ (v ≡ pos n)
eq_nat_iff (pos m) n = (λ h. ap pos (ground (arith, h)), λ h. ground (arith, h))
eq_nat_iff (negsuc m) n = (λ h. ground (arith, h), λ h. ground (arith, h))

-- The version of an acknowledgement, where it names one, is the SDK's.
pub IsVersion : Option ℤ → Type 0
IsVersion none = Unit
IsVersion (some v) = v ≡ pos wire_version

-- What follows the envelope, when that accepts.
initial_rest : Ack → Result Ack
initial_rest a = elim a.v [
  | none ↦ err missing_negotiated_version
  | some v ↦ if not (eq_nat v wire_version) then err (version_mismatch v) else ok a
]

update_rest : Ack → Result Ack
update_rest a = elim a.v [
  | none ↦ ok a
  | some v ↦ if not (eq_nat v wire_version) then err (version_mismatch v) else ok a
]

initial_rest_iff :
    (a b : Ack) → (initial_rest a ≡ ok b) ↔ ((a.v ≡ some (pos wire_version)) × (a ≡ b))
unfolding initial_rest
initial_rest_iff a b = (
  λ h. elim (Option-cases a.v) [
    | inl unnamed ↦ absurd (ground (arith, h, unnamed))
    | inr (v, named) ↦ elim (Bool-cases (eq_nat v wire_version)) [
      | inl right ↦
          (named ∙ ap some ((eq_nat_iff v wire_version).0 right), ground (arith, h, named, right))
      | inr wrong ↦ absurd (ground (arith, h, named, wrong))
    ]
  ],
  λ (named, same). ground (arith, named, same),
)

update_rest_iff : (a b : Ack) → (update_rest a ≡ ok b) ↔ (IsVersion a.v × (a ≡ b))
unfolding update_rest IsVersion
update_rest_iff a b = (
  λ h. elim (Option-cases a.v) [
    | inl unnamed ↦ (rw unnamed tt, ground (arith, h, unnamed))
    | inr (v, named) ↦ elim (Bool-cases (eq_nat v wire_version)) [
      | inl right ↦
          (rw named ((eq_nat_iff v wire_version).0 right), ground (arith, h, named, right))
      | inr wrong ↦ absurd (ground (arith, h, named, wrong))
    ]
  ],
  λ (version, same). elim (Option-cases a.v) [
    | inl unnamed ↦ ground (arith, unnamed, same)
    | inr (v, named) ↦
        let right = (eq_nat_iff v wire_version).1 (rw named at version) in
        ground (arith, named, right, same)
  ],
)

is_ok : Result Ack → Bool
is_ok (ok a) = true
is_ok (err e) = false
is_ok panic = false

refused_bind :
    (r : Result Ack) (rest : Ack → Result Ack) (b : Ack) → is_ok r ≡ false → ¬ (r >>= rest) ≡ ok b
unfolding is_ok
refused_bind (ok a) rest b n h = ground (arith, n)
refused_bind (err e) rest b n h = ground (arith, h)
refused_bind panic rest b n h = ground (arith, h)

is_ok-cases : (r : Result Ack) → is_ok r ≡ true → (a : Ack) × (r ≡ ok a)
unfolding is_ok
is_ok-cases (ok a) y = (a, refl)
is_ok-cases (err e) y = absurd (ground (arith, y))
is_ok-cases panic y = absurd (ground (arith, y))

-- An acknowledgement is accepted exactly if the envelope and what follows accept it.
bind_iff :
    (ack b : Ack) (rest : Ack → Result Ack)
    → ((check_ack_envelope ack >>= rest) ≡ ok b) ↔ (Accepts ack × (rest ack ≡ ok b))
bind_iff ack b rest = (
  λ h. elim (Bool-cases (is_ok (check_ack_envelope ack))) [
    | inl yes_ok ↦
        let accepts =
          let (a, e) = is_ok-cases (check_ack_envelope ack) yes_ok in
          (check_ack_envelope-Accepts ack a e).0 in
        (accepts, rw (check_ack_envelope_ok ack accepts) at h)
    | inr not_ok ↦ absurd (refused_bind (check_ack_envelope ack) rest b not_ok h)
  ],
  λ (accepts, e). rw (check_ack_envelope_ok ack accepts) e,
)

-- The first acknowledgement is accepted exactly if it is of type "ack", without a code, says ok and
-- names wire version 2; the result is the acknowledgement itself. A later one may leave the version
-- out.
pub check_ack_iff :
    (ack b : Ack)
    → ((check_initial_ack ack ≡ ok b)
        ↔ (Accepts ack × (ack.v ≡ some (pos wire_version)) × (ack ≡ b)))
      × ((check_update_ack ack ≡ ok b) ↔ (Accepts ack × IsVersion ack.v × (ack ≡ b)))
unfolding check_initial_ack check_update_ack initial_rest update_rest
check_ack_iff ack b = (
  (
    λ h.
        let (accepts, e) = (bind_iff ack b initial_rest).0 h in
        let (v, same) = (initial_rest_iff ack b).0 e in (accepts, v, same),
    λ (accepts, v, e). (bind_iff ack b initial_rest).1 (accepts, (initial_rest_iff ack b).1 (v, e)),
  ),
  (
    λ h.
        let (accepts, e) = (bind_iff ack b update_rest).0 h in
        let (v, same) = (update_rest_iff ack b).0 e in (accepts, v, same),
    λ (accepts, v, e). (bind_iff ack b update_rest).1 (accepts, (update_rest_iff ack b).1 (v, e)),
  ),
)
