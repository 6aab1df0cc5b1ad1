-- ===== src/Go/Decodes.antt =====
-- The outcome of a decoder: a value with a property, or `ErrBadFrame`; no other error, and no panic.
use mathlib.Core.Path.{subst}
use pulse_go.Base.{◌≡◌, refl, sym, ◌≢◌, ◌⊎◌, inl, inr, Bool, true, false, if◌then◌else◌}
use pulse_go.Errors.{Error, bad_frame}
use pulse_go.Go.{Result, ok, err, panic, ◌>>=◌, ◌>>◌, reject_if}

pub data Decodes {ℓ κ} {A : Type ℓ} (Q : A → Type κ) : Result A → Type (ℓ ⊔ κ) where
  decoded : {a : A} → Q a → Decodes Q (ok a)
  refused : {e : Error} → e ≡ bad_frame → Decodes Q (err e)

module _ {ℓ κ} {A : Type ℓ} {Q : A → Type κ} where
  pub Decodes-ok : {r : Result A} {a : A} → Decodes Q r → r ≡ ok a → Q a
  Decodes-ok (decoded q) e = subst Q (cc) q
  Decodes-ok (refused p) e = cc

  pub Decodes-err : {r : Result A} {e : Error} → Decodes Q r → r ≡ err e → e ≡ bad_frame
  Decodes-err (decoded q) p = cc
  Decodes-err (refused p) q = cc

  pub Decodes-panic : {r : Result A} → Decodes Q r → r ≢ panic
  Decodes-panic (decoded q) = cc
  Decodes-panic (refused p) = cc

  pub Decodes-cases :
      {r : Result A} → Decodes Q r → ((a : A) × (r ≡ ok a) × Q a) ⊎ (r ≡ err bad_frame)
  Decodes-cases (decoded {a} q) = inl (a, refl, q)
  Decodes-cases (refused p) = inr (cc)

  pub Decodes-if :
      (t : Bool) {x y : Result A}
      → (t ≡ true → Decodes Q x)
      → (t ≡ false → Decodes Q y)
      → Decodes Q (if t then x else y)
  Decodes-if true hx hy = hx refl
  Decodes-if false hx hy = hy refl

  pub Decodes-bind {ℓ' κ'} :
      {B : Type ℓ'} {P : B → Type κ'} {r : Result A} (f : A → Result B)
      → Decodes Q r
      → ((a : A) → Q a → Decodes P (f a))
      → Decodes P (r >>= f)
  Decodes-bind f (decoded {a} q) k = k a q
  Decodes-bind f (refused p) k = refused p

pub Decodes-weaken {ℓ κ κ'} :
    {A : Type ℓ} {Q : A → Type κ} {P : A → Type κ'} {r : Result A}
    → ((a : A) → Q a → P a)
    → Decodes Q r
    → Decodes P r
Decodes-weaken k (decoded {a} q) = decoded (k a q)
Decodes-weaken k (refused p) = refused p

-- `if bad { return nil, ErrBadFrame }` and what follows.
pub Decodes-reject {ℓ κ} :
    {A : Type ℓ} {Q : A → Type κ} (bad : Bool) {m : Result A}
    → (bad ≡ false → Decodes Q m)
    → Decodes Q (reject_if bad bad_frame >> m)
Decodes-reject true k = refused refl
Decodes-reject false k = k refl

-- A step that is known to succeed.
pub Decodes-step {ℓ κ ℓ'} :
    {A : Type ℓ} {B : Type ℓ'} {Q : B → Type κ} {m : Result A} {a : A} (f : A → Result B)
    → m ≡ ok a
    → Decodes Q (f a)
    → Decodes Q (m >>= f)
Decodes-step {Q} f e h = subst (λ r. Decodes Q (r >>= f)) (sym e) h

-- A bind that returns a value went through both.
pub bind-ok :
    {A B : Type 0} (r : Result A) (f : A → Result B) (b : B)
    → (r >>= f) ≡ ok b
    → (a : A) × (r ≡ ok a) × (f a ≡ ok b)
bind-ok (ok a) f b h = (a, refl, h)
bind-ok (err e) f b h = absurd (cc h)
bind-ok panic f b h = absurd (cc h)
