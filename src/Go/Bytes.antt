-- ===== src/Go/Bytes.antt =====
-- Byte order: writing a number and reading it back, both ways.
use pulse_go.Base.{
  ℕ, zero, suc, ◌/◌, ◌^◌, ◌<◌, ◌≡◌, refl, ap, ap₂, ◌∙◌, arith, List, [], ◌∷◌, length, All,
  append-nil, take_all, drop_all,
}
use native.Mathlib.Nat.{pow-succ'}
use pulse_go.Base.{◌+◌, ◌-◌, ◌≤◌, take, drop, le→leb}
use pulse_go.Go.{ok, slice, le_uint, IsByte, le_bytes, le_value, copy}

pub length-le_bytes : (k v : ℕ) → length (le_bytes k v) ≡ k
unfolding le_bytes
length-le_bytes zero v = refl
length-le_bytes (suc k) v = ap suc (length-le_bytes k (v / 256))

pub le_bytes-IsByte : (k v : ℕ) → All IsByte (le_bytes k v)
unfolding le_bytes
le_bytes-IsByte zero v = tt
le_bytes-IsByte (suc k) v = (omega arith, le_bytes-IsByte k (v / 256))

pub le_value-le_bytes : (k v : ℕ) → v < 256 ^ k → le_value (le_bytes k v) ≡ v
unfolding le_bytes le_value
le_value-le_bytes zero v h = omega arith
le_value-le_bytes (suc k) v h =
    omega (arith, le_value-le_bytes k (v / 256) (omega (arith, pow-succ' 256 k)))

pub le_bytes-le_value : (bs : List ℕ) → All IsByte bs → le_bytes (length bs) (le_value bs) ≡ bs
unfolding le_bytes le_value
le_bytes-le_value [] h = refl
le_bytes-le_value (b ∷ bs) (h, hs) =
    ap₂ (λ x xs. x ∷ xs) (omega arith)
      (ap (le_bytes (length bs)) (omega arith) ∙ le_bytes-le_value bs hs)

pub le_value-lt : (bs : List ℕ) → All IsByte bs → le_value bs < 256 ^ length bs
unfolding le_value
le_value-lt [] h = omega arith
le_value-lt (b ∷ bs) (h, hs) = omega (arith, le_value-lt bs hs, pow-succ' 256 (length bs))

pub copy_full : (dst src : List ℕ) → length dst ≡ length src → copy dst src ≡ src
unfolding copy
copy_full dst src h =
    rw (h, drop_all (length src) dst (omega arith), append-nil) (take_all _ src (omega arith))

pub le_uint_full : (k : ℕ) (b : List ℕ) → length b ≡ k → le_uint k b ≡ ok (le_value b)
unfolding le_uint
le_uint_full k b h = ground (arith, take_all k b)

pub le_uint-le_bytes : (k v : ℕ) → v < 256 ^ k → le_uint k (le_bytes k v) ≡ ok v
le_uint-le_bytes k v h = le_uint_full k _ (length-le_bytes k v) ∙ ap ok (le_value-le_bytes k v h)

pub slice-add {ℓ} :
    {A : Type ℓ} (b : List A) (lo n : ℕ)
    → lo + n ≤ length b
    → slice b lo (lo + n) ≡ ok (take n (drop lo b))
unfolding slice
slice-add b lo n h =
    rw (le→leb lo (lo + n) (omega arith), le→leb (lo + n) (length b) h)
      (ap (λ k. ok (take k (drop lo b))) {x = lo + n - lo} {y = n} (omega arith))
