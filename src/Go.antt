-- ===== src/Go.antt =====
-- What the source uses of Go: the pair of a value and an error, slices, byte order, `io.ReadFull`.
-- A byte slice is a list of numbers below 256.
pub mod Bytes
pub mod Decodes
use pulse_go.Base.{
  ℕ, zero, suc, ◌+◌, ◌-◌, ◌*◌, ◌/◌, ◌%◌, ◌^◌, ◌<◌, Bool, true, false, Option, none, some, List, [],
  ◌∷◌, ◌++◌, length, take, drop, get_elem?, ltb, leb, if◌then◌else◌, ◌&&◌,
}
use pulse_go.Errors.{Error, eof, unexpected_eof}

-- A call returns a value, returns an error, or panics (an index or a slice out of range).
pub data Result {ℓ} (A : Type ℓ) : Type ℓ where
  ok : A → Result A
  err : Error → Result A
  panic : Result A

infixl 5 ◌>>=◌ ◌>>◌
abbrev pub ◌>>=◌ {ℓ κ} : {A : Type ℓ} {B : Type κ} → Result A → (A → Result B) → Result B
ok a >>= f = f a
err e >>= f = err e
panic >>= f = panic

abbrev pub ◌>>◌ {ℓ} : {B : Type ℓ} → Result (Unit {0}) → Result B → Result B
m >> k = m >>= λ _. k

-- `if bad { return nil, e }`
abbrev pub reject_if : Bool → Error → Result (Unit {0})
reject_if true e = err e
reject_if false e = ok tt

abbrev pub IsByte : ℕ → Type 0
IsByte b = b < 256

abbrev pub IsU64 : ℕ → Type 0
IsU64 v = v < 2 ^ 64

-- `b[lo:hi]` panics out of range. (Where the source slices, the capacity is never relied on.)
unfoldable pub slice {ℓ} : {A : Type ℓ} → List A → ℕ → ℕ → Result (List A)
slice b lo hi = if leb lo hi && leb hi (length b) then ok (take (hi - lo) (drop lo b)) else panic

-- `b[i]`
unfoldable pub index {ℓ} : {A : Type ℓ} → List A → ℕ → Result A
index b i = elim (get_elem? b i) [ none ↦ panic | some a ↦ ok a ]

-- `copy(dst, src)`: what `dst` holds afterwards.
unfoldable pub copy : List ℕ → List ℕ → List ℕ
copy dst src = take (length dst) src ++ drop (length src) dst

-- `PutUint16` and `PutUint64` write 2 and 8 bytes, lowest first.
unfoldable pub le_bytes : ℕ → ℕ → List ℕ
le_bytes zero v = []
le_bytes (suc k) v = v % 256 ∷ le_bytes k (v / 256)

unfoldable pub le_value : List ℕ → ℕ
le_value [] = 0
le_value (b ∷ bs) = b + 256 * le_value bs

-- `LittleEndian.Uint16`, `Uint32` and `Uint64` for k = 2, 4 and 8 panic on a shorter slice.
unfoldable pub le_uint : ℕ → List ℕ → Result ℕ
le_uint k b = if leb k (length b) then ok (le_value (take k b)) else panic

unfoldable pub be_value : ℕ → List ℕ → ℕ
be_value acc [] = acc
be_value acc (b ∷ bs) = be_value (acc * 256 + b) bs

-- `BigEndian.Uint32` for k = 4.
unfoldable pub be_uint : ℕ → List ℕ → Result ℕ
be_uint k b = if leb k (length b) then ok (be_value 0 (take k b)) else panic

-- An `io.Reader`: the bytes that are still to come, and the error that follows them.
pub record Reader : Type 0 where
  pub bytes : List ℕ
  pub ending : Error

-- `io.ReadFull` into a buffer of `n` bytes: what was read, the error if the buffer is not full, and
-- the reader afterwards.
pub record Read : Type 0 where
  pub filled : List ℕ
  pub error : Option Error
  pub reader : Reader

-- A short read that reached the plain end of the input is `io.ErrUnexpectedEOF`, unless nothing was
-- read.
unfoldable pub short_error : ℕ → Error → Error
short_error zero e = e
short_error (suc n) eof = unexpected_eof
short_error (suc n) e = e

unfoldable pub read_full : ℕ → Reader → Read
read_full n r =
    if leb n (length r.bytes)
    then record {
      filled = take n r.bytes;
      error = none;
      reader = record r { bytes = drop n r.bytes };
    }
    else (record {
      filled = r.bytes;
      error = some (short_error (length r.bytes) r.ending);
      reader = record r { bytes = [] };
    })
