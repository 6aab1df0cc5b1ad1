-- ===== src/Wire/Decoder.antt =====
-- The bounds-checked `decoder` of frame.go, lines 183 to 232, as a state monad with errors.
pub mod Parses
pub mod Sound
use pulse_go.Base.{
  ℕ, zero, suc, ◌+◌, ◌-◌, ◌/◌, Bool, ◌||◌, List, [], ◌∷◌, length, ltb, ◌==◌, if◌then◌else◌,
}
use pulse_go.Errors.{bad_frame}
use pulse_go.Go
use pulse_go.Go.{Result, ok, err, panic, slice, index, le_uint}

pub record Decoder : Type 0 where
  pub b : List ℕ
  pub off : ℕ

-- A method of the decoder: its result, and the decoder afterwards if it succeeds. (After an error
-- every caller returns at once.)
abbrev pub M {ℓ} : Type ℓ → Type ℓ
M A = Decoder → Result (A × Decoder)

abbrev pub pure {ℓ} : {A : Type ℓ} → A → M A
pure a d = ok (a, d)

infixl 5 ◌>>=◌
abbrev pub ◌>>=◌ {ℓ κ} : {A : Type ℓ} {B : Type κ} → M A → (A → M B) → M B
◌>>=◌ m f d = Go.◌>>=◌ (m d) (λ (a, d'). f a d')

-- A step that reads nothing.
abbrev pub lift {ℓ} : {A : Type ℓ} → Result A → M A
lift r d = Go.◌>>=◌ r (λ a. ok (a, d))

-- `take`. The lengths that the callers pass are not negative.
unfoldable pub take_bytes : ℕ → M (List ℕ)
take_bytes n d =
    if ltb (length d.b) (d.off + n)
    then err bad_frame
    else Go.◌>>=◌ (slice d.b d.off (d.off + n)) (λ s. ok (s, record d { off = d.off + n }))

unfoldable pub u8 : M ℕ
u8 = do s ← take_bytes 1; lift (index s 0)

unfoldable pub u16 : M ℕ
u16 = do s ← take_bytes 2; lift (le_uint 2 s)

unfoldable pub u64 : M ℕ
u64 = do s ← take_bytes 8; lift (le_uint 8 s)

-- The number of bytes that are left, `len(d.b)-d.off`.
unfoldable pub remaining : M ℕ
remaining d = ok (length d.b - d.off, d)

unfoldable pub count : ℕ → M ℕ
count min_elem = do
  n ← u16
  left ← remaining
  if min_elem == 0 || ltb (left / min_elem) n then lift (err bad_frame) else pure n

-- `for i := 0; i < n; i++ { … }`, an element a round.
unfoldable pub read_n {ℓ} : {A : Type ℓ} → ℕ → M A → M (List A)
read_n zero element = pure []
read_n (suc n) element = do x ← element; xs ← read_n n element; pure (x ∷ xs)

-- A counted sequence: `count`, `make`, and the loop.
unfoldable pub read_vector {ℓ} : {A : Type ℓ} → ℕ → M A → M (List A)
read_vector min_elem element = do n ← count min_elem; read_n n element
