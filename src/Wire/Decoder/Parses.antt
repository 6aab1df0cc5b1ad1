-- ===== src/Wire/Decoder/Parses.antt =====
-- When a decoder method reads a value off the front of what is left: `Parses`, and its rules.
use pulse_go.Base.{
  ℕ, ◌+◌, ◌-◌, ◌/◌, ◌^◌, ◌*◌, ◌<◌, ◌≤◌, ◌≡◌, refl, ap, sym, ◌∙◌, arith, List, [], ◌∷◌, ◌++◌, length,
  drop, length-append, drop-append, take-append, length-drop, drop-drop, append_assoc, All,
  concat_map,
}
use native.Mathlib.Nat.{le-div_iff_mul-le}
use pulse_go.Go.{ok, slice, index, le_uint, le_bytes, le_uint}
use pulse_go.Go.Bytes.{length-le_bytes, le_uint-le_bytes}
use pulse_go.Wire.Decoder.{
  Decoder, M, pure, ◌>>=◌, lift, take_bytes, u8, u16, u64, remaining, count, read_n, read_vector,
}

-- `d` is inside its buffer, and `s` is what it reads next.
pub record IsAt (s : List ℕ) (d : Decoder) : Type 0 where
  pub inside : d.off ≤ length d.b
  pub ahead : drop d.off d.b ≡ s

abbrev pub advance : ℕ → Decoder → Decoder
advance n d = record d { off = d.off + n }

-- In front of `s` and anything else, `m` returns `a` and stops right behind `s`.
pub record Parses {ℓ} {A : Type ℓ} (m : M A) (s : List ℕ) (a : A) : Type ℓ where
  pub run : (rest : List ℕ) (d : Decoder) → IsAt (s ++ rest) d → m d ≡ ok (a, advance (length s) d)

pub advance-IsAt :
    (s rest : List ℕ) (d : Decoder) → IsAt (s ++ rest) d → IsAt rest (advance (length s) d)
advance-IsAt s rest d h = record {
  inside = omega (arith, ap length h.ahead, length-drop d.off d.b, length-append s rest, h.inside);
  ahead = sym (drop-drop d.off (length s) d.b) ∙ ap (drop (length s)) h.ahead ∙ drop-append s rest;
}

pub Parses-bind {ℓ κ} :
    {A : Type ℓ} {B : Type κ} {m : M A} (f : A → M B) (s t : List ℕ) {a : A} {c : B}
    → Parses m s a
    → Parses (f a) t c
    → Parses (m >>= f) (s ++ t) c
Parses-bind f s t {a} {c} p q = record {
  run = λ rest d h.
      let here : IsAt (s ++ (t ++ rest)) d = rw append_assoc at h in
      rw (p.run (t ++ rest) d here) (
        q.run rest (advance (length s) d) (advance-IsAt s (t ++ rest) d here)
        ∙ ap (λ k. ok (c, record d { off = k })) (omega (arith, length-append s t)));
}

pub Parses-pure {ℓ} : {A : Type ℓ} (a : A) → Parses (pure a) [] a
Parses-pure a = record { run = λ rest d h. ap (λ k. ok (a, record d { off = k })) (omega arith) }

pub Parses-map {ℓ κ} :
    {A : Type ℓ} {B : Type κ} (g : A → B) (m : M A) (s : List ℕ) {a : A}
    → Parses m s a
    → Parses (do x ← m; pure (g x)) s (g a)
Parses-map g m s p = record { run = λ rest d h. rw (p.run rest d h) refl }

take_bytes_run :
    (s rest : List ℕ) (d : Decoder)
    → IsAt (s ++ rest) d
    → take_bytes (length s) d ≡ ok (s, advance (length s) d)
unfolding take_bytes slice
take_bytes_run s rest d h =
    ground
      (arith, take-append s rest, ap length h.ahead, length-drop d.off d.b, length-append s rest)

pub Parses-take_bytes : (n : ℕ) (s : List ℕ) → length s ≡ n → Parses (take_bytes n) s s
Parses-take_bytes n s e = record { run = λ rest d h. rw (← e) (take_bytes_run s rest d h) }

pub Parses-u8 : (v : ℕ) → Parses u8 (v ∷ []) v
unfolding u8 index
Parses-u8 v = record { run = λ rest d h. rw (take_bytes_run (v ∷ []) rest d h) refl }

Parses-le :
    (k v : ℕ) → v < 256 ^ k → Parses (do s ← take_bytes k; lift (le_uint k s)) (le_bytes k v) v
Parses-le k v lt = record {
  run = λ rest d h.
      rw
        (
          (Parses-take_bytes k (le_bytes k v) (length-le_bytes k v)).run rest d h,
          le_uint-le_bytes k v lt,
        )
        refl;
}

pub Parses-u16 : (v : ℕ) → v < 2 ^ 16 → Parses u16 (le_bytes 2 v) v
unfolding u16
Parses-u16 v lt = Parses-le 2 v lt

pub Parses-u64 : (v : ℕ) → v < 2 ^ 64 → Parses u64 (le_bytes 8 v) v
unfolding u64
Parses-u64 v lt = Parses-le 8 v lt

-- `count` accepts a number of elements that can still fit.
count_fits :
    (k n : ℕ) (after : List ℕ) (d : Decoder)
    → 0 < k
    → n < 2 ^ 16
    → n * k ≤ length after
    → IsAt (le_bytes 2 n ++ after) d
    → count k d ≡ ok (n, advance (length (le_bytes 2 n)) d)
unfolding count remaining
count_fits k n after d pos small fits h =
    let there = advance-IsAt (le_bytes 2 n) after d h in
    let room : n ≤ (length d.b - (d.off + length (le_bytes 2 n))) / k =
      (le-div_iff_mul-le pos).1
        (omega (arith, ap length there.ahead, length-drop (d.off + length (le_bytes 2 n)) d.b)) in
    rw ((Parses-u16 n small).run after d h) (ground arith)

module _ {ℓ} {A : Type ℓ} (enc : A → List ℕ) (element : M A) where
  pub Parses-read_n :
      (xs : List A)
      → All (λ x. Parses element (enc x) x) xs
      → Parses (read_n (length xs) element) (concat_map enc xs) xs
  unfolding read_n
  Parses-read_n [] h = Parses-pure []
  Parses-read_n (x ∷ xs) (p, ps) = Parses-bind _ (enc x) (concat_map enc xs) p (
      Parses-map (λ ys. x ∷ ys) (read_n (length xs) element) (concat_map enc xs)
        (Parses-read_n xs ps))

  length-concat_map :
      (k : ℕ) (xs : List A)
      → All (λ x. k ≤ length (enc x)) xs
      → length xs * k ≤ length (concat_map enc xs)
  length-concat_map k [] h = omega arith
  length-concat_map k (x ∷ xs) (p, ps) =
      omega (arith, length-append (enc x) (concat_map enc xs), length-concat_map k xs ps)

  pub Parses-read_vector :
      (k : ℕ) (xs : List A)
      → 0 < k
      → length xs < 2 ^ 16
      → All (λ x. k ≤ length (enc x)) xs
      → All (λ x. Parses element (enc x) x) xs
      → Parses (read_vector k element) (le_bytes 2 (length xs) ++ concat_map enc xs) xs
  unfolding read_vector count remaining
  Parses-read_vector k xs pos small long ps = record {
    run = λ rest d h.
        let there = rw append_assoc at h in
        rw
          (count_fits k (length xs) (concat_map enc xs ++ rest) d pos small
            (omega (arith, length-append (concat_map enc xs) rest, length-concat_map k xs long))
            there)
          ((Parses-read_n xs ps).run rest (advance (length (le_bytes 2 (length xs))) d)
              (advance-IsAt (le_bytes 2 (length xs)) (concat_map enc xs ++ rest) d there)
            ∙ ap (λ i. ok (xs, record d { off = i }))
                (omega (arith, length-append (le_bytes 2 (length xs)) (concat_map enc xs))));
  }
