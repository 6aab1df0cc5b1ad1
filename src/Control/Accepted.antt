-- ===== src/Control/Accepted.antt =====
-- Which streams carry an acknowledgement.
use pulse_go.Base.{
  ℕ, ◌+◌, ◌*◌, ◌/◌, ◌%◌, ◌≤◌, ◌<◌, ◌^◌, ◌≡◌, ◌↔◌, ◌⊎◌, refl, sym, ap, ◌∙◌, arith, Option, none,
  some, List, [], ◌∷◌, ◌++◌, length, All, take, drop, take-append-drop, append_assoc, length-take,
  leb, ltb, leb→le, ltb_false→le, Bool-cases, inl, inr,
}
use pulse_go.Errors.{Error}
use pulse_go.Go.{ok, IsByte, Reader, read_full, be_uint, be_value}
use pulse_go.Stream.Frames.{framed, be_bytes4, read_full_append}
use pulse_go.Control.{
  Ack, string_eq, max_ack_bytes, check_type, parse_ack, read_ack_body, read_ack_length, read_ack,
}
use pulse_go.Control.Acks.{string_eq-≡}
use pulse_go.Control.Reading.{read_ack-framed}

-- The message is an acknowledgement or an error envelope.
abbrev pub IsEnvelope : Ack → Type 0
IsEnvelope ack = (ack.type_name ≡ "ack") ⊎ (ack.type_name ≡ "error")

be_bytes4-be_value :
    (a b c d : ℕ)
    → a < 256
    → b < 256
    → c < 256
    → d < 256
    → be_bytes4 (be_value 0 (a ∷ b ∷ c ∷ d ∷ [])) ≡ a ∷ b ∷ c ∷ d ∷ []
unfolding be_bytes4 be_value
be_bytes4-be_value a b c d ha hb hc hd =
    let n : ℕ = (((0 * 256 + a) * 256 + b) * 256 + c) * 256 + d in
    let e₁ : n / 2 ^ 24 % 256 ≡ a = omega (arith, ha, hb, hc, hd) in
    let e₂ : n / 2 ^ 16 % 256 ≡ b = omega (arith, ha, hb, hc, hd) in
    let e₃ : n / 2 ^ 8 % 256 ≡ c = omega (arith, ha, hb, hc, hd) in
    let e₄ : n % 256 ≡ d = omega (arith, ha, hb, hc, hd) in cc (e₁, e₂, e₃, e₄)

check_type-ok :
    (o : Option Ack) (ack : Ack) → check_type o ≡ ok ack → (o ≡ some ack) × IsEnvelope ack
unfolding check_type
check_type-ok none ack h = absurd (cc h)
check_type-ok (some a) ack h = elim (Bool-cases (string_eq a.type_name "ack")) [
  | inl e ↦
      let same : a ≡ ack = ground (arith, e, h) in
      (ap some same, inl (ap (λ x. x.type_name) (sym same) ∙ string_eq-≡ a.type_name "ack" e))
  | inr e ↦ elim (Bool-cases (string_eq a.type_name "error")) [
    | inl e' ↦
        let same : a ≡ ack = ground (arith, e, e', h) in
        (ap some same, inr (ap (λ x. x.type_name) (sym same) ∙ string_eq-≡ a.type_name "error" e'))
    | inr e' ↦ absurd (ground (arith, e, e', h))
  ]
]

check_type-some : (ack : Ack) → IsEnvelope ack → check_type (some ack) ≡ ok ack
unfolding check_type
check_type-some ack (inl e) = rw (check_type, e) refl
check_type-some ack (inr e) = rw (check_type, e) refl

module _ (unmarshal : List ℕ → Option Ack) where
  -- What an accepted acknowledgement needs.
  Carries : List ℕ → Ack → Type 0
  Carries bytes ack =
      (body : List ℕ) × (rest : List ℕ) × (bytes ≡ framed body ++ rest)
      × (length body ≤ max_ack_bytes)
      × (unmarshal body ≡ some ack)
      × IsEnvelope ack

  body-Carries :
      (prefix : List ℕ) (n : ℕ) (xs : List ℕ) (e : Error) (ack : Ack)
      → be_bytes4 n ≡ prefix
      → read_ack_body unmarshal (record { bytes = xs; ending = e }) n ≡ ok ack
      → Carries (prefix ++ xs) ack
  unfolding read_ack_body parse_ack read_full framed Carries
  body-Carries prefix n xs e ack same h = elim (Bool-cases (ltb max_ack_bytes n)) [
    | inl long ↦ absurd (ground (arith, long, h))
    | inr fits ↦ elim (Bool-cases (leb n (length xs))) [
      | inr short ↦ absurd (ground (arith, fits, short, h))
      | inl whole ↦
          let checked : check_type (unmarshal (take n xs)) ≡ ok ack =
            ground (arith, fits, whole, h) in
          let (found, envelope) = check_type-ok (unmarshal (take n xs)) ack checked in
          let exact : length (take n xs) ≡ n =
            length-take n xs ∙ omega (arith, leb→le n (length xs) whole) in
          let split : prefix ++ xs ≡ (be_bytes4 (length (take n xs)) ++ take n xs) ++ drop n xs =
            ap (λ p. p ++ xs) (sym same ∙ ap be_bytes4 (sym exact))
            ∙ ap (λ ys. be_bytes4 (length (take n xs)) ++ ys) (sym (take-append-drop n xs))
            ∙ sym (append_assoc (be_bytes4 (length (take n xs))) (take n xs) (drop n xs)) in
          (
            take n xs,
            drop n xs,
            split,
            omega (arith, exact, ltb_false→le max_ack_bytes n fits),
            found,
            envelope,
          )
    ]
  ]

  read_ack-Carries :
      (bytes : List ℕ) (e : Error) (ack : Ack)
      → All IsByte bytes
      → read_ack unmarshal (record { bytes = bytes; ending = e }) ≡ ok ack
      → Carries bytes ack
  unfolding read_ack read_ack_length read_full be_uint
  read_ack-Carries [] e ack bytes h = absurd (cc h)
  read_ack-Carries (a ∷ []) e ack bytes h = absurd (cc h)
  read_ack-Carries (a ∷ b ∷ []) e ack bytes h = absurd (cc h)
  read_ack-Carries (a ∷ b ∷ c ∷ []) e ack bytes h = absurd (cc h)
  read_ack-Carries (a ∷ b ∷ c ∷ d ∷ xs) e ack (ha, (hb, (hc, (hd, _)))) h =
      let prefix : List ℕ = a ∷ b ∷ c ∷ d ∷ [] in
      let read = ap (read_ack_length unmarshal) (read_full_append prefix xs e) in
      body-Carries prefix (be_value 0 prefix) xs e ack (be_bytes4-be_value a b c d ha hb hc hd)
        (sym read ∙ h)

  -- `readAck` accepts exactly a stream that starts with a length of 16 KiB at most and that many bytes
  -- of JSON, whatever follows them, in which the JSON decoder finds an acknowledgement or an error
  -- envelope; it returns what the decoder found.
  pub read_ack_iff :
      (r : Reader) (ack : Ack)
      → All IsByte r.bytes
      → (read_ack unmarshal r ≡ ok ack) ↔ (
          (body : List ℕ) × (rest : List ℕ) × (r.bytes ≡ framed body ++ rest)
          × (length body ≤ max_ack_bytes)
          × (unmarshal body ≡ some ack)
          × IsEnvelope ack)
  unfolding Carries
  read_ack_iff r ack bytes = (
    read_ack-Carries r.bytes r.ending ack bytes,
    λ (body, rest, split, fits, found, envelope).
        ap (λ b. read_ack unmarshal (record { bytes = b; ending = r.ending })) split
        ∙ read_ack-framed unmarshal body rest r.ending fits
        ∙ ap check_type found
        ∙ check_type-some ack envelope,
  )
