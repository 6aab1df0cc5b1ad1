-- ===== src/Wire/Tx/Exact.antt =====
-- What the transaction decoder accepts: exactly the laid out encodable transactions.
use pulse_go.Base.{
  ℕ, ◌^◌, ◌<◌, ◌≤◌, ◌≡◌, refl, ap, sym, subst, ◌∙◌, arith, not, List, [], ◌++◌, length, replicate,
  drop, set, length-replicate, append-nil, drop_all, All, ◌==◌, ltb, ◌↔◌, ◌⊎◌, inl, inr,
  ltb_false→le, ==_iff, if◌then◌else◌,
}
use native.Mathlib.Nat.{mod-eq_of_lt}
use pulse_go.Errors.{bad_frame}
use pulse_go.Go.{ok, err, le_bytes, IsByte}
use pulse_go.Go.Bytes.{copy_full}
use pulse_go.Go.Decodes.{
  Decodes, decoded, refused, Decodes-ok, Decodes-bind, Decodes-if, Decodes-cases,
}
use pulse_go.Wire.Decoder.{M, read_vector}
use pulse_go.Wire.Decoder.Sound.{
  Sound, Sound-bind, Sound-pure, Sound-take_bytes, Sound-u8, Sound-u16, Sound-u64, Sound-weaken,
  Sound-read_vector, Each-concat_map,
}
use pulse_go.Wire.Tx.{
  FullTx, max_full_tx_body, array_of, read_array, read_bytes, read_instruction, read_lookup,
  read_body, decode_full_tx_prefix, decode_full_tx, put_counted, encode_instruction, encode_lookup,
  put_vector, layout, encode_full_tx,
}
use pulse_go.Wire.Tx.Valid.{IsArray, IsCounted, IsInstruction, IsLookup, IsEncodable}
use pulse_go.Wire.Tx.RoundTrip.{decode_layout}

-- `m` reads what `enc` writes for a value with the property `P`, or refuses.
abbrev Reads {ℓ κ} : {A : Type ℓ} → (A → Type κ) → (A → List ℕ) → M A → Type (ℓ ⊔ κ)
Reads P enc m = Sound (λ a s. P a × (s ≡ enc a)) m

IsCounted-bytes :
    (n : ℕ) (s t : List ℕ)
    → n < 2 ^ 16
    → s ≡ le_bytes 2 n
    → All IsByte t
    → length t ≡ n
    → IsCounted t × (s ++ t ≡ put_counted t)
unfolding put_counted
IsCounted-bytes n s t lt e bytes l =
    let small : length t < 2 ^ 16 = omega arith in
    (
      (small, bytes),
      ap (λ u. u ++ t) e ∙ ap (λ k. le_bytes 2 k ++ t) (sym (mod-eq_of_lt small ∙ l)),
    )

array_whole : (n : ℕ) (a s : List ℕ) → a ≡ s → length s ≡ n → array_of n a ≡ s
array_whole n a s e l =
    ap (array_of n) e ∙ copy_full (replicate n 0) s (length-replicate n 0 ∙ sym l)

Reads-read_array : (n : ℕ) → Reads (IsArray n) (λ a. a) (read_array n)
unfolding read_array
Reads-read_array n =
    Sound-bind _ (Sound-take_bytes n)
      λ a s bytes (e, l). Sound-pure _ (rw (array_whole n a s e l) ((l, bytes), append-nil s))

Reads-read_bytes : Reads IsCounted put_counted read_bytes
unfolding read_bytes
Reads-read_bytes = Sound-bind _ Sound-u16 λ n s _ (lt, e).
    Sound-weaken (λ a t bytes (p, l). rw p (IsCounted-bytes n s t lt e bytes l))
      (Sound-take_bytes n)

Reads-read_instruction : Reads IsInstruction encode_instruction read_instruction
unfolding read_instruction encode_instruction
Reads-read_instruction = Sound-bind _ Sound-u8 λ pid s _ (lt, e).
    Sound-bind _ Reads-read_bytes λ acc t _ (counted, e').
      Sound-bind _ Reads-read_bytes λ dat u _ (counted', e''). Sound-pure _ (
        record { program_id_index = lt; accounts = counted; payload = counted' },
        rw (e, e', e'', append-nil, mod-eq_of_lt lt) refl,
      )

Reads-read_lookup : Reads IsLookup encode_lookup read_lookup
unfolding read_lookup encode_lookup
Reads-read_lookup = Sound-bind _ (Sound-take_bytes 32) λ key s bytes (e, l).
    Sound-bind _ Reads-read_bytes λ w t _ (counted, e').
      Sound-bind _ Reads-read_bytes λ r u _ (counted', e''). Sound-pure _ (
        rw (array_whole 32 key s e l) (
          record {
            account_key = (l, bytes);
            writable_indexes = counted;
            readonly_indexes = counted';
          },
          rw (e', e'', append-nil) refl,
        ))

Reads-read_vector {ℓ κ} :
    {A : Type ℓ} {P : A → Type κ} (enc : A → List ℕ) (k : ℕ) {element : M A}
    → Reads P enc element
    → Reads (λ xs. (length xs < 2 ^ 16) × All P xs) (put_vector enc) (read_vector k element)
unfolding put_vector
Reads-read_vector enc k p =
    Sound-weaken
      (λ xs s _ (lt, (t, e, each)).
        let (all, e') = Each-concat_map enc each in ((lt, all), rw (e, e', mod-eq_of_lt lt) refl))
      (Sound-read_vector k p)

-- `s` is the layout of the encodable transaction `ft`, with some byte for `Versioned`.
pub record IsLayout (ft : FullTx) (s : List ℕ) : Type 0 where
  pub flag : ℕ
  pub flag_byte : flag < 256
  pub versioned : ft.versioned ≡ not (flag == 0)
  pub encodable : IsEncodable ft
  pub bytes : s ≡ layout flag ft

Sound-read_body : Sound IsLayout read_body
unfolding read_body layout
Sound-read_body = Sound-bind _ Sound-u64 λ slot s₀ _ (lt, e₀).
    Sound-bind _ Sound-u8 λ nrs s₁ _ (lt₁, e₁). Sound-bind _ Sound-u8 λ nrsa s₂ _ (lt₂, e₂).
      Sound-bind _ Sound-u8 λ nrua s₃ _ (lt₃, e₃). Sound-bind _ Sound-u8 λ x s₄ _ (lt₄, e₄).
        Sound-bind _ (Reads-read_array 32) λ bh s₅ _ (p₅, e₅).
          Sound-bind _ (Reads-read_vector (λ s. s) 64 (Reads-read_array 64)) λ sigs s₆ _ (p₆, e₆).
            Sound-bind _ (Reads-read_vector (λ s. s) 32 (Reads-read_array 32)) λ keys s₇ _ (p₇, e₇).
              Sound-bind _ (Reads-read_vector encode_instruction 5 Reads-read_instruction)
                λ ixs s₈ _ (p₈, e₈).
                  Sound-bind _ (Reads-read_vector encode_lookup 36 Reads-read_lookup)
                    λ lus s₉ _ (p₉, e₉). Sound-pure _ (record {
                      flag = x;
                      flag_byte = lt₄;
                      versioned = refl;
                      encodable = record {
                        slot = lt;
                        num_required_signatures = lt₁;
                        num_readonly_signed_accounts = lt₂;
                        num_readonly_unsigned_account = lt₃;
                        recent_blockhash = p₅;
                        signatures = p₆;
                        account_keys = p₇;
                        instructions = p₈;
                        address_table_lookups = p₉;
                      };
                      bytes =
                          rw
                            (
                              e₀,
                              e₁,
                              e₂,
                              e₃,
                              e₄,
                              e₅,
                              e₆,
                              e₇,
                              e₈,
                              e₉,
                              append-nil,
                              mod-eq_of_lt lt₁,
                              mod-eq_of_lt lt₂,
                              mod-eq_of_lt lt₃,
                            )
                            refl;
                    })

-- What `decodeFullTxPrefix` answers on bytes: a transaction and the offset `n` behind its layout, or
-- `ErrBadFrame`.
pub decode_full_tx_prefix-Decodes :
    (b : List ℕ)
    → All IsByte b
    → Decodes
        (λ (ft, n).
          (length b ≤ max_full_tx_body)
          × ((s : List ℕ) × IsLayout ft s × (n ≡ length s) × (b ≡ s ++ drop n b)))
        (decode_full_tx_prefix b)
unfolding decode_full_tx_prefix
decode_full_tx_prefix-Decodes b bytes =
    Decodes-if (ltb max_full_tx_body (length b)) (λ _. refused refl)
      λ fits.
        Decodes-bind _ (Sound-read_body.run (record { b = b; off = 0 }) (omega arith) bytes)
          λ (ft, d) (s, c, l). decoded (
            ltb_false→le _ _ fits,
            (s, l, omega (arith, c.moved), c.split ∙ ap (λ x. s ++ drop d.off x) c.same),
          )

decode_full_tx-Decodes :
    (b : List ℕ)
    → All IsByte b
    → Decodes (λ ft. (length b ≤ max_full_tx_body) × IsLayout ft b) (decode_full_tx b)
unfolding decode_full_tx
decode_full_tx-Decodes b bytes =
    Decodes-bind _ (decode_full_tx_prefix-Decodes b bytes) λ (ft, n) (fits, (s, l, e, split)).
      Decodes-if (n == length b)
        (λ same.
          let whole : drop n b ≡ [] = drop_all n b (omega (arith, (==_iff n (length b)).0 same)) in
          let exact : s ≡ b = sym (split ∙ ap (λ x. s ++ x) whole ∙ append-nil s) in
          decoded (fits, subst (IsLayout ft) exact l))
        (λ _. refused refl)

-- `DecodeFullTx` accepts a byte string exactly when it is the layout of an encodable transaction, of
-- 64 KiB at most, and then returns that transaction; `Versioned` is whether byte 11 is not 0.
pub decode_full_tx_iff :
    (b : List ℕ) (ft : FullTx)
    → All IsByte b
    → (decode_full_tx b ≡ ok ft) ↔ ((length b ≤ max_full_tx_body) × IsLayout ft b)
unfolding decode_full_tx layout
decode_full_tx_iff b ft bytes = (
  Decodes-ok (decode_full_tx-Decodes b bytes),
  λ (fits, l).
      let whole =
        decode_layout l.flag ft [] l.encodable
          (subst (λ x. length x ≤ max_full_tx_body) (l.bytes ∙ sym (append-nil _)) fits) in
      let read : decode_full_tx_prefix b ≡ ok (ft, length b) =
        rw (l.bytes, l.versioned) (rw append-nil at whole) in
      rw (read, (==_iff (length b) (length b)).1 refl) refl,
)

-- On bytes `DecodeFullTx` never panics, and its only error is `ErrBadFrame`.
pub decode_full_tx_total :
    (b : List ℕ)
    → All IsByte b
    → ((ft : FullTx) × (decode_full_tx b ≡ ok ft)) ⊎ (decode_full_tx b ≡ err bad_frame)
decode_full_tx_total b bytes = elim (Decodes-cases (decode_full_tx-Decodes b bytes)) [
  | inl (ft, e, _) ↦ inl (ft, e)
  | inr e ↦ inr e
]

set-layout : (flag v : ℕ) (ft : FullTx) → set (layout flag ft) 11 v ≡ layout v ft
unfolding layout le_bytes
set-layout flag v ft = refl

-- Encoding what was decoded gives back the bytes, with byte 11, which may be any number for a
-- versioned transaction, put to 1 or 0.
pub encode_full_tx-decode_full_tx :
    (b : List ℕ) (ft : FullTx)
    → All IsByte b
    → decode_full_tx b ≡ ok ft
    → encode_full_tx ft ≡ set b 11 (if ft.versioned then 1 else 0)
unfolding encode_full_tx
encode_full_tx-decode_full_tx b ft bytes e =
    let l : IsLayout ft b = (Decodes-ok (decode_full_tx-Decodes b bytes) e).1 in
    sym (ap (λ x. set x 11 (if ft.versioned then 1 else 0)) l.bytes ∙ set-layout l.flag _ ft)
