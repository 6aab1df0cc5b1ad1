-- ===== src/Wire/Decoder/Sound.antt =====
-- What a decoder method that succeeds has read: `Sound`, and its rules.
use pulse_go.Base.{
  ℕ, zero, suc, ◌+◌, ◌^◌, ◌<◌, ◌≤◌, ◌≡◌, refl, ap, sym, ◌∙◌, arith, Bool, true, false, List, [],
  ◌∷◌, ◌++◌, length, take, drop, ltb, length-append, length-take, length-drop, drop-drop,
  append_assoc, take-append-drop, append-nil, All, All-take, All-drop, concat_map, All-append,
  subst, ltb_false→le, if◌then◌else◌,
}
use pulse_go.Errors.{bad_frame}
use pulse_go.Go.{Result, ok, err, index, le_uint, le_bytes, IsByte}
use pulse_go.Go.Bytes.{slice-add, le_uint_full, le_bytes-le_value, le_value-lt}
use pulse_go.Go.Decodes.{Decodes, decoded, refused, Decodes-bind, Decodes-if, Decodes-weaken}
use pulse_go.Wire.Decoder.{
  Decoder, M, pure, ◌>>=◌, lift, take_bytes, u8, u16, u64, remaining, count, read_n, read_vector,
}

-- From `d` to `d'` the bytes `s` were read.
pub record Consumed (s : List ℕ) (d d' : Decoder) : Type 0 where
  pub same : d'.b ≡ d.b
  pub moved : d'.off ≡ d.off + length s
  pub inside : d'.off ≤ length d'.b
  pub split : drop d.off d.b ≡ s ++ drop d'.off d'.b
  pub bytes : All IsByte s

-- Inside a buffer of bytes `m` reads some bytes `s` and returns an `a` with `Q a s`, or refuses.
pub record Sound {ℓ κ} {A : Type ℓ} (Q : A → List ℕ → Type κ) (m : M A) : Type (ℓ ⊔ κ) where
  pub run :
      (d : Decoder)
      → d.off ≤ length d.b
      → All IsByte d.b
      → Decodes (λ r. (s : List ℕ) × Consumed s d r.1 × Q r.0 s) (m d)

Consumed-append :
    (s t : List ℕ) {d d' d'' : Decoder}
    → Consumed s d d'
    → Consumed t d' d''
    → Consumed (s ++ t) d d''
Consumed-append s t p q = record {
  same = q.same ∙ p.same;
  moved = omega (arith, p.moved, q.moved, length-append s t);
  inside = q.inside;
  split = rw (p.split, q.split, append_assoc) refl;
  bytes = All-append IsByte s t p.bytes q.bytes;
}

pub Sound-bind {ℓ κ ℓ' κ'} :
    {A : Type ℓ} {B : Type ℓ'} {P : A → List ℕ → Type κ} {Q : B → List ℕ → Type κ'} {m : M A}
    (f : A → M B)
    → Sound P m
    → ((a : A) (s : List ℕ) → All IsByte s → P a s → Sound (λ c t. Q c (s ++ t)) (f a))
    → Sound Q (m >>= f)
Sound-bind {Q} f p k = record {
  run = λ d inside bytes.
      Decodes-bind (λ (a, d'). f a d') (p.run d inside bytes)
        λ (a, d') (s, c, h).
          Decodes-weaken (λ (r, d'') (t, c', q). (s ++ t, Consumed-append s t c c', q))
            ((k a s c.bytes h).run d' c.inside (subst (All IsByte) (sym c.same) bytes));
}

Consumed-none : (d : Decoder) → d.off ≤ length d.b → Consumed [] d d
Consumed-none d inside = record {
  same = refl;
  moved = omega arith;
  inside = inside;
  split = refl;
  bytes = tt;
}

pub Sound-pure {ℓ κ} : {A : Type ℓ} {Q : A → List ℕ → Type κ} (a : A) → Q a [] → Sound Q (pure a)
Sound-pure a q = record { run = λ d inside bytes. decoded ([], Consumed-none d inside, q) }

taken : (d : Decoder) (n : ℕ) → d.off + n ≤ length d.b → length (take n (drop d.off d.b)) ≡ n
taken d n h = omega (arith, length-take n (drop d.off d.b), length-drop d.off d.b)

pub Sound-take_bytes : (n : ℕ) → Sound (λ a s. (a ≡ s) × (length s ≡ n)) (take_bytes n)
unfolding take_bytes
Sound-take_bytes n = record {
  run = λ d inside bytes.
      Decodes-if (ltb (length d.b) (d.off + n)) (λ _. refused refl)
        λ fits.
          let room : d.off + n ≤ length d.b = ltb_false→le _ _ fits in
          rw (slice-add d.b d.off n room) (
            decoded (
              take n (drop d.off d.b),
              record {
                same = refl;
                moved = omega (arith, taken d n room);
                inside = room;
                split =
                    sym (take-append-drop n (drop d.off d.b))
                    ∙ ap (λ r. take n (drop d.off d.b) ++ r) (drop-drop d.off n d.b);
                bytes = All-take IsByte n _ (All-drop IsByte d.off d.b bytes);
              },
              (refl, taken d n room),
            ));
}

module _ {ℓ κ} {A : Type ℓ} {Q : A → List ℕ → Type κ} where
  pub Sound-lift : {r : Result A} {a : A} → r ≡ ok a → Q a [] → Sound Q (lift r)
  Sound-lift {a} e q = rw e (Sound-pure a q)

  pub Sound-refuse : Sound Q (lift (err bad_frame))
  Sound-refuse = record { run = λ d inside bytes. refused refl }

  pub Sound-if : (t : Bool) {x y : M A} → Sound Q x → Sound Q y → Sound Q (if t then x else y)
  Sound-if true hx hy = hx
  Sound-if false hx hy = hy

  pub Sound-weaken {κ'} :
      {P : A → List ℕ → Type κ'} {m : M A}
      → ((a : A) (s : List ℕ) → All IsByte s → P a s → Q a s)
      → Sound P m
      → Sound Q m
  Sound-weaken k p = record {
    run = λ d inside bytes.
        Decodes-weaken (λ (a, d') (s, c, h). (s, c, k a s c.bytes h)) (p.run d inside bytes);
  }

one_byte :
    (s : List ℕ)
    → All IsByte s
    → length s ≡ 1
    → Sound (λ v t. (v < 256) × (s ++ t ≡ v ∷ [])) (lift (index s 0))
unfolding index
one_byte [] bytes e = absurd (omega arith)
one_byte (x ∷ []) (h, hs) e = Sound-pure x (h, refl)
one_byte (x ∷ y ∷ s) bytes e = absurd (omega arith)

pub Sound-u8 : Sound (λ v s. (v < 256) × (s ≡ v ∷ [])) u8
unfolding u8
Sound-u8 = Sound-bind _ (Sound-take_bytes 1) λ a s bytes h. rw h.0 (one_byte s bytes h.1)

le_read :
    (s : List ℕ)
    → All IsByte s
    → Sound
        (λ v t. (v < 256 ^ length s) × (s ++ t ≡ le_bytes (length s) v))
        (lift (le_uint (length s) s))
le_read s bytes =
    Sound-lift (le_uint_full (length s) s refl)
      (le_value-lt s bytes, append-nil s ∙ sym (le_bytes-le_value s bytes))

Sound-le :
    (k : ℕ)
    → Sound (λ v s. (v < 256 ^ k) × (s ≡ le_bytes k v)) (do s ← take_bytes k; lift (le_uint k s))
Sound-le k = Sound-bind _ (Sound-take_bytes k) λ a s bytes h. rw (h.0, ← h.1) (le_read s bytes)

pub Sound-u16 : Sound (λ v s. (v < 2 ^ 16) × (s ≡ le_bytes 2 v)) u16
unfolding u16
Sound-u16 = Sound-le 2

pub Sound-u64 : Sound (λ v s. (v < 2 ^ 64) × (s ≡ le_bytes 8 v)) u64
unfolding u64
Sound-u64 = Sound-le 8

Sound-remaining : Sound (λ v s. s ≡ []) remaining
unfolding remaining
Sound-remaining = record { run = λ d inside bytes. decoded ([], Consumed-none d inside, refl) }

pub Sound-count : (k : ℕ) → Sound (λ v s. (v < 2 ^ 16) × (s ≡ le_bytes 2 v)) (count k)
unfolding count
Sound-count k = Sound-bind _ Sound-u16 λ n s bytes (lt, e).
    Sound-bind _ Sound-remaining λ left t more none_read.
      Sound-if _ Sound-refuse
        (Sound-pure n (lt, ap (λ u. s ++ (u ++ [])) none_read ∙ append-nil s ∙ e))

-- The bytes of a sequence are those of its elements, one after the other.
pub data Each {ℓ κ} {A : Type ℓ} (Q : A → List ℕ → Type κ) : List A → List ℕ → Type (ℓ ⊔ κ) where
  none_left : Each Q [] []
  one_more : {x : A} {xs : List A} {s t : List ℕ} → Q x s → Each Q xs t → Each Q (x ∷ xs) (s ++ t)

module _ {ℓ κ} {A : Type ℓ} {Q : A → List ℕ → Type κ} where
  pub Sound-read_n :
      (n : ℕ) {element : M A}
      → Sound Q element
      → Sound (λ xs s. (length xs ≡ n) × Each Q xs s) (read_n n element)
  unfolding read_n
  Sound-read_n zero p = Sound-pure [] (refl, none_left)
  Sound-read_n (suc n) p = Sound-bind _ p λ x s bytes q.
      Sound-bind _ (Sound-read_n n p) λ xs t more (e, qs).
        Sound-pure (x ∷ xs)
          (ap suc e, subst (λ u. Each Q (x ∷ xs) (s ++ u)) (sym (append-nil t)) (one_more q qs))

  pub Sound-read_vector :
      (k : ℕ) {element : M A}
      → Sound Q element
      → Sound
          (λ xs s.
            (length xs < 2 ^ 16) × ((t : List ℕ) × (s ≡ le_bytes 2 (length xs) ++ t) × Each Q xs t))
          (read_vector k element)
  unfolding read_vector
  Sound-read_vector k p = Sound-bind _ (Sound-count k) λ n s bytes (lt, e).
      Sound-weaken (λ xs t _ (h, qs). (rw h lt, (t, rw (e, h) refl, qs))) (Sound-read_n n p)

pub Each-concat_map {ℓ κ} :
    {A : Type ℓ} {P : A → Type κ} (enc : A → List ℕ) {xs : List A} {s : List ℕ}
    → Each (λ x t. P x × (t ≡ enc x)) xs s
    → All P xs × (s ≡ concat_map enc xs)
Each-concat_map enc none_left = (tt, refl)
Each-concat_map enc (one_more (p, e) h) =
    let (ps, e') = Each-concat_map enc h in ((p, ps), rw (e, e') refl)
