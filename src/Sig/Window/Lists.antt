-- ===== src/Sig/Window/Lists.antt =====
-- The newest items of a list.
use pulse_go.Base.{
  drop-nil, ℕ, zero, suc, ◌+◌, ◌-◌, ◌%◌, ◌^◌, ◌≤◌, ◌≡◌, refl, sym, ap, ◌∙◌, arith, List, [], ◌∷◌,
  ◌++◌, length, drop, length-append, length-drop,
}
use pulse_go.Sig.Window.{newest}

suc_add : (i j : ℕ) → suc (i + j) ≡ suc i + j
suc_add i j = omega arith

module _ {A : Type 0} where
  pub drop-append_le :
      (i : ℕ) (xs ys : List A) → i ≤ length xs → drop i xs ++ ys ≡ drop i (xs ++ ys)
  drop-append_le zero xs ys h = refl
  drop-append_le (suc i) [] ys h = absurd (omega (arith, h))
  drop-append_le (suc i) (x ∷ xs) ys h = drop-append_le i xs ys (omega (arith, h))

  drop-drop : (i j : ℕ) (xs : List A) → drop j (drop i xs) ≡ drop (i + j) xs
  drop-drop zero j xs = ap (λ k. drop k xs) (omega arith)
  drop-drop (suc i) j [] = drop-nil A j ∙ sym (drop-nil A (suc i + j))
  drop-drop (suc i) j (x ∷ xs) = drop-drop i j xs ∙ ap (λ k. drop k (x ∷ xs)) (suc_add i j)

  pub newest-newest : (n : ℕ) (xs ys : List A) → newest n (newest n xs ++ ys) ≡ newest n (xs ++ ys)
  newest-newest n xs ys =
      let i : ℕ = length xs - n in
      let same = drop-append_le i xs ys (omega arith) in
      ap (newest n) same
      ∙ drop-drop i (length (drop i (xs ++ ys)) - n) (xs ++ ys)
      ∙ ap (λ j. drop j (xs ++ ys))
          (rw (length-drop i (xs ++ ys), length-append xs ys) (omega arith))

pub newest_all : {A : Type 0} (n : ℕ) (xs : List A) → length xs ≤ n → newest n xs ≡ xs
newest_all n xs h =
    let none_over : length xs - n ≡ 0 = omega (arith, h) in ap (λ j. drop j xs) none_over

pub length-newest : {A : Type 0} (n : ℕ) (xs : List A) → length (newest n xs) ≤ n
length-newest n xs = rw (length-drop (length xs - n) xs) (omega arith)

pub length-newest-append :
    {A : Type 0} (n : ℕ) (xs ys : List A)
    → (length xs - n) + (length (newest n xs ++ ys) - n) ≡ length (xs ++ ys) - n
length-newest-append n xs ys =
    rw (length-append (newest n xs) ys, length-append xs ys, length-drop (length xs - n) xs)
      (omega arith)

pub add_mod : (k a b c : ℕ) → a + b ≡ c → (((k + a) % 2 ^ 64) + b) % 2 ^ 64 ≡ (k + c) % 2 ^ 64
add_mod k a b c e = omega (arith, e)
