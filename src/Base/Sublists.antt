-- ===== src/Base/Sublists.antt =====
-- Ordered subsequences of lists, with the library's data type of them.
use mathlib.Core.List.{List, [], ◌∷◌, ◌++◌, append-nil}
pub use mathlib.Core.List.{Sublistᴰ}
use mathlib.Core.List.Sublistᴰ
use mathlib.Core.Path.{subst}
use Prim.Native.Nat.{ℕ, zero, suc}
use pulse_go.Base.Lists.{drop}

module _ {ℓ} {A : Type ℓ} where
  -- Something more behind the longer list.
  pub Sublist-before : (xs ys zs : List A) → Sublistᴰ xs ys → Sublistᴰ xs (ys ++ zs)
  Sublist-before xs ys zs s =
      subst (λ l. Sublistᴰ l (ys ++ zs)) (append-nil xs)
        (Sublistᴰ.append s (Sublistᴰ.nil-sublist zs))

  pub drop-Sublist : (n : ℕ) (xs : List A) → Sublistᴰ (drop n xs) xs
  drop-Sublist zero xs = Sublistᴰ.refl xs
  drop-Sublist (suc n) [] = Sublistᴰ.slnil
  drop-Sublist (suc n) (x ∷ xs) = Sublistᴰ.cons (drop-Sublist n xs)
