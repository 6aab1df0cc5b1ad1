-- ===== src/Transport/Extends.antt =====
-- Programs that only add calls of a kind: their composition, and a row of calls.
use pulse_go.Base.{
  All, All-append, ◌≡◌, refl, sym, ap, ◌∙◌, String, List, [], ◌∷◌, ◌++◌, append_assoc, append-nil,
}
use pulse_go.Go.{Result, ok, err, panic}
use pulse_go.Transport.{Call, Peer, World, M, ◌>>=◌, continue, lift, pure, perform}
use pulse_go.Transport.Sequence.{Row, calls_of, perform_all}

module _ (P : Call → Type 0) where
  -- From the one world to the other, calls with `P` are added, and `subscriptionTaken` stays.
  abbrev pub Extends : World → World → Type 0
  Extends w w' =
      (new : List Call) × (w'.calls ≡ w.calls ++ new)
      × All P new
      × (w'.subscription_taken ≡ w.subscription_taken)

  abbrev pub Adds : {A : Type 0} → M A → Type 0
  Adds m = (w : World) → Extends w (m w).1

  pub Extends-refl : (w : World) → Extends w w
  Extends-refl w = ([], sym (append-nil w.calls), tt, refl)

  pub Extends-trans : (u v w : World) → Extends u v → Extends v w → Extends u w
  Extends-trans u v w (xs, e, all, kept) (ys, e', all', kept') = (
    xs ++ ys,
    e' ∙ ap (λ cs. cs ++ ys) e ∙ append_assoc u.calls xs ys,
    All-append P xs ys all all',
    kept' ∙ kept,
  )

  -- What follows a result adds such calls, where it is run.
  pub continue-Extends :
      {A B : Type 0} (r : Result A) (u w : World) (f : A → M B)
      → Extends u w
      → ((a : A) → r ≡ ok a → Extends w (f a w).1)
      → Extends u (continue r w f).1
  continue-Extends (ok a) u w f first rest = Extends-trans u w (f a w).1 first (rest a refl)
  continue-Extends (err e) u w f first rest = first
  continue-Extends panic u w f first rest = first

  pub bind-Adds :
      {A B : Type 0} (m : M A) (f : A → M B) → Adds m → ((a : A) → Adds (f a)) → Adds (m >>= f)
  bind-Adds m f first rest w =
      continue-Extends (m w).0 w (m w).1 f (first w) (λ a e. rest a (m w).1)

  pub lift-Adds : {A : Type 0} (r : Result A) → Adds (lift r)
  lift-Adds r w = Extends-refl w

  pub pure-Adds : {A : Type 0} (a : A) → Adds (pure a)
  pure-Adds a w = Extends-refl w

  module _ (peer : Peer) where
    pub perform-Adds :
        (operation : String) (call : Call) → P call → Adds (perform peer operation call)
    unfolding perform
    perform-Adds operation call p w = (call ∷ [], refl, (p, tt), refl)

    pub perform_all-Adds :
        {B : Type 0} (row : Row) (k : M B)
        → All P (calls_of row)
        → Adds k
        → Adds (perform_all peer row k)
    unfolding perform_all
    perform_all-Adds [] k all rest = rest
    perform_all-Adds ((operation, call) ∷ row) k (p, all) rest =
        bind-Adds (perform peer operation call) (λ u. perform_all peer row k)
          (perform-Adds operation call p) (λ u. perform_all-Adds row k all rest)
