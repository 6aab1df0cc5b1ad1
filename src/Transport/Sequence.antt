-- ===== src/Transport/Sequence.antt =====
-- A row of calls, each with the operation that its error is wrapped in: all are answered, or the row
-- ends at the first that is not.
use pulse_go.Base.{
  ◌≡◌, ◌⊎◌, refl, ap, sym, ◌∙◌, subst, String, none, some, List, [], ◌∷◌, ◌++◌, inl, inr,
  Option-cases, append_assoc, append-nil,
}
use pulse_go.Errors.{Error, wrap_error}
use pulse_go.Go.{Result, ok, err, panic}
use pulse_go.Transport.{Call, Peer, World, M, ◌>>◌, continue, perform}

abbrev pub Row : Type 0
Row = List (String × Call)

abbrev pub calls_of : Row → List Call
calls_of [] = []
calls_of ((operation, call) ∷ row) = call ∷ calls_of row

abbrev pub and_calls : World → List Call → World
and_calls w cs = record w { calls = w.calls ++ cs }

-- A result that goes on was a value.
pub continue-ok :
    {A B : Type 0} (r : Result A) (w : World) (k : A → M B) (b : B)
    → (continue r w k).0 ≡ ok b
    → (a : A) × (r ≡ ok a) × (continue r w k ≡ k a w)
continue-ok (ok a) w k b h = (a, refl, refl)
continue-ok (err e) w k b h = absurd (cc h)
continue-ok panic w k b h = absurd (cc h)

module _ (peer : Peer) where
  unfoldable pub perform_all : {A : Type 0} → Row → M A → M A
  perform_all [] k = k
  perform_all ((operation, call) ∷ row) k = perform peer operation call >> perform_all row k

  -- Every call of the row is answered without an error.
  unfoldable pub AllAnswered : List Call → Row → Type 0
  AllAnswered calls [] = Unit {0}
  AllAnswered calls ((operation, call) ∷ row) =
      (peer.answer calls call ≡ none) × AllAnswered (calls ++ (call ∷ [])) row

  -- The row ends at a call that gets an error: those in front of it were answered, none behind it
  -- was made, and the error is the result, wrapped in the operation.
  pub record FailsAt {A : Type 0} (row : Row) (w : World) (r : Result A × World) : Type 0 where
    pub front : Row
    pub operation : String
    pub call : Call
    pub back : Row
    pub error : Error
    pub split : row ≡ front ++ ((operation, call) ∷ back)
    pub answered_front : AllAnswered w.calls front
    pub refused : peer.answer (w.calls ++ calls_of front) call ≡ some error
    pub outcome :
        r ≡ (err (wrap_error operation error), and_calls w (calls_of front ++ (call ∷ [])))

  module _ {A : Type 0} (k : M A) where
    perform_all-none :
        (operation : String) (call : Call) (row : Row) (w : World)
        → peer.answer w.calls call ≡ none
        → perform_all ((operation, call) ∷ row) k w ≡ perform_all row k (and_calls w (call ∷ []))
    unfolding perform_all perform
    perform_all-none operation call row w e = rw (perform_all, perform, e) refl

    perform_all-some :
        (operation : String) (call : Call) (row : Row) (w : World) (x : Error)
        → peer.answer w.calls call ≡ some x
        → perform_all ((operation, call) ∷ row) k w
          ≡ (err (wrap_error operation x), and_calls w (call ∷ []))
    unfolding perform_all perform
    perform_all-some operation call row w x e = rw (perform_all, perform, e) refl

    -- A row in front of `k` is made up to its first error, or whole and then `k` runs.
    pub perform_all-cases :
        (row : Row) (w : World)
        → (AllAnswered w.calls row × (perform_all row k w ≡ k (and_calls w (calls_of row))))
          ⊎ FailsAt row w (perform_all row k w)
    unfolding perform_all AllAnswered
    perform_all-cases [] w =
        inl (tt, ap (λ cs. k (record w { calls = cs })) (sym (append-nil w.calls)))
    perform_all-cases ((operation, call) ∷ row) w = elim (Option-cases (peer.answer w.calls call)) [
      | inr (x, e) ↦ inr (record {
        front = [];
        operation = operation;
        call = call;
        back = row;
        error = x;
        split = refl;
        answered_front = tt;
        refused = rw append-nil e;
        outcome = perform_all-some operation call row w x e;
      })
      | inl e ↦
          let step = perform_all-none operation call row w e in
          let w' = and_calls w (call ∷ []) in
          elim (perform_all-cases row w') [
            | inl (all, ran) ↦ inl (
              (e, all),
              step
                  ∙ ran
                  ∙ ap (λ cs. k (record w { calls = cs }))
                      (append_assoc w.calls (call ∷ []) (calls_of row)),
            )
            | inr f ↦ inr (record {
              front = (operation, call) ∷ f.front;
              operation = f.operation;
              call = f.call;
              back = f.back;
              error = f.error;
              split = ap (λ r. (operation, call) ∷ r) f.split;
              answered_front = (e, f.answered_front);
              refused =
                  subst (λ cs. peer.answer cs f.call ≡ some f.error)
                    (append_assoc w.calls (call ∷ []) (calls_of f.front)) f.refused;
              outcome =
                  step
                  ∙ f.outcome
                  ∙ ap (λ cs. (err (wrap_error f.operation f.error), record w { calls = cs }))
                      (append_assoc w.calls (call ∷ []) (calls_of f.front ++ (f.call ∷ [])));
            })
          ]
    ]

    pub perform_all-answered :
        (row : Row) (w : World)
        → AllAnswered w.calls row
        → perform_all row k w ≡ k (and_calls w (calls_of row))
    unfolding perform_all AllAnswered
    perform_all-answered [] w all =
        ap (λ cs. k (record w { calls = cs })) (sym (append-nil w.calls))
    perform_all-answered ((operation, call) ∷ row) w (e, all) =
        perform_all-none operation call row w e
        ∙ perform_all-answered row (and_calls w (call ∷ [])) all
        ∙ ap (λ cs. k (record w { calls = cs })) (append_assoc w.calls (call ∷ []) (calls_of row))
