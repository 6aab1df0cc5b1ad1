-- ===== src/Examples/SigFirst/Schedule.antt =====
-- What a schedule of the drain goroutine holds: its datagrams and its errors.
use pulse_go.Base.{ℕ, ◌≡◌, refl, sym, ap, ◌∙◌, List, [], ◌∷◌, ◌++◌, All, append_assoc}
use pulse_go.Errors.{Error}
use pulse_go.Wire.Datagram.{decode_datagram}
use pulse_go.Sig.Window.{items_of, shown_result}
use pulse_go.Examples.SigFirst.{
  DrainStep, datagram, connection_error, select, first_batch, later_batches,
}

-- The datagrams and the errors among the steps.
abbrev pub datagrams_of : List DrainStep → List (List ℕ)
datagrams_of [] = []
datagrams_of (datagram dg ∷ steps) = dg ∷ datagrams_of steps
datagrams_of (connection_error e ∷ steps) = datagrams_of steps
datagrams_of (select ∷ steps) = datagrams_of steps

abbrev pub errors_of : List DrainStep → List Error
errors_of [] = []
errors_of (datagram dg ∷ steps) = errors_of steps
errors_of (connection_error e ∷ steps) = e ∷ errors_of steps
errors_of (select ∷ steps) = errors_of steps

pub items_of-append : (xs ys : List (List ℕ)) → items_of (xs ++ ys) ≡ items_of xs ++ items_of ys
unfolding items_of
items_of-append [] ys = refl
items_of-append (x ∷ xs) ys =
    ap (λ l. shown_result (decode_datagram x) ++ l) (items_of-append xs ys)
    ∙ sym (append_assoc (shown_result (decode_datagram x)) (items_of xs) (items_of ys))

pub items_of-cons :
    (d : DrainStep) (steps : List DrainStep)
    → items_of (datagrams_of (d ∷ steps))
      ≡ items_of (datagrams_of (d ∷ [])) ++ items_of (datagrams_of steps)
unfolding items_of
items_of-cons (datagram dg) steps = items_of-append (dg ∷ []) (datagrams_of steps)
items_of-cons (connection_error e) steps = refl
items_of-cons select steps = refl

pub split_datagrams :
    (P : List ℕ → Type 0) (d : DrainStep) (steps : List DrainStep)
    → All P (datagrams_of (d ∷ steps))
    → All P (datagrams_of (d ∷ [])) × All P (datagrams_of steps)
split_datagrams P (datagram dg) steps (p, ps) = ((p, tt), ps)
split_datagrams P (connection_error e) steps ps = (tt, ps)
split_datagrams P select steps ps = (tt, ps)

pub split_errors :
    (P : Error → Type 0) (d : DrainStep) (steps : List DrainStep)
    → All P (errors_of (d ∷ steps))
    → All P (errors_of (d ∷ [])) × All P (errors_of steps)
split_errors P (datagram dg) steps ps = (tt, ps)
split_errors P (connection_error e) steps (p, ps) = ((p, tt), ps)
split_errors P select steps ps = (tt, ps)

-- All the datagrams of the batches, and all the errors.
abbrev pub all_datagrams : List (List DrainStep) → List (List ℕ)
all_datagrams [] = []
all_datagrams (batch ∷ batches) = datagrams_of batch ++ all_datagrams batches

abbrev pub all_errors : List (List DrainStep) → List Error
all_errors [] = []
all_errors (batch ∷ batches) = errors_of batch ++ all_errors batches

pub all_datagrams-first :
    (batches : List (List DrainStep))
    → all_datagrams batches
      ≡ datagrams_of (first_batch batches) ++ all_datagrams (later_batches batches)
all_datagrams-first [] = refl
all_datagrams-first (batch ∷ batches) = refl

pub all_errors-first :
    (batches : List (List DrainStep))
    → all_errors batches ≡ errors_of (first_batch batches) ++ all_errors (later_batches batches)
all_errors-first [] = refl
all_errors-first (batch ∷ batches) = refl
