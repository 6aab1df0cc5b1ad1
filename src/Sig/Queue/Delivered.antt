-- ===== src/Sig/Queue/Delivered.antt =====
-- What the callers of `Next` are given, of all that arrived.
use pulse_go.Base.{
  Sublistᴰ, Sublist-before, ℕ, ◌+◌, ◌≡◌, ◌<◌, refl, sym, ap, ◌∙◌, arith, subst, List, [], ◌∷◌, ◌++◌,
  length, length-append,
}
use pulse_go.Sig.{
  SigFirstItem, SigFirstSub, Event, arrived, delivered, evicted, thrown_away, silent, Run,
}
use pulse_go.Sig.{Answer, gives, closed, cancelled, then_step, taken, gave_up}
use pulse_go.Errors.{Error}
use pulse_go.Go.{Result, ok, err, panic}
use pulse_go.Base.{Option}
use pulse_go.Sig.Queue.{arrivals, departures, evictions, in_hand}
use pulse_go.Sig.Queue.Steps.{Run-Conserved}

-- The items that `Next` returned, in the order of the calls.
unfoldable pub deliveries : List Event → List SigFirstItem
deliveries [] = []
deliveries (delivered it ∷ es) = it ∷ deliveries es
deliveries (_ ∷ es) = deliveries es

deliveries-departures : (es : List Event) → Sublistᴰ (deliveries es) (departures es)
unfolding deliveries departures
deliveries-departures [] = Sublistᴰ.slnil
deliveries-departures (arrived it ∷ es) = deliveries-departures es
deliveries-departures (delivered it ∷ es) = Sublistᴰ.cons-cons refl (deliveries-departures es)
deliveries-departures (evicted it ∷ es) = Sublistᴰ.cons (deliveries-departures es)
deliveries-departures (thrown_away it ∷ es) = deliveries-departures es
deliveries-departures (silent ∷ es) = deliveries-departures es

length-departures :
    (es : List Event) → length (departures es) ≡ length (deliveries es) + evictions es
unfolding deliveries departures evictions
length-departures [] = refl
length-departures (arrived it ∷ es) = length-departures es
length-departures (delivered it ∷ es) = omega (arith, length-departures es)
length-departures (evicted it ∷ es) = omega (arith, length-departures es)
length-departures (thrown_away it ∷ es) = length-departures es
length-departures (silent ∷ es) = length-departures es

-- Under every interleaving, with a capacity of at least 1: the calls of `Next` return items that
-- arrived, each at most once and in the order of arrival; and every item that arrived was returned,
-- was evicted, is in the queue, or is in the hand of `push`.
pub Run-deliveries :
    (n : ℕ) (es : List Event) (s : SigFirstSub)
    → 0 < n
    → Run n es s
    → Sublistᴰ (deliveries es) (arrivals es)
      × (length (arrivals es)
          ≡ (length (deliveries es) + evictions es) + (length s.queue + length (in_hand s.phase)))
Run-deliveries n es s positive run =
    let c = Run-Conserved n es s positive run in
    (
      subst (Sublistᴰ (deliveries es)) (sym c.in_order) (
          Sublist-before (deliveries es) (departures es) (s.queue ++ in_hand s.phase)
            (deliveries-departures es)),
      ap length c.in_order
          ∙ length-append (departures es) (s.queue ++ in_hand s.phase)
          ∙ omega (arith, length-departures es, length-append s.queue (in_hand s.phase)),
    )

abbrev item_in : Result SigFirstItem → List SigFirstItem
item_in (ok it) = it ∷ []
item_in (err e) = []
item_in panic = []

-- A call of `Next`, however it returns, is one step of the interleaving; the step delivers an item
-- just if the call returns one.
pub Answer-Run :
    (n : ℕ) (es : List Event) (s s' : SigFirstSub) (context : Option Error)
    (r : Result SigFirstItem)
    → Run n es s
    → Answer s context r s'
    → (e : Event) × Run n (es ++ (e ∷ [])) s' × (deliveries (e ∷ []) ≡ item_in r)
unfolding deliveries
Answer-Run n es s s' context r run (gives it s'' took) =
    (delivered it, then_step es s (delivered it) s'' run (taken it s'' took), refl)
Answer-Run n es s s' context r run (closed e over) =
    (silent, then_step es s silent s run (gave_up e), refl)
Answer-Run n es s s' context r run (cancelled e over) =
    (silent, then_step es s silent s run (gave_up e), refl)
