-- ===== src/Sig/Window/Late.antt =====
-- What a late caller of `Next` gets.
use pulse_go.Base.{ℕ, zero, suc, ◌<◌, ◌≡◌, refl, ap, ◌∙◌, arith, List, [], ◌∷◌, length}
use pulse_go.Errors.{Error}
use pulse_go.Sig.{Marks, Marks, SigFirstItem, SigFirstSub, returned, ended, next}
use pulse_go.Sig.Window.{idle, collect}

collect_queue :
    (fuel n k : ℕ) (q : List SigFirstItem) (m : Marks) (e : Error)
    → length q < fuel
    → collect fuel (record (idle n q k m) { phase = returned e }) ≡ (q, ended e)
unfolding collect next
collect_queue zero n k q m e h = absurd (omega (arith, h))
collect_queue (suc fuel) n k [] m e h = refl
collect_queue (suc fuel) n k (it ∷ q) m e h =
    ap (λ (its, last). (it ∷ its, last)) (collect_queue fuel n k q m e (omega (arith, h)))

-- A caller of `Next` is served: when the drain goroutine has returned with an error, as many calls
-- of `Next` as items are queued return those items, in order, and the call after them returns the
-- error. The fuel bounds the calls and has to exceed the number of items.
pub collect-returned :
    (fuel : ℕ) (s : SigFirstSub) (e : Error)
    → s.phase ≡ returned e
    → length s.queue < fuel
    → collect fuel s ≡ (s.queue, ended e)
collect-returned fuel s e over enough =
    ap (λ p. collect fuel (record s { phase = p })) over
    ∙ collect_queue fuel s.queue_capacity s.dropped s.queue s.marks e enough
