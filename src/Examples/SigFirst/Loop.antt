-- ===== src/Examples/SigFirst/Loop.antt =====
-- The loop of examples/sigfirst with the line behind it: which items it prints, and how it ends.
use pulse_go.Base.{
  Sublistᴰ, Sublist-before, ℕ, zero, suc, ◌+◌, ◌<◌, ◌≡◌, ◌⊎◌, refl, sym, ap, ◌∙◌, subst, arith,
  String, List, [], ◌∷◌, ◌++◌, All, length, length-append, map, append_assoc, inl, inr,
}
use pulse_go.Errors.{Error}
use pulse_go.Go.{IsByte}
use pulse_go.Sig.{
  SigFirstItem, SigFirstSub, returned, drain_end, next, waiting, delivered, Event, Run,
}
use pulse_go.Sig.Queue.{arrivals}
use pulse_go.Sig.Queue.Delivered.{deliveries}
use pulse_go.Sig.Window.{items_of}
use pulse_go.Examples.{
  Line, Ended, value, fatal, unfinished, State, Program, ◌>>=◌, ◌>>◌, continue, print, next_error,
}
use pulse_go.Examples.SigFirst.{
  DrainStep, line_of, gone_on, returned_by, receive, first_batch, later_batches, print_items,
  print_stats,
}
use pulse_go.Examples.SigFirst.Drained.{Reached, next-Reached}
use pulse_go.Examples.SigFirst.Schedule.{all_datagrams, all_errors}
use pulse_go.Examples.SigFirst.Stats.{and_lines, StatsRead, first_batch-Meanwhile, print_stats_lem}

map-append_one :
    (base58 : List ℕ → String) (xs : List SigFirstItem) (it : SigFirstItem)
    → map (line_of base58) (xs ++ (it ∷ [])) ≡ map (line_of base58) xs ++ (line_of base58 it ∷ [])
map-append_one base58 [] it = refl
map-append_one base58 (x ∷ xs) it = ap (λ l. line_of base58 x ∷ l) (map-append_one base58 xs it)

module _ {Pool : Type 0} (base58 : List ℕ → String) (n : ℕ) (Came : Error → Type 0) (wanted : ℕ)
    (start : State Pool) (positive : 0 < n) where
  -- The state when the items that were delivered have been printed.
  abbrev pub with_items : List Event → State Pool
  with_items es = and_lines start (map (line_of base58) (deliveries es))

  -- How the loop and the line behind it end.
  abbrev pub Ends : List SigFirstItem → Ended (Unit {0}) × State Pool → Type 0
  Ends total r =
      (es : List Event) × (left : SigFirstSub) × Run n es left
      × Sublistᴰ (arrivals es) total
      × (((length (deliveries es) ≡ wanted)
            × ((line : Line) × StatsRead n es left line
                × (r ≡ (value tt, and_lines (with_items es) (line ∷ [])))))
          ⊎ ((length (deliveries es) < wanted)
              × (left.queue ≡ [])
              × ((e : Error) × Came e
                  × (left.phase ≡ returned (drain_end e))
                  × (r ≡ (fatal (next_error (drain_end e)), with_items es))))
          ⊎ ((length (deliveries es) < wanted)
              × (left.queue ≡ [])
              × (next left ≡ waiting)
              × (r ≡ (unfinished, with_items es))))

  abbrev pub loop : ℕ → List (List DrainStep) → SigFirstSub → Program Pool (Unit {0})
  loop rounds batches s = print_items base58 rounds batches s >>= print_stats

  with_items-more :
      (es fs : List Event) (it : SigFirstItem)
      → deliveries fs ≡ deliveries es ++ (it ∷ [])
      → and_lines (with_items es) (line_of base58 it ∷ []) ≡ with_items fs
  with_items-more es fs it e =
      ap (λ lines. record start { printed = lines })
        (append_assoc start.printed (map (line_of base58) (deliveries es)) (line_of base58 it ∷ [])
          ∙ ap (λ l. start.printed ++ l)
              (sym (ap (map (line_of base58)) e ∙ map-append_one base58 (deliveries es) it)))

  pub print_items_lem :
      (rounds : ℕ) (batches : List (List DrainStep)) (seen : List SigFirstItem) (es : List Event)
      (s : SigFirstSub)
      → Reached n Came seen es s
      → All (All IsByte) (all_datagrams batches)
      → All Came (all_errors batches)
      → rounds + length (deliveries es) ≡ wanted
      → Ends (seen ++ items_of (all_datagrams batches)) (loop rounds batches s (with_items es))
  unfolding print_items print receive
  print_items_lem zero batches seen es s r bytes came count =
      let (es', left, line, run, part, same, read, ran) =
        print_stats_lem n Came batches seen es s (with_items es) positive r bytes came in
      (
        es',
        left,
        run,
        part,
        inl (
          ap length same ∙ omega (arith, count),
          (
            line,
            read,
            ran
                ∙ ap
                    (λ its. (
                      value tt,
                      and_lines (and_lines start (map (line_of base58) its)) (line ∷ []),
                    ))
                    (sym same),
          ),
        ),
      )
  print_items_lem (suc rounds) batches seen es s r bytes came count =
      let later = later_batches batches in
      let st = with_items es in
      let m = first_batch-Meanwhile n Came batches seen es s r bytes came in
      let go = λ (r : Ended (SigFirstItem × SigFirstSub) × State Pool).
        let r' : Ended (SigFirstSub × List (List DrainStep)) × State Pool =
          continue r.0 r.1
            (λ r. print (line_of base58 r.0) >> print_items base58 rounds later r.1) in
        continue r'.0 r'.1 print_stats in
      let got : receive (first_batch batches) s st ≡ returned_by (next m.after) st =
        ap (λ r. continue (gone_on r) st (λ s' st. returned_by (next s') st)) m.ran in
      let part =
        subst (Sublistᴰ (arrivals (es ++ m.new))) m.same
          (Sublist-before (arrivals (es ++ m.new)) m.now _ m.reached.part) in
      let counted = ap length m.quiet in
      let same : st ≡ with_items (es ++ m.new) =
        ap (λ its. and_lines start (map (line_of base58) its)) (sym m.quiet) in
      elim (next-Reached n Came m.now (es ++ m.new) m.after m.reached) [
        | inl (it, s', took, reached, handed) ↦
            let fs = (es ++ m.new) ++ (delivered it ∷ []) in
            let more = handed ∙ ap (λ l. l ++ (it ∷ [])) m.quiet in
            let rest =
              print_items_lem rounds later m.now fs s' reached m.bytes m.came
                (omega (arith, count, ap length more, length-append (deliveries es) (it ∷ []))) in
            let ran : loop (suc rounds) batches s st ≡ loop rounds later s' (with_items fs) =
              ap go (got ∙ ap (λ t. returned_by t st) took)
              ∙ ap (loop rounds later s') (with_items-more es fs it more) in
            subst (λ t. Ends t (loop (suc rounds) batches s st)) m.same
              (subst (Ends (m.now ++ items_of (all_datagrams later))) (sym ran) rest)
        | inr (inl (nothing, (x, over, phase))) ↦
            let (e, c, made) = m.reached.cause x phase in
            (
              es ++ m.new,
              m.after,
              m.reached.run,
              part,
              inr (
                  inl (
                    omega (arith, count, counted),
                    nothing,
                    (
                      e,
                      c,
                      phase ∙ ap returned made,
                      ap go (got ∙ ap (λ t. returned_by t st) over)
                          ∙ ap (λ x. (fatal (next_error x), st)) made
                          ∙ ap (λ st. (fatal (next_error (drain_end e)), st)) same,
                    ),
                  )),
            )
        | inr (inr (nothing, waits)) ↦ (
          es ++ m.new,
          m.after,
          m.reached.run,
          part,
          inr (
              inr (
                omega (arith, count, counted),
                nothing,
                waits,
                ap go (got ∙ ap (λ t. returned_by t st) waits) ∙ ap (λ st. (unfinished, st)) same,
              )),
        )
      ]
