-- ===== src/Examples/SigFirst/Stats.antt =====
-- What goes on in a batch of steps, and the line of examples/sigfirst behind its loop.
use pulse_go.Base.{
  Sublistᴰ, Sublist-before, ℕ, ◌%◌, ◌^◌, ◌<◌, ◌≡◌, refl, sym, ap, ◌∙◌, subst, List, [], ◌∷◌, ◌++◌,
  All, All-front, All-back, length, append_assoc,
}
use pulse_go.Errors.{Error}
use pulse_go.Go.{ok, IsByte}
use pulse_go.Sig.{SigFirstItem, SigFirstSub, Event, Run}
use pulse_go.Sig.Queue.{arrivals, evictions}
use pulse_go.Sig.Queue.Steps.{Run-Conserved}
use pulse_go.Sig.Queue.Delivered.{deliveries}
use pulse_go.Sig.Window.{items_of}
use pulse_go.Examples.{Line, queue_line, value, State, print}
use pulse_go.Examples.SigFirst.{
  DrainStep, drain_steps, first_batch, later_batches, print_stats, stats_line,
}
use pulse_go.Examples.SigFirst.Drained.{Reached, drain_steps-Onwards}
use pulse_go.Examples.SigFirst.Schedule.{
  datagrams_of, errors_of, items_of-append, all_datagrams, all_errors, all_datagrams-first,
  all_errors-first,
}

abbrev pub and_lines : {Pool : Type 0} → State Pool → List Line → State Pool
and_lines st lines = record st { printed = st.printed ++ lines }

-- The line is of the depth of the queue, of the evictions and of the gaps at three moments, one
-- after the other, all of them behind the last delivery.
pub record StatsRead (n : ℕ) (es : List Event) (left : SigFirstSub) (line : Line) : Type 0 where
  pub before : List Event
  pub between : List Event
  pub after : List Event
  pub all : es ≡ (before ++ between) ++ after
  pub behind : deliveries before ≡ deliveries es
  pub at_queued : SigFirstSub
  pub reached : Run n before at_queued
  pub printed :
      line
      ≡ queue_line
          (length at_queued.queue)
          n
          (evictions (before ++ between) % 2 ^ 64)
          left.marks.gaps

module _ (n : ℕ) (Came : Error → Type 0) where
  -- What goes on in the first of the batches.
  pub record Meanwhile (batches : List (List DrainStep)) (seen : List SigFirstItem)
      (es : List Event) (s : SigFirstSub) : Type 0 where
    pub after : SigFirstSub
    pub ran : drain_steps (first_batch batches) s ≡ ok after
    pub now : List SigFirstItem
    pub new : List Event
    pub reached : Reached n Came now (es ++ new) after
    pub quiet : deliveries (es ++ new) ≡ deliveries es
    pub bytes : All (All IsByte) (all_datagrams (later_batches batches))
    pub came : All Came (all_errors (later_batches batches))
    pub same :
        now ++ items_of (all_datagrams (later_batches batches))
        ≡ seen ++ items_of (all_datagrams batches)

  pub first_batch-Meanwhile :
      (batches : List (List DrainStep)) (seen : List SigFirstItem) (es : List Event)
      (s : SigFirstSub)
      → Reached n Came seen es s
      → All (All IsByte) (all_datagrams batches)
      → All Came (all_errors batches)
      → Meanwhile batches seen es s
  first_batch-Meanwhile batches seen es s r bytes came =
      let first = datagrams_of (first_batch batches) in
      let later = all_datagrams (later_batches batches) in
      let split = all_datagrams-first batches in
      let bs = subst (All (All IsByte)) split bytes in
      let cs = subst (All Came) (all_errors-first batches) came in
      let errors = errors_of (first_batch batches) in
      let later_errors = all_errors (later_batches batches) in
      let (s', ran, onwards) =
        drain_steps-Onwards n Came (first_batch batches) seen es s r
          (All-front (All IsByte) first later bs) (All-front Came errors later_errors cs) in
      record {
        after = s';
        ran = ran;
        now = seen ++ items_of first;
        new = onwards.new;
        reached = onwards.reached;
        quiet = onwards.quiet;
        bytes = All-back (All IsByte) first later bs;
        came = All-back Came errors later_errors cs;
        same =
            append_assoc seen (items_of first) (items_of later)
            ∙ ap (λ l. seen ++ l) (sym (ap items_of split ∙ items_of-append first later));
      }

  -- The line behind the loop.
  pub print_stats_lem :
      {Pool : Type 0} (batches : List (List DrainStep)) (seen : List SigFirstItem) (es : List Event)
      (s : SigFirstSub) (st : State Pool)
      → 0 < n
      → Reached n Came seen es s
      → All (All IsByte) (all_datagrams batches)
      → All Came (all_errors batches)
      → (es' : List Event) × (left : SigFirstSub) × (line : Line) × Run n es' left
        × Sublistᴰ (arrivals es') (seen ++ items_of (all_datagrams batches))
        × (deliveries es' ≡ deliveries es)
        × StatsRead n es' left line
        × (print_stats (s, batches) st ≡ (value tt, and_lines st (line ∷ [])))
  unfolding print_stats print
  print_stats_lem batches seen es s st positive r bytes came =
      let a = first_batch-Meanwhile batches seen es s r bytes came in
      let b =
        first_batch-Meanwhile (later_batches batches) a.now (es ++ a.new) a.after a.reached a.bytes
          a.came in
      let d =
        first_batch-Meanwhile (later_batches (later_batches batches)) b.now ((es ++ a.new) ++ b.new)
          b.after b.reached b.bytes b.came in
      let ca = Run-Conserved n (es ++ a.new) a.after positive a.reached.run in
      let cb = Run-Conserved n ((es ++ a.new) ++ b.new) b.after positive b.reached.run in
      let last = ((es ++ a.new) ++ b.new) ++ d.new in
      (
        last,
        d.after,
        stats_line a.after b.after d.after,
        d.reached.run,
        subst (Sublistᴰ (arrivals last)) (d.same ∙ b.same ∙ a.same)
            (Sublist-before (arrivals last) d.now _ d.reached.part),
        d.quiet ∙ b.quiet ∙ a.quiet,
        record {
          before = es ++ a.new;
          between = b.new;
          after = d.new;
          all = refl;
          behind = sym (d.quiet ∙ b.quiet);
          at_queued = a.after;
          reached = a.reached.run;
          printed =
              ap (λ c. queue_line (length a.after.queue) c b.after.dropped d.after.marks.gaps)
                ca.same_capacity
              ∙ ap (λ k. queue_line (length a.after.queue) n k d.after.marks.gaps) cb.counted;
        },
        rw (print_stats, a.ran, b.ran, d.ran) refl,
      )
