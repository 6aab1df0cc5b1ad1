-- ===== src/Tests/Queue.antt =====
-- The sig-first subscription at concrete inputs.
use pulse_go.Base.{◌+◌, ◌-◌, ◌≤◌, ◌≡◌, refl, arith, List, [], ◌∷◌, ◌++◌, length, replicate}
use pulse_go.Go.{ok}
use pulse_go.Wire.Datagram.{SigFirst, sig_first, decode_datagram}
use pulse_go.Wire.Datagram.Laws.{sig_first_bytes, decode_datagram-sig_first}
use pulse_go.Sig.{
  SigFirstItem, SigFirstSub, arrived, silent, Run, start, then_step, received, sent,
  new_sig_first_sub, drain_item, push_send,
}
use pulse_go.Sig.Queue.{Conserved}
use pulse_go.Sig.Queue.Steps.{Run-Conserved}
use pulse_go.Sig.Queue.{arrivals, evictions, in_hand}
use pulse_go.Sig.Queue.Delivered.{deliveries, Run-deliveries}
use pulse_go.Base.{Sublistᴰ, ◌+◌, length}
use pulse_go.Sig.{Event, delivered, taken, next, push_send}
use pulse_go.Sig.Gaps.{
  Sighting, of_item, of_heartbeat, notes, advances, no_marks, baseline, gaps_exact,
}
use pulse_go.Sig.Gaps.Loss.{missing, heard, highest, gaps_cover_loss}

-- Item 5 arrives first, 8 jumps ahead, 6 is late, and the heartbeat reports 10.
abbrev sightings : List Sighting
sightings = of_item 8 ∷ of_item 6 ∷ of_heartbeat 10 ∷ []

gaps_exact_example :
    (notes (of_item 5 ∷ sightings) no_marks).gaps + advances sightings (baseline 5) + 5
    ≡ (notes (of_item 5 ∷ sightings) no_marks).last_seq
gaps_exact_example =
    gaps_exact 5 sightings (omega arith) (omega arith, (omega arith, (omega arith, tt)))

gaps_cover_loss_example :
    ((notes (of_item 5 ∷ sightings) no_marks).last_seq ≡ highest 5 sightings)
    × (missing (λ n. heard n sightings) 5 (highest 5 sightings - 5)
        ≤ (notes (of_item 5 ∷ sightings) no_marks).gaps)
gaps_cover_loss_example =
    gaps_cover_loss 5 sightings (omega arith) (omega arith, (omega arith, (omega arith, tt)))

abbrev pub item : SigFirst
item = record { slot = 5; seq = 6; signature = replicate 64 7 }

item-decodes : decode_datagram (sig_first_bytes item ++ []) ≡ ok (sig_first item)
item-decodes = decode_datagram-sig_first item [] (omega arith) (omega arith) refl

abbrev pub queued : SigFirstItem
queued = record { slot = 5; seq = 6; signature = replicate 64 7 }

abbrev after_item : SigFirstSub
after_item = drain_item (sig_first item) (new_sig_first_sub 2)

one_item : Run 2 (arrived queued ∷ silent ∷ []) (push_send queued after_item)
unfolding drain_item
one_item =
    then_step (arrived queued ∷ []) after_item silent (push_send queued after_item)
      (then_step [] (new_sig_first_sub 2) (arrived queued) after_item start
        (received (sig_first_bytes item ++ []) (sig_first item) refl item-decodes))
      (sent queued refl)

Run-Conserved_example : Conserved 2 (arrived queued ∷ silent ∷ []) (push_send queued after_item)
Run-Conserved_example =
    Run-Conserved 2 (arrived queued ∷ silent ∷ []) (push_send queued after_item) (omega arith)
      one_item

-- The item is returned by `Next`.
abbrev returned_events : List Event
returned_events = (arrived queued ∷ silent ∷ []) ++ (delivered queued ∷ [])

abbrev emptied : SigFirstSub
emptied = record (push_send queued after_item) { queue = [] }

returned_item : Run 2 returned_events emptied
unfolding drain_item push_send next
returned_item =
    then_step (arrived queued ∷ silent ∷ []) (push_send queued after_item) (delivered queued)
      emptied one_item (taken queued emptied refl)

Run-deliveries_example :
    Sublistᴰ (deliveries returned_events) (arrivals returned_events)
    × (length (arrivals returned_events)
        ≡ (length (deliveries returned_events) + evictions returned_events)
          + (length emptied.queue + length (in_hand emptied.phase)))
Run-deliveries_example = Run-deliveries 2 returned_events emptied (omega arith) returned_item
