-- ===== src/Sig/Window.antt =====
-- The handoff queue as a window on the newest items: the drain goroutine on its own, and the caller
-- who comes late.
pub mod Lists
pub mod Laws
pub mod Late
pub mod Reach
use pulse_go.Base.{
  All, drop-nil, ltb→lt, ltb_false→le, ◌⊎◌, ℕ, zero, suc, ◌+◌, ◌-◌, ◌%◌, ◌^◌, ◌≤◌, ◌<◌, ◌≡◌, refl,
  sym, ap, ap₂, ◌∙◌, arith, Option, none, some, List, [], ◌∷◌, ◌++◌, length, drop, length-append,
  length-drop, append_assoc, append-nil, Bool-cases, true, false, inl, inr, ltb,
}
use pulse_go.Errors.{Error}
use pulse_go.Go.{Result, ok, err, panic, IsByte}
use pulse_go.Wire.Datagram.Total.{decode_datagram_total}
use pulse_go.Sig.Drain.{drain_datagram_ok, drain_datagram_skip}
use pulse_go.Wire.Datagram.{Datagram, sig_first, heartbeat, unknown_datagram, decode_datagram}
use pulse_go.Sig.{
  Marks, Marks, note_item_seq, note_heartbeat_seq, SigFirstItem, SigFirstSub, receiving, sending,
  evicting, retrying, returned, drain_item, drain_datagram, drop_one, send, push_send, push_evict,
  push_retry, Taken, item, ended, waiting, at_end, next,
}

-- One `select` of `push`, where the drain goroutine is in it.
unfoldable pub producer : SigFirstSub → SigFirstSub
producer s = elim s.phase [
  | receiving ↦ s
  | sending it ↦ push_send it s
  | evicting it ↦ (push_evict it s).1
  | retrying it ↦ (push_retry it s).1
  | returned e ↦ s
]

-- `push` with no `Next` in between is at most three of them.
unfoldable pub push_alone : SigFirstSub → SigFirstSub
push_alone s = producer (producer (producer s))

-- A round of `drain` and then its `push`, one datagram after the other.
unfoldable pub drain_alone : List (List ℕ) → SigFirstSub → Result SigFirstSub
drain_alone [] s = ok s
drain_alone (dg ∷ dgs) s =
    pulse_go.Go.◌>>=◌ (drain_datagram dg s) (λ s'. drain_alone dgs (push_alone s'))

-- The last `n` of a list.
abbrev pub newest : {A : Type 0} → ℕ → List A → List A
newest n xs = drop (length xs - n) xs

-- The item of a datagram, if it is one of an item, and those of a stream of datagrams.
abbrev pub shown : Datagram → List SigFirstItem
shown (sig_first v) = record { slot = v.slot; seq = v.seq; signature = v.signature } ∷ []
shown (heartbeat v) = []
shown (unknown_datagram tag) = []

abbrev pub shown_result : Result Datagram → List SigFirstItem
shown_result (ok d) = shown d
shown_result (err e) = []
shown_result panic = []

unfoldable pub items_of : List (List ℕ) → List SigFirstItem
items_of [] = []
items_of (dg ∷ dgs) = shown_result (decode_datagram dg) ++ items_of dgs

-- A subscription whose drain goroutine is between two datagrams.
abbrev pub idle : ℕ → List SigFirstItem → ℕ → Marks → SigFirstSub
idle n q k m = record { queue_capacity = n; queue = q; dropped = k; marks = m; phase = receiving }

-- What a caller gets who calls `Next` until it returns no item, and the last answer. The fuel bounds
-- the number of calls.
unfoldable pub collect : ℕ → SigFirstSub → List SigFirstItem × Taken
collect zero s = ([], waiting)
collect (suc fuel) s = elim (next s) [
  | item it s' ↦ let (its, last) = collect fuel s' in (it ∷ its, last)
  | ended e ↦ ([], ended e)
  | waiting ↦ ([], waiting)
]
