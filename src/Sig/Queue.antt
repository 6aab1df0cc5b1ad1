-- ===== src/Sig/Queue.antt =====
-- The handoff queue under every interleaving of `drain` with the callers of `Next`.
pub mod Steps
pub mod Delivered
use pulse_go.Base.{
  ℕ, zero, suc, ◌+◌, ◌-◌, ◌%◌, ◌^◌, ◌≡◌, ◌⊎◌, ◌≤◌, ◌<◌, refl, ap, sym, ◌∙◌, arith, Bool, true,
  false, Option, none, some, List, [], ◌∷◌, ◌++◌, length, length-append, append_assoc, append-nil,
  ltb, ltb→lt, ltb_false→le, lt→ltb, subst, Bool-cases, inl, inr, All, All-append, if◌then◌else◌,
}
use pulse_go.Errors.{Error, eof, map_error}
use pulse_go.Go.{ok, err}
use pulse_go.Wire.Datagram.{sig_first, heartbeat, unknown_datagram, Datagram}
use pulse_go.Sig.{
  SigFirstItem, SigFirstSub, Phase, receiving, sending, evicting, retrying, returned, Event,
  arrived, delivered, evicted, thrown_away, silent, arrival, drain_item, drain_error, drain_end,
  Taken, push_send, push_evict, push_retry, send, next, item, ended, waiting, Step, received,
  skipped, failed, sent, evicts, retried, taken, Run, start, then_step, new_sig_first_sub, drop_one,
  at_end,
}

-- The items that came in, those that left at the front, and how many were evicted.
unfoldable pub arrivals : List Event → List SigFirstItem
arrivals [] = []
arrivals (arrived it ∷ es) = it ∷ arrivals es
arrivals (_ ∷ es) = arrivals es

pub departures : List Event → List SigFirstItem
departures [] = []
departures (delivered it ∷ es) = it ∷ departures es
departures (evicted it ∷ es) = it ∷ departures es
departures (_ ∷ es) = departures es

unfoldable pub evictions : List Event → ℕ
evictions [] = 0
evictions (evicted it ∷ es) = suc (evictions es)
evictions (_ ∷ es) = evictions es

-- The item that `push` has in hand.
pub in_hand : Phase → List SigFirstItem
in_hand (sending it) = it ∷ []
in_hand (evicting it) = it ∷ []
in_hand (retrying it) = it ∷ []
in_hand _ = []

-- The retry finds room.
pub HasRoom : ℕ → List SigFirstItem → Phase → Type 0
HasRoom n q (retrying it) = length q < n
HasRoom n q _ = Unit {0}

abbrev pub IsKept : Event → Type 0
IsKept (thrown_away it) = ⊥
IsKept _ = Unit

-- Every item that arrived has left at the front, or is in the queue, or in the hand of `push`, in
-- this order; no item was thrown away; and the counter counts the evictions.
pub record Conserved (n : ℕ) (es : List Event) (s : SigFirstSub) : Type 0 where
  pub same_capacity : s.queue_capacity ≡ n
  pub bounded : length s.queue ≤ n
  pub room : HasRoom n s.queue s.phase
  pub in_order : arrivals es ≡ departures es ++ (s.queue ++ in_hand s.phase)
  pub counted : s.dropped ≡ evictions es % 2 ^ 64
  pub kept : All IsKept es

pub arrivals-append : (es fs : List Event) → arrivals (es ++ fs) ≡ arrivals es ++ arrivals fs
unfolding arrivals
arrivals-append [] fs = refl
arrivals-append (arrived it ∷ es) fs = ap (λ l. it ∷ l) (arrivals-append es fs)
arrivals-append (delivered it ∷ es) fs = arrivals-append es fs
arrivals-append (evicted it ∷ es) fs = arrivals-append es fs
arrivals-append (thrown_away it ∷ es) fs = arrivals-append es fs
arrivals-append (silent ∷ es) fs = arrivals-append es fs

departures-append : (es fs : List Event) → departures (es ++ fs) ≡ departures es ++ departures fs
unfolding departures
departures-append [] fs = refl
departures-append (arrived it ∷ es) fs = departures-append es fs
departures-append (delivered it ∷ es) fs = ap (λ l. it ∷ l) (departures-append es fs)
departures-append (evicted it ∷ es) fs = ap (λ l. it ∷ l) (departures-append es fs)
departures-append (thrown_away it ∷ es) fs = departures-append es fs
departures-append (silent ∷ es) fs = departures-append es fs

evictions-append : (es fs : List Event) → evictions (es ++ fs) ≡ evictions es + evictions fs
unfolding evictions
evictions-append [] fs = omega arith
evictions-append (arrived it ∷ es) fs = evictions-append es fs
evictions-append (delivered it ∷ es) fs = evictions-append es fs
evictions-append (evicted it ∷ es) fs = omega (arith, evictions-append es fs)
evictions-append (thrown_away it ∷ es) fs = evictions-append es fs
evictions-append (silent ∷ es) fs = evictions-append es fs

-- What one step has to do for the account to stay right.
pub record Balanced (n : ℕ) (s : SigFirstSub) (e : Event) (s' : SigFirstSub) : Type 0 where
  pub same_capacity : s'.queue_capacity ≡ n
  pub bounded : length s'.queue ≤ n
  pub room : HasRoom n s'.queue s'.phase
  pub moved :
      (s.queue ++ in_hand s.phase) ++ arrivals (e ∷ [])
      ≡ departures (e ∷ []) ++ (s'.queue ++ in_hand s'.phase)
  pub counted : s'.dropped ≡ (s.dropped + evictions (e ∷ [])) % 2 ^ 64
  pub kept : IsKept e

pub Conserved-step :
    (n : ℕ) (es : List Event) (s : SigFirstSub) (e : Event) (s' : SigFirstSub)
    → Conserved n es s
    → Balanced n s e s'
    → Conserved n (es ++ (e ∷ [])) s'
Conserved-step n es s e s' c b = record {
  same_capacity = b.same_capacity;
  bounded = b.bounded;
  room = b.room;
  in_order =
      rw
        (
          arrivals-append es (e ∷ []),
          departures-append es (e ∷ []),
          c.in_order,
          append_assoc (departures es) (s.queue ++ in_hand s.phase) (arrivals (e ∷ [])),
          b.moved,
        )
        (sym (append_assoc (departures es) (departures (e ∷ [])) (s'.queue ++ in_hand s'.phase)));
  counted = rw (evictions-append es (e ∷ [])) (omega (arith, c.counted, b.counted));
  kept = All-append IsKept es (e ∷ []) c.kept (b.kept, tt);
}
