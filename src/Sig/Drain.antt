-- ===== src/Sig/Drain.antt =====
-- The drain goroutine on any datagram, and what `Next` reports at the end.
use pulse_go.Base.{ℕ, ◌≡◌, refl, List, All, inl, inr, ◌⊎◌}
use pulse_go.Errors.{bad_frame}
use pulse_go.Go.{ok, err, IsByte}
use pulse_go.Wire.Datagram.{Datagram, decode_datagram}
use pulse_go.Wire.Datagram.Total.{Shows, IsShort, decode_datagram_total}
use pulse_go.Sig.{SigFirstSub, drain_item, drain_datagram}

pub drain_datagram_ok :
    (dg : List ℕ) (d : Datagram) (s : SigFirstSub)
    → decode_datagram dg ≡ ok d
    → drain_datagram dg s ≡ ok (drain_item d s)
unfolding drain_datagram
drain_datagram_ok dg d s e = rw (drain_datagram, e) refl

pub drain_datagram_skip :
    (dg : List ℕ) (s : SigFirstSub)
    → decode_datagram dg ≡ err bad_frame
    → drain_datagram dg s ≡ ok s
unfolding drain_datagram
drain_datagram_skip dg s e = rw (drain_datagram, e) refl

-- The drain goroutine survives any datagram: it goes on with the datagram that the bytes show, or,
-- where they are empty or too short for their tag, with its state unchanged.
pub drain_datagram_total :
    (dg : List ℕ) (s : SigFirstSub)
    → All IsByte dg
    → ((d : Datagram) × (drain_datagram dg s ≡ ok (drain_item d s)) × Shows dg d)
      ⊎ ((drain_datagram dg s ≡ ok s) × IsShort dg)
drain_datagram_total dg s bytes = elim (decode_datagram_total dg bytes) [
  | inl (d, e, shows) ↦ inl (d, drain_datagram_ok dg d s e, shows)
  | inr (e, short) ↦ inr (drain_datagram_skip dg s e, short)
]
