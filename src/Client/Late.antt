-- ===== src/Client/Late.antt =====
-- The sig-first tier from `SubscribeSigFirst` to a caller who reads late.
use pulse_go.Base.{
  ℕ, suc, ◌-◌, ◌%◌, ◌^◌, ◌<◌, ◌≡◌, refl, sym, ap, ◌∙◌, arith, String, Option, List, All, length,
}
use pulse_go.Base.Int.{pos}
use pulse_go.Errors.{Error}
use pulse_go.Go.{Result, ok, IsByte}
use pulse_go.Control.{Ack}
use pulse_go.Message.{Filter, Json}
use pulse_go.Transport.{Peer, World}
use pulse_go.Sig.{SigFirstSub, new_sig_first_sub, drain_error, drain_end, ended}
use pulse_go.Sig.Window.{drain_alone, items_of, newest, collect}
use pulse_go.Sig.Window.Lists.{length-newest}
use pulse_go.Sig.Window.Laws.{drain_alone-newest}
use pulse_go.Sig.Window.Late.{collect-returned}
use pulse_go.Client.Admitted.{subscribe_sig_first_iff}
use pulse_go.Client.{Client, SigFirstHandle, subscribe_sig_first}

module _ (peer : Peer) (marshal : List (String × Json) → Result (List ℕ))
    (unmarshal : List ℕ → Option Ack) where
  pub subscribe_sig_first-new :
      (c : Client) (context : Option ℕ) (f : Filter) (w : World) (h : SigFirstHandle) (n : ℕ)
      → c.sig_queue_capacity ≡ pos n
      → (subscribe_sig_first peer marshal unmarshal c context f w).0 ≡ ok h
      → h.sub ≡ new_sig_first_sub n
  subscribe_sig_first-new c context f w h n capacity done =
      let (g, made) = (subscribe_sig_first_iff peer marshal unmarshal c context f w h).0 done in
      let same : g.capacity ≡ n = cc (g.sized, capacity) in
      sym (ap (λ h. h.sub) made) ∙ ap new_sig_first_sub same

  -- Where `SubscribeSigFirst` succeeds with a queue capacity of at least 1, the datagrams that then
  -- come are queued while nobody reads, and the connection ends with an error, a caller who only
  -- then calls `Next` gets the newest items that the datagrams carry, as many as the capacity of
  -- the queue, in order, and then the error; and `Dropped` counts the items that were lost, modulo
  -- 2^64.
  pub subscribe_sig_first-newest :
      (c : Client) (context : Option ℕ) (f : Filter) (w : World) (h : SigFirstHandle) (n : ℕ)
      (dgs : List (List ℕ)) (e : Error)
      → c.sig_queue_capacity ≡ pos n
      → 0 < n
      → (subscribe_sig_first peer marshal unmarshal c context f w).0 ≡ ok h
      → All (All IsByte) dgs
      → (s : SigFirstSub) × (drain_alone dgs h.sub ≡ ok s)
        × (collect (suc n) (drain_error e s) ≡ (newest n (items_of dgs), ended (drain_end e)))
        × (s.dropped ≡ (length (items_of dgs) - n) % 2 ^ 64)
  unfolding drain_error
  subscribe_sig_first-newest c context f w h n dgs e capacity positive done bytes =
      let fresh = subscribe_sig_first-new c context f w h n capacity done in
      let (s, ran, queued, lost, _) =
        drain_alone-newest dgs (new_sig_first_sub n) bytes refl (omega arith) positive
          (omega arith) in
      let short : length s.queue < suc n =
        rw queued (omega (arith, length-newest n (items_of dgs))) in
      (
        s,
        ap (drain_alone dgs) fresh ∙ ran,
        collect-returned (suc n) (drain_error e s) (drain_end e) refl short
            ∙ ap (λ q. (q, ended (drain_end e))) queued,
        omega (arith, lost),
      )
