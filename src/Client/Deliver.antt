-- ===== src/Client/Deliver.antt =====
-- The full-tx tier from `SubscribeFull` to the end of the stream.
use pulse_go.Base.{
  ℕ, zero, suc, ◌≤◌, ◌<◌, ◌≡◌, ap, ◌∙◌, refl, String, Option, none, some, List, [], ◌∷◌, ◌++◌, All,
  length, map,
}
use pulse_go.Base.{is_empty, if◌then◌else◌}
use pulse_go.Errors.{Error, eof, bad_frame}
use pulse_go.Go.{Result, ok, err, panic}
use pulse_go.Control.{Ack}
use pulse_go.Message.{Filter, Json, Strings}
use pulse_go.Transport.{Peer, World}
use pulse_go.Wire.Frame.{FullTxV2, full_tx_v2, decode_frame}
use pulse_go.Stream.{HeartbeatState, max_full_tx_frame}
use pulse_go.Stream.Frames.{Quiet, quiet_stream, framed, latest, next_frame_lem}
use pulse_go.Stream.Closed.{Cut, cut_bytes, next_frame-truncated}
use pulse_go.Client.{Client, FullSub, left_sub, subscribe_full, next_full}
use pulse_go.Client.Subscribe.{Granted, granted_sub, granted_world}
use pulse_go.Client.Subscribe.Complete.{subscribe_full-Granted}

-- A transaction frame on the stream, with the heartbeats and unknown frames in front of it.
pub record Delivery : Type 0 where
  pub passed : List Quiet
  pub body : List ℕ
  pub transaction : FullTxV2
  pub fits : length body ≤ max_full_tx_frame
  pub decodes : decode_frame body ≡ ok (full_tx_v2 transaction)

unfoldable pub stream_of : List Delivery → List ℕ → List ℕ
stream_of [] end = end
stream_of (d ∷ ds) end = quiet_stream d.passed ++ (framed d.body ++ stream_of ds end)

unfoldable pub latest_of : List Delivery → Option HeartbeatState → Option HeartbeatState
latest_of [] hb = hb
latest_of (d ∷ ds) hb = latest_of ds (latest d.passed hb)

-- What a caller of `Next` has until it returns no transaction: the transactions, the error, and the
-- subscription as it is then.
pub record Collected : Type 0 where
  pub transactions : List FullTxV2
  pub stopped : Option Error
  pub left : FullSub

abbrev pub and_transaction : FullTxV2 → Collected → Collected
and_transaction v x = record x { transactions = v ∷ x.transactions }

unfoldable pub collect_full : ℕ → ℕ → FullSub → Collected
collect_full zero fuel s = record { transactions = []; stopped = none; left = s }
collect_full (suc calls) fuel s = elim (next_full fuel s) [
  | none ↦ record { transactions = []; stopped = none; left = s }
  | some (ok v, s') ↦ and_transaction v (collect_full calls fuel s')
  | some (err e, s') ↦ record { transactions = []; stopped = some e; left = s' }
  | some (panic, s') ↦ record { transactions = []; stopped = none; left = s' }
]

-- The error at the plain end of a stream.
abbrev pub end_error : Cut → Error
end_error cut = if is_empty (cut_bytes cut) then eof else bad_frame

-- A subscription that is about to read these bytes, which end plainly.
abbrev pub at : FullSub → List ℕ → Option HeartbeatState → FullSub
at s b hb = record s { rs = record { bytes = b; ending = eof }; heartbeat = hb }

pub next_full-delivery :
    (d : Delivery) (more : List ℕ) (fuel : ℕ) (s : FullSub) (hb : Option HeartbeatState)
    → length d.passed < fuel
    → next_full fuel (at s (quiet_stream d.passed ++ (framed d.body ++ more)) hb)
      ≡ some (ok d.transaction, at s more (latest d.passed hb))
unfolding next_full
next_full-delivery d more fuel s hb enough =
    ap (left_sub s)
      (next_frame_lem d.passed d.body more d.transaction eof hb fuel d.fits d.decodes enough)

pub next_full-end :
    (qs : List Quiet) (cut : Cut) (fuel : ℕ) (s : FullSub) (hb : Option HeartbeatState)
    → length qs < fuel
    → next_full fuel (at s (quiet_stream qs ++ cut_bytes cut) hb)
      ≡ some (err (end_error cut), at s [] (latest qs hb))
unfolding next_full
next_full-end qs cut fuel s hb enough = ap (left_sub s) (next_frame-truncated qs cut hb fuel enough)

collect_full-stream_of :
    (ds : List Delivery) (qs : List Quiet) (cut : Cut) (fuel : ℕ) (s : FullSub)
    (hb : Option HeartbeatState)
    → All (λ d. length d.passed < fuel) ds
    → length qs < fuel
    → collect_full
        (suc (length ds))
        fuel
        (at s (stream_of ds (quiet_stream qs ++ cut_bytes cut)) hb)
      ≡ record {
        transactions = map (λ d. d.transaction) ds;
        stopped = some (end_error cut);
        left = at s [] (latest qs (latest_of ds hb));
      }
unfolding collect_full stream_of latest_of
collect_full-stream_of [] qs cut fuel s hb each enough =
    rw (collect_full, next_full-end qs cut fuel s hb enough) refl
collect_full-stream_of (d ∷ ds) qs cut fuel s hb each enough =
    rw
      (
        collect_full,
        next_full-delivery d (stream_of ds (quiet_stream qs ++ cut_bytes cut)) fuel s hb each.0,
      )
      (ap (and_transaction d.transaction)
        (collect_full-stream_of ds qs cut fuel s (latest d.passed hb) each.1 enough))

module _ (peer : Peer) (marshal : List (String × Json) → Result (List ℕ))
    (unmarshal : List ℕ → Option Ack) where
  -- Where a subscription is granted and its stream carries, behind the preamble, transaction frames
  -- with heartbeats and unknown frames between them, and then ends, a caller of `SubscribeFull` and
  -- of `Next` gets every transaction, in order, and then `io.EOF`, or `ErrBadFrame` if the stream
  -- ended inside a frame; the subscription has kept the last heartbeat. The fuel of one call
  -- of `Next` has to exceed the number of frames that it passes over.
  pub subscribe_full-collect_full :
      (c : Client) (context : Option ℕ) (f : Filter) (fields : Strings) (w : World)
      (g : Granted peer marshal unmarshal c context f fields w) (ds : List Delivery)
      (qs : List Quiet) (cut : Cut) (fuel : ℕ)
      → (peer.uni_reader g.before_preamble).ending ≡ eof
      → g.rest ≡ stream_of ds (quiet_stream qs ++ cut_bytes cut)
      → All (λ d. length d.passed < fuel) ds
      → length qs < fuel
      → (sub : FullSub) × (subscribe_full peer marshal unmarshal c context f fields w
          ≡ (ok sub, granted_world peer marshal unmarshal c context f fields w g))
        × (collect_full (suc (length ds)) fuel sub ≡ record {
          transactions = map (λ d. d.transaction) ds;
          stopped = some (end_error cut);
          left = record sub {
            rs = record { bytes = []; ending = eof };
            heartbeat = latest qs (latest_of ds none);
          };
        })
  subscribe_full-collect_full c context f fields w g ds qs cut fuel ends carries each enough =
      let sub = granted_sub peer marshal unmarshal c context f fields w g in
      (
        sub,
        subscribe_full-Granted peer marshal unmarshal c context f fields w g,
        ap
              (λ b. collect_full (suc (length ds)) fuel (record sub {
                rs = record { bytes = b; ending = (peer.uni_reader g.before_preamble).ending };
              }))
              carries
            ∙ ap
                (λ e. collect_full (suc (length ds)) fuel (record sub {
                  rs = record {
                    bytes = stream_of ds (quiet_stream qs ++ cut_bytes cut);
                    ending = e;
                  };
                }))
                ends
            ∙ collect_full-stream_of ds qs cut fuel sub none each enough,
      )
