-- ===== src/Stream/Frames.antt =====
-- The stream of frames that the full-tx tier reads.
use pulse_go.Base.{
  ℕ, zero, suc, ◌+◌, ◌-◌, ◌/◌, ◌%◌, ◌^◌, ◌<◌, ◌≤◌, ◌≡◌, refl, ap, ◌∙◌, arith, true, false, Option,
  none, some, List, [], ◌∷◌, ◌++◌, length, ltb, le→leb, le→ltb_false, take-append, drop-append,
  append_assoc, length-append,
}
use pulse_go.Errors.{Error}
use pulse_go.Go.{ok, Reader, read_full, be_uint, be_value}
use pulse_go.Wire.Frame.{Frame, FullTxV2, full_tx_v2, frame_heartbeat, unknown_frame, decode_frame}
use pulse_go.Stream.{
  HeartbeatState, Round, returns, goes_on, on_frame, on_body, on_body_read, on_length,
  on_prefix_read, read_body, next_round, Returned, next_frame, max_full_tx_frame,
}

-- A frame on the stream: its length in 4 bytes, highest first, and the body.
unfoldable pub be_bytes4 : ℕ → List ℕ
be_bytes4 n = n / 2 ^ 24 % 256 ∷ n / 2 ^ 16 % 256 ∷ n / 2 ^ 8 % 256 ∷ n % 256 ∷ []

unfoldable pub framed : List ℕ → List ℕ
framed body = be_bytes4 (length body) ++ body

pub stream : List (List ℕ) → List ℕ
stream [] = []
stream (body ∷ bodies) = framed body ++ stream bodies

pub be_uint-be_bytes4 : (n : ℕ) → n < 2 ^ 32 → be_uint 4 (be_bytes4 n) ≡ ok n
unfolding be_uint be_bytes4 be_value
be_uint-be_bytes4 n h = ap ok (omega arith)

pub read_full_append :
    (xs ys : List ℕ) (e : Error)
    → read_full (length xs) (record { bytes = xs ++ ys; ending = e })
      ≡ record { filled = xs; error = none; reader = record { bytes = ys; ending = e } }
unfolding read_full
read_full_append xs ys e =
    let long = le→leb (length xs) (length (xs ++ ys)) (omega (arith, length-append xs ys)) in
    rw (long, take-append xs ys, drop-append xs ys) refl

-- One round reads one frame of allowed size.
next_round-framed :
    (body rest : List ℕ) (e : Error) (hb : Option HeartbeatState)
    → length body ≤ max_full_tx_frame
    → next_round (record { bytes = framed body ++ rest; ending = e }) hb
      ≡ (on_body body hb, record { bytes = rest; ending = e })
unfolding next_round on_prefix_read on_length on_body_read read_body framed read_full be_bytes4
next_round-framed body rest e hb h =
    let n : ℕ = length body in
    let r : Reader = record { bytes = body ++ rest; ending = e } in
    let small : ltb max_full_tx_frame n ≡ false = le→ltb_false max_full_tx_frame n h in
    ap (λ b. on_prefix_read (read_full 4 (record { bytes = b; ending = e })) hb)
      (append_assoc (be_bytes4 n) body rest)
    ∙ ap (λ got. on_prefix_read got hb) (read_full_append (be_bytes4 n) (body ++ rest) e)
    ∙ ap (λ l. on_length l r hb) (be_uint-be_bytes4 n (omega (arith, h)))
    ∙ rw (read_body, small) (ap (λ got. on_body_read got hb) (read_full_append body rest e))

-- What one round does after its frame.
abbrev pub after : Round → ℕ → Reader → Option HeartbeatState → Option Returned
after (returns x) fuel r hb = some (record { result = x; reader = r; heartbeat = hb })
after (goes_on hb') fuel r hb = next_frame fuel r hb'

pub next_frame-after :
    (fuel : ℕ) (r : Reader) (hb : Option HeartbeatState)
    → next_frame (suc fuel) r hb ≡ after (next_round r hb).0 fuel (next_round r hb).1 hb
unfolding next_frame
next_frame-after fuel r hb =
    elim (next_round r hb).0
      as (λ x.
        elim x [
          | returns y ↦ some (record { result = y; reader = (next_round r hb).1; heartbeat = hb })
          | goes_on hb' ↦ next_frame fuel (next_round r hb).1 hb'
        ]
        ≡ after x fuel (next_round r hb).1 hb) [ returns x ↦ refl | goes_on hb' ↦ refl ]

-- A body that `Next` passes over: it decodes to a heartbeat or to an unknown frame.
abbrev pub IsQuiet : Frame → Type 0
IsQuiet (full_tx_v2 v) = ⊥
IsQuiet (frame_heartbeat f) = Unit
IsQuiet (unknown_frame t) = Unit

pub record Quiet : Type 0 where
  pub body : List ℕ
  pub frame : Frame
  pub fits : length body ≤ max_full_tx_frame
  pub decodes : decode_frame body ≡ ok frame
  pub is_quiet : IsQuiet frame

pub observed : Frame → Option HeartbeatState → Option HeartbeatState
observed (frame_heartbeat f) hb =
    some (record { server_ts_ms = f.server_ts_ms; highest_seq = f.highest_seq; ok = true })
observed _ hb = hb

-- The last heartbeat among the frames, or the one before them.
pub latest : List Quiet → Option HeartbeatState → Option HeartbeatState
latest [] hb = hb
latest (q ∷ qs) hb = latest qs (observed q.frame hb)

pub quiet_stream : List Quiet → List ℕ
quiet_stream [] = []
quiet_stream (q ∷ qs) = framed q.body ++ quiet_stream qs

on_frame-quiet :
    (f : Frame) (hb : Option HeartbeatState) → IsQuiet f → on_frame f hb ≡ goes_on (observed f hb)
unfolding on_frame observed
on_frame-quiet (full_tx_v2 v) hb q = absurd q
on_frame-quiet (frame_heartbeat f) hb q = refl
on_frame-quiet (unknown_frame t) hb q = refl

pub on_body-decoded :
    (body : List ℕ) (f : Frame) (hb : Option HeartbeatState)
    → decode_frame body ≡ ok f
    → on_body body hb ≡ on_frame f hb
unfolding on_body
on_body-decoded body f hb e = rw (on_body, e) refl

on_body-quiet :
    (q : Quiet) (hb : Option HeartbeatState) → on_body q.body hb ≡ goes_on (observed q.frame hb)
on_body-quiet q hb =
    on_body-decoded q.body q.frame hb q.decodes ∙ on_frame-quiet q.frame hb q.is_quiet

next_frame-framed :
    (fuel : ℕ) (body rest : List ℕ) (e : Error) (hb : Option HeartbeatState)
    → length body ≤ max_full_tx_frame
    → next_frame (suc fuel) (record { bytes = framed body ++ rest; ending = e }) hb
      ≡ after (on_body body hb) fuel (record { bytes = rest; ending = e }) hb
next_frame-framed fuel body rest e hb h =
    next_frame-after fuel (record { bytes = framed body ++ rest; ending = e }) hb
    ∙ ap (λ r. after r.0 fuel r.1 hb) (next_round-framed body rest e hb h)

pub next_frame_quiet :
    (qs : List Quiet) (n fuel : ℕ) (rest : List ℕ) (e : Error) (hb : Option HeartbeatState)
    → n ≡ length qs + fuel
    → next_frame n (record { bytes = quiet_stream qs ++ rest; ending = e }) hb
      ≡ next_frame fuel (record { bytes = rest; ending = e }) (latest qs hb)
unfolding quiet_stream latest
next_frame_quiet [] n fuel rest e hb h =
    let same : n ≡ fuel = omega (arith, h) in
    ap (λ k. next_frame k (record { bytes = rest; ending = e }) hb) same
next_frame_quiet (q ∷ qs) zero fuel rest e hb h = absurd (omega (arith, h))
next_frame_quiet (q ∷ qs) (suc n) fuel rest e hb h =
    ap (λ b. next_frame (suc n) (record { bytes = b; ending = e }) hb)
      (append_assoc (framed q.body) (quiet_stream qs) rest)
    ∙ next_frame-framed n q.body (quiet_stream qs ++ rest) e hb q.fits
    ∙ ap (λ r. after r n (record { bytes = quiet_stream qs ++ rest; ending = e }) hb)
        (on_body-quiet q hb)
    ∙ next_frame_quiet qs n fuel rest e (observed q.frame hb) (omega (arith, h))

pub fuel_left :
    (qs : List Quiet) (fuel : ℕ) → length qs < fuel → fuel ≡ length qs + suc (fuel - length qs - 1)
fuel_left qs fuel h = omega (arith, h)

-- `Next` passes over any heartbeats and unknown frames and returns the transaction of the first
-- transaction frame. The stream is left right behind that frame, and the heartbeat that is kept is
-- the last one passed over, or the earlier one if there was none. The fuel has to exceed the number
-- of frames passed over.
pub next_frame_lem :
    (qs : List Quiet) (body rest : List ℕ) (v : FullTxV2) (e : Error) (hb : Option HeartbeatState)
    (fuel : ℕ)
    → length body ≤ max_full_tx_frame
    → decode_frame body ≡ ok (full_tx_v2 v)
    → length qs < fuel
    → next_frame fuel (record { bytes = quiet_stream qs ++ (framed body ++ rest); ending = e }) hb
      ≡ some (record {
        result = ok v;
        reader = record { bytes = rest; ending = e };
        heartbeat = latest qs hb;
      })
unfolding on_frame
next_frame_lem qs body rest v e hb fuel fits decodes enough =
    let left : ℕ = fuel - length qs - 1 in
    next_frame_quiet qs fuel (suc left) (framed body ++ rest) e hb (fuel_left qs fuel enough)
    ∙ next_frame-framed left body rest e (latest qs hb) fits
    ∙ ap (λ r. after r left (record { bytes = rest; ending = e }) (latest qs hb))
        (on_body-decoded body (full_tx_v2 v) (latest qs hb) decodes)
