-- ===== src/Stream/Total.antt =====
-- The loop of `Next` on any stream: it ends, and does not panic.
use pulse_go.Base.{
  ℕ, zero, suc, ◌+◌, ◌<◌, ◌≤◌, ◌≡◌, ◌≢◌, refl, arith, Option, none, some, List, length, take, ltb,
  leb, All, All-take, All-drop, Bool-cases, inl, inr, ◌⊎◌, length-take, length-drop, leb→le, le→leb,
}
use pulse_go.Errors.{Error, bad_frame, frame_too_large}
use pulse_go.Go.{Result, ok, err, panic, Reader, read_full, be_uint, be_value, IsByte}
use pulse_go.Wire.Frame.{FullTxV2, Frame, full_tx_v2, frame_heartbeat, unknown_frame, decode_frame}
use pulse_go.Wire.Frame.Total.{decode_frame_total}
use pulse_go.Stream.Frames.{after, next_frame-after, on_body-decoded}
use pulse_go.Stream.{
  HeartbeatState, Round, returns, goes_on, on_frame, on_body, on_body_read, on_length,
  on_prefix_read, read_body, next_round, Returned, next_frame, max_full_tx_frame, prefix_error,
  body_error,
}

-- A call that had `n` bytes to come and leaves this reader: it does not panic, and a transaction took
-- four bytes at least.
Progress : ℕ → Result FullTxV2 → Reader → Type 0
Progress n x r =
    (x ≢ panic) × ((v : FullTxV2) → x ≡ ok v → (length r.bytes + 4 ≤ n) × All IsByte r.bytes)

failed-Progress : (n : ℕ) (e : Error) (r : Reader) → Progress n (err e) r
unfolding Progress
failed-Progress n e r = (λ h. cc h, λ v h. absurd (cc h))

-- A round that starts with `n` bytes to come: it returns, or leaves at least four bytes fewer.
Advances : ℕ → Round × Reader → Type 0
Advances n (returns x, r) = Progress n x r
Advances n (goes_on hb, r) = (length r.bytes + 4 ≤ n) × All IsByte r.bytes

-- A full buffer took its bytes from the front of the stream.
read_full_cases :
    (n : ℕ) (r : Reader)
    → (((read_full n r).error ≡ none)
        × (length (read_full n r).filled ≡ n)
        × (length (read_full n r).reader.bytes + n ≡ length r.bytes)
        × (All IsByte r.bytes
            → All IsByte (read_full n r).filled × All IsByte (read_full n r).reader.bytes))
      ⊎ ((e : Error) × ((read_full n r).error ≡ some e))
unfolding read_full
read_full_cases n r = elim (Bool-cases (leb n (length r.bytes))) [
  | inl enough ↦
      let le = leb→le n (length r.bytes) enough in
      inl (
        rw enough (
          refl,
          omega (arith, le, length-take n r.bytes),
          omega (arith, le, length-drop n r.bytes),
          λ bytes. (All-take IsByte n r.bytes bytes, All-drop IsByte n r.bytes bytes),
        ))
  | inr short ↦ inr (rw short (_, refl))
]

on_frame-Advances :
    (f : Frame) (hb : Option HeartbeatState) (r : Reader) (n : ℕ)
    → length r.bytes + 4 ≤ n
    → All IsByte r.bytes
    → Advances n (on_frame f hb, r)
unfolding on_frame Advances Progress
on_frame-Advances (full_tx_v2 v) hb r n less bytes = (λ h. cc h, λ v' h. (less, bytes))
on_frame-Advances (frame_heartbeat f) hb r n less bytes = (less, bytes)
on_frame-Advances (unknown_frame t) hb r n less bytes = (less, bytes)

on_body-refused :
    (body : List ℕ) (hb : Option HeartbeatState)
    → decode_frame body ≡ err bad_frame
    → on_body body hb ≡ returns (err bad_frame)
unfolding on_body
on_body-refused body hb e = rw (on_body, e) refl

on_body-Advances :
    (body : List ℕ) (hb : Option HeartbeatState) (r : Reader) (n : ℕ)
    → All IsByte body
    → length r.bytes + 4 ≤ n
    → All IsByte r.bytes
    → Advances n (on_body body hb, r)
unfolding Advances
on_body-Advances body hb r n is less bytes = elim (decode_frame_total body is) [
  | inl (f, e, _) ↦ rw (on_body-decoded body f hb e) (on_frame-Advances f hb r n less bytes)
  | inr e ↦ rw (on_body-refused body hb e) (failed-Progress n bad_frame r)
]

read_body-Advances :
    (k : ℕ) (r : Reader) (hb : Option HeartbeatState) (n : ℕ)
    → length r.bytes + 4 ≤ n
    → All IsByte r.bytes
    → Advances n (read_body k r hb)
unfolding read_body on_body_read Advances
read_body-Advances k r hb n less bytes = elim (Bool-cases (ltb max_full_tx_frame k)) [
  | inl large ↦ rw (read_body, large) (failed-Progress n (frame_too_large k) r)
  | inr small ↦ elim (read_full_cases k r) [
    | inl (full, _, left, all) ↦
        let both = all bytes in
        rw (read_body, small, on_body_read, full)
          (on_body-Advances (read_full k r).filled hb (read_full k r).reader n both.0
            (omega (arith, left, less)) both.1)
    | inr (e, short) ↦
        rw (read_body, small, on_body_read, short)
          (failed-Progress n (body_error e) (read_full k r).reader)
  ]
]

next_round-Advances :
    (r : Reader) (hb : Option HeartbeatState)
    → All IsByte r.bytes
    → Advances (length r.bytes) (next_round r hb)
unfolding next_round on_prefix_read on_length be_uint Advances
next_round-Advances r hb bytes = elim (read_full_cases 4 r) [
  | inl (full, long, left, all) ↦
      let enough = le→leb 4 (length (read_full 4 r).filled) (omega (arith, long)) in
      rw (next_round, on_prefix_read, full, be_uint, enough, on_length)
        (read_body-Advances (be_value 0 (take 4 (read_full 4 r).filled)) (read_full 4 r).reader hb
          (length r.bytes) (omega (arith, left)) (all bytes).1)
  | inr (e, short) ↦
      rw (next_round, on_prefix_read, short)
        (failed-Progress (length r.bytes) (prefix_error (length (read_full 4 r).filled) e)
          (read_full 4 r).reader)
]

-- The outcome of a call that had `n` bytes to come.
Finishes : ℕ → Option Returned → Type 0
Finishes n o = (x : Returned) × (o ≡ some x) × Progress n x.result x.reader

Finishes-more : (m n : ℕ) (o : Option Returned) → m ≤ n → Finishes m o → Finishes n o
unfolding Finishes Progress
Finishes-more m n o le (x, e, (fine, progress)) =
    (x, e, (fine, λ v h. let (less, bytes) = progress v h in (omega (arith, less, le), bytes)))

after-Finishes :
    (round : Round) (r : Reader) (hb : Option HeartbeatState) (n fuel : ℕ)
    → Advances n (round, r)
    → n < suc fuel
    → ((hb' : Option HeartbeatState)
        → length r.bytes < fuel
        → All IsByte r.bytes
        → Finishes (length r.bytes) (next_frame fuel r hb'))
    → Finishes n (after round fuel r hb)
unfolding Advances Finishes
after-Finishes (returns x) r hb n fuel a h go = (_, refl, a)
after-Finishes (goes_on hb') r hb n fuel (less, bytes) h go =
    Finishes-more (length r.bytes) n (next_frame fuel r hb') (omega (arith, less))
      (go hb' (omega (arith, less, h)) bytes)

next_frame-Finishes :
    (fuel : ℕ) (r : Reader) (hb : Option HeartbeatState)
    → length r.bytes < fuel
    → All IsByte r.bytes
    → Finishes (length r.bytes) (next_frame fuel r hb)
next_frame-Finishes zero r hb h bytes = absurd (omega (arith, h))
next_frame-Finishes (suc fuel) r hb h bytes =
    let step = next_round r hb in
    rw (next_frame-after fuel r hb) (
      after-Finishes step.0 step.1 hb (length r.bytes) fuel (next_round-Advances r hb bytes) h
        (λ hb' less rest. next_frame-Finishes fuel step.1 hb' less rest))

-- What a call returns, of the bytes that it had.
result-Progress :
    (n : ℕ) (x : Result FullTxV2) (r : Reader)
    → Progress n x r
    → ((v : FullTxV2) × (x ≡ ok v) × (length r.bytes + 4 ≤ n) × All IsByte r.bytes)
      ⊎ ((e : Error) × (x ≡ err e))
unfolding Progress
result-Progress n (ok v) r (fine, progress) =
    let (less, bytes) = progress v refl in inl (v, refl, less, bytes)
result-Progress n (err e) r p = inr (e, refl)
result-Progress n panic r (fine, progress) = absurd (fine refl)

-- On any stream of bytes, however it ends, the loop of `Next` returns: a transaction, which took at
-- least four bytes of the stream, whose rest is bytes again, or an error. One round for each byte
-- that is still to come, and one more, are enough.
pub next_frame_total :
    (fuel : ℕ) (r : Reader) (hb : Option HeartbeatState)
    → length r.bytes < fuel
    → All IsByte r.bytes
    → (x : Returned) × (next_frame fuel r hb ≡ some x)
      × (((v : FullTxV2) × (x.result ≡ ok v)
            × (length x.reader.bytes + 4 ≤ length r.bytes)
            × All IsByte x.reader.bytes)
          ⊎ ((e : Error) × (x.result ≡ err e)))
unfolding Finishes
next_frame_total fuel r hb h bytes =
    let (x, e, progress) = next_frame-Finishes fuel r hb h bytes in
    (x, e, result-Progress (length r.bytes) x.result x.reader progress)
