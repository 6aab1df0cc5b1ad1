-- ===== src/Stream/Closed.antt =====
-- A full-tx stream that is cut off between two frames, in a length prefix or in a body.
use pulse_go.Base.{
  ℕ, suc, ◌-◌, ◌≤◌, ◌<◌, ◌≡◌, ◌≢◌, refl, ap, ◌∙◌, arith, Option, none, some, List, [], ◌∷◌, ◌++◌,
  length, is_empty, if◌then◌else◌, le→ltb_false, ltb, false,
}
use pulse_go.Errors.{
  Error, bad_frame, eof, application, ApplicationError, CloseInfo, classify_close_code, as_terminal,
  as_application, map_error, close_info_from_error,
}
use pulse_go.Go.{err, Reader, read_full, short_error}
use pulse_go.Stream.{
  HeartbeatState, returns, on_prefix_read, on_length, read_body, on_body_read, next_round,
  next_frame, prefix_error, body_error, mapped_terminal, max_full_tx_frame,
}
use pulse_go.Stream.Frames.{
  Quiet, quiet_stream, latest, after, next_frame-after, next_frame_quiet, fuel_left,
  read_full_append, be_bytes4, be_uint-be_bytes4,
}

-- Where the stream is cut: after fewer than the four bytes of a prefix, or after fewer than the bytes
-- that the prefix announces.
pub data Cut : Type 0 where
  in_prefix : (bs : List ℕ) → length bs < 4 → Cut
  in_body : (n : ℕ) (part : List ℕ) → n ≤ max_full_tx_frame → length part < n → Cut

-- What came of the frame.
pub cut_bytes : Cut → List ℕ
cut_bytes (in_prefix bs short) = bs
cut_bytes (in_body n part fits short) = be_bytes4 n ++ part

pub cut_error : Error → Cut → Error
cut_error e (in_prefix bs short) = prefix_error (length bs) (short_error (length bs) e)
cut_error e (in_body n part fits short) = body_error (short_error (length part) e)

read_full-short :
    (n : ℕ) (bs : List ℕ) (e : Error)
    → length bs < n
    → read_full n (record { bytes = bs; ending = e }) ≡ record {
      filled = bs;
      error = some (short_error (length bs) e);
      reader = record { bytes = []; ending = e };
    }
unfolding read_full
read_full-short n bs e short = ground (arith, short)

next_round-cut :
    (c : Cut) (e : Error) (hb : Option HeartbeatState)
    → next_round (record { bytes = cut_bytes c; ending = e }) hb
      ≡ (returns (err (cut_error e c)), record { bytes = []; ending = e })
unfolding next_round on_prefix_read on_length on_body_read read_body body_error cut_bytes cut_error
    be_bytes4
next_round-cut (in_prefix bs short) e hb =
    ap (λ got. on_prefix_read got hb) (read_full-short 4 bs e short)
next_round-cut (in_body n part fits short) e hb =
    let r : Reader = record { bytes = part; ending = e } in
    let small : ltb max_full_tx_frame n ≡ false = le→ltb_false max_full_tx_frame n fits in
    ap (λ got. on_prefix_read got hb) (read_full_append (be_bytes4 n) part e)
    ∙ ap (λ l. on_length l r hb) (be_uint-be_bytes4 n (omega (arith, fits)))
    ∙ rw (read_body, small) (ap (λ got. on_body_read got hb) (read_full-short n part e short))

next_frame-cut :
    (qs : List Quiet) (c : Cut) (e : Error) (hb : Option HeartbeatState) (fuel : ℕ)
    → length qs < fuel
    → next_frame fuel (record { bytes = quiet_stream qs ++ cut_bytes c; ending = e }) hb
      ≡ some (record {
        result = err (cut_error e c);
        reader = record { bytes = []; ending = e };
        heartbeat = latest qs hb;
      })
next_frame-cut qs c e hb fuel enough =
    let left : ℕ = fuel - length qs - 1 in
    next_frame_quiet qs fuel (suc left) (cut_bytes c) e hb (fuel_left qs fuel enough)
    ∙ next_frame-after left (record { bytes = cut_bytes c; ending = e }) (latest qs hb)
    ∙ ap (λ r. after r.0 left r.1 (latest qs hb)) (next_round-cut c e (latest qs hb))

cut_error-eof : (c : Cut) → cut_error eof c ≡ (if is_empty (cut_bytes c) then eof else bad_frame)
unfolding cut_error cut_bytes prefix_error body_error mapped_terminal as_terminal as_application
    map_error short_error be_bytes4
cut_error-eof (in_prefix [] short) = refl
cut_error-eof (in_prefix (b ∷ bs) short) = refl
cut_error-eof (in_body n [] fits short) = refl
cut_error-eof (in_body n (b ∷ part) fits short) = refl

-- A stream of heartbeats and unknown frames that is then cut off by its plain end: `Next` returns
-- `io.EOF` if the stream ends between two frames, and `ErrBadFrame` if it ends inside a length prefix
-- or inside a body. The last heartbeat is kept. The fuel has to exceed the number of frames.
pub next_frame-truncated :
    (qs : List Quiet) (c : Cut) (hb : Option HeartbeatState) (fuel : ℕ)
    → length qs < fuel
    → next_frame fuel (record { bytes = quiet_stream qs ++ cut_bytes c; ending = eof }) hb
      ≡ some (record {
        result = err (if is_empty (cut_bytes c) then eof else bad_frame);
        reader = record { bytes = []; ending = eof };
        heartbeat = latest qs hb;
      })
next_frame-truncated qs c hb fuel enough =
    next_frame-cut qs c eof hb fuel enough
    ∙ ap
        (λ x. some (record {
          result = err x;
          reader = record { bytes = []; ending = eof };
          heartbeat = latest qs hb;
        }))
        (cut_error-eof c)

-- The close information of an application close.
abbrev pub closed : ApplicationError → CloseInfo
closed a = record {
  code = a.error_code;
  reason = a.error_message;
  remote = a.remote;
  retry = classify_close_code a.error_code;
}

close_info-cut_error :
    (a : ApplicationError) (c : Cut)
    → close_info_from_error (cut_error (application a) c) ≡ some (closed a)
unfolding close_info_from_error cut_error prefix_error body_error mapped_terminal as_terminal
    as_application map_error short_error
close_info-cut_error a (in_prefix [] short) = refl
close_info-cut_error a (in_prefix (b ∷ bs) short) = ground arith
close_info-cut_error a (in_body n [] fits short) = refl
close_info-cut_error a (in_body n (b ∷ part) fits short) = refl

-- Where the connection is closed by an application close, after any heartbeats and unknown frames,
-- and then between two frames, inside a length prefix or inside a body, `Next` returns an error in
-- which `CloseInfoFromError` finds the code, the reason and the origin of that close, with the
-- retry class of the code. It is never `io.EOF`. The last heartbeat is kept. The fuel has to exceed
-- the number of frames.
pub next_frame-closed :
    (qs : List Quiet) (c : Cut) (a : ApplicationError) (hb : Option HeartbeatState) (fuel : ℕ)
    → length qs < fuel
    → (x : Error) × (next_frame fuel
          (record { bytes = quiet_stream qs ++ cut_bytes c; ending = application a })
          hb
        ≡ some (record {
          result = err x;
          reader = record { bytes = []; ending = application a };
          heartbeat = latest qs hb;
        }))
      × (close_info_from_error x ≡ some (closed a))
      × (x ≢ eof)
unfolding close_info_from_error as_terminal
next_frame-closed qs c a hb fuel enough =
    let info = close_info-cut_error a c in
    (
      cut_error (application a) c,
      next_frame-cut qs c (application a) hb fuel enough,
      info,
      λ e.
          let none_there : close_info_from_error (cut_error (application a) c) ≡ none =
            ap close_info_from_error e in
          cc (info, none_there),
    )
