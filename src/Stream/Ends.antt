-- ===== src/Stream/Ends.antt =====
-- Where the stream ends, and the preamble that it starts with.
use pulse_go.Base.{
  ℕ, suc, ◌-◌, ◌<◌, ◌≡◌, ◌↔◌, refl, sym, ap, ◌∙◌, arith, Option, none, some, List, [], ◌∷◌, ◌++◌,
  length, is_empty, if◌then◌else◌, take-append-drop, Bool-cases, inl, inr, leb, take, drop,
}
use pulse_go.Errors.{Error, bad_frame, eof, as_terminal, as_application, map_error}
use pulse_go.Go.{err, Reader, read_full, short_error}
use pulse_go.Derive.{bytes_eq}
use pulse_go.Derive.Programs.{bytes_eq_iff}
use pulse_go.Stream.{
  HeartbeatState, returns, on_prefix_read, next_round, next_frame, prefix_error, mapped_terminal,
  preamble, on_preamble_read, verify_preamble,
}
use pulse_go.Stream.Frames.{
  Quiet, quiet_stream, latest, after, next_frame-after, next_frame_quiet, fuel_left,
  read_full_append,
}

-- The stream ended between two frames, or inside a length prefix.
abbrev pub end_error : List ℕ → Error
end_error cut = if is_empty cut then eof else bad_frame

next_round-short :
    (cut : List ℕ) (hb : Option HeartbeatState)
    → length cut < 4
    → next_round (record { bytes = cut; ending = eof }) hb
      ≡ (returns (err (end_error cut)), record { bytes = []; ending = eof })
unfolding next_round on_prefix_read read_full short_error prefix_error mapped_terminal as_terminal
    map_error as_application
next_round-short [] hb h = refl
next_round-short (a ∷ []) hb h = refl
next_round-short (a ∷ b ∷ []) hb h = refl
next_round-short (a ∷ b ∷ c ∷ []) hb h = refl
next_round-short (a ∷ b ∷ c ∷ d ∷ cut) hb h = absurd (omega (arith, h))

-- A stream of heartbeats and unknown frames that then ends: `Next` returns `io.EOF` if it ends
-- between two frames, and `ErrBadFrame` if it ends inside a length prefix. The last heartbeat is
-- kept. The fuel has to exceed the number of frames.
pub next_frame_end :
    (qs : List Quiet) (cut : List ℕ) (hb : Option HeartbeatState) (fuel : ℕ)
    → length cut < 4
    → length qs < fuel
    → next_frame fuel (record { bytes = quiet_stream qs ++ cut; ending = eof }) hb
      ≡ some (record {
        result = err (end_error cut);
        reader = record { bytes = []; ending = eof };
        heartbeat = latest qs hb;
      })
next_frame_end qs cut hb fuel short enough =
    let left : ℕ = fuel - length qs - 1 in
    next_frame_quiet qs fuel (suc left) cut eof hb (fuel_left qs fuel enough)
    ∙ next_frame-after left (record { bytes = cut; ending = eof }) (latest qs hb)
    ∙ ap (λ r. after r.0 left r.1 (latest qs hb)) (next_round-short cut (latest qs hb) short)

-- The preamble has been read from the stream, whatever was accepted.
accepted :
    (r : Reader) (rest : List ℕ)
    → verify_preamble r ≡ (none, record { bytes = rest; ending = r.ending })
    → r.bytes ≡ preamble ++ rest
unfolding verify_preamble on_preamble_read read_full
accepted r rest h = elim (Bool-cases (leb 6 (length r.bytes))) [
  | inl enough ↦ elim (Bool-cases (bytes_eq (take 6 r.bytes) preamble)) [
    | inl same ↦
        let left : drop 6 r.bytes ≡ rest = ground (arith, h, enough, same) in
        sym (take-append-drop 6 r.bytes)
        ∙ ap (λ xs. xs ++ drop 6 r.bytes) ((bytes_eq_iff (take 6 r.bytes) preamble).0 same)
        ∙ ap (λ ys. preamble ++ ys) left
    | inr other ↦ absurd (ground (arith, h, enough, other))
  ]
  | inr short ↦ absurd (ground (arith, h, short))
]

-- `verifyPreamble` accepts exactly a stream that starts with the preamble, and leaves it right
-- behind.
pub verify_preamble_iff :
    (r : Reader) (rest : List ℕ)
    → (verify_preamble r ≡ (none, record { bytes = rest; ending = r.ending }))
      ↔ (r.bytes ≡ preamble ++ rest)
unfolding verify_preamble on_preamble_read bytes_eq
verify_preamble_iff r rest = (
  accepted r rest,
  λ h.
      ap (λ b. verify_preamble (record { bytes = b; ending = r.ending })) h
      ∙ ap on_preamble_read (read_full_append preamble rest r.ending),
)

pub ending-verify_preamble : (r : Reader) → (verify_preamble r).1.ending ≡ r.ending
unfolding verify_preamble on_preamble_read read_full
ending-verify_preamble r = ground arith
