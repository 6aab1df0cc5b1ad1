-- ===== src/Control/Reading.antt =====
-- Reading an acknowledgement from its stream.
use pulse_go.Base.{
  ℕ, ◌≤◌, ◌<◌, ◌^◌, ◌≡◌, ap, ◌∙◌, arith, List, ◌++◌, length, le→ltb_false, append_assoc, Option,
}
use pulse_go.Errors.{Error}
use pulse_go.Go.{◌>>=◌, read_full}
use pulse_go.Stream.Frames.{framed, be_bytes4, be_uint-be_bytes4, read_full_append}
use pulse_go.Control.{
  Ack, max_ack_bytes, check_type, parse_ack, read_ack_body, read_ack_length, read_ack,
}

module _ (unmarshal : List ℕ → Option Ack) where
  read_ack_length-be_bytes4 :
      (n : ℕ) (rest : List ℕ) (e : Error)
      → n < 2 ^ 32
      → read_ack unmarshal (record { bytes = be_bytes4 n ++ rest; ending = e })
        ≡ read_ack_body unmarshal (record { bytes = rest; ending = e }) n
  unfolding read_ack read_ack_length be_bytes4 read_full
  read_ack_length-be_bytes4 n rest e h =
      ap (read_ack_length unmarshal) (read_full_append (be_bytes4 n) rest e)
      ∙ ap (λ r. r >>= read_ack_body unmarshal (record { bytes = rest; ending = e }))
          (be_uint-be_bytes4 n h)

  -- An acknowledgement of 16 KiB at most behind its length prefix: `readAck` takes what the JSON
  -- decoder makes of exactly its bytes, whatever follows.
  pub read_ack-framed :
      (body rest : List ℕ) (e : Error)
      → length body ≤ max_ack_bytes
      → read_ack unmarshal (record { bytes = framed body ++ rest; ending = e })
        ≡ check_type (unmarshal body)
  unfolding read_ack_body parse_ack framed
  read_ack-framed body rest e h =
      let small = le→ltb_false max_ack_bytes (length body) h in
      ap (λ b. read_ack unmarshal (record { bytes = b; ending = e }))
        (append_assoc (be_bytes4 (length body)) body rest)
      ∙ read_ack_length-be_bytes4 (length body) (body ++ rest) e (omega (arith, h))
      ∙ rw (read_ack_body, small) (ap (parse_ack unmarshal) (read_full_append body rest e))
