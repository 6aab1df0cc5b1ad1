-- ===== src/Transport.antt =====
-- The connection of pulse.go (`pulseConnection`, `controlStream`, `receiveStream`), with the peer as
-- a parameter: a program is a function of the calls made so far, and the peer answers each call.
pub mod Sequence
pub mod Extends
use pulse_go.Base.{
  ℕ, zero, suc, ◌+◌, ◌-◌, ◌<◌, String, Bool, true, false, Option, none, some, List, [], ◌∷◌, ◌++◌,
  ltb, if◌then◌else◌,
}
use pulse_go.Base.Int.{ℤ, pos, negsuc}
use pulse_go.Errors.{Error, wrap_error}
use pulse_go.Go.{Result, ok, err, panic, Reader}

-- A time is a number of nanoseconds; the deadline of the context that a call gets stands for it.
pub data Call : Type 0 where
  open_stream_sync : ℕ → Call
  set_write_deadline : ℕ → Call
  write : List ℕ → Call
  close_write : Call
  set_ack_read_deadline : ℕ → Call
  accept_uni_stream : ℕ → Call
  set_stream_read_deadline : Option ℕ → Call
  close_with_error : ℕ → String → Call

-- What the peer does after the calls so far: the error of the next call, the time, and the bytes of
-- the control stream and of the full-tx stream, as a reader would get them now.
pub record Peer : Type 0 where
  pub answer : List Call → Call → Option Error
  pub now : List Call → ℕ
  pub control_reader : List Call → Reader
  pub uni_reader : List Call → Reader

-- The calls so far, and `subscriptionTaken` of the client.
pub record World : Type 0 where
  pub calls : List Call
  pub subscription_taken : Bool

abbrev pub M : Type 0 → Type 0
M A = World → Result A × World

abbrev pub pure : {A : Type 0} → A → M A
pure a w = (ok a, w)

-- What follows a result. An error or a panic ends the function.
abbrev pub continue : {A B : Type 0} → Result A → World → (A → M B) → Result B × World
continue (ok a) w f = f a w
continue (err e) w f = (err e, w)
continue panic w f = (panic, w)

infixl 5 ◌>>=◌ ◌>>◌
abbrev pub ◌>>=◌ : {A B : Type 0} → M A → (A → M B) → M B
◌>>=◌ m f w = continue (m w).0 (m w).1 f

abbrev pub ◌>>◌ : {B : Type 0} → M (Unit {0}) → M B → M B
m >> k = m >>= λ _. k

-- A result that needs no call.
abbrev pub lift : {A : Type 0} → Result A → M A
lift r w = (r, w)

abbrev pub wrap_result : {A : Type 0} → String → Result A → Result A
wrap_result operation (ok a) = ok a
wrap_result operation (err e) = err (wrap_error operation e)
wrap_result operation panic = panic

abbrev pub answered : String → Option Error → Result (Unit {0})
answered operation none = ok tt
answered operation (some e) = err (wrap_error operation e)

-- `time.Now().Add(timeout)`
abbrev pub add_duration : ℕ → ℤ → ℕ
add_duration t (pos d) = t + d
add_duration t (negsuc d) = t - suc d

-- The earlier of the two: the deadline of the context, if it has one, and that of the timeout.
abbrev pub earlier : Option ℕ → ℕ → ℕ
earlier none deadline = deadline
earlier (some context_deadline) deadline =
    if ltb context_deadline deadline then context_deadline else deadline

module _ (peer : Peer) where
  -- `if err := s.Call(…); err != nil { return nil, wrapConnectionError(operation, err) }`
  unfoldable pub perform : String → Call → M (Unit {0})
  perform operation call w =
      (answered operation (peer.answer w.calls call), record w { calls = w.calls ++ (call ∷ []) })

  unfoldable pub bounded_deadline : Option ℕ → ℤ → M ℕ
  bounded_deadline context_deadline timeout w =
      (ok (earlier context_deadline (add_duration (peer.now w.calls) timeout)), w)
