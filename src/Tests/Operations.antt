-- ===== src/Tests/Operations.antt =====
-- The operations of a client at concrete inputs.
use pulse_go.Base.{
  ℕ, String, Option, concat_map, ◌≡◌, refl, true, none, some, List, [], ◌∷◌, ◌++◌, All,
}
use pulse_go.Base.Int.{pos}
use pulse_go.Transport.{Call}
use pulse_go.Client.{SigFirstHandle}
use pulse_go.Client.Once.{sig_first, full}
use pulse_go.Client.Operations.{Operation, subscribing, updating_sig_first, closing, step, run}
use pulse_go.Client.Operations.Deadlines.{Within, step-Within}
use pulse_go.Client.Operations.History.{TokenOnce, history, history-TokenOnce}
use pulse_go.Go.{Result, ok}
use pulse_go.Message.{Json}
use pulse_go.Message.Keys.{value_of}
use pulse_go.Sig.{new_sig_first_sub}
use pulse_go.Tests.Connect.{marshal, unmarshal, willing, filter, fresh, client}

abbrev handle : SigFirstHandle
handle = record { has_conn = true; ack_timeout = pos 10; sub = new_sig_first_sub 1 }

abbrev operations : List Operation
operations =
    subscribing sig_first none filter
    ∷ updating_sig_first handle (some 7) filter
    ∷ subscribing (full none) none filter
    ∷ closing
    ∷ []

-- The encoding of a message tells whether it has a token.
abbrev token_byte : Option Json → ℕ
token_byte none = 0
token_byte (some token) = 1

abbrev marshal_token : List (String × Json) → Result (List ℕ)
marshal_token message = ok (token_byte (value_of "token" message) ∷ [])

history-TokenOnce_example :
    ((run (willing []) marshal_token unmarshal client operations fresh).calls
      ≡ concat_map
          (λ (op, calls). calls)
          (history (willing []) marshal_token unmarshal client operations fresh))
    × TokenOnce marshal_token "t"
        (history (willing []) marshal_token unmarshal client operations fresh)
history-TokenOnce_example = history-TokenOnce (willing []) marshal_token unmarshal client operations

step-Within_example :
    (new : List Call) × ((step
        (willing [])
        marshal
        unmarshal
        client
        (subscribing (full none) (some 7) filter)
        fresh).calls
      ≡ [] ++ new)
    × All (Within 7) new
step-Within_example =
    step-Within (willing []) marshal unmarshal client 7 (subscribing (full none) (some 7) filter)
      fresh refl
