-- ===== src/Client/Operations/Tokenless.antt =====
-- The calls that write a token, in a list of calls.
use pulse_go.Base.{
  All, All-append, All-front, ℕ, ◌≡◌, ◌⊎◌, String, none, List, [], ◌∷◌, ◌++◌, inl, inr,
}
use pulse_go.Go.{Result, ok}
use pulse_go.Message.{Json}
use pulse_go.Message.Keys.{value_of, optional_text}
use pulse_go.Transport.{Call, write}

module _ (marshal : List (String × Json) → Result (List ℕ)) where
  -- The call writes no message but one without the key `token`.
  abbrev pub Tokenless : Call → Type 0
  Tokenless (write bs) =
      (message : List (String × Json)) × (marshal message ≡ ok bs)
      × (value_of "token" message ≡ none)
  Tokenless _ = Unit {0}

  -- The call writes a message that has this token, or has no token where this one is empty.
  abbrev pub Carries : String → Call → Type 0
  Carries token (write bs) =
      (message : List (String × Json)) × (marshal message ≡ ok bs)
      × (value_of "token" message ≡ optional_text token)
  Carries token _ = ⊥

  -- All calls are without a token, except for at most one, which has this one.
  abbrev pub AtMostOnce : String → List Call → Type 0
  AtMostOnce token [] = Unit {0}
  AtMostOnce token (call ∷ calls) =
      (Carries token call × All Tokenless calls) ⊎ (Tokenless call × AtMostOnce token calls)

  module _ (token : String) where
    pub never-AtMostOnce : (calls : List Call) → All Tokenless calls → AtMostOnce token calls
    never-AtMostOnce [] all = tt
    never-AtMostOnce (call ∷ calls) (p, all) = inr (p, never-AtMostOnce calls all)

    pub AtMostOnce-before :
        (xs ys : List Call) → AtMostOnce token xs → All Tokenless ys → AtMostOnce token (xs ++ ys)
    AtMostOnce-before [] ys once all = never-AtMostOnce ys all
    AtMostOnce-before (x ∷ xs) ys (inl (here, rest)) all =
        inl (here, All-append Tokenless xs ys rest all)
    AtMostOnce-before (x ∷ xs) ys (inr (p, once)) all = inr (p, AtMostOnce-before xs ys once all)

    pub AtMostOnce-front : (xs ys : List Call) → AtMostOnce token (xs ++ ys) → AtMostOnce token xs
    AtMostOnce-front [] ys once = tt
    AtMostOnce-front (x ∷ xs) ys (inl (here, rest)) = inl (here, All-front Tokenless xs ys rest)
    AtMostOnce-front (x ∷ xs) ys (inr (p, once)) = inr (p, AtMostOnce-front xs ys once)
