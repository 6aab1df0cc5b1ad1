-- ===== src/Message/Keys.antt =====
-- What the server finds under each key of a control message.
use pulse_go.Base.{
  ◌≡◌, arith, String, Bool, true, false, Option, none, some, List, [], ◌∷◌, if◌then◌else◌, ◌&&◌,
  ◌||◌, not,
}
use pulse_go.Control.{string_eq}
use pulse_go.Message.{
  Strings, Filter, Json, text, flag, number, texts, non_nil, wire_control, control_message,
}

-- The first value under a key.
pub value_of : String → List (String × Json) → Option Json
value_of k [] = none
value_of k ((j, v) ∷ m) = if string_eq j k then some v else value_of k m

pub has_key : String → List (String × Json) → Bool
has_key k [] = false
has_key k ((j, v) ∷ m) = string_eq j k || has_key k m

-- No key stands in the object twice.
pub distinct_keys : List (String × Json) → Bool
distinct_keys [] = true
distinct_keys ((k, v) ∷ m) = not (has_key k m) && distinct_keys m

abbrev pub optional_text : String → Option Json
optional_text s = if string_eq s "" then none else some (text s)

abbrev pub optional_flag : Option Bool → Option Json
optional_flag none = none
optional_flag (some b) = some (flag b)

module _ (token : String) (f : Filter) (full : Bool) (fields : Strings) where
  abbrev pub message : List (String × Json)
  message = wire_control (control_message token f full fields)

  -- What the server finds in a control message: each key at most once; the token unless it is
  -- empty; the three account lists and the fields as lists, empty where the slice is nil; the vote
  -- predicate only if it is set; the tier; and wire version 2.
  pub message-values :
      (distinct_keys message ≡ true)
      × (value_of "token" message ≡ optional_text token)
      × (value_of "account_include" message ≡ some (texts (non_nil f.account_include)))
      × (value_of "account_exclude" message ≡ some (texts (non_nil f.account_exclude)))
      × (value_of "account_required" message ≡ some (texts (non_nil f.account_required)))
      × (value_of "vote" message ≡ optional_flag f.vote)
      × (value_of "full" message ≡ some (flag full))
      × (value_of "v" message ≡ some (number 2))
      × (value_of "fields" message ≡ some (texts (non_nil fields)))
  unfolding wire_control control_message value_of distinct_keys has_key
  message-values = ground arith
