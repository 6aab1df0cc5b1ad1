-- ===== src/Message.antt =====
-- The filter and the control message of pulse.go, up to the JSON object that `encoding/json` writes.
pub mod Keys
use pulse_go.Base.{
  ℕ, String, Bool, true, false, Option, none, some, List, [], ◌∷◌, ◌++◌, if◌then◌else◌,
}
use pulse_go.Go.{Result}
use pulse_go.Control.{string_eq, wire_version}

-- A slice that may be nil is an `Option`.
abbrev pub Strings : Type 0
Strings = Option (List String)

pub record Filter : Type 0 where
  pub account_include : Strings
  pub account_exclude : Strings
  pub account_required : Strings
  pub vote : Option Bool

unfoldable pub all_non_vote_txs : Filter
all_non_vote_txs = record {
  account_include = none;
  account_exclude = none;
  account_required = none;
  vote = none;
}

-- `append([]string(nil), keys...)`: nil where there are no keys.
abbrev pub append_to_nil : List String → Strings
append_to_nil [] = none
append_to_nil (k ∷ ks) = some (k ∷ ks)

unfoldable pub accounts : List String → Filter
accounts keys = record all_non_vote_txs { account_include = append_to_nil keys }

unfoldable pub with_vote : Bool → Filter → Filter
with_vote is_vote f = record f { vote = some is_vote }

pub record ControlMessage : Type 0 where
  pub filter : Filter
  pub token : String
  pub full : Bool
  pub v : ℕ
  pub fields : Strings

-- The values of the JSON object.
pub data Json : Type 0 where
  text : String → Json
  flag : Bool → Json
  number : ℕ → Json
  texts : List String → Json

abbrev pub non_nil : Strings → List String
non_nil none = []
non_nil (some values) = values

-- A key with `omitempty`.
abbrev pub token_field : String → List (String × Json)
token_field token = if string_eq token "" then [] else ("token", text token) ∷ []

abbrev pub vote_field : Option Bool → List (String × Json)
vote_field none = []
vote_field (some vote) = ("vote", flag vote) ∷ []

-- `control.MarshalJSON` up to the encoding: the keys of `wireControl` in their order.
unfoldable pub wire_control : ControlMessage → List (String × Json)
wire_control c =
    token_field c.token
    ++ (("account_include", texts (non_nil c.filter.account_include))
        ∷ ("account_exclude", texts (non_nil c.filter.account_exclude))
        ∷ ("account_required", texts (non_nil c.filter.account_required))
        ∷ (vote_field c.filter.vote
            ++ (("full", flag c.full)
                ∷ ("v", number c.v)
                ∷ ("fields", texts (non_nil c.fields))
                ∷ [])))

-- The message that `controlRoundTrip` makes: `fields` is never nil there.
unfoldable pub control_message : String → Filter → Bool → Strings → ControlMessage
control_message token f full fields = record {
  filter = f;
  token = token;
  full = full;
  v = wire_version;
  fields = some (non_nil fields);
}
