-- ===== src/Client/Operations/History.antt =====
-- What each operation of a client writes: its token, where and how often.
use pulse_go.Base.{
  All, ℕ, ◌≡◌, refl, ap, sym, subst, ◌∙◌, String, true, false, Option, none, List, [], ◌∷◌, ◌++◌,
  concat_map, drop, length, drop-append, append_assoc, append-nil,
}
use pulse_go.Go.{Result}
use pulse_go.Control.{Ack}
use pulse_go.Message.{Filter, Json, Strings}
use pulse_go.Transport.{Call, close_with_error, Peer, World}
use pulse_go.Transport.Extends.{Extends}
use pulse_go.Client.{Client, SigFirstHandle, FullSub, send_control, close}
use pulse_go.Client.Once.{
  Tier, is_full, fields_of, taken_world, subscribe-after, subscribe-refused, subscribe-taken,
}
use pulse_go.Client.Operations.{
  Operation, subscribing, updating_sig_first, updating_full, closing, step, run,
  update_sig_first-Extends, update_full-Extends,
}
use pulse_go.Client.Operations.Tokenless.{Tokenless, AtMostOnce, AtMostOnce-before}
use pulse_go.Client.Operations.Token.{update-Tokenless, round_trip-AtMostOnce}

-- A new client's world.
abbrev pub fresh : World
fresh = record { calls = []; subscription_taken = false }

module _ (marshal : List (String × Json) → Result (List ℕ)) where
  -- Behind a subscription, another one makes no call, and nothing else writes a token.
  abbrev pub NoToken : List (Operation × List Call) → Type 0
  NoToken [] = Unit {0}
  NoToken ((subscribing t context f, calls) ∷ rest) = (calls ≡ []) × NoToken rest
  NoToken ((updating_sig_first h context f, calls) ∷ rest) =
      All (Tokenless marshal) calls × NoToken rest
  NoToken ((updating_full h context f fields, calls) ∷ rest) =
      All (Tokenless marshal) calls × NoToken rest
  NoToken ((closing, calls) ∷ rest) = All (Tokenless marshal) calls × NoToken rest

  -- The first subscription writes the token at most once, and nothing else writes one.
  abbrev pub TokenOnce : String → List (Operation × List Call) → Type 0
  TokenOnce token [] = Unit {0}
  TokenOnce token ((subscribing t context f, calls) ∷ rest) =
      AtMostOnce marshal token calls × NoToken rest
  TokenOnce token ((updating_sig_first h context f, calls) ∷ rest) =
      All (Tokenless marshal) calls × TokenOnce token rest
  TokenOnce token ((updating_full h context f fields, calls) ∷ rest) =
      All (Tokenless marshal) calls × TokenOnce token rest
  TokenOnce token ((closing, calls) ∷ rest) = All (Tokenless marshal) calls × TokenOnce token rest

module _ (peer : Peer) (marshal : List (String × Json) → Result (List ℕ))
    (unmarshal : List ℕ → Option Ack) (c : Client) where
  abbrev after : Operation → World → World
  after op w = step peer marshal unmarshal c op w

  -- The calls that an operation adds.
  abbrev pub added : Operation → World → List Call
  added op w = drop (length w.calls) (after op w).calls

  -- The operations, each with the calls that it adds.
  pub history : List Operation → World → List (Operation × List Call)
  history [] w = []
  history (op ∷ ops) w = (op, added op w) ∷ history ops (after op w)

  added-new :
      (op : Operation) (w : World) (new : List Call)
      → (after op w).calls ≡ w.calls ++ new
      → added op w ≡ new
  added-new op w new e = ap (drop (length w.calls)) e ∙ drop-append w.calls new

  -- An operation adds calls that satisfy `P`.
  abbrev Added : (List Call → Type 0) → Operation → World → Type 0
  Added P op w = ((after op w).calls ≡ w.calls ++ added op w) × P (added op w)

  as-Added :
      (P : List Call → Type 0) (op : Operation) (w : World) (new : List Call)
      → (after op w).calls ≡ w.calls ++ new
      → P new
      → Added P op w
  as-Added P op w new e p =
      let same = sym (added-new op w new e) in (e ∙ ap (λ l. w.calls ++ l) same, subst P same p)

  Extends-Added :
      (op : Operation) (w : World)
      → Extends (Tokenless marshal) w (after op w)
      → Added (All (Tokenless marshal)) op w
        × ((after op w).subscription_taken ≡ w.subscription_taken)
  Extends-Added op w (new, e, all, kept) = (as-Added (All (Tokenless marshal)) op w new e all, kept)

  update_sig_first-Added :
      (h : SigFirstHandle) (context : Option ℕ) (f : Filter) (w : World)
      → let op : Operation = updating_sig_first h context f in
        Added (All (Tokenless marshal)) op w
        × ((after op w).subscription_taken ≡ w.subscription_taken)
  update_sig_first-Added h context f w = Extends-Added (updating_sig_first h context f) w (
      update_sig_first-Extends peer marshal unmarshal c (Tokenless marshal) h context f w
        (update-Tokenless peer marshal unmarshal context f false none h.ack_timeout w.calls))

  update_full-Added :
      (h : FullSub) (context : Option ℕ) (f : Filter) (fields : Strings) (w : World)
      → let op : Operation = updating_full h context f fields in
        Added (All (Tokenless marshal)) op w
        × ((after op w).subscription_taken ≡ w.subscription_taken)
  update_full-Added h context f fields w = Extends-Added (updating_full h context f fields) w (
      update_full-Extends peer marshal unmarshal c (Tokenless marshal) h context f fields w
        (update-Tokenless peer marshal unmarshal context f false fields h.ack_timeout w.calls))

  close-Added :
      (w : World)
      → Added (All (Tokenless marshal)) closing w
        × ((after closing w).subscription_taken ≡ w.subscription_taken)
  unfolding close
  close-Added w = Extends-Added closing w (close_with_error 0 "" ∷ [], refl, (tt, tt), refl)

  first-Added :
      (t : Tier) (context : Option ℕ) (f : Filter) (w : World)
      → w.subscription_taken ≡ false
      → Added (AtMostOnce marshal c.token) (subscribing t context f) w
  unfolding send_control
  first-Added t context f w untaken =
      let (new, begun, once) =
        round_trip-AtMostOnce peer marshal unmarshal context c.token f (is_full t) (fields_of t)
          c.ack_timeout (taken_world w) in
      let (more, ended, all, _) =
        subscribe-after peer marshal unmarshal (Tokenless marshal) c context f t w untaken
          (λ calls. (tt, (tt, tt))) (tt, tt) in
      as-Added (AtMostOnce marshal c.token) (subscribing t context f) w (new ++ more)
        (ended ∙ ap (λ cs. cs ++ more) begun ∙ append_assoc w.calls new more)
        (AtMostOnce-before marshal c.token new more once all)

  -- The calls of the whole are those of the operations, one after the other.
  Whole : List Operation → World → Type 0
  Whole ops w =
      (run peer marshal unmarshal c ops w).calls
      ≡ w.calls ++ concat_map (λ (op, calls). calls) (history ops w)

  one_more :
      (P : List Call → Type 0) (op : Operation) (ops : List Operation) (w : World)
      → Added P op w
      → Whole ops (after op w)
      → Whole (op ∷ ops) w
  unfolding Whole run history
  one_more P op ops w (e, _) rest =
      let later = concat_map (λ (op, calls). calls) (history ops (after op w)) in
      rest ∙ ap (λ cs. cs ++ later) e ∙ append_assoc w.calls (added op w) later

  taken-NoToken :
      (ops : List Operation) (w : World)
      → w.subscription_taken ≡ true
      → Whole ops w × NoToken marshal (history ops w)
  unfolding Whole run history
  taken-NoToken [] w taken = (sym (append-nil w.calls), tt)
  taken-NoToken (subscribing t context f ∷ ops) w taken =
      let op : Operation = subscribing t context f in
      let same : after op w ≡ w =
        ap (λ r. r.1) (subscribe-refused peer marshal unmarshal t c context f w taken) in
      let now =
        as-Added (λ calls. calls ≡ []) op w [] (ap (λ w. w.calls) same ∙ sym (append-nil w.calls))
          refl in
      let (whole, rest) =
        taken-NoToken ops (after op w) (ap (λ w. w.subscription_taken) same ∙ taken) in
      (one_more (λ calls. calls ≡ []) op ops w now whole, (now.1, rest))
  taken-NoToken (updating_sig_first h context f ∷ ops) w taken =
      let op : Operation = updating_sig_first h context f in
      let (now, kept) = update_sig_first-Added h context f w in
      let (whole, rest) = taken-NoToken ops (after op w) (kept ∙ taken) in
      (one_more (All (Tokenless marshal)) op ops w now whole, (now.1, rest))
  taken-NoToken (updating_full h context f fields ∷ ops) w taken =
      let op : Operation = updating_full h context f fields in
      let (now, kept) = update_full-Added h context f fields w in
      let (whole, rest) = taken-NoToken ops (after op w) (kept ∙ taken) in
      (one_more (All (Tokenless marshal)) op ops w now whole, (now.1, rest))
  taken-NoToken (closing ∷ ops) w taken =
      let (now, kept) = close-Added w in
      let (whole, rest) = taken-NoToken ops (after closing w) (kept ∙ taken) in
      (one_more (All (Tokenless marshal)) closing ops w now whole, (now.1, rest))

  untaken-TokenOnce :
      (ops : List Operation) (w : World)
      → w.subscription_taken ≡ false
      → Whole ops w × TokenOnce marshal c.token (history ops w)
  unfolding Whole run history
  untaken-TokenOnce [] w untaken = (sym (append-nil w.calls), tt)
  untaken-TokenOnce (subscribing t context f ∷ ops) w untaken =
      let op : Operation = subscribing t context f in
      let now = first-Added t context f w untaken in
      let (whole, rest) =
        taken-NoToken ops (after op w) (subscribe-taken peer marshal unmarshal t c context f w) in
      (one_more (AtMostOnce marshal c.token) op ops w now whole, (now.1, rest))
  untaken-TokenOnce (updating_sig_first h context f ∷ ops) w untaken =
      let op : Operation = updating_sig_first h context f in
      let (now, kept) = update_sig_first-Added h context f w in
      let (whole, rest) = untaken-TokenOnce ops (after op w) (kept ∙ untaken) in
      (one_more (All (Tokenless marshal)) op ops w now whole, (now.1, rest))
  untaken-TokenOnce (updating_full h context f fields ∷ ops) w untaken =
      let op : Operation = updating_full h context f fields in
      let (now, kept) = update_full-Added h context f fields w in
      let (whole, rest) = untaken-TokenOnce ops (after op w) (kept ∙ untaken) in
      (one_more (All (Tokenless marshal)) op ops w now whole, (now.1, rest))
  untaken-TokenOnce (closing ∷ ops) w untaken =
      let (now, kept) = close-Added w in
      let (whole, rest) = untaken-TokenOnce ops (after closing w) (kept ∙ untaken) in
      (one_more (All (Tokenless marshal)) closing ops w now whole, (now.1, rest))

  -- Whatever subscriptions, updates and closes a caller makes with a new client, and whatever the
  -- peer answers: all calls are those of the operations, one after the other; no update and no close
  -- writes anything but encodings of messages without the key `token`; of the subscriptions only the
  -- first makes any call; and that one writes such encodings too, except for at most one body,
  -- which encodes a message that has the client's token there, or has no such key where the
  -- client's token is empty.
  pub history-TokenOnce :
      (ops : List Operation)
      → ((run peer marshal unmarshal c ops fresh).calls
          ≡ concat_map (λ (op, calls). calls) (history ops fresh))
        × TokenOnce marshal c.token (history ops fresh)
  unfolding Whole
  history-TokenOnce ops = untaken-TokenOnce ops fresh refl
