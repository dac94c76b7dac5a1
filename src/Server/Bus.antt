-- ===== src/Server/Bus.antt =====
-- The events on their way to the channels: honeytrap/pushers/filters.go, honeytrap/pushers/bus_channel.go,
-- honeytrap/pushers/eventbus/eventbus.go, and the
-- filters of the configuration in `Run` of honeytrap/server/honeytrap.go.
pub mod Filters
pub mod Delivered
use dynamic_labyrinth.Base.{
  ℕ, Bool, true, false, Option, none, some, List, [], ◌∷◌, ◌++◌, if◌then◌else◌, Outcome, ok, err,
  panic, ◌>>=◌,
}
use dynamic_labyrinth.Base.Text.{codes, same_text}
use dynamic_labyrinth.Services.Decoder.{Stuck}

-- `Event`, by its fields: a text, or none for a value of another type.
abbrev pub Event : Type 0
Event = List (List ℕ × Option (List ℕ))

abbrev pub text_of : Option (List ℕ) → List ℕ
text_of none = []
text_of (some v) = v

-- `Get`
unfoldable pub get : List ℕ → Event → List ℕ
get key [] = []
get key ((k, v) ∷ e) = if same_text k key then text_of v else get key e

-- `Store`
unfoldable pub store : List ℕ → Option (List ℕ) → Event → Event
store key value [] = (key, value) ∷ []
store key value ((k, v) ∷ e) =
    let later = store key value e in if same_text k key then (k, value) ∷ e else (k, v) ∷ later

-- Where an event goes: to the listeners of package gobus, or to a configured channel by its name.
pub data Receiver : Type 0 where
  global_bus : Receiver
  channel_named : List ℕ → Receiver

-- Package regexp: `MustCompile`, with none for its panic, and `MatchString`.
pub record Regexps : Type 1 where
  pub Regexp : Type 0
  pub compile : List ℕ → Option Regexp
  pub matches : Regexp → List ℕ → Bool

module _ (r : Regexps) where
  -- A Channel: `BusChannel`, a configured one by its name, `tokenChannel`, or `filterChannel` with the field and the
  -- matchers of `RegexFilterFunc`.
  pub data Channel : Type 0 where
    bus_channel : Channel
    base : List ℕ → Channel
    token : List ℕ → Channel → Channel
    filter : List ℕ → List r.Regexp → Channel → Channel

  -- `RegexFilterFunc`, on the value of the field.
  unfoldable pub any_match : List r.Regexp → List ℕ → Bool
  any_match [] value = false
  any_match (rx ∷ rs) value = if r.matches rx value then true else any_match rs value

  -- What is delivered, to which channel; and the event, which all channels share.
  abbrev pub Sent : Type 0
  Sent = List (Receiver × Event) × Event

  abbrev pub pass : Bool → Sent → Event → Sent
  pass true sent e = sent
  pass false sent e = ([], e)

  -- `Send` of a channel.
  unfoldable pub send : Channel → Event → Sent
  send bus_channel e = ((global_bus, e) ∷ [], e)
  send (base name) e = ((channel_named name, e) ∷ [], e)
  send (token t ch) e = send ch (store (codes "token") (some t) e)
  send (filter field rs ch) e = pass (any_match rs (get field e)) (send ch e) e

  abbrev pub both : List (Receiver × Event) → Sent → Sent
  both front (back, e) = (front ++ back, e)

  -- `EventBus.Send`
  unfoldable pub bus_send : List Channel → Event → Sent
  bus_send [] e = ([], e)
  bus_send (ch ∷ chs) e = both (send ch e).0 (bus_send chs (send ch e).1)

  -- An entry of `filter` in the configuration.
  pub record FilterConfig : Type 0 where
    pub channels : List (List ℕ)
    pub services : List (List ℕ)
    pub categories : List (List ℕ)

  abbrev pub compiled :
      Option r.Regexp → Outcome Stuck (List r.Regexp) → Outcome Stuck (List r.Regexp)
  compiled none rs = panic
  compiled (some rx) rs = rs >>= λ l. ok (rx ∷ l)

  unfoldable pub compile_all : List (List ℕ) → Outcome Stuck (List r.Regexp)
  compile_all [] = ok []
  compile_all (x ∷ xs) = compiled (r.compile x) (compile_all xs)

  -- `FilterChannel(channel, RegexFilterFunc(field, expressions))` if there are expressions.
  abbrev pub filtered : List ℕ → List (List ℕ) → Channel → Outcome Stuck Channel
  filtered field [] ch = ok ch
  filtered field (x ∷ xs) ch = compile_all (x ∷ xs) >>= λ rs. ok (filter field rs ch)

  -- The channel that one name of a filter subscribes.
  abbrev pub subscriber : List ℕ → FilterConfig → List ℕ → Outcome Stuck Channel
  subscriber t x name = filtered (codes "category") x.categories (token t (base name)) >>= λ ch.
      filtered (codes "service") x.services ch

  module _ (is_channel : List ℕ → Bool) (t : List ℕ) where
    abbrev pub onto :
        Bool → Outcome Stuck Channel → Outcome Stuck (List Channel) → Outcome Stuck (List Channel)
    onto true ch chs = ch >>= λ x. chs >>= λ xs. ok (x ∷ xs)
    onto false ch chs = chs

    unfoldable pub subscribe : FilterConfig → List (List ℕ) → Outcome Stuck (List Channel)
    subscribe x [] = ok []
    subscribe x (n ∷ ns) = onto (is_channel n) (subscriber t x n) (subscribe x ns)

    -- The loop over `hc.config.Filters`; none for an entry that does not decode.
    unfoldable pub subscribe_all : List (Option FilterConfig) → Outcome Stuck (List Channel)
    subscribe_all [] = ok []
    subscribe_all (none ∷ xs) = subscribe_all xs
    subscribe_all (some x ∷ xs) =
        subscribe x x.channels >>= λ front. subscribe_all xs >>= λ back. ok (front ++ back)

    -- The subscribers of the bus in `Run`, in order.
    unfoldable pub subscribers : List (Option FilterConfig) → Outcome Stuck (List Channel)
    subscribers xs = subscribe_all xs >>= λ chs. ok (bus_channel ∷ chs)
