-- ===== src/Server/Bus/Filters.antt =====
-- The parts of a delivery: the fields of an event, the matchers of a filter, and the subscribers in turn.
use dynamic_labyrinth.Base.{
  ℕ, ◌≡◌, ◌∙◌, Bool, true, false, Option, none, some, List, [], ◌∷◌, ◌++◌, if◌then◌else◌, Outcome,
  ok, err, panic, refl, ap, sym, arith, >>=-ok, append_assoc,
}
use mathlib.Core.Path.{subst}
use dynamic_labyrinth.Base.Text.{same_text, same_text_refl, same_text-eq}
use dynamic_labyrinth.Services.Decoder.{Stuck}
use dynamic_labyrinth.Server.Bus.{
  Event, Receiver, get, store, text_of, Regexps, Channel, any_match, send, bus_send, pass, both,
  compiled, compile_all, filtered,
}

-- A field that is stored is read back, and the others stay.
pub get-store :
    (key other : List ℕ) (v : Option (List ℕ)) (e : Event)
    → get other (store key v e) ≡ (if same_text key other then text_of v else get other e)
unfolding get store
get-store key other v [] = refl
get-store key other v ((k, w) ∷ e) =
    ground (arith, same_text-eq k key, same_text-eq key other, get-store key other v e)

pub store-store :
    (key : List ℕ) (v : Option (List ℕ)) (e : Event) → store key v (store key v e) ≡ store key v e
unfolding store
store-store key v [] = rw (same_text_refl key) refl
store-store key v ((k, w) ∷ e) = ground (arith, store-store key v e)

module _ (r : Regexps) where
  -- The specification, on the texts of the configuration.
  unfoldable pub hit : Option r.Regexp → List ℕ → Bool
  hit none value = false
  hit (some rx) value = r.matches rx value

  unfoldable pub some_matches : List (List ℕ) → List ℕ → Bool
  unfolding hit
  some_matches [] value = false
  some_matches (x ∷ xs) value = if hit (r.compile x) value then true else some_matches xs value

  -- No expressions admit every value.
  abbrev pub admits : List (List ℕ) → List ℕ → Bool
  admits [] value = true
  admits (x ∷ xs) value = some_matches (x ∷ xs) value

  compiled-ok :
      (o : Option r.Regexp) (m : Outcome Stuck (List r.Regexp)) (rs : List r.Regexp)
      → compiled r o m ≡ ok rs
      → (rx : r.Regexp) × (l : List r.Regexp) × (o ≡ some rx) × (m ≡ ok l) × (rx ∷ l ≡ rs)
  compiled-ok none m rs q = absurd (cc q)
  compiled-ok (some rx) (ok l) rs q = (rx, l, refl, refl, cc q)
  compiled-ok (some rx) (err e) rs q = absurd (cc q)
  compiled-ok (some rx) panic rs q = absurd (cc q)

  -- The matchers accept a value that one of the expressions matches.
  any_match-compile_all :
      (xs : List (List ℕ)) (rs : List r.Regexp) (value : List ℕ)
      → compile_all r xs ≡ ok rs
      → any_match r rs value ≡ some_matches xs value
  unfolding compile_all any_match some_matches hit
  any_match-compile_all [] rs value q =
      let e : [] ≡ rs = cc q in subst (λ l. any_match r l value ≡ false) e refl
  any_match-compile_all (x ∷ xs) rs value q =
      let (rx, l, found, rest, e) = compiled-ok (r.compile x) (compile_all r xs) rs q in
      subst (λ y. any_match r y value ≡ some_matches (x ∷ xs) value) e
        (rw (found, any_match-compile_all xs l value rest) refl)

  -- A channel that is filtered passes on an event whose field is admitted.
  pub send-filtered :
      (field : List ℕ) (xs : List (List ℕ)) (ch ch' : Channel r) (e : Event)
      → filtered r field xs ch ≡ ok ch'
      → send r ch' e ≡ pass r (admits xs (get field e)) (send r ch e) e
  unfolding send
  send-filtered field [] ch ch' e q = let g : ch ≡ ch' = cc q in ap (λ c. send r c e) (sym g)
  send-filtered field (x ∷ xs) ch ch' e q =
      let (rs, f, g) = >>=-ok (compile_all r (x ∷ xs)) (λ rs. ok (Channel.filter field rs ch)) q in
      let h : Channel.filter field rs ch ≡ ch' = cc g in
      subst (λ c. send r c e ≡ pass r (some_matches (x ∷ xs) (get field e)) (send r ch e) e) h
        (ap (λ b. pass r b (send r ch e) e) (any_match-compile_all (x ∷ xs) rs (get field e) f))

  pub bus_send-append :
      (chs chs' : List (Channel r)) (e : Event)
      → bus_send r (chs ++ chs') e
        ≡ both r (bus_send r chs e).0 (bus_send r chs' (bus_send r chs e).1)
  unfolding bus_send
  bus_send-append [] chs' e = refl
  bus_send-append (ch ∷ chs) chs' e =
      let sent : List (Receiver × Event) × Event = send r ch e in
      ap (both r sent.0) (bus_send-append chs chs' sent.1)
      ∙ ap (λ l. (l, (bus_send r chs' (bus_send r chs sent.1).1).1))
          (sym (
            append_assoc sent.0 (bus_send r chs sent.1).0
              (bus_send r chs' (bus_send r chs sent.1).1).0))
