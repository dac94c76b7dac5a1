-- ===== src/Server/Bus/Delivered.antt =====
-- What the bus delivers, by the filters of the configuration.
use dynamic_labyrinth.Base.{
  ℕ, ◌≡◌, ◌∙◌, Bool, true, false, Option, none, some, List, [], ◌∷◌, ◌++◌, if◌then◌else◌, ◌&&◌,
  Outcome, ok, refl, ap, sym, inl, inr, >>=-ok, ◌>>=◌, ◌⊎◌,
}
use mathlib.Core.Path.{subst}
use dynamic_labyrinth.Base.Text.{codes}
use dynamic_labyrinth.Services.Decoder.{Stuck}
use dynamic_labyrinth.Server.Bus.Filters.{
  get-store, store-store, admits, send-filtered, bus_send-append,
}
use dynamic_labyrinth.Server.Bus.{
  Event, Receiver, global_bus, channel_named, get, store, Regexps, Channel, send, bus_send, pass,
  FilterConfig, filtered, subscriber, onto, subscribe, subscribe_all, subscribers,
}

module _ (r : Regexps) where
  -- The specification, on the texts of the configuration.
  module _ (is_channel : List ℕ → Bool) (t : List ℕ) (e : Event) where
    abbrev pub marked : Event
    marked = store (codes "token") (some t) e

    -- The event with the token, to every configured channel of the list.
    unfoldable pub to_channels : List (List ℕ) → List (Receiver × Event)
    to_channels [] = []
    to_channels (n ∷ ns) =
        let later = to_channels ns in
        if is_channel n then (channel_named n, marked) ∷ later else later

    abbrev pub by_filter : FilterConfig r → List (Receiver × Event)
    by_filter x =
        if admits r x.services (get (codes "service") e)
          && admits r x.categories (get (codes "category") e)
        then to_channels x.channels
        else []

    unfoldable pub expected : List (Option (FilterConfig r)) → List (Receiver × Event)
    expected [] = []
    expected (none ∷ xs) = expected xs
    expected (some x ∷ xs) = by_filter x ++ expected xs

  module _ (is_channel : List ℕ → Bool) (t : List ℕ) (e : Event) where
    -- An event that some channels have got already.
    record IsPassed (e' : Event) : Type 0 where
      service : get (codes "service") e' ≡ get (codes "service") e
      category : get (codes "category") e' ≡ get (codes "category") e
      token : store (codes "token") (some t) e' ≡ marked is_channel t e

    marked-IsPassed : IsPassed (marked is_channel t e)
    marked-IsPassed = record {
      service = get-store (codes "token") (codes "service") (some t) e;
      category = get-store (codes "token") (codes "category") (some t) e;
      token = store-store (codes "token") (some t) e;
    }

    -- What a list of subscribers delivers of an event that others have got, and that it leaves such an
    -- event.
    abbrev Delivers : List (Channel r) → List (Receiver × Event) → Type 0
    Delivers chs ds =
        (e' : Event) → IsPassed e' → ((bus_send r chs e').0 ≡ ds) × IsPassed (bus_send r chs e').1

    Delivers-nil : Delivers [] []
    unfolding bus_send
    Delivers-nil e' p = (refl, p)

    Delivers-append :
        (chs chs' : List (Channel r)) (ds ds' : List (Receiver × Event))
        → Delivers chs ds
        → Delivers chs' ds'
        → Delivers (chs ++ chs') (ds ++ ds')
    Delivers-append chs chs' ds ds' d d' e' p =
        let (first, p') = d e' p in
        let (second, p'') = d' (bus_send r chs e').1 p' in
        subst (λ (x : List (Receiver × Event) × Event). (x.0 ≡ ds ++ ds') × IsPassed x.1)
          (sym (bus_send-append r chs chs' e'))
          (
            ap (λ l. l ++ (bus_send r chs' (bus_send r chs e').1).0) first
                ∙ ap (λ l. ds ++ l) second,
            p'',
          )

    -- One channel behind both filters.
    pass_twice :
        (b c : Bool) (n : List ℕ) (e' : Event)
        → IsPassed e'
        → ((pass r b
                (pass r c
                  (((channel_named n, marked is_channel t e) ∷ []), marked is_channel t e)
                  e')
                e').0
              ++ []
            ≡ (if b && c then (channel_named n, marked is_channel t e) ∷ [] else []))
          × IsPassed
              (pass r b
                (pass r c
                  (((channel_named n, marked is_channel t e) ∷ []), marked is_channel t e)
                  e')
                e').1
    pass_twice true true n e' p = (refl, marked-IsPassed)
    pass_twice true false n e' p = (refl, p)
    pass_twice false c n e' p = (refl, p)

    subscriber-Delivers :
        (x : FilterConfig r) (n : List ℕ) (ch : Channel r)
        → subscriber r t x n ≡ ok ch
        → Delivers (ch ∷ []) (
            if admits r x.services (get (codes "service") e)
              && admits r x.categories (get (codes "category") e)
            then (channel_named n, marked is_channel t e) ∷ []
            else [])
    unfolding bus_send send
    subscriber-Delivers x n ch q e' p =
        let base : Channel r = Channel.token t (Channel.base n) in
        let (ch', f, g) =
          >>=-ok (filtered r (codes "category") x.categories base)
            (λ c. filtered r (codes "service") x.services c) q in
        rw
          (
            send-filtered r (codes "service") x.services ch' ch e' g,
            send-filtered r (codes "category") x.categories base ch' e' f,
            p.service,
            p.category,
          )
          (rw p.token (pass_twice _ _ n e' p))

    onto-ok :
        (b : Bool) (ch : Outcome Stuck (Channel r)) (m : Outcome Stuck (List (Channel r)))
        (chs : List (Channel r))
        → onto r is_channel t b ch m ≡ ok chs
        → ((b ≡ false) × (m ≡ ok chs))
          ⊎ ((c : Channel r) × (rest : List (Channel r)) × (b ≡ true)
              × (ch ≡ ok c)
              × (m ≡ ok rest)
              × (c ∷ rest ≡ chs))
    onto-ok false ch m chs q = inl (refl, q)
    onto-ok true ch m chs q =
        let (c, f, g) = >>=-ok ch (λ x. m >>= λ xs. ok (x ∷ xs)) q in
        let (rest, h, k) = >>=-ok m (λ xs. ok (c ∷ xs)) g in inr (c, rest, refl, f, h, cc k)

    by_filter-cons :
        (b : Bool) (n : List ℕ) (ds : List (Receiver × Event))
        → ((if b then (channel_named n, marked is_channel t e) ∷ [] else [])
            ++ (if b then ds else []))
          ≡ (if b then (channel_named n, marked is_channel t e) ∷ ds else [])
    by_filter-cons true n ds = refl
    by_filter-cons false n ds = refl

    if_nil : (b : Bool) → ◌≡◌ {A = List (Receiver × Event)} (if b then [] else []) []
    if_nil true = refl
    if_nil false = refl

    abbrev is_admitted : FilterConfig r → Bool
    is_admitted x =
        admits r x.services (get (codes "service") e)
        && admits r x.categories (get (codes "category") e)

    subscribe-Delivers :
        (x : FilterConfig r) (ns : List (List ℕ)) (chs : List (Channel r))
        → subscribe r is_channel t x ns ≡ ok chs
        → Delivers chs (if is_admitted x then to_channels is_channel t e ns else [])
    unfolding subscribe to_channels
    subscribe-Delivers x [] chs q =
        let g : [] ≡ chs = cc q in
        subst (λ c. Delivers c (if is_admitted x then [] else [])) g
          (subst (Delivers []) (sym (if_nil (is_admitted x))) Delivers-nil)
    subscribe-Delivers x (n ∷ ns) chs q =
        elim (onto-ok (is_channel n) (subscriber r t x n) (subscribe r is_channel t x ns) chs q) [
          | inl (known, rest) ↦ rw known (subscribe-Delivers x ns chs rest)
          | inr (c, rest, known, f, g, h) ↦
              let later : List (Receiver × Event) = to_channels is_channel t e ns in
              rw known (
                subst
                  (λ l. Delivers l (
                    if is_admitted x then (channel_named n, marked is_channel t e) ∷ later else []))
                  h
                  (subst (λ ds. Delivers (c ∷ rest) ds) (by_filter-cons (is_admitted x) n later)
                    (Delivers-append (c ∷ []) rest _ _ (subscriber-Delivers x n c f)
                      (subscribe-Delivers x ns rest g))))
        ]

    subscribe_all-Delivers :
        (xs : List (Option (FilterConfig r))) (chs : List (Channel r))
        → subscribe_all r is_channel t xs ≡ ok chs
        → Delivers chs (expected is_channel t e xs)
    unfolding subscribe_all expected
    subscribe_all-Delivers [] chs q =
        let g : [] ≡ chs = cc q in subst (λ c. Delivers c []) g Delivers-nil
    subscribe_all-Delivers (none ∷ xs) chs q = subscribe_all-Delivers xs chs q
    subscribe_all-Delivers (some x ∷ xs) chs q =
        let (front, f, g) =
          >>=-ok (subscribe r is_channel t x x.channels)
            (λ front. subscribe_all r is_channel t xs >>= λ back. ok (front ++ back)) q in
        let (back, h, k) =
          >>=-ok (subscribe_all r is_channel t xs) (λ back. ok (front ++ back)) g in
        let whole : front ++ back ≡ chs = cc k in
        subst (λ l. Delivers l (expected is_channel t e (some x ∷ xs))) whole
          (Delivers-append front back _ _ (subscribe-Delivers x x.channels front f)
            (subscribe_all-Delivers xs back h))

    bus_send-global :
        (chs : List (Channel r))
        → (bus_send r (Channel.bus_channel ∷ chs) e).0 ≡ (global_bus, e) ∷ (bus_send r chs e).0
    unfolding bus_send send
    bus_send-global chs = refl

    -- Where every expression of the filters compiles, an event that is sent to the bus reaches the global bus, as
    -- it is, and then, in the order of the configuration, each channel of each filter that admits its service and
    -- its category, with the token put in, and nothing else.
    pub bus_send-subscribers :
        (xs : List (Option (FilterConfig r))) (chs : List (Channel r))
        → subscribers r is_channel t xs ≡ ok chs
        → (bus_send r chs e).0 ≡ (global_bus, e) ∷ expected is_channel t e xs
    unfolding subscribers
    bus_send-subscribers xs chs q =
        let (rest, f, g) =
          >>=-ok (subscribe_all r is_channel t xs) (λ l. ok (Channel.bus_channel ∷ l)) q in
        let whole : Channel.bus_channel ∷ rest ≡ chs = cc g in
        let (delivered, after) =
          subscribe_all-Delivers xs rest f e
            (record { service = refl; category = refl; token = refl }) in
        subst (λ l. (bus_send r l e).0 ≡ (global_bus, e) ∷ expected is_channel t e xs) whole
          (bus_send-global rest ∙ ap (λ l. (global_bus, e) ∷ l) delivered)
