-- ===== src/Server/Dispatch/Choice.antt =====
-- Which service `findService` chooses, and what is left to read of the connection that it hands over.
use dynamic_labyrinth.Base.{
  ◌≡◌, ◌≢◌, ◌∙◌, ℕ, Bool, true, false, Option, none, some, List, [], ◌∷◌, inl, inr, refl, ap,
  if◌then◌else◌,
}
use dynamic_labyrinth.Server.Addr.{Addr}
use dynamic_labyrinth.Server.Ports.{Table, candidates}
use dynamic_labyrinth.Server.Stream.{Conn, Peeked, timeout_conn}
use dynamic_labyrinth.Server.Dispatch.{
  Peek, Found, first_peek, find_among, find_service, try_services, offer, accept, ask,
}

module _ (c : Conn) {S : Type 0} (can_handle : S → Option (List ℕ → Bool)) where
  -- A service that asks nothing suits every connection.
  abbrev suits : List ℕ → Option (List ℕ → Bool) → Bool
  suits bytes none = true
  suits bytes (some f) = f bytes

  -- The specification: the first candidate that suits the first bytes.
  unfoldable pub first_suitable : List ℕ → List S → Option S
  first_suitable bytes [] = none
  first_suitable bytes (s ∷ ss) =
      let later = first_suitable bytes ss in if suits bytes (can_handle s) then some s else later

  abbrev pub chosen : Found c can_handle → Option S
  chosen (inl e) = none
  chosen (inr (s, h)) = some s

  chosen-offer :
      (bytes : List ℕ) (p : Peeked (timeout_conn c)) (s : S) (o : Option (List ℕ → Bool))
      (next : Peek c can_handle → Found c can_handle) (later : Option S)
      → chosen (next (Peek.done p bytes)) ≡ later
      → chosen (offer c can_handle o s (Peek.done p bytes) next)
        ≡ (if suits bytes o then some s else later)
  chosen-offer bytes p s none next later e = refl
  chosen-offer bytes p s (some f) next later e = chosen_accept (f bytes)
    where
      chosen_accept :
          (b : Bool)
          → chosen (accept c can_handle b s p (next (Peek.done p bytes)))
            ≡ (if b then some s else later)
      chosen_accept true = refl
      chosen_accept false = e

  chosen-try_services :
      (bytes : List ℕ) (p : Peeked (timeout_conn c)) (ss : List S)
      → chosen (try_services c can_handle ss (Peek.done p bytes)) ≡ first_suitable bytes ss
  unfolding try_services first_suitable
  chosen-try_services bytes p [] = refl
  chosen-try_services bytes p (s ∷ ss) =
      chosen-offer bytes p s (can_handle s) (try_services c can_handle ss) (first_suitable bytes ss)
        (chosen-try_services bytes p ss)

  -- Once a service has asked, the rest goes as after the peek.
  pub try_services-peeked :
      (conn : c.State) (p : Peeked (timeout_conn c)) (bytes : List ℕ) (s : S) (ss : List S)
      (o : Option (List ℕ → Bool))
      → can_handle s ≡ o
      → o ≢ none
      → first_peek c can_handle (Peek.fresh conn) ≡ inr (p, bytes)
      → try_services c can_handle (s ∷ ss) (Peek.fresh conn)
        ≡ try_services c can_handle (s ∷ ss) (Peek.done p bytes)
  unfolding try_services
  try_services-peeked conn p bytes s ss none e ne q = absurd (ne refl)
  try_services-peeked conn p bytes s ss (some f) e ne q =
      rw e (ap (λ r. ask c can_handle f s r (try_services c can_handle ss)) q)

  chosen-try_services-fresh :
      (conn : c.State) (p : Peeked (timeout_conn c)) (bytes : List ℕ) (s : S) (ss : List S)
      (o : Option (List ℕ → Bool))
      → can_handle s ≡ o
      → first_peek c can_handle (Peek.fresh conn) ≡ inr (p, bytes)
      → chosen (try_services c can_handle (s ∷ ss) (Peek.fresh conn))
        ≡ first_suitable bytes (s ∷ ss)
  unfolding try_services first_suitable
  chosen-try_services-fresh conn p bytes s ss none e q = rw e refl
  chosen-try_services-fresh conn p bytes s ss (some f) e q =
      ap chosen (try_services-peeked conn p bytes s ss (some f) e (λ n. absurd (cc n)) q)
      ∙ chosen-try_services bytes p (s ∷ ss)

  -- Where there are two candidates or more for the address and a peek of 1024 bytes succeeds, the
  -- service that findService returns is the first candidate that suits the bytes; it returns none where
  -- no candidate does.
  pub chosen-find_service :
      (ports : Table S) (l : Addr) (conn : c.State) (s t : S) (ss : List S)
      (p : Peeked (timeout_conn c)) (bytes : List ℕ)
      → candidates l [] ports ≡ s ∷ t ∷ ss
      → first_peek c can_handle (Peek.fresh conn) ≡ inr (p, bytes)
      → chosen (find_service c can_handle ports l conn) ≡ first_suitable bytes (s ∷ t ∷ ss)
  unfolding find_service
  chosen-find_service ports l conn s t ss p bytes e q =
      ap (λ x. chosen (find_among c can_handle x conn)) e
      ∙ chosen-try_services-fresh conn p bytes s (t ∷ ss) (can_handle s) refl q
